-- ===== src/Manager.antt =====
-- tuntop/core/tunnel_manager.py: `TunnelManager`, the lifecycle over the state machine. The
-- injected callables are `Hooks`: each may move the machine while it runs, as the reader thread
-- does, and returns or raises an exception with a text.
pub mod Lifecycle
pub mod Stop
use tun_top.Prelude.{
  ℕ, ◌+◌, String, ◌<>◌, Bool, true, false, Option, none, some, List, [], ◌∷◌, ◌++◌, if◌then◌else◌,
  or_text,
}
use tun_top.State.{TunnelState, stopped, starting, verifying, running, degraded, stopping, failed}
use tun_top.State.Machine.{Machine, StateTransition, state, try_transition}

-- The machine afterwards, and the text of the exception that was raised, if one was.
abbrev pub Hook : Type 0
Hook = Machine → Machine × Option String

-- `startup` is `startup_recover`, or the default in core/startup_recovery.py; `verify` is
-- `verify_binaries`. A hook that was not given is `none`.
pub record Hooks : Type 0 where
  pub startup : Hook
  pub verify : Option Bool
  pub launch : Option Hook
  pub teardown : Option Hook

pub data Level : Type 0 where
  info warn error : Level

-- `recovery` tells whether an engine is attached, and whether its worker runs; `log` lists the
-- calls of `on_log`, whose exceptions are swallowed.
pub record Manager : Type 0 where
  pub machine : Machine
  pub recovery : Option Bool
  pub hooks : Hooks
  pub log : List (Level × String)

-- `_blog`, for the component CORE
abbrev blog : Level → String → Manager → Manager
blog level message s = record s { log = s.log ++ (level, message) ∷ [] }

-- A move of the machine
abbrev request : TunnelState → String → ℕ → Manager → Manager
request target reason now s = record s {
  machine = (try_transition (state target) (some reason) now s.machine).1;
}

-- A hook that is `None` does nothing.
abbrev call : Option Hook → Hook
call none m = (m, none)
call (some hook) m = hook m

-- `self.recovery.start()`, if there is an engine that is not running
abbrev start_engine : Option Bool → Option Bool
start_engine none = none
start_engine (some runs) = some true

abbrev finish_startup : Machine × Option String → Manager → Option String × Manager
finish_startup (m, none) s = (
  none,
  blog info "startup recovery complete"
      (record s { machine = m; recovery = start_engine s.recovery }),
)
finish_startup (m, some e) s = (some e, record s { machine = m })

-- `startup_recovery()`; what the hook raises is raised.
unfoldable pub startup_recovery : Manager → Option String × Manager
startup_recovery s = finish_startup (s.hooks.startup s.machine) s

abbrev verdict : Option Bool → Manager → Bool × Manager
verdict none s = (
  false,
  blog warn
      "verify_binaries called with no verifier configured - treating as FAILED rather than raising"
      s,
)
verdict (some b) s = (b, s)

-- `verify_binaries()`
unfoldable pub verify_binaries : Manager → Bool × Manager
verify_binaries s = verdict s.hooks.verify s

abbrev after_launch : Bool → ℕ → Machine × Option String → Manager → Bool × Manager
after_launch verify_immediately later (m, none) s =
    let up = record s { machine = m } in
    let moved = if verify_immediately then request verifying "launch attempted" later up else up in
    (true, blog info "tunnel launch requested" moved)
after_launch verify_immediately later (m, some e) s = (
  false,
  blog error ("launch failed: " <> e)
      (request failed ("launch error: " <> e) later (record s { machine = m })),
)

abbrev begin_start : Bool → ℕ → Option StateTransition × Machine → Manager → Bool × Manager
begin_start verify_immediately later (none, m) s = (false, record s { machine = m })
begin_start verify_immediately later (some event, m) s =
    after_launch verify_immediately later (call s.hooks.launch m) (record s { machine = m })

-- `request_start(verify_immediately)`, begun at `now` and back from the launch at `later`
unfoldable pub request_start : Bool → ℕ → ℕ → Manager → Bool × Manager
request_start verify_immediately now later s =
    begin_start verify_immediately later
      (try_transition (state starting) (some "user start") now s.machine) s

-- `mark_verified(ok, detail)`
unfoldable pub mark_verified : Bool → String → ℕ → Manager → Manager
mark_verified ok detail now s =
    blog (if ok then info else warn)
      (if ok then "tunnel verified" else "tunnel degraded: " <> detail)
      (request (if ok then running else degraded)
        (or_text detail (if ok then "verified" else "verify failed")) now s)

abbrev after_teardown : ℕ → Machine × Option String → Manager → Bool × Manager
after_teardown later (m, some e) s = (
  false,
  blog error ("tunnel teardown FAILED - leftover routes may remain: " <> e)
      (request failed ("teardown failed: " <> e) later (record s { machine = m })),
)
after_teardown later (m, none) s = (
  true,
  blog info "tunnel stopped" (request stopped "teardown complete" later (record s { machine = m })),
)

abbrev begin_stop : ℕ → Option StateTransition × Machine → Manager → Bool × Manager
begin_stop later (none, m) s = (false, record s { machine = m })
begin_stop later (some event, m) s =
    after_teardown later (call s.hooks.teardown m) (record s { machine = m })

-- `request_stop()`, begun at `now` and back from the teardown at `later`
unfoldable pub request_stop : ℕ → ℕ → Manager → Bool × Manager
request_stop now later s =
    begin_stop later (try_transition (state stopping) (some "user stop") now s.machine) s
