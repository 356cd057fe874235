-- ===== src/Manager/Stop.antt =====
-- tuntop/core/tunnel_manager.py: `request_stop` and `mark_verified`, and a whole run of the tunnel.
use tun_top.Prelude.{
  ℕ, ◌≡◌, ◌∙◌, ap, ◌↔◌, refl, String, Bool, true, false, arith, not, Option, none, some,
  if◌then◌else◌, Bool-cases, inl, inr, ◌||◌,
}
use tun_top.State.{
  TunnelState, stopped, starting, verifying, running, degraded, stopping, failed, allowed,
  is_health, is_operational, same,
}
use tun_top.State.Machine.{Machine, state, try_transition}
use tun_top.State.Machine.Effects.{current-try_transition, event-try_transition}
use tun_top.Manager.{
  Manager, Hook, after_launch, after_teardown, request_start, request_stop, mark_verified, call,
}
use tun_top.Manager.Lifecycle.{
  at_launch, launched, can_start, start_allowed, start_refused, current-request_start,
  request_start_iff,
}

can_stop : (c : TunnelState) → allowed c stopping ≡ not (same c stopped || same c stopping)
unfolding allowed
can_stop c = ground arith

from_stopping : (allowed stopping stopped ≡ true) × (allowed stopping failed ≡ true)
unfolding allowed
from_stopping = (refl, refl)

-- What the code after the teardown returns, and where it leaves a machine that is stopping.
returned-after_teardown :
    (later : ℕ) (end : Machine × Option String) (s : Manager)
    → ((after_teardown later end s).0 ≡ true) ↔ (end.1 ≡ none)
returned-after_teardown later (m, none) s = (λ _. refl, λ _. refl)
returned-after_teardown later (m, some e) s = (λ r. cc, λ r. cc)

current-after_teardown :
    (later : ℕ) (end : Machine × Option String) (s : Manager)
    → end.0.current ≡ stopping
    → (after_teardown later end s).1.machine.current
      ≡ (if (after_teardown later end s).0 then stopped else failed)
current-after_teardown later (m, none) s h =
    rw (current-try_transition, h) (ground (arith, from_stopping.0))
current-after_teardown later (m, some e) s h =
    rw (current-try_transition, h) (ground (arith, from_stopping.1))

module _ (now later : ℕ) (s : Manager) where
  abbrev pub at_teardown : Machine
  at_teardown = (try_transition (state stopping) (some "user stop") now s.machine).1

  -- What the teardown leaves, and the exception that it raised.
  abbrev pub torn_down : Machine × Option String
  torn_down = call s.hooks.teardown at_teardown

  stop_allowed :
      allowed s.machine.current stopping ≡ true
      → request_stop now later s
        ≡ after_teardown later torn_down (record s { machine = at_teardown })
  unfolding request_stop
  stop_allowed h = ground (arith, event-try_transition stopping (some "user stop") now s.machine)

  stop_refused :
      allowed s.machine.current stopping ≡ false
      → request_stop now later s ≡ (false, record s { machine = at_teardown })
  unfolding request_stop
  stop_refused h = ground (arith, event-try_transition stopping (some "user stop") now s.machine)

  -- A stop succeeds exactly if the tunnel was neither stopped nor stopping and the teardown
  -- returned.
  pub request_stop_iff : ((request_stop now later s).0 ≡ true) ↔ (
      (not (same s.machine.current stopped || same s.machine.current stopping) ≡ true)
      × (torn_down.1 ≡ none))
  request_stop_iff = elim (Bool-cases (allowed s.machine.current stopping)) [
    | inl h ↦
        rw (stop_allowed h, ← can_stop s.machine.current, h)
          (
            λ r. (
              refl,
              (returned-after_teardown later torn_down (record s { machine = at_teardown })).0 r,
            ),
            λ (_, r).
                (returned-after_teardown later torn_down (record s { machine = at_teardown })).1 r,
          )
    | inr h ↦ rw (stop_refused h, ← can_stop s.machine.current, h) (λ r. cc, λ (r, _). cc)
  ]

  -- If a stop is allowed and its teardown leaves the machine stopping, then the machine ends in
  -- `stopped` after a stop that succeeds, and in `failed` after one whose teardown raised.
  pub current-request_stop :
      allowed s.machine.current stopping ≡ true
      → torn_down.0.current ≡ stopping
      → (request_stop now later s).1.machine.current
        ≡ (if (request_stop now later s).0 then stopped else failed)
  current-request_stop h t =
      rw (stop_allowed h)
        (current-after_teardown later torn_down (record s { machine = at_teardown }) t)

verified_state :
    (c : TunnelState) (ok : Bool)
    → is_operational (
        if allowed c (if ok then running else degraded)
        then (if ok then running else degraded)
        else c)
      ≡ (same c verifying || is_health c)
unfolding allowed
verified_state c ok = ground arith

-- After a verdict on the traffic the tunnel counts as up exactly if it was verifying or in the
-- health cycle before: a verdict that comes at any other time brings nothing up.
pub operational-mark_verified :
    (ok : Bool) (detail : String) (now : ℕ) (s : Manager)
    → is_operational (mark_verified ok detail now s).machine.current
      ≡ (same s.machine.current verifying || is_health s.machine.current)
unfolding mark_verified
operational-mark_verified ok detail now s =
    rw current-try_transition (verified_state s.machine.current ok)

-- A hook that returns and leaves the machine alone.
abbrev pub IsQuiet : Option Hook → Type 0
IsQuiet hook = (m : Machine) → call hook m ≡ (m, none)

hooks-after_launch :
    (v : Bool) (later : ℕ) (end : Machine × Option String) (s : Manager)
    → (after_launch v later end s).1.hooks ≡ s.hooks
hooks-after_launch true later (m, none) s = refl
hooks-after_launch false later (m, none) s = refl
hooks-after_launch v later (m, some e) s = refl

hooks-request_start :
    (v : Bool) (now later : ℕ) (s : Manager) → (request_start v now later s).1.hooks ≡ s.hooks
unfolding request_start
hooks-request_start v now later s = elim (Bool-cases (allowed s.machine.current starting)) [
  | inl h ↦ rw (start_allowed v now later s h) (
      hooks-after_launch v later (launched v now later s)
        (record s { machine = at_launch v now later s }))
  | inr h ↦ rw (start_refused v now later s h)
]

module _ (s : Manager) (t0 t1 t2 t3 t4 : ℕ) (detail : String) where
  abbrev pub started : Manager
  started = (request_start true t0 t1 s).1

  abbrev pub up : Manager
  up = mark_verified true detail t2 started

  started_verifying :
      (same s.machine.current stopped || same s.machine.current failed) ≡ true
      → IsQuiet s.hooks.launch
      → ((request_start true t0 t1 s).0 ≡ true) × (started.machine.current ≡ verifying)
  started_verifying h l =
      let a : allowed s.machine.current starting ≡ true = rw (can_start s.machine.current) h in
      let q = l (at_launch true t0 t1 s) in
      let n : (launched true t0 t1 s).1 ≡ none = ap (λ (r : Machine × Option String). r.1) q in
      let c : (launched true t0 t1 s).0.current ≡ starting =
        ap (λ (r : Machine × Option String). r.0.current) q ∙ rw (current-try_transition, a) in
      let r = (request_start_iff true t0 t1 s).1 (h, n) in
      (r, current-request_start true t0 t1 s a (rw c) ∙ rw r)

  up_running : started.machine.current ≡ verifying → up.machine.current ≡ running
  unfolding mark_verified allowed
  up_running h = rw (current-try_transition, h)

  hooks-up : up.hooks ≡ s.hooks
  unfolding mark_verified
  hooks-up = hooks-request_start true t0 t1 s

  up_stopped :
      up.machine.current ≡ running
      → IsQuiet s.hooks.teardown
      → ((request_stop t3 t4 up).0 ≡ true) × ((request_stop t3 t4 up).1.machine.current ≡ stopped)
  up_stopped h d =
      let a : allowed up.machine.current stopping ≡ true = rw (can_stop up.machine.current, h) in
      let q : torn_down t3 t4 up ≡ (at_teardown t3 t4 up, none) =
        rw hooks-up (d (at_teardown t3 t4 up)) in
      let n : (torn_down t3 t4 up).1 ≡ none = ap (λ (r : Machine × Option String). r.1) q in
      let c : (torn_down t3 t4 up).0.current ≡ stopping =
        ap (λ (r : Machine × Option String). r.0.current) q ∙ rw (current-try_transition, a) in
      let r = (request_stop_iff t3 t4 up).1 (rw h, n) in
      (r, current-request_stop t3 t4 up a c ∙ rw r)

  -- With a launch and a teardown that return and leave the machine to its phases, a run from
  -- `stopped` or `failed` starts, is verified and stops: both requests succeed, and the tunnel is
  -- verifying after the first, running after the verdict and stopped at the end.
  pub whole_run :
      (same s.machine.current stopped || same s.machine.current failed) ≡ true
      → IsQuiet s.hooks.launch
      → IsQuiet s.hooks.teardown
      → ((request_start true t0 t1 s).0 ≡ true)
        × (started.machine.current ≡ verifying)
        × (up.machine.current ≡ running)
        × ((request_stop t3 t4 up).0 ≡ true)
        × ((request_stop t3 t4 up).1.machine.current ≡ stopped)
  whole_run h l d =
      let (r, v) = started_verifying h l in
      let u = up_running v in let (q, e) = up_stopped u d in (r, v, u, q, e)
