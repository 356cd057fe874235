-- ===== src/Recovery/Attempt.antt =====
-- tuntop/core/recovery.py: the worker of `RecoveryEngine`, one attempt from when it is due to the
-- verdict on it.
use tun_top.Prelude.{
  ℕ, ◌+◌, ◌-◌, ◌*◌, String, ◌<>◌, Bool, true, false, not, ◌&&◌, ◌||◌, Option, none, some, List, [],
  ◌∷◌, leb, if◌then◌else◌, or_text,
}
use tun_top.State.{TunnelState, running, degraded, recovering, is_operational, same}
use tun_top.State.Machine.{state, try_transition}
use tun_top.Recovery.{
  FailureKind, same_kind, RecoveryAction, Incident, Report, Ladder, Engine, say, at_or_last,
  delay_for_attempt, open_incident, is_stable, stale, not_rearmed, not_crash_loop, attempt_started,
  verified, gave_up_after, disabled, retrying, crashed,
}

-- `_work`: an incident that is due is taken off the books.
abbrev take_if : Option Incident → ℕ → Engine → Engine
take_if none now e = e
take_if (some i) now e =
    if leb i.due_at now
    then record e { incident = none; in_attempt = true; in_flight = some i }
    else e

unfoldable pub take_due : ℕ → Engine → Engine
take_due now e = if e.stopped then e else take_if e.incident now e

-- `machine.try_transition(target, reason)`
abbrev pub request : TunnelState → String → ℕ → Engine → Engine
request target reason now e = record e {
  machine = (try_transition (state target) (some reason) now e.machine).1;
}

abbrev pub may_recover : TunnelState → Bool
may_recover s = is_operational s || same s recovering

-- The reason leaves out the number of the attempt and the kind, which the code prints.
abbrev pub claim : TunnelState → ℕ → Engine → Engine
claim s now e = if may_recover s then request recovering "recovery attempt" now e else e

-- The worker is done with the incident.
abbrev pub let_go : Engine → Engine
let_go e = record e { in_attempt = false; in_flight = none }

abbrev pub counted : Incident → Incident
counted i = record i { attempt = i.attempt + 1 }

-- `actions[min(attempt - 1, len(actions) - 1)]`, for the attempt that is counted already
abbrev pub rung : List RecoveryAction → ℕ → Option RecoveryAction
rung [] attempt = none
rung (a ∷ actions) attempt = some (at_or_last a actions (attempt - 1))

abbrev pub ladder_actions : Option Ladder → List RecoveryAction
ladder_actions none = []
ladder_actions (some ladder) = ladder.actions

abbrev pub begin_with :
    Option RecoveryAction → Incident → ℕ → Engine → Option RecoveryAction × Engine
begin_with none i now e = (none, let_go (record e { in_flight = some i }))
begin_with (some action) i now e = (
  some action,
  say (attempt_started i.attempt action.name)
      (claim e.machine.current now (record e { in_flight = some i })),
)

abbrev pub begin_in_flight : Option Incident → ℕ → Engine → Option RecoveryAction × Engine
begin_in_flight none now e = (none, e)
begin_in_flight (some i) now e =
    begin_with (rung (ladder_actions (e.ladders i.kind)) (i.attempt + 1)) (counted i) now e

-- `_run_attempt_inner` up to the repair: the rung to run, if the kind has a ladder
unfoldable pub begin_attempt : ℕ → Engine → Option RecoveryAction × Engine
begin_attempt now e = begin_in_flight e.in_flight now e

-- What a callable of a rung did
pub data Reply : Type 0 where
  returned : Bool → Reply
  raised : String → Reply

abbrev check_reply : Reply → Bool × String
check_reply (returned b) = (b, "")
check_reply (raised text) = (false, " (verify raised: " <> text <> ")")

-- `ok` and `err` of an attempt; the check runs only where the repair returned true.
unfoldable pub verdict : RecoveryAction → Reply → Reply → Bool × String
verdict action (raised text) check = (false, " (repair raised: " <> text <> ")")
verdict action (returned false) check = (false, "")
verdict action (returned true) check = if action.has_verify then check_reply check else (true, "")

-- `_drain_pending(same_kind)`
abbrev drop_stale : Option FailureKind → FailureKind → Bool
drop_stale none kind = false
drop_stale (some k) kind = same_kind kind k

abbrev drain_on : Option Ladder → Report → ℕ → Engine → Engine
unfolding open_incident
drain_on none r now e = e
drain_on (some ladder) r now e = open_incident r ladder now e

abbrev drain_report : Option FailureKind → Report → ℕ → Engine → Engine
drain_report handled r now e =
    if drop_stale handled r.kind
    then say (stale r.kind) e
    else if e.stopped || e.paused || e.gave_up
    then e
    else elim e.incident [ some i ↦ e | none ↦ drain_on (e.ladders r.kind) r now e ]

unfoldable pub drain_pending : Option FailureKind → ℕ → Engine → Engine
unfolding open_incident
drain_pending handled now e = elim e.pending [
  | none ↦ e
  | some r ↦ drain_report handled r now (record e { pending = none })
]

-- The branch of a repair that was verified
abbrev settled : ℕ → Engine → Engine
settled now e = record e {
  incident = none;
  stats = record e.stats { repairs_ok = e.stats.repairs_ok + 1 };
  consecutive_failed = elim e.last_success_at [
    | none ↦ 0
    | some last ↦ if is_stable now e then 0 else e.consecutive_failed
  ];
  last_success_at = some now;
}

abbrev back_to_running : TunnelState → String → ℕ → Engine → Engine
back_to_running s reason now e =
    if same s recovering || same s degraded then request running reason now e else e

abbrev pub fixed : RecoveryAction → ℕ → Engine → Engine
fixed action now e =
    let e1 = settled now e in
    say (verified action.name) (
      back_to_running e1.machine.current ("recovery verified after '" <> action.name <> "'") now e1)

unfoldable pub succeed : Incident → RecoveryAction → ℕ → Engine → Engine
succeed i action now e = drain_pending (some i.kind) now (fixed action now e)

-- `_counts_for_crash_loop(kind)`
abbrev pub counts_for : Option Ladder → Bool
counts_for none = true
counts_for (some ladder) = ladder.crash_loop

-- The branch of an incident whose attempts are used up
abbrev pub exhausted : Bool → Incident → String → Engine → Engine
exhausted counts i why e =
    say (gave_up_after i.attempt (or_text why "repair did not verify")) (record e {
      incident = none;
      stats = record e.stats { give_ups = e.stats.give_ups + 1 };
      consecutive_failed = if counts then e.consecutive_failed + 1 else e.consecutive_failed;
    })

abbrev pub walk_back : TunnelState → String → ℕ → Engine → Engine
walk_back s why now e =
    if same s recovering
    then request degraded ("recovery exhausted (" <> or_text why "repair did not verify" <> ")") now
        e
    else e

abbrev pub guard_loop : Bool → Engine → Engine
guard_loop counts e =
    if counts && leb e.give_up_after e.consecutive_failed
    then say (disabled e.consecutive_failed) (record e { gave_up = true })
    else if not counts
    then say not_crash_loop e
    else e

abbrev pub given_up : Bool → Incident → String → ℕ → Engine → Engine
given_up counts i why now e =
    let e1 = exhausted counts i why e in guard_loop counts (walk_back e1.machine.current why now e1)

unfoldable pub give_up : Incident → String → ℕ → Engine → Engine
give_up i why now e = drain_pending none now (given_up (counts_for (e.ladders i.kind)) i why now e)

-- The branch of an attempt that failed with attempts left
unfoldable pub retry : Incident → RecoveryAction → ℕ → Engine → Engine
unfolding delay_for_attempt
retry i action now e =
    if e.paused || e.stopped || e.gave_up
    then say not_rearmed e
    else (let wait = delay_for_attempt (i.attempt + 1) * e.delay_scale in
        say (retrying (i.attempt + 1) wait)
          (record e { incident = some (record i { due_at = now + wait }) }))

abbrev pub failed_once : Engine → Engine
failed_once e = record e { stats = record e.stats { repairs_failed = e.stats.repairs_failed + 1 } }

abbrev pub judge_incident : Incident → RecoveryAction → Bool × String → ℕ → Engine → Engine
judge_incident i action (true, why) now e = succeed i action now e
judge_incident i action (false, why) now e =
    if leb e.max_attempts i.attempt
    then give_up i why now (failed_once e)
    else retry i action now (failed_once e)

abbrev pub judge_in_flight : Option Incident → RecoveryAction → Bool × String → ℕ → Engine → Engine
judge_in_flight none action result now e = e
judge_in_flight (some i) action result now e = judge_incident i action result now (let_go e)

-- `_run_attempt_inner` from the replies of the rung on
unfoldable pub judge : RecoveryAction → Reply → Reply → ℕ → Engine → Engine
judge action repair check now e =
    judge_in_flight e.in_flight action (verdict action repair check) now e

abbrev attempt_of : Option Incident → ℕ
attempt_of none = 0
attempt_of (some i) = i.attempt

-- `_run_attempt`, where an exception escapes the body
unfoldable pub crash : String → Engine → Engine
crash text e = say (crashed (attempt_of e.in_flight) text) (record (let_go e) { pending = none })
