-- ===== src/Recovery.antt =====
-- tuntop/core/recovery.py: `RecoveryEngine`, its configuration and the reports that it takes. Each
-- section that holds the lock is one function. A time is a count of microseconds, a delay a count of
-- milliseconds and the scale a count of thousandths, so that a scaled delay is a product.
pub mod Attempt
pub mod Backoff
pub mod Reports
pub mod Invariant
pub mod Loop
pub mod Rounds
pub mod Verdicts
pub mod Exhaustion
use tun_top.Prelude.{
  ℕ, zero, suc, ◌+◌, ◌-◌, ◌*◌, String, Bool, true, false, not, ◌&&◌, ◌||◌, Option, none, some, List,
  [], ◌∷◌, ◌++◌, leb, ltb, ◌==◌, if◌then◌else◌,
}
use tun_top.Prelude.Results.{Result, ok, err}
use tun_top.State.Machine.{Machine}

pub data FailureKind : Type 0 where
  process dns routes adapter proxy unknown : FailureKind

abbrev pub kind_place : FailureKind → ℕ
kind_place process = 0
kind_place dns = 1
kind_place routes = 2
kind_place adapter = 3
kind_place proxy = 4
kind_place unknown = 5

abbrev pub same_kind : FailureKind → FailureKind → Bool
same_kind a b = kind_place a == kind_place b

-- A rung of a ladder. The two callables run outside the lock: what they reply is an input of the
-- attempt, and only whether there is a check is kept here.
pub record RecoveryAction : Type 0 where
  pub name : String
  pub has_verify : Bool

pub record Incident : Type 0 where
  pub kind : FailureKind
  pub detail : String
  pub attempt : ℕ
  pub due_at : ℕ

-- A report: its kind, its detail and the first wait that it asks for
pub record Report : Type 0 where
  pub kind : FailureKind
  pub detail : String
  pub delay : Option ℕ

pub record Ladder : Type 0 where
  pub actions : List RecoveryAction
  pub first_delay : Option ℕ
  pub crash_loop : Bool

pub record Stats : Type 0 where
  pub incidents : ℕ
  pub repairs_ok : ℕ
  pub repairs_failed : ℕ
  pub give_ups : ℕ

-- The lines of the log, by what they say
pub data Line : Type 0 where
  recovery_paused : String → Line
  armed rearmed not_rearmed : Line
  absorbed no_ladder detected stale : FailureKind → Line
  closed_healthy not_sustained not_crash_loop : Line
  attempt_started : ℕ → String → Line
  verified : String → Line
  gave_up_after : ℕ → String → Line
  disabled : ℕ → Line
  retrying : ℕ → ℕ → Line
  crashed : ℕ → String → Line

-- `in_flight` is the incident that the worker has taken off the books; `worker` tells whether the
-- thread was started.
pub record Engine : Type 0 where
  pub machine : Machine
  pub max_attempts : ℕ
  pub give_up_after : ℕ
  pub delay_scale : ℕ
  pub stability_window : ℕ
  pub ladders : FailureKind → Option Ladder
  pub worker : Bool
  pub stopped : Bool
  pub paused : Bool
  pub incident : Option Incident
  pub in_attempt : Bool
  pub in_flight : Option Incident
  pub pending : Option Report
  pub consecutive_failed : ℕ
  pub gave_up : Bool
  pub last_success_at : Option ℕ
  pub stats : Stats
  pub log : List Line

pub data EngineError : Type 0 where
  value_error : EngineError

-- `RecoveryEngine(machine, …)`
unfoldable pub new_engine : Machine → ℕ → ℕ → ℕ → ℕ → Result EngineError Engine
new_engine machine max_attempts give_up_after delay_scale stability_window =
    if ltb max_attempts 1
    then err value_error
    else ok (record {
      machine = machine;
      max_attempts = max_attempts;
      give_up_after = give_up_after;
      delay_scale = delay_scale;
      stability_window = stability_window;
      ladders = λ k. none;
      worker = false;
      stopped = false;
      paused = false;
      incident = none;
      in_attempt = false;
      in_flight = none;
      pending = none;
      consecutive_failed = 0;
      gave_up = false;
      last_success_at = none;
      stats = record { incidents = 0; repairs_ok = 0; repairs_failed = 0; give_ups = 0 };
      log = [];
    })

abbrev pub say : Line → Engine → Engine
say line e = record e { log = e.log ++ line ∷ [] }

-- `register(kind, actions, first_delay, crash_loop)`
unfoldable pub register :
    FailureKind → List RecoveryAction → Option ℕ → Bool → Engine → Result EngineError Engine
register kind [] first_delay crash_loop e = err value_error
register kind (a ∷ actions) first_delay crash_loop e =
    let ladder : Ladder = record {
      actions = a ∷ actions;
      first_delay = first_delay;
      crash_loop = crash_loop;
    } in
    ok (record e { ladders = λ k. if same_kind k kind then some ladder else e.ladders k })

-- `start()`
unfoldable pub start : Engine → Engine
start e = record e { worker = true }

-- `shutdown()`
unfoldable pub shutdown : Engine → Engine
shutdown e = record e { stopped = true; incident = none }

-- `pause(reason)`
unfoldable pub pause : String → Engine → Engine
pause reason e = say (recovery_paused reason) (record e { paused = true; incident = none })

-- `resume()`
unfoldable pub resume : Engine → Engine
resume e =
    let re = record e {
      paused = false;
      incident = none;
      consecutive_failed = 0;
      gave_up = false;
    } in
    if e.paused then say armed re else if e.gave_up then say rearmed re else re

-- `running`: the thread was started and has not been told to stop.
unfoldable pub is_running : Engine → Bool
is_running e = not e.stopped && e.worker

-- The entry at a place, or the last one
abbrev pub at_or_last {ℓ} : {A : Type ℓ} → A → List A → ℕ → A
at_or_last a [] i = a
at_or_last a (x ∷ xs) zero = a
at_or_last a (x ∷ xs) (suc i) = at_or_last x xs i

-- `delay_for_attempt(attempt)`, on the entries of `BACKOFF_SCHEDULE`
unfoldable pub delay_for_attempt : ℕ → ℕ
delay_for_attempt attempt = at_or_last 1000 (2000 ∷ 4000 ∷ 8000 ∷ 16000 ∷ 30000 ∷ []) (attempt - 1)

abbrev first_delay_of : Ladder → ℕ
unfolding delay_for_attempt
first_delay_of ladder = elim ladder.first_delay [ none ↦ delay_for_attempt 1 | some d ↦ d ]

-- Opens the incident of a report on a ladder; `report_failure` and `_drain_pending` both do.
unfoldable pub open_incident : Report → Ladder → ℕ → Engine → Engine
unfolding delay_for_attempt
open_incident r ladder now e =
    let first : ℕ = elim r.delay [ none ↦ first_delay_of ladder | some d ↦ d ] in
    record e {
      incident = some (record {
        kind = r.kind;
        detail = r.detail;
        attempt = 0;
        due_at = now + first * e.delay_scale;
      });
      stats = record e.stats { incidents = e.stats.incidents + 1 };
    }

abbrev is_some {ℓ} : {A : Type ℓ} → Option A → Bool
is_some none = false
is_some (some a) = true

-- The locked part of `report_failure`: the report that is left to make again, and the engine.
unfoldable pub report_locked : Report → ℕ → Engine → Option Report × Engine
unfolding open_incident
report_locked r now e =
    if e.stopped || e.paused || e.gave_up
    then (none, e)
    else if e.in_attempt
    then (none, say (absorbed r.kind) (record e { pending = some r }))
    else if is_some e.incident
    then (none, e)
    else elim (e.ladders r.kind) [
      | none ↦ (none, say (no_ladder r.kind) e)
      | some ladder ↦ (
        e.pending,
        say (detected r.kind) (record (open_incident r ladder now e) { pending = none }),
      )
    ]

-- `report_failure(kind, detail, delay)`. A report that was left is made again; it finds the new
-- incident, so that nothing is left then.
unfoldable pub report_failure : Report → ℕ → Engine → Engine
report_failure r now e =
    let (left, e') = report_locked r now e in
    elim left [ none ↦ e' | some r' ↦ (report_locked r' now e').1 ]

-- Whether the last success is `stability_window` old
abbrev pub is_stable : ℕ → Engine → Bool
is_stable now e = elim e.last_success_at [
  | none ↦ false
  | some last ↦ leb e.stability_window (now - last)
]

-- `report_success()`
unfoldable pub report_success : ℕ → Engine → Engine
report_success now e =
    let stable = is_stable now e in
    let known = is_some e.last_success_at in
    let reset = record e {
      incident = none;
      consecutive_failed = if stable || not known then 0 else e.consecutive_failed;
    } in
    let logged =
      if is_some e.incident
      then if not stable && known
        then say not_sustained (say closed_healthy reset)
        else say closed_healthy reset
      else reset in
    record logged { last_success_at = if stable then some now else e.last_success_at }
