-- ===== src/Recovery/Invariant.antt =====
-- tuntop/core/recovery.py: what holds of the engine between any two sections under its lock.
use tun_top.Prelude.{
  ℕ, ◌≤◌, ◌<◌, ◌≡◌, refl, ◌∙◌, leb, String, Bool, true, false, Option, none, some, List, [], ◌∷◌,
  arith, inl, inr, Bool-cases,
}
use tun_top.Prelude.Results.{Result, ok, err}
use tun_top.State.Machine.{Machine}
use tun_top.Recovery.{
  EngineError, FailureKind, RecoveryAction, Incident, Report, Ladder, Engine, new_engine, register,
  start, shutdown, pause, resume, open_incident, report_locked, report_failure, report_success,
}
use tun_top.Recovery.Attempt.{
  Reply, take_due, begin_attempt, drain_pending, succeed, give_up, retry, judge, crash, fixed,
  given_up, counts_for, judge_incident, judge_in_flight, let_go, failed_once, verdict,
}

-- A scheduled incident: recovery is armed, no attempt runs, and attempts are left.
abbrev pub IsBooked : Option Incident → Engine → Type 0
IsBooked none e = Unit
IsBooked (some i) e =
    (e.stopped ≡ false)
    × (e.paused ≡ false)
    × (e.gave_up ≡ false)
    × (e.in_attempt ≡ false)
    × (i.attempt < e.max_attempts)

-- The incident that the worker holds
abbrev pub IsFlying : Option Incident → Engine → Type 0
IsFlying none e = e.in_attempt ≡ false
IsFlying (some i) e = e.in_attempt ≡ true

pub record IsConsistent (e : Engine) : Type 0 where
  pub positive : 0 < e.max_attempts
  pub booked : IsBooked e.incident e
  pub flying : IsFlying e.in_flight e
  pub streak : e.gave_up ≡ false → e.consecutive_failed < e.give_up_after
  pub patient : 0 < e.give_up_after
  pub tallied : e.consecutive_failed ≤ e.stats.give_ups
  pub earned : e.gave_up ≡ true → e.give_up_after ≤ e.stats.give_ups

pause-IsConsistent : (reason : String) (e : Engine) → IsConsistent e → IsConsistent (pause reason e)
unfolding pause
pause-IsConsistent reason e h = ground arith

resume-IsConsistent : (e : Engine) → IsConsistent e → IsConsistent (resume e)
unfolding resume
resume-IsConsistent e h = ground arith

shutdown-IsConsistent : (e : Engine) → IsConsistent e → IsConsistent (shutdown e)
unfolding shutdown
shutdown-IsConsistent e h = ground arith

open_incident-IsConsistent :
    (r : Report) (l : Ladder) (now : ℕ) (e : Engine)
    → IsConsistent e
    → e.stopped ≡ false
    → e.paused ≡ false
    → e.gave_up ≡ false
    → e.in_attempt ≡ false
    → IsConsistent (open_incident r l now e)
unfolding open_incident
open_incident-IsConsistent r l now e h a b c d = ground arith

report_locked-IsConsistent :
    (r : Report) (now : ℕ) (e : Engine) → IsConsistent e → IsConsistent (report_locked r now e).1
unfolding report_locked open_incident
report_locked-IsConsistent r now e h = ground arith

report_success-IsConsistent :
    (now : ℕ) (e : Engine) → IsConsistent e → IsConsistent (report_success now e)
unfolding report_success
report_success-IsConsistent now e h = ground arith

take_due-IsConsistent : (now : ℕ) (e : Engine) → IsConsistent e → IsConsistent (take_due now e)
unfolding take_due
take_due-IsConsistent now e h = ground arith

begin_attempt-IsConsistent :
    (now : ℕ) (e : Engine) → IsConsistent e → IsConsistent (begin_attempt now e).1
unfolding begin_attempt
begin_attempt-IsConsistent now e h = ground arith

drain_pending-IsConsistent :
    (handled : Option FailureKind) (now : ℕ) (e : Engine)
    → IsConsistent e
    → e.in_attempt ≡ false
    → IsConsistent (drain_pending handled now e)
unfolding drain_pending
drain_pending-IsConsistent handled now e h a = ground arith

crash-IsConsistent : (text : String) (e : Engine) → IsConsistent e → IsConsistent (crash text e)
unfolding crash
crash-IsConsistent text e h = ground arith

remade :
    (left : Option Report) (now : ℕ) (e : Engine)
    → IsConsistent e
    → IsConsistent (elim left [ none ↦ e | some r ↦ (report_locked r now e).1 ])
remade none now e h = h
remade (some r) now e h = report_locked-IsConsistent r now e h

report_failure-IsConsistent :
    (r : Report) (now : ℕ) (e : Engine) → IsConsistent e → IsConsistent (report_failure r now e)
unfolding report_failure
report_failure-IsConsistent r now e h =
    remade (report_locked r now e).0 now (report_locked r now e).1
      (report_locked-IsConsistent r now e h)

fixed-IsConsistent :
    (action : RecoveryAction) (now : ℕ) (e : Engine)
    → IsConsistent e
    → IsConsistent (fixed action now e)
fixed-IsConsistent action now e h = ground arith

given_up-IsConsistent :
    (counts : Bool) (i : Incident) (why : String) (now : ℕ) (e : Engine)
    → IsConsistent e
    → IsConsistent (given_up counts i why now e)
given_up-IsConsistent counts i why now e h = ground arith

retry-IsConsistent :
    (i : Incident) (action : RecoveryAction) (now : ℕ) (e : Engine)
    → IsConsistent e
    → e.in_attempt ≡ false
    → i.attempt < e.max_attempts
    → IsConsistent (retry i action now e)
unfolding retry
retry-IsConsistent i action now e h a lt = ground arith

attempt-fixed :
    (action : RecoveryAction) (now : ℕ) (e : Engine)
    → (fixed action now e).in_attempt ≡ e.in_attempt
attempt-fixed action now e = ground arith

attempt-given_up :
    (counts : Bool) (i : Incident) (why : String) (now : ℕ) (e : Engine)
    → (given_up counts i why now e).in_attempt ≡ e.in_attempt
attempt-given_up counts i why now e = ground arith

failed_once-IsConsistent : (e : Engine) → IsConsistent e → IsConsistent (failed_once e)
failed_once-IsConsistent e h = ground arith

judge_incident-IsConsistent :
    (i : Incident) (action : RecoveryAction) (result : Bool × String) (now : ℕ) (e : Engine)
    → IsConsistent e
    → e.in_attempt ≡ false
    → IsConsistent (judge_incident i action result now e)
unfolding succeed give_up
judge_incident-IsConsistent i action (true, why) now e h a =
    drain_pending-IsConsistent (some i.kind) now (fixed action now e)
      (fixed-IsConsistent action now e h) (attempt-fixed action now e ∙ a)
judge_incident-IsConsistent i action (false, why) now e h a =
    elim (Bool-cases (leb e.max_attempts i.attempt)) [
      | inl y ↦ rw y (
          let f = failed_once e in
          let c = counts_for (e.ladders i.kind) in
          drain_pending-IsConsistent none now (given_up c i why now f)
            (given_up-IsConsistent c i why now f (failed_once-IsConsistent e h))
            (attempt-given_up c i why now f ∙ a))
      | inr n ↦ rw n (
          retry-IsConsistent i action now (failed_once e) (failed_once-IsConsistent e h) a
            (ground arith))
    ]

let_go-IsConsistent : (e : Engine) → IsConsistent e → IsConsistent (let_go e)
let_go-IsConsistent e h = ground arith

held-IsConsistent :
    (held : Option Incident) (action : RecoveryAction) (result : Bool × String) (now : ℕ)
    (e : Engine)
    → IsConsistent e
    → IsConsistent (judge_in_flight held action result now e)
held-IsConsistent none action result now e h = h
held-IsConsistent (some i) action result now e h =
    judge_incident-IsConsistent i action result now (let_go e) (let_go-IsConsistent e h) refl

-- What can happen to an engine: the calls of its methods, and the steps of its worker.
pub data Happening : Type 0 where
  registers : FailureKind → RecoveryAction → List RecoveryAction → Option ℕ → Bool → Happening
  starts shuts_down resumes reports_success takes begins : Happening
  pauses crashes : String → Happening
  reports : Report → Happening
  judges : RecoveryAction → Reply → Reply → Happening

abbrev or_same : Result EngineError Engine → Engine → Engine
or_same (ok e') e = e'
or_same (err x) e = e

unfoldable pub happen : Happening → ℕ → Engine → Engine
happen (registers kind a actions d c) now e = or_same (register kind (a ∷ actions) d c e) e
happen starts now e = start e
happen shuts_down now e = shutdown e
happen resumes now e = resume e
happen reports_success now e = report_success now e
happen takes now e = take_due now e
happen begins now e = (begin_attempt now e).1
happen (pauses reason) now e = pause reason e
happen (crashes text) now e = crash text e
happen (reports r) now e = report_failure r now e
happen (judges action repair check) now e = judge action repair check now e

-- Any interleaving of what the threads do, with the times
unfoldable pub happen_all : List (Happening × ℕ) → Engine → Engine
happen_all [] e = e
happen_all ((x, now) ∷ rest) e = happen_all rest (happen x now e)

happen-IsConsistent :
    (x : Happening) (now : ℕ) (e : Engine) → IsConsistent e → IsConsistent (happen x now e)
unfolding happen
happen-IsConsistent (registers kind a actions d c) now e h = unfold register in ground arith
happen-IsConsistent starts now e h = unfold start in ground arith
happen-IsConsistent shuts_down now e h = shutdown-IsConsistent e h
happen-IsConsistent resumes now e h = resume-IsConsistent e h
happen-IsConsistent reports_success now e h = report_success-IsConsistent now e h
happen-IsConsistent takes now e h = take_due-IsConsistent now e h
happen-IsConsistent begins now e h = begin_attempt-IsConsistent now e h
happen-IsConsistent (pauses reason) now e h = pause-IsConsistent reason e h
happen-IsConsistent (crashes text) now e h = crash-IsConsistent text e h
happen-IsConsistent (reports r) now e h = report_failure-IsConsistent r now e h
happen-IsConsistent (judges action repair check) now e h =
    unfold judge in held-IsConsistent e.in_flight action (verdict action repair check) now e h

happen_all-from :
    (xs : List (Happening × ℕ)) (e : Engine) → IsConsistent e → IsConsistent (happen_all xs e)
unfolding happen_all
happen_all-from [] e h = h
happen_all-from ((x, now) ∷ rest) e h =
    happen_all-from rest (happen x now e) (happen-IsConsistent x now e h)

-- From a new engine that gives up after at least one incident, whatever the threads do in whatever
-- order: a scheduled incident means that recovery is neither stopped nor paused nor given up, that
-- no attempt runs, and that it has attempts left; an attempt runs exactly while the worker holds
-- an incident; as long as recovery has not given up, the streak of failed incidents is below the
-- limit; and the streak never exceeds the incidents that were given up, of which there are at
-- least the limit once recovery has given up.
pub happen_all-IsConsistent :
    (m : Machine) (max_attempts give_up_after delay_scale stability_window : ℕ)
    (xs : List (Happening × ℕ)) (e : Engine)
    → new_engine m max_attempts give_up_after delay_scale stability_window ≡ ok e
    → 0 < give_up_after
    → IsConsistent (happen_all xs e)
unfolding new_engine
happen_all-IsConsistent m max_attempts give_up_after delay_scale window xs e q pos =
    happen_all-from xs e (ground arith)
