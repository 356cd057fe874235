-- ===== src/Recovery/Loop.antt =====
-- tuntop/core/recovery.py: when recovery gives up, and when it does not.
use tun_top.Prelude.{
  ℕ, ◌≤◌, ◌≡◌, String, Bool, true, false, Option, none, some, List, [], ◌∷◌, arith, All,
}
use tun_top.Recovery.{
  FailureKind, RecoveryAction, Incident, Report, Engine, register, start, shutdown, pause, resume,
  report_locked, report_failure, report_success, open_incident,
}
use tun_top.Recovery.Attempt.{
  take_due, begin_attempt, drain_pending, succeed, judge, crash, fixed, judge_in_flight, let_go,
  verdict,
}
use tun_top.Recovery.Invariant.{
  Happening, happen, happen_all, registers, starts, shuts_down, resumes, reports_success, takes,
  begins, pauses, crashes, reports, judges,
}

-- Every repair that ends was verified.
abbrev pub IsVerified : Happening → Type 0
IsVerified (judges action repair check) = (verdict action repair check).0 ≡ true
IsVerified other = Unit

-- Recovery is armed, with a streak of at most so many incidents.
record IsArmed (n : ℕ) (e : Engine) : Type 0 where
  armed : e.gave_up ≡ false
  streak : e.consecutive_failed ≤ n

locked-IsArmed :
    (n : ℕ) (r : Report) (now : ℕ) (e : Engine) → IsArmed n e → IsArmed n (report_locked r now e).1
unfolding report_locked open_incident
locked-IsArmed n r now e h = ground arith

remade-IsArmed :
    (n : ℕ) (left : Option Report) (now : ℕ) (e : Engine)
    → IsArmed n e
    → IsArmed n (elim left [ none ↦ e | some r ↦ (report_locked r now e).1 ])
remade-IsArmed n none now e h = h
remade-IsArmed n (some r) now e h = locked-IsArmed n r now e h

fixed-IsArmed :
    (n : ℕ) (a : RecoveryAction) (now : ℕ) (e : Engine) → IsArmed n e → IsArmed n (fixed a now e)
fixed-IsArmed n a now e h = ground arith

drain-IsArmed :
    (n : ℕ) (k : Option FailureKind) (now : ℕ) (e : Engine)
    → IsArmed n e
    → IsArmed n (drain_pending k now e)
unfolding drain_pending open_incident
drain-IsArmed n k now e h = ground arith

held-IsArmed :
    (n : ℕ) (held : Option Incident) (a : RecoveryAction) (result : Bool × String) (now : ℕ)
    (e : Engine)
    → IsArmed n e
    → result.0 ≡ true
    → IsArmed n (judge_in_flight held a result now e)
unfolding succeed
held-IsArmed n none a result now e h good = h
held-IsArmed n (some i) a (true, why) now e h good =
    drain-IsArmed n (some i.kind) now (fixed a now (let_go e))
      (fixed-IsArmed n a now (let_go e) (record { armed = h.armed; streak = h.streak }))
held-IsArmed n (some i) a (false, why) now e h good = ground arith

happen-IsArmed :
    (n : ℕ) (x : Happening) (now : ℕ) (e : Engine)
    → IsArmed n e
    → IsVerified x
    → IsArmed n (happen x now e)
unfolding happen
happen-IsArmed n (registers kind a actions d c) now e h v = unfold register in ground arith
happen-IsArmed n starts now e h v = unfold start in ground arith
happen-IsArmed n shuts_down now e h v = unfold shutdown in ground arith
happen-IsArmed n resumes now e h v = unfold resume in ground arith
happen-IsArmed n reports_success now e h v = unfold report_success in ground arith
happen-IsArmed n takes now e h v = unfold take_due in ground arith
happen-IsArmed n begins now e h v = unfold begin_attempt in ground arith
happen-IsArmed n (pauses reason) now e h v = unfold pause in ground arith
happen-IsArmed n (crashes text) now e h v = unfold crash in ground arith
happen-IsArmed n (reports r) now e h v =
    unfold report_failure in
    remade-IsArmed n (report_locked r now e).0 now (report_locked r now e).1
      (locked-IsArmed n r now e h)
happen-IsArmed n (judges a repair check) now e h v =
    unfold judge in held-IsArmed n e.in_flight a (verdict a repair check) now e h v

happen_all-IsArmed :
    (n : ℕ) (xs : List (Happening × ℕ)) (e : Engine)
    → IsArmed n e
    → All (λ x. IsVerified x.0) xs
    → IsArmed n (happen_all xs e)
unfolding happen_all
happen_all-IsArmed n [] e h v = h
happen_all-IsArmed n ((x, now) ∷ rest) e h (v, vs) =
    happen_all-IsArmed n rest (happen x now e) (happen-IsArmed n x now e h v) vs

-- However often failures are reported and repairs run, and however soon the failures come back: as
-- long as every repair that ends was verified, recovery that has not given up does not give up,
-- and the streak of failed incidents does not grow.
pub verified_never_gives_up :
    (xs : List (Happening × ℕ)) (e : Engine)
    → e.gave_up ≡ false
    → All (λ x. IsVerified x.0) xs
    → ((happen_all xs e).gave_up ≡ false)
      × ((happen_all xs e).consecutive_failed ≤ e.consecutive_failed)
verified_never_gives_up xs e armed v =
    let h =
      happen_all-IsArmed e.consecutive_failed xs e (record { armed = armed; streak = omega arith })
        v in
    (h.armed, h.streak)
