-- ===== src/Recovery/Rounds.antt =====
-- tuntop/core/recovery.py: one attempt of the worker, until the repair.
use tun_top.Prelude.{
  ℕ, zero, suc, ◌+◌, ◌-◌, ◌≡◌, ◌≢◌, ◌⊎◌, refl, sym, true, false, Option, none, some, List, [], ◌∷◌,
  All, arith, inl, inr, Bool-cases, leb, subst,
}
use tun_top.State.{TunnelState}
use tun_top.Recovery.{RecoveryAction, Incident, Engine, at_or_last}
use tun_top.Recovery.Attempt.{
  verdict, Reply, returned, raised, begin_with, claim, rung, ladder_actions, may_recover, counted,
  begin_in_flight, take_due, begin_attempt, judge,
}

-- An attempt: how much later it is made than it is due, and what its repair and its check do
pub record Round : Type 0 where
  pub late : ℕ
  pub repair : Reply
  pub check : Reply

-- The attempt on this rung is not verified: the repair raised or did not return true, or the rung
-- has a check and that raised or did not return true.
abbrev pub IsRefused : Round → RecoveryAction → Type 0
IsRefused r a = (r.repair ≢ returned true) ⊎ ((a.has_verify ≡ true) × (r.check ≢ returned true))

-- The same for every rung of a ladder.
abbrev pub Fails : List RecoveryAction → Round → Type 0
Fails actions r = All (IsRefused r) actions

refused_verdict :
    (a : RecoveryAction) (repair check : Reply)
    → (repair ≢ returned true) ⊎ ((a.has_verify ≡ true) × (check ≢ returned true))
    → (verdict a repair check).0 ≡ false
unfolding verdict
refused_verdict a (raised text) check h = refl
refused_verdict a (returned false) check h = refl
refused_verdict a (returned true) check (inl n) = absurd (n refl)
refused_verdict a (returned true) (raised text) (inr (v, n)) = rw v refl
refused_verdict a (returned true) (returned false) (inr (v, n)) = rw v refl
refused_verdict a (returned true) (returned true) (inr (v, n)) = absurd (n refl)

pub IsRefused-verdict :
    (r : Round) (a : RecoveryAction) → IsRefused r a → (verdict a r.repair r.check).0 ≡ false
IsRefused-verdict r a h = refused_verdict a r.repair r.check h

unfoldable pub attempt_at : ℕ → Round → Engine → Engine
attempt_at now r e =
    let (action, e') = begin_attempt now (take_due now e) in
    elim action [ none ↦ e' | some a ↦ judge a r.repair r.check now e' ]

unfoldable pub attempt_round : Round → Engine → Engine
unfolding attempt_at
attempt_round r e = elim e.incident [ none ↦ e | some i ↦ attempt_at (i.due_at + r.late) r e ]

abbrev pub HasRung : List RecoveryAction → Type 0
HasRung [] = ⊥
HasRung (a ∷ rest) = Unit

-- An incident is scheduled for a kind that has a ladder, on an engine that is armed.
pub record IsScheduled (i : Incident) (e : Engine) : Type 0 where
  pub booked : e.incident ≡ some i
  pub stopped : e.stopped ≡ false
  pub paused : e.paused ≡ false
  pub armed : e.gave_up ≡ false
  pub idle : e.in_attempt ≡ false
  pub quiet : e.pending ≡ none
  pub rungs : HasRung (ladder_actions (e.ladders i.kind))

-- What an attempt leaves alone until it is judged
abbrev pub IsLike : Engine → Engine → Type 0
IsLike before e =
    (e.stopped ≡ before.stopped)
    × (e.paused ≡ before.paused)
    × (e.gave_up ≡ before.gave_up)
    × (e.pending ≡ before.pending)
    × (e.ladders ≡ before.ladders)
    × (e.max_attempts ≡ before.max_attempts)
    × (e.give_up_after ≡ before.give_up_after)
    × (e.delay_scale ≡ before.delay_scale)
    × (e.consecutive_failed ≡ before.consecutive_failed)
    × (e.stats ≡ before.stats)

abbrev pub IsHeld : Incident → Engine → Engine → Type 0
IsHeld i before e = (e.in_flight ≡ some i) × IsLike before e

pub taken-IsHeld :
    (i : Incident) (late : ℕ) (e : Engine)
    → IsScheduled i e
    → IsHeld i e (take_due (i.due_at + late) e)
unfolding take_due
taken-IsHeld i late e h =
    let d : leb i.due_at (i.due_at + late) ≡ true = ground arith in
    rw (h.stopped, h.booked, d) (refl, (refl, refl, refl, refl, refl, refl, refl, refl, refl, refl))

-- The rung that is begun is one of which `P` holds.
abbrev pub IsBegun :
    (RecoveryAction → Type 0) → Incident → Engine → Option RecoveryAction × Engine → Type 0
IsBegun P i before (none, e) = ⊥
IsBegun P i before (some a, e) = P a × IsHeld (counted i) before e

at_or_last-All :
    (P : RecoveryAction → Type 0) (a : RecoveryAction) (rest : List RecoveryAction) (n : ℕ)
    → P a
    → All P rest
    → P (at_or_last a rest n)
at_or_last-All P a [] n h hs = h
at_or_last-All P a (x ∷ xs) zero h hs = h
at_or_last-All P a (x ∷ xs) (suc n) h hs = at_or_last-All P x xs n hs.0 hs.1

claimed :
    (i : Incident) (s : TunnelState) (now : ℕ) (before e : Engine)
    → IsHeld i before e
    → IsHeld i before (claim s now e)
claimed i s now before e h = elim (Bool-cases (may_recover s)) [ inl y ↦ rw y h | inr n ↦ rw n h ]

begin_with-IsBegun :
    (P : RecoveryAction → Type 0) (actions : List RecoveryAction) (i : Incident) (now : ℕ)
    (before e : Engine)
    → IsLike before e
    → HasRung actions
    → All P actions
    → IsBegun P i before (begin_with (rung actions (i.attempt + 1)) (counted i) now e)
begin_with-IsBegun P [] i now before e h r hs = elim r [ ]
begin_with-IsBegun P (a ∷ rest) i now before e h r hs = (
  at_or_last-All P a rest (i.attempt + 1 - 1) hs.0 hs.1,
  claimed (counted i) e.machine.current now before (record e { in_flight = some (counted i) })
      (refl, h),
)

pub begun :
    (P : RecoveryAction → Type 0) (i : Incident) (now : ℕ) (before e : Engine)
    → IsHeld i before e
    → HasRung (ladder_actions (e.ladders i.kind))
    → All P (ladder_actions (e.ladders i.kind))
    → IsBegun P i before (begin_attempt now e)
unfolding begin_attempt
begun P i now before e (held, h) r hs =
    subst (λ o. IsBegun P i before (begin_in_flight o now e)) (sym held)
      (begin_with-IsBegun P (ladder_actions (e.ladders i.kind)) i now before e h r hs)
