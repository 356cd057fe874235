-- ===== src/Recovery/Verdicts.antt =====
-- tuntop/core/recovery.py: the verdict on an attempt that failed, with attempts left and without.
use tun_top.Prelude.{
  ℕ, ◌+◌, ◌*◌, ◌≡◌, refl, ◌∙◌, ap, sym, String, Bool, true, false, ◌&&◌, Option, none, some, arith,
  inl, inr, Bool-cases, leb, subst, ◌≢◌, if◌then◌else◌,
}
use tun_top.State.{TunnelState, recovering, degraded, same, allowed}
use tun_top.State.Machine.{Machine}
use tun_top.State.Machine.Effects.{current-try_transition}
use tun_top.Recovery.{FailureKind, RecoveryAction, Incident, Stats, Engine, delay_for_attempt}
use tun_top.Recovery.Attempt.{
  walk_back, exhausted, counted, drain_pending, give_up, retry, given_up, counts_for,
  judge_incident, let_go, failed_once,
}
use tun_top.Recovery.Rounds.{IsScheduled, IsLike}

-- A failed attempt with attempts left
abbrev pub IsRetried : Incident → ℕ → Engine → Engine → Type 0
IsRetried i now before e =
    (e.incident
      ≡ some (record i { due_at = now + delay_for_attempt (i.attempt + 1) * before.delay_scale }))
    × (e.in_attempt ≡ false)
    × IsLike (failed_once before) e

retry-IsRetried :
    (i : Incident) (a : RecoveryAction) (now : ℕ) (before e : Engine)
    → IsLike before e
    → before.stopped ≡ false
    → before.paused ≡ false
    → before.gave_up ≡ false
    → IsRetried i now before (retry i a now (failed_once (let_go e)))
unfolding retry
retry-IsRetried i a now before e (s, p, g, q, l, m, u, d, k, t) h1 h2 h3 =
    rw (p ∙ h2, s ∙ h1, g ∙ h3, d)
      (
        refl,
        refl,
        (
          sym h1,
          sym h2,
          sym h3,
          q,
          l,
          m,
          u,
          refl,
          k,
          ap {A = Stats} (λ t. record t { repairs_failed = t.repairs_failed + 1 }) t,
        ),
      )

degraded_after : (s : TunnelState) → (if allowed s degraded then degraded else s) ≢ recovering
unfolding allowed
degraded_after s = ground arith

walked_back :
    (why : String) (now : ℕ) (e : Engine)
    → (walk_back e.machine.current why now e).machine.current ≢ recovering
walked_back why now e = elim (Bool-cases (same e.machine.current recovering)) [
  | inl y ↦ rw (y, current-try_transition) (degraded_after e.machine.current)
  | inr n ↦ rw n (λ q. ground arith)
]

abbrev pub streak_after : Bool → ℕ → ℕ
streak_after counts n = if counts then n + 1 else n

-- How an incident whose attempts are used up leaves the engine, after so many failed attempts
abbrev pub IsGivenUp : Bool → ℕ → Engine → Engine → Type 0
IsGivenUp counts n before e =
    (e.incident ≡ none)
    × (e.in_attempt ≡ false)
    × (e.pending ≡ none)
    × (e.stats.give_ups ≡ before.stats.give_ups + 1)
    × (e.stats.repairs_failed ≡ before.stats.repairs_failed + n)
    × (e.stats.incidents ≡ before.stats.incidents)
    × (e.consecutive_failed ≡ streak_after counts before.consecutive_failed)
    × (e.gave_up
        ≡ (counts && leb before.give_up_after (streak_after counts before.consecutive_failed)))
    × (e.machine.current ≢ recovering)

drained :
    (k : Option FailureKind) (now : ℕ) (e : Engine) → e.pending ≡ none → drain_pending k now e ≡ e
unfolding drain_pending
drained k now e q = ground arith

machine-given_up :
    (counts : Bool) (i : Incident) (why : String) (now : ℕ) (e : Engine)
    → (given_up counts i why now e).machine
      ≡ (walk_back e.machine.current why now (exhausted counts i why e)).machine
machine-given_up counts i why now e = ground arith

pending-given_up :
    (counts : Bool) (i : Incident) (why : String) (now : ℕ) (e : Engine)
    → (given_up counts i why now e).pending ≡ e.pending
pending-given_up counts i why now e = ground arith

counts-given_up :
    (counts : Bool) (i : Incident) (why : String) (now : ℕ) (e : Engine)
    → ((given_up counts i why now e).stats ≡ record e.stats { give_ups = e.stats.give_ups + 1 })
      × ((given_up counts i why now e).consecutive_failed
          ≡ streak_after counts e.consecutive_failed)
      × ((given_up counts i why now e).gave_up ≡ (
          if counts && leb e.give_up_after (streak_after counts e.consecutive_failed)
          then true
          else e.gave_up))
counts-given_up counts i why now e = (ground arith, ground arith, ground arith)

or_false : (b c : Bool) → c ≡ false → (if b then true else c) ≡ b
or_false b c q = ground arith

given_up-IsGivenUp :
    (counts : Bool) (i : Incident) (why : String) (now : ℕ) (before e : Engine)
    → IsLike before e
    → before.pending ≡ none
    → before.gave_up ≡ false
    → IsGivenUp counts 1 before (given_up counts i why now (failed_once (let_go e)))
given_up-IsGivenUp counts i why now before e (s, p, g, q, l, m, u, d, k, t) h1 h2 =
    let failed = failed_once (let_go e) in
    let (tally, streak, guard) = counts-given_up counts i why now failed in
    (
      ground arith,
      ground arith,
      pending-given_up counts i why now failed ∙ q ∙ h1,
      ap {A = Stats} (λ t. t.give_ups) tally ∙ ap {A = Stats} (λ t. t.give_ups + 1) t,
      ap {A = Stats} (λ t. t.repairs_failed) tally ∙ ap {A = Stats} (λ t. t.repairs_failed + 1) t,
      ap {A = Stats} (λ t. t.incidents) tally ∙ ap {A = Stats} (λ t. t.incidents) t,
      streak ∙ ap (streak_after counts) k,
      guard
          ∙ or_false (counts && leb e.give_up_after (streak_after counts e.consecutive_failed))
              e.gave_up (g ∙ h2)
          ∙ ap (λ u. counts && leb u (streak_after counts e.consecutive_failed)) u
          ∙ ap (λ k. counts && leb before.give_up_after (streak_after counts k)) k,
      λ r.
          walked_back why now (exhausted counts i why failed) (
            sym (ap {A = Machine} (λ m. m.current) (machine-given_up counts i why now failed)) ∙ r),
    )

-- One round, on an incident that is scheduled and has a ladder
abbrev pub IsEnd : Incident → ℕ → Engine → Engine → Type 0
IsEnd i now before e =
    if leb before.max_attempts (i.attempt + 1)
    then IsGivenUp (counts_for (before.ladders i.kind)) 1 before e
    else IsRetried (counted i) now before e

either :
    (P Q : Engine → Type 0) (b : Bool) (x y : Engine)
    → P x
    → Q y
    → (if b then P (if b then x else y) else Q (if b then x else y))
either P Q true x y p q = p
either P Q false x y p q = q

pub judged_incident :
    (i : Incident) (a : RecoveryAction) (why : String) (now : ℕ) (before e : Engine)
    → IsLike before e
    → IsScheduled i before
    → IsEnd i now before (judge_incident (counted i) a (false, why) now (let_go e))
unfolding give_up
judged_incident i a why now before e (s, p, g, q, l, m, u, d, k, t) h =
    let like : IsLike before e = (s, p, g, q, l, m, u, d, k, t) in
    let n = counted i in
    let failed = failed_once (let_go e) in
    let counts = counts_for (e.ladders i.kind) in
    let over = IsGivenUp (counts_for (before.ladders i.kind)) 1 before in
    subst
      (λ limit.
        if leb before.max_attempts n.attempt
        then over (if leb limit n.attempt then give_up n why now failed else retry n a now failed)
        else IsRetried n now before
            (if leb limit n.attempt then give_up n why now failed else retry n a now failed))
      (sym m)
      (either over (IsRetried n now before) (leb before.max_attempts n.attempt)
        (give_up n why now failed) (retry n a now failed)
        (subst over
          (sym (
            drained none now (given_up counts n why now failed)
              (pending-given_up counts n why now failed ∙ q ∙ h.quiet)))
          (subst (λ b. IsGivenUp b 1 before (given_up counts n why now failed))
            (ap (λ l. counts_for (l i.kind)) l)
            (given_up-IsGivenUp counts n why now before e like h.quiet h.armed)))
        (retry-IsRetried n a now before e like h.stopped h.paused h.armed))
