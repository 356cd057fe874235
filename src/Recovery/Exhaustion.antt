-- ===== src/Recovery/Exhaustion.antt =====
-- tuntop/core/recovery.py: an incident whose repairs all fail, from the first attempt to the last.
use tun_top.Prelude.{
  All, Option, none, some, ℕ, suc, ◌+◌, ◌*◌, ◌≡◌, refl, ◌∙◌, ap, sym, Bool, true, false, ◌&&◌, some,
  List, [], ◌∷◌, arith, leb, subst, length, if◌then◌else◌,
}
use tun_top.Recovery.{RecoveryAction, Incident, Engine, delay_for_attempt}
use tun_top.Recovery.Attempt.{
  let_go, judge_incident, take_due, begin_attempt, judge, judge_in_flight, verdict, counts_for,
  failed_once, counted, ladder_actions,
}
use tun_top.Recovery.Rounds.{
  Round, IsRefused, IsRefused-verdict, Fails, attempt_at, attempt_round, IsScheduled, IsLike,
  IsBegun, taken-IsHeld, begun, HasRung,
}
use tun_top.Recovery.Verdicts.{IsRetried, IsGivenUp, IsEnd, streak_after, judged_incident}

made :
    (i : Incident) (r : Round) (now : ℕ) (before : Engine) (x : Option RecoveryAction × Engine)
    → IsBegun (IsRefused r) i before x
    → IsScheduled i before
    → IsEnd i now before (elim x.0 [ none ↦ x.1 | some a ↦ judge a r.repair r.check now x.1 ])
unfolding judge
made i r now before (none, e) b h = elim b [ ]
made i r now before (some a, e) (f, (held, like)) h =
    let result = verdict a r.repair r.check in
    subst (λ o. IsEnd i now before (judge_in_flight o a result now e)) (sym held)
      (subst (λ ok. IsEnd i now before (judge_incident (counted i) a (ok, result.1) now (let_go e)))
        (sym (IsRefused-verdict r a f)) (judged_incident i a result.1 now before e like h))

-- One attempt of a scheduled incident that is not verified on any rung of its ladder (its repair
-- raises or does not return true, or the rung has a check and that raises or does not return
-- true), made when it is due or later, for a
-- kind with a ladder, on an armed engine with no report waiting. If it was the last attempt: no
-- incident is scheduled, no attempt runs, the failed attempt and one incident given up are
-- counted, the streak grows by one exactly if the kind counts for the crash loop, recovery gives
-- up exactly if it then reaches the limit, and the machine is not recovering. Else the incident is
-- scheduled again after the wait of the next attempt, with its attempt counted, and of the
-- counters only that of the failed attempts has changed.
pub round_ends :
    (i : Incident) (r : Round) (e : Engine)
    → Fails (ladder_actions (e.ladders i.kind)) r
    → IsScheduled i e
    → IsEnd i (i.due_at + r.late) e (attempt_round r e)
unfolding attempt_round attempt_at
round_ends i r e f h =
    let now = i.due_at + r.late in
    let (held, like) = taken-IsHeld i r.late e h in
    let started =
      begun (IsRefused r) i now e (take_due now e) (held, like)
        (subst (λ l. HasRung (ladder_actions (l i.kind))) (sym like.4) h.rungs)
        (subst (λ l. Fails (ladder_actions (l i.kind)) r) (sym like.4) f) in
    subst (λ o. IsEnd i now e (elim o [ none ↦ e | some i ↦ attempt_at (i.due_at + r.late) r e ]))
      (sym h.booked) (made i r now e (begin_attempt now (take_due now e)) started h)

-- Attempts that follow one another
unfoldable pub attempt_rounds : List Round → Engine → Engine
attempt_rounds [] e = e
attempt_rounds (r ∷ rest) e = attempt_rounds rest (attempt_round r e)

last_end :
    (i : Incident) (now : ℕ) (e e' : Engine)
    → 1 + i.attempt ≡ e.max_attempts
    → IsEnd i now e e'
    → IsGivenUp (counts_for (e.ladders i.kind)) 1 e e'
last_end i now e e' q h =
    let y : leb e.max_attempts (i.attempt + 1) ≡ true = ground arith in
    subst
      (λ b.
        if b
        then IsGivenUp (counts_for (e.ladders i.kind)) 1 e e'
        else IsRetried (counted i) now e e')
      y h

early_end :
    (i : Incident) (now n : ℕ) (e e' : Engine)
    → suc (suc n) + i.attempt ≡ e.max_attempts
    → IsEnd i now e e'
    → IsRetried (counted i) now e e'
early_end i now n e e' q h =
    let y : leb e.max_attempts (i.attempt + 1) ≡ false = ground arith in
    subst
      (λ b.
        if b
        then IsGivenUp (counts_for (e.ladders i.kind)) 1 e e'
        else IsRetried (counted i) now e e')
      y h

again-IsScheduled :
    (i j : Incident) (e e' : Engine)
    → IsScheduled i e
    → i.kind ≡ j.kind
    → e'.incident ≡ some j
    → e'.in_attempt ≡ false
    → IsLike (failed_once e) e'
    → IsScheduled j e'
again-IsScheduled i j e e' h k b a (s, p, g, q, l, _, _, _, _, _) = record {
  booked = b;
  stopped = s ∙ h.stopped;
  paused = p ∙ h.paused;
  armed = g ∙ h.armed;
  idle = a;
  quiet = q ∙ h.quiet;
  rungs =
      subst (λ l. HasRung (ladder_actions (l j.kind))) (sym l)
        (subst (λ k. HasRung (ladder_actions (e.ladders k))) k h.rungs);
}

one_more :
    (counts : Bool) (n : ℕ) (e e1 e2 : Engine)
    → IsLike (failed_once e) e1
    → IsGivenUp counts n e1 e2
    → IsGivenUp counts (suc n) e e2
one_more counts n e e1 e2 (s, p, g, q, l, m, u, d, k, t)
      (i, a, w, gives, fails, opened, streak, guard, machine) =
    (
      i,
      a,
      w,
      gives ∙ ap (λ t. t.give_ups + 1) t,
      fails ∙ ap (λ t. t.repairs_failed + n) t ∙ omega arith,
      opened ∙ ap (λ t. t.incidents) t,
      streak ∙ ap (streak_after counts) k,
      guard
          ∙ ap (λ u. counts && leb u (streak_after counts e1.consecutive_failed)) u
          ∙ ap (λ k. counts && leb e.give_up_after (streak_after counts k)) k,
      machine,
    )

-- An incident that is scheduled on an armed engine for a kind with a ladder, with no report
-- waiting, ends after exactly as many attempts as are left to it, if none of them is verified on any rung of the ladder: its repair raises or does not return true, or the rung has a check and that raises or does not return true. Then no
-- incident is scheduled, no attempt runs, no report waits, the failed attempts and one incident
-- given up are counted and no incident is opened, the streak grows by one exactly if the kind
-- counts for the crash loop, recovery has given up exactly if the kind counts and the streak
-- reaches the limit, and the machine is not recovering.
pub failing_incident_ends :
    (i : Incident) (r : Round) (rs : List Round) (e : Engine)
    → All (Fails (ladder_actions (e.ladders i.kind))) (r ∷ rs)
    → IsScheduled i e
    → length (r ∷ rs) + i.attempt ≡ e.max_attempts
    → IsGivenUp (counts_for (e.ladders i.kind)) (length (r ∷ rs)) e (attempt_rounds (r ∷ rs) e)
unfolding attempt_rounds
failing_incident_ends i r [] e (f, _) h q =
    last_end i (i.due_at + r.late) e (attempt_round r e) q (round_ends i r e f h)
failing_incident_ends i r (next ∷ rs) e (f, fs) h q =
    let e1 = attempt_round r e in
    let (b, a, like) = early_end i (i.due_at + r.late) (length rs) e e1 q (round_ends i r e f h) in
    let j = record (counted i) {
      due_at = i.due_at + r.late + delay_for_attempt (i.attempt + 1 + 1) * e.delay_scale;
    } in
    let left : length (next ∷ rs) + (i.attempt + 1) ≡ e1.max_attempts = ground (arith, q, like.5) in
    let n = length (next ∷ rs) in
    one_more (counts_for (e.ladders i.kind)) n e e1 (attempt_rounds (next ∷ rs) e1) like (
      subst (λ l. IsGivenUp (counts_for (l i.kind)) n e1 (attempt_rounds (next ∷ rs) e1)) like.4
        (failing_incident_ends j next rs e1
          (subst (λ l. All (Fails (ladder_actions (l i.kind))) (next ∷ rs)) (sym like.4) fs)
          (again-IsScheduled i j e e1 h refl b a like) left))
