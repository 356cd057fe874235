-- ===== src/Recovery/Reports.antt =====
-- tuntop/core/recovery.py: many reports of one failure, before a repair and while it runs.
use tun_top.Prelude.{
  ℕ, ◌≡◌, refl, sym, ap, String, Bool, true, false, Option, none, some, List, [], ◌∷◌, arith, All,
  subst,
}
use tun_top.Recovery.{
  FailureKind, same_kind, RecoveryAction, Incident, Report, Engine, report_locked, report_failure,
  is_some,
}
use tun_top.Recovery.Attempt.{
  Reply, judge, verdict, drain_pending, judge_in_flight, succeed, let_go,
}
use tun_top.Recovery.Invariant.{IsConsistent, IsBooked, IsFlying}

-- A flood of reports, each with the time at which it is made
unfoldable pub report_all : List (Report × ℕ) → Engine → Engine
report_all [] e = e
report_all ((r, now) ∷ rest) e = report_all rest (report_failure r now e)

locked_booked :
    (r : Report) (now : ℕ) (e : Engine)
    → e.in_attempt ≡ false
    → is_some e.incident ≡ true
    → report_locked r now e ≡ (none, e)
unfolding report_locked
locked_booked r now e a b = ground arith

report_failure-booked :
    (r : Report) (now : ℕ) (e : Engine)
    → e.in_attempt ≡ false
    → is_some e.incident ≡ true
    → report_failure r now e ≡ e
unfolding report_failure
report_failure-booked r now e a b =
    let q = locked_booked r now e a b in rw (report_failure, ap (λ p. p.0) q) (ap (λ p. p.1) q)

report_all-booked :
    (rs : List (Report × ℕ)) (e : Engine)
    → e.in_attempt ≡ false
    → is_some e.incident ≡ true
    → report_all rs e ≡ e
unfolding report_all
report_all-booked [] e a b = refl
report_all-booked ((r, now) ∷ rest) e a b =
    rw (report_failure-booked r now e a b) (report_all-booked rest e a b)

idle :
    (i : Incident) (o : Option Incident) (e : Engine)
    → IsBooked o e
    → o ≡ some i
    → e.in_attempt ≡ false
idle i o e h q = ground arith

-- In a consistent engine, a flood of reports while an incident is scheduled changes nothing at
-- all: neither the schedule, nor the number of attempts, nor the statistics, nor the log.
pub flood_is_absorbed :
    (i : Incident) (rs : List (Report × ℕ)) (e : Engine)
    → IsConsistent e
    → e.incident ≡ some i
    → report_all rs e ≡ e
flood_is_absorbed i rs e h q =
    report_all-booked rs e (idle i e.incident e h.booked q) (ap is_some q)

-- The report that waits is of a kind, where there is one.
abbrev IsLike : FailureKind → Option Report → Type 0
IsLike kind none = Unit
IsLike kind (some r) = same_kind kind r.kind ≡ true

-- While the worker holds an incident, nothing but the pending slot and the log has changed.
record IsAbsorbing (i : Incident) (n : ℕ) (e : Engine) : Type 0 where
  busy : e.in_attempt ≡ true
  held : e.in_flight ≡ some i
  waiting : IsLike i.kind e.pending
  opened : e.stats.incidents ≡ n

report_locked-busy :
    (i : Incident) (n : ℕ) (r : Report) (now : ℕ) (e : Engine)
    → IsAbsorbing i n e
    → same_kind i.kind r.kind ≡ true
    → ((report_locked r now e).0 ≡ none) × IsAbsorbing i n (report_locked r now e).1
unfolding report_locked
report_locked-busy i n r now e h s = ground arith

report_failure-busy :
    (i : Incident) (n : ℕ) (r : Report) (now : ℕ) (e : Engine)
    → IsAbsorbing i n e
    → same_kind i.kind r.kind ≡ true
    → IsAbsorbing i n (report_failure r now e)
unfolding report_failure
report_failure-busy i n r now e h s =
    let (left, kept) = report_locked-busy i n r now e h s in rw (report_failure, left) kept

report_all-busy :
    (i : Incident) (n : ℕ) (rs : List (Report × ℕ)) (e : Engine)
    → IsAbsorbing i n e
    → All (λ x. same_kind i.kind x.0.kind ≡ true) rs
    → IsAbsorbing i n (report_all rs e)
unfolding report_all
report_all-busy i n [] e h a = h
report_all-busy i n ((r, now) ∷ rest) e h (s, a) =
    report_all-busy i n rest (report_failure r now e) (report_failure-busy i n r now e h s) a

succeed-busy :
    (i : Incident) (n : ℕ) (action : RecoveryAction) (now : ℕ) (e : Engine)
    → IsLike i.kind e.pending
    → e.stats.incidents ≡ n
    → ((succeed i action now e).incident ≡ none)
      × ((succeed i action now e).pending ≡ none)
      × ((succeed i action now e).stats.incidents ≡ n)
unfolding succeed drain_pending
succeed-busy i n action now e h s = ground arith

judge-busy :
    (i : Incident) (n : ℕ) (action : RecoveryAction) (result : Bool × String) (now : ℕ) (e : Engine)
    → IsAbsorbing i n e
    → result.0 ≡ true
    → ((judge_in_flight e.in_flight action result now e).incident ≡ none)
      × ((judge_in_flight e.in_flight action result now e).pending ≡ none)
      × ((judge_in_flight e.in_flight action result now e).stats.incidents ≡ n)
judge-busy i n action (true, why) now e h good =
    rw h.held (succeed-busy i n action now (let_go e) h.waiting h.opened)
judge-busy i n action (false, why) now e h good = ground arith

busy :
    (i : Incident) (o : Option Incident) (e : Engine)
    → IsFlying o e
    → o ≡ some i
    → e.in_attempt ≡ true
busy i o e h q = ground arith

-- In a consistent engine, a flood of reports of the kind that an attempt is repairing, made while
-- it runs and with no report waiting before, opens no incident when the repair is verified:
-- afterwards no incident is scheduled, no report is left waiting, and the count of incidents is
-- what it was.
pub verified_flood_is_dropped :
    (i : Incident) (rs : List (Report × ℕ)) (action : RecoveryAction) (repair check : Reply)
    (now : ℕ) (e : Engine)
    → IsConsistent e
    → e.in_flight ≡ some i
    → e.pending ≡ none
    → All (λ x. same_kind i.kind x.0.kind ≡ true) rs
    → (verdict action repair check).0 ≡ true
    → ((judge action repair check now (report_all rs e)).incident ≡ none)
      × ((judge action repair check now (report_all rs e)).pending ≡ none)
      × ((judge action repair check now (report_all rs e)).stats.incidents ≡ e.stats.incidents)
unfolding judge
verified_flood_is_dropped i rs action repair check now e h q p a good =
    let start : IsAbsorbing i e.stats.incidents e = record {
      busy = busy i e.in_flight e h.flying q;
      held = q;
      waiting = subst (IsLike i.kind) (sym p) tt;
      opened = refl;
    } in
    judge-busy i e.stats.incidents action (verdict action repair check) now (report_all rs e)
      (report_all-busy i e.stats.incidents rs e start a) good
