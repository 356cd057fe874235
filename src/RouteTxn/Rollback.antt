-- ===== src/RouteTxn/Rollback.antt =====
-- tuntop/core/routes_txn.py: what a commit that fails leaves in the table.
use mathlib.Core.List.{reverse, reverse-cons}
use tun_top.Prelude.{
  ◌≡◌, refl, sym, ◌∙◌, ap, ◌⊎◌, All, String, Bool, true, false, not, some, List, [], ◌∷◌,
  if◌then◌else◌, All-append, Bool-cases, inl, inr, length,
}
use tun_top.RouteTxn.{Action, add, remove, Route, RouteOp, Backend, remove_op}
use tun_top.RouteTxn.Commit.{
  apply_one, apply_action, value_of, check_removed, after_failure, after_remove, clean_failed,
  run_ops, commit,
}
use tun_top.RouteTxn.Wanted.{
  is_add, same→eq, touches, Effective, wanted_untouched, wanted-undo, wanted-undo_first,
}
use tun_top.RouteTxn.Laws.{
  IsLawful, IsQuiet, IsApart, Separate, Apart, apply_one-frame, clean_failed-frame,
  verify_op-present,
}
use tun_top.RouteTxn.Atomic.{Stop, stopped-Stop, undo-wanted, finish_failed}

All-reverse {ℓ κ} : {A : Type ℓ} (P : A → Type κ) (xs : List A) → All P xs → All P (reverse xs)
All-reverse P [] h = tt
All-reverse P (x ∷ xs) h =
    rw reverse-cons (All-append P (reverse xs) (x ∷ []) (All-reverse P xs h.1) (h.0, tt))

Separate-reverse :
    (canon : Route → Route) (near : Route → Route → Bool) (done mine : List RouteOp) (s : Route)
    → done ≡ mine
    → Separate canon near mine s
    → Separate canon near (reverse done) s
Separate-reverse canon near done mine s e h =
    rw e (All-reverse (λ op. IsApart canon near op.route s) mine h)

module _ (b : Backend) (present : b.Table → Route → Bool) (canon : Route → Route)
    (near : Route → Route → Bool) (L : IsLawful b present canon near) (Q : IsQuiet b) where
  failed_check :
      (r : Route) (t : b.Table) (e : String)
      → value_of b (check_removed b r t).0 ≡ some e
      → present (check_removed b r t).1 r ≡ true
  failed_check r t e h =
      let k = rw (verify_op-present b present canon near L r t) at h in
      elim (Bool-cases (present t r)) [
        | inl p ↦ rw (verify_op-present b present canon near L r t) p
        | inr n ↦ absurd (cc (rw n at k))
      ]

  failed_after_failure :
      (r : Route) (t : b.Table) (p : Bool) (e : String)
      → present t r ≡ p
      → value_of b (after_failure b r p t).0 ≡ some e
      → present (after_failure b r p t).1 r ≡ true
  failed_after_failure r t true e here h = here
  failed_after_failure r t false e here h = failed_check r t e h

  failed_after_remove :
      (r : Route) (t : b.Table) (flag : Bool) (e : String)
      → value_of b (after_remove b r flag t).0 ≡ some e
      → present (after_remove b r flag t).1 r ≡ true
  failed_after_remove r t true e h = failed_check r t e h
  failed_after_remove r t false e h = rw (verify_op-present b present canon near L r t) (
      failed_after_failure r t (present t r) e refl
        (rw (verify_op-present b present canon near L r t) at h))

  -- A remove that fails has seen its route in the table.
  failed_remove :
      (r : Route) (t : b.Table) (e : String)
      → value_of b (apply_action b remove r t).0 ≡ some e
      → present (apply_action b remove r t).1 r ≡ true
  failed_remove r t e h =
      let (flag, q) = Q.quiet r t in
      rw q (failed_after_remove r (remove_op b r t).1 flag e (rw q at h))

  -- Where a failed operation leaves its route, when it is one that would have changed the table:
  -- as it was, or, for an add, in the table.
  failed_action :
      (a : Action) (r : Route) (t : b.Table) (e : String)
      → value_of b (apply_action b a r t).0 ≡ some e
      → present t r ≡ not (is_add a)
      → (present (clean_failed b (record { action = a; route = r }) (apply_action b a r t).1) r
          ≡ present t r)
        ⊎ ((a ≡ add)
            × (present
                  (clean_failed b (record { action = a; route = r }) (apply_action b a r t).1)
                  r
                ≡ true))
  failed_action add r t e h p =
      elim (Bool-cases (
        present (clean_failed b (record { action = add; route = r }) (apply_action b add r t).1)
          r)) [ inl y ↦ inr (refl, y) | inr n ↦ inl (n ∙ sym p) ]
  failed_action remove r t e h p = inl (unfold clean_failed in (failed_remove r t e h ∙ sym p))

  All-refl :
      (t : b.Table) (ops : List RouteOp) → All (λ k. present t k.route ≡ present t k.route) ops
  All-refl t [] = tt
  All-refl t (op ∷ ops) = (refl, All-refl t ops)

  module _ (ops : List RouteOp) (t : b.Table) where
    -- The operation that failed, if its route is still in the table although it was not before:
    -- an add that was refused, and whose clean-up was refused too.
    abbrev pub Leaked : Route → Type 0
    Leaked s =
        (op : RouteOp) × (e : String) × ((commit b ops t).0.failed ≡ (op, e) ∷ [])
        × (op.action ≡ add)
        × (canon op.route ≡ canon s)
        × (present (commit b ops t).1 s ≡ true)

    module _ (d : Apart canon near ops) (eff : Effective canon ops (present t)) where
      Effective-done :
          (done : List RouteOp) (op : RouteOp) (end : b.Table)
          (S : Stop b present canon near L ops t done op end)
          → Effective canon done (present t) × (present S.before op.route ≡ not (is_add op.action))
      Effective-done done op end S = S.effective (present t) d (All-refl t ops) eff

      at_same :
          (done : List RouteOp) (op : RouteOp) (end : b.Table) (s : Route)
          (S : Stop b present canon near L ops t done op end)
          → canon op.route ≡ canon s
          → (present end s ≡ present S.before s)
            ⊎ ((op.action ≡ add) × (canon op.route ≡ canon s) × (present end s ≡ true))
      unfolding apply_one
      at_same done op end s S q =
          elim (failed_action op.action op.route S.before S.error S.refused
            (Effective-done done op end S).1) [
              | inl kept ↦ inl (
                  sym (L.respects end op.route s q)
                  ∙ rw S.ended kept
                  ∙ L.respects S.before op.route s q)
              | inr (a, here) ↦ inr (a, q, sym (L.respects end op.route s q) ∙ rw S.ended here)
            ]

      at_failed :
          (done : List RouteOp) (op : RouteOp) (end : b.Table) (s : Route)
          → (S : Stop b present canon near L ops t done op end) → IsApart canon near op.route s
          → (present end s ≡ present S.before s)
            ⊎ ((op.action ≡ add) × (canon op.route ≡ canon s) × (present end s ≡ true))
      at_failed done op end s S (inl e) = at_same done op end s S (same→eq canon op.route s e)
      at_failed done op end s S (inr n) = inl (
          rw S.ended (
            clean_failed-frame b present canon near L op s (apply_one b op S.before).1 n
            ∙ apply_one-frame b present canon near L op s S.before n))

    -- On a lawful backend whose removes return a flag, a commit that fails, and whose rollback
    -- reports no error, leaves a route as it was before the commit, if each operation of the plan
    -- was one that changes the table, none touches another form's route of a later one, and the
    -- route is not near one of another form that the plan names. The one exception is the route of
    -- an add that failed and that is in the table all the same.
    pub commit_failed-unchanged :
        (s : Route)
        → Separate canon near ops s
        → Apart canon near ops
        → Effective canon ops (present t)
        → (commit b ops t).0.ok ≡ false
        → (commit b ops t).0.errors ≡ []
        → (present (commit b ops t).1 s ≡ present t s) ⊎ Leaked s
    unfolding commit
    commit_failed-unchanged s k d eff f none_failed =
        let r = run_ops b 0 (length ops) ops [] t in
        let (done, op, e, q, failed, _, errors, end) = finish_failed b present canon near L r f in
        let (mine, at, S) =
          stopped-Stop b present canon near L 0 (length ops) ops [] done op e t q in
        let undone =
          undo-wanted b present canon near L (reverse done) r.2 s
            (Separate-reverse canon near done mine s at (S.apart_done s k))
            (sym errors ∙ none_failed) in
        let back =
          wanted-undo canon done (present t) s (present r.2 s) (L.respects t)
            (rw at (Effective-done d eff mine op r.2 S).0) in
        let now : present (commit b ops t).1 s
            ≡ (if touches canon done s then present t s else present r.2 s) =
          ap (λ u. present u s) end ∙ undone ∙ back in
        elim (Bool-cases (touches canon done s)) [
          | inl y ↦ inl (now ∙ rw y)
          | inr n ↦ elim (at_failed d eff mine op r.2 s S (S.apart s k)) [
            | inl kept ↦ inl (
                now
                ∙ rw n (
                    kept
                    ∙ S.as_wanted s k
                    ∙ wanted_untouched canon mine s (present t s)
                        (ap (λ l. touches canon l s) (sym at) ∙ n)))
            | inr (a, p, h) ↦ inr (op, e, failed, a, p, now ∙ rw n h)
          ]
        ]

module _ (b : Backend) (present : b.Table → Route → Bool) (canon : Route → Route)
    (near : Route → Route → Bool) (L : IsLawful b present canon near) where
  -- On a lawful backend, if the rollback of a failed commit reports no error, it puts the route of
  -- the first applied operation into the state opposite to that operation, whatever it was before
  -- the commit, if that route is not near one of another form that the plan names: a route that was
  -- there already is gone after the rollback of its add, and one that was not there is added by the
  -- rollback of its remove.
  pub rollback_opposite :
      (ops : List RouteOp) (t : b.Table) (op : RouteOp) (rest : List RouteOp)
      → Separate canon near ops op.route
      → (commit b ops t).0.ok ≡ false
      → (commit b ops t).0.errors ≡ []
      → (commit b ops t).0.applied ≡ op ∷ rest
      → present (commit b ops t).1 op.route ≡ not (is_add op.action)
  unfolding commit
  rollback_opposite ops t op rest k f none_failed first =
      let r = run_ops b 0 (length ops) ops [] t in
      let (done, o, e, q, _, applied, errors, end) = finish_failed b present canon near L r f in
      let (mine, at, S) = stopped-Stop b present canon near L 0 (length ops) ops [] done o e t q in
      let apart = Separate-reverse canon near done mine op.route at (S.apart_done op.route k) in
      ap (λ u. present u op.route) end
      ∙ undo-wanted b present canon near L (reverse done) r.2 op.route apart
          (sym errors ∙ none_failed)
      ∙ rw (sym applied ∙ first) (wanted-undo_first canon op rest (present r.2 op.route))
