-- ===== src/RouteTxn/Laws.antt =====
-- tuntop/core/routes_txn.py: what the code relies on in a backend, and what one operation does then.
use tun_top.Prelude.{
  ◌≡◌, ◌⊎◌, All, refl, ◌∙◌, ap, String, Bool, true, false, Option, none, some, List, [], ◌∷◌,
  if◌then◌else◌, Bool-cases, inl, inr, Option-cases,
}
use tun_top.Prelude.Results.{Result, ok, err}
use tun_top.RouteTxn.{
  Family, Action, add, remove, Route, RouteOp, Row, Backend, remove_op, verify_op, shadow_op,
  probe_rows, rows_conflict, is_host_route, deleted,
}
use tun_top.RouteTxn.Calls.{
  Exec, Failure, pure, catch, on_type_error, ◌>>=◌, continue, Frames, Frames-if, Frames-pure,
  Frames-catch, Frames-bind, Frames-on_type_error, catch_table, map_table,
}
use tun_top.RouteTxn.Commit.{
  apply_one, clean_failed, apply_action, value_of, rename_conflict, after_verify, after_add,
  after_failure, after_remove, check_removed, remove_present,
}
use tun_top.RouteTxn.Wanted.{is_add, same, Respects}

-- `present t r` tells whether the route `r` is in the table `t`; routes of the same form `canon` are
-- one route. `near r s` tells whether a call for `r` may touch the different route `s`, as a delete
-- that ignores the metric, or an add that first deletes what is there, touches other routes of its
-- prefix. A lawful backend has the identity-aware verifier, which answers `present` and changes
-- nothing; its probe of the rows changes nothing; and an add or a delete of a route leaves every
-- route that is not near it as it was, whether it succeeds, fails or raises.
pub record IsLawful (b : Backend) (present : b.Table → Route → Bool) (canon : Route → Route)
    (near : Route → Route → Bool) : Type 0 where
  pub verified :
      (r : Route)
      → (fn : Route → Exec b.Table Bool) × (b.verify_route r.family ≡ some fn)
        × ((t : b.Table) → fn r t ≡ (ok (present t r), t))
  pub probed :
      (f : Family) (fn : String → Exec b.Table (Option (List Row)))
      → b.route_table f ≡ some fn
      → (dest : String) (t : b.Table) → (fn dest t).1 ≡ t
  pub respects : (t : b.Table) → Respects canon (present t)
  pub add_frame :
      (r s : Route) (t : b.Table) → near r s ≡ false → present (b.add_route r t).1 s ≡ present t s
  pub delete_frame :
      (r s : Route) (t : b.Table)
      → near r s ≡ false
      → present (b.delete_route r t).1 s ≡ present t s
  pub plain_frame :
      (r s : Route) (t : b.Table)
      → near r s ≡ false
      → present (b.delete_plain r t).1 s ≡ present t s

-- `Backend.remove` returns a flag: its delete does not raise, or the delete that takes fewer
-- parameters, after a TypeError, does not.
pub record IsQuiet (b : Backend) : Type 0 where
  pub quiet : (r : Route) (t : b.Table) → (flag : Bool) × ((remove_op b r t).0 ≡ ok flag)

-- The route `s` is the one of a call for `r`, or is not touched by it.
abbrev pub IsApart : (Route → Route) → (Route → Route → Bool) → Route → Route → Type 0
IsApart canon near r s = (same canon r s ≡ true) ⊎ (near r s ≡ false)

-- The same for every operation of a plan.
abbrev pub Separate : (Route → Route) → (Route → Route → Bool) → List RouteOp → Route → Type 0
Separate canon near ops s = All (λ op. IsApart canon near op.route s) ops

-- No operation of a plan touches the different route of a later one.
abbrev pub Apart : (Route → Route) → (Route → Route → Bool) → List RouteOp → Type 0
Apart canon near [] = Unit
Apart canon near (op ∷ ops) =
    All (λ later. IsApart canon near op.route later.route) ops × Apart canon near ops

module _ (b : Backend) (present : b.Table → Route → Bool) (canon : Route → Route)
    (near : Route → Route → Bool) (L : IsLawful b present canon near) where
  pub verify_op-present : (r : Route) (t : b.Table) → verify_op b r t ≡ (ok (present t r), t)
  unfolding verify_op
  verify_op-present r t = rw ((L.verified r).1, verify_op, (L.verified r).2 t)

  shadow_if :
      (c : Bool) (fn : String → Exec b.Table (Option (List Row))) (r : Route) (t : b.Table)
      → (fn r.dest t).1 ≡ t
      → ((if c then probe_rows b fn r else pure none) t).1 ≡ t
  shadow_if true fn r t h =
      catch_table (fn r.dest >>= λ rows. pure (rows_conflict b r rows)) (λ e. none) t
      ∙ map_table (rows_conflict b r) (fn r.dest) t
      ∙ h
  shadow_if false fn r t h = refl

  pub table-shadow_op : (r : Route) (t : b.Table) → (shadow_op b r t).1 ≡ t
  unfolding shadow_op
  table-shadow_op r t = elim (Option-cases (b.route_table r.family)) [
    | inl e ↦ rw (e, shadow_op)
    | inr (fn, e) ↦
        rw (e, shadow_op)
          (shadow_if (is_host_route r.dest) fn r t (L.probed r.family fn e r.dest t))
  ]

  module _ (r s : Route) (n : near r s ≡ false) where
    abbrev view : b.Table → Bool
    view t = present t s

    Frames-verify_op : Frames view (verify_op b r)
    Frames-verify_op = record { at = λ t. rw (verify_op-present r t) }

    Frames-shadow_op : Frames view (shadow_op b r)
    Frames-shadow_op = record { at = λ t. rw (table-shadow_op r t) }

    Frames-add_route : Frames view (b.add_route r)
    Frames-add_route = record { at = λ t. L.add_frame r s t n }

    Frames-remove_op : Frames view (remove_op b r)
    unfolding remove_op
    Frames-remove_op =
        Frames-bind view (catch (b.delete_route r) (on_type_error (b.delete_plain r)))
          (λ d. pure (deleted d))
          (Frames-catch view (b.delete_route r) (on_type_error (b.delete_plain r))
            (record { at = λ t. L.delete_frame r s t n })
            (Frames-on_type_error view (b.delete_plain r)
              (record { at = λ t. L.plain_frame r s t n })))
          (λ d. Frames-pure view (deleted d))

    Frames-after_verify : (p : Bool) → Frames view (after_verify b r p)
    Frames-after_verify false = record { at = λ t. refl }
    Frames-after_verify true = record {
      at = λ t. ap view (map_table rename_conflict (shadow_op b r) t ∙ table-shadow_op r t);
    }

    Frames-after_add : (added : Bool) → Frames view (after_add b r added)
    Frames-after_add false = record { at = λ t. refl }
    Frames-after_add true =
        Frames-bind view (verify_op b r) (after_verify b r) Frames-verify_op Frames-after_verify

    Frames-check_removed : Frames view (check_removed b r)
    Frames-check_removed = record { at = λ t. rw (verify_op-present r t) }

    Frames-after_failure : (p : Bool) → Frames view (after_failure b r p)
    Frames-after_failure false = Frames-check_removed
    Frames-after_failure true = record { at = λ t. refl }

    Frames-after_remove : (removed : Bool) → Frames view (after_remove b r removed)
    Frames-after_remove true = Frames-check_removed
    Frames-after_remove false =
        Frames-bind view (verify_op b r) (after_failure b r) Frames-verify_op Frames-after_failure

    Frames-apply_action : (a : Action) → Frames view (apply_action b a r)
    Frames-apply_action add =
        Frames-bind view (b.add_route r) (after_add b r) Frames-add_route Frames-after_add
    Frames-apply_action remove =
        Frames-bind view (remove_op b r) (after_remove b r) Frames-remove_op Frames-after_remove

    Frames-remove_present : Frames view (remove_present b r)
    Frames-remove_present =
        Frames-bind view (verify_op b r) (λ p. if p then remove_op b r else pure false)
          Frames-verify_op
          (λ p.
            Frames-if view p (remove_op b r) (pure false) Frames-remove_op (Frames-pure view false))

  -- One operation leaves every other route as it was.
  pub apply_one-frame :
      (op : RouteOp) (s : Route) (t : b.Table)
      → near op.route s ≡ false
      → present (apply_one b op t).1 s ≡ present t s
  unfolding apply_one
  apply_one-frame op s t n = (Frames-apply_action op.route s n op.action).at t

  clean_action-frame :
      (a : Action) (r s : Route) (t : b.Table)
      → near r s ≡ false
      → present (clean_failed b (record { action = a; route = r }) t) s ≡ present t s
  unfolding clean_failed
  clean_action-frame add r s t n = (Frames-remove_present r s n).at t
  clean_action-frame remove r s t n = refl

  pub clean_failed-frame :
      (op : RouteOp) (s : Route) (t : b.Table)
      → near op.route s ≡ false
      → present (clean_failed b op t) s ≡ present t s
  clean_failed-frame op s t n = clean_action-frame op.action op.route s t n

  -- The rest of an add, where it ends without an error, has seen the route in the table.
  after_verify_done :
      (r : Route) (t : b.Table) (p : Bool)
      → present t r ≡ p
      → value_of b (after_verify b r p t).0 ≡ none
      → present (after_verify b r p t).1 r ≡ true
  after_verify_done r t false e h = absurd (cc)
  after_verify_done r t true e h =
      rw (map_table rename_conflict (shadow_op b r) t, table-shadow_op r t) e

  after_add_done :
      (r : Route) (t : b.Table) (res : Result Failure Bool)
      → value_of b (continue (after_add b r) res t).0 ≡ none
      → present (continue (after_add b r) res t).1 r ≡ true
  after_add_done r t (err e) h = absurd (cc)
  after_add_done r t (ok false) h = absurd (cc)
  after_add_done r t (ok true) h =
      rw (verify_op-present r t)
        (after_verify_done r t (present t r) refl (rw (verify_op-present r t) at h))

  check_removed_done :
      (r : Route) (t : b.Table)
      → value_of b (check_removed b r t).0 ≡ none
      → present (check_removed b r t).1 r ≡ false
  check_removed_done r t h =
      let k = rw (verify_op-present r t) at h in
      elim (Bool-cases (present t r)) [
        | inl e ↦ absurd (cc (rw e at k))
        | inr e ↦ rw (verify_op-present r t) e
      ]

  after_failure_done :
      (r : Route) (t : b.Table) (p : Bool)
      → value_of b (after_failure b r p t).0 ≡ none
      → present (after_failure b r p t).1 r ≡ false
  after_failure_done r t true h = absurd (cc)
  after_failure_done r t false h = check_removed_done r t h

  after_remove_done :
      (r : Route) (t : b.Table) (res : Result Failure Bool)
      → value_of b (continue (after_remove b r) res t).0 ≡ none
      → present (continue (after_remove b r) res t).1 r ≡ false
  after_remove_done r t (err e) h = absurd (cc)
  after_remove_done r t (ok true) h = check_removed_done r t h
  after_remove_done r t (ok false) h =
      rw (verify_op-present r t)
        (after_failure_done r t (present t r) (rw (verify_op-present r t) at h))

  apply_action_done :
      (a : Action) (r : Route) (t : b.Table)
      → value_of b (apply_action b a r t).0 ≡ none
      → present (apply_action b a r t).1 r ≡ is_add a
  apply_action_done add r t h = after_add_done r (b.add_route r t).1 (b.add_route r t).0 h
  apply_action_done remove r t h = after_remove_done r (remove_op b r t).1 (remove_op b r t).0 h

  -- An operation without an error has done what it is for.
  pub apply_one_done :
      (op : RouteOp) (t : b.Table)
      → (apply_one b op t).0 ≡ none
      → present (apply_one b op t).1 op.route ≡ is_add op.action
  unfolding apply_one
  apply_one_done op t h = apply_action_done op.action op.route t h
