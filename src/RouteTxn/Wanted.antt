-- ===== src/RouteTxn/Wanted.antt =====
-- tuntop/core/routes_txn.py: what a plan asks of each route, as a fold over the plan, and what
-- undoing the plan in reverse gives back.
use mathlib.Core.List.{reverse, reverse-cons, map-append}
use tun_top.Prelude.{
  ◌≡◌, refl, sym, ap, ◌∙◌, Bool, true, false, not, ◌||◌, List, [], ◌∷◌, ◌++◌, map, arith, ite,
  if◌then◌else◌, String-discrete, ℕ_discrete, inl, inr, Bool-cases,
}
use tun_top.RouteTxn.{Action, add, remove, Route, RouteOp}
use tun_top.RouteTxn.Commit.{undo_of, opposite}

unfoldable pub Route-discrete : Discrete Route
unfolding String-discrete ℕ_discrete
Route-discrete = hlevel (String-discrete, ℕ_discrete)

unfoldable pub same_route : Route → Route → Bool
same_route r s = ite (Route-discrete r s) true false

pub same_route→eq : (r s : Route) → same_route r s ≡ true → r ≡ s
unfolding same_route
same_route→eq r s h = ground arith

pub same_route_self : (r : Route) → same_route r r ≡ true
unfolding same_route
same_route_self r = ground arith

abbrev pub is_add : Action → Bool
is_add add = true
is_add remove = false

-- `canon` gives a route the form that a backend compares: two routes with the same form are one
-- route for it, as a gateway that is None and one that is 0.0.0.0.
module _ (canon : Route → Route) where
  abbrev pub same : Route → Route → Bool
  same r s = same_route (canon r) (canon s)

  pub same_self : (r : Route) → same r r ≡ true
  same_self r = same_route_self (canon r)

  pub same→eq : (r s : Route) → same r s ≡ true → canon r ≡ canon s
  same→eq r s h = same_route→eq (canon r) (canon s) h

  -- Whether `s` is in the table after `op`, where `old` tells whether it was before
  abbrev pub wanted_by : RouteOp → Route → Bool → Bool
  wanted_by op s old = if same op.route s then is_add op.action else old

  -- The same after a plan
  unfoldable pub wanted : List RouteOp → Route → Bool → Bool
  wanted [] s old = old
  wanted (op ∷ ops) s old = wanted ops s (wanted_by op s old)

  -- Whether the plan has an operation on `s`
  unfoldable pub touches : List RouteOp → Route → Bool
  touches [] s = false
  touches (op ∷ ops) s = same op.route s || touches ops s

  -- Each operation of the plan changes the table: its route is absent before an add, and present
  -- before a remove, when the operations before it are done.
  abbrev pub Effective : List RouteOp → (Route → Bool) → Type 0
  Effective [] p = Unit
  Effective (op ∷ ops) p =
      (p op.route ≡ not (is_add op.action)) × Effective ops (λ s. wanted_by op s (p s))

  -- A predicate that does not tell routes of the same form apart.
  abbrev pub Respects : (Route → Bool) → Type 0
  Respects p = (r s : Route) → canon r ≡ canon s → p r ≡ p s

  pub wanted-nil : (s : Route) (old : Bool) → wanted [] s old ≡ old
  unfolding wanted
  wanted-nil s old = refl

  pub wanted-cons :
      (op : RouteOp) (ops : List RouteOp) (s : Route) (old : Bool)
      → wanted (op ∷ ops) s old ≡ wanted ops s (wanted_by op s old)
  unfolding wanted
  wanted-cons op ops s old = refl

  pub wanted-append :
      (xs ys : List RouteOp) (s : Route) (old : Bool)
      → wanted (xs ++ ys) s old ≡ wanted ys s (wanted xs s old)
  unfolding wanted
  wanted-append [] ys s old = refl
  wanted-append (op ∷ xs) ys s old = wanted-append xs ys s (wanted_by op s old)

  pub wanted_untouched :
      (ops : List RouteOp) (s : Route) (old : Bool) → touches ops s ≡ false → wanted ops s old ≡ old
  unfolding wanted touches
  wanted_untouched [] s old h = refl
  wanted_untouched (op ∷ ops) s old h = elim (Bool-cases (same op.route s)) [
    | inl e ↦ absurd (cc (rw e at h))
    | inr n ↦ rw n (wanted_untouched ops s old (rw n at h))
  ]

  is_add-opposite : (a : Action) → is_add (opposite a) ≡ not (is_add a)
  is_add-opposite add = refl
  is_add-opposite remove = refl

  wanted_by-Respects :
      (op : RouteOp) (p : Route → Bool) → Respects p → Respects (λ s. wanted_by op s (p s))
  wanted_by-Respects op p h r s e =
      ap (λ (c : Route). if same_route (canon op.route) c then is_add op.action else p r) e
      ∙ ap (λ b. if same op.route s then is_add op.action else b) (h r s e)

  -- Undoing an effective plan in reverse gives each route that the plan touches its old state, and
  -- leaves every other route alone.
  pub wanted-undo :
      (ops : List RouteOp) (p : Route → Bool) (s : Route) (x : Bool)
      → Respects p
      → Effective ops p
      → wanted (map undo_of (reverse ops)) s x ≡ (if touches ops s then p s else x)
  unfolding touches
  wanted-undo [] p s x k h = unfold wanted in refl
  wanted-undo (op ∷ ops) p s x k h =
      rw
        (
          reverse-cons,
          map-append,
          wanted-append,
          wanted-undo ops (λ r. wanted_by op r (p r)) s x (wanted_by-Respects op p k) h.1,
        )
        (elim (Bool-cases (same op.route s)) [
          | inl e ↦
              unfold wanted in
              rw e (is_add-opposite op.action ∙ sym h.0 ∙ k op.route s (same→eq op.route s e))
          | inr n ↦ unfold wanted in rw n
        ])

  -- Undone last, the first operation of a plan decides its route.
  pub wanted-undo_first :
      (op : RouteOp) (ops : List RouteOp) (x : Bool)
      → wanted (map undo_of (reverse (op ∷ ops))) op.route x ≡ not (is_add op.action)
  wanted-undo_first op ops x =
      rw (reverse-cons, map-append, wanted-append, wanted-cons, wanted-nil, same_self)
        (is_add-opposite op.action)
