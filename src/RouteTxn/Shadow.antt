-- ===== src/RouteTxn/Shadow.antt =====
-- tuntop/core/routes_txn.py: when `shadow` reports a conflict.
use tun_top.Prelude.{
  ℕ, ◌≤◌, ◌≡◌, ◌↔◌, refl, true, false, none, some, List, [], ◌∷◌, All, arith, ltb, if◌then◌else◌,
  Bool-cases, inl, inr,
}
use tun_top.RouteTxn.{Route, Row, Backend, eff_of, best_row, find_ours, conflict, conflict_with}

-- The better of two rows
abbrev better : Row → Row → Row
better best r = if ltb (eff_of r) (eff_of best) then r else best

better-le :
    (best r : Row) → (eff_of (better best r) ≤ eff_of r) × (eff_of (better best r) ≤ eff_of best)
better-le best r = elim (Bool-cases (ltb (eff_of r) (eff_of best))) [
  | inl h ↦ rw h (ground arith)
  | inr h ↦ rw h (ground arith)
]

le-better : (n : ℕ) (best r : Row) → n ≤ eff_of r → n ≤ eff_of best → n ≤ eff_of (better best r)
le-better n best r h k = elim (Bool-cases (ltb (eff_of r) (eff_of best))) [
  | inl e ↦ rw e h
  | inr e ↦ rw e k
]

-- A bound on the metric of the row that `min` finds is a bound on every row.
All-bound :
    (n : ℕ) (best : Row) (rows : List Row)
    → n ≤ eff_of (best_row best rows)
    → (n ≤ eff_of best) × All (λ r. n ≤ eff_of r) rows
All-bound n best [] h = (h, tt)
All-bound n best (r ∷ rows) h =
    let (first, rest) = All-bound n (better best r) rows h in
    let le = better-le best r in (omega arith, (omega arith, rest))

bound_best :
    (n : ℕ) (best : Row) (rows : List Row)
    → n ≤ eff_of best
    → All (λ r. n ≤ eff_of r) rows
    → n ≤ eff_of (best_row best rows)
bound_best n best [] h k = h
bound_best n best (r ∷ rows) h k = bound_best n (better best r) rows (le-better n best r k.0 h) k.1

ltb-false : (m n : ℕ) → ltb m n ≡ false → n ≤ m
ltb-false m n h = ground arith

ltb-true : (m n : ℕ) → ltb m n ≡ true → ¬ (n ≤ m)
ltb-true m n h k = ground arith

conflict_with_iff :
    (b : Backend) (ours : Row) (rows : List Row)
    → (conflict_with b ours rows ≡ none) ↔ All (λ r. eff_of ours ≤ eff_of r) rows
conflict_with_iff b ours [] = (λ _. tt, λ _. refl)
conflict_with_iff b ours (r ∷ rows) =
    elim (Bool-cases (ltb (eff_of (best_row r rows)) (eff_of ours))) [
      | inl h ↦ rw h (
        λ e. absurd (cc),
        λ (k, l). absurd (ltb-true _ _ h (bound_best (eff_of ours) r rows k l)),
      )
      | inr h ↦ rw h (λ e. All-bound (eff_of ours) r rows (ltb-false _ _ h), λ _. refl)
    ]

-- If a live row is our route, `shadow` reports no conflict exactly if no row of the prefix has a
-- metric below that of ours; a row without a readable metric counts as 2 ^ 30.
pub conflict_iff :
    (b : Backend) (route : Route) (rows : List Row) (ours : Row)
    → find_ours b route rows ≡ some ours
    → (conflict b route rows ≡ none) ↔ All (λ r. eff_of ours ≤ eff_of r) rows
unfolding conflict
conflict_iff b route rows ours h = rw (h, conflict) (conflict_with_iff b ours rows)
