-- ===== src/Health/Longest.antt =====
-- tuntop/monitor/health.py: the entry that decides about a name is the most specific one.
use tun_top.Prelude.{
  ℕ, ◌≤◌, ◌≡◌, refl, ap, String, true, false, none, some, List, [], ◌∷◌, leb, arith, All,
  starts_with, ◌⊎◌, inl, inr, Bool-cases, Option-cases, subst,
}
use mathlib.Core.Option.{some-injective}
use tun_top.Health.{len, insert, by_length, first_match, value_or, severity}
use tun_top.Health.Tables.{Severity, warning, severity_table}

module _ {A : Type 0} where
  abbrev pub Has : String × A → List (String × A) → Type 0
  Has x [] = ⊥
  Has x (y ∷ ys) = (x ≡ y) ⊎ Has x ys

  -- No key is longer than that of an earlier entry.
  abbrev Descending : List (String × A) → Type 0
  Descending [] = Unit
  Descending (x ∷ xs) = All (λ y. len y.0 ≤ len x.0) xs × Descending xs

  insert-All :
      (P : String × A → Type 0) (x : String × A) (ys : List (String × A))
      → P x
      → All P ys
      → All P (insert x ys)
  unfolding insert
  insert-All P x [] p h = (p, tt)
  insert-All P x (y ∷ ys) p (q, h) = elim (Bool-cases (leb (len y.0) (len x.0))) [
    | inl le ↦ rw le (p, (q, h))
    | inr n ↦ rw n (q, insert-All P x ys p h)
  ]

  All-insert :
      (P : String × A → Type 0) (x : String × A) (ys : List (String × A))
      → All P (insert x ys)
      → P x × All P ys
  unfolding insert
  All-insert P x [] (p, h) = (p, tt)
  All-insert P x (y ∷ ys) h = elim (Bool-cases (leb (len y.0) (len x.0))) [
    | inl le ↦ rw le at h
    | inr n ↦ (let (q, k) = rw n at h in let (p, r) = All-insert P x ys k in (p, (q, r)))
  ]

  weaken_bound :
      (a b : ℕ) (ys : List (String × A))
      → a ≤ b
      → All (λ y. len y.0 ≤ a) ys
      → All (λ y. len y.0 ≤ b) ys
  weaken_bound a b [] h k = tt
  weaken_bound a b (y ∷ ys) h (l, k) = (omega arith, weaken_bound a b ys h k)

  insert-Descending :
      (x : String × A) (ys : List (String × A)) → Descending ys → Descending (insert x ys)
  unfolding insert
  insert-Descending x [] d = (tt, tt)
  insert-Descending x (y ∷ ys) (b, d) = elim (Bool-cases (leb (len y.0) (len x.0))) [
    | inl le ↦
        (let l : len y.0 ≤ len x.0 = ground arith in
          rw le ((l, weaken_bound (len y.0) (len x.0) ys l b), (b, d)))
    | inr n ↦
        (let l : len x.0 ≤ len y.0 = ground arith in
          rw n (insert-All (λ z. len z.0 ≤ len y.0) x ys l b, insert-Descending x ys d))
  ]

  by_length-Descending : (xs : List (String × A)) → Descending (by_length xs)
  unfolding by_length
  by_length-Descending [] = tt
  by_length-Descending (x ∷ xs) = insert-Descending x (by_length xs) (by_length-Descending xs)

  All-by_length :
      (P : String × A → Type 0) (xs : List (String × A)) → All P (by_length xs) → All P xs
  unfolding by_length
  All-by_length P [] h = tt
  All-by_length P (x ∷ xs) h =
      let (p, k) = All-insert P x (by_length xs) h in (p, All-by_length P xs k)

  Has-insert :
      (z x : String × A) (ys : List (String × A)) → Has z (insert x ys) → (z ≡ x) ⊎ Has z ys
  unfolding insert
  Has-insert z x [] h = h
  Has-insert z x (y ∷ ys) h = elim (Bool-cases (leb (len y.0) (len x.0))) [
    | inl le ↦ rw le at h
    | inr n ↦
        (let k : (z ≡ y) ⊎ Has z (insert x ys) = rw n at h in
          elim k [
            | inl e ↦ inr (inl e)
            | inr k ↦ elim (Has-insert z x ys k) [ inl e ↦ inl e | inr r ↦ inr (inr r) ]
          ])
  ]

  Has-by_length : (z : String × A) (xs : List (String × A)) → Has z (by_length xs) → Has z xs
  unfolding by_length
  Has-by_length z [] h = h
  Has-by_length z (x ∷ xs) h = elim (Has-insert z x (by_length xs) h) [
    | inl e ↦ inl e
    | inr k ↦ inr (Has-by_length z xs k)
  ]

  -- The entry that matches and of which no matching key is longer
  abbrev pub IsLongest : String → String × A → List (String × A) → Type 0
  IsLongest name x xs =
      Has x xs
      × (starts_with name x.0 ≡ true)
      × All (λ y. starts_with name y.0 ≡ true → len y.0 ≤ len x.0) xs

  forget :
      (name : String) (n : ℕ) (ys : List (String × A))
      → All (λ y. len y.0 ≤ n) ys
      → All (λ y. starts_with name y.0 ≡ true → len y.0 ≤ n) ys
  forget name n [] h = tt
  forget name n (y ∷ ys) (l, h) = (λ _. l, forget name n ys h)

  first_match-IsLongest :
      (name : String) (xs : List (String × A)) (x : String × A)
      → Descending xs
      → first_match name xs ≡ some x
      → IsLongest name x xs
  unfolding first_match
  first_match-IsLongest name [] x d h = absurd (cc)
  first_match-IsLongest name (y ∷ ys) x (b, d) h = elim (Bool-cases (starts_with name y.0)) [
    | inl m ↦
        (let e : y ≡ x = some-injective y x (rw m at h) in
          subst (λ z. IsLongest name z (y ∷ ys)) e
            (inl refl, m, (λ _. omega arith, forget name (len y.0) ys b)))
    | inr n ↦
        (let (has, m, k) = first_match-IsLongest name ys x d (rw n at h) in
          (inr has, m, (λ s. absurd (cc), k)))
  ]

  first_match-none :
      (name : String) (xs : List (String × A))
      → first_match name xs ≡ none
      → All (λ y. starts_with name y.0 ≡ false) xs
  unfolding first_match
  first_match-none name [] h = tt
  first_match-none name (y ∷ ys) h = elim (Bool-cases (starts_with name y.0)) [
    | inl m ↦ absurd (cc (rw m at h))
    | inr n ↦ (n, first_match-none name ys (rw n at h))
  ]

-- A probe has the severity of the longest key of the table that its name in lower case begins with,
-- wherever that key stands, and is a warning where there is none.
pub severity-IsLongest :
    (lower : String → String) (name : String)
    → ((x : String × Severity) × IsLongest (lower name) x severity_table
        × (severity lower name ≡ x.1))
      ⊎ (All (λ y. starts_with (lower name) y.0 ≡ false) severity_table
          × (severity lower name ≡ warning))
unfolding severity
severity-IsLongest lower name =
    elim (Option-cases (first_match (lower name) (by_length severity_table))) [
      | inl z ↦ inr (
        All-by_length (λ y. starts_with (lower name) y.0 ≡ false) severity_table
            (first_match-none (lower name) (by_length severity_table) z),
        ap (value_or warning) z,
      )
      | inr (x, z) ↦
          (let (has, m, longest) =
              first_match-IsLongest (lower name) (by_length severity_table) x
                (by_length-Descending severity_table) z in
            inl (
              x,
              (
                Has-by_length x severity_table has,
                m,
                All-by_length (λ y. starts_with (lower name) y.0 ≡ true → len y.0 ≤ len x.0)
                    severity_table longest,
              ),
              ap (value_or warning) z,
            ))
    ]
