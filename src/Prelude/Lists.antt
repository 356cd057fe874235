-- ===== src/Prelude/Lists.antt =====
-- Lists measured and indexed by native numbers, under the library's names.
use Prim.Native.Nat.{ℕ, zero, suc, ◌+◌, ◌-◌, ◌≤◌}
use mathlib.Core.Path.{◌≡◌, refl, ap}
use mathlib.Core.Option.{Option, none, some}
use mathlib.Core.List.{List, [], ◌∷◌, ◌++◌}
use native.Mathlib.Omega.{arith}
use mathlib.Core.Path.{sym, ◌∙◌}
use mathlib.Core.Logic.{◌⊎◌, inl, inr}
use tun_top.Prelude.Tests.{leb, Bool-cases}

le_or : (a b : ℕ) → (a ≤ b) ⊎ (suc b ≤ a)
le_or a b = elim (Bool-cases (leb a b)) [ inl y ↦ inl (ground arith) | inr n ↦ inr (ground arith) ]

module _ {ℓ} {A : Type ℓ} where
  abbrev pub length : List A → ℕ
  length [] = 0
  length (x ∷ xs) = suc (length xs)

  abbrev pub drop : ℕ → List A → List A
  drop zero xs = xs
  drop (suc n) [] = []
  drop (suc n) (x ∷ xs) = drop n xs

  abbrev pub take : ℕ → List A → List A
  take zero xs = []
  take (suc n) [] = []
  take (suc n) (x ∷ xs) = x ∷ take n xs

  abbrev pub get_elem? : List A → ℕ → Option A
  get_elem? [] i = none
  get_elem? (x ∷ xs) zero = some x
  get_elem? (x ∷ xs) (suc i) = get_elem? xs i

  -- A predicate on every item, by recursion.
  abbrev pub All {κ} : (A → Type κ) → List A → Type κ
  All P [] = Unit
  All P (x ∷ xs) = P x × All P xs

  pub length-append : (xs ys : List A) → length (xs ++ ys) ≡ length xs + length ys
  length-append [] ys = omega arith
  length-append (x ∷ xs) ys = omega (arith, length-append xs ys)

  pub length-drop : (n : ℕ) (xs : List A) → length (drop n xs) ≡ length xs - n
  length-drop zero xs = omega arith
  length-drop (suc n) [] = omega arith
  length-drop (suc n) (x ∷ xs) = omega (arith, length-drop n xs)

module _ {ℓ} {A : Type ℓ} where
  -- `deque(maxlen=n).append(x)`: the oldest items fall out at the left end.
  unfoldable pub push_bounded : ℕ → List A → A → List A
  push_bounded n xs x = drop (length (xs ++ x ∷ []) - n) (xs ++ x ∷ [])

  pub length-push_bounded : (n : ℕ) (xs : List A) (x : A) → length (push_bounded n xs x) ≤ n
  unfolding push_bounded
  length-push_bounded n xs x = omega (arith, length-drop (length (xs ++ x ∷ []) - n) (xs ++ x ∷ []))

  pub push_bounded_room :
      (n : ℕ) (xs : List A) (x : A) → suc (length xs) ≤ n → push_bounded n xs x ≡ xs ++ x ∷ []
  unfolding push_bounded
  push_bounded_room n xs x h =
      let e : length (xs ++ x ∷ []) - n ≡ 0 = omega (arith, length-append {ℓ} xs (x ∷ [])) in rw e

  pub All-append {κ} : (P : A → Type κ) (xs ys : List A) → All P xs → All P ys → All P (xs ++ ys)
  All-append P [] ys hx hy = hy
  All-append P (x ∷ xs) ys hx hy = (hx.0, All-append P xs ys hx.1 hy)

  pub All-drop {κ} : (P : A → Type κ) (n : ℕ) (xs : List A) → All P xs → All P (drop n xs)
  All-drop P zero xs h = h
  All-drop P (suc n) [] h = h
  All-drop P (suc n) (x ∷ xs) h = All-drop P n xs h.1

  pub All-push_bounded {κ} :
      (P : A → Type κ) (n : ℕ) (xs : List A) (x : A) → All P xs → P x → All P (push_bounded n xs x)
  unfolding push_bounded
  All-push_bounded P n xs x h p =
      All-drop P (length (xs ++ x ∷ []) - n) (xs ++ x ∷ []) (All-append P xs (x ∷ []) h (p, tt))

module _ {ℓ} {A : Type ℓ} where
  -- The last `n` items, or all of a shorter list: `xs[-n:]` for a positive `n`
  abbrev pub last_items : ℕ → List A → List A
  last_items n xs = drop (length xs - n) xs

  pub last_items-short : (n : ℕ) (xs : List A) → length xs ≤ n → last_items n xs ≡ xs
  last_items-short n xs h = let e : length xs - n ≡ 0 = omega arith in rw e

  last_items-long :
      (n : ℕ) (x : A) (xs : List A) → n ≤ length xs → last_items n (x ∷ xs) ≡ last_items n xs
  last_items-long n x xs h = let e : suc (length xs) - n ≡ suc (length xs - n) = omega arith in rw e

  drop-nil : (n : ℕ) → ◌≡◌ {A = List A} (drop n []) []
  drop-nil zero = refl
  drop-nil (suc n) = refl

  drop-all : (n : ℕ) (xs : List A) → length xs ≤ n → drop n xs ≡ []
  drop-all n [] h = drop-nil n
  drop-all zero (x ∷ xs) h = absurd (omega arith)
  drop-all (suc n) (x ∷ xs) h = drop-all n xs (omega arith)

  pub last_items-zero : (xs : List A) → last_items 0 xs ≡ []
  last_items-zero xs = drop-all (length xs - 0) xs (omega arith)

  -- Bounding a list before another item comes makes no difference.
  pub push_bounded-last_items :
      (n : ℕ) (xs : List A) (x : A)
      → push_bounded n (last_items n xs) x ≡ last_items n (xs ++ x ∷ [])
  unfolding push_bounded
  push_bounded-last_items n [] x = rw (drop-nil (0 - n))
  push_bounded-last_items n (y ∷ xs) x = elim (le_or n (length xs)) [
    | inl le ↦ rw (last_items-long n y xs le) (
        push_bounded-last_items n xs x
        ∙ sym
            (last_items-long n y (xs ++ x ∷ []) (omega (arith, le, length-append {ℓ} xs (x ∷ [])))))
    | inr lt ↦ rw (last_items-short n (y ∷ xs) lt)
  ]

module _ {ℓ} {A : Type ℓ} where
  pub drop-append : (xs ys : List A) → drop (length xs) (xs ++ ys) ≡ ys
  drop-append [] ys = refl
  drop-append (x ∷ xs) ys = drop-append xs ys

  pub take-append : (xs ys : List A) → take (length xs) (xs ++ ys) ≡ xs
  take-append [] ys = refl
  take-append (x ∷ xs) ys = ap (λ l. x ∷ l) (take-append xs ys)

  pub drop-drop : (m n : ℕ) (xs : List A) → drop (m + n) xs ≡ drop n (drop m xs)
  drop-drop zero n xs = let e : 0 + n ≡ n = omega arith in rw e
  drop-drop (suc m) n [] = drop-nil (suc m + n) ∙ sym (drop-nil n)
  drop-drop (suc m) n (x ∷ xs) =
      let e : suc m + n ≡ suc (m + n) = omega arith in rw e (drop-drop m n xs)

  pub append_assoc : (xs ys zs : List A) → (xs ++ ys) ++ zs ≡ xs ++ (ys ++ zs)
  append_assoc [] ys zs = refl
  append_assoc (x ∷ xs) ys zs = ap (λ l. x ∷ l) (append_assoc xs ys zs)

  pub append-nil : (xs : List A) → xs ++ [] ≡ xs
  append-nil [] = refl
  append-nil (x ∷ xs) = ap (λ l. x ∷ l) (append-nil xs)

  pub drop-step :
      (xs : List A) (n : ℕ) → suc n ≤ length xs → (x : A) × (drop n xs ≡ x ∷ drop (suc n) xs)
  drop-step [] n h = absurd (omega arith)
  drop-step (x ∷ xs) zero h = (x, refl)
  drop-step (x ∷ xs) (suc n) h = drop-step xs n (omega arith)
