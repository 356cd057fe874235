-- ===== src/Prelude/Results.antt =====
-- A Python call that returns or raises: its value, or the exception.
use mathlib.Core.Path.{◌≡◌, refl, ap, sym, ◌∙◌}
use mathlib.Core.Logic.{◌⊎◌, inl, inr}
use mathlib.Core.Bool.{Bool, true, false}
use native.Mathlib.Omega.{arith}

pub data Result {ℓ} (E A : Type ℓ) : Type ℓ where
  ok : A → Result E A
  err : E → Result E A

infixl 5 ◌>>=◌
abbrev pub ◌>>=◌ {ℓ} : {E A B : Type ℓ} → Result E A → (A → Result E B) → Result E B
ok a >>= f = f a
err e >>= f = err e

abbrev pub is_ok {ℓ} : {E A : Type ℓ} → Result E A → Bool
is_ok (ok a) = true
is_ok (err e) = false

pub Result-cases {ℓ} :
    {E A : Type ℓ} (x : Result E A) → ((a : A) × (x ≡ ok a)) ⊎ ((e : E) × (x ≡ err e))
Result-cases (ok a) = inl (a, refl)
Result-cases (err e) = inr (e, refl)

-- A value and an exception are told apart.
pub ok_or_err {ℓ} : {E A : Type ℓ} (x : Result E A) (a : A) (e : E) → x ≡ ok a → x ≡ err e → ⊥
ok_or_err x a e p q =
    let here : is_ok x ≡ true = ap is_ok p in
    let there : is_ok x ≡ false = ap is_ok q in ground (arith, here, there)

abbrev value_or {ℓ} : {E A : Type ℓ} → A → Result E A → A
value_or d (ok a) = a
value_or d (err e) = d

pub ok-injective {ℓ} : {E A : Type ℓ} (x : Result E A) (a b : A) → x ≡ ok a → x ≡ ok b → a ≡ b
ok-injective x a b p q = sym (ap (value_or a) p) ∙ ap (value_or a) q

-- A predicate of what a call returns.
abbrev pub Gives {ℓ κ} : {E A : Type ℓ} → (A → Type κ) → Result E A → Type κ
Gives P (ok a) = P a
Gives P (err e) = Unit

pub bind-Gives {ℓ κ} :
    {E A B : Type ℓ} (P : B → Type κ) (x : Result E A) (f : A → Result E B)
    → ((a : A) → x ≡ ok a → Gives P (f a))
    → Gives P (x >>= f)
bind-Gives P (ok a) f h = h a refl
bind-Gives P (err e) f h = tt
