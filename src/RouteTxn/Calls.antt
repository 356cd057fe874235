-- ===== src/RouteTxn/Calls.antt =====
-- Calls that read and change the routing table and may raise. What was changed before a raise
-- stays changed, so the table comes back beside the exception too.
use tun_top.Prelude.{String, ◌<>◌, Bool, true, false, ◌≡◌, ◌∙◌, refl, if◌then◌else◌}
use tun_top.Prelude.Results.{Result, ok, err}

-- An exception: a `TypeError`, or one of another class, with its text.
pub data Failure : Type 0 where
  type_error : String → Failure
  raised : String → String → Failure

-- `f"{type(e).__name__}: {e}"`
abbrev pub failure_text : Failure → String
failure_text (type_error text) = "TypeError: " <> text
failure_text (raised name text) = name <> ": " <> text

abbrev pub Exec : Type 0 → Type 0 → Type 0
Exec T A = T → Result Failure A × T

module _ {T A : Type 0} where
  abbrev pub pure : A → Exec T A
  pure a t = (ok a, t)

  abbrev handle : (Failure → Exec T A) → Result Failure A → Exec T A
  handle h (ok a) t = (ok a, t)
  handle h (err e) t = h e t

  -- `try: m` with the handler `h`
  abbrev pub catch : Exec T A → (Failure → Exec T A) → Exec T A
  catch m h t = let (r, t') = m t in handle h r t'

  -- `except TypeError`: any other exception goes on.
  abbrev pub on_type_error : Exec T A → Failure → Exec T A
  on_type_error m (type_error text) t = m t
  on_type_error m (raised name text) t = (err (raised name text), t)

module _ {T A B : Type 0} where
  abbrev pub continue : (A → Exec T B) → Result Failure A → Exec T B
  continue f (ok a) t = f a t
  continue f (err e) t = (err e, t)

  infixl 5 ◌>>=◌
  abbrev pub ◌>>=◌ : Exec T A → (A → Exec T B) → Exec T B
  ◌>>=◌ m f t = let (r, t') = m t in continue f r t'

-- A call that leaves `q`, a view of the table, as it was, whether it returns or raises
pub record Frames {T A : Type 0} (q : T → Bool) (m : Exec T A) : Type 0 where
  pub at : (t : T) → q (m t).1 ≡ q t

module _ {T A : Type 0} (q : T → Bool) where
  pub Frames-pure : (a : A) → Frames q (pure a)
  Frames-pure a = record { at = λ t. refl }

  pub Frames-if :
      (c : Bool) (m n : Exec T A) → Frames q m → Frames q n → Frames q (if c then m else n)
  Frames-if true m n hm hn = hm
  Frames-if false m n hm hn = hn

  handle-Frames :
      (h : Failure → Exec T A) (r : Result Failure A) (t : T)
      → ((e : Failure) → Frames q (h e))
      → q (handle h r t).1 ≡ q t
  handle-Frames h (ok a) t k = refl
  handle-Frames h (err e) t k = (k e).at t

  pub Frames-catch :
      (m : Exec T A) (h : Failure → Exec T A)
      → Frames q m
      → ((e : Failure) → Frames q (h e))
      → Frames q (catch m h)
  Frames-catch m h hm hh = record { at = λ t. handle-Frames h (m t).0 (m t).1 hh ∙ hm.at t }

  pub Frames-on_type_error :
      (m : Exec T A) → Frames q m → (e : Failure) → Frames q (on_type_error m e)
  Frames-on_type_error m hm (type_error text) = record { at = hm.at }
  Frames-on_type_error m hm (raised name text) = record { at = λ t. refl }

module _ {T A B : Type 0} (q : T → Bool) where
  continue-Frames :
      (f : A → Exec T B) (r : Result Failure A) (t : T)
      → ((a : A) → Frames q (f a))
      → q (continue f r t).1 ≡ q t
  continue-Frames f (ok a) t k = (k a).at t
  continue-Frames f (err e) t k = refl

  pub Frames-bind :
      (m : Exec T A) (f : A → Exec T B)
      → Frames q m
      → ((a : A) → Frames q (f a))
      → Frames q (m >>= f)
  Frames-bind m f hm hf = record { at = λ t. continue-Frames f (m t).0 (m t).1 hf ∙ hm.at t }

module _ {T A B : Type 0} (f : A → B) where
  continue_table : (r : Result Failure A) (t : T) → (continue (λ a. pure (f a)) r t).1 ≡ t
  continue_table (ok a) t = refl
  continue_table (err e) t = refl

  -- A call whose value is only passed on leaves the table that the call leaves.
  pub map_table : (m : Exec T A) (t : T) → ((m >>= λ a. pure (f a)) t).1 ≡ (m t).1
  map_table m t = continue_table (m t).0 (m t).1

module _ {T A : Type 0} where
  handle_table :
      (h : Failure → A) (r : Result Failure A) (t : T) → (handle (λ e. pure (h e)) r t).1 ≡ t
  handle_table h (ok a) t = refl
  handle_table h (err e) t = refl

  pub catch_table :
      (m : Exec T A) (h : Failure → A) (t : T) → (catch m (λ e. pure (h e)) t).1 ≡ (m t).1
  catch_table m h t = handle_table h (m t).0 (m t).1
