-- ===== src/Updates/Order.antt =====
-- The order of versions in tuntop/config/updates.py.
use Prim.Native.Char.{code}
use Prim.Native.String.append
use tun_top.Prelude.{
  ◌↔◌, ◌<◌, ◌≡◌, refl, ◌∙◌, ap, ◌⊎◌, ℕ, true, false, some, [], ◌∷◌, ◌==◌, String, ◌<>◌, arith,
}
use tun_top.Prelude.Text.{digits_value}
use tun_top.Updates.{key_gt, version_key, version_gt, split_on, all_digits, numbers_of, number_of}

-- A text of digits and its number.
abbrev pub IsNumeral : String → ℕ → Type 0
IsNumeral text n = (all_digits text ≡ true) × (digits_value false 0 text ≡ some n)

abbrev pub version_text : String → String → String → String
version_text a b c = a <> "." <> b <> "." <> c

split_on_digits : (a : String) → all_digits a ≡ true → split_on b'.' a ≡ a ∷ []
unfolding split_on all_digits
split_on_digits String.[] h = refl
split_on_digits (String.◌∷◌ c s) h =
    let other : (code c == b'.') ≡ false = ground (arith, h) in
    let digits : all_digits s ≡ true = ground (arith, h) in rw (other, split_on_digits s digits)

behind_nothing : (rest : String) → "" <> ("." <> rest) ≡ String.◌∷◌ "." rest
behind_nothing rest =
    append.nil ("." <> rest)
    ∙ append.cons "." "" rest
    ∙ ap (λ t. String.◌∷◌ "." t) (append.nil rest)

split_on_dot :
    (a rest : String)
    → all_digits a ≡ true
    → split_on b'.' (a <> ("." <> rest)) ≡ a ∷ split_on b'.' rest
unfolding split_on all_digits
split_on_dot String.[] rest h = ap (split_on b'.') (behind_nothing rest)
split_on_dot (String.◌∷◌ c s) rest h =
    let other : (code c == b'.') ≡ false = ground (arith, h) in
    let digits : all_digits s ≡ true = ground (arith, h) in
    ap (split_on b'.') (append.cons c s ("." <> rest)) ∙ rw (other, split_on_dot s rest digits)

split_on-version_text :
    (a b c : String)
    → all_digits a ≡ true
    → all_digits b ≡ true
    → all_digits c ≡ true
    → split_on b'.' (version_text a b c) ≡ a ∷ b ∷ c ∷ []
split_on-version_text a b c ha hb hc =
    rw (split_on_dot a (b <> ("." <> c)) ha, split_on_dot b c hb, split_on_digits c hc)

version_key-version_text :
    (a b c : String) (x y z : ℕ)
    → IsNumeral a x
    → IsNumeral b y
    → IsNumeral c z
    → version_key (version_text a b c) ≡ x ∷ y ∷ z ∷ []
unfolding version_key
version_key-version_text a b c x y z (da, va) (db, vb) (dc, vc) =
    rw (split_on-version_text a b c da db dc, numbers_of, number_of, va, vb, vc)

-- Of two versions written as three numbers with dots between them, the first is newer exactly if
-- its first number is larger, or that is the same and its second number is larger, or both are the
-- same and its third number is larger. The parts are compared as numbers and not as texts.
pub version_gt_iff :
    (a b c d e f : String) (x y z u v w : ℕ)
    → IsNumeral a x
    → IsNumeral b y
    → IsNumeral c z
    → IsNumeral d u
    → IsNumeral e v
    → IsNumeral f w
    → (version_gt (version_text a b c) (version_text d e f) ≡ true)
      ↔ ((u < x) ⊎ ((x ≡ u) × ((v < y) ⊎ ((y ≡ v) × (w < z)))))
unfolding version_gt key_gt
version_gt_iff a b c d e f x y z u v w na nb nc nd ne nf =
    rw
      (version_key-version_text a b c x y z na nb nc, version_key-version_text d e f u v w nd ne nf)
      ((λ h. ground (arith, h)), (λ h. ground (arith, h)))
