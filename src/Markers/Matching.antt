-- ===== src/Markers/Matching.antt =====
-- tuntop/core/markers.py: the order of the rules does not matter.
use Prim.Native.Char.{code}
use mathlib.Core.Option.{some-injective}
use tun_top.Prelude.{
  ℕ, zero, suc, ◌≡◌, refl, String, Bool, true, false, not, ◌&&◌, Option, some, List, [], ◌∷◌,
  is_empty, starts_with, get_elem?, ◌==◌, ◌↔◌, inl, inr, Bool-cases, arith, ap, ◌∙◌, subst,
}
use tun_top.Prelude.Text.{strip_prefix}
use tun_top.State.{TunnelState}
use tun_top.Markers.{gated, first_rule, classify, applies_in}
use tun_top.Markers.Rules.{Verdict, Rule, rules}

-- One of two texts begins with the other.
unfoldable pub overlap : String → String → Bool
overlap String.[] q = true
overlap (String.◌∷◌ c p) String.[] = true
overlap (String.◌∷◌ c p) (String.◌∷◌ d q) = let rest = overlap p q in code c == code d && rest

prefixes-overlap :
    (line p q : String) → starts_with line p ≡ true → starts_with line q ≡ true → overlap p q ≡ true
unfolding overlap starts_with strip_prefix
prefixes-overlap line String.[] q h k = refl
prefixes-overlap line (String.◌∷◌ c p) String.[] h k = refl
prefixes-overlap String.[] (String.◌∷◌ c p) (String.◌∷◌ d q) h k = ground arith
prefixes-overlap (String.◌∷◌ x line) (String.◌∷◌ c p) (String.◌∷◌ d q) h k =
    ground (arith, prefixes-overlap line p q)

abbrev apart_from : String → List Rule → Bool
unfolding overlap
apart_from p [] = true
apart_from p ((q, v) ∷ rest) = let later = apart_from p rest in not (overlap p q) && later

abbrev apart : List Rule → Bool
apart [] = true
apart ((p, v) ∷ rest) = let later = apart rest in apart_from p rest && later

abbrev filled : List Rule → Bool
filled [] = true
filled ((p, v) ∷ rest) = let later = filled rest in not (is_empty p) && later

-- No rule shadows another.
rules-apart : apart rules ≡ true
unfolding rules overlap
rules-apart = refl

rules-filled : filled rules ≡ true
unfolding rules
rules-filled = refl

-- The rule at a place
abbrev IsAt : List Rule → ℕ → String → Verdict → Type 0
IsAt rs i p v = get_elem? rs i ≡ some (p, v)

and_left : (b c : Bool) → (b && c) ≡ true → b ≡ true
and_left b c h = ground arith

and_right : (b c : Bool) → (b && c) ≡ true → c ≡ true
and_right b c h = ground arith

same_rule :
    {x p : String} {w v : Verdict}
    → Path (Option Rule) (some (x, w)) (some (p, v))
    → (x ≡ p) × (w ≡ v)
same_rule {x} {p} {w} {v} h =
    let q = some-injective {A = Rule} (x, w) (p, v) h in
    (ap {A = Rule} (λ r. r.0) q, ap {A = Rule} (λ r. r.1) q)

not-true : (b : Bool) → not b ≡ true → b ≡ false
not-true b h = ground arith

gated-some :
    (w v : Verdict) (current : Option TunnelState)
    → gated w current ≡ some v
    → (w ≡ v) × (applies_in v current ≡ true)
unfolding gated
gated-some w v current h = elim (Bool-cases (applies_in w current)) [
  | inl y ↦
      (let q : w ≡ v = some-injective w v (cc (rw y at h)) in
        (q, subst (λ u. applies_in u current ≡ true) q y))
  | inr n ↦ absurd (cc (rw n at h))
]

apart_at :
    (q : String) (rs : List Rule) (i : ℕ) (p : String) (v : Verdict)
    → apart_from q rs ≡ true
    → IsAt rs i p v
    → overlap q p ≡ false
unfolding apart_from
apart_at q [] i p v a h = absurd (cc)
apart_at q ((x, w) ∷ rest) zero p v a h =
    subst (λ r. overlap q r ≡ false) (same_rule h).0
      (not-true (overlap q x) (and_left (not (overlap q x)) (apart_from q rest) a))
apart_at q ((x, w) ∷ rest) (suc i) p v a h =
    apart_at q rest i p v (and_right (not (overlap q x)) (apart_from q rest) a) h

-- Among rules that are apart, one that matches decides.
first_rule-at :
    (rs : List Rule) (i : ℕ) (p : String) (v : Verdict) (line : String)
    (current : Option TunnelState)
    → apart rs ≡ true
    → IsAt rs i p v
    → starts_with line p ≡ true
    → first_rule rs line current ≡ gated v current
unfolding first_rule
first_rule-at [] i p v line current a h s = absurd (cc)
first_rule-at ((q, w) ∷ rest) zero p v line current a h s = let (e, f) = same_rule h in rw (e, s, f)
first_rule-at ((q, w) ∷ rest) (suc i) p v line current a h s =
    elim (Bool-cases (starts_with line q)) [
      | inl y ↦ absurd (
          cc (
            prefixes-overlap line q p y s,
            apart_at q rest i p v (and_left (apart_from q rest) (apart rest) a) h,
          ))
      | inr n ↦
          rw n (
            first_rule-at rest i p v line current (and_right (apart_from q rest) (apart rest) a) h
              s)
    ]

first_rule-some :
    (rs : List Rule) (line : String) (current : Option TunnelState) (v : Verdict)
    → first_rule rs line current ≡ some v
    → (i : ℕ) × (p : String) × IsAt rs i p v
      × (starts_with line p ≡ true)
      × (applies_in v current ≡ true)
unfolding first_rule
first_rule-some [] line current v h = absurd (cc)
first_rule-some ((q, w) ∷ rest) line current v h = elim (Bool-cases (starts_with line q)) [
  | inl y ↦
      let g : gated w current ≡ some v = cc (rw y at h) in
      let (e, a) = gated-some w v current g in
      (0, q, ap {A = Verdict} {B = Option Rule} (λ u. some (q, u)) e, y, a)
  | inr n ↦
      let (i, p, at, s, a) = first_rule-some rest line current v (cc (rw n at h)) in
      (suc i, p, at, s, a)
]

filled_at :
    (rs : List Rule) (i : ℕ) (p : String) (v : Verdict)
    → filled rs ≡ true
    → IsAt rs i p v
    → is_empty p ≡ false
filled_at [] i p v a h = absurd (cc)
filled_at ((x, w) ∷ rest) zero p v a h =
    subst (λ r. is_empty r ≡ false) (same_rule h).0
      (not-true (is_empty x) (and_left (not (is_empty x)) (filled rest) a))
filled_at ((x, w) ∷ rest) (suc i) p v a h =
    filled_at rest i p v (and_right (not (is_empty x)) (filled rest) a) h

line_filled :
    (line p : String) → is_empty p ≡ false → starts_with line p ≡ true → is_empty line ≡ false
unfolding starts_with strip_prefix
line_filled String.[] String.[] h s = absurd (cc)
line_filled String.[] (String.◌∷◌ c p) h s = absurd (cc)
line_filled (String.◌∷◌ c line) p h s = refl

-- Whatever line begins with the prefix of a rule is judged by that rule, wherever it stands in the
-- table and whatever rules stand before it.
pub classify-at :
    (i : ℕ) (p : String) (v : Verdict) (line : String) (current : Option TunnelState)
    → get_elem? rules i ≡ some (p, v)
    → starts_with line p ≡ true
    → classify line current ≡ gated v current
unfolding classify
classify-at i p v line current h s =
    rw (line_filled line p (filled_at rules i p v rules-filled h) s)
      (first_rule-at rules i p v line current rules-apart h s)

-- A line means something exactly if it begins with the prefix of a rule of which the gate is open in the
-- current state, and then it means what that rule says: the order of the rules does not matter.
pub classify_iff :
    (line : String) (current : Option TunnelState) (v : Verdict)
    → (classify line current ≡ some v) ↔ (
        (i : ℕ) × (p : String) × (get_elem? rules i ≡ some (p, v))
        × (starts_with line p ≡ true)
        × (applies_in v current ≡ true))
unfolding gated
classify_iff line current v = (
  λ h.
      unfold classify in
      elim (Bool-cases (is_empty line)) [
        | inl y ↦ absurd (cc (rw y at h))
        | inr n ↦ first_rule-some rules line current v (cc (rw n at h))
      ],
  λ (i, p, at, s, a). classify-at i p v line current at s ∙ rw a,
)
