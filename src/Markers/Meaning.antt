-- ===== src/Markers/Meaning.antt =====
-- tuntop/core/markers.py: what the rules can ask for, and the gate.
use mathlib.Core.Option.{some-injective}
use tun_top.Prelude.{
  ℕ, zero, suc, ◌≡◌, refl, subst, String, true, false, not, ◌&&◌, ◌⊎◌, inl, inr, Option, none, some,
  List, [], ◌∷◌, is_empty, strip, or_text, partition_tail, starts_with, if◌then◌else◌, get_elem?,
  Bool-cases, Option-cases, All, arith, ◌↔◌,
}
use tun_top.State.{TunnelState, degraded, failed, same}
use tun_top.Recovery.{FailureKind}
use tun_top.Markers.{gated, first_rule, classify, known_marker, detail_for, applies_in}
use tun_top.Markers.Rules.{Verdict, Rule, rules, leak_ok, v_leak_ok}
use tun_top.Markers.Matching.{classify-at, classify_iff}

-- A verdict that reports a failure asks for a state that is not healthy, and names a cause.
abbrev pub IsBadNews : Verdict → Type 0
IsBadNews v = ((v.target ≡ some degraded) ⊎ (v.target ≡ some failed)) × (is_empty v.detail ≡ false)

abbrev IsSound : Rule → Type 0
IsSound (p, v) = elim v.kind [ none ↦ Unit | some k ↦ IsBadNews v ]

rules-IsSound : All IsSound rules
unfolding rules
rules-IsSound = (
  deg,
  (deg, (tt, (tt, (tt, (tt, (fail, (deg, (deg, (tt, (deg, (tt, (tt, (tt, (fail, tt)))))))))))))),
)
  where
    deg : ((some degraded ≡ some degraded) ⊎ (some degraded ≡ some failed)) × (false ≡ false)
    deg = (inl refl, refl)

    fail : ((some failed ≡ some degraded) ⊎ (some failed ≡ some failed)) × (false ≡ false)
    fail = (inr refl, refl)

All-at :
    {A : Type 0} (P : A → Type 0) (xs : List A) (i : ℕ) (x : A)
    → All P xs
    → get_elem? xs i ≡ some x
    → P x
All-at P [] i x a h = absurd (cc)
All-at P (y ∷ xs) zero x a h = subst P (some-injective y x h) a.0
All-at P (y ∷ xs) (suc i) x a h = All-at P xs i x a.1 h

sound :
    (p : String) (v : Verdict) (k : FailureKind) → IsSound (p, v) → v.kind ≡ some k → IsBadNews v
sound p v k s h = subst (λ o. elim o [ none ↦ Unit | some k ↦ IsBadNews v ]) h s

or_filled : (a b : String) → is_empty b ≡ false → is_empty (or_text a b) ≡ false
or_filled String.[] b h = h
or_filled (String.◌∷◌ c a) b h = refl

detail_filled :
    (v : Verdict) (line : String) → is_empty v.detail ≡ false → is_empty (detail_for v line) ≡ false
unfolding detail_for
detail_filled v line h = elim (Bool-cases (is_empty v.detail_after)) [
  | inl y ↦ rw y h
  | inr n ↦ rw n (elim (Option-cases (partition_tail v.detail_after line)) [
    | inl z ↦ rw z h
    | inr (tail, z) ↦ rw z (or_filled (strip tail) v.detail h)
  ])
]

-- Whatever the line and the state: a verdict that reports a failure to the recovery engine asks for
-- the state degraded or failed, never for running, and the detail that is reported is never empty.
pub failure_is_bad_news :
    (line : String) (current : Option TunnelState) (v : Verdict) (k : FailureKind)
    → classify line current ≡ some v
    → v.kind ≡ some k
    → ((v.target ≡ some degraded) ⊎ (v.target ≡ some failed))
      × (is_empty (detail_for v line) ≡ false)
failure_is_bad_news line current v k h e =
    let (i, p, at, s, a) = (classify_iff line current v).0 h in
    let (t, d) = sound p v k (All-at IsSound rules i (p, v) rules-IsSound at) e in
    (t, detail_filled v line d)

-- A rule without a gate, or the rule of the passing leak check
abbrev IsOpen : Rule → Type 0
IsOpen (p, v) = (v.only_from ≡ []) ⊎ (p ≡ leak_ok)

rules-IsOpen : All IsOpen rules
unfolding rules
rules-IsOpen = (
  inl refl,
  (
    inl refl,
    (
      inl refl,
      (
        inl refl,
        (
          inl refl,
          (
            inl refl,
            (
              inl refl,
              (
                inl refl,
                (
                  inl refl,
                  (inl refl, (inl refl, (inl refl, (inl refl, (inr refl, (inl refl, tt)))))),
                ),
              ),
            ),
          ),
        ),
      ),
    ),
  ),
)

gated_open : (v : Verdict) (s : TunnelState) → v.only_from ≡ [] → gated v (some s) ≡ gated v none
unfolding gated applies_in
gated_open v s h = rw h

first_rule-open :
    (rs : List Rule) (line : String) (s : TunnelState)
    → All IsOpen rs
    → starts_with line leak_ok ≡ false
    → first_rule rs line (some s) ≡ first_rule rs line none
unfolding first_rule
first_rule-open [] line s a n = refl
first_rule-open ((p, v) ∷ rest) line s (inl h, a) n =
    rw (gated_open v s h, first_rule-open rest line s a n)
first_rule-open ((p, v) ∷ rest) line s (inr h, a) n = rw (h, n, first_rule-open rest line s a n)

leak_gate :
    (s : TunnelState)
    → gated v_leak_ok (some s) ≡ (if not (same s degraded) then none else gated v_leak_ok none)
unfolding gated applies_in
leak_gate s = ground arith

gated-none : (v : Verdict) → gated v none ≡ some v
unfolding gated applies_in
gated-none v = ground arith

classify-leak :
    (line : String) (current : Option TunnelState)
    → starts_with line leak_ok ≡ true
    → classify line current ≡ gated v_leak_ok current
unfolding rules
classify-leak line current y = classify-at 13 leak_ok v_leak_ok line current refl y

-- Knowing the state matters for one line only: the passing leak check means nothing unless the
-- tunnel is degraded. Every other line means the same in every state.
pub classify_gate :
    (line : String) (s : TunnelState)
    → classify line (some s)
      ≡ (if starts_with line leak_ok && not (same s degraded) then none else classify line none)
classify_gate line s = elim (Bool-cases (starts_with line leak_ok)) [
  | inl y ↦ rw (y, classify-leak line (some s) y, classify-leak line none y) (leak_gate s)
  | inr n ↦ unfold classify in rw (n, first_rule-open rules line s rules-IsOpen n)
]

-- A line is a known marker exactly if it begins with the prefix of some rule.
pub known_marker_iff :
    (line : String)
    → (known_marker line ≡ true) ↔ (
        (i : ℕ) × (p : String) × (v : Verdict) × (get_elem? rules i ≡ some (p, v))
        × (starts_with line p ≡ true))
unfolding known_marker
known_marker_iff line = (
  λ h. elim (Option-cases (classify line none)) [
    | inl z ↦ absurd (cc (rw z at h))
    | inr (v, z) ↦ let (i, p, at, s, a) = (classify_iff line none v).0 z in (i, p, v, at, s)
  ],
  λ (i, p, v, at, s). rw (known_marker, classify-at i p v line none at s, gated-none v),
)
