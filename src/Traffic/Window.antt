-- ===== src/Traffic/Window.antt =====
-- tuntop/monitor/traffic.py: which samples the window holds.
use mathlib.Core.List.{append-nil, append_assoc}
use tun_top.Prelude.{
  ℕ, ◌-◌, ◌≤◌, ◌≡◌, refl, sym, ◌∙◌, ap, true, false, List, [], ◌∷◌, ◌++◌, ltb, leb, if◌then◌else◌,
  arith, Bool-cases, inl, inr, subst,
}
use tun_top.Traffic.{Sample, TrafficStats, new_stats, trim, record_sample}

-- The samples that are at most `window` older than `ts`
unfoldable pub within : ℕ → ℕ → List Sample → List Sample
within ts window [] = []
within ts window (s ∷ ss) =
    let rest = within ts window ss in if leb (ts - s.ts) window then s ∷ rest else rest

-- The times do not decrease, from `t` on.
abbrev pub Ascending : ℕ → List Sample → Type 0
Ascending t [] = Unit
Ascending t (s ∷ ss) = (t ≤ s.ts) × Ascending s.ts ss

-- No later sample is older than one that is young enough.
within-all :
    (ts window t : ℕ) (ss : List Sample)
    → Ascending t ss
    → ts - t ≤ window
    → within ts window ss ≡ ss
unfolding within
within-all ts window t [] a h = refl
within-all ts window t (s ∷ ss) (le, a) h =
    let k : leb (ts - s.ts) window ≡ true = ground arith in
    rw (k, within-all ts window s.ts ss a (omega arith))

trim-within :
    (ts window t : ℕ) (ss : List Sample) → Ascending t ss → trim ts window ss ≡ within ts window ss
unfolding trim within
trim-within ts window t [] a = refl
trim-within ts window t (s ∷ ss) (le, a) = elim (Bool-cases (ltb window (ts - s.ts))) [
  | inl y ↦
      (let k : leb (ts - s.ts) window ≡ false = ground arith in
        rw (y, k) (trim-within ts window s.ts ss a))
  | inr n ↦
      (let k : leb (ts - s.ts) window ≡ true = ground arith in
        rw (n, k, within-all ts window s.ts ss a (ground arith)))
]

-- Dropping what is too old early makes no difference later.
within-within :
    (early late window : ℕ) (ss rest : List Sample)
    → early ≤ late
    → within late window (within early window ss ++ rest) ≡ within late window (ss ++ rest)
unfolding within
within-within early late window [] rest h = refl
within-within early late window (s ∷ ss) rest h =
    ground (arith, within-within early late window ss rest h)

weaken : (t u : ℕ) (ss : List Sample) → t ≤ u → Ascending u ss → Ascending t ss
weaken t u [] h a = tt
weaken t u (s ∷ ss) h (le, a) = (omega arith, a)

Ascending-within :
    (ts window u : ℕ) (ss rest : List Sample)
    → Ascending u (ss ++ rest)
    → Ascending u (within ts window ss ++ rest)
unfolding within
Ascending-within ts window u [] rest a = a
Ascending-within ts window u (s ∷ ss) rest (le, a) =
    let later = Ascending-within ts window s.ts ss rest a in
    elim (Bool-cases (leb (ts - s.ts) window)) [
      | inl y ↦ rw y (le, later)
      | inr n ↦ rw n (weaken u s.ts (within ts window ss ++ rest) le later)
    ]

Ascending-prefix : (u : ℕ) (ss rest : List Sample) → Ascending u (ss ++ rest) → Ascending u ss
Ascending-prefix u [] rest a = tt
Ascending-prefix u (s ∷ ss) rest (le, a) = (le, Ascending-prefix s.ts ss rest a)

record_sample-within :
    (t u : ℕ) (all : List Sample) (s : Sample) (stats : TrafficStats)
    → Ascending u (all ++ s ∷ [])
    → t ≤ s.ts
    → stats.samples ≡ within t stats.window all
    → (record_sample s stats).samples ≡ within s.ts stats.window (all ++ s ∷ [])
unfolding record_sample
record_sample-within t u all s stats a le h =
    ap (λ ss. trim s.ts stats.window (ss ++ s ∷ [])) h
    ∙ trim-within s.ts stats.window u (within t stats.window all ++ s ∷ [])
        (Ascending-within t stats.window u all (s ∷ []) a)
    ∙ within-within t s.ts stats.window all (s ∷ []) le

-- The samples recorded one after the other, and the time of the last one
unfoldable pub record_all : List Sample → TrafficStats → TrafficStats
record_all [] stats = stats
record_all (s ∷ ss) stats = record_all ss (record_sample s stats)

abbrev pub last_ts : ℕ → List Sample → ℕ
last_ts t [] = t
last_ts t (s ∷ ss) = last_ts s.ts ss

record_all-from :
    (t u : ℕ) (all ss : List Sample) (stats : TrafficStats)
    → Ascending u (all ++ ss)
    → Ascending t ss
    → stats.samples ≡ within t stats.window all
    → (record_all ss stats).samples ≡ within (last_ts t ss) stats.window (all ++ ss)
unfolding record_all record_sample
record_all-from t u all [] stats a b h = h ∙ ap (within t stats.window) (sym (append-nil all))
record_all-from t u all (s ∷ ss) stats a (le, b) h =
    let split = append_assoc all (s ∷ []) ss in
    let a' = subst (Ascending u) (sym split) a in
    record_all-from s.ts u (all ++ s ∷ []) ss (record_sample s stats) a' b
      (record_sample-within t u all s stats (Ascending-prefix u (all ++ s ∷ []) ss a') le h)
    ∙ ap (within (last_ts s.ts ss) stats.window) split

-- If the times of the samples do not decrease, the window holds at any moment exactly the recorded
-- samples that are at most `window` older than the newest one, in their order.
pub record_all-within :
    (window : ℕ) (ss : List Sample)
    → Ascending 0 ss
    → (record_all ss (new_stats window)).samples ≡ within (last_ts 0 ss) window ss
unfolding new_stats within
record_all-within window ss a = record_all-from 0 0 [] ss (new_stats window) a a refl
