-- ===== src/Ledger/Queries.antt =====
-- tuntop/network/routeops/ledger.py: what `index`, `in` and `metric_of` answer.
use mathlib.Core.Option.{some-injective}
use tun_top.Prelude.{
  ℕ, zero, suc, ◌<◌, ◌≡◌, ◌≢◌, ◌↔◌, refl, sym, ◌∙◌, subst, String, true, false, none, some, List,
  [], ◌∷◌, ◌++◌, map, arith, ◌==◌, if◌then◌else◌, get_elem?, Option-cases, Bool-cases, inl, inr,
}
use tun_top.Prelude.Results.{ok}
use tun_top.Ledger.{
  RouteKey, RouteReceipt, RouteLedger, Item, unpack4, unpack_exact, same_key, append, find_index,
  index, contains, keys, find_metric, metric_of, receipt,
}
use tun_top.Ledger.Updates.{same_key_iff, count}

head_index :
    (k : RouteKey) (r : RouteReceipt) (rs : List RouteReceipt) (i : ℕ)
    → same_key r.key k ≡ true
    → find_index k (r ∷ rs) ≡ some i
    → 0 ≡ i
unfolding find_index
head_index k r rs i e h = cc (rw e at h)

tail_index :
    (k : RouteKey) (r : RouteReceipt) (rs : List RouteReceipt) (i : ℕ)
    → same_key r.key k ≡ false
    → find_index k (r ∷ rs) ≡ some i
    → (m : ℕ) × (find_index k rs ≡ some m) × (i ≡ suc m)
unfolding find_index
tail_index k r rs i n h = elim (Option-cases (find_index k rs)) [
  | inl z ↦ absurd (cc (rw (n, z) at h))
  | inr (m, z) ↦ (m, z, cc (rw (n, z) at h))
]

-- The key stands at the place `i`, and at no earlier one.
abbrev pub Earliest : RouteKey → List RouteKey → ℕ → Type 0
Earliest k ks i = (get_elem? ks i ≡ some k) × ((j : ℕ) → j < i → get_elem? ks j ≢ some k)

Earliest-head : (k : RouteKey) (ks : List RouteKey) → Earliest k (k ∷ ks) 0
Earliest-head k ks = (refl, λ j lt. absurd (omega arith))

Earliest-tail :
    (k x : RouteKey) (ks : List RouteKey) (i : ℕ)
    → x ≢ k
    → Earliest k ks i
    → Earliest k (x ∷ ks) (suc i)
Earliest-tail k x ks i n (h, first) = (h, earlier)
  where
    earlier : (j : ℕ) → j < suc i → get_elem? (x ∷ ks) j ≢ some k
    earlier zero lt e = n (some-injective x k e)
    earlier (suc j) lt e = first j (omega arith) e

find_index-Earliest :
    (k : RouteKey) (rs : List RouteReceipt) (i : ℕ)
    → find_index k rs ≡ some i
    → Earliest k (map (λ r. r.key) rs) i
find_index-Earliest k [] i h = unfold find_index in absurd (cc)
find_index-Earliest k (r ∷ rs) i h = elim (Bool-cases (same_key r.key k)) [
  | inl e ↦ subst (Earliest k (map (λ r. r.key) (r ∷ rs))) (head_index k r rs i e h) (
      subst (λ x. Earliest k (x ∷ map (λ r. r.key) rs) 0) (sym ((same_key_iff r.key k).0 e))
        (Earliest-head k (map (λ r. r.key) rs)))
  | inr n ↦
      let (m, z, q) = tail_index k r rs i n h in
      rw q (
        Earliest-tail k r.key (map (λ r. r.key) rs) m (λ e. cc ((same_key_iff r.key k).1 e))
          (find_index-Earliest k rs m z))
]

-- For an item of at least four fields: where `index` returns a place, it is the first place of the
-- key in the iteration order.
pub index-Earliest :
    (item : Item) (key : RouteKey) (l : RouteLedger) (i : ℕ)
    → unpack4 item ≡ ok key
    → index item l ≡ ok i
    → Earliest key (keys l) i
unfolding index
index-Earliest item key l i e h = elim (Option-cases (find_index key l.entries)) [
  | inl z ↦ absurd (cc (rw (e, z) at h))
  | inr (m, z) ↦ find_index-Earliest key l.entries i (z ∙ cc (rw (e, z) at h))
]

find_index-none :
    (k : RouteKey) (rs : List RouteReceipt) → (find_index k rs ≡ none) ↔ (count k rs ≡ 0)
unfolding find_index count
find_index-none k [] = (λ _. refl, λ _. refl)
find_index-none k (r ∷ rs) = ground (arith, find_index-none k rs)

find_metric-append :
    (k : RouteKey) (d : ℕ) (rs : List RouteReceipt) (r : RouteReceipt)
    → r.key ≡ k
    → find_metric k d (rs ++ r ∷ []) ≡ (if count k rs == 0 then r.metric else find_metric k d rs)
unfolding find_metric count
find_metric-append k d [] r e = rw ((same_key_iff r.key k).1 e)
find_metric-append k d (x ∷ rs) r e = ground (arith, find_metric-append k d rs r)

-- For an item of four fields: after it was appended, a route that was not tracked answers with the
-- metric that it was appended with, 1 in place of 0, and a route that was tracked already answers
-- as before, with the metric of its oldest receipt.
pub metric_of-append :
    (item : Item) (metric default : ℕ) (store : String) (l : RouteLedger) (key : RouteKey)
    → unpack_exact item ≡ ok key
    → unpack4 item ≡ ok key
    → metric_of item default (append item metric store l).1 ≡ (
        if count key l.entries == 0
        then ok (if metric == 0 then 1 else metric)
        else metric_of item default l)
unfolding metric_of append
metric_of-append item metric default store l key e f =
    rw
      (
        e,
        append,
        f,
        metric_of,
        find_metric-append key default l.entries (receipt key metric store l) refl,
      )
      (elim (Bool-cases (count key l.entries == 0)) [ inl y ↦ rw y | inr n ↦ rw n ])

-- An item of at least four fields is in the ledger exactly if its key is registered at least once.
pub contains_iff :
    (item : Item) (l : RouteLedger) (key : RouteKey)
    → unpack4 item ≡ ok key
    → (contains item l ≡ true) ↔ (count key l.entries ≢ 0)
unfolding contains
contains_iff item l key e =
    rw (e, contains)
      (elim (Option-cases (find_index key l.entries)) [
        | inl z ↦ rw z (λ h. cc, λ n. absurd (n ((find_index-none key l.entries).0 z)))
        | inr (i, z) ↦ rw z (λ _ n. cc ((find_index-none key l.entries).1 n), λ _. refl)
      ])
