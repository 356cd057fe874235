-- ===== src/Ledger/Updates.antt =====
-- tuntop/network/routeops/ledger.py: what `append`, `remove` and slice assignment leave.
use mathlib.Core.List.{append-nil, append_assoc, map-append}
use tun_top.Prelude.{
  ℕ, suc, ◌≡◌, ◌≢◌, ◌↔◌, ◌⊎◌, refl, sym, ◌∙◌, ap, String, Option, Bool, true, false, ◌&&◌, none,
  some, List, [], ◌∷◌, ◌++◌, arith, if◌then◌else◌, eq_iff, Option-cases, Bool-cases, inl, inr,
}
use tun_top.Prelude.Int.{ℤ, pos, negsuc}
use tun_top.Prelude.Results.{ok, err}
use tun_top.Ledger.{
  RouteKey, RouteReceipt, RouteLedger, receipt, key_of, cleared, none_or, Subscript, value_error,
  Item, unpack4, unpack_exact, same_key, append, remove, remove_first, extend, set_item, at_index,
  slice, keys,
}

pub same_key_iff : (a b : RouteKey) → (same_key a b ≡ true) ↔ (a ≡ b)
unfolding same_key
same_key_iff a b =
    ground
      (arith, eq_iff a.fam b.fam, eq_iff a.dest b.dest, eq_iff a.iface b.iface, eq_iff a.gw b.gw)

-- How often a key is registered
unfoldable pub count : RouteKey → List RouteReceipt → ℕ
count k [] = 0
count k (r ∷ rs) = let rest = count k rs in if same_key r.key k then suc rest else rest

-- The rest of a list whose head has another key
skipped :
    (k : RouteKey) (r : RouteReceipt) (rs rest : List RouteReceipt)
    → same_key r.key k ≡ false
    → remove_first k (r ∷ rs) ≡ some rest
    → (l : List RouteReceipt) × (remove_first k rs ≡ some l) × (rest ≡ r ∷ l)
unfolding remove_first
skipped k r rs rest n h = elim (Option-cases (remove_first k rs)) [
  | inl z ↦ absurd (cc (rw (n, z) at h))
  | inr (l, z) ↦ (l, z, cc (rw (n, z) at h))
]

removed_head :
    (k : RouteKey) (r : RouteReceipt) (rs rest : List RouteReceipt)
    → same_key r.key k ≡ true
    → remove_first k (r ∷ rs) ≡ some rest
    → rest ≡ rs
unfolding remove_first
removed_head k r rs rest e h = cc (rw e at h)

remove_first-count :
    (k j : RouteKey) (rs rest : List RouteReceipt)
    → remove_first k rs ≡ some rest
    → count j rs ≡ (if same_key k j then suc (count j rest) else count j rest)
unfolding count
remove_first-count k j [] rest h = unfold remove_first in absurd (cc)
remove_first-count k j (r ∷ rs) rest h = elim (Bool-cases (same_key r.key k)) [
  | inl e ↦ rw (removed_head k r rs rest e h, (same_key_iff r.key k).0 e)
  | inr n ↦
      let (l, z, q) = skipped k r rs rest n h in
      rw q (ground (arith, remove_first-count k j rs l z))
]

-- A key is absent exactly if no entry is found.
remove_first-none :
    (k : RouteKey) (rs : List RouteReceipt) → (remove_first k rs ≡ none) ↔ (count k rs ≡ 0)
unfolding remove_first count
remove_first-none k [] = (λ _. refl, λ _. refl)
remove_first-none k (r ∷ rs) = ground (arith, remove_first-none k rs)

-- For an item of at least four fields: with its key registered, `remove` returns and takes one
-- receipt of the key away and none of any other key; with its key absent it raises ValueError, and
-- the ledger is as it was.
pub remove_lem :
    (item : Item) (l : RouteLedger) (key : RouteKey)
    → unpack4 item ≡ ok key
    → (count key l.entries ≡ 0 → remove item l ≡ (err value_error, l))
      × (count key l.entries ≢ 0
          → ((remove item l).0 ≡ ok tt)
            × ((remove item l).1.ledger_tag ≡ l.ledger_tag)
            × ((j : RouteKey)
                → count j l.entries ≡ (
                    if same_key key j
                    then suc (count j (remove item l).1.entries)
                    else count j (remove item l).1.entries)))
unfolding remove
remove_lem item l key e =
    rw (e, remove)
      (elim (Option-cases (remove_first key l.entries)) [
        | inl z ↦ rw z (λ _. refl, λ n. absurd (n ((remove_first-none key l.entries).0 z)))
        | inr (rest, z) ↦ rw z (
          λ n. absurd (cc ((remove_first-none key l.entries).1 n)),
          λ _. (refl, refl, λ j. remove_first-count key j l.entries rest z),
        )
      ])

remove_first-append :
    (k : RouteKey) (rs : List RouteReceipt) (r : RouteReceipt)
    → count k rs ≡ 0
    → r.key ≡ k
    → remove_first k (rs ++ r ∷ []) ≡ some rs
unfolding remove_first count
remove_first-append k [] r n e = rw ((same_key_iff r.key k).1 e)
remove_first-append k (x ∷ rs) r n e = ground (arith, remove_first-append k rs r)

-- For an item of four fields of which the key is not registered: tracking it and then untracking
-- it returns, and restores the ledger that there was before.
pub remove-append :
    (item : Item) (metric : ℕ) (store : String) (l : RouteLedger) (key : RouteKey)
    → unpack_exact item ≡ ok key
    → unpack4 item ≡ ok key
    → count key l.entries ≡ 0
    → remove item (append item metric store l).1 ≡ (ok tt, l)
unfolding append remove
remove-append item metric store l key e f n =
    rw (e, append, f, remove, remove_first-append key l.entries (receipt key metric store l) n refl)

-- The keys of well-formed items
abbrev pub keys_of : List Item → List RouteKey
keys_of [] = []
keys_of ((fam ∷ dest ∷ iface ∷ gw ∷ []) ∷ items) = key_of fam dest iface gw ∷ keys_of items
keys_of (item ∷ items) = keys_of items

keys-extend :
    (items : List Item) (metric : ℕ) (store : String) (l : RouteLedger)
    → (extend items metric store l).0 ≡ ok tt
    → keys (extend items metric store l).1 ≡ keys l ++ keys_of items
unfolding extend append
keys-extend [] metric store l h = sym (append-nil (keys l))
keys-extend ((fam ∷ dest ∷ iface ∷ gw ∷ []) ∷ items) metric store l h =
    let l' : RouteLedger = record l {
      entries = l.entries ++ receipt (key_of fam dest iface gw) metric store l ∷ [];
    } in
    keys-extend items metric store l' h ∙ rw (map-append, append_assoc)
keys-extend (item ∷ items) metric store l h = absurd (cc)

-- A slice that the assignment is to accept: it starts at 0, stops at -1 or nowhere and has the step
-- 1, each of them left out or given.
abbrev pub IsWhole : Subscript → Type 0
IsWhole (at_index i) = ⊥
IsWhole (slice start stop step) =
    ((start ≡ none) ⊎ (start ≡ some (pos 0)))
    × ((stop ≡ none) ⊎ (stop ≡ some (negsuc 0)))
    × ((step ≡ none) ⊎ (step ≡ some (pos 1)))

none_or-IsGiven : (n : ℤ) (o : Option ℤ) → none_or n o ≡ true → (o ≡ none) ⊎ (o ≡ some n)
none_or-IsGiven n none h = inl refl
none_or-IsGiven (pos m) (some (pos k)) h =
    let e : k ≡ m = ground (arith, h) in inr (ap (λ i. some (pos i)) e)
none_or-IsGiven (pos m) (some (negsuc k)) h = absurd (ground (arith, h))
none_or-IsGiven (negsuc m) (some (pos k)) h = absurd (ground (arith, h))
none_or-IsGiven (negsuc m) (some (negsuc k)) h =
    let e : k ≡ m = ground (arith, h) in inr (ap (λ i. some (negsuc i)) e)

three_true : (a b c : Bool) → a && b && c ≡ true → (a ≡ true) × (b ≡ true) × (c ≡ true)
three_true true true c h = (refl, refl, h)
three_true true false c h = absurd (ground (arith, h))
three_true false b c h = absurd (ground (arith, h))

-- An assignment to a subscript that does not raise was one to a whole slice, of which `[:-1]` counts
-- as one, and leaves exactly the routes of the items, in their order: nothing that was tracked
-- before survives.
pub keys-set_item :
    (sub : Subscript) (items : List Item) (l : RouteLedger)
    → (set_item sub items l).0 ≡ ok tt
    → IsWhole sub × (keys (set_item sub items l).1 ≡ keys_of items)
unfolding set_item
keys-set_item (at_index i) items l h = absurd (cc)
keys-set_item (slice start stop step) items l h =
    elim (Bool-cases (none_or (pos 0) start && none_or (negsuc 0) stop && none_or (pos 1) step)) [
      | inl y ↦
          let (a, b, c) =
            three_true (none_or (pos 0) start) (none_or (negsuc 0) stop) (none_or (pos 1) step) y in
          (
            (
              none_or-IsGiven (pos 0) start a,
              none_or-IsGiven (negsuc 0) stop b,
              none_or-IsGiven (pos 1) step c,
            ),
            rw y (keys-extend items 1 "active" (cleared l) (rw y at h)),
          )
      | inr n ↦ absurd (cc (rw n at h))
    ]

-- The slice `[:-1]`, which leaves the last entry out, is accepted, and drops that entry as well.
pub slice_to_last :
    (l : RouteLedger)
    → set_item (slice none (some (negsuc 0)) none) [] l ≡ (ok tt, record l { entries = [] })
unfolding set_item extend
slice_to_last l = refl
