-- ===== src/Sweeps/Chosen.antt =====
-- Which rows the sweeps of tuntop/network/routeops/sweeps.py choose.
use mathlib.Core.Option
use tun_top.Prelude.{
  ◌≡◌, ◌↔◌, refl, sym, ◌∙◌, ap, subst, ◌⊎◌, inl, inr, ℕ, ◌≤◌, Bool, true, false, not, ◌&&◌, ◌||◌,
  Option, none, some, List, [], ◌∷◌, leb, if◌then◌else◌, String, is_empty, strip, str_eq, eq_iff,
  arith,
}
use tun_top.Geo.Ranges.{Network, min_prefixlen}
use tun_top.Sweeps.Special.{NetLib, special_network, is_special_purpose}
use tun_top.Sweeps.{
  widened, lan_victim_deletes, Row, Victim, member, is_on_link, victims_of, added, shown,
  canon_cidr, canon_cidrs, prefixes_or, folded, lan_pick, lan_victims, is_sweepable_geo_cidr,
  geo_pick, geo_victims_in, geo_victims,
}

abbrev pub In : {A : Type 0} → A → List A → Type 0
In a [] = ⊥
In a (x ∷ xs) = (x ≡ a) ⊎ In a xs

if_some :
    {A : Type 0} (b : Bool) (v w : A) → (if b then some v else none) ≡ some w → (b ≡ true) × (v ≡ w)
if_some true v w e = (refl, Option.some-injective v w e)
if_some false v w e = absurd (Option.none-ne-some w e)

and_true : (a b : Bool) → a && b ≡ true → (a ≡ true) × (b ≡ true)
and_true true b e = (refl, e)
and_true false b e = absurd (ground (arith, e))

In-added :
    (o : Option Victim) (rest : List Victim) (v : Victim)
    → In v (added o rest)
    → (o ≡ some v) ⊎ In v rest
In-added none rest v h = inr h
In-added (some w) rest v (inl e) = inl (ap some e)
In-added (some w) rest v (inr h) = inr h

added-In :
    (o : Option Victim) (rest : List Victim) (v : Victim)
    → (o ≡ some v) ⊎ In v rest
    → In v (added o rest)
added-In none rest v (inl e) = absurd (Option.none-ne-some v e)
added-In none rest v (inr h) = h
added-In (some w) rest v (inl e) = inl (Option.some-injective w v e)
added-In (some w) rest v (inr h) = inr h

-- A row of the table for which the loop appends this victim.
abbrev pub IsPicked : (Row → Option Victim) → List Row → Victim → Type 0
IsPicked pick rows v = (r : Row) × In r rows × (pick r ≡ some v)

IsPicked-later :
    (pick : Row → Option Victim) (r : Row) (rs : List Row) (v : Victim)
    → IsPicked pick rs v
    → IsPicked pick (r ∷ rs) v
IsPicked-later pick r rs v (q, h, e) = (q, inr h, e)

pub victims_of-IsPicked :
    (pick : Row → Option Victim) (rows : List Row) (v : Victim)
    → In v (victims_of pick rows)
    → IsPicked pick rows v
unfolding victims_of
victims_of-IsPicked pick [] v h = absurd h
victims_of-IsPicked pick (r ∷ rs) v h = elim (In-added (pick r) (victims_of pick rs) v h) [
  | inl e ↦ (r, inl refl, e)
  | inr later ↦ IsPicked-later pick r rs v (victims_of-IsPicked pick rs v later)
]

pub IsPicked-victims_of :
    (pick : Row → Option Victim) (rows : List Row) (v : Victim)
    → IsPicked pick rows v
    → In v (victims_of pick rows)
unfolding victims_of
IsPicked-victims_of pick [] v (q, h, e) = absurd h
IsPicked-victims_of pick (r ∷ rs) v (q, inl same, e) =
    added-In (pick r) (victims_of pick rs) v (inl (ap pick same ∙ e))
IsPicked-victims_of pick (r ∷ rs) v (q, inr h, e) =
    added-In (pick r) (victims_of pick rs) v (inr (IsPicked-victims_of pick rs v (q, h, e)))

-- The tests of `lan_victims` in one.
nested_tests :
    (a b c d : Bool) (x : Option Victim)
    → (if not a then none else if not b then none else if c then x else if d then x else none)
      ≡ (if a && (b && (c || d)) then x else none)
nested_tests false b c d x = refl
nested_tests true false c d x = refl
nested_tests true true true d x = refl
nested_tests true true false true x = refl
nested_tests true true false false x = refl

or_true : (a b c : Bool) → a || (not b && c) ≡ true → (a ≡ true) ⊎ ((b ≡ false) × (c ≡ true))
or_true true b c e = inl refl
or_true false true c e = absurd (ground (arith, e))
or_true false false c e = inr (refl, e)

true_or : (a b c : Bool) → (a ≡ true) ⊎ ((b ≡ false) × (c ≡ true)) → a || (not b && c) ≡ true
true_or true b c h = refl
true_or false b c (inl e) = absurd (ground (arith, e))
true_or false b c (inr (e, f)) = rw e f

module _ (lib : NetLib) where
  -- The text of a network that was read reads as that network again.
  abbrev pub IsCanonical : Type 0
  IsCanonical =
      (text : String) (n : Network)
      → lib.parse text ≡ some n
      → lib.parse (strip (lib.show n)) ≡ some n

  -- A row of a range that is in the country's list, that is public address space and no wider than
  -- the floor allows.
  abbrev pub IsGeoVictim : List String → Row → Victim → Type 0
  IsGeoVictim cidrs r v =
      (n : Network) × (lib.parse r.destination ≡ some n)
      × (v ≡ (lib.show n, r.alias, r.next_hop))
      × (member (lib.show n) (canon_cidrs lib cidrs) ≡ true)
      × (special_network lib n ≡ false)
      × (min_prefixlen n.address ≤ n.prefixlen)

  sweepable_lem :
      (n : Network)
      → lib.parse (strip (lib.show n)) ≡ some n
      → is_sweepable_geo_cidr lib (lib.show n)
        ≡ (if special_network lib n then false else leb (min_prefixlen n.address) n.prefixlen)
  unfolding is_sweepable_geo_cidr is_special_purpose
  sweepable_lem n c = rw c

  public_and_narrow :
      (special : Bool) (a b : ℕ)
      → (if special then false else leb a b) ≡ true
      → (special ≡ false) × (a ≤ b)
  public_and_narrow true a b e = absurd (ground (arith, e))
  public_and_narrow false a b e = (refl, ground (arith, e))

  geo_pick-IsGeoVictim :
      IsCanonical
      → (cidrs : List String) (r : Row) (v : Victim) (o : Option Network)
      → lib.parse r.destination ≡ o
      → geo_pick lib (canon_cidrs lib cidrs) r (shown lib o) ≡ some v
      → IsGeoVictim cidrs r v
  geo_pick-IsGeoVictim law cidrs r v none p e = absurd (Option.none-ne-some v e)
  geo_pick-IsGeoVictim law cidrs r v (some n) p e =
      let (both, same) =
        if_some
          (member (lib.show n) (canon_cidrs lib cidrs) && is_sweepable_geo_cidr lib (lib.show n))
          (lib.show n, r.alias, r.next_hop) v e in
      let (listed, sweepable) =
        and_true (member (lib.show n) (canon_cidrs lib cidrs))
          (is_sweepable_geo_cidr lib (lib.show n)) both in
      let (public, narrow) =
        public_and_narrow (special_network lib n) (min_prefixlen n.address) n.prefixlen
          (sym (sweepable_lem n (law r.destination n p)) ∙ sweepable) in
      (n, p, sym same, listed, public, narrow)

  IsGeoVictim-geo_pick :
      IsCanonical
      → (cidrs : List String) (r : Row) (v : Victim) → IsGeoVictim cidrs r v
      → geo_pick lib (canon_cidrs lib cidrs) r (canon_cidr lib r.destination) ≡ some v
  unfolding canon_cidr
  IsGeoVictim-geo_pick law cidrs r v (n, p, same, listed, public, narrow) =
      let low : leb (min_prefixlen n.address) n.prefixlen ≡ true = ground (arith, narrow) in
      let sweepable : is_sweepable_geo_cidr lib (lib.show n) ≡ true =
        sweepable_lem n (law r.destination n p) ∙ rw public low in
      rw (p, listed, sweepable) (ap some (sym same))

  nothing_wanted : (r : Row) (o : Option String) → geo_pick lib [] r o ≡ none
  unfolding member
  nothing_wanted r none = refl
  nothing_wanted r (some dp) = refl

  geo_victims_lem :
      (rows : List Row) (cidrs ws : List String)
      → canon_cidrs lib cidrs ≡ ws
      → (v : Victim)
      → In v (geo_victims_in lib rows ws)
        ↔ IsPicked
            (λ r. geo_pick lib (canon_cidrs lib cidrs) r (canon_cidr lib r.destination))
            rows
            v
  geo_victims_lem rows cidrs [] e v = (
    λ h. absurd h,
    λ p. absurd (
        Option.none-ne-some v (
          sym (nothing_wanted p.0 (canon_cidr lib p.0.destination))
          ∙ subst (λ l. geo_pick lib l p.0 (canon_cidr lib p.0.destination) ≡ some v) e p.2)),
  )
  geo_victims_lem rows cidrs (w ∷ ws) e v =
      subst
        (λ l.
          In v (victims_of (λ r. geo_pick lib (w ∷ ws) r (canon_cidr lib r.destination)) rows)
          ↔ IsPicked (λ r. geo_pick lib l r (canon_cidr lib r.destination)) rows v)
        (sym e) (victims_of-IsPicked _ rows v, IsPicked-victims_of _ rows v)

  -- A geo sweep deletes a row exactly if its range, read as a network, is one of the country's,
  -- is public address space, and is not wider than the floor of its version; the delete names
  -- that row's adapter and next hop.
  pub geo_victims_iff :
      IsCanonical
      → (rows : List Row) (cidrs : List String) (v : Victim)
      → In v (geo_victims lib rows cidrs) ↔ ((r : Row) × In r rows × IsGeoVictim cidrs r v)
  unfolding geo_victims canon_cidr
  geo_victims_iff law rows cidrs v =
      let lem = geo_victims_lem rows cidrs (canon_cidrs lib cidrs) refl v in
      (
        (λ h.
            let (r, there, e) = lem.0 h in
            (r, there, geo_pick-IsGeoVictim law cidrs r v (lib.parse r.destination) refl e)),
        (λ h. let (r, there, i) = h in lem.1 (r, there, IsGeoVictim-geo_pick law cidrs r v i)),
      )

  module _ (iface gw : String) (prefixes : Option (List String)) where
    -- A row on the current adapter that is on-link or goes to the current gateway.
    abbrev pub IsLanVictim : Row → Victim → Type 0
    IsLanVictim r v =
        (canon_cidr lib r.destination ≡ some v.0)
        × (member v.0 (canon_cidrs lib (prefixes_or lib prefixes)) ≡ true)
        × (folded lib r.alias ≡ folded lib iface)
        × ((is_on_link (folded lib (strip r.next_hop)) ≡ true)
            ⊎ ((is_empty (folded lib gw) ≡ false)
                × (folded lib (strip r.next_hop) ≡ folded lib gw)))
        × (v ≡ (v.0, r.alias, strip r.next_hop))

    lan_pick-IsLanVictim :
        (r : Row) (v : Victim) (o : Option String)
        → canon_cidr lib r.destination ≡ o
        → lan_pick lib
            (canon_cidrs lib (prefixes_or lib prefixes))
            (folded lib iface)
            (folded lib gw)
            r
            o
          ≡ some v
        → IsLanVictim r v
    lan_pick-IsLanVictim r v none p e = absurd (Option.none-ne-some v e)
    lan_pick-IsLanVictim r v (some dp) p e =
        let listed = member dp (canon_cidrs lib (prefixes_or lib prefixes)) in
        let here = str_eq (folded lib r.alias) (folded lib iface) in
        let local = is_on_link (folded lib (strip r.next_hop)) in
        let ours = str_eq (folded lib (strip r.next_hop)) (folded lib gw) in
        let x : Victim = (dp, r.alias, strip r.next_hop) in
        let (tests, same) =
          if_some (listed && (here && (local || (not (is_empty (folded lib gw)) && ours)))) x v (
            sym (nested_tests listed here local (not (is_empty (folded lib gw)) && ours) (some x))
            ∙ e) in
        let (a, later) =
          and_true listed (here && (local || (not (is_empty (folded lib gw)) && ours))) tests in
        let (b, hops) = and_true here (local || (not (is_empty (folded lib gw)) && ours)) later in
        let hop : (local ≡ true)
            ⊎ ((is_empty (folded lib gw) ≡ false)
                × (folded lib (strip r.next_hop) ≡ folded lib gw)) =
          elim (or_true local (is_empty (folded lib gw)) ours hops) [
            | inl l ↦ inl l
            | inr (g, f) ↦ inr (g, (eq_iff (folded lib (strip r.next_hop)) (folded lib gw)).0 f)
          ] in
        subst (λ w. IsLanVictim r w) same
          (p, a, (eq_iff (folded lib r.alias) (folded lib iface)).0 b, hop, refl)

    IsLanVictim-lan_pick :
        (r : Row) (v : Victim)
        → IsLanVictim r v
        → lan_pick lib
            (canon_cidrs lib (prefixes_or lib prefixes))
            (folded lib iface)
            (folded lib gw)
            r
            (canon_cidr lib r.destination)
          ≡ some v
    IsLanVictim-lan_pick r v (p, a, b, hop, same) =
        let local = is_on_link (folded lib (strip r.next_hop)) in
        let ours = str_eq (folded lib (strip r.next_hop)) (folded lib gw) in
        let here = (eq_iff (folded lib r.alias) (folded lib iface)).1 b in
        let hops : local || (not (is_empty (folded lib gw)) && ours) ≡ true =
          true_or local (is_empty (folded lib gw)) ours (elim hop [
            | inl l ↦ inl l
            | inr (g, f) ↦ inr (g, (eq_iff (folded lib (strip r.next_hop)) (folded lib gw)).1 f)
          ]) in
        rw p (
          nested_tests (member v.0 (canon_cidrs lib (prefixes_or lib prefixes)))
            (str_eq (folded lib r.alias) (folded lib iface)) local
            (not (is_empty (folded lib gw)) && ours) (some (v.0, r.alias, strip r.next_hop))
          ∙ rw (a, here, hops) (ap some (sym same)))

    chosen_iff :
        (rows : List Row) (v : Victim)
        → In v (lan_victims lib rows iface gw prefixes) ↔ ((r : Row) × In r rows × IsLanVictim r v)
    unfolding lan_victims
    chosen_iff rows v = (
      (λ h.
          let (r, there, e) = victims_of-IsPicked _ rows v h in
          (r, there, lan_pick-IsLanVictim r v (canon_cidr lib r.destination) refl e)),
      (λ h.
          let (r, there, i) = h in
          IsPicked-victims_of _ rows v (r, there, IsLanVictim-lan_pick r v i)),
    )

    widened-In :
        (w : Victim) (vs : List Victim)
        → In w (widened vs)
        → (v : Victim) × In v vs × (w ≡ (v.0, v.1, ""))
    unfolding widened
    widened-In w [] h = absurd h
    widened-In w (v ∷ vs) (inl e) = (v, inl refl, sym e)
    widened-In w (v ∷ vs) (inr h) = let (u, there, e) = widened-In w vs h in (u, inr there, e)

    In-widened :
        (w : Victim) (vs : List Victim)
        → ((v : Victim) × In v vs × (w ≡ (v.0, v.1, "")))
        → In w (widened vs)
    unfolding widened
    In-widened w [] (v, h, e) = absurd h
    In-widened w (x ∷ vs) (v, inl same, e) =
        inl (subst (λ (u : Victim). ◌≡◌ {A = Victim} (u.0, u.1, "") w) (sym same) (sym e))
    In-widened w (x ∷ vs) (v, inr h, e) = inr (In-widened w vs (v, h, e))

    -- The rows that a LAN sweep chooses are exactly those whose destination is one of the prefixes,
    -- which are on the current adapter, and whose next hop is an on-link spelling or the current
    -- gateway: a row through another gateway, or on another adapter, is not chosen. The deletes
    -- that it emits are exactly the prefix and the adapter of the chosen rows, without a next hop,
    -- so that a delete also names the rows of that prefix on that adapter which were not chosen.
    pub lan_victims_iff :
        (rows : List Row) (v w : Victim)
        → (In v (lan_victims lib rows iface gw prefixes)
            ↔ ((r : Row) × In r rows × IsLanVictim r v))
          × (In w (lan_victim_deletes lib rows iface gw prefixes)
              ↔ ((r : Row) × (u : Victim) × In r rows × IsLanVictim r u × (w ≡ (u.0, u.1, ""))))
    unfolding lan_victim_deletes
    lan_victims_iff rows v w = (
      chosen_iff rows v,
      (
        (λ h.
            let (u, there, e) = widened-In w (lan_victims lib rows iface gw prefixes) h in
            let (r, here, i) = (chosen_iff rows u).0 there in (r, u, here, i, e)),
        (λ h.
            let (r, u, here, i, e) = h in
            In-widened w (lan_victims lib rows iface gw prefixes)
              (u, (chosen_iff rows u).1 (r, here, i), e)),
      ),
    )
