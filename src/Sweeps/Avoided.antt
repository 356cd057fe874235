-- ===== src/Sweeps/Avoided.antt =====
-- The geo sweep of tuntop/network/routeops/sweeps.py leaves the LAN bypass alone.
use mathlib.Core.Option
use tun_top.Prelude.{
  ◌≡◌, ◌≢◌, refl, sym, ◌∙◌, ap, subst, inl, inr, Bool, true, false, some, List, [], ◌∷◌,
  if◌then◌else◌, All, String, strip, arith,
}
use tun_top.Geo.Ranges.{Network, mask_bytes}
use tun_top.Sweeps.{Row, Victim, geo_victims}
use tun_top.Sweeps.Special.{
  NetLib, v4, special_v4, same_bytes, subnet_of, in_table, table_of, special_network,
}
use tun_top.Sweeps.Chosen.{In, IsCanonical, geo_victims_iff}

-- The ranges that `LAN_BYPASS_PREFIXES` in tuntop/config/defaults.py spells.
abbrev pub lan_networks : List Network
lan_networks =
    v4 10 0 0 0 8
    ∷ v4 172 16 0 0 12
    ∷ v4 192 168 0 0 16
    ∷ v4 169 254 0 0 16
    ∷ v4 100 64 0 0 10
    ∷ v4 224 0 0 0 4
    ∷ v4 255 255 255 255 32
    ∷ []

in_all : {A : Type 0} (P : A → Type 0) (a : A) (xs : List A) → All P xs → In a xs → P a
in_all P a [] h i = absurd i
in_all P a (x ∷ xs) h (inl e) = subst P e h.0
in_all P a (x ∷ xs) h (inr i) = in_all P a xs h.1 i

lan_in_table : (n : Network) → In n lan_networks → in_table n (table_of n) ≡ true
unfolding in_table special_v4 subnet_of same_bytes mask_bytes
lan_in_table n i =
    in_all (λ m. in_table m (table_of m) ≡ true) n lan_networks
      (refl, (refl, (refl, (refl, (refl, (refl, (refl, tt))))))) i

module _ (lib : NetLib) where
  special_of_table : (b c : Bool) → c ≡ true → (if b then true else c) ≡ true
  special_of_table true c e = refl
  special_of_table false c e = e

  lan_is_special : (n : Network) → In n lan_networks → special_network lib n ≡ true
  unfolding special_network
  lan_is_special n i = special_of_table _ (in_table n (table_of n)) (lan_in_table n i)

  -- Whatever a country's list names, a geo sweep never deletes the route of a LAN bypass prefix:
  -- the table refuses all seven of them, also on an interpreter whose attributes would not.
  pub geo_victims-AvoidsLan :
      IsCanonical lib
      → (rows : List Row) (cidrs : List String) (v : Victim) → In v (geo_victims lib rows cidrs)
      → (n : Network) → In n lan_networks
      → lib.parse (strip (lib.show n)) ≡ some n
      → v.0 ≢ lib.show n
  geo_victims-AvoidsLan law rows cidrs v h n i reads = λ same.
      let (r, there, (m, p, named, listed, public, narrow)) =
        (geo_victims_iff lib law rows cidrs v).0 h in
      let text : lib.show m ≡ lib.show n = sym (ap (λ w. w.0) named) ∙ same in
      let read : some m ≡ some n =
        sym (law r.destination m p) ∙ (ap (λ t. lib.parse (strip t)) text ∙ reads) in
      let special : special_network lib m ≡ true =
        subst (λ k. special_network lib k ≡ true) (sym (Option.some-injective m n read))
          (lan_is_special n i) in
      ground (arith, public, special)
