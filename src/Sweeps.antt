-- ===== src/Sweeps.antt =====
-- tuntop/network/routeops/sweeps.py: which rows of the route table a leftover sweep deletes.
pub mod Special
pub mod Quote
pub mod Outcome
pub mod Chosen
pub mod Avoided
pub mod Literal
use tun_top.Prelude.{
  ◌≡◌, refl, ℕ, Bool, true, false, not, ◌&&◌, ◌||◌, Option, none, some, List, [], ◌∷◌, leb,
  if◌then◌else◌, String, is_empty, strip, str_eq,
}
use tun_top.Geo.Ranges.{Network, min_prefixlen}
use tun_top.Sweeps.Special.{NetLib, is_special_purpose, special_network}

-- A row of the route table, "" for a key that is missing.
pub record Row : Type 0 where
  pub destination : String
  pub alias : String
  pub next_hop : String

-- The destination, the adapter and the next hop of a row to delete.
abbrev pub Victim : Type 0
Victim = String × String × String

-- `LAN_BYPASS_PREFIXES`
abbrev lan_bypass_prefixes : List String
lan_bypass_prefixes =
    "10.0.0.0/8" ∷ "172.16.0.0/12" ∷ "192.168.0.0/16" ∷ "169.254.0.0/16" ∷ "100.64.0.0/10"
    ∷ "224.0.0.0/4" ∷ "255.255.255.255/32" ∷ []

unfoldable pub member : String → List String → Bool
member s [] = false
member s (t ∷ ts) = str_eq s t || member s ts

-- `in ON_LINK_NH`
abbrev pub is_on_link : String → Bool
is_on_link nh = member nh ("" ∷ "0.0.0.0" ∷ "::" ∷ "on-link" ∷ "0.0.0.0,0.0.0.0" ∷ [])

abbrev added : Option Victim → List Victim → List Victim
added none rest = rest
added (some v) rest = v ∷ rest

-- The loop over the rows, with what is appended for one row.
unfoldable pub victims_of : (Row → Option Victim) → List Row → List Victim
victims_of pick [] = []
victims_of pick (r ∷ rs) = let rest = victims_of pick rs in added (pick r) rest

unfoldable pub widened : List Victim → List Victim
widened [] = []
widened (v ∷ vs) = (v.0, v.1, "") ∷ widened vs

module _ (lib : NetLib) where
  abbrev pub shown : Option Network → Option String
  shown none = none
  shown (some net) = some (lib.show net)

  unfoldable pub canon_cidr : String → Option String
  canon_cidr text = shown (lib.parse text)

  abbrev put : Option String → List String → List String
  put none rest = rest
  put (some s) rest = s ∷ rest

  -- A set in the source: only the test whether a text is in it is used.
  unfoldable pub canon_cidrs : List String → List String
  canon_cidrs [] = []
  canon_cidrs (v ∷ vs) = let rest = canon_cidrs vs in put (canon_cidr v) rest

  abbrev prefixes_or : Option (List String) → List String
  prefixes_or none = lan_bypass_prefixes
  prefixes_or (some ps) = ps

  -- `str(x or "").strip().casefold()`
  abbrev pub folded : String → String
  folded s = lib.casefold (strip s)

  -- What `lan_victims` appends for a row whose destination is this.
  abbrev pub lan_pick : List String → String → String → Row → Option String → Option Victim
  lan_pick prefixes want_iface want_gw r none = none
  lan_pick prefixes want_iface want_gw r (some dp) =
      if not (member dp prefixes)
      then none
      else if not (str_eq (folded r.alias) want_iface)
      then none
      else if is_on_link (folded (strip r.next_hop))
      then some (dp, r.alias, strip r.next_hop)
      else if not (is_empty want_gw) && str_eq (folded (strip r.next_hop)) want_gw
      then some (dp, r.alias, strip r.next_hop)
      else none

  -- A gateway that is None is "".
  unfoldable pub lan_victims : List Row → String → String → Option (List String) → List Victim
  lan_victims rows iface gw prefixes =
      victims_of
        (λ r.
          lan_pick (canon_cidrs (prefixes_or prefixes)) (folded iface) (folded gw) r
            (canon_cidr r.destination))
        rows

  unfoldable pub lan_victim_deletes :
      List Row → String → String → Option (List String) → List Victim
  lan_victim_deletes rows iface gw prefixes = widened (lan_victims rows iface gw prefixes)

  -- `MIN_PREFIXLEN` has the floors of `_MIN_PREFIXLEN` in tuntop/geo/geoip.py.
  abbrev pub wide_enough : Option Network → Bool
  wide_enough none = false
  wide_enough (some net) = leb (min_prefixlen net.address) net.prefixlen

  unfoldable pub is_sweepable_geo_cidr : String → Bool
  is_sweepable_geo_cidr cidr =
      if is_special_purpose lib cidr then false else wide_enough (lib.parse (strip cidr))

  abbrev pub geo_pick : List String → Row → Option String → Option Victim
  geo_pick wanted r none = none
  geo_pick wanted r (some dp) =
      if member dp wanted && is_sweepable_geo_cidr dp then some (dp, r.alias, r.next_hop) else none

  abbrev geo_victims_in : List Row → List String → List Victim
  geo_victims_in rows [] = []
  geo_victims_in rows (w ∷ ws) =
      victims_of (λ r. geo_pick (w ∷ ws) r (canon_cidr r.destination)) rows

  unfoldable pub geo_victims : List Row → List String → List Victim
  geo_victims rows cidrs = geo_victims_in rows (canon_cidrs cidrs)
