-- ===== src/Leak.antt =====
-- tuntop/network/leak_probe.py and tuntop/monitor/leak.py: what two probes say of a leak.
pub mod Verdict
use tun_top.Prelude.{
  ◌≡◌, refl, ℕ, Bool, true, false, not, ◌&&◌, ◌||◌, Option, none, some, List, [], ◌∷◌, ◌==◌,
  if◌then◌else◌, String, is_empty, str_eq,
}

pub data Status : Type 0 where
  passed : Status
  leak : Status
  same_exit : Status
  v6_side : Status
  inconclusive : Status
  no_proxy : Status
  no_network : Status

-- What one leg of the probe answered: its address, and all the addresses it saw.
pub record Leg : Type 0 where
  pub ip : Option String
  pub ips : List String

-- What `ipaddress` says of a text: the text of its network of 32 bits, and its version.
pub record Addresses : Type 0 where
  pub network : String → Option String
  pub version : String → Option ℕ

-- `as_check_result`, without its message.
unfoldable pub as_check_result : Status → Bool
as_check_result passed = true
as_check_result leak = false
as_check_result same_exit = true
as_check_result v6_side = true
as_check_result inconclusive = true
as_check_result no_proxy = false
as_check_result no_network = false

-- `[i for i in ips if i and i != dip]`
unfoldable pub other_answers : String → List String → List String
other_answers dip [] = []
other_answers dip (i ∷ is) =
    let rest = other_answers dip is in
    if not (is_empty i) && not (str_eq i dip) then i ∷ rest else rest

abbrev pub is_some_list : List String → Bool
is_some_list [] = false
is_some_list (i ∷ is) = true

abbrev pub same_text : Option String → Option String → Bool
same_text none b = false
same_text (some a) none = false
same_text (some a) (some b) = str_eq a b

abbrev pub other_version : Option ℕ → Option ℕ → Bool
other_version none b = false
other_version (some a) none = false
other_version (some a) (some b) = not (a == b)

module _ (lib : Addresses) where
  unfoldable pub same_network : String → String → Bool
  same_network a b = same_text (lib.network a) (lib.network b)

  -- `i == tip or _same_network(i, tip)`
  abbrev pub rides : String → String → Bool
  rides tip i = str_eq i tip || same_network i tip

  unfoldable pub any_rides : String → List String → Bool
  any_rides tip [] = false
  any_rides tip (i ∷ is) = rides tip i || any_rides tip is

  -- The answer of the probe that is forced to IPv4.
  abbrev pub reprobed : String → Option String → Status
  reprobed tip none = inconclusive
  reprobed tip (some v4) =
      if not (is_empty v4) then if rides tip v4 then v6_side else leak else inconclusive

  -- `_verdict` once both legs have an address.
  abbrev pub compared : String → String → List String → Option String → Status
  compared dip tip ips v4 =
      if str_eq dip tip
      then passed
      else if same_network dip tip
      then same_exit
      else if is_some_list (other_answers dip ips) && any_rides tip (dip ∷ other_answers dip ips)
      then same_exit
      else if other_version (lib.version dip) (lib.version tip)
      then reprobed tip v4
      else leak

  abbrev verdict_of : Option String → Option String → List String → Option String → Status
  verdict_of none none ips v4 = no_network
  verdict_of none (some tip) ips v4 = inconclusive
  verdict_of (some dip) none ips v4 = no_proxy
  verdict_of (some dip) (some tip) ips v4 = compared dip tip ips v4

  -- `v4` is what the forced probe would answer, if it is made.
  unfoldable pub verdict : Leg → Leg → Option String → Status
  verdict direct tunnel v4 = verdict_of direct.ip tunnel.ip direct.ips v4
