-- ===== src/Geo/Ranges.antt =====
-- The gate of tuntop/geo/geoip.py: which ranges become routes, and in which form.
use tun_top.Prelude.{
  ◌≡◌, refl, ℕ, ◌-◌, ◌*◌, ◌/◌, ◌^◌, not, Option, none, some, List, [], ◌∷◌, ltb, leb, ◌==◌,
  if◌then◌else◌, length, String, strip,
}

-- An `ipaddress` network: the bytes of its address, four or sixteen, and its prefix length. The
-- code keeps its `str`, which is one to one with it.
pub record Network : Type 0 where
  pub address : List ℕ
  pub prefixlen : ℕ

-- The address without its host bits.
unfoldable pub mask_bytes : List ℕ → ℕ → List ℕ
mask_bytes [] plen = []
mask_bytes (b ∷ bs) plen =
    let rest = mask_bytes bs (plen - 8) in
    if leb 8 plen then b ∷ rest else (b / 2 ^ (8 - plen) * 2 ^ (8 - plen)) ∷ rest

unfoldable pub max_prefixlen : List ℕ → Option ℕ
max_prefixlen ip = if length ip == 4 then some 32 else if length ip == 16 then some 128 else none

-- `_MIN_PREFIXLEN`, by the version that the address has.
unfoldable pub min_prefixlen : List ℕ → ℕ
min_prefixlen ip = if length ip == 4 then 8 else 16

abbrev pub network_within : List ℕ → ℕ → Option ℕ → Option Network
network_within ip plen none = none
network_within ip plen (some maxlen) =
    if leb plen maxlen
    then some (record { address = mask_bytes ip plen; prefixlen = plen })
    else none

-- `ipaddress.ip_network("%s/%d" % (addr, plen), strict=False)` of an address written from its
-- bytes: `none` where the prefix length is out of range and ValueError is raised.
unfoldable pub ip_network : List ℕ → ℕ → Option Network
ip_network ip plen = network_within ip plen (max_prefixlen ip)

-- The tests of `_geoip_cidr_to_str` on an address and a prefix that are there.
abbrev pub range_within : List ℕ → ℕ → Option ℕ → Option Network
range_within ip plen none = none
range_within ip plen (some maxlen) =
    if not (ltb plen maxlen)
    then none
    else if ltb plen (min_prefixlen ip)
    then none
    else ip_network ip plen

unfoldable pub range_of : List ℕ → ℕ → Option Network
range_of ip plen = range_within ip plen (max_prefixlen ip)

unfoldable pub geoip_cidr_to_str : Option (List ℕ) → Option ℕ → Option Network
geoip_cidr_to_str none prefix = none
geoip_cidr_to_str (some ip) none = none
geoip_cidr_to_str (some ip) (some plen) = range_of ip plen

-- `_normalise_cidr` once the text is a network.
unfoldable pub above_floor : Option Network → Option Network
above_floor none = none
above_floor (some net) = if ltb net.prefixlen (min_prefixlen net.address) then none else some net

-- `parse` is `ipaddress.ip_network(…, strict=False)`, `none` where it raises.
unfoldable pub normalise_cidr : (String → Option Network) → String → Option Network
normalise_cidr parse text = above_floor (parse (strip text))

range_test :
    range_of (10 ∷ 1 ∷ 255 ∷ 9 ∷ []) 20
    ≡ some (record { address = 10 ∷ 1 ∷ 240 ∷ 0 ∷ []; prefixlen = 20 })
unfolding range_of ip_network mask_bytes max_prefixlen min_prefixlen
range_test = refl
