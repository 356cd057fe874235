-- ===== src/Sweeps/Special.antt =====
-- tuntop/network/egress_scripts.py: the address space that no country list may name.
use tun_top.Prelude.{
  ◌≡◌, refl, ℕ, Bool, true, false, not, ◌&&◌, ◌||◌, Option, none, some, List, [], ◌∷◌, leb, ◌==◌,
  if◌then◌else◌, length, String, strip,
}
use tun_top.Geo.Ranges.{Network, mask_bytes}

-- What the code takes from `ipaddress` and from `str`: reading a network's text with host bits
-- allowed, its text, its six attributes, and `casefold`.
pub record NetLib : Type 0 where
  pub parse : String → Option Network
  pub show : Network → String
  pub is_private : Network → Bool
  pub is_loopback : Network → Bool
  pub is_link_local : Network → Bool
  pub is_multicast : Network → Bool
  pub is_reserved : Network → Bool
  pub is_unspecified : Network → Bool
  pub casefold : String → String

abbrev pub v4 : ℕ → ℕ → ℕ → ℕ → ℕ → Network
v4 a b c d plen = record { address = a ∷ b ∷ c ∷ d ∷ []; prefixlen = plen }

abbrev zeros : List ℕ
zeros = 0 ∷ 0 ∷ 0 ∷ 0 ∷ 0 ∷ 0 ∷ 0 ∷ 0 ∷ []

-- An IPv6 network of which the last eight bytes are 0.
abbrev pub v6 : ℕ → ℕ → ℕ → ℕ → ℕ → Network
v6 a b c d plen = record { address = a ∷ b ∷ c ∷ d ∷ 0 ∷ 0 ∷ 0 ∷ 0 ∷ zeros; prefixlen = plen }

unfoldable pub special_v4 : List Network
special_v4 =
    v4 0 0 0 0 8
    ∷ v4 10 0 0 0 8
    ∷ v4 100 64 0 0 10
    ∷ v4 127 0 0 0 8
    ∷ v4 169 254 0 0 16
    ∷ v4 172 16 0 0 12
    ∷ v4 192 0 0 0 24
    ∷ v4 192 0 2 0 24
    ∷ v4 192 88 99 0 24
    ∷ v4 192 168 0 0 16
    ∷ v4 198 18 0 0 15
    ∷ v4 198 51 100 0 24
    ∷ v4 203 0 113 0 24
    ∷ v4 224 0 0 0 4
    ∷ v4 240 0 0 0 4
    ∷ []

abbrev low_bytes : ℕ → ℕ → ℕ → ℕ → ℕ → Network
low_bytes a b c d plen = record {
  address = 0 ∷ 0 ∷ 0 ∷ 0 ∷ 0 ∷ 0 ∷ 0 ∷ 0 ∷ 0 ∷ 0 ∷ a ∷ b ∷ 0 ∷ 0 ∷ c ∷ d ∷ [];
  prefixlen = plen;
}

unfoldable pub special_v6 : List Network
special_v6 =
    low_bytes 0 0 0 0 128
    ∷ low_bytes 0 0 0 1 128
    ∷ low_bytes 255 255 0 0 96
    ∷ v6 0 100 255 155 96
    ∷ v6 1 0 0 0 64
    ∷ v6 32 1 0 0 23
    ∷ v6 32 1 0 16 28
    ∷ v6 252 0 0 0 7
    ∷ v6 254 128 0 0 10
    ∷ v6 255 0 0 0 8
    ∷ []

unfoldable pub same_bytes : List ℕ → List ℕ → Bool
same_bytes [] [] = true
same_bytes [] (y ∷ ys) = false
same_bytes (x ∷ xs) [] = false
same_bytes (x ∷ xs) (y ∷ ys) = x == y && same_bytes xs ys

-- `n.subnet_of(s)` of two networks of one version.
unfoldable pub subnet_of : Network → Network → Bool
subnet_of n s =
    leb s.prefixlen n.prefixlen && same_bytes (mask_bytes n.address s.prefixlen) s.address

unfoldable pub in_table : Network → List Network → Bool
in_table n [] = false
in_table n (s ∷ ss) = subnet_of n s || in_table n ss

abbrev pub table_of : Network → List Network
table_of n = if length n.address == 4 then special_v4 else special_v6

module _ (lib : NetLib) where
  -- `is_special_purpose` of a network.
  unfoldable pub special_network : Network → Bool
  special_network n =
      if lib.is_private n
        || lib.is_loopback n
        || lib.is_link_local n
        || lib.is_multicast n
        || lib.is_reserved n
        || lib.is_unspecified n
      then true
      else in_table n (table_of n)

  abbrev special_read : Option Network → Bool
  special_read none = true
  special_read (some n) = special_network n

  unfoldable pub is_special_purpose : String → Bool
  is_special_purpose cidr = special_read (lib.parse (strip cidr))

  unfoldable pub is_globally_routable : String → Bool
  is_globally_routable cidr = not (is_special_purpose cidr)

-- The documentation range 2001:db8::/32 is in no entry of the table.
documentation_test : in_table (v6 32 1 13 184 32) special_v6 ≡ false
unfolding in_table special_v6 subnet_of same_bytes mask_bytes
documentation_test = refl
