-- ===== src/Geo/Whole.antt =====
-- A whole geoip.dat of tuntop/geo/geoip.py, written from its entries and read by both decoders.
use tun_top.Prelude.{◌≢◌, ℕ, ◌%◌, ◌^◌, ◌<◌, Option, some, List, [], ◌∷◌, String}
use tun_top.Geo.Encode.{Field, varint_field, bytes_field, encode_fields}
use tun_top.Geo.Ranges.{max_prefixlen}

-- A country's bytes, and its ranges: the address and the prefix of each.
abbrev pub Country : Type 0
Country = List ℕ × List (List ℕ × ℕ)

abbrev pub cidr_fields : List ℕ × ℕ → List Field
cidr_fields cidr = bytes_field 1 cidr.0 ∷ varint_field 2 cidr.1 ∷ []

unfoldable pub range_fields : List (List ℕ × ℕ) → List Field
range_fields [] = []
range_fields (cidr ∷ cidrs) = bytes_field 2 (encode_fields (cidr_fields cidr)) ∷ range_fields cidrs

unfoldable pub country_fields : Country → List Field
country_fields e = bytes_field 1 e.0 ∷ range_fields e.1

unfoldable pub file_fields : List Country → List Field
file_fields [] = []
file_fields (e ∷ es) = bytes_field 1 (encode_fields (country_fields e)) ∷ file_fields es

with_prefix : List (List ℕ × ℕ) → List (List ℕ × Option ℕ)
with_prefix [] = []
with_prefix (cidr ∷ cidrs) = (cidr.0, some cidr.1) ∷ with_prefix cidrs

-- A range of a whole network rather than of a single host, whose prefix fits into 32 bits.
abbrev pub IsWide : List ℕ × ℕ → Type 0
IsWide cidr = (max_prefixlen cidr.0 ≢ some cidr.1) × (cidr.1 < 2 ^ 32)

-- `_field(m_cidr, "prefix", 2, TYPE_UINT32)`: the library keeps the low 32 bits.
unfoldable pub uint32_ranges : List (List ℕ × ℕ) → List (List ℕ × ℕ)
uint32_ranges [] = []
uint32_ranges (cidr ∷ cidrs) = (cidr.0, cidr.1 % 2 ^ 32) ∷ uint32_ranges cidrs

-- The protobuf library's reading of a country.
abbrev pub proto_of : (List ℕ → String) → Country → String × List (List ℕ × ℕ)
proto_of decode e = (decode e.0, uint32_ranges e.1)
