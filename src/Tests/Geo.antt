-- ===== src/Tests/Geo.antt =====
-- tuntop/geo/geoip.py at concrete inputs.
use mathlib.Core.Option
use tun_top.Prelude.{
  All, ◌≡◌, ◌⊎◌, refl, ℕ, true, false, Option, none, some, List, [], ◌∷◌, ◌==◌, if◌then◌else◌,
  String, ◌↔◌,
}
use tun_top.Prelude.Results.{ok, Gives}
use tun_top.Prelude.Text.{lstrip, rstrip, is_space, strip}
use tun_top.Geo.{
  geoip_parse_cidr, cidr_turn, scan, read_bytes, read_varint, varint_from, geoip_skip,
  geoip_parse_entry,
}
use tun_top.Geo.Encode.{Field, bytes_field, varint_field, fixed32_field, encode_fields}
use tun_top.Geo.Fields.{geoip_parse_entry-encode_fields}
use tun_top.Geo.Ranges.{
  Network, mask_bytes, max_prefixlen, ip_network, range_of, geoip_cidr_to_str, above_floor,
}
use tun_top.Geo.Gate.{IsRange, geoip_cidr_to_str_iff, range_of-above_floor}
use tun_top.Geo.Whole.{Country, file_fields}
use tun_top.Geo.Load.{GeoFile, no_library, parse_geoip}
use tun_top.Geo.Narrow.{IsNarrow}
use tun_top.Geo.Served.{IsNarrowMemory, parse_geoip-IsNarrow}
use tun_top.Geo.Download.{
  assert_allowed_geo_url, is_in, read_chunks, verify, reference_digest, first_word, is_hex_of,
  Response, Calls, Disk, fetch_geoip, download_geoip,
}

country_name : List ℕ → String
country_name [] = ""
country_name (b ∷ bs) = if b == b'c' then "cn" else "ir"

same_text : String → String
same_text s = s

abbrev slash_20 : Network
slash_20 = record { address = 10 ∷ 1 ∷ 240 ∷ 0 ∷ []; prefixlen = 20 }

abbrev two : List Country
two =
    (b'c' ∷ b'n' ∷ [], (10 ∷ 1 ∷ 255 ∷ 9 ∷ [], 20) ∷ (0 ∷ 0 ∷ 0 ∷ 0 ∷ [], 1) ∷ [])
    ∷ (b'i' ∷ b'r' ∷ [], [])
    ∷ []

abbrev cn_fields : List Field
cn_fields =
    fixed32_field 3 (1 ∷ 2 ∷ 3 ∷ 4 ∷ [])
    ∷ bytes_field 2 (10 ∷ 4 ∷ 10 ∷ 1 ∷ 255 ∷ 9 ∷ 16 ∷ 20 ∷ [])
    ∷ bytes_field 1 (b'c' ∷ b'n' ∷ [])
    ∷ bytes_field 2 (16 ∷ 8 ∷ [])
    ∷ varint_field 200 300
    ∷ []

geoip_parse_entry-encode_fields_example :
    geoip_parse_entry country_name (encode_fields cn_fields)
    ≡ ok (some "cn", (10 ∷ 1 ∷ 255 ∷ 9 ∷ [], some 20) ∷ [])
unfolding geoip_parse_cidr cidr_turn scan read_bytes read_varint varint_from geoip_skip country_name
geoip_parse_entry-encode_fields_example =
    geoip_parse_entry-encode_fields country_name cn_fields (refl, (tt, (tt, (tt, (tt, tt)))))

geoip_cidr_to_str_iff_example :
    (geoip_cidr_to_str (some (10 ∷ 1 ∷ 255 ∷ 9 ∷ [])) (some 20) ≡ some slash_20)
    ↔ (IsRange (10 ∷ 1 ∷ 255 ∷ 9 ∷ []) 20 × (slash_20 ≡ slash_20))
unfolding mask_bytes
geoip_cidr_to_str_iff_example = geoip_cidr_to_str_iff (10 ∷ 1 ∷ 255 ∷ 9 ∷ []) 20 slash_20

abbrev one_host : Network
one_host = record { address = 10 ∷ 1 ∷ 255 ∷ 9 ∷ []; prefixlen = 32 }

range_of-above_floor_example :
    (range_of (10 ∷ 1 ∷ 255 ∷ 9 ∷ []) 32 ≡ above_floor (ip_network (10 ∷ 1 ∷ 255 ∷ 9 ∷ []) 32))
    ⊎ ((max_prefixlen (10 ∷ 1 ∷ 255 ∷ 9 ∷ []) ≡ some 32)
        × (range_of (10 ∷ 1 ∷ 255 ∷ 9 ∷ []) 32 ≡ none)
        × (above_floor (ip_network (10 ∷ 1 ∷ 255 ∷ 9 ∷ []) 32) ≡ some one_host))
unfolding mask_bytes
range_of-above_floor_example = range_of-above_floor (10 ∷ 1 ∷ 255 ∷ 9 ∷ []) 32

abbrev cn_file : GeoFile
cn_file = record {
  raw = encode_fields (file_fields two);
  named_json = false;
  disk = none;
  doc = none;
  message = no_library;
}

no_network_text : String → Option Network
no_network_text s = none

parse_geoip-IsNarrow_example :
    Gives
      (All IsNarrow)
      (parse_geoip country_name same_text no_network_text true [] "geoip.dat" "cn" cn_file).0
    × IsNarrowMemory
        (parse_geoip country_name same_text no_network_text true [] "geoip.dat" "cn" cn_file).1
parse_geoip-IsNarrow_example =
    parse_geoip-IsNarrow country_name same_text no_network_text true [] "geoip.dat" "cn" cn_file tt

github : String → Option String
github url = some "github.com"

sixty_four : List ℕ → String
sixty_four body = "0123456789abcdef0123456789abcdef0123456789abcdef0123456789abcdef"

abbrev old_disk : Disk
old_disk = record { dest = some (7 ∷ []); part = none }

abbrev replacing : Calls
replacing = record { replaces = true; left = none }

abbrev answered : Response
answered = record { url = none; total = 3; chunks = (1 ∷ 2 ∷ []) ∷ (3 ∷ []) ∷ []; broken = false }

download_test :
    download_geoip github same_text sixty_four true replacing "dat" "sums"
      (some answered)
      (some "0123456789abcdef0123456789abcdef0123456789abcdef0123456789abcdef  geoip.dat")
      old_disk
    ≡ (ok 3, record { dest = some (1 ∷ 2 ∷ 3 ∷ []); part = none })
unfolding download_geoip fetch_geoip assert_allowed_geo_url is_in read_chunks verify
    reference_digest first_word is_hex_of github same_text sixty_four lstrip strip rstrip is_space
download_test = refl
