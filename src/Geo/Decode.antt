-- ===== src/Geo/Decode.antt =====
-- The decoders of tuntop/geo/geoip.py: the pure reader, the protobuf library's and the JSON one.
use tun_top.Prelude.{
  ℕ, zero, suc, ◌+◌, ◌/◌, ◌%◌, Bool, true, false, not, ◌&&◌, ◌||◌, Option, none, some, List, [],
  ◌∷◌, ◌++◌, leb, ◌==◌, if◌then◌else◌, length, String, is_empty, str_eq,
}
use tun_top.Prelude.Results.{Result, ok, ◌>>=◌}
use tun_top.Geo.{Fault, scan, read_varint, read_bytes, geoip_skip, Entry, geoip_parse_entry}
use tun_top.Geo.Ranges.{Network, ip_network, geoip_cidr_to_str, above_floor, normalise_cidr}

-- `{code: [cidr, ...]}`, in insertion order.
abbrev pub Table : Type 0
Table = List (String × List Network)

-- `out.setdefault(code, [])` and the appends to it.
unfoldable pub add_ranges : Table → String → List Network → Table
add_ranges [] c nets = (c, nets) ∷ []
add_ranges (row ∷ t) c nets =
    let rest = add_ranges t c nets in
    if str_eq row.0 c then (row.0, row.1 ++ nets) ∷ t else row ∷ rest

-- `out[code] = cidrs`
unfoldable pub set_ranges : Table → String → List Network → Table
set_ranges [] c nets = (c, nets) ∷ []
set_ranges (row ∷ t) c nets =
    let rest = set_ranges t c nets in if str_eq row.0 c then (row.0, nets) ∷ t else row ∷ rest

-- `out.get(code)`, with an empty list for a code that is not there.
unfoldable pub ranges_of : Table → String → List Network
ranges_of [] c = []
ranges_of (row ∷ t) c = let rest = ranges_of t c in if str_eq row.0 c then row.1 else rest

abbrev pub append_some : List Network → Option Network → List Network
append_some nets none = nets
append_some nets (some net) = nets ++ net ∷ []

unfoldable pub keep_ranges : List Network → List (List ℕ × Option ℕ) → List Network
keep_ranges nets [] = nets
keep_ranges nets (cidr ∷ cidrs) =
    keep_ranges (append_some nets (geoip_cidr_to_str (some cidr.0) cidr.1)) cidrs

-- The table, the position of the next report, and the reports made.
pub record Scan : Type 0 where
  pub table : Table
  pub next_report : ℕ
  pub reports : List (ℕ × ℕ)

abbrev at_least_one : ℕ → ℕ
at_least_one zero = 1
at_least_one (suc n) = suc n

-- `if on_progress is not None and pos >= _next_report`, where `watched` is the first test.
unfoldable pub report : Bool → ℕ → ℕ → Scan → Scan
report watched n pos s =
    if watched && leb s.next_report pos
    then record {
      table = s.table;
      next_report = pos + at_least_one (n / 100);
      reports = s.reports ++ (pos, n) ∷ [];
    }
    else s

abbrev pub asks_for : Option String → String → Bool
asks_for none c = true
asks_for (some w) c = str_eq c w

-- One range of the library's message, an omitted prefix being 0; an address of another length
-- than 4 or 16 is no network.
unfoldable pub proto_ranges : List Network → List (List ℕ × ℕ) → List Network
proto_ranges nets [] = nets
proto_ranges nets (cidr ∷ cidrs) =
    proto_ranges (append_some nets (above_floor (ip_network cidr.0 cidr.1))) cidrs

-- `lower` is `str.lower`.
module _ (lower : String → String) where
  -- `code.lower() if code else None`
  abbrev pub wanted_code : Option String → Option String
  wanted_code none = none
  wanted_code (some c) = if is_empty c then none else some (lower c)

  unfoldable pub add_entry : Option String → Table → Entry → Table
  add_entry code t (none, cidrs) = t
  add_entry code t (some country, cidrs) =
      if is_empty country || not (asks_for (wanted_code code) (lower country))
      then t
      else add_ranges t (lower country) (keep_ranges [] cidrs)

  unfoldable pub proto_entry : Option String → Table → String × List (List ℕ × ℕ) → Table
  proto_entry code t entry =
      if not (is_empty (lower entry.0)) && asks_for (wanted_code code) (lower entry.0)
      then add_ranges t (lower entry.0) (proto_ranges [] entry.1)
      else t

  -- The entries are those of the parsed message.
  unfoldable pub proto_from : Option String → Table → List (String × List (List ℕ × ℕ)) → Table
  proto_from code t [] = t
  proto_from code t (entry ∷ entries) = proto_from code (proto_entry code t entry) entries

  unfoldable pub geoip_decode_proto : Option String → List (String × List (List ℕ × ℕ)) → Table
  geoip_decode_proto code entries = proto_from code [] entries

-- `decode` as for an entry.
module _ (decode : List ℕ → String) (lower : String → String) where
  -- A turn of the loop without its report.
  unfoldable pub table_turn : Option String → List ℕ → ℕ → Table → Result Fault (Table × ℕ)
  table_turn code raw pos t =
      let tag = read_varint raw pos in
      let field = tag.0 / 8 in
      let wire = tag.0 % 8 in
      let bytes = read_bytes raw tag.1 in
      if field == 1 && wire == 2
      then (geoip_parse_entry decode bytes.0 >>= λ entry.
          ok (add_entry lower code t entry, bytes.1))
      else (geoip_skip raw tag.1 wire >>= λ p. ok (t, p))

  unfoldable pub pure_turn : Bool → Option String → List ℕ → ℕ → Scan → Result Fault (Scan × ℕ)
  pure_turn watched code raw pos s = table_turn code raw pos s.table >>= λ r. ok (
    report watched (length raw) r.1
        (record { table = r.0; next_report = s.next_report; reports = s.reports }),
    r.1,
  )

  abbrev last_report : Bool → ℕ → Scan → Table × List (ℕ × ℕ)
  last_report watched n s = (s.table, if watched then s.reports ++ (n, n) ∷ [] else s.reports)

  unfoldable pub geoip_decode_pure :
      Bool → Option String → List ℕ → Result Fault (Table × List (ℕ × ℕ))
  geoip_decode_pure watched code raw =
      scan (pure_turn watched code raw) (length raw) (length raw) 0
        (record { table = []; next_report = 0; reports = [] })
      >>= λ s. ok (last_report watched (length raw) s)

abbrev same_bytes : List ℕ → List ℕ → Bool
same_bytes [] [] = true
same_bytes [] (y ∷ ys) = false
same_bytes (x ∷ xs) [] = false
same_bytes (x ∷ xs) (y ∷ ys) = x == y && same_bytes xs ys

-- `norm not in seen`: `seen` holds the ranges that are kept.
unfoldable pub seen : List Network → Network → Bool
seen [] net = false
seen (k ∷ kept) net =
    (same_bytes k.address net.address && k.prefixlen == net.prefixlen) || seen kept net

abbrev pub keep_new : List Network → Option Network → List Network
keep_new kept none = kept
keep_new kept (some net) = if seen kept net then kept else kept ++ net ∷ []

module _ (parse : String → Option Network) where
  -- `for raw in v: norm = _normalise_cidr(raw) …`, in the JSON decoder and in the disk cache.
  unfoldable pub clean_ranges : List Network → List String → List Network
  clean_ranges kept [] = kept
  clean_ranges kept (raw ∷ raws) = clean_ranges (keep_new kept (normalise_cidr parse raw)) raws

  module _ (lower : String → String) where
    unfoldable pub json_from : Option String → Table → List (String × List String) → Table
    json_from code out [] = out
    json_from code out (entry ∷ entries) =
        json_from code
          (if is_empty (lower entry.0) || not (asks_for (wanted_code lower code) (lower entry.0))
            then out
            else set_ranges out (lower entry.0) (clean_ranges [] entry.1))
          entries

    -- `doc["country"]`: the code and the texts of each entry.
    unfoldable pub geoip_decode_json : Option String → List (String × List String) → Table
    geoip_decode_json code entries = json_from code [] entries

  -- What `_geo_disk_load` keeps of a file of the right shape.
  unfoldable pub clean_table : List (String × List String) → Table
  clean_table [] = []
  clean_table (row ∷ rows) = (row.0, clean_ranges [] row.1) ∷ clean_table rows
