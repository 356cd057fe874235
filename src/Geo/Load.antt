-- ===== src/Geo/Load.antt =====
-- Loading a country's ranges in tuntop/geo/geoip.py: the format, the two caches, and the decoders.
use tun_top.Prelude.{
  ℕ, Bool, ◌&&◌, Option, none, some, List, [], ◌∷◌, ◌==◌, if◌then◌else◌, String, str_eq,
}
use tun_top.Prelude.Results.{Result, ok, err, ◌>>=◌}
use tun_top.Geo.{Fault}
use tun_top.Geo.Ranges.{Network}
use tun_top.Geo.Decode.{
  Table, ranges_of, geoip_decode_pure, geoip_decode_proto, geoip_decode_json, clean_table,
}

-- What `parse_geoip` raises: a fault of the wire, a text that is no JSON, or no range found.
pub data LoadError : Type 0 where
  wire_fault : Fault → LoadError
  not_json : LoadError
  no_entries : String → LoadError

pub data Format : Type 0 where
  json : Format
  dat : Format

-- The first byte of the file, and whether its name ends in `.json`.
unfoldable pub geo_format_of : List ℕ → Bool → Format
geo_format_of [] named_json = if named_json then json else dat
geo_format_of (b ∷ head) named_json =
    if b == b'{' then json else if b == 10 then dat else if named_json then json else dat

-- The file and what lies around it. `disk` is the cache file of the same key, if there is one of
-- the right shape; `doc` is what `json.loads` makes of the text, and `message` what the protobuf
-- library makes of the bytes: its own absence, its exception, or the entries.
pub data Message : Type 0 where
  no_library : Message
  unreadable : Message
  entries : List (String × List (List ℕ × ℕ)) → Message

pub record GeoFile : Type 0 where
  pub raw : List ℕ
  pub named_json : Bool
  pub disk : Option (List (String × List String))
  pub doc : Option (List (String × List String))
  pub message : Message

abbrev pub as_wire : Result Fault (Table × List (ℕ × ℕ)) → Result LoadError Table
as_wire (ok r) = ok r.0
as_wire (err e) = err (wire_fault e)

-- `_GEOIP_CACHE`: the file's path, the code, and the table.
abbrev pub Memory : Type 0
Memory = List ((String × String) × Table)

unfoldable pub cached : Memory → String → String → Option Table
cached [] path code = none
cached (row ∷ m) path code =
    let rest = cached m path code in
    if str_eq row.0.0 path && str_eq row.0.1 code then some row.1 else rest

-- A table found on disk, or decoded, is kept in memory; what is decoded is also saved to disk.
abbrev pub remember :
    Memory → String → String → Result LoadError Table → Result LoadError Table × Memory
remember m path code (ok t) = (ok t, ((path, code), t) ∷ m)
remember m path code (err e) = (err e, m)

abbrev pub found : String → List Network → Result LoadError (List Network)
found code [] = err (no_entries code)
found code (net ∷ nets) = ok (net ∷ nets)

module _ (decode : List ℕ → String) (lower : String → String)
    (parse : String → Option Network) where
  abbrev pub decode_dat : Bool → String → GeoFile → Message → Result LoadError Table
  decode_dat watched code file no_library =
      as_wire (geoip_decode_pure decode lower watched (some code) file.raw)
  decode_dat watched code file unreadable =
      as_wire (geoip_decode_pure decode lower watched (some code) file.raw)
  decode_dat watched code file (entries es) = ok (geoip_decode_proto lower (some code) es)

  abbrev pub decode_doc : String → Option (List (String × List String)) → Result LoadError Table
  decode_doc code none = err not_json
  decode_doc code (some es) = ok (geoip_decode_json parse lower (some code) es)

  abbrev pub decode_as : Bool → String → GeoFile → Format → Result LoadError Table
  decode_as watched code file json = decode_doc code file.doc
  decode_as watched code file dat = decode_dat watched code file file.message

  unfoldable pub decode_file : Bool → String → GeoFile → Result LoadError Table
  decode_file watched code file =
      decode_as watched code file (geo_format_of file.raw file.named_json)

  abbrev pub load_from_disk :
      Bool
      → Memory
      → String
      → String
      → GeoFile
      → Option (List (String × List String))
      → Result LoadError Table × Memory
  load_from_disk watched m path code file none =
      remember m path code (decode_file watched code file)
  load_from_disk watched m path code file (some rows) =
      remember m path code (ok (clean_table parse rows))

  abbrev pub load_with :
      Bool → Memory → String → String → GeoFile → Option Table → Result LoadError Table × Memory
  load_with watched m path code file none = load_from_disk watched m path code file file.disk
  load_with watched m path code file (some t) = (ok t, m)

  unfoldable pub load_geoip_all :
      Bool → Memory → String → String → GeoFile → Result LoadError Table × Memory
  load_geoip_all watched m path code file = load_with watched m path code file (cached m path code)

  -- `code` is the caller's, a missing one being the empty text.
  unfoldable pub parse_geoip :
      Bool → Memory → String → String → GeoFile → Result LoadError (List Network) × Memory
  parse_geoip watched m path code file =
      let load = load_geoip_all watched m path (lower code) file in
      ((load.0 >>= λ t. found (lower code) (ranges_of t (lower code))), load.1)
