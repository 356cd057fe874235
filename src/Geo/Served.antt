-- ===== src/Geo/Served.antt =====
-- What `parse_geoip` of tuntop/geo/geoip.py serves: narrow ranges only, and one answer per key.
use text.Mathlib.TextEquality.{eq_iff}
use tun_top.Prelude.{
  ◌≡◌, refl, ℕ, Bool, true, ◌&&◌, Option, none, some, List, [], ◌∷◌, String, str_eq, Bool-cases,
  inl, inr, All,
}
use tun_top.Prelude.Results.{Result, ok, err, ◌>>=◌, Gives}
use tun_top.Geo.{Fault}
use tun_top.Geo.Ranges.{Network}
use tun_top.Geo.Decode.{Table, ranges_of, clean_table}
use tun_top.Geo.Load.{
  Format, json, dat, LoadError, GeoFile, Message, no_library, unreadable, entries, geo_format_of,
  Memory, cached, decode_dat, decode_doc, decode_as, decode_file, remember, load_from_disk,
  load_with, load_geoip_all, found, parse_geoip, as_wire,
}
use tun_top.Geo.Narrow.{
  IsNarrow, IsNarrowTable, ranges_of-All, clean_table-IsNarrowTable,
  geoip_decode_json-IsNarrowTable, geoip_decode_proto-IsNarrowTable,
  geoip_decode_pure-IsNarrowTable,
}

-- Every table kept in memory holds narrow ranges only.
abbrev pub IsNarrowMemory : Memory → Type 0
IsNarrowMemory m = All (λ row. IsNarrowTable row.1) m

as_wire-Gives :
    (x : Result Fault (Table × List (ℕ × ℕ)))
    → Gives (λ r. IsNarrowTable r.0) x
    → Gives IsNarrowTable (as_wire x)
as_wire-Gives (ok r) h = h
as_wire-Gives (err e) h = tt

abbrev IsNarrowOption : Option Table → Type 0
IsNarrowOption none = Unit
IsNarrowOption (some t) = IsNarrowTable t

cached-IsNarrowOption :
    (m : Memory) (path code : String) → IsNarrowMemory m → IsNarrowOption (cached m path code)
unfolding cached
cached-IsNarrowOption [] path code h = tt
cached-IsNarrowOption (row ∷ m) path code h =
    elim (Bool-cases (str_eq row.0.0 path && str_eq row.0.1 code)) [
      | inl a ↦ rw a h.0
      | inr a ↦ rw a (cached-IsNarrowOption m path code h.1)
    ]

found-Gives :
    (code : String) (nets : List Network)
    → All IsNarrow nets
    → Gives (All IsNarrow) (found code nets)
found-Gives code [] h = tt
found-Gives code (net ∷ nets) h = h

lookup-Gives :
    (code : String) (x : Result LoadError Table)
    → Gives IsNarrowTable x
    → Gives (All IsNarrow) (x >>= λ t. found code (ranges_of t code))
lookup-Gives code (ok t) h = found-Gives code (ranges_of t code) (ranges_of-All t code h)
lookup-Gives code (err e) h = tt

str_eq_refl : (s : String) → str_eq s s ≡ true
str_eq_refl s = (eq_iff s s).1 refl

hit :
    (m : Memory) (path code : String) (t : Table)
    → cached (((path, code), t) ∷ m) path code ≡ some t
unfolding cached
hit m path code t = rw (str_eq_refl path, str_eq_refl code)

module _ (decode : List ℕ → String) (lower : String → String)
    (parse : String → Option Network) where
  decode_dat-Gives :
      (watched : Bool) (code : String) (file : GeoFile) (message : Message)
      → Gives IsNarrowTable (decode_dat decode lower parse watched code file message)
  decode_dat-Gives watched code file no_library =
      as_wire-Gives _ (geoip_decode_pure-IsNarrowTable decode lower (some code) watched file.raw)
  decode_dat-Gives watched code file unreadable =
      as_wire-Gives _ (geoip_decode_pure-IsNarrowTable decode lower (some code) watched file.raw)
  decode_dat-Gives watched code file (entries es) =
      geoip_decode_proto-IsNarrowTable lower (some code) es

  decode_doc-Gives :
      (code : String) (doc : Option (List (String × List String)))
      → Gives IsNarrowTable (decode_doc decode lower parse code doc)
  decode_doc-Gives code none = tt
  decode_doc-Gives code (some es) = geoip_decode_json-IsNarrowTable parse lower (some code) es

  decode_as-Gives :
      (watched : Bool) (code : String) (file : GeoFile) (format : Format)
      → Gives IsNarrowTable (decode_as decode lower parse watched code file format)
  decode_as-Gives watched code file json = decode_doc-Gives code file.doc
  decode_as-Gives watched code file dat = decode_dat-Gives watched code file file.message

  decode_file-Gives :
      (watched : Bool) (code : String) (file : GeoFile)
      → Gives IsNarrowTable (decode_file decode lower parse watched code file)
  unfolding decode_file
  decode_file-Gives watched code file =
      decode_as-Gives watched code file (geo_format_of file.raw file.named_json)

  abbrev Safe : Result LoadError Table × Memory → Type 0
  Safe r = Gives IsNarrowTable r.0 × IsNarrowMemory r.1

  remember-Safe :
      (m : Memory) (path code : String) (x : Result LoadError Table)
      → IsNarrowMemory m
      → Gives IsNarrowTable x
      → Safe (remember m path code x)
  remember-Safe m path code (ok t) hm h = (h, (h, hm))
  remember-Safe m path code (err e) hm h = (h, hm)

  load_from_disk-Safe :
      (watched : Bool) (m : Memory) (path code : String) (file : GeoFile)
      (disk : Option (List (String × List String)))
      → IsNarrowMemory m
      → Safe (load_from_disk decode lower parse watched m path code file disk)
  load_from_disk-Safe watched m path code file none hm =
      remember-Safe m path code (decode_file decode lower parse watched code file) hm
        (decode_file-Gives watched code file)
  load_from_disk-Safe watched m path code file (some rows) hm =
      remember-Safe m path code (ok (clean_table parse rows)) hm
        (clean_table-IsNarrowTable parse rows)

  load_with-Safe :
      (watched : Bool) (m : Memory) (path code : String) (file : GeoFile) (o : Option Table)
      → IsNarrowMemory m
      → IsNarrowOption o
      → Safe (load_with decode lower parse watched m path code file o)
  load_with-Safe watched m path code file none hm h =
      load_from_disk-Safe watched m path code file file.disk hm
  load_with-Safe watched m path code file (some t) hm h = (h, hm)

  -- Whichever decoder or cache answers, and whatever the file, the cache file and the library
  -- hold, `parse_geoip` returns only ranges no wider than the floor of their version, and keeps
  -- only such tables in memory, if memory held only such tables before.
  pub parse_geoip-IsNarrow :
      (watched : Bool) (m : Memory) (path code : String) (file : GeoFile)
      → IsNarrowMemory m
      → Gives (All IsNarrow) (parse_geoip decode lower parse watched m path code file).0
        × IsNarrowMemory (parse_geoip decode lower parse watched m path code file).1
  unfolding parse_geoip load_geoip_all
  parse_geoip-IsNarrow watched m path code file hm =
      let safe =
        load_with-Safe watched m path (lower code) file (cached m path (lower code)) hm
          (cached-IsNarrowOption m path (lower code) hm) in
      (lookup-Gives (lower code) _ safe.0, safe.1)

  served-Again :
      (watched : Bool) (m : Memory) (path code : String) (later : GeoFile) (t : Table)
      → cached m path code ≡ some t
      → load_geoip_all decode lower parse watched m path code later ≡ (ok t, m)
  unfolding load_geoip_all
  served-Again watched m path code later t e = rw e

  abbrev pub IsServedAgain :
      Bool → String → String → GeoFile → Result LoadError Table × Memory → Type 0
  IsServedAgain watched path code later r =
      Gives (λ t. load_geoip_all decode lower parse watched r.1 path code later ≡ (ok t, r.1)) r.0

  remember-IsServedAgain :
      (watched : Bool) (m : Memory) (path code : String) (later : GeoFile)
      (x : Result LoadError Table)
      → IsServedAgain watched path code later (remember m path code x)
  remember-IsServedAgain watched m path code later (ok t) =
      served-Again watched (((path, code), t) ∷ m) path code later t (hit m path code t)
  remember-IsServedAgain watched m path code later (err e) = tt

  load_from_disk-IsServedAgain :
      (watched : Bool) (m : Memory) (path code : String) (file later : GeoFile)
      (disk : Option (List (String × List String)))
      → IsServedAgain watched path code later
          (load_from_disk decode lower parse watched m path code file disk)
  load_from_disk-IsServedAgain watched m path code file later none =
      remember-IsServedAgain watched m path code later
        (decode_file decode lower parse watched code file)
  load_from_disk-IsServedAgain watched m path code file later (some rows) =
      remember-IsServedAgain watched m path code later (ok (clean_table parse rows))

  load_with-IsServedAgain :
      (watched : Bool) (m : Memory) (path code : String) (file later : GeoFile) (o : Option Table)
      → cached m path code ≡ o
      → IsServedAgain watched path code later
          (load_with decode lower parse watched m path code file o)
  load_with-IsServedAgain watched m path code file later none e =
      load_from_disk-IsServedAgain watched m path code file later file.disk
  load_with-IsServedAgain watched m path code file later (some t) e =
      served-Again watched m path code later t e

  -- A table that was loaded is served again for the same path and code, whatever has become of
  -- the file: the second load decodes nothing and leaves memory as it is.
  pub load_geoip_all-IsServedAgain :
      (watched : Bool) (m : Memory) (path code : String) (file later : GeoFile)
      → IsServedAgain watched path code later
          (load_geoip_all decode lower parse watched m path code file)
  unfolding load_geoip_all
  load_geoip_all-IsServedAgain watched m path code file later =
      load_with-IsServedAgain watched m path code file later (cached m path code) refl
