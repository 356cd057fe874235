-- ===== src/Geo/Narrow.antt =====
-- No range wider than the floor leaves tuntop/geo/geoip.py, and no range twice from one list.
use tun_top.Prelude.{
  sym, subst, ◌/◌, ◌%◌, ◌==◌, ℕ, zero, suc, ◌≤◌, Bool, not, ◌&&◌, ◌||◌, Option, none, some, List,
  [], ◌∷◌, ltb, length, String, is_empty, str_eq, Bool-cases, inl, inr, All, All-append, arith,
}
use tun_top.Prelude.Results.{Result, ok, err, ◌>>=◌, Gives}
use tun_top.Geo.{Fault, scan, Entry, read_varint, read_bytes, geoip_skip, geoip_parse_entry}
use tun_top.Geo.Gate.{range_of-above_floor}
use tun_top.Geo.Tables.{decode-scan}
use tun_top.Geo.Ranges.{
  Network, min_prefixlen, geoip_cidr_to_str, ip_network, above_floor, normalise_cidr,
}
use tun_top.Geo.Decode.{
  Table, add_ranges, set_ranges, ranges_of, append_some, keep_ranges, proto_ranges, seen, keep_new,
  clean_ranges, add_entry, table_turn, geoip_decode_pure, proto_entry, proto_from,
  geoip_decode_proto, json_from, geoip_decode_json, clean_table, asks_for, wanted_code,
}

-- A network no wider than the floor of its version.
abbrev pub IsNarrow : Network → Type 0
IsNarrow net = min_prefixlen net.address ≤ net.prefixlen

abbrev pub IsNarrowTable : Table → Type 0
IsNarrowTable t = All (λ row. All IsNarrow row.1) t

abbrev Kept : Option Network → Type 0
Kept none = Unit
Kept (some net) = IsNarrow net

above_floor-Kept : (o : Option Network) → Kept (above_floor o)
unfolding above_floor
above_floor-Kept none = tt
above_floor-Kept (some net) = elim (Bool-cases (ltb net.prefixlen (min_prefixlen net.address))) [
  | inl a ↦ rw a tt
  | inr a ↦ rw a (ground (arith, a))
]

append_some-All :
    (nets : List Network) (o : Option Network)
    → All IsNarrow nets
    → Kept o
    → All IsNarrow (append_some nets o)
append_some-All nets none h k = h
append_some-All nets (some net) h k = All-append IsNarrow nets (net ∷ []) h (k, tt)

keep_new-All :
    (nets : List Network) (o : Option Network)
    → All IsNarrow nets
    → Kept o
    → All IsNarrow (keep_new nets o)
keep_new-All nets none h k = h
keep_new-All nets (some net) h k = elim (Bool-cases (seen nets net)) [
  | inl a ↦ rw a h
  | inr a ↦ rw a (All-append IsNarrow nets (net ∷ []) h (k, tt))
]

add_ranges-All :
    (t : Table) (c : String) (nets : List Network)
    → IsNarrowTable t
    → All IsNarrow nets
    → IsNarrowTable (add_ranges t c nets)
unfolding add_ranges
add_ranges-All [] c nets ht h = (h, tt)
add_ranges-All (row ∷ t) c nets ht h = elim (Bool-cases (str_eq row.0 c)) [
  | inl a ↦ rw a (All-append IsNarrow row.1 nets ht.0 h, ht.1)
  | inr a ↦ rw a (ht.0, add_ranges-All t c nets ht.1 h)
]

set_ranges-All :
    (t : Table) (c : String) (nets : List Network)
    → IsNarrowTable t
    → All IsNarrow nets
    → IsNarrowTable (set_ranges t c nets)
unfolding set_ranges
set_ranges-All [] c nets ht h = (h, tt)
set_ranges-All (row ∷ t) c nets ht h = elim (Bool-cases (str_eq row.0 c)) [
  | inl a ↦ rw a (h, ht.1)
  | inr a ↦ rw a (ht.0, set_ranges-All t c nets ht.1 h)
]

pub ranges_of-All : (t : Table) (c : String) → IsNarrowTable t → All IsNarrow (ranges_of t c)
unfolding ranges_of
ranges_of-All [] c ht = tt
ranges_of-All (row ∷ t) c ht = elim (Bool-cases (str_eq row.0 c)) [
  | inl a ↦ rw a ht.0
  | inr a ↦ rw a (ranges_of-All t c ht.1)
]

range-Kept : (ip : List ℕ) (prefix : Option ℕ) → Kept (geoip_cidr_to_str (some ip) prefix)
unfolding geoip_cidr_to_str
range-Kept ip none = tt
range-Kept ip (some plen) = elim (range_of-above_floor ip plen) [
  | inl e ↦ subst Kept (sym e) (above_floor-Kept (ip_network ip plen))
  | inr h ↦ subst Kept (sym h.1) tt
]

keep_ranges-All :
    (cidrs : List (List ℕ × Option ℕ)) (nets : List Network)
    → All IsNarrow nets
    → All IsNarrow (keep_ranges nets cidrs)
unfolding keep_ranges
keep_ranges-All [] nets h = h
keep_ranges-All (cidr ∷ cidrs) nets h =
    keep_ranges-All cidrs _ (append_some-All nets _ h (range-Kept cidr.0 cidr.1))

proto_ranges-All :
    (cidrs : List (List ℕ × ℕ)) (nets : List Network)
    → All IsNarrow nets
    → All IsNarrow (proto_ranges nets cidrs)
unfolding proto_ranges
proto_ranges-All [] nets h = h
proto_ranges-All (cidr ∷ cidrs) nets h =
    proto_ranges-All cidrs _
      (append_some-All nets _ h (above_floor-Kept (ip_network cidr.0 cidr.1)))

module _ (parse : String → Option Network) where
  clean_ranges-All :
      (raws : List String) (kept : List Network)
      → All IsNarrow kept
      → All IsNarrow (clean_ranges parse kept raws)
  unfolding clean_ranges normalise_cidr
  clean_ranges-All [] kept h = h
  clean_ranges-All (raw ∷ raws) kept h =
      clean_ranges-All raws _ (keep_new-All kept _ h (above_floor-Kept _))

  pub clean_table-IsNarrowTable :
      (rows : List (String × List String)) → IsNarrowTable (clean_table parse rows)
  unfolding clean_table
  clean_table-IsNarrowTable [] = tt
  clean_table-IsNarrowTable (row ∷ rows) =
      (clean_ranges-All row.1 [] tt, clean_table-IsNarrowTable rows)

  module _ (lower : String → String) (code : Option String) where
    json_from-All :
        (es : List (String × List String)) (out : Table)
        → IsNarrowTable out
        → IsNarrowTable (json_from parse lower code out es)
    unfolding json_from
    json_from-All [] out h = h
    json_from-All (e ∷ es) out h =
        elim (Bool-cases
          (is_empty (lower e.0) || not (asks_for (wanted_code lower code) (lower e.0)))) [
            | inl a ↦ rw a (json_from-All es out h)
            | inr a ↦
                rw a (json_from-All es _ (set_ranges-All out _ _ h (clean_ranges-All e.1 [] tt)))
          ]

    pub geoip_decode_json-IsNarrowTable :
        (es : List (String × List String)) → IsNarrowTable (geoip_decode_json parse lower code es)
    unfolding geoip_decode_json
    geoip_decode_json-IsNarrowTable es = json_from-All es [] tt

module _ (lower : String → String) (code : Option String) where
  proto_from-All :
      (es : List (String × List (List ℕ × ℕ))) (t : Table)
      → IsNarrowTable t
      → IsNarrowTable (proto_from lower code t es)
  unfolding proto_from proto_entry
  proto_from-All [] t h = h
  proto_from-All (e ∷ es) t h =
      elim (Bool-cases
        (not (is_empty (lower e.0)) && asks_for (wanted_code lower code) (lower e.0))) [
          | inl a ↦ rw a (proto_from-All es _ (add_ranges-All t _ _ h (proto_ranges-All e.1 [] tt)))
          | inr a ↦ rw a (proto_from-All es t h)
        ]

  pub geoip_decode_proto-IsNarrowTable :
      (es : List (String × List (List ℕ × ℕ))) → IsNarrowTable (geoip_decode_proto lower code es)
  unfolding geoip_decode_proto
  geoip_decode_proto-IsNarrowTable es = proto_from-All es [] tt

  add_entry-All :
      (t : Table) (e : Entry) → IsNarrowTable t → IsNarrowTable (add_entry lower code t e)
  unfolding add_entry
  add_entry-All t (none, cidrs) h = h
  add_entry-All t (some c, cidrs) h =
      elim (Bool-cases (is_empty c || not (asks_for (wanted_code lower code) (lower c)))) [
        | inl a ↦ rw a h
        | inr a ↦ rw a (add_ranges-All t (lower c) _ h (keep_ranges-All cidrs [] tt))
      ]

then-Gives :
    {A B C : Type 0}
    → (P : C → Type 0) (x : Result Fault A) (g : A → B) (k : B → Result Fault C)
    → ((a : A) → Gives P (k (g a)))
    → Gives P ((x >>= λ a. ok (g a)) >>= k)
then-Gives P (ok a) g k h = h a
then-Gives P (err e) g k h = tt

module _ (decode : List ℕ → String) (lower : String → String) (code : Option String) where
  scan-Gives :
      (raw : List ℕ) (fuel n pos : ℕ) (t : Table)
      → IsNarrowTable t
      → Gives IsNarrowTable (scan (table_turn decode lower code raw) fuel n pos t)
  unfolding scan table_turn
  scan-Gives raw zero n pos t h = elim (Bool-cases (ltb pos n)) [ inl a ↦ rw a tt | inr a ↦ rw a h ]
  scan-Gives raw (suc fuel) n pos t h = elim (Bool-cases (ltb pos n)) [
    | inl a ↦
        let tag = read_varint raw pos in
        rw a (elim (Bool-cases (tag.0 / 8 == 1 && tag.0 % 8 == 2)) [
          | inl b ↦ rw b (
              then-Gives IsNarrowTable (geoip_parse_entry decode (read_bytes raw tag.1).0) _ _
                (λ e. scan-Gives raw fuel n _ _ (add_entry-All lower code t e h)))
          | inr b ↦ rw b (
              then-Gives IsNarrowTable (geoip_skip raw tag.1 (tag.0 % 8)) _ _
                (λ p. scan-Gives raw fuel n p t h))
        ])
    | inr a ↦ rw a h
  ]

  from-table :
      {B : Type 0}
      → (x : Result Fault (Table × B)) → Gives IsNarrowTable (x >>= λ r. ok r.0)
      → Gives (λ r. IsNarrowTable r.0) x
  from-table (ok r) h = h
  from-table (err e) h = tt

  pub geoip_decode_pure-IsNarrowTable :
      (watched : Bool) (raw : List ℕ)
      → Gives (λ r. IsNarrowTable r.0) (geoip_decode_pure decode lower watched code raw)
  geoip_decode_pure-IsNarrowTable watched raw = from-table _ (
      subst (Gives IsNarrowTable) (sym (decode-scan decode lower code watched raw))
        (scan-Gives raw (length raw) (length raw) 0 [] tt))
