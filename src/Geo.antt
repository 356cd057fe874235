-- ===== src/Geo.antt =====
-- The protobuf reader of tuntop/geo/geoip.py: numbers, byte fields, and the messages that hold them.
pub mod Advance
pub mod Encode
pub mod Fields
pub mod Ranges
pub mod Gate
pub mod Decode
pub mod Load
pub mod Narrow
pub mod Served
pub mod Tables
pub mod Download
pub mod Installed
pub mod Whole
use tun_top.Prelude.{
  ◌≡◌, refl, ℕ, zero, suc, ◌+◌, ◌*◌, ◌/◌, ◌%◌, ◌^◌, Bool, true, false, ◌&&◌, Option, none, some,
  List, [], ◌∷◌, ◌++◌, ltb, leb, ◌==◌, if◌then◌else◌, length, take, drop, String,
}
use tun_top.Prelude.Results.{Result, ok, err, ◌>>=◌}

-- What stops a message: a wire type without a rule. Fuel that runs out is kept apart from it.
pub data Fault : Type 0 where
  bad_wire : ℕ → Fault
  out_of_turns : Fault

-- The rest of the buffer, one byte a turn. The bits below `shift` alone are set in `result`, so
-- that `|=` adds; a byte is below 256, so that its bit 7 is set from 128 on.
unfoldable pub varint_from : List ℕ → ℕ → ℕ → ℕ → ℕ × ℕ
varint_from [] result shift pos = (result, pos)
varint_from (b ∷ rest) result shift pos =
    let next = varint_from rest (result + b % 128 * 2 ^ shift) (shift + 7) (suc pos) in
    if leb 128 b then next else (result + b % 128 * 2 ^ shift, suc pos)

unfoldable pub read_varint : List ℕ → ℕ → ℕ × ℕ
read_varint buf pos = varint_from (drop pos buf) 0 0 pos

unfoldable pub read_bytes : List ℕ → ℕ → List ℕ × ℕ
read_bytes buf pos =
    let head = read_varint buf pos in (take head.0 (drop head.1 buf), head.1 + head.0)

unfoldable pub geoip_skip : List ℕ → ℕ → ℕ → Result Fault ℕ
geoip_skip buf pos wire =
    if wire == 0
    then ok (read_varint buf pos).1
    else if wire == 1
    then ok (pos + 8)
    else if wire == 2
    then ok (read_bytes buf pos).1
    else if wire == 5
    then ok (pos + 4)
    else err (bad_wire wire)

-- `while pos < n: body`, where the body moves `pos` and changes the rest of the state.
unfoldable pub scan : {S : Type 0} → (ℕ → S → Result Fault (S × ℕ)) → ℕ → ℕ → ℕ → S → Result Fault S
scan body zero n pos s = if ltb pos n then err out_of_turns else ok s
scan body (suc fuel) n pos s =
    if ltb pos n then (body pos s >>= λ r. scan body fuel n r.1 r.0) else ok s

-- The address and the prefix of one CIDR message, as far as they are read.
abbrev pub Cidr : Type 0
Cidr = Option (List ℕ) × Option ℕ

unfoldable pub cidr_turn : List ℕ → ℕ → Cidr → Result Fault (Cidr × ℕ)
cidr_turn msg pos s =
    let tag = read_varint msg pos in
    let field = tag.0 / 8 in
    let wire = tag.0 % 8 in
    let bytes = read_bytes msg tag.1 in
    let number = read_varint msg tag.1 in
    if field == 1 && wire == 2
    then ok ((some bytes.0, s.1), bytes.1)
    else if field == 2 && wire == 0
    then ok ((s.0, some number.0), number.1)
    else (geoip_skip msg tag.1 wire >>= λ p. ok (s, p))

unfoldable pub geoip_parse_cidr : List ℕ → Result Fault Cidr
geoip_parse_cidr msg = scan (cidr_turn msg) (length msg) (length msg) 0 (none, none)

-- The country and the ranges of one entry.
abbrev pub Entry : Type 0
Entry = Option String × List (List ℕ × Option ℕ)

abbrev pub with_cidr : Entry → Cidr → Entry
with_cidr s (none, prefix) = s
with_cidr s (some ip, prefix) = (s.0, s.1 ++ (ip, prefix) ∷ [])

-- `decode` is `bytes.decode("utf-8", "replace")`, which never fails.
module _ (decode : List ℕ → String) where
  unfoldable pub entry_turn : List ℕ → ℕ → Entry → Result Fault (Entry × ℕ)
  entry_turn msg pos s =
      let tag = read_varint msg pos in
      let field = tag.0 / 8 in
      let wire = tag.0 % 8 in
      let bytes = read_bytes msg tag.1 in
      if field == 1 && wire == 2
      then ok ((some (decode bytes.0), s.1), bytes.1)
      else if field == 2 && wire == 2
      then (geoip_parse_cidr bytes.0 >>= λ cidr. ok (with_cidr s cidr, bytes.1))
      else (geoip_skip msg tag.1 wire >>= λ p. ok (s, p))

  unfoldable pub geoip_parse_entry : List ℕ → Result Fault Entry
  geoip_parse_entry msg = scan (entry_turn msg) (length msg) (length msg) 0 (none, [])

cidr_test :
    geoip_parse_cidr (10 ∷ 4 ∷ 1 ∷ 2 ∷ 3 ∷ 0 ∷ 16 ∷ 24 ∷ [])
    ≡ ok (some (1 ∷ 2 ∷ 3 ∷ 0 ∷ []), some 24)
unfolding geoip_parse_cidr cidr_turn scan read_varint read_bytes varint_from
cidr_test = refl
