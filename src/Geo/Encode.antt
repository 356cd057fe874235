-- ===== src/Geo/Encode.antt =====
-- The protobuf encoding that tuntop/geo/geoip.py reads: an independent description of its input.
use tun_top.Prelude.{
  inl, inr, drop-drop, append_assoc, ◌≡◌, ◌∙◌, ap, ℕ, zero, suc, ◌+◌, ◌*◌, ◌/◌, ◌%◌, ◌^◌, ◌≤◌, true,
  false, List, [], ◌∷◌, ◌++◌, ltb, leb, if◌then◌else◌, Bool-cases, length, drop, drop-append,
  take-append, append_assoc, length-append, arith,
}
use native.Mathlib.Nat.{pow-suc}
use tun_top.Prelude.Results.{ok}
use tun_top.Geo.{geoip_skip, varint_from, read_varint, read_bytes}

-- Seven bits a byte, the lowest first; all bytes but the last have bit 7 set.
unfoldable pub varint_bytes : ℕ → ℕ → List ℕ
varint_bytes zero v = v ∷ []
varint_bytes (suc more) v =
    let rest = varint_bytes more (v / 128) in if ltb v 128 then v ∷ [] else (v % 128 + 128) ∷ rest

unfoldable pub encode_varint : ℕ → List ℕ
unfolding varint_bytes
encode_varint v = varint_bytes v v

-- One field: its number, and what stands behind it.
pub data Field : Type 0 where
  varint_field : ℕ → ℕ → Field
  fixed64_field : ℕ → List ℕ → Field
  bytes_field : ℕ → List ℕ → Field
  fixed32_field : ℕ → List ℕ → Field

abbrev pub IsField : Field → Type 0
IsField (varint_field f v) = Unit
IsField (fixed64_field f bs) = length bs ≡ 8
IsField (bytes_field f bs) = Unit
IsField (fixed32_field f bs) = length bs ≡ 4

abbrev pub number : Field → ℕ
number (varint_field f v) = f
number (fixed64_field f bs) = f
number (bytes_field f bs) = f
number (fixed32_field f bs) = f

abbrev pub wire_type : Field → ℕ
wire_type (varint_field f v) = 0
wire_type (fixed64_field f bs) = 1
wire_type (bytes_field f bs) = 2
wire_type (fixed32_field f bs) = 5

abbrev pub payload : Field → List ℕ
payload (varint_field f v) = encode_varint v
payload (fixed64_field f bs) = bs
payload (bytes_field f bs) = encode_varint (length bs) ++ bs
payload (fixed32_field f bs) = bs

abbrev pub tag_of : Field → ℕ
tag_of f = number f * 8 + wire_type f

unfoldable pub encode_field : Field → List ℕ
encode_field f = encode_varint (tag_of f) ++ payload f

unfoldable pub encode_fields : List Field → List ℕ
unfolding encode_field
encode_fields [] = []
encode_fields (f ∷ fs) = encode_field f ++ encode_fields fs

weight_next : (s : ℕ) → 2 ^ (s + 7) ≡ 128 * 2 ^ s
weight_next s =
    let e : s + 7 ≡ suc (suc (suc (suc (suc (suc (suc s)))))) = omega arith in
    rw (e, pow-suc) (omega arith)

weigh : (r q m w : ℕ) → r + m * w + q * (128 * w) ≡ r + (q * 128 + m) * w
weigh r q m w = omega arith

pub varint_from-varint_bytes :
    (more v : ℕ) (rest : List ℕ) (r s pos : ℕ)
    → v ≤ more + 127
    → varint_from (varint_bytes more v ++ rest) r s pos
      ≡ (r + v * 2 ^ s, pos + length (varint_bytes more v))
unfolding varint_from varint_bytes
varint_from-varint_bytes zero v rest r s pos h =
    let e : leb 128 v ≡ false = ground arith in
    let m : v % 128 ≡ v = omega arith in let p : suc pos ≡ pos + 1 = omega arith in rw (e, m, p)
varint_from-varint_bytes (suc more) v rest r s pos h = elim (Bool-cases (ltb v 128)) [
  | inl t ↦
      let e : leb 128 v ≡ false = ground (arith, t) in
      let small : suc v ≤ 128 = ground (arith, t) in
      let m : v % 128 ≡ v = omega (arith, small) in
      let p : suc pos ≡ pos + 1 = omega arith in rw (t, e, m, p)
  | inr t ↦
      let e : leb 128 (v % 128 + 128) ≡ true = ground arith in
      let m : (v % 128 + 128) % 128 ≡ v % 128 = omega arith in
      let enough : v / 128 ≤ more + 127 = ground arith in
      let whole : v / 128 * 128 + v % 128 ≡ v = omega arith in
      let p : suc pos + length (varint_bytes more (v / 128))
          ≡ pos + suc (length (varint_bytes more (v / 128))) =
        omega arith in
      rw (
        t,
        e,
        m,
        varint_from-varint_bytes more (v / 128) rest (r + v % 128 * 2 ^ s) (s + 7) (suc pos) enough,
        weight_next s,
        weigh r (v / 128) (v % 128) (2 ^ s),
        whole,
        p,
      )
]

module _ (buf : List ℕ) where
  behind :
      (pos : ℕ) (xs rest : List ℕ) → drop pos buf ≡ xs ++ rest → drop (pos + length xs) buf ≡ rest
  behind pos xs rest e = rw (drop-drop pos (length xs) buf, e, drop-append xs rest)

  -- A number is read back, wherever it stands.
  pub read_varint-encode_varint :
      (pos v : ℕ) (rest : List ℕ)
      → drop pos buf ≡ encode_varint v ++ rest
      → read_varint buf pos ≡ (v, pos + length (encode_varint v))
  unfolding read_varint encode_varint
  read_varint-encode_varint pos v rest e =
      let plain : 0 + v * 2 ^ 0 ≡ v = omega arith in
      rw (e, varint_from-varint_bytes v v rest 0 0 pos (omega arith), plain)

  pub read_bytes-encode_varint :
      (pos : ℕ) (bs rest : List ℕ)
      → drop pos buf ≡ (encode_varint (length bs) ++ bs) ++ rest
      → read_bytes buf pos ≡ (bs, pos + length (encode_varint (length bs) ++ bs))
  unfolding read_bytes
  read_bytes-encode_varint pos bs rest e =
      let head = encode_varint (length bs) in
      let e' : drop pos buf ≡ head ++ (bs ++ rest) = e ∙ append_assoc head bs rest in
      let sum : (pos + length head) + length bs ≡ pos + length (head ++ bs) =
        omega (arith, length-append head bs) in
      rw (
        read_varint-encode_varint pos (length bs) (bs ++ rest) e',
        behind pos head (bs ++ rest) e',
        take-append bs rest,
        sum,
      )

  -- The tag of a field, and what then stands behind it.
  pub read_varint-encode_field :
      (pos : ℕ) (f : Field) (rest : List ℕ)
      → drop pos buf ≡ encode_field f ++ rest
      → read_varint buf pos ≡ (tag_of f, pos + length (encode_varint (tag_of f)))
  unfolding encode_field
  read_varint-encode_field pos f rest e =
      read_varint-encode_varint pos (tag_of f) (payload f ++ rest)
        (e ∙ append_assoc (encode_varint (tag_of f)) (payload f) rest)

  pub drop-encode_field :
      (pos : ℕ) (f : Field) (rest : List ℕ)
      → drop pos buf ≡ encode_field f ++ rest
      → drop (pos + length (encode_varint (tag_of f))) buf ≡ payload f ++ rest
  unfolding encode_field
  drop-encode_field pos f rest e =
      behind pos (encode_varint (tag_of f)) (payload f ++ rest)
        (e ∙ append_assoc (encode_varint (tag_of f)) (payload f) rest)

  pub geoip_skip-payload :
      (pos : ℕ) (f : Field) (rest : List ℕ)
      → IsField f
      → drop pos buf ≡ payload f ++ rest
      → geoip_skip buf pos (wire_type f) ≡ ok (pos + length (payload f))
  unfolding geoip_skip
  geoip_skip-payload pos (varint_field f v) rest h e = rw (read_varint-encode_varint pos v rest e)
  geoip_skip-payload pos (fixed64_field f bs) rest h e = rw h
  geoip_skip-payload pos (bytes_field f bs) rest h e =
      ap (λ r. ok r.1) (read_bytes-encode_varint pos bs rest e)
  geoip_skip-payload pos (fixed32_field f bs) rest h e = rw h

  pub drop-payload :
      (pos : ℕ) (f : Field) (rest : List ℕ)
      → drop pos buf ≡ encode_field f ++ rest
      → drop (pos + length (encode_field f)) buf ≡ rest
  drop-payload pos f rest e = behind pos (encode_field f) rest e

-- Where a field's payload starts, and where it ends.
abbrev pub payload_at : ℕ → Field → ℕ
payload_at pos f = pos + length (encode_varint (tag_of f))

pub payload_end :
    (pos : ℕ) (f : Field) → payload_at pos f + length (payload f) ≡ pos + length (encode_field f)
unfolding encode_field
payload_end pos f = omega (arith, length-append (encode_varint (tag_of f)) (payload f))

pub tag_number : (f : Field) → tag_of f / 8 ≡ number f
tag_number (varint_field f v) = omega arith
tag_number (fixed64_field f bs) = omega arith
tag_number (bytes_field f bs) = omega arith
tag_number (fixed32_field f bs) = omega arith

pub tag_wire : (f : Field) → tag_of f % 8 ≡ wire_type f
tag_wire (varint_field f v) = omega arith
tag_wire (fixed64_field f bs) = omega arith
tag_wire (bytes_field f bs) = omega arith
tag_wire (fixed32_field f bs) = omega arith

varint_bytes-nonempty : (more v : ℕ) → 1 ≤ length (varint_bytes more v)
unfolding varint_bytes
varint_bytes-nonempty zero v = omega arith
varint_bytes-nonempty (suc more) v = elim (Bool-cases (ltb v 128)) [
  | inl t ↦ rw t (omega arith)
  | inr t ↦ rw t (omega arith)
]

pub length-encode_field : (f : Field) → 1 ≤ length (encode_field f)
unfolding encode_field encode_varint
length-encode_field f = omega (
  arith,
  length-append (encode_varint (tag_of f)) (payload f),
  varint_bytes-nonempty (tag_of f) (tag_of f),
)
