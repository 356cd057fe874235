-- ===== src/Geo/Fields.antt =====
-- The messages of tuntop/geo/geoip.py against their fields: the CIDR and the entry message.
use tun_top.Prelude.{
  ◌≡◌, refl, sym, ◌∙◌, ap, ℕ, zero, suc, ◌+◌, ◌≤◌, Bool, true, false, ◌&&◌, none, some, List, [],
  ◌∷◌, ◌++◌, ltb, ◌==◌, if◌then◌else◌, Bool-cases, inl, inr, length, length-append, drop, All,
  String, arith,
}
use tun_top.Prelude.Results.{Result, ok, err, ◌>>=◌}
use tun_top.Geo.{
  Fault, scan, Cidr, cidr_turn, geoip_parse_cidr, Entry, with_cidr, entry_turn, geoip_parse_entry,
  read_varint, read_bytes, geoip_skip,
}
use tun_top.Geo.Encode.{
  Field, varint_field, fixed64_field, bytes_field, fixed32_field, IsField, wire_type, payload_at,
  payload_end, encode_field, encode_fields, read_varint-encode_field, drop-encode_field,
  read_varint-encode_varint, read_bytes-encode_varint, geoip_skip-payload, drop-payload, tag_number,
  tag_wire, length-encode_field,
}

-- What fields mean, one after the other.
abbrev pub read_fields :
    {S : Type 0} → (S → Field → Result Fault S) → S → List Field → Result Fault S
read_fields step s [] = ok s
read_fields step s (f ∷ fs) = step s f >>= λ t. read_fields step t fs

pub then-then :
    {S T U : Type 0}
    → (x : Result Fault S) (g : S → T) (k : T → Result Fault U) (k' : S → Result Fault U)
    → ((s : S) → k (g s) ≡ k' s)
    → ((x >>= λ s. ok (g s)) >>= k) ≡ (x >>= k')
then-then (ok s) g k k' h = h s
then-then (err e) g k k' h = refl

module _ {S : Type 0} (buf : List ℕ) (body : ℕ → S → Result Fault (S × ℕ))
    (step : S → Field → Result Fault S) where
  -- A turn on an encoded field does what the field means.
  abbrev pub Follows : Type 0
  Follows =
      (pos : ℕ) (s : S) (f : Field) (rest : List ℕ)
      → IsField f
      → drop pos buf ≡ encode_field f ++ rest
      → body pos s ≡ (step s f >>= λ t. ok (t, pos + length (encode_field f)))

  pub scan-encode_fields :
      Follows
      → (fuel pos : ℕ) (s : S) (fs : List Field) → All IsField fs
      → drop pos buf ≡ encode_fields fs
      → length buf ≡ pos + length (encode_fields fs)
      → length (encode_fields fs) ≤ fuel
      → scan body fuel (length buf) pos s ≡ read_fields step s fs
  unfolding scan encode_fields
  scan-encode_fields follows zero pos s [] hs e l h =
      let stop : ltb pos (length buf) ≡ false = ground (arith, l) in rw stop
  scan-encode_fields follows (suc fuel) pos s [] hs e l h =
      let stop : ltb pos (length buf) ≡ false = ground (arith, l) in rw stop
  scan-encode_fields follows zero pos s (f ∷ fs) hs e l h =
      absurd
        (omega (arith, h, length-append (encode_field f) (encode_fields fs), length-encode_field f))
  scan-encode_fields follows (suc fuel) pos s (f ∷ fs) hs e l h =
      let more = length-append (encode_field f) (encode_fields fs) in
      let some_bytes = length-encode_field f in
      let go : ltb pos (length buf) ≡ true = ground (arith, l, more, some_bytes) in
      rw (go, follows pos s f (encode_fields fs) hs.0 e)
        (then-then (step s f) (λ t. (t, pos + length (encode_field f))) _ _
          (λ t.
            scan-encode_fields follows fuel (pos + length (encode_field f)) t fs hs.1
              (drop-payload buf pos f (encode_fields fs) e) (omega (arith, l, more))
              (omega (arith, h, more, some_bytes))))

-- What a CIDR message takes from a field: an address from bytes field 1, a prefix from number 2.
abbrev pub cidr_field : Cidr → Field → Result Fault Cidr
cidr_field s (varint_field f v) = ok (if f == 2 then (s.0, some v) else s)
cidr_field s (bytes_field f bs) = ok (if f == 1 then (some bs, s.1) else s)
cidr_field s (fixed64_field f bs) = ok s
cidr_field s (fixed32_field f bs) = ok s

pub and-false : (b : Bool) → (b && false) ≡ false
and-false true = refl
and-false false = refl

-- The reads of a turn at an encoded field, whatever the message.
module _ (msg : List ℕ) (pos : ℕ) (rest : List ℕ) where
  pub skips :
      {S : Type 0}
      → (s : S) (f : Field) → IsField f
      → drop pos msg ≡ encode_field f ++ rest
      → ◌>>=◌ {B = S × ℕ} (geoip_skip msg (payload_at pos f) (wire_type f)) (λ p. ok (s, p))
        ≡ ok (s, pos + length (encode_field f))
  skips s f h e = rw (
    geoip_skip-payload msg (payload_at pos f) f rest h (drop-encode_field msg pos f rest e),
    payload_end pos f,
  )

  reads_number :
      (f v : ℕ)
      → drop pos msg ≡ encode_field (varint_field f v) ++ rest
      → read_varint msg (payload_at pos (varint_field f v))
        ≡ (v, pos + length (encode_field (varint_field f v)))
  reads_number f v e =
      let x = varint_field f v in
      read_varint-encode_varint msg (payload_at pos x) v rest (drop-encode_field msg pos x rest e)
      ∙ ap (λ p. (v, p)) (payload_end pos x)

  pub reads_bytes :
      (f : ℕ) (bs : List ℕ)
      → drop pos msg ≡ encode_field (bytes_field f bs) ++ rest
      → read_bytes msg (payload_at pos (bytes_field f bs))
        ≡ (bs, pos + length (encode_field (bytes_field f bs)))
  reads_bytes f bs e =
      let x = bytes_field f bs in
      read_bytes-encode_varint msg (payload_at pos x) bs rest (drop-encode_field msg pos x rest e)
      ∙ ap (λ p. (bs, p)) (payload_end pos x)

cidr_turn-Follows : (msg : List ℕ) → Follows msg (cidr_turn msg) cidr_field
unfolding cidr_turn
cidr_turn-Follows msg pos s (varint_field f v) rest h e =
    let x = varint_field f v in
    rw (read_varint-encode_field msg pos x rest e, tag_number x, tag_wire x, and-false (f == 1))
      (elim (Bool-cases (f == 2)) [
        | inl t ↦ rw (t, reads_number msg pos rest f v e)
        | inr t ↦ rw (t, skips msg pos rest s x h e)
      ])
cidr_turn-Follows msg pos s (bytes_field f bs) rest h e =
    let x = bytes_field f bs in
    rw (read_varint-encode_field msg pos x rest e, tag_number x, tag_wire x)
      (elim (Bool-cases (f == 1)) [
        | inl t ↦ rw (t, reads_bytes msg pos rest f bs e)
        | inr t ↦ rw (t, and-false (f == 2), skips msg pos rest s x h e)
      ])
cidr_turn-Follows msg pos s (fixed64_field f bs) rest h e =
    let x = fixed64_field f bs in
    rw (
      read_varint-encode_field msg pos x rest e,
      tag_number x,
      tag_wire x,
      and-false (f == 1),
      and-false (f == 2),
      skips msg pos rest s x h e,
    )
cidr_turn-Follows msg pos s (fixed32_field f bs) rest h e =
    let x = fixed32_field f bs in
    rw (
      read_varint-encode_field msg pos x rest e,
      tag_number x,
      tag_wire x,
      and-false (f == 1),
      and-false (f == 2),
      skips msg pos rest s x h e,
    )

-- A CIDR message of any fields, in any order and with any others between, reads as its last
-- address and its last prefix: the message on the wire means what its fields mean.
pub geoip_parse_cidr-encode_fields :
    (fs : List Field)
    → All IsField fs
    → geoip_parse_cidr (encode_fields fs) ≡ read_fields cidr_field (none, none) fs
unfolding geoip_parse_cidr
geoip_parse_cidr-encode_fields fs hs =
    let msg = encode_fields fs in
    scan-encode_fields msg (cidr_turn msg) cidr_field (cidr_turn-Follows msg) (length msg) 0
      (none, none) fs hs refl (omega arith) (omega arith)

module _ (decode : List ℕ → String) where
  -- What an entry takes from a field: its country from bytes field 1, a range from bytes field 2.
  abbrev pub entry_field : Entry → Field → Result Fault Entry
  entry_field s (varint_field f v) = ok s
  entry_field s (bytes_field f bs) =
      if f == 1
      then ok (some (decode bs), s.1)
      else if f == 2
      then (geoip_parse_cidr bs >>= λ cidr. ok (with_cidr s cidr))
      else ok s
  entry_field s (fixed64_field f bs) = ok s
  entry_field s (fixed32_field f bs) = ok s

  entry_turn-Follows : (msg : List ℕ) → Follows msg (entry_turn decode msg) entry_field
  unfolding entry_turn
  entry_turn-Follows msg pos s (varint_field f v) rest h e =
      let x = varint_field f v in
      rw (
        read_varint-encode_field msg pos x rest e,
        tag_number x,
        tag_wire x,
        and-false (f == 1),
        and-false (f == 2),
        skips msg pos rest s x h e,
      )
  entry_turn-Follows msg pos s (bytes_field f bs) rest h e =
      let x = bytes_field f bs in
      rw (read_varint-encode_field msg pos x rest e, tag_number x, tag_wire x)
        (elim (Bool-cases (f == 1)) [
          | inl t ↦ rw (t, reads_bytes msg pos rest f bs e)
          | inr t ↦ rw t (elim (Bool-cases (f == 2)) [
            | inl u ↦
                rw (u, reads_bytes msg pos rest f bs e)
                  (sym (then-then (geoip_parse_cidr bs) (with_cidr s) _ _ (λ c. refl)))
            | inr u ↦ rw (u, skips msg pos rest s x h e)
          ])
        ])
  entry_turn-Follows msg pos s (fixed64_field f bs) rest h e =
      let x = fixed64_field f bs in
      rw (
        read_varint-encode_field msg pos x rest e,
        tag_number x,
        tag_wire x,
        and-false (f == 1),
        and-false (f == 2),
        skips msg pos rest s x h e,
      )
  entry_turn-Follows msg pos s (fixed32_field f bs) rest h e =
      let x = fixed32_field f bs in
      rw (
        read_varint-encode_field msg pos x rest e,
        tag_number x,
        tag_wire x,
        and-false (f == 1),
        and-false (f == 2),
        skips msg pos rest s x h e,
      )

  -- An entry of any fields reads as its country and its ranges in order; a range whose message
  -- fails stops it.
  pub geoip_parse_entry-encode_fields :
      (fs : List Field)
      → All IsField fs
      → geoip_parse_entry decode (encode_fields fs) ≡ read_fields entry_field (none, []) fs
  unfolding geoip_parse_entry
  geoip_parse_entry-encode_fields fs hs =
      let msg = encode_fields fs in
      scan-encode_fields msg (entry_turn decode msg) entry_field (entry_turn-Follows msg)
        (length msg) 0 (none, []) fs hs refl (omega arith) (omega arith)
