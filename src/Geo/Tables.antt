-- ===== src/Geo/Tables.antt =====
-- The pure decoder of tuntop/geo/geoip.py: it ends, its reports change nothing, and what it reads.
use tun_top.Prelude.{
  ◌≡◌, refl, sym, subst, ◌∙◌, ap, ℕ, zero, suc, ◌/◌, ◌%◌, ◌≤◌, Bool, ◌&&◌, Option, List, [], ltb,
  leb, ◌==◌, if◌then◌else◌, length, String, Bool-cases, inl, inr, All, arith,
}
use tun_top.Prelude.Results.{Result, ok, err, ◌>>=◌}
use tun_top.Geo.{Fault, bad_wire, out_of_turns, scan, read_varint, read_bytes, geoip_parse_entry}
use tun_top.Geo.Advance.{
  Moves, Ends, geoip_skip-Moves, then-Moves, scan-Ends, read_varint-later, read_bytes-pos,
  geoip_parse_entry-Ends,
}
use tun_top.Geo.Encode.{
  Field, varint_field, bytes_field, fixed64_field, fixed32_field, IsField, encode_fields,
  tag_number, tag_wire, read_varint-encode_field,
}
use tun_top.Geo.Fields.{
  read_fields, scan-encode_fields, Follows, skips, reads_bytes, and-false, then-then,
}
use tun_top.Geo.Decode.{Table, Scan, report, add_entry, table_turn, pure_turn, geoip_decode_pure}

module _ (decode : List ℕ → String) (lower : String → String) (code : Option String) where
  table_turn-Moves :
      (raw : List ℕ) (pos : ℕ) (t : Table)
      → suc pos ≤ length raw
      → Moves pos (table_turn decode lower code raw pos t)
  unfolding table_turn
  table_turn-Moves raw pos s h =
      let tag = read_varint-later raw pos h in
      let p = (read_varint raw pos).1 in
      let later : suc pos ≤ (read_bytes raw p).1 = omega (arith, tag, read_bytes-pos raw p) in
      let t = (read_varint raw pos).0 in
      elim (Bool-cases (t / 8 == 1 && t % 8 == 2)) [
        | inl a ↦ rw a (
            then-Moves pos (geoip_parse_entry decode (read_bytes raw p).0) _
              (geoip_parse_entry-Ends decode (read_bytes raw p).0) (λ c. later))
        | inr a ↦ rw a (geoip_skip-Moves raw pos p (t % 8) s tag)
      ]

  table_of_report :
      (watched : Bool) (n pos : ℕ) (s : Scan) → (report watched n pos s).table ≡ s.table
  unfolding report
  table_of_report watched n pos s = elim (Bool-cases (watched && leb s.next_report pos)) [
    | inl a ↦ rw a
    | inr a ↦ rw a
  ]

  -- A turn with a report, then the rest of the loop, against the turn and the rest without.
  forget-then :
      (x : Result Fault (Table × ℕ)) (g : Table × ℕ → Scan × ℕ) (k : Scan × ℕ → Result Fault Scan)
      (k' : Table × ℕ → Result Fault Table)
      → ((r : Table × ℕ) → (k (g r) >>= λ s. ok s.table) ≡ k' r)
      → (((x >>= λ r. ok (g r)) >>= k) >>= λ s. ok s.table) ≡ (x >>= k')
  forget-then (ok r) g k k' h = h r
  forget-then (err e) g k k' h = refl

  -- The loop with reports, its reports forgotten, is the loop without.
  scan-table :
      (watched : Bool) (raw : List ℕ) (fuel pos : ℕ) (s : Scan)
      → (scan (pure_turn decode lower watched code raw) fuel (length raw) pos s >>= λ r. ok r.table)
        ≡ scan (table_turn decode lower code raw) fuel (length raw) pos s.table
  unfolding scan pure_turn
  scan-table watched raw zero pos s = elim (Bool-cases (ltb pos (length raw))) [
    | inl a ↦ rw a
    | inr a ↦ rw a
  ]
  scan-table watched raw (suc fuel) pos s = elim (Bool-cases (ltb pos (length raw))) [
    | inl a ↦ rw a (
        forget-then (table_turn decode lower code raw pos s.table) _ _ _ (λ r.
          scan-table watched raw fuel r.1 _
          ∙ ap (scan (table_turn decode lower code raw) fuel (length raw) r.1) (
              table_of_report watched (length raw) r.1
                (record { table = r.0; next_report = s.next_report; reports = s.reports }))))
    | inr a ↦ rw a
  ]

  forget-last :
      (x : Result Fault Scan) (f : Scan → List (ℕ × ℕ))
      → (◌>>=◌ {A = Table × List (ℕ × ℕ)} (x >>= λ s. ok (s.table, f s)) (λ r. ok r.0))
        ≡ (x >>= λ s. ok s.table)
  forget-last (ok s) f = refl
  forget-last (err e) f = refl

  -- The table of `geoip_decode_pure`, whether it reports or not.
  pub decode-scan :
      (watched : Bool) (raw : List ℕ)
      → (geoip_decode_pure decode lower watched code raw >>= λ r. ok r.0)
        ≡ scan (table_turn decode lower code raw) (length raw) (length raw) 0 []
  unfolding geoip_decode_pure
  decode-scan watched raw =
      forget-last _ _
      ∙ scan-table watched raw (length raw) 0 (record { table = []; next_report = 0; reports = [] })

  forget-Ends :
      {S T : Type 0} → (x : Result Fault S) (f : S → T) → Ends (x >>= λ s. ok (f s)) → Ends x
  forget-Ends (ok s) f h = tt
  forget-Ends (err (bad_wire w)) f h = h
  forget-Ends (err out_of_turns) f h = h

  -- Reading a whole file ends, whatever its bytes are: its loop, and those of the entries and
  -- ranges inside, have enough turns.
  pub geoip_decode_pure-Ends :
      (watched : Bool) (raw : List ℕ) → Ends (geoip_decode_pure decode lower watched code raw)
  geoip_decode_pure-Ends watched raw = forget-Ends _ _ (
      subst Ends (sym (decode-scan watched raw))
        (scan-Ends _ (length raw) (table_turn-Moves raw) (length raw) 0 [] (omega arith)))

  -- What the table takes from a field: an entry from bytes field 1.
  abbrev pub table_field : Table → Field → Result Fault Table
  table_field t (varint_field f v) = ok t
  table_field t (bytes_field f bs) =
      if f == 1
      then (geoip_parse_entry decode bs >>= λ entry. ok (add_entry lower code t entry))
      else ok t
  table_field t (fixed64_field f bs) = ok t
  table_field t (fixed32_field f bs) = ok t

  table_turn-Follows : (raw : List ℕ) → Follows raw (table_turn decode lower code raw) table_field
  unfolding table_turn
  table_turn-Follows raw pos s (varint_field f v) rest h e =
      let x = varint_field f v in
      rw (
        read_varint-encode_field raw pos x rest e,
        tag_number x,
        tag_wire x,
        and-false (f == 1),
        skips raw pos rest s x h e,
      )
  table_turn-Follows raw pos s (bytes_field f bs) rest h e =
      let x = bytes_field f bs in
      rw (read_varint-encode_field raw pos x rest e, tag_number x, tag_wire x)
        (elim (Bool-cases (f == 1)) [
          | inl t ↦
              rw (t, reads_bytes raw pos rest f bs e)
                (sym (
                  then-then (geoip_parse_entry decode bs) (add_entry lower code s) _ _ (λ c. refl)))
          | inr t ↦ rw (t, skips raw pos rest s x h e)
        ])
  table_turn-Follows raw pos s (fixed64_field f bs) rest h e =
      let x = fixed64_field f bs in
      rw (
        read_varint-encode_field raw pos x rest e,
        tag_number x,
        tag_wire x,
        and-false (f == 1),
        skips raw pos rest s x h e,
      )
  table_turn-Follows raw pos s (fixed32_field f bs) rest h e =
      let x = fixed32_field f bs in
      rw (
        read_varint-encode_field raw pos x rest e,
        tag_number x,
        tag_wire x,
        and-false (f == 1),
        skips raw pos rest s x h e,
      )

  pub decode-encode_fields :
      (watched : Bool) (fs : List Field)
      → All IsField fs
      → (geoip_decode_pure decode lower watched code (encode_fields fs) >>= λ r. ok r.0)
        ≡ read_fields table_field [] fs
  decode-encode_fields watched fs hs =
      let raw = encode_fields fs in
      decode-scan watched raw
      ∙ scan-encode_fields raw (table_turn decode lower code raw) table_field
          (table_turn-Follows raw) (length raw) 0 [] fs hs refl (omega arith) (omega arith)
