-- ===== src/Geo/Advance.antt =====
-- Every turn of the reader in tuntop/geo/geoip.py moves on, so that its loops end.
use tun_top.Prelude.{
  ℕ, zero, suc, ◌+◌, ◌/◌, ◌%◌, ◌*◌, ◌^◌, ◌≤◌, ◌&&◌, none, List, [], ◌∷◌, ltb, leb, ◌==◌, Bool-cases,
  length, drop, drop-step, String, arith, inl, inr,
}
use tun_top.Prelude.Results.{Result, ok, err, ◌>>=◌}
use tun_top.Geo.{
  Fault, bad_wire, out_of_turns, varint_from, read_varint, read_bytes, geoip_skip, scan, Cidr,
  cidr_turn, geoip_parse_cidr, Entry, entry_turn, geoip_parse_entry,
}

-- A turn that returns a later position, or fails on the message and not for want of fuel.
unfoldable pub Moves : {S : Type 0} → ℕ → Result Fault (S × ℕ) → Type 0
Moves pos (ok r) = suc pos ≤ r.1
Moves pos (err (bad_wire w)) = Unit
Moves pos (err out_of_turns) = ⊥

pub ok-Moves : {S : Type 0} → (pos : ℕ) (r : S × ℕ) → suc pos ≤ r.1 → Moves pos (ok r)
unfolding Moves
ok-Moves pos r h = h

pub varint_from-pos : (xs : List ℕ) (r s pos : ℕ) → pos ≤ (varint_from xs r s pos).1
unfolding varint_from
varint_from-pos [] r s pos = omega arith
varint_from-pos (b ∷ xs) r s pos =
    let later = varint_from-pos xs (r + b % 128 * 2 ^ s) (s + 7) (suc pos) in
    elim (Bool-cases (leb 128 b)) [
      | inl e ↦ rw e (omega (arith, later))
      | inr e ↦ rw e (omega arith)
    ]

pub read_varint-pos : (buf : List ℕ) (pos : ℕ) → pos ≤ (read_varint buf pos).1
unfolding read_varint
read_varint-pos buf pos = varint_from-pos (drop pos buf) 0 0 pos

-- Inside the buffer a number takes at least one byte.
pub read_varint-later :
    (buf : List ℕ) (pos : ℕ) → suc pos ≤ length buf → suc pos ≤ (read_varint buf pos).1
unfolding read_varint varint_from
read_varint-later buf pos h =
    let (b, e) = drop-step buf pos h in
    rw e (elim (Bool-cases (leb 128 b)) [
      | inl t ↦ rw t (varint_from-pos (drop (suc pos) buf) _ 7 (suc pos))
      | inr f ↦ rw f (omega arith)
    ])

pub read_bytes-pos : (buf : List ℕ) (pos : ℕ) → pos ≤ (read_bytes buf pos).1
unfolding read_bytes
read_bytes-pos buf pos = omega (arith, read_varint-pos buf pos)

pub geoip_skip-Moves :
    {S : Type 0}
    → (buf : List ℕ) (low pos wire : ℕ) (s : S) → suc low ≤ pos
    → Moves low (geoip_skip buf pos wire >>= λ p. ok (s, p))
unfolding Moves geoip_skip
geoip_skip-Moves buf low pos wire s h = elim (Bool-cases (wire == 0)) [
  | inl a ↦ rw a (omega (arith, h, read_varint-pos buf pos))
  | inr a ↦ rw a (elim (Bool-cases (wire == 1)) [
    | inl b ↦ rw b (omega (arith, h))
    | inr b ↦ rw b (elim (Bool-cases (wire == 2)) [
      | inl c ↦ rw c (omega (arith, h, read_bytes-pos buf pos))
      | inr c ↦
          rw c (elim (Bool-cases (wire == 5)) [ inl d ↦ rw d (omega (arith, h)) | inr d ↦ rw d tt ])
    ])
  ])
]

-- A result that is not for want of fuel.
abbrev pub Ends : {S : Type 0} → Result Fault S → Type 0
Ends (ok s) = Unit
Ends (err (bad_wire w)) = Unit
Ends (err out_of_turns) = ⊥

pub then-Moves :
    {S T : Type 0}
    → (low : ℕ) (x : Result Fault S) (f : S → T × ℕ) → Ends x
    → ((s : S) → suc low ≤ (f s).1)
    → Moves low (x >>= λ s. ok (f s))
unfolding Moves
then-Moves low (ok s) f e h = h s
then-Moves low (err (bad_wire w)) f e h = tt
then-Moves low (err out_of_turns) f e h = e

pub bind-Ends :
    {S T : Type 0}
    → (pos : ℕ) (x : Result Fault (S × ℕ)) (f : S × ℕ → Result Fault T) → Moves pos x
    → ((r : S × ℕ) → suc pos ≤ r.1 → Ends (f r))
    → Ends (x >>= f)
unfolding Moves
bind-Ends pos (ok r) f m h = h r m
bind-Ends pos (err (bad_wire w)) f m h = tt
bind-Ends pos (err out_of_turns) f m h = m

-- A loop whose turns move ends, with as much fuel as there are bytes ahead.
pub scan-Ends :
    {S : Type 0}
    → (body : ℕ → S → Result Fault (S × ℕ)) (n : ℕ)
    → ((pos : ℕ) (s : S) → suc pos ≤ n → Moves pos (body pos s))
    → (fuel pos : ℕ) (s : S) → n ≤ fuel + pos
    → Ends (scan body fuel n pos s)
unfolding scan
scan-Ends body n moves zero pos s h = elim (Bool-cases (ltb pos n)) [
  | inl t ↦ absurd (ground arith)
  | inr f ↦ rw f tt
]
scan-Ends body n moves (suc fuel) pos s h = elim (Bool-cases (ltb pos n)) [
  | inl t ↦ rw t (
      bind-Ends pos (body pos s) _ (moves pos s (ground arith))
        (λ r later. scan-Ends body n moves fuel r.1 r.0 (omega (arith, h, later))))
  | inr f ↦ rw f tt
]

cidr_turn-Moves :
    (msg : List ℕ) (pos : ℕ) (s : Cidr) → suc pos ≤ length msg → Moves pos (cidr_turn msg pos s)
unfolding cidr_turn
cidr_turn-Moves msg pos s h =
    let tag = read_varint-later msg pos h in
    let p = (read_varint msg pos).1 in
    let text : suc pos ≤ (read_bytes msg p).1 = omega (arith, tag, read_bytes-pos msg p) in
    let number : suc pos ≤ (read_varint msg p).1 = omega (arith, tag, read_varint-pos msg p) in
    let t = (read_varint msg pos).0 in
    elim (Bool-cases (t / 8 == 1 && t % 8 == 2)) [
      | inl a ↦ rw a (ok-Moves pos _ text)
      | inr a ↦ rw a (elim (Bool-cases (t / 8 == 2 && t % 8 == 0)) [
        | inl b ↦ rw b (ok-Moves pos _ number)
        | inr b ↦ rw b (geoip_skip-Moves msg pos p (t % 8) s tag)
      ])
    ]

-- Reading a CIDR message ends: its loop has enough turns for any bytes.
pub geoip_parse_cidr-Ends : (msg : List ℕ) → Ends (geoip_parse_cidr msg)
unfolding geoip_parse_cidr
geoip_parse_cidr-Ends msg =
    scan-Ends (cidr_turn msg) (length msg) (cidr_turn-Moves msg) (length msg) 0 (none, none)
      (omega arith)

module _ (decode : List ℕ → String) where
  entry_turn-Moves :
      (msg : List ℕ) (pos : ℕ) (s : Entry)
      → suc pos ≤ length msg
      → Moves pos (entry_turn decode msg pos s)
  unfolding entry_turn
  entry_turn-Moves msg pos s h =
      let tag = read_varint-later msg pos h in
      let p = (read_varint msg pos).1 in
      let later : suc pos ≤ (read_bytes msg p).1 = omega (arith, tag, read_bytes-pos msg p) in
      let t = (read_varint msg pos).0 in
      elim (Bool-cases (t / 8 == 1 && t % 8 == 2)) [
        | inl a ↦ rw a (ok-Moves pos _ later)
        | inr a ↦ rw a (elim (Bool-cases (t / 8 == 2 && t % 8 == 2)) [
          | inl b ↦ rw b (
              then-Moves pos (geoip_parse_cidr (read_bytes msg p).0) _
                (geoip_parse_cidr-Ends (read_bytes msg p).0) (λ c. later))
          | inr b ↦ rw b (geoip_skip-Moves msg pos p (t % 8) s tag)
        ])
      ]

  -- Reading an entry ends, and so does every message inside it.
  pub geoip_parse_entry-Ends : (msg : List ℕ) → Ends (geoip_parse_entry decode msg)
  unfolding geoip_parse_entry
  geoip_parse_entry-Ends msg =
      scan-Ends (entry_turn decode msg) (length msg) (entry_turn-Moves msg) (length msg) 0
        (none, []) (omega arith)
