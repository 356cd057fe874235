-- ===== src/Dns/Names.antt =====
-- The names in DNS messages (tuntop/network/dns.py): what is written is skipped whole.
use tun_top.Prelude.{
  ◌≡◌, refl, sym, ◌∙◌, ap, ℕ, zero, suc, ◌+◌, ◌≤◌, false, Option, some, List, [], ◌∷◌, ◌++◌, ltb,
  leb, ◌==◌, if◌then◌else◌, Bool-cases, inl, inr, length, length-append, append_assoc, take, drop,
  get_elem?, String, is_empty, arith,
}
use tun_top.Dns.{
  without_dots, labels, two_bytes, label_bytes, name_bytes, dns_build_query, name_turn, skip_name,
  skip_questions, advanced,
}

get_elem?-append :
    (pre : List ℕ) (b : ℕ) (rest : List ℕ) → get_elem? (pre ++ b ∷ rest) (length pre) ≡ some b
get_elem?-append [] b rest = refl
get_elem?-append (x ∷ pre) b rest = get_elem?-append pre b rest

length-take :
    (n : ℕ) (xs : List ℕ) → length (take n xs) ≡ (if ltb (length xs) n then length xs else n)
length-take zero xs = ground arith
length-take (suc n) [] = ground arith
length-take (suc n) (x ∷ xs) = ground (arith, length-take n xs)

-- A length byte of a label is neither the closing byte nor a pointer.
turn_label :
    (k p : ℕ) (later : ℕ → Option ℕ)
    → 1 ≤ k
    → k ≤ 63
    → name_turn (some k) p later ≡ later (p + (1 + k))
turn_label k p later low high =
    let open_name : k == 0 ≡ false = ground (arith, low) in
    let plain : leb 192 k ≡ false = ground (arith, high) in rw (open_name, plain)

capped : (n : ℕ) → 1 ≤ n → (1 ≤ (if ltb n 63 then n else 63)) × ((if ltb n 63 then n else 63) ≤ 63)
capped n h = (ground (arith, h), ground (arith, h))

length-label_bytes :
    (pre lb : List ℕ)
    → length (pre ++ label_bytes lb)
      ≡ length pre + (1 + (if ltb (length lb) 63 then length lb else 63))
length-label_bytes pre lb =
    length-append pre (label_bytes lb)
    ∙ ap (λ n. length pre + suc n) (length-take 63 lb)
    ∙ omega arith

skip_label :
    (fuel : ℕ) (pre lb rest tail : List ℕ)
    → 1 ≤ length lb
    → skip_name (suc fuel) (pre ++ ((label_bytes lb ++ rest) ++ (0 ∷ tail))) (length pre)
      ≡ skip_name fuel
          ((pre ++ label_bytes lb) ++ (rest ++ (0 ∷ tail)))
          (length (pre ++ label_bytes lb))
unfolding skip_name
skip_label fuel pre lb rest tail h =
    let k = if ltb (length lb) 63 then length lb else 63 in
    let whole = pre ++ ((label_bytes lb ++ rest) ++ (0 ∷ tail)) in
    let same : whole ≡ (pre ++ label_bytes lb) ++ (rest ++ (0 ∷ tail)) =
      ap (λ l. pre ++ l) (append_assoc (label_bytes lb) rest (0 ∷ tail))
      ∙ sym (append_assoc pre (label_bytes lb) (rest ++ (0 ∷ tail))) in
    let (low, high) = capped (length lb) h in
    ap (λ o. name_turn o (length pre) (λ q. skip_name fuel whole q))
      (get_elem?-append pre k ((take 63 lb ++ rest) ++ (0 ∷ tail)))
    ∙ (turn_label k (length pre) (λ q. skip_name fuel whole q) low high
        ∙ (ap (λ q. skip_name fuel whole q) (sym (length-label_bytes pre lb))
            ∙ ap (λ l. skip_name fuel l (length (pre ++ label_bytes lb))) same))

skip_end :
    (fuel : ℕ) (pre tail : List ℕ)
    → skip_name fuel (pre ++ (0 ∷ tail)) (length pre) ≡ some (length pre + 1)
unfolding skip_name
skip_end zero pre tail = rw (get_elem?-append pre 0 tail) refl
skip_end (suc fuel) pre tail = rw (get_elem?-append pre 0 tail) refl

module _ (encode : String → List ℕ) where
  -- A label that is there has a byte.
  abbrev pub HasBytes : Type 0
  HasBytes = (w : String) → is_empty w ≡ false → 1 ≤ length (encode w)

  -- The turns that the name of some labels takes.
  abbrev SkipsAll : List ℕ → Type 0
  SkipsAll name =
      (fuel : ℕ) (pre tail : List ℕ)
      → length name ≤ fuel
      → skip_name fuel (pre ++ (name ++ (0 ∷ tail))) (length pre)
        ≡ some (length pre + (length name + 1))

  label-SkipsAll :
      (lb rest : List ℕ) → 1 ≤ length lb → SkipsAll rest → SkipsAll (label_bytes lb ++ rest)
  label-SkipsAll lb rest h later zero pre tail enough = absurd (ground (arith, enough))
  label-SkipsAll lb rest h later (suc fuel) pre tail enough =
      skip_label fuel pre lb rest tail h
      ∙ (later fuel (pre ++ label_bytes lb) tail
            (omega (arith, enough, length-append (take 63 lb) rest))
          ∙ ap some
              (omega (arith, length-append pre (label_bytes lb), length-append (take 63 lb) rest)))

  name_bytes-SkipsAll : HasBytes → (ws : List String) → SkipsAll (name_bytes encode ws)
  unfolding name_bytes
  name_bytes-SkipsAll h [] = λ fuel pre tail enough. skip_end fuel pre tail
  name_bytes-SkipsAll h (w ∷ ws) =
      let later = name_bytes-SkipsAll h ws in
      elim (Bool-cases (is_empty w)) [
        | inl a ↦ rw a later
        | inr a ↦ rw a (label-SkipsAll (encode w) (name_bytes encode ws) (h w a) later)
      ]

  advanced_past :
      (whole : List ℕ) (o : Option ℕ) (q : ℕ)
      → o ≡ some q
      → advanced whole o (λ r. some r) ≡ some (q + 4)
  advanced_past whole o q e = rw e refl

  -- The name of a question, which follows a header of twelve bytes.
  question_name :
      HasBytes
      → (ws : List String) (head four answers whole : List ℕ) → length head ≡ 12
      → whole ≡ head ++ ((name_bytes encode ws ++ (0 ∷ four)) ++ answers)
      → skip_name (length whole) whole 12 ≡ some (12 + (length (name_bytes encode ws) + 1))
  question_name h ws head four answers whole twelve e =
      let name = name_bytes encode ws in
      let shape : whole ≡ head ++ (name ++ (0 ∷ (four ++ answers))) =
        e ∙ ap (λ l. head ++ l) (append_assoc name (0 ∷ four) answers) in
      let size : length whole ≡ length head + (length name + suc (length (four ++ answers))) =
        ap length shape
        ∙ omega (
          arith,
          length-append head (name ++ (0 ∷ (four ++ answers))),
          length-append name (0 ∷ (four ++ answers)),
        ) in
      ap (λ l. skip_name (length whole) l 12) shape
      ∙ (ap (λ n. skip_name (length whole) (head ++ (name ++ (0 ∷ (four ++ answers)))) n)
            (sym twelve)
          ∙ (name_bytes-SkipsAll h ws (length whole) head (four ++ answers) (omega (arith, size))
              ∙ ap (λ n. some (n + (length name + 1))) twelve))

  -- In a reply with the question of the query, behind any header of twelve bytes, the reader finds
  -- the answers right behind that question, whatever they are.
  pub skip_questions-dns_build_query :
      HasBytes
      → (tid : ℕ) (host : String) (qtype : ℕ) (head answers : List ℕ) → length head ≡ 12
      → (let question = drop 12 (dns_build_query encode tid host qtype) in
          skip_questions (head ++ (question ++ answers)) 1 12 ≡ some (12 + length question))
  unfolding dns_build_query skip_questions
  skip_questions-dns_build_query h tid host qtype head answers twelve =
      let ws = labels (without_dots host) in
      let four = two_bytes qtype ++ two_bytes 1 in
      let whole = head ++ ((name_bytes encode ws ++ (0 ∷ four)) ++ answers) in
      advanced_past whole (skip_name (length whole) whole 12)
        (12 + (length (name_bytes encode ws) + 1))
        (question_name h ws head four answers whole twelve refl)
      ∙ ap some (omega (arith, length-append (name_bytes encode ws) (0 ∷ four)))
