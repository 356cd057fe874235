-- ===== src/Dns/Total.antt =====
-- The reader of DNS answers (tuntop/network/dns.py) ends on every packet.
use tun_top.Prelude.{
  ◌≡◌, refl, ℕ, zero, suc, ◌+◌, ◌≤◌, Bool, true, false, Option, none, some, List, [], ◌∷◌, ltb, leb,
  ◌==◌, if◌then◌else◌, length, get_elem?, arith,
}
use tun_top.Dns.{
  name_turn, skip_name, advanced, skip_questions, answer_turn, read_answers, behind_questions,
  dns_parse_answers,
}

abbrev pub Ends : {A : Type 0} → Option A → Type 0
Ends {A} o = (a : A) × (o ≡ some a)

if-Ends : {A : Type 0} (b : Bool) (x y : Option A) → Ends x → Ends y → Ends (if b then x else y)
if-Ends true x y h i = h
if-Ends false x y h i = i

name_turn-Ends :
    (o : Option ℕ) (p : ℕ) (later : ℕ → Option ℕ)
    → ((ln : ℕ) → Ends (later (p + (1 + ln))))
    → Ends (name_turn o p later)
name_turn-Ends none p later h = (p, refl)
name_turn-Ends (some ln) p later h =
    if-Ends (ln == 0) (some (p + 1)) (if leb 192 ln then some (p + 2) else later (p + (1 + ln)))
      (p + 1, refl)
      (if-Ends (leb 192 ln) (some (p + 2)) (later (p + (1 + ln))) (p + 2, refl) (h ln))

beyond : (xs : List ℕ) (p : ℕ) → length xs ≤ p → get_elem? xs p ≡ none
beyond [] p h = refl
beyond (x ∷ xs) zero h = absurd (ground (arith, h))
beyond (x ∷ xs) (suc p) h = beyond xs p (ground (arith, h))

-- As many turns as the packet has bytes are enough to skip a name.
pub skip_name-Ends :
    (fuel : ℕ) (dns_data : List ℕ) (p : ℕ)
    → length dns_data ≤ fuel + p
    → Ends (skip_name fuel dns_data p)
unfolding skip_name
skip_name-Ends zero dns_data p h = (p, rw (beyond dns_data p (ground (arith, h))))
skip_name-Ends (suc fuel) dns_data p h =
    name_turn-Ends (get_elem? dns_data p) p (λ q. skip_name fuel dns_data q)
      (λ ln. skip_name-Ends fuel dns_data (p + (1 + ln)) (omega (arith, h)))

module _ (dns_data : List ℕ) where
  skip-Ends : (p : ℕ) → Ends (skip_name (length dns_data) dns_data p)
  skip-Ends p = skip_name-Ends (length dns_data) dns_data p (omega arith)

  advanced-Ends :
      (o : Option ℕ) (later : ℕ → Option ℕ)
      → Ends o
      → ((q : ℕ) → Ends (later q))
      → Ends (advanced dns_data o later)
  advanced-Ends o later (q, e) h = rw e (h (q + 4))

  skip_questions-Ends : (qd p : ℕ) → Ends (skip_questions dns_data qd p)
  unfolding skip_questions
  skip_questions-Ends zero p = (p, refl)
  skip_questions-Ends (suc qd) p =
      advanced-Ends (skip_name (length dns_data) dns_data p) (λ q. skip_questions dns_data qd q)
        (skip-Ends p) (λ q. skip_questions-Ends qd q)

  answer_turn-Ends :
      (want : ℕ) (out : List (List ℕ)) (o : Option ℕ)
      (later : ℕ → List (List ℕ) → Option (List (List ℕ)))
      → Ends o
      → ((q : ℕ) (found : List (List ℕ)) → Ends (later q found))
      → Ends (answer_turn dns_data want out o later)
  answer_turn-Ends want out o later (q, e) h =
      rw e (if-Ends (ltb (length dns_data) (q + 10)) (some out) _ (out, refl) (h _ _))

  read_answers-Ends :
      (want an p : ℕ) (out : List (List ℕ)) → Ends (read_answers dns_data want an p out)
  unfolding read_answers
  read_answers-Ends want zero p out = (out, refl)
  read_answers-Ends want (suc an) p out =
      answer_turn-Ends want out (skip_name (length dns_data) dns_data p)
        (λ q found. read_answers dns_data want an q found) (skip-Ends p)
        (λ q found. read_answers-Ends want an q found)

  behind-Ends : (want an : ℕ) (o : Option ℕ) → Ends o → Ends (behind_questions dns_data want an o)
  behind-Ends want an o (p, e) = rw e (read_answers-Ends want an p [])

  -- The reader of a DNS reply returns on every packet, however the counts, the labels and the
  -- pointers in it are broken: a name never takes more turns than the packet has bytes.
  pub dns_parse_answers-Ends : (want : ℕ) → Ends (dns_parse_answers dns_data want)
  unfolding dns_parse_answers
  dns_parse_answers-Ends want =
      if-Ends (ltb (length dns_data) 12) (some []) _ ([], refl)
        (behind-Ends want _ _ (skip_questions-Ends _ 12))
