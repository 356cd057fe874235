-- ===== src/Dns.antt =====
-- tuntop/network/dns.py: the DNS messages that the fallback resolver writes and reads.
pub mod Names
pub mod Total
use Prim.Native.Char.{code}
use tun_top.Prelude.{
  ◌≡◌, refl, ℕ, zero, suc, ◌+◌, ◌-◌, ◌*◌, ◌/◌, ◌%◌, Bool, true, false, not, ◌&&◌, ◌||◌, Option,
  none, some, List, [], ◌∷◌, ◌++◌, ltb, leb, ◌==◌, if◌then◌else◌, length, take, drop, get_elem?,
  String, is_empty, str_eq, or_text,
}

-- `_dns_fallback_allowed`; a policy of None is "".
unfoldable pub dns_fallback_allowed : String → Bool → Bool
dns_fallback_allowed policy tunnel_up =
    if not (str_eq (or_text policy "availability") "strict") then true else not tunnel_up

-- `host.rstrip(".")`
unfoldable pub without_dots : String → String
without_dots String.[] = String.[]
without_dots (String.◌∷◌ c s) =
    let rest = without_dots s in
    if is_empty rest && code c == b'.' then String.[] else String.◌∷◌ c rest

abbrev onto_first : (String → String) → List String → List String
onto_first f [] = f String.[] ∷ []
onto_first f (w ∷ ws) = f w ∷ ws

-- `host.split(".")`
unfoldable pub labels : String → List String
labels String.[] = String.[] ∷ []
labels (String.◌∷◌ c s) =
    let rest = labels s in
    if code c == b'.' then String.[] ∷ rest else onto_first (λ w. String.◌∷◌ c w) rest

-- `n.to_bytes(2, "big")` of a number below 65536.
abbrev pub two_bytes : ℕ → List ℕ
two_bytes n = n / 256 % 256 ∷ n % 256 ∷ []

-- One label: its length, cut at 63, and its bytes.
abbrev pub label_bytes : List ℕ → List ℕ
label_bytes lb = (if ltb (length lb) 63 then length lb else 63) ∷ take 63 lb

-- The loop over the labels. `encode` is the ASCII, IDNA or UTF-8 form of a label.
unfoldable pub name_bytes : (String → List ℕ) → List String → List ℕ
name_bytes encode [] = []
name_bytes encode (w ∷ ws) =
    let rest = name_bytes encode ws in if is_empty w then rest else label_bytes (encode w) ++ rest

abbrev pub header : ℕ → List ℕ
header tid = tid / 256 % 256 ∷ tid % 256 ∷ 1 ∷ 0 ∷ 0 ∷ 1 ∷ 0 ∷ 0 ∷ 0 ∷ 0 ∷ 0 ∷ 0 ∷ []

-- The packet, for the transaction number that was drawn.
unfoldable pub dns_build_query : (String → List ℕ) → ℕ → String → ℕ → List ℕ
dns_build_query encode tid host qtype =
    header tid
    ++ (name_bytes encode (labels (without_dots host)) ++ (0 ∷ (two_bytes qtype ++ two_bytes 1)))

-- One turn of the loop of `skip_name`: past the end, at the closing byte, at a pointer (of a byte,
-- the two high bits), or at a label.
abbrev pub name_turn : Option ℕ → ℕ → (ℕ → Option ℕ) → Option ℕ
name_turn none p later = some p
name_turn (some ln) p later =
    if ln == 0 then some (p + 1) else if leb 192 ln then some (p + 2) else later (p + (1 + ln))

-- `none` where the fuel ends, which a count of the bytes rules out.
unfoldable pub skip_name : ℕ → List ℕ → ℕ → Option ℕ
skip_name zero dns_data p = name_turn (get_elem? dns_data p) p (λ q. none)
skip_name (suc fuel) dns_data p =
    name_turn (get_elem? dns_data p) p (λ q. skip_name fuel dns_data q)

-- `int.from_bytes(…, "big")`
unfoldable pub from_bytes : ℕ → List ℕ → ℕ
from_bytes acc [] = acc
from_bytes acc (b ∷ bs) = from_bytes (acc * 256 + b) bs

-- `data[p:p + n]`
abbrev slice : List ℕ → ℕ → ℕ → List ℕ
slice dns_data p n = take n (drop p dns_data)

abbrev number_at : List ℕ → ℕ → ℕ
number_at dns_data p = from_bytes 0 (slice dns_data p 2)

unfoldable pub same_address : List ℕ → List ℕ → Bool
same_address [] [] = true
same_address [] (y ∷ ys) = false
same_address (x ∷ xs) [] = false
same_address (x ∷ xs) (y ∷ ys) = x == y && same_address xs ys

-- `ip in out`. An address is kept as its bytes; its text is one to one with them.
unfoldable pub is_listed : List ℕ → List (List ℕ) → Bool
is_listed ip [] = false
is_listed ip (o ∷ out) = same_address ip o || is_listed ip out

abbrev listed_once : List ℕ → List (List ℕ) → List (List ℕ)
listed_once ip out = if is_listed ip out then out else out ++ ip ∷ []

abbrev pub kept : ℕ → ℕ → List ℕ → List (List ℕ) → List (List ℕ)
kept want rtype rd out =
    if rtype == 1 && (length rd == 4 && (want == 1 || want == 255))
    then listed_once rd out
    else if rtype == 28 && (length rd == 16 && (want == 28 || want == 255))
    then listed_once rd out
    else out

module _ (dns_data : List ℕ) where
  abbrev pub advanced : Option ℕ → (ℕ → Option ℕ) → Option ℕ
  advanced none later = none
  advanced (some q) later = later (q + 4)

  unfoldable pub skip_questions : ℕ → ℕ → Option ℕ
  skip_questions zero p = some p
  skip_questions (suc qd) p =
      advanced (skip_name (length dns_data) dns_data p) (λ q. skip_questions qd q)

  -- One answer behind its name.
  abbrev pub answer_turn :
      ℕ
      → List (List ℕ)
      → Option ℕ
      → (ℕ → List (List ℕ) → Option (List (List ℕ)))
      → Option (List (List ℕ))
  answer_turn want out none later = none
  answer_turn want out (some p) later =
      if ltb (length dns_data) (p + 10)
      then some out
      else later (p + 10 + number_at dns_data (p + 8)) (
          kept want (number_at dns_data p) (slice dns_data (p + 10) (number_at dns_data (p + 8)))
            out)

  unfoldable pub read_answers : ℕ → ℕ → ℕ → List (List ℕ) → Option (List (List ℕ))
  read_answers want zero p out = some out
  read_answers want (suc an) p out =
      answer_turn want out (skip_name (length dns_data) dns_data p)
        (λ q found. read_answers want an q found)

  abbrev pub behind_questions : ℕ → ℕ → Option ℕ → Option (List (List ℕ))
  behind_questions want an none = none
  behind_questions want an (some p) = read_answers want an p []

  unfoldable pub dns_parse_answers : ℕ → Option (List (List ℕ))
  dns_parse_answers want =
      if ltb (length dns_data) 12
      then some []
      else behind_questions want (number_at dns_data 6) (skip_questions (number_at dns_data 4) 12)
