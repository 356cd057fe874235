-- ===== src/Updates.antt =====
-- tuntop/config/updates.py: the version of a release and the lines of checksums.txt.
pub mod Release
pub mod Archive
pub mod Order
pub mod Guard
pub mod Staged
pub mod Newer
use Prim.Native.Char.{Char, code}
use tun_top.Prelude.{
  ◌≡◌, refl, ℕ, zero, suc, ◌+◌, Bool, true, false, ◌&&◌, ◌||◌, Option, none, some, List, [], ◌∷◌,
  ltb, leb, ◌==◌, if◌then◌else◌, String, is_empty, str_eq, strip,
}
use tun_top.Prelude.Text.{is_space, lstrip, digits_value}
use tun_top.Prelude.Results.{Result, ok, err, ◌>>=◌}

-- The reasons of an `UpdateError`.
pub data UpdateError : Type 0 where
  bad_tag : String → UpdateError
  bad_url : String → UpdateError
  no_answer : UpdateError
  http_error : ℕ → UpdateError
  http_status : ℕ → UpdateError
  response_too_large : UpdateError
  bad_metadata : UpdateError
  draft_release : UpdateError
  asset_missing : UpdateError
  foreign_asset : UpdateError
  no_checksum_line : UpdateError
  checksum_mismatch : UpdateError
  not_pe : UpdateError
  no_pe_header : UpdateError
  not_x64 : UpdateError
  absolute_member : String → UpdateError
  escaping_member : String → UpdateError
  symlink_member : String → UpdateError
  bad_archive : UpdateError
  no_exe : UpdateError
  not_replaced : UpdateError

abbrev onto_head : Char → List String → List String
onto_head c [] = String.◌∷◌ c String.[] ∷ []
onto_head c (w ∷ ws) = String.◌∷◌ c w ∷ ws

-- `s.split(chr(k))`
unfoldable pub split_on : ℕ → String → List String
split_on k String.[] = String.[] ∷ []
split_on k (String.◌∷◌ c s) =
    let rest = split_on k s in if code c == k then String.[] ∷ rest else onto_head c rest

abbrev is_digit : ℕ → Bool
is_digit c = leb b'0' c && leb c b'9'

-- `\d+`, of ASCII digits
unfoldable pub all_digits : String → Bool
all_digits String.[] = true
all_digits (String.◌∷◌ c s) = is_digit (code c) && all_digits s

abbrev is_number : String → Bool
is_number String.[] = false
is_number (String.◌∷◌ c s) = all_digits (String.◌∷◌ c s)

abbrev three_numbers : List String → Bool
three_numbers [] = false
three_numbers (a ∷ []) = false
three_numbers (a ∷ b ∷ []) = false
three_numbers (a ∷ b ∷ c ∷ []) = is_number a && is_number b && is_number c
three_numbers (a ∷ b ∷ c ∷ d ∷ rest) = false

-- `_VERSION_RE.match(v)`
unfoldable pub is_version : String → Bool
is_version v = three_numbers (split_on b'.' v)

-- `v[1:] if v[:1].lower() == "v" else v`
abbrev without_v : String → String
without_v String.[] = String.[]
without_v (String.◌∷◌ c s) = if code c == b'v' || code c == b'V' then s else String.◌∷◌ c s

unfoldable pub parse_version : String → Result UpdateError String
parse_version tag =
    let v = without_v (strip tag) in if is_version v then ok v else err (bad_tag tag)

-- `int(x)` of a run of digits.
abbrev number_of : String → ℕ
number_of s = elim (digits_value false 0 s) [ some n ↦ n | none ↦ 0 ]

abbrev numbers_of : List String → List ℕ
numbers_of [] = []
numbers_of (s ∷ ss) = number_of s ∷ numbers_of ss

-- `tuple(int(x) for x in v.split("."))`
unfoldable pub version_key : String → List ℕ
version_key v = numbers_of (split_on b'.' v)

-- `ka > kb` of two tuples.
unfoldable pub key_gt : List ℕ → List ℕ → Bool
key_gt [] kb = false
key_gt (a ∷ ka) [] = true
key_gt (a ∷ ka) (b ∷ kb) = let rest = key_gt ka kb in if a == b then rest else ltb b a

unfoldable pub version_gt : String → String → Bool
version_gt a b = key_gt (version_key a) (version_key b)

-- The pieces of a text between the characters that `cut` takes, as `(first, rest)`.
unfoldable pub pieces : (ℕ → Bool) → String → String × List String
pieces cut String.[] = (String.[], [])
pieces cut (String.◌∷◌ c s) =
    let r = pieces cut s in if cut (code c) then (String.[], r.0 ∷ r.1) else (String.◌∷◌ c r.0, r.1)

abbrev non_empty : List String → List String
non_empty [] = []
non_empty (s ∷ ss) = if is_empty s then non_empty ss else s ∷ non_empty ss

-- `line.split()`
unfoldable pub words : String → List String
words s = let r = pieces is_space s in non_empty (r.0 ∷ r.1)

abbrev is_break : ℕ → Bool
is_break c = (leb 10 c && leb c 13) || (leb 28 c && leb c 30) || c == 133 || c == 8232 || c == 8233

-- `text.splitlines()`, with an empty line more between a carriage return and a line feed: the
-- empty lines are passed over.
unfoldable pub splitlines : String → List String
splitlines s = let r = pieces is_break s in r.0 ∷ r.1

abbrev is_hex_code : ℕ → Bool
is_hex_code c =
    (leb b'0' c && leb c b'9') || (leb b'a' c && leb c b'f') || (leb b'A' c && leb c b'F')

-- `len(s) == n and all(c in "0123…" for c in s)`
unfoldable pub is_hex_of : ℕ → String → Bool
is_hex_of n String.[] = n == 0
is_hex_of zero (String.◌∷◌ c s) = false
is_hex_of (suc n) (String.◌∷◌ c s) = is_hex_code (code c) && is_hex_of n s

-- `s.lstrip("*")`
unfoldable pub lstrip_star : String → String
lstrip_star String.[] = String.[]
lstrip_star (String.◌∷◌ c s) =
    let rest = lstrip_star s in if code c == b'*' then rest else String.◌∷◌ c s

-- The first `n` characters and the rest.
abbrev cut_at : ℕ → String → String × String
cut_at zero s = (String.[], s)
cut_at (suc n) String.[] = (String.[], String.[])
cut_at (suc n) (String.◌∷◌ c s) = let r = cut_at n s in (String.◌∷◌ c r.0, r.1)

abbrev begins_with_space : String → Bool
begins_with_space String.[] = false
begins_with_space (String.◌∷◌ c s) = is_space (code c)

-- A name and its digest, the digest as it is written.
abbrev pub Line : Type 0
Line = String × String

-- `_SHA256_RE.match(line)` and its groups.
abbrev pub by_pattern : String → Option Line
by_pattern line =
    let r = cut_at 64 line in
    if is_hex_of 64 r.0 && begins_with_space r.1 then some (lstrip_star (strip r.1), r.0) else none

abbrev pub by_words : String → List String → Option Line
by_words line [] = by_pattern line
by_words line (digest ∷ []) = by_pattern line
by_words line (digest ∷ name ∷ more) =
    if is_hex_of 64 digest then some (lstrip_star name, digest) else by_pattern line

-- What a line adds, a blank one nothing.
unfoldable pub checksum_line : String → Option Line
checksum_line raw =
    let line = strip raw in if is_empty line then none else by_words line (words line)

-- `out[name] = digest`, the last line of a name counting: the newest stands in front.
abbrev pub Checksums : Type 0
Checksums = List Line

module _ (lower : String → String) where
  abbrev add_line : Checksums → Option Line → Checksums
  add_line out none = out
  add_line out (some line) = (line.0, lower line.1) ∷ out

  unfoldable pub add_lines : Checksums → List String → Checksums
  add_lines out [] = out
  add_lines out (line ∷ lines) = add_lines (add_line out (checksum_line line)) lines

  -- The text is `data.decode("utf-8", "replace")`.
  unfoldable pub parse_checksums : String → Checksums
  parse_checksums text = add_lines [] (splitlines text)

-- `sums.get(name)`
unfoldable pub digest_of : Checksums → String → Option String
digest_of [] name = none
digest_of (line ∷ lines) name =
    let rest = digest_of lines name in if str_eq line.0 name then some line.1 else rest

version_test :
    (parse_version " v1.0.51 " ≡ ok "1.0.51")
    × (version_gt "1.10.0" "1.9.9" ≡ true)
    × (parse_version "1.0" ≡ err (bad_tag "1.0"))
unfolding parse_version version_gt is_version version_key key_gt split_on all_digits strip
    digits_value
version_test = (refl, refl, refl)
