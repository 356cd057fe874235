-- ===== src/Prelude/Text.antt =====
-- Python's text operations: `strip`, `startswith` and `partition`, character by character.
use Prim.Native.Nat.{ℕ, ◌+◌, ◌-◌, ◌*◌}
use Prim.Native.Char.{Char, code}
use Prim.Native.String.{String}
use mathlib.Core.Path.{◌≡◌, refl}
use mathlib.Core.Logic.{dite}
use text.Mathlib.Text.{◌==◌ as str_eq}
use text.Mathlib.TextEquality.{eq_iff}
use mathlib.Core.Bool.{Bool-discrete, Bool, true, false, ◌&&◌, ◌||◌}
use mathlib.Core.Option
use mathlib.Core.Option.{Option, none, some}
use tun_top.Prelude.Tests.{leb, ◌==◌, if◌then◌else◌}

-- `str.isspace` of one character.
unfoldable pub is_space : ℕ → Bool
is_space c =
    (leb 9 c && leb c 13)
    || (leb 28 c && leb c 32)
    || c == 133
    || c == 160
    || c == 5760
    || (leb 8192 c && leb c 8202)
    || c == 8232
    || c == 8233
    || c == 8239
    || c == 8287
    || c == 12288

-- `s.lstrip()`
unfoldable pub lstrip : String → String
unfolding is_space
lstrip String.[] = String.[]
lstrip (String.◌∷◌ c s) = if is_space (code c) then lstrip s else String.◌∷◌ c s

-- A character kept before the stripped rest: dropped too if only spaces follow.
abbrev keep_head : Char → String → String
keep_head c String.[] = if is_space (code c) then String.[] else String.◌∷◌ c String.[]
keep_head c (String.◌∷◌ d s) = String.◌∷◌ c (String.◌∷◌ d s)

-- `s.rstrip()`
unfoldable pub rstrip : String → String
unfolding is_space
rstrip String.[] = String.[]
rstrip (String.◌∷◌ c s) = keep_head c (rstrip s)

-- `s.strip()`
unfoldable pub strip : String → String
unfolding lstrip rstrip
strip s = rstrip (lstrip s)

-- `not s`
abbrev pub is_empty : String → Bool
is_empty String.[] = true
is_empty (String.◌∷◌ c s) = false

-- `a or b` at texts
abbrev pub or_text : String → String → String
or_text String.[] b = b
or_text (String.◌∷◌ c s) b = String.◌∷◌ c s

-- The rest of `s` behind the prefix `p`, if `s` begins with it.
unfoldable pub strip_prefix : String → String → Option String
strip_prefix String.[] s = some s
strip_prefix (String.◌∷◌ c p) String.[] = none
strip_prefix (String.◌∷◌ c p) (String.◌∷◌ d s) = if code c == code d then strip_prefix p s else none

-- `s.startswith(p)`
unfoldable pub starts_with : String → String → Bool
unfolding strip_prefix
starts_with s p = elim (strip_prefix p s) [ none ↦ false | some r ↦ true ]

-- The tail of `s.partition(sep)`: what follows the first occurrence of `sep`, if there is one.
unfoldable pub partition_tail : String → String → Option String
unfolding strip_prefix
partition_tail sep String.[] = strip_prefix sep String.[]
partition_tail sep (String.◌∷◌ c s) =
    let later = partition_tail sep s in
    elim (strip_prefix sep (String.◌∷◌ c s)) [ some r ↦ some r | none ↦ later ]

strip_test : strip "  a b  " ≡ "a b"
unfolding strip
strip_test = refl

-- `chr(c) in s`
unfoldable pub contains_code : ℕ → String → Bool
contains_code k String.[] = false
contains_code k (String.◌∷◌ c s) = code c == k || contains_code k s

-- `s.rsplit(chr(k), 1)[1]`: what follows the last occurrence; `none` where the index is an error.
unfoldable pub after_last : ℕ → String → Option String
after_last k String.[] = none
after_last k (String.◌∷◌ c s) =
    let rest = after_last k s in
    elim rest [ some r ↦ some r | none ↦ if code c == k then some s else none ]

-- The digits of `int(s)`: ASCII digits, with one underscore allowed between two of them.
abbrev is_digit : ℕ → Bool
is_digit c = leb b'0' c && leb c b'9'

unfoldable pub digits_value : Bool → ℕ → String → Option ℕ
digits_value after_digit acc String.[] = if after_digit then some acc else none
digits_value after_digit acc (String.◌∷◌ c s) =
    let next = digits_value true (acc * 10 + (code c - b'0')) s in
    let skip = digits_value false acc s in
    if is_digit (code c) then next else if code c == b'_' && after_digit then skip else none

abbrev signed : String → Option (Bool × ℕ)
signed String.[] = none
signed (String.◌∷◌ c s) =
    if code c == b'-'
    then Option.map (λ n. (true, n)) (digits_value false 0 s)
    else if code c == b'+'
    then Option.map (λ n. (false, n)) (digits_value false 0 s)
    else Option.map (λ n. (false, n)) (digits_value false 0 (String.◌∷◌ c s))

-- `int(s)`: the sign (`true` for a minus) and the magnitude; `none` where it raises ValueError.
unfoldable pub parse_int : String → Option (Bool × ℕ)
unfolding strip digits_value
parse_int s = signed (strip s)

int_test : parse_int " 1_28 " ≡ some (false, 128)
unfolding parse_int
int_test = refl

unfoldable pub String-discrete : Discrete String
String-discrete s t =
    dite (Bool-discrete (str_eq s t) true) (λ same. yes ((eq_iff s t).0 same))
      (λ differ. no (λ p. differ ((eq_iff s t).1 p)))
