-- ===== src/Sweeps/Literal.antt =====
-- The literals that tuntop/psshell.py quotes, as PowerShell reads them.
use Prim.Native.Char.{Char, code}
use Prim.Native.String.append
use mathlib.Core.Option
use tun_top.Prelude.{
  ◌≡◌, refl, sym, ◌∙◌, ap, inl, inr, ℕ, Bool, true, false, ◌||◌, Option, none, some, ◌==◌,
  if◌then◌else◌, Bool-cases, String, ◌<>◌, arith,
}
use tun_top.Sweeps.Quote.{doubled, ps_quote, lit}

-- A character that PowerShell takes as a single quote.
abbrev pub is_quote : ℕ → Bool
is_quote k = k == 39 || (k == 8216 || (k == 8217 || (k == 8218 || k == 8219)))

abbrev pushed : Char → Option (String × String) → Option (String × String)
pushed c none = none
pushed c (some r) = some (String.◌∷◌ c r.0, r.1)

-- A literal behind its opening quote, and what follows it: two quotes stand for the second of
-- them, one quote ends the literal.
unfoldable pub read_literal : String → Option (String × String)
read_literal String.[] = none
read_literal (String.◌∷◌ c String.[]) =
    if is_quote (code c) then some (String.[], String.[]) else none
read_literal (String.◌∷◌ c (String.◌∷◌ d s)) =
    let past = read_literal s in
    let next = read_literal (String.◌∷◌ d s) in
    if is_quote (code c)
    then if is_quote (code d) then pushed d past else some (String.[], String.◌∷◌ d s)
    else pushed c next

unfoldable pub read_quoted : String → Option (String × String)
read_quoted String.[] = none
read_quoted (String.◌∷◌ c s) = if is_quote (code c) then read_literal s else none

abbrev pub begins_quoted : String → Bool
begins_quoted String.[] = false
begins_quoted (String.◌∷◌ c s) = is_quote (code c)

quoted_step :
    (c : Char) (s : String)
    → ps_quote (String.◌∷◌ c s) ≡ (
        if is_quote (code c)
        then String.◌∷◌ c (String.◌∷◌ c (ps_quote s))
        else String.◌∷◌ c (ps_quote s))
unfolding ps_quote doubled
quoted_step c s = elim (Bool-cases (code c == 39)) [
  | inl a ↦
      let b : code c == 8216 ≡ false = ground (arith, a) in
      let d : code c == 8217 ≡ false = ground (arith, a) in
      let e : code c == 8218 ≡ false = ground (arith, a) in
      let f : code c == 8219 ≡ false = ground (arith, a) in rw (a, b, d, e, f)
  | inr a ↦ elim (Bool-cases (code c == 8216)) [
    | inl b ↦
        let d : code c == 8217 ≡ false = ground (arith, b) in
        let e : code c == 8218 ≡ false = ground (arith, b) in
        let f : code c == 8219 ≡ false = ground (arith, b) in rw (a, b, d, e, f)
    | inr b ↦ elim (Bool-cases (code c == 8217)) [
      | inl d ↦
          let e : code c == 8218 ≡ false = ground (arith, d) in
          let f : code c == 8219 ≡ false = ground (arith, d) in rw (a, b, d, e, f)
      | inr d ↦ elim (Bool-cases (code c == 8218)) [
        | inl e ↦ let f : code c == 8219 ≡ false = ground (arith, e) in rw (a, b, d, e, f)
        | inr e ↦ elim (Bool-cases (code c == 8219)) [
          | inl f ↦ rw (a, b, d, e, f)
          | inr f ↦ rw (a, b, d, e, f)
        ]
      ]
    ]
  ]
]

append_assoc : (a b c : String) → (a <> b) <> c ≡ a <> (b <> c)
append_assoc String.[] b c = ap (λ s. s <> c) (append.nil b) ∙ sym (append.nil (b <> c))
append_assoc (String.◌∷◌ x a) b c =
    ap (λ s. s <> c) (append.cons x a b)
    ∙ (append.cons x (a <> b) c
        ∙ (ap (λ s. String.◌∷◌ x s) (append_assoc a b c) ∙ sym (append.cons x a (b <> c))))

behind_quote : (s : String) → "'" <> s ≡ String.◌∷◌ "'" s
behind_quote s = append.cons "'" "" s ∙ ap (λ t. String.◌∷◌ "'" t) (append.nil s)

-- The closing quote in front of the rest.
closed :
    (rest : String)
    → begins_quoted rest ≡ false
    → read_literal (String.◌∷◌ "'" rest) ≡ some (String.[], rest)
unfolding read_literal
closed String.[] h = refl
closed (String.◌∷◌ c s) h = rw h

-- A character that is no quote, in front of a text that reads.
pushed_plain :
    (c : Char) (s : String) (r : String × String)
    → is_quote (code c) ≡ false
    → read_literal s ≡ some r
    → read_literal (String.◌∷◌ c s) ≡ some (String.◌∷◌ c r.0, r.1)
unfolding read_literal
pushed_plain c String.[] r h e = absurd (Option.none-ne-some r e)
pushed_plain c (String.◌∷◌ d s) r h e = rw (h, e)

-- A quote that is doubled.
pushed_pair :
    (c : Char) (s : String) (r : String × String)
    → is_quote (code c) ≡ true
    → read_literal s ≡ some r
    → read_literal (String.◌∷◌ c (String.◌∷◌ c s)) ≡ some (String.◌∷◌ c r.0, r.1)
unfolding read_literal
pushed_pair c s r h e = rw (h, e)

quoted_nil : ps_quote String.[] ≡ String.[]
unfolding ps_quote doubled
quoted_nil = refl

-- What a quoted text reads as, in front of a tail that does not begin with a quote.
read_quotation :
    (s rest : String)
    → begins_quoted rest ≡ false
    → read_literal (ps_quote s <> ("'" <> rest)) ≡ some (s, rest)
read_quotation String.[] rest h =
    ap (λ q. read_literal (q <> ("'" <> rest))) quoted_nil
    ∙ (ap read_literal (append.nil ("'" <> rest) ∙ behind_quote rest) ∙ closed rest h)
read_quotation (String.◌∷◌ c s) rest h =
    let p = ps_quote s in
    let t = "'" <> rest in
    let later = read_quotation s rest h in
    elim (Bool-cases (is_quote (code c))) [
      | inl a ↦
          ap (λ q. read_literal (q <> t)) (quoted_step c s ∙ rw a refl)
          ∙ (ap read_literal
                (append.cons c (String.◌∷◌ c p) t ∙ ap (λ q. String.◌∷◌ c q) (append.cons c p t))
              ∙ pushed_pair c (p <> t) (s, rest) a later)
      | inr a ↦
          ap (λ q. read_literal (q <> t)) (quoted_step c s ∙ rw a refl)
          ∙ (ap read_literal (append.cons c p t) ∙ pushed_plain c (p <> t) (s, rest) a later)
    ]

-- A text that is quoted for a PowerShell statement reads back as itself, whatever quotes of any of
-- the five kinds it has, and the literal ends where it was meant to: the statement behind it is
-- read unchanged, if it does not begin with a quote.
pub read_quoted-lit :
    (s rest : String) → begins_quoted rest ≡ false → read_quoted (lit s <> rest) ≡ some (s, rest)
unfolding lit read_quoted
read_quoted-lit s rest h =
    ap read_quoted (
      append_assoc "'" (ps_quote s <> "'") rest
      ∙ (ap (λ t. "'" <> t) (append_assoc (ps_quote s) "'" rest)
          ∙ behind_quote (ps_quote s <> ("'" <> rest))))
    ∙ read_quotation s rest h
