-- ===== src/Health.antt =====
-- tuntop/monitor/health.py: the severity of a failing probe and the verdict on a scan.
pub mod Tables
pub mod Longest
pub mod Verdict
use Prim.Native.String
use tun_top.Prelude.{
  ℕ, zero, suc, ◌+◌, String, Bool, true, false, not, ◌&&◌, ◌||◌, Option, none, some, List, [], ◌∷◌,
  ltb, leb, ◌==◌, if◌then◌else◌, starts_with,
}
use tun_top.Health.Tables.{Severity, critical, warning, info, severity_table, fix_suggestions}

unfoldable pub len : String → ℕ
len String.[] = 0
len (String.◌∷◌ c s) = suc (len s)

module _ {A : Type 0} where
  -- One entry put into a list by descending length, in front of the shorter ones
  unfoldable pub insert : String × A → List (String × A) → List (String × A)
  unfolding len
  insert x [] = x ∷ []
  insert x (y ∷ ys) =
      let later = insert x ys in if leb (len y.0) (len x.0) then x ∷ y ∷ ys else y ∷ later

  -- `sorted(table, key=len, reverse=True)`, which keeps the order of keys of one length
  unfoldable pub by_length : List (String × A) → List (String × A)
  unfolding insert
  by_length [] = []
  by_length (x ∷ xs) = insert x (by_length xs)

  -- The first entry of which the key begins the name
  unfoldable pub first_match : String → List (String × A) → Option (String × A)
  first_match name [] = none
  first_match name (x ∷ xs) =
      let later = first_match name xs in if starts_with name x.0 then some x else later

abbrev value_or {ℓ} : {A : Type ℓ} → A → Option (String × A) → A
value_or d none = d
value_or d (some x) = x.1

-- A probe of a scan
pub record Probe : Type 0 where
  pub name : String
  pub ok : Bool

pub record Tally : Type 0 where
  pub criticals : ℕ
  pub warnings : ℕ
  pub infos : ℕ

pub data Status : Type 0 where
  unknown unhealthy degraded healthy : Status

abbrev one_more : Severity → Tally → Tally
one_more critical t = record t { criticals = t.criticals + 1 }
one_more warning t = record t { warnings = t.warnings + 1 }
one_more info t = record t { infos = t.infos + 1 }

-- `passed`
unfoldable pub passed : List Probe → ℕ
passed [] = 0
passed (p ∷ ps) = let rest = passed ps in if p.ok then suc rest else rest

-- `lower` is `str.lower`.
module _ (lower : String → String) where
  -- `severity(name)`
  unfoldable pub severity : String → Severity
  unfolding by_length first_match
  severity name = value_or warning (first_match (lower name) (by_length severity_table))

  -- `_suggest(name)`
  unfoldable pub suggest : String → String
  unfolding by_length first_match
  suggest name = value_or "" (first_match (lower name) (by_length fix_suggestions))

  -- `counts(results)`
  unfoldable pub counts : List Probe → Tally
  counts [] = record { criticals = 0; warnings = 0; infos = 0 }
  counts (p ∷ ps) = let rest = counts ps in if p.ok then rest else one_more (severity p.name) rest

  abbrev pub judged : Tally → ℕ → Status
  judged t n =
      if ltb 0 t.criticals
      then unhealthy
      else if ltb 0 t.warnings || ltb 0 t.infos
      then (if ltb 0 n then degraded else unhealthy)
      else healthy

  -- `overall_status(results)`
  unfoldable pub overall_status : List Probe → Status
  unfolding counts passed
  overall_status [] = unknown
  overall_status (p ∷ ps) = judged (counts (p ∷ ps)) (passed (p ∷ ps))
