-- ===== src/Sweeps/Outcome.antt =====
-- tuntop/network/routeops/results.py: the result of a route operation and of a sweep.
use tun_top.Prelude.{ℕ, Bool, true, false, Option, none, some, ltb, String, strip, or_text}

pub record RouteResult (A : Type 0) : Type 0 where
  pub ok : Bool
  pub err : Option String
  pub value : Option A

-- What a platform lookup does: it returns, it leaves by `sys.exit` with a code, or it raises.
pub data Called (A : Type 0) : Type 0 where
  returned : A → Called A
  exited : String → Called A
  raised : String → Called A

-- `unwrap` of a call; the exception is passed on as the second case. A code of None is "".
pub data Unwrapped (A : Type 0) : Type 0 where
  result : RouteResult A → Unwrapped A
  passed_on : String → Unwrapped A

unfoldable pub unwrap : {A : Type 0} → Called A → Unwrapped A
unwrap (returned a) = result (record { ok = true; err = none; value = some a })
unwrap (exited exit_code) =
    result (record { ok = false; err = some (or_text (strip exit_code) "failed"); value = none })
unwrap (raised e) = passed_on e

pub record SweepResult : Type 0 where
  pub found : ℕ
  pub removed : ℕ
  pub ok : Bool
  pub err : String

unfoldable pub clean : ℕ → ℕ → SweepResult
clean found removed = record { found = found; removed = removed; ok = true; err = "" }

unfoldable pub failed : ℕ → String → SweepResult
failed found reason = record { found = found; removed = 0; ok = false; err = reason }

-- `__bool__`
unfoldable pub removed_any : SweepResult → Bool
removed_any r = ltb 0 r.removed
