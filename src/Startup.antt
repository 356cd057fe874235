-- ===== src/Startup.antt =====
-- tuntop/procidentity.py, and the session marker of tuntop/core/startup_recovery.py.
pub mod Residue
pub mod Recover
pub mod Kept
pub mod Untouched
pub mod Lifetime
use tun_top.Prelude.{
  ◌≡◌, refl, ℕ, zero, suc, Bool, true, false, not, ◌&&◌, Option, none, some, List, [], ◌∷◌, ltb,
  ◌==◌, if◌then◌else◌, String, is_empty, parse_int,
}
use tun_top.Prelude.Int.{ℤ, pos, negsuc}

-- A JSON value that is no list and no object; a number with a fraction is kept as its text.
pub data Scalar : Type 0 where
  null : Scalar
  truth : Bool → Scalar
  int : ℤ → Scalar
  float : String → Scalar
  str : String → Scalar

-- `bool(x)`; a fraction that is zero is written as `0.0`.
unfoldable pub truthy : Scalar → Bool
truthy null = false
truthy (truth b) = b
truthy (int (pos zero)) = false
truthy (int (pos (suc n))) = true
truthy (int (negsuc n)) = true
truthy (float s) = true
truthy (str s) = not (is_empty s)

abbrev signed : Bool × ℕ → ℤ
signed (false, n) = pos n
signed (true, zero) = pos 0
signed (true, suc n) = negsuc n

abbrev signed_of : Option (Bool × ℕ) → Option ℤ
signed_of none = none
signed_of (some r) = some (signed r)

-- `int(x)`, `none` where it raises TypeError or ValueError. `truncate` is `int` of a fraction.
unfoldable pub as_int : (String → Option ℤ) → Scalar → Option ℤ
as_int truncate null = none
as_int truncate (truth b) = some (pos (if b then 1 else 0))
as_int truncate (int n) = some n
as_int truncate (float s) = truncate s
as_int truncate (str s) = signed_of (parse_int s)

-- `x or -1`
abbrev or_minus_one : Scalar → Scalar
or_minus_one x = if truthy x then x else int (negsuc 0)

unfoldable pub same_int : ℤ → ℤ → Bool
same_int (pos m) (pos n) = m == n
same_int (pos m) (negsuc n) = false
same_int (negsuc m) (pos n) = false
same_int (negsuc m) (negsuc n) = m == n

abbrev pub is_positive : ℤ → Bool
is_positive (pos zero) = false
is_positive (pos (suc n)) = true
is_positive (negsuc n) = false

-- What `OpenProcess` and the wait on it answer.
pub data Opened : Type 0 where
  still_running : Opened
  ended : Opened
  access_denied : Opened
  not_opened : Opened

-- The process table as the code asks it: the creation time, where it can be read, and the handle.
pub record Processes : Type 0 where
  pub start_time : ℤ → Option ℤ
  pub handle : ℤ → Opened

-- The marker's keys, `null` for one that is missing.
pub record Marker : Type 0 where
  pub pid : Scalar
  pub started : Scalar
  pub helper_pid : Scalar
  pub helper_started : Scalar

-- What the marker's path holds: nothing that reads as an object, or an object, with whether it has
-- any key at all.
pub data Stored : Type 0 where
  no_object : Stored
  empty_object : Stored
  object : Marker → Stored

abbrev pub equal_times : Option ℤ → Option ℤ → Bool
equal_times none live = false
equal_times (some recorded) none = false
equal_times (some recorded) (some live) = same_int live recorded

abbrev pub is_null : Scalar → Bool
is_null null = true
is_null s = false

abbrev pub opened_state : Opened → Option Bool
opened_state still_running = some true
opened_state ended = some false
opened_state access_denied = some true
opened_state not_opened = none

abbrev pub time_value : Option ℤ → Scalar
time_value none = null
time_value (some t) = int t

module _ (truncate : String → Option ℤ) (os : Processes) where
  -- For a pid that is an integer already.
  unfoldable pub same_process : ℤ → Scalar → Bool
  same_process pid null = false
  same_process pid recorded = equal_times (as_int truncate recorded) (os.start_time pid)

  abbrev pub live_pid : Marker → Option ℤ → Option Bool
  live_pid m none = none
  live_pid m (some pid) =
      if not (is_positive pid)
      then none
      else if not (is_null m.started) && not (same_process pid m.started)
      then some false
      else opened_state (os.handle pid)

  -- `int(marker.get("pid", -1) or -1)`
  unfoldable pub pid_of : Marker → Option ℤ
  pid_of m = as_int truncate (or_minus_one m.pid)

  -- `marker_is_live`, on Windows: `none` is "cannot tell".
  unfoldable pub marker_is_live : Stored → Option Bool
  marker_is_live no_object = none
  marker_is_live empty_object = none
  marker_is_live (object m) = live_pid m (pid_of m)

  -- `writes` says whether the file can be replaced; a failure is passed over.
  unfoldable pub write_marker : Bool → ℤ → Stored → Stored
  write_marker writes pid stored =
      if writes
      then object (record {
        pid = int pid;
        started = time_value (os.start_time pid);
        helper_pid = null;
        helper_started = null;
      })
      else stored

  abbrev with_helper : Bool → ℤ → Marker → Option ℤ → Stored
  with_helper writes helper m none = object m
  with_helper writes helper m (some pid) =
      if is_positive pid && writes
      then object
          (record m { helper_pid = int helper; helper_started = time_value (os.start_time helper) })
      else object m

  -- `int(data.get("pid", 0) or 0)`
  abbrev pid_or_zero : Marker → Option ℤ
  pid_or_zero m = if truthy m.pid then as_int truncate m.pid else some (pos 0)

  unfoldable pub record_helper : Bool → ℤ → Stored → Stored
  record_helper writes helper no_object = no_object
  record_helper writes helper empty_object = empty_object
  record_helper writes helper (object m) = with_helper writes helper m (pid_or_zero m)

-- `clear_marker`; a removal that fails is passed over.
unfoldable pub clear_marker : Bool → Stored → Stored
clear_marker removes stored = if removes then no_object else stored
