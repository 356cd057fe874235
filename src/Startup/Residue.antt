-- ===== src/Startup/Residue.antt =====
-- tuntop/network/residue.py: the record of what a session left on the machine.
use tun_top.Prelude.{
  Bool, true, false, not, ◌&&◌, ◌||◌, Option, none, some, List, [], ◌∷◌, ◌++◌, if◌then◌else◌,
  String, is_empty, strip, str_eq,
}
use tun_top.Prelude.Int.{ℤ, pos}
use tun_top.Startup.{
  Scalar, null, truth, int, str, truthy, Processes, as_int, same_int, same_process, is_positive,
}

-- A value of the record: a scalar, a list, or an object of scalars.
pub data Json : Type 0 where
  scalar : Scalar → Json
  list : List Scalar → Json
  dict : List (String × Scalar) → Json

abbrev pub Record : Type 0
Record = List (String × Json)

-- The file: `none` where it is absent, cannot be read, or is no object.
abbrev pub Stored : Type 0
Stored = Option Record

unfoldable pub load : Stored → Record
load none = []
load (some r) = r

-- `data.get(key)`, the keys being different
unfoldable pub get : Record → String → Option Json
get [] key = none
get (row ∷ r) key = let later = get r key in if str_eq row.0 key then some row.1 else later

-- `data[key] = value`
unfoldable pub set : Record → String → Json → Record
set [] key value = (key, value) ∷ []
set (row ∷ r) key value =
    let later = set r key value in if str_eq row.0 key then (row.0, value) ∷ r else row ∷ later

-- `data.pop(key, None)`
unfoldable pub pop : Record → String → Record
pop [] key = []
pop (row ∷ r) key = let later = pop r key in if str_eq row.0 key then later else row ∷ later

-- The identity of the process that writes, and the clock.
pub record Owner : Type 0 where
  pub pid : ℤ
  pub started : Scalar
  pub since : Scalar

unfoldable pub stamp : Owner → Record → Record
stamp me r =
    set
      (set (set (set r "version" (scalar (int (pos 1)))) "pid" (scalar (int me.pid))) "started"
        (scalar me.started))
      "since" (scalar me.since)

abbrev pub changed : Record → String → Option Json → Record
changed r key none = pop r key
changed r key (some value) = set r key value

-- Whether each of the two attempts can write, and what the file holds when it starts: another
-- process may write between them.
pub record Attempts : Type 0 where
  pub first : Bool
  pub second : Bool
  pub between : Stored → Stored

unfoldable pub merge : Owner → Attempts → String → Option Json → Stored → Bool × Stored
merge me tries key value stored =
    if tries.first
    then (true, some (stamp me (changed (load stored) key value)))
    else if tries.second
    then (true, some (stamp me (changed (load (tries.between stored)) key value)))
    else (false, tries.between stored)

unfoldable pub member : String → List String → Bool
member s [] = false
member s (t ∷ ts) = str_eq s t || member s ts

-- `show` is `str` of a scalar that is no text.
module _ (show : Scalar → String) where
  -- `str(item or "").strip()`
  abbrev clean_text : Scalar → String
  clean_text (str s) = strip s
  clean_text null = ""
  clean_text s = if truthy s then strip (show s) else ""

  unfoldable pub unique_texts : List String → List Scalar → List String
  unique_texts out [] = out
  unique_texts out (item ∷ items) =
      unique_texts
        (if is_empty (clean_text item) || member (clean_text item) out
          then out
          else out ++ clean_text item ∷ [])
        items

  abbrev servers_in : Option Json → List String
  servers_in none = []
  servers_in (some (scalar s)) = []
  servers_in (some (list items)) = unique_texts [] items
  servers_in (some (dict d)) = []

  unfoldable pub load_doh_servers : Stored → List String
  load_doh_servers stored = servers_in (get (load stored) "doh_servers")

  -- `entry.get(key)`
  abbrev entry_get : List (String × Scalar) → String → Scalar
  entry_get [] key = null
  entry_get (row ∷ d) key = if str_eq row.0 key then row.1 else entry_get d key

  abbrev whole_metric : String → Scalar → Option (String × ℤ)
  whole_metric iface (int metric) = if is_empty iface then none else some (iface, metric)
  whole_metric iface s = none

  abbrev metric_in : Option Json → Option (String × ℤ)
  metric_in none = none
  metric_in (some (scalar s)) = none
  metric_in (some (list items)) = none
  metric_in (some (dict d)) = whole_metric (clean_text (entry_get d "iface")) (entry_get d "metric")

  unfoldable pub load_physical_metric : Stored → Option (String × ℤ)
  load_physical_metric stored = metric_in (get (load stored) "physical_metric")

unfoldable pub stripped : List String → List Scalar
stripped [] = []
stripped (s ∷ ss) =
    let rest = stripped ss in if is_empty (strip s) then rest else str (strip s) ∷ rest

abbrev pub list_or_none : List Scalar → Option Json
list_or_none [] = none
list_or_none (s ∷ ss) = some (list (s ∷ ss))

unfoldable pub save_doh_servers : Owner → Attempts → List String → Stored → Bool × Stored
save_doh_servers me tries servers stored =
    merge me tries "doh_servers" (list_or_none (stripped servers)) stored

unfoldable pub clear_doh_servers : Owner → Attempts → Stored → Stored
clear_doh_servers me tries stored = (save_doh_servers me tries [] stored).1

-- For a name of an interface that is a text and a metric that is an integer.
unfoldable pub save_physical_metric : Owner → Attempts → String → ℤ → Stored → Bool × Stored
save_physical_metric me tries iface metric stored =
    if is_empty iface
    then (false, stored)
    else merge me tries "physical_metric"
        (some (dict (("iface", str (strip iface)) ∷ ("metric", int metric) ∷ []))) stored

unfoldable pub clear_physical_metric : Owner → Attempts → Stored → Stored
clear_physical_metric me tries stored = (merge me tries "physical_metric" none stored).1

-- `running` is whether a process of that number has a handle and no exit code yet; `me` is this
-- process.
module _ (truncate : String → Option ℤ) (os : Processes) (running : ℤ → Bool) (me : ℤ) where
  abbrev alive_number : Option ℤ → Bool
  alive_number none = false
  alive_number (some pid) =
      if not (is_positive pid) then false else if same_int pid me then true else running pid

  unfoldable pub process_alive : Scalar → Bool
  process_alive (truth b) = false
  process_alive pid = alive_number (as_int truncate pid)

  abbrev is_recorded : Option Json → Bool
  is_recorded none = false
  is_recorded (some (scalar null)) = false
  is_recorded (some v) = true

  abbrev started_by : ℤ → Option Json → Bool
  started_by pid (some (scalar s)) = same_process truncate os pid s
  started_by pid v = false

  abbrev owned_by : Scalar → Record → Option ℤ → Bool
  owned_by raw r none = false
  owned_by raw r (some pid) =
      if same_int pid me
      then false
      else if is_recorded (get r "started") && not (started_by pid (get r "started"))
      then false
      else process_alive raw

  abbrev owner_in : Record → Option Json → Bool
  owner_in r (some (scalar raw)) = owned_by raw r (as_int truncate raw)
  owner_in r v = false

  unfoldable pub record_owner_alive : Record → Bool
  record_owner_alive r = owner_in r (get r "pid")
