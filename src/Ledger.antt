-- ===== src/Ledger.antt =====
-- tuntop/network/routeops/ledger.py: the registry of the routes that one process installed.
pub mod Queries
pub mod Updates
use mathlib.Core.Option
use tun_top.Prelude.{
  ℕ, zero, suc, String, Bool, true, false, not, ◌&&◌, ◌||◌, Option, none, some, List, [], ◌∷◌, ◌++◌,
  map, ◌==◌, if◌then◌else◌, str_eq, length,
}
use tun_top.Prelude.Int.{ℤ, pos, negsuc}
use tun_top.Prelude.Results.{Result, ok, err, ◌>>=◌}

-- The identity of a route: `(fam, dest, iface, gw)`
pub record RouteKey : Type 0 where
  pub fam : String
  pub dest : String
  pub iface : String
  pub gw : String

pub record RouteReceipt : Type 0 where
  pub key : RouteKey
  pub open key use *
  pub metric : ℕ
  pub store : String
  pub tag : String

pub record RouteLedger : Type 0 where
  pub ledger_tag : String
  pub entries : List RouteReceipt

pub data LedgerError : Type 0 where
  value_error type_error : LedgerError

-- A legacy tuple: its fields in order, each a text or `None`.
abbrev pub Item : Type 0
Item = List (Option String)

-- `str(x)`
abbrev str : Option String → String
str none = "None"
str (some s) = s

-- `str(gw or "")`
abbrev str_or_empty : Option String → String
str_or_empty none = ""
str_or_empty (some s) = s

abbrev key_of : Option String → Option String → Option String → Option String → RouteKey
key_of fam dest iface gw = record {
  fam = str fam;
  dest = str dest;
  iface = str iface;
  gw = str_or_empty gw;
}

-- `_unpack4(item)`: fields behind the fourth are ignored.
abbrev pub unpack4 : Item → Result LedgerError RouteKey
unpack4 (fam ∷ dest ∷ iface ∷ gw ∷ rest) = ok (key_of fam dest iface gw)
unpack4 _ = err value_error

-- `fam, dest, iface, gw = item`: exactly four fields
abbrev pub unpack_exact : Item → Result LedgerError RouteKey
unpack_exact (fam ∷ dest ∷ iface ∷ gw ∷ []) = ok (key_of fam dest iface gw)
unpack_exact _ = err value_error

-- `a == b` on keys
unfoldable pub same_key : RouteKey → RouteKey → Bool
same_key a b =
    str_eq a.fam b.fam && str_eq a.dest b.dest && str_eq a.iface b.iface && str_eq a.gw b.gw

-- What a method returns or raises, and the ledger that it leaves
abbrev pub Outcome : Type 0
Outcome = Result LedgerError (Unit {0}) × RouteLedger

abbrev receipt : RouteKey → ℕ → String → RouteLedger → RouteReceipt
receipt key metric store l = record {
  key = key;
  metric = if metric == 0 then 1 else metric;
  store = store;
  tag = l.ledger_tag;
}

abbrev append_key : Result LedgerError RouteKey → ℕ → String → RouteLedger → Outcome
append_key (err e) metric store l = (err e, l)
append_key (ok key) metric store l =
    (ok tt, record l { entries = l.entries ++ receipt key metric store l ∷ [] })

-- `append(item, metric, store)`
unfoldable pub append : Item → ℕ → String → RouteLedger → Outcome
append item metric store l = append_key (unpack_exact item) metric store l

-- The entries without the first one of the key; `none` where there is none.
unfoldable pub remove_first : RouteKey → List RouteReceipt → Option (List RouteReceipt)
remove_first key [] = none
remove_first key (r ∷ rs) =
    let rest = remove_first key rs in
    if same_key r.key key then some rs else Option.map (λ l. r ∷ l) rest

abbrev removed : Option (List RouteReceipt) → RouteLedger → Outcome
removed none l = (err value_error, l)
removed (some entries) l = (ok tt, record l { entries = entries })

abbrev remove_key : Result LedgerError RouteKey → RouteLedger → Outcome
remove_key (err e) l = (err e, l)
remove_key (ok key) l = removed (remove_first key l.entries) l

-- `remove(item)`
unfoldable pub remove : Item → RouteLedger → Outcome
unfolding remove_first
remove item l = remove_key (unpack4 item) l

abbrev extend_after : Outcome → (RouteLedger → Outcome) → Outcome
extend_after (ok u, l) next = next l
extend_after (err e, l) next = (err e, l)

-- `extend(items, metric, store)`: an item that raises ends it, and those before it stay.
unfoldable pub extend : List Item → ℕ → String → RouteLedger → Outcome
unfolding append
extend [] metric store l = (ok tt, l)
extend (item ∷ items) metric store l =
    extend_after (append item metric store l) (extend items metric store)

-- The place of the first entry of the key
unfoldable pub find_index : RouteKey → List RouteReceipt → Option ℕ
find_index key [] = none
find_index key (r ∷ rs) =
    let rest = find_index key rs in if same_key r.key key then some 0 else Option.map suc rest

abbrev pub from_option : {A : Type 0} → Option A → Result LedgerError A
from_option none = err value_error
from_option (some a) = ok a

abbrev index_key : Result LedgerError RouteKey → RouteLedger → Result LedgerError ℕ
index_key (err e) l = err e
index_key (ok key) l = from_option (find_index key l.entries)

-- `index(item)`
unfoldable pub index : Item → RouteLedger → Result LedgerError ℕ
unfolding find_index
index item l = index_key (unpack4 item) l

abbrev found : Result LedgerError ℕ → Bool
found (ok i) = true
found (err e) = false

-- `item in ledger`
unfoldable pub contains : Item → RouteLedger → Bool
unfolding index
contains item l = found (index item l)

-- `ledger[key] = value`: an index, or a slice with its start, stop and step
pub data Subscript : Type 0 where
  at_index : ℤ → Subscript
  slice : Option ℤ → Option ℤ → Option ℤ → Subscript

abbrev is_int : ℤ → ℤ → Bool
is_int (pos m) (pos n) = m == n
is_int (negsuc m) (negsuc n) = m == n
is_int _ _ = false

-- `x in (None, n)`
abbrev pub none_or : ℤ → Option ℤ → Bool
none_or n none = true
none_or n (some k) = is_int k n

abbrev cleared : RouteLedger → RouteLedger
cleared l = record l { entries = [] }

-- `__setitem__(key, value)`
unfoldable pub set_item : Subscript → List Item → RouteLedger → Outcome
unfolding extend
set_item (at_index i) items l = (err type_error, l)
set_item (slice start stop step) items l =
    if none_or (pos 0) start && none_or (negsuc 0) stop && none_or (pos 1) step
    then extend items 1 "active" (cleared l)
    else (err type_error, l)

-- `clear()`
unfoldable pub clear : RouteLedger → RouteLedger
clear l = cleared l

-- `iter(ledger)`
abbrev pub keys : RouteLedger → List RouteKey
keys l = map (λ r. r.key) l.entries

-- `len(ledger)`, and `bool(ledger)`
abbrev pub size : RouteLedger → ℕ
size l = length l.entries

abbrev pub is_nonempty : RouteLedger → Bool
is_nonempty l = not (size l == 0)

unfoldable pub find_metric : RouteKey → ℕ → List RouteReceipt → ℕ
find_metric key default [] = default
find_metric key default (r ∷ rs) =
    let rest = find_metric key default rs in if same_key r.key key then r.metric else rest

abbrev metric_key : Result LedgerError RouteKey → ℕ → RouteLedger → Result LedgerError ℕ
metric_key (err e) default l = err e
metric_key (ok key) default l = ok (find_metric key default l.entries)

-- `metric_of(item, default)`
unfoldable pub metric_of : Item → ℕ → RouteLedger → Result LedgerError ℕ
unfolding find_metric
metric_of item default l = metric_key (unpack4 item) default l
