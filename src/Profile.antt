-- ===== src/Profile.antt =====
-- tuntop/config/models.py: `Profile`, the settings that are read from and written to a snapshot.
pub mod Snapshot
use Prim.Native.String
use tun_top.Prelude.{
  ℕ, String, Bool, true, false, ◌||◌, Option, none, some, List, [], ◌∷◌, ◌==◌, str_eq,
  if◌then◌else◌,
}

-- The settings but for the name, in the order in which `to_snapshot` writes them
pub data Field : Type 0 where
  server port dns4 dns6 dns_policy endpoint_port : Field
  bypass_ip vpn_bypass_ip proxy2_bypass_ip proxy2_port proxy2_server geoip : Field
  geoip_code geoip_target vless_over_vpn no_vpn_bypass vpn_interface log_adapter_activity : Field
  dns_guard dns_guard_exempt secret_ref : Field

unfoldable pub field_place : Field → ℕ
field_place server = 0
field_place port = 1
field_place dns4 = 2
field_place dns6 = 3
field_place dns_policy = 4
field_place endpoint_port = 5
field_place bypass_ip = 6
field_place vpn_bypass_ip = 7
field_place proxy2_bypass_ip = 8
field_place proxy2_port = 9
field_place proxy2_server = 10
field_place geoip = 11
field_place geoip_code = 12
field_place geoip_target = 13
field_place vless_over_vpn = 14
field_place no_vpn_bypass = 15
field_place vpn_interface = 16
field_place log_adapter_activity = 17
field_place dns_guard = 18
field_place dns_guard_exempt = 19
field_place secret_ref = 20

unfoldable pub same_field : Field → Field → Bool
unfolding field_place
same_field a b = field_place a == field_place b

-- What stands in a list
pub data Atom : Type 0 where
  nothing : Atom
  truth : Bool → Atom
  int : ℕ → Atom
  str : String → Atom

-- A value of a snapshot: a list of anything that is no list, or a mapping with its keys
pub data Value : Type 0 where
  atom : Atom → Value
  items : List Atom → Value
  mapping : List Atom → Value

pub record Profile : Type 0 where
  pub name : String
  pub get : Field → Value

-- `setattr(p, k, v)`
unfoldable pub set : Field → Value → Profile → Profile
unfolding same_field
set f v p = record p { get = λ g. if same_field g f then v else p.get g }

-- `_SNAPSHOT_FIELDS`, with the attribute that a key names
abbrev pub snapshot_fields : List (String × Field)
snapshot_fields =
    ("server", server)
    ∷ ("port", port)
    ∷ ("dns4", dns4)
    ∷ ("dns6", dns6)
    ∷ ("dns_policy", dns_policy)
    ∷ ("endpoint_port", endpoint_port)
    ∷ ("bypass_ip", bypass_ip)
    ∷ ("vpn_bypass_ip", vpn_bypass_ip)
    ∷ ("proxy2_bypass_ip", proxy2_bypass_ip)
    ∷ ("proxy2_port", proxy2_port)
    ∷ ("proxy2_server", proxy2_server)
    ∷ ("geoip", geoip)
    ∷ ("geoip_code", geoip_code)
    ∷ ("geoip_target", geoip_target)
    ∷ ("vless_over_vpn", vless_over_vpn)
    ∷ ("no_vpn_bypass", no_vpn_bypass)
    ∷ ("vpn_interface", vpn_interface)
    ∷ ("log_adapter_activity", log_adapter_activity)
    ∷ ("dns_guard", dns_guard)
    ∷ ("dns_guard_exempt", dns_guard_exempt)
    ∷ ("secret_ref", secret_ref)
    ∷ []

-- `_SNAPSHOT_LISTS`
unfoldable pub is_list_field : Field → Bool
is_list_field server = true
is_list_field bypass_ip = true
is_list_field vpn_bypass_ip = true
is_list_field proxy2_bypass_ip = true
is_list_field proxy2_server = true
is_list_field dns_guard_exempt = true
is_list_field _ = false

-- The settings of `Profile(name)`
unfoldable pub default_get : Field → Value
default_get server = items []
default_get port = atom (int 10808)
default_get dns4 = atom (str "8.8.8.8")
default_get dns6 = atom nothing
default_get dns_policy = atom (str "availability")
default_get endpoint_port = atom (int 443)
default_get bypass_ip = items []
default_get vpn_bypass_ip = items []
default_get proxy2_bypass_ip = items []
default_get proxy2_port = atom nothing
default_get proxy2_server = items []
default_get geoip = atom nothing
default_get geoip_code = atom (str "")
default_get geoip_target = atom nothing
default_get vless_over_vpn = atom (truth false)
default_get no_vpn_bypass = atom (truth false)
default_get vpn_interface = atom nothing
default_get log_adapter_activity = atom (truth false)
default_get dns_guard = atom (truth true)
default_get dns_guard_exempt = items []
default_get secret_ref = atom nothing

-- `cls(name=name)`
abbrev pub default_profile : String → Profile
default_profile name = record { name = name; get = default_get }

abbrev lookup : String → List (String × Field) → Option Field
lookup k [] = none
lookup k ((j, f) ∷ rest) = let later = lookup k rest in if str_eq k j then some f else later

-- The attribute that a key may set
unfoldable pub field_of : String → Option Field
field_of k = lookup k snapshot_fields

unfoldable pub set_list : Field → Value → Profile → Profile
unfolding set
set_list f (atom nothing) p = set f (items []) p
set_list f (atom (str s)) p = set f (items (str s ∷ [])) p
set_list f (atom (truth b)) p = p
set_list f (atom (int n)) p = p
set_list f (items xs) p = set f (items xs) p
set_list f (mapping keys) p = p

-- One turn of the loop over the snapshot
unfoldable pub load_field : Option Field → Value → Profile → Profile
unfolding is_list_field set_list set
load_field none v p = p
load_field (some f) v p = if is_list_field f then set_list f v p else set f v p

unfoldable pub load : List (String × Value) → Profile → Profile
unfolding field_of load_field
load [] p = p
load ((k, v) ∷ snap) p = load snap (load_field (field_of k) v p)

-- `from_snapshot(name, snap)`, on the items of `snap or {}`
unfoldable pub from_snapshot : String → List (String × Value) → Profile
unfolding load default_get
from_snapshot name snap = load snap (default_profile name)

abbrev letters : String → List Atom
letters String.[] = []
letters (String.◌∷◌ c s) = str (String.◌∷◌ c String.[]) ∷ letters s

-- `list(v)`, `none` where it raises TypeError
abbrev pub listed : Value → Option (List Atom)
listed (atom (str s)) = some (letters s)
listed (atom nothing) = none
listed (atom (truth b)) = none
listed (atom (int n)) = none
listed (items xs) = some xs
listed (mapping keys) = some keys

-- The rows of the dictionary that `to_snapshot` returns: the key, the attribute, and whether it is copied by `list`
abbrev pub rows : List (String × (Field × Bool))
rows =
    ("server", (server, true))
    ∷ ("port", (port, false))
    ∷ ("dns4", (dns4, false))
    ∷ ("dns6", (dns6, false))
    ∷ ("dns_policy", (dns_policy, false))
    ∷ ("endpoint_port", (endpoint_port, false))
    ∷ ("bypass_ip", (bypass_ip, true))
    ∷ ("vpn_bypass_ip", (vpn_bypass_ip, true))
    ∷ ("proxy2_bypass_ip", (proxy2_bypass_ip, true))
    ∷ ("proxy2_port", (proxy2_port, false))
    ∷ ("proxy2_server", (proxy2_server, true))
    ∷ ("geoip", (geoip, false))
    ∷ ("geoip_code", (geoip_code, false))
    ∷ ("geoip_target", (geoip_target, false))
    ∷ ("vless_over_vpn", (vless_over_vpn, false))
    ∷ ("no_vpn_bypass", (no_vpn_bypass, false))
    ∷ ("vpn_interface", (vpn_interface, false))
    ∷ ("log_adapter_activity", (log_adapter_activity, false))
    ∷ ("dns_guard", (dns_guard, false))
    ∷ ("dns_guard_exempt", (dns_guard_exempt, true))
    ∷ ("secret_ref", (secret_ref, false))
    ∷ []

abbrev row_value : Bool → Value → Option Value
row_value false v = some v
row_value true v = elim (listed v) [ none ↦ none | some xs ↦ some (items xs) ]

abbrev with_row :
    String → Option Value → Option (List (String × Value)) → Option (List (String × Value))
with_row k none snap = none
with_row k (some v) none = none
with_row k (some v) (some snap) = some ((k, v) ∷ snap)

unfoldable pub dump : List (String × (Field × Bool)) → Profile → Option (List (String × Value))
dump [] p = some []
dump ((k, (f, copy)) ∷ rest) p =
    let later = dump rest p in with_row k (row_value copy (p.get f)) later

-- `to_snapshot()`, `none` where it raises TypeError
unfoldable pub to_snapshot : Profile → Option (List (String × Value))
unfolding dump
to_snapshot p = dump rows p
