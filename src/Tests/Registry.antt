-- ===== src/Tests/Registry.antt =====
-- tuntop/network/routeops/ledger.py at concrete inputs.
use tun_top.Prelude.{suc, ◌≡◌, ◌≢◌, refl, none, some, [], ◌∷◌, if◌then◌else◌}
use tun_top.Prelude.Int.{pos, negsuc}
use tun_top.Prelude.Results.{ok, err}
use tun_top.Ledger.{
  RouteKey, RouteLedger, Item, value_error, same_key, append, remove, set_item, slice, extend, keys,
}
use tun_top.Ledger.Updates.{IsWhole, count, remove_lem, keys-set_item}

abbrev dns : Item
dns = some "v4" ∷ some "1.1.1.1/32" ∷ some "Wi-Fi" ∷ some "192.168.1.1" ∷ []

abbrev lan : Item
lan = some "v4" ∷ some "10.0.0.0/8" ∷ some "Wi-Fi" ∷ none ∷ []

abbrev dns_key : RouteKey
dns_key = record { fam = "v4"; dest = "1.1.1.1/32"; iface = "Wi-Fi"; gw = "192.168.1.1" }

abbrev lan_key : RouteKey
lan_key = record { fam = "v4"; dest = "10.0.0.0/8"; iface = "Wi-Fi"; gw = "" }

abbrev none_yet : RouteLedger
none_yet = record { ledger_tag = "bypass"; entries = [] }

abbrev two : RouteLedger
unfolding append
two = (append dns 1 "active" (append lan 10 "active" none_yet).1).1

two_test : keys two ≡ lan_key ∷ dns_key ∷ []
unfolding two append
two_test = refl

remove_lem_example :
    (count dns_key two.entries ≡ 0 → remove dns two ≡ (err value_error, two))
    × (count dns_key two.entries ≢ 0
        → ((remove dns two).0 ≡ ok tt)
          × ((remove dns two).1.ledger_tag ≡ two.ledger_tag)
          × ((j : RouteKey)
              → count j two.entries ≡ (
                  if same_key dns_key j
                  then suc (count j (remove dns two).1.entries)
                  else count j (remove dns two).1.entries)))
remove_lem_example = remove_lem dns two dns_key refl

keys-set_item_example :
    IsWhole (slice (some (pos 0)) (some (negsuc 0)) none)
    × (keys (set_item (slice (some (pos 0)) (some (negsuc 0)) none) (lan ∷ []) two).1
        ≡ lan_key ∷ [])
unfolding set_item extend append
keys-set_item_example =
    keys-set_item (slice (some (pos 0)) (some (negsuc 0)) none) (lan ∷ []) two refl
