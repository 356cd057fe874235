-- ===== src/Tests/Leak.antt =====
-- tuntop/network/leak_probe.py and tuntop/monitor/leak.py at concrete inputs.
use tun_top.Prelude.{◌≡◌, refl, true, none, some, [], ◌∷◌, if◌then◌else◌, str_eq}
use tun_top.Leak.{
  Addresses, Leg, leak, same_exit, v6_side, other_answers, same_network, any_rides, as_check_result,
  verdict,
}
use tun_top.Leak.Verdict.{one_rides, as_check_result-verdict}

-- "six" is an IPv6 address, and "exit" and "pool" are of one network.
abbrev two_families : Addresses
two_families = record {
  network = λ s. if str_eq s "pool" then some "exit" else some s;
  version = λ s. if str_eq s "six" then some 6 else some 4;
}

abbrev exit_leg : Leg
exit_leg = record { ip = some "exit"; ips = [] }

leak_test :
    verdict two_families (record { ip = some "isp"; ips = "isp" ∷ "" ∷ [] }) exit_leg none ≡ leak
unfolding verdict same_network any_rides other_answers
leak_test = refl

bypass_test :
    verdict two_families (record { ip = some "isp"; ips = "isp" ∷ "pool" ∷ [] }) exit_leg none
    ≡ same_exit
unfolding verdict same_network any_rides other_answers
bypass_test = refl

side_test :
    verdict two_families (record { ip = some "six"; ips = [] }) exit_leg (some "pool") ≡ v6_side
unfolding verdict same_network any_rides other_answers
side_test = refl

as_check_result-verdict_example :
    as_check_result
      (verdict two_families (record { ip = some "isp"; ips = "isp" ∷ "pool" ∷ [] }) exit_leg none)
    ≡ true
unfolding same_network one_rides
as_check_result-verdict_example =
    as_check_result-verdict two_families "isp" "exit" ("isp" ∷ "pool" ∷ []) [] none
