-- ===== src/Tests/Sweeps.antt =====
-- tuntop/network/routeops and tuntop/psshell.py at concrete inputs.
use mathlib.Core.Option
use tun_top.Prelude.{
  ◌==◌, ◌≡◌, ◌≢◌, ◌↔◌, refl, sym, subst, inl, inr, Bool, true, false, Option, none, some, List, [],
  ◌∷◌, if◌then◌else◌, String, ◌<>◌, strip, str_eq, contains_code,
}
use tun_top.Prelude.Text.{lstrip, rstrip, is_space}
use tun_top.Geo.Ranges.{Network, min_prefixlen, mask_bytes}
use tun_top.Sweeps.{
  Row, Victim, member, victims_of, widened, canon_cidr, canon_cidrs, lan_victims,
  lan_victim_deletes, is_sweepable_geo_cidr, geo_victims,
}
use tun_top.Sweeps.Special.{
  NetLib, v4, special_network, is_special_purpose, special_v4, same_bytes, subnet_of, in_table,
}
use tun_top.Sweeps.Quote.{doubled, ps_quote, lit, nonblank, host_stmts_in, host_route_stmts}
use tun_top.Sweeps.Chosen.{
  In, IsCanonical, IsGeoVictim, IsLanVictim, geo_victims_iff, lan_victims_iff,
}
use tun_top.Sweeps.Avoided.{geo_victims-AvoidsLan}
use tun_top.Sweeps.Literal.{read_quoted, read_quoted-lit}

abbrev read_two : Bool → Bool → Option Network
read_two true b = some (v4 1 0 0 0 8)
read_two false true = some (v4 100 64 0 0 10)
read_two false false = none

-- Two texts are networks, and an interpreter that knows no special range.
abbrev two_nets : NetLib
two_nets = record {
  parse = λ s. read_two (str_eq s "1.0.0.0/8") (str_eq s "100.64.0.0/10");
  show = λ n. if n.prefixlen == 8 then "1.0.0.0/8" else "100.64.0.0/10";
  is_private = λ n. false;
  is_loopback = λ n. false;
  is_link_local = λ n. false;
  is_multicast = λ n. false;
  is_reserved = λ n. false;
  is_unspecified = λ n. false;
  casefold = λ s. s;
}

reads_again :
    (a b : Bool) (n : Network)
    → read_two a b ≡ some n
    → two_nets.parse (strip (two_nets.show n)) ≡ some n
unfolding strip lstrip rstrip is_space
reads_again true b n e =
    subst (λ m. two_nets.parse (strip (two_nets.show m)) ≡ some m)
      (Option.some-injective (v4 1 0 0 0 8) n e) refl
reads_again false true n e =
    subst (λ m. two_nets.parse (strip (two_nets.show m)) ≡ some m)
      (Option.some-injective (v4 100 64 0 0 10) n e) refl
reads_again false false n e = absurd (Option.none-ne-some n e)

two_nets-IsCanonical : IsCanonical two_nets
two_nets-IsCanonical text n e =
    reads_again (str_eq text "1.0.0.0/8") (str_eq text "100.64.0.0/10") n e

abbrev country : Row
country = record { destination = "1.0.0.0/8"; alias = "Wi-Fi"; next_hop = "10.0.0.1" }

abbrev carrier : Row
carrier = record { destination = "100.64.0.0/10"; alias = "Wi-Fi"; next_hop = "10.0.0.1" }

abbrev corporate : Row
corporate = record { destination = "100.64.0.0/10"; alias = "Wi-Fi"; next_hop = "10.20.30.1" }

abbrev table : List Row
table = country ∷ carrier ∷ corporate ∷ []

abbrev both : List String
both = "1.0.0.0/8" ∷ "100.64.0.0/10" ∷ []

abbrev victim : Victim
victim = ("1.0.0.0/8", "Wi-Fi", "10.0.0.1")

geo_test : geo_victims two_nets table both ≡ victim ∷ []
unfolding geo_victims victims_of canon_cidr canon_cidrs member is_sweepable_geo_cidr
    is_special_purpose special_network in_table special_v4 subnet_of same_bytes mask_bytes
    min_prefixlen strip lstrip rstrip is_space
geo_test = refl

lan_test :
    lan_victims two_nets table "Wi-Fi" "10.0.0.1" none ≡ ("100.64.0.0/10", "Wi-Fi", "10.0.0.1") ∷ []
unfolding lan_victims victims_of canon_cidr canon_cidrs member strip lstrip rstrip is_space
lan_test = refl

-- The delete names no next hop, so that it also meets the row of the other gateway.
widened_test :
    lan_victim_deletes two_nets table "Wi-Fi" "10.0.0.1" none ≡ ("100.64.0.0/10", "Wi-Fi", "") ∷ []
unfolding lan_victim_deletes widened lan_victims victims_of canon_cidr canon_cidrs member strip
    lstrip rstrip is_space
widened_test = refl

geo_victims_iff_example :
    In victim (geo_victims two_nets table both)
    ↔ ((r : Row) × In r table × IsGeoVictim two_nets both r victim)
geo_victims_iff_example = geo_victims_iff two_nets two_nets-IsCanonical table both victim

lan_victims_iff_example :
    (In victim (lan_victims two_nets table "Wi-Fi" "10.0.0.1" none)
      ↔ ((r : Row) × In r table × IsLanVictim two_nets "Wi-Fi" "10.0.0.1" none r victim))
    × (In ("100.64.0.0/10", "Wi-Fi", "") (lan_victim_deletes two_nets table "Wi-Fi" "10.0.0.1" none)
        ↔ ((r : Row) × (u : Victim) × In r table
            × IsLanVictim two_nets "Wi-Fi" "10.0.0.1" none r u
            × (◌≡◌ {A = Victim} ("100.64.0.0/10", "Wi-Fi", "") (u.0, u.1, ""))))
lan_victims_iff_example =
    lan_victims_iff two_nets "Wi-Fi" "10.0.0.1" none table victim ("100.64.0.0/10", "Wi-Fi", "")

geo_victims-AvoidsLan_example : ◌≢◌ {A = String} "1.0.0.0/8" "100.64.0.0/10"
unfolding strip lstrip rstrip is_space
geo_victims-AvoidsLan_example =
    geo_victims-AvoidsLan two_nets two_nets-IsCanonical table both victim
      (subst (λ vs. In victim vs) (sym geo_test) (inl refl)) (v4 100 64 0 0 10)
      (inr (inr (inr (inr (inl refl))))) refl

read_quoted-lit_example :
    read_quoted (lit "Bob's VPN" <> " -Confirm") ≡ some ("Bob's VPN", " -Confirm")
read_quoted-lit_example = read_quoted-lit "Bob's VPN" " -Confirm" refl

stmts_test :
    host_route_stmts ("1.2.3.4" ∷ []) []
    ≡ "Remove-NetRoute -DestinationPrefix '1.2.3.4/32' -AddressFamily IPv4 -Confirm:$false -ErrorAction SilentlyContinue | Out-Null"
      ∷ []
unfolding host_route_stmts host_stmts_in nonblank lit ps_quote doubled contains_code strip lstrip
    rstrip is_space
stmts_test = refl
