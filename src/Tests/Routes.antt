-- ===== src/Tests/Routes.antt =====
-- tuntop/core/routes_txn.py over a table in memory, which meets what the code relies on.
use tun_top.Prelude.{
  ◌≤◌, ◌≡◌, ◌↔◌, ◌⊎◌, inl, inr, refl, sym, ap, ◌∙◌, Bool, true, false, ◌&&◌, ◌||◌, Bool-cases,
  str_eq, eq_iff, none, some, List, [], ◌∷◌, All, arith, ◌==◌, if◌then◌else◌,
}
use tun_top.Prelude.Results.{ok, err}
use tun_top.RouteTxn.{
  v4, v6, add, remove, Route, RouteOp, Row, flag, Backend, eff_of, conflict, is_host_route, norm_gw,
  remove_op, verify_op, shadow_op,
}
use tun_top.RouteTxn.Calls.{type_error}
use tun_top.RouteTxn.Commit.{commit, plan, apply_one, clean_failed}
use tun_top.RouteTxn.Wanted.{Route-discrete, same_route, same, same→eq, wanted, Effective}
use tun_top.RouteTxn.Laws.{IsLawful, IsQuiet, Separate, Apart}
use tun_top.RouteTxn.Atomic.{commit_ok-wanted}
use tun_top.RouteTxn.Rollback.{commit_failed-unchanged, rollback_opposite, Leaked}
use tun_top.RouteTxn.Shadow.{conflict_iff}

-- The form that the program compares: a gateway that is None is the family's unspecified address.
abbrev canon : Route → Route
canon r = record r { gateway = some (norm_gw r.family r.gateway) }

-- A call may touch the other routes of its prefix.
abbrev near : Route → Route → Bool
near r s = str_eq r.dest s.dest

abbrev holds_form : List Route → Route → Bool
holds_form [] c = false
holds_form (s ∷ t) c = same_route (canon s) c || holds_form t c

abbrev holds : List Route → Route → Bool
holds t r = holds_form t (canon r)

-- Whether a delete of `r` takes the row `s`: the metric is ignored.
abbrev takes : Route → Route → Bool
takes r s =
    near r s
    && str_eq r.iface s.iface
    && str_eq (norm_gw r.family r.gateway) (norm_gw s.family s.gateway)

abbrev without : Route → List Route → List Route
without r [] = []
without r (s ∷ t) = let rest = without r t in if takes r s then rest else s ∷ rest

-- An add of a route with the metric 99 is refused; another one deletes first what a delete of its
-- route takes.
abbrev memory : Backend
memory = record {
  Table = List Route;
  lower = λ s. s;
  add_route = λ r t. if r.metric == 99 then (ok false, t) else (ok true, r ∷ without r t);
  exists_route = λ f d t. (ok true, t);
  delete_route = λ r t. (err (type_error "delete_route() takes 3 positional arguments"), t);
  delete_plain = λ r t. (ok (flag true), without r t);
  verify_route = λ f. some (λ r t. (ok (holds t r), t));
  route_table = λ f. none;
}

takes-near : (r u : Route) → takes r u ≡ true → near r u ≡ true
takes-near r u h = ground arith

not_same : (r s u : Route) → near r s ≡ false → near r u ≡ true → same canon u s ≡ false
not_same r s u n k = elim (Bool-cases (same canon u s)) [
  | inl e ↦
      let dest : u.dest ≡ s.dest = ap (λ (c : Route). c.dest) (same→eq canon u s e) in
      absurd (cc (sym k ∙ ap (λ d. str_eq r.dest d) dest ∙ n))
  | inr d ↦ d
]

holds-without :
    (r s : Route) (t : List Route) → near r s ≡ false → holds (without r t) s ≡ holds t s
holds-without r s [] n = refl
holds-without r s (u ∷ t) n = elim (Bool-cases (takes r u)) [
  | inl k ↦ rw (k, not_same r s u n (takes-near r u k)) (holds-without r s t n)
  | inr k ↦ rw k (ap (λ x. same canon u s || x) (holds-without r s t n))
]

holds-add :
    (r s : Route) (t : List Route) → near r s ≡ false → holds (memory.add_route r t).1 s ≡ holds t s
holds-add r s t n = elim (Bool-cases (r.metric == 99)) [
  | inl k ↦ rw k
  | inr k ↦
      let apart = not_same r s r n ((eq_iff r.dest r.dest).1 refl) in
      rw (k, apart) (holds-without r s t n)
]

memory-IsLawful : IsLawful memory holds canon near
memory-IsLawful = record {
  verified = λ r. ((λ r t. (ok (holds t r), t)), refl, λ t. refl);
  probed = λ f fn e. absurd (cc);
  respects = λ t r s e. ap (holds_form t) e;
  add_frame = holds-add;
  delete_frame = λ r s t n. refl;
  plain_frame = holds-without;
}

memory-IsQuiet : IsQuiet memory
unfolding remove_op
memory-IsQuiet = record { quiet = λ r t. (true, refl) }

abbrev dns : Route
dns = record {
  family = v4;
  dest = "1.1.1.1/32";
  iface = "Wi-Fi";
  gateway = some "192.168.1.1";
  metric = 1;
}

abbrev bad : Route
bad = record { family = v6; dest = "::1/128"; iface = "Wi-Fi"; gateway = none; metric = 99 }

abbrev good_plan : List RouteOp
good_plan = plan add v4 "1.1.1.1/32" "Wi-Fi" (some "192.168.1.1") 1 []

abbrev bad_plan : List RouteOp
bad_plan = plan add v6 "::1/128" "Wi-Fi" none 99 good_plan

bad_plan_test :
    (commit memory bad_plan []).0.failed
    ≡ (record { action = add; route = bad }, "route add reported failure") ∷ []
unfolding commit plan apply_one verify_op shadow_op clean_failed same_route Route-discrete norm_gw
bad_plan_test = refl

abbrev none_gateway : Route
none_gateway = record {
  family = v4;
  dest = "1.0.0.1/32";
  iface = "Wi-Fi";
  gateway = none;
  metric = 1;
}

-- The gateway None and the unspecified address are one gateway: the route is gone in the end.
abbrev there_and_back : List RouteOp
there_and_back =
    plan remove v4 "1.0.0.1/32" "Wi-Fi" (some "0.0.0.0") 1
      (plan add v4 "1.0.0.1/32" "Wi-Fi" none 1 good_plan)

there_and_back-Separate : Separate canon near there_and_back none_gateway
unfolding plan same_route Route-discrete norm_gw
there_and_back-Separate = (inr refl, (inl refl, (inl refl, tt)))

commit_ok-wanted_example :
    holds (commit memory there_and_back []).1 none_gateway
    ≡ wanted canon there_and_back none_gateway (holds [] none_gateway)
unfolding commit plan apply_one verify_op shadow_op clean_failed remove_op same_route Route-discrete
    norm_gw
commit_ok-wanted_example =
    commit_ok-wanted memory holds canon near memory-IsLawful there_and_back [] none_gateway
      there_and_back-Separate refl

bad_plan-Effective : Effective canon bad_plan (holds [])
unfolding plan same_route Route-discrete norm_gw
bad_plan-Effective = (refl, (refl, tt))

bad_plan-Separate : Separate canon near bad_plan dns
unfolding plan same_route Route-discrete norm_gw
bad_plan-Separate = (inl refl, (inr refl, tt))

bad_plan-Apart : Apart canon near bad_plan
unfolding plan same_route Route-discrete norm_gw
bad_plan-Apart = ((inr refl, tt), (tt, tt))

commit_failed-unchanged_example :
    (holds (commit memory bad_plan []).1 dns ≡ holds [] dns)
    ⊎ Leaked memory holds canon near memory-IsLawful memory-IsQuiet bad_plan [] dns
unfolding commit plan apply_one verify_op shadow_op clean_failed remove_op same_route Route-discrete
    norm_gw
commit_failed-unchanged_example =
    commit_failed-unchanged memory holds canon near memory-IsLawful memory-IsQuiet bad_plan [] dns
      bad_plan-Separate bad_plan-Apart bad_plan-Effective refl refl

-- The route was in the table before the commit that failed, and is lost.
rollback_opposite_example : holds (commit memory bad_plan (dns ∷ [])).1 dns ≡ false
unfolding commit plan apply_one verify_op shadow_op clean_failed remove_op same_route Route-discrete
    norm_gw
rollback_opposite_example =
    rollback_opposite memory holds canon near memory-IsLawful bad_plan (dns ∷ [])
      (record { action = add; route = dns }) [] bad_plan-Separate refl refl refl

abbrev our_row : Row
our_row = record { iface = some "Wi-Fi"; nexthop = some "192.168.1.1"; eff = some 26 }

abbrev vpn_row : Row
vpn_row = record { iface = some "VPN"; nexthop = none; eff = some 5 }

conflict_iff_example :
    (conflict memory dns (our_row ∷ vpn_row ∷ []) ≡ none)
    ↔ All (λ r. 26 ≤ eff_of r) (our_row ∷ vpn_row ∷ [])
unfolding norm_gw
conflict_iff_example = conflict_iff memory dns (our_row ∷ vpn_row ∷ []) our_row refl

host_routes :
    (is_host_route "1.1.1.1/32" ≡ true)
    × (is_host_route "::1/128" ≡ true)
    × (is_host_route "10.0.0.0/8" ≡ false)
    × (is_host_route "::1/32" ≡ false)
    × (is_host_route "1.1.1.1" ≡ false)
unfolding is_host_route
host_routes = (refl, refl, refl, refl, refl)
