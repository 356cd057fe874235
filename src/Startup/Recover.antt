-- ===== src/Startup/Recover.antt =====
-- tuntop/core/startup_recovery.py: what is found at start-up, and how it is cleaned.
use tun_top.Prelude.{
  ℕ, zero, suc, Bool, true, false, not, ◌&&◌, ◌||◌, Option, none, some, List, [], ◌∷◌,
  if◌then◌else◌, String,
}
use tun_top.Prelude.Int.{ℤ, pos, negsuc}
use tun_top.Prelude.Results.{Result, ok, err}
use tun_top.Startup.{
  Marker, Stored, no_object, empty_object, object, Processes, pid_of, marker_is_live, write_marker,
}

-- A route of a host: its family and its destination.
abbrev pub HostRoute : Type 0
HostRoute = String × String

-- The probes, on the state of the machine: those that look, and those that change it. A probe
-- raises or returns; the optional ones may be missing.
pub record Probes (S : Type 0) : Type 0 where
  pub tun2socks_count : S → Result String ℕ
  pub wintun_route_count : S → Result String ℕ
  pub host_routes : List String → S → Result String (List HostRoute)
  pub kill_tun2socks : S → Result String ℕ × S
  pub teardown_adapter : S → Result String Bool × S
  pub sweep_host_routes : List HostRoute → S → Result String ℕ × S
  pub dns_guard_present : Option (S → Result String Bool)
  pub remove_dns_guard : Option (S → Result String Bool × S)
  pub remove_residue : Option (S → Result String Bool × S)
  pub residue_record_left : S → Bool

-- What the last run left behind.
pub record Findings : Type 0 where
  pub marker : Option Marker
  pub orphan_tun2socks : ℕ
  pub wintun_routes : ℕ
  pub host_routes : List HostRoute
  pub dns_guard : Bool
  pub residue : Bool
  pub live_session : Option ℤ

-- `bool(n)` of a pid, and of counts and lists.
abbrev pub is_live : Option ℤ → Bool
is_live none = false
is_live (some (pos zero)) = false
is_live (some (pos (suc n))) = true
is_live (some (negsuc n)) = true

abbrev some_of : ℕ → Bool
some_of zero = false
some_of (suc n) = true

abbrev some_routes : List HostRoute → Bool
some_routes [] = false
some_routes (r ∷ rs) = true

abbrev is_there {ℓ} : {A : Type ℓ} → Option A → Bool
is_there none = false
is_there (some a) = true

unfoldable pub dirty : Findings → Bool
dirty f =
    if is_live f.live_session
    then false
    else is_there f.marker
      || some_of f.orphan_tun2socks
      || some_of f.wintun_routes
      || some_routes f.host_routes
      || f.dns_guard
      || f.residue

abbrev count_of : Result String ℕ → ℕ
count_of (ok n) = n
count_of (err e) = 0

abbrev routes_of : Result String (List HostRoute) → List HostRoute
routes_of (ok rs) = rs
routes_of (err e) = []

abbrev true_of : Result String Bool → Bool
true_of (ok b) = b
true_of (err e) = false

-- The cleaning steps, under the labels of the log.
pub data Step : Type 0 where
  remove_guard : Step
  restore_residue : Step
  kill_orphans : Step
  tear_down : Step
  sweep_hosts : Step

abbrev pub step_if : Bool → Step → List Step → List Step
step_if b s rest = if b then s ∷ rest else rest

-- `tasks`
unfoldable pub tasks_of : Findings → List Step
tasks_of f = step_if f.dns_guard remove_guard (
    step_if f.residue restore_residue (
      step_if (some_of f.orphan_tun2socks) kill_orphans (
        step_if (some_of f.wintun_routes || is_there f.marker || some_of f.orphan_tun2socks)
          tear_down (step_if (some_routes f.host_routes) sweep_hosts []))))

abbrev marker_of : Stored → Option Marker
marker_of no_object = none
marker_of empty_object = none
marker_of (object m) = some m

abbrev untouchable : ℤ → Findings
untouchable pid = record {
  marker = none;
  orphan_tun2socks = 0;
  wintun_routes = 0;
  host_routes = [];
  dns_guard = false;
  residue = false;
  live_session = some pid;
}

abbrev pub of_session : Option ℤ → Option Findings
of_session none = none
of_session (some pid) = some (untouchable pid)

-- `live is not False`
abbrev pub may_live : Option Bool → Bool
may_live none = true
may_live (some b) = b

abbrev pub passed : Option Bool → Bool
passed none = false
passed (some b) = b

-- What `startup_recover` does: it raises, it stands back, or it cleans and takes the marker.
pub data Outcome : Type 0 where
  raised : Outcome
  stood_back : ℤ → Outcome
  cleaned : List (Step × Option Bool) → Outcome

abbrev stood_back_at : Option ℤ → Outcome
stood_back_at none = stood_back (negsuc 0)
stood_back_at (some pid) = stood_back pid

module _ {S : Type 0} (truncate : String → Option ℤ) (os : Processes) (p : Probes S) where
  abbrev guard_found : Option (S → Result String Bool) → S → Bool
  guard_found none s = false
  guard_found (some probe) s = true_of (probe s)

  abbrev hosts_found : List String → S → List HostRoute
  hosts_found [] s = []
  hosts_found (h ∷ hs) s = routes_of (p.host_routes (h ∷ hs) s)

  -- The probes, once no session is in the way.
  abbrev pub probed : Option Marker → List String → S → Findings
  probed m hosts s = record {
    marker = m;
    orphan_tun2socks = count_of (p.tun2socks_count s);
    wintun_routes = count_of (p.wintun_route_count s);
    host_routes = hosts_found hosts s;
    dns_guard = guard_found p.dns_guard_present s;
    residue = is_there p.remove_residue && p.residue_record_left s;
    live_session = none;
  }

  abbrev pub scan_marked : List String → S → Stored → Option Marker → Option Findings
  scan_marked hosts s stored none = some (probed none hosts s)
  scan_marked hosts s stored (some m) =
      if may_live (marker_is_live truncate os stored)
      then of_session (pid_of truncate os m)
      else some (probed (some m) hosts s)

  -- `none` where the conversion of the marker's pid raises.
  unfoldable pub scan : List String → S → Stored → Option Findings
  scan hosts s stored = scan_marked hosts s stored (marker_of stored)

  -- A step's verdict: `none` for a step that raises.
  abbrev pub counted : Result String ℕ × S → Option Bool × S
  counted (ok n, s) = (some true, s)
  counted (err e, s) = (none, s)

  abbrev pub judged : Result String Bool × S → Option Bool × S
  judged (ok b, s) = (some b, s)
  judged (err e, s) = (none, s)

  abbrev pub optional : Option (S → Result String Bool × S) → S → Option Bool × S
  optional none s = (some false, s)
  optional (some probe) s = judged (probe s)

  unfoldable pub run_step : Findings → Step → S → Option Bool × S
  run_step f remove_guard s = optional p.remove_dns_guard s
  run_step f restore_residue s = optional p.remove_residue s
  run_step f kill_orphans s = counted (p.kill_tun2socks s)
  run_step f tear_down s = judged (p.teardown_adapter s)
  run_step f sweep_hosts s = counted (p.sweep_host_routes f.host_routes s)

  -- The actions, each with its verdict; whether all succeeded; the machine afterwards.
  abbrev pub Report : Type 0
  Report = List (Step × Option Bool) × Bool × S

  unfoldable pub run_steps : Findings → List Step → S → Report
  run_steps f [] s = ([], true, s)
  run_steps f (t ∷ ts) s =
      let r = run_step f t s in
      let rest = run_steps f ts r.1 in ((t, r.0) ∷ rest.0, passed r.0 && rest.1, rest.2)

  unfoldable pub recover_ex : Findings → S → Report
  recover_ex f s = if is_live f.live_session then ([], true, s) else run_steps f (tasks_of f) s

  abbrev pub after_scan : Bool → ℤ → S → Stored → Findings → Outcome × Stored × S
  after_scan writes me s stored f =
      if is_live f.live_session
      then (stood_back_at f.live_session, stored, s)
      else if not (dirty f)
      then (cleaned [], write_marker truncate os writes me stored, s)
      else (let r = recover_ex f s in (cleaned r.0, write_marker truncate os writes me stored, r.2))

  abbrev pub startup_with : Bool → ℤ → S → Stored → Option Findings → Outcome × Stored × S
  startup_with writes me s stored none = (raised, stored, s)
  startup_with writes me s stored (some f) = after_scan writes me s stored f

  unfoldable pub startup_recover : Bool → ℤ → List String → S → Stored → Outcome × Stored × S
  startup_recover writes me hosts s stored = startup_with writes me s stored (scan hosts s stored)
