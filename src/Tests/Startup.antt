-- ===== src/Tests/Startup.antt =====
-- tuntop/core/startup_recovery.py, tuntop/network/residue.py and tuntop/procidentity.py at concrete inputs.
use tun_top.Prelude.{◌≡◌, ◌≢◌, refl, ℕ, true, false, Option, none, some, [], ◌∷◌, String, parse_int}
use tun_top.Prelude.Text.{strip, lstrip, rstrip, is_space}
use tun_top.Prelude.Int.{ℤ, pos}
use tun_top.Prelude.Results.{ok, err}
use tun_top.Startup.{
  Scalar, null, int, str, Processes, still_running, Marker, object, no_object, marker_is_live,
  write_marker, pid_of, as_int, truthy,
}
use tun_top.Startup.Residue.{
  scalar, Attempts, Owner, load, load_doh_servers, load_physical_metric, clear_doh_servers,
  save_doh_servers, clear_physical_metric, stripped, get, set, pop, stamp, merge, unique_texts,
}
use tun_top.Startup.Kept.{IsMergeOutcome, merge-IsMergeOutcome}
use tun_top.Startup.Recover.{Probes, Findings, scan, startup_recover, raised}
use tun_top.Startup.Lifetime.{marker_is_live-write_marker}

no_fraction : String → Option ℤ
no_fraction s = none

-- Process 7 was created at 100 and runs.
abbrev then_running : Processes
then_running = record { start_time = λ pid. some (pos 100); handle = λ pid. still_running }

-- Its number belongs to a process that was created at 900.
abbrev recycled : Processes
recycled = record { start_time = λ pid. some (pos 900); handle = λ pid. still_running }

marker_is_live-write_marker_example :
    (let live =
        marker_is_live no_fraction recycled
          (write_marker no_fraction then_running true (pos 7) no_object) in
      (◌≢◌ {A = Option ℤ} (some (pos 900)) (some (pos 100)) → live ≡ some false)
      × (◌≡◌ {A = Option ℤ} (some (pos 900)) (some (pos 100)) → live ≡ some true))
marker_is_live-write_marker_example =
    marker_is_live-write_marker no_fraction then_running recycled 6 (pos 100) no_object refl

-- The machine is a count of orphans; reading the routes raises.
abbrev probes : Probes ℕ
probes = record {
  tun2socks_count = λ s. ok s;
  wintun_route_count = λ s. err "netsh";
  host_routes = λ hosts s. ok [];
  kill_tun2socks = λ s. (ok s, 0);
  teardown_adapter = λ s. (err "netsh", s);
  sweep_host_routes = λ rs s. (ok 0, s);
  dns_guard_present = none;
  remove_dns_guard = none;
  remove_residue = none;
  residue_record_left = λ s. false;
}

abbrev session : Marker
session = record {
  pid = int (pos 7);
  started = int (pos 100);
  helper_pid = null;
  helper_started = null;
}

abbrev crashed : Findings
crashed = record {
  marker = some session;
  orphan_tun2socks = 2;
  wintun_routes = 0;
  host_routes = [];
  dns_guard = true;
  residue = false;
  live_session = none;
}

-- A pid that is no number stops the launch.
raised_test :
    (startup_recover no_fraction then_running probes true
      (pos 8)
      []
      2
      (object (record session { pid = str "x" }))).0
    ≡ raised
unfolding startup_recover scan marker_is_live pid_of as_int truthy parse_int
raised_test = refl

abbrev me : Owner
me = record { pid = pos 8; started = int (pos 5); since = int (pos 6) }

abbrev at_once : Attempts
at_once = record { first = true; second = true; between = λ s. s }

merge-IsMergeOutcome_example :
    IsMergeOutcome me at_once "doh_servers" none none (merge me at_once "doh_servers" none none)
merge-IsMergeOutcome_example =
    merge-IsMergeOutcome me at_once "doh_servers" none none (refl, refl, refl, refl)

show_none : Scalar → String
show_none s = ""

-- With both categories cleared the record still has its stamp.
cleared_test :
    (let after =
        clear_physical_metric me at_once
          (clear_doh_servers me at_once (save_doh_servers me at_once ("1.1.1.1" ∷ []) none).1) in
      (load_doh_servers show_none after ≡ [])
      × (load_physical_metric show_none after ≡ none)
      × (get (load after) "version" ≡ some (scalar (int (pos 1)))))
unfolding load_doh_servers load_physical_metric clear_physical_metric clear_doh_servers
    save_doh_servers merge load get set pop stamp stripped strip lstrip rstrip is_space unique_texts
cleared_test = (refl, refl, refl)
