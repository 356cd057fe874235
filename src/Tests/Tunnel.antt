-- ===== src/Tests/Tunnel.antt =====
-- tuntop/core/state.py and tuntop/core/tunnel_manager.py at concrete inputs.
use tun_top.Prelude.{ℕ, ◌<◌, ◌≡◌, refl, true, false, none, some, List, [], ◌∷◌}
use tun_top.Prelude.Results.{ok}
use tun_top.State.{member, place, degraded, stopped, starting, verifying, running, allowed}
use tun_top.State.Paths.{follows, final, health_needs_verifying, restart_needs_exit}
use tun_top.State.Machine.{Machine, state, new_machine, transition}
use tun_top.State.Machine.History.{
  Call, Forces, IsWellFormed, run_all, run_all-IsWellFormed, do_transition, try, do_reset,
  do_observe,
}
use tun_top.Manager.{Manager, Hooks, Hook, request_start, request_stop}
use tun_top.Manager.Stop.{started, up, whole_run}

abbrev idle : Machine
idle = record {
  current = stopped;
  entered_at = 5;
  last_reason = "initial state";
  history_size = 2;
  history = [];
  observers = 1 ∷ 2 ∷ [];
  rejected = 0;
  last_rejection = none;
  sent = [];
}

new_machine_test : new_machine (state stopped) 2 5 ≡ ok (record idle { observers = [] })
unfolding new_machine
new_machine_test = refl

transition_test : (transition (state starting) none false 7 idle).1.current ≡ starting
unfolding transition allowed
transition_test = refl

health_needs_verifying_example : member verifying (starting ∷ verifying ∷ degraded ∷ []) ≡ true
unfolding follows final allowed
health_needs_verifying_example =
    health_needs_verifying (starting ∷ verifying ∷ degraded ∷ []) refl refl

restart_needs_exit_example : place starting < place verifying
unfolding follows final allowed
restart_needs_exit_example = restart_needs_exit starting verifying [] refl refl refl refl

abbrev calls : List (Call × ℕ)
calls =
    (do_observe 1, 6)
    ∷ (try (state starting) none, 7)
    ∷ (do_transition (state running) none true, 8)
    ∷ (do_reset none, 9)
    ∷ []

run_all-IsWellFormed_example :
    IsWellFormed (Forces calls) (run_all calls (record idle { observers = [] }))
run_all-IsWellFormed_example =
    run_all-IsWellFormed (state stopped) 2 5 calls (record idle { observers = [] }) new_machine_test

abbrev quiet_hook : Hook
quiet_hook m = (m, none)

abbrev hooks : Hooks
hooks = record {
  startup = quiet_hook;
  verify = none;
  launch = some quiet_hook;
  teardown = some quiet_hook;
}

abbrev manager : Manager
manager = record { machine = idle; recovery = none; hooks = hooks; log = [] }

-- A manager whose tunnel is up
abbrev manager_up : Manager
manager_up = record manager { machine = record idle { current = running } }

whole_run_example :
    ((request_start true 1 2 manager).0 ≡ true)
    × ((started manager 1 2 3 4 5 "").machine.current ≡ verifying)
    × ((up manager 1 2 3 4 5 "").machine.current ≡ running)
    × ((request_stop 4 5 (up manager 1 2 3 4 5 "")).0 ≡ true)
    × ((request_stop 4 5 (up manager 1 2 3 4 5 "")).1.machine.current ≡ stopped)
whole_run_example = whole_run manager 1 2 3 4 5 "" refl (λ m. refl) (λ m. refl)
