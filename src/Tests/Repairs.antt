-- ===== src/Tests/Repairs.antt =====
-- tuntop/core/recovery.py at concrete inputs.
use tun_top.Prelude.{inl, inr, ℕ, ◌≤◌, ◌≡◌, refl, true, false, none, some, List, [], ◌∷◌, arith}
use tun_top.State.{running, allowed}
use tun_top.State.Machine.{Machine, try_transition}
use tun_top.Recovery.{
  routes, Report, Incident, Ladder, Engine, RecoveryAction, new_engine, report_failure,
  report_locked, open_incident, delay_for_attempt, detected,
}
use tun_top.Recovery.Attempt.{
  raised, returned, take_due, begin_attempt, judge, verdict, counted, succeed, drain_pending,
}
use tun_top.Recovery.Invariant.{
  IsConsistent, Happening, reports, takes, begins, judges, happen_all, happen,
  happen_all-IsConsistent,
}
use tun_top.Recovery.Loop.{verified_never_gives_up}
use tun_top.Recovery.Rounds.{Round, Fails, IsScheduled, attempt_round}
use tun_top.Recovery.Verdicts.{IsEnd, IsGivenUp}
use tun_top.Recovery.Exhaustion.{round_ends, attempt_rounds, failing_incident_ends}

abbrev up : Machine
up = record {
  current = running;
  entered_at = 5;
  last_reason = "initial state";
  history_size = 2;
  history = [];
  observers = 1 ∷ [];
  rejected = 0;
  last_rejection = none;
  sent = [];
}

abbrev relaunch : RecoveryAction
relaunch = record { name = "restart tun2socks"; has_verify = true }

abbrev ladder : Ladder
ladder = record { actions = relaunch ∷ []; first_delay = none; crash_loop = true }

-- An engine with one ladder for every kind
abbrev fresh : Engine
fresh = record {
  machine = up;
  max_attempts = 2;
  give_up_after = 1;
  delay_scale = 1000;
  stability_window = 30000000;
  ladders = λ k. some ladder;
  worker = true;
  stopped = false;
  paused = false;
  incident = none;
  in_attempt = false;
  in_flight = none;
  pending = none;
  consecutive_failed = 0;
  gave_up = false;
  last_success_at = none;
  stats = record { incidents = 0; repairs_ok = 0; repairs_failed = 0; give_ups = 0 };
  log = [];
}

abbrev down : Report
down = record { kind = routes; detail = "gone"; delay = none }

-- The incident of the report, due after a second
abbrev broken : Incident
broken = record { kind = routes; detail = "gone"; attempt = 0; due_at = 1000100 }

abbrev booked : Engine
booked = record fresh {
  incident = some broken;
  stats = record { incidents = 1; repairs_ok = 0; repairs_failed = 0; give_ups = 0 };
  log = detected routes ∷ [];
}

report_test : report_failure down 100 fresh ≡ booked
unfolding report_failure report_locked open_incident delay_for_attempt
report_test = refl

-- The engine while the worker repairs
abbrev busy : Engine
busy = record booked { incident = none; in_attempt = true; in_flight = some (counted broken) }

booked-IsConsistent : IsConsistent booked
booked-IsConsistent = ground arith

busy-IsConsistent : IsConsistent busy
busy-IsConsistent = ground arith

-- The routes break again within a second after every repair.
abbrev flapping : List (Happening × ℕ)
flapping =
    (reports down, 100)
    ∷ (takes, 1000100)
    ∷ (begins, 1000101)
    ∷ (judges relaunch (returned true) (returned true), 1000102)
    ∷ (reports down, 1000200)
    ∷ (takes, 2000200)
    ∷ (begins, 2000201)
    ∷ (judges relaunch (returned true) (returned true), 2000202)
    ∷ []

verified_never_gives_up_example :
    ((happen_all flapping fresh).gave_up ≡ false)
    × ((happen_all flapping fresh).consecutive_failed ≤ 0)
unfolding verdict
verified_never_gives_up_example =
    verified_never_gives_up flapping fresh refl
      (tt, (tt, (tt, (refl, (tt, (tt, (tt, (refl, tt))))))))

-- Every repair of the example was made.
flapping_test : (happen_all flapping fresh).stats.repairs_ok ≡ 2
unfolding happen_all happen verdict report_failure report_locked open_incident take_due
    begin_attempt judge delay_for_attempt succeed drain_pending try_transition allowed
flapping_test = refl

happen_all-IsConsistent_example :
    IsConsistent (happen_all flapping (record fresh { ladders = λ k. none; worker = false }))
unfolding new_engine
happen_all-IsConsistent_example =
    happen_all-IsConsistent up 2 1 1000 30000000 flapping
      (record fresh { ladders = λ k. none; worker = false }) refl (omega arith)

booked-IsScheduled : IsScheduled broken booked
booked-IsScheduled = record {
  booked = refl;
  stopped = refl;
  paused = refl;
  armed = refl;
  idle = refl;
  quiet = refl;
  rungs = tt;
}

-- A repair that returns true and is not verified, and one that raises
abbrev unhelpful : Round
unhelpful = record { late = 7; repair = returned true; check = returned false }

abbrev broken_repair : Round
broken_repair = record { late = 0; repair = raised "no route"; check = returned true }

unhelpful-Fails : Fails (relaunch ∷ []) unhelpful
unhelpful-Fails = (inr (refl, λ e. cc), tt)

broken_repair-Fails : Fails (relaunch ∷ []) broken_repair
broken_repair-Fails = (inl (λ e. cc), tt)

round_ends_example : IsEnd broken 1000107 booked (attempt_round unhelpful booked)
round_ends_example = round_ends broken unhelpful booked unhelpful-Fails booked-IsScheduled

failing_incident_ends_example :
    IsGivenUp true 2 booked (attempt_rounds (unhelpful ∷ broken_repair ∷ []) booked)
failing_incident_ends_example =
    failing_incident_ends broken unhelpful (broken_repair ∷ []) booked
      (unhelpful-Fails, (broken_repair-Fails, tt)) booked-IsScheduled refl
