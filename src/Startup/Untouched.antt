-- ===== src/Startup/Untouched.antt =====
-- What start-up recovery (tuntop/core/startup_recovery.py) leaves alone, and what it completes.
use mathlib.Core.Option
use tun_top.Prelude.{
  ◌≡◌, ◌≢◌, ◌&&◌, ◌⊎◌, Bool, false, Bool, true, false, ◌&&◌, Option, some, List, [], ◌∷◌, String,
}
use tun_top.Prelude.Int.{ℤ}
use tun_top.Startup.{
  null, ended, same_process, is_positive, Marker, Stored, object, Processes, pid_of,
}
use tun_top.Startup.Recover.{Probes, is_live, Step, passed, Outcome}

module _ {S : Type 0} (truncate : String → Option ℤ) (os : Processes) (p : Probes S) where
  -- The machine is as it was, and so is the marker of a session with a number other than 0.
  abbrev pub IsUntouched : Marker → S → Outcome × Stored × S → Type 0
  IsUntouched m s r =
      (r.2 ≡ s)
      × ((pid : ℤ) → pid_of truncate os m ≡ some pid → is_live (some pid) ≡ true → r.1 ≡ object m)

  -- The process of the marker is shown to be gone: its number is that of no process that runs, or
  -- of one that was created at another time than the marker says.
  abbrev pub IsGone : Marker → Type 0
  IsGone m =
      (pid : ℤ) × (pid_of truncate os m ≡ some pid)
      × (is_positive pid ≡ true)
      × (((m.started ≢ null) × (same_process truncate os pid m.started ≡ false))
          ⊎ (os.handle pid ≡ ended))

  -- The verdict over the actions of a report.
  abbrev pub all_passed : List (Step × Option Bool) → Bool
  all_passed [] = true
  all_passed (a ∷ later) = passed a.1 && all_passed later
