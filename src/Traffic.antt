-- ===== src/Traffic.antt =====
-- tuntop/monitor/traffic.py: the rolling window of byte counters. A time is a count of microseconds.
pub mod Window
use tun_top.Prelude.{ℕ, ◌-◌, List, [], ◌∷◌, ◌++◌, ltb, if◌then◌else◌, Option, none, some}

pub record Sample : Type 0 where
  pub ts : ℕ
  pub rx : ℕ
  pub tx : ℕ

pub record TrafficStats : Type 0 where
  pub window : ℕ
  pub samples : List Sample

-- `TrafficStats(window)`
unfoldable pub new_stats : ℕ → TrafficStats
new_stats window = record { window = window; samples = [] }

-- The loop that drops the samples at the left end. A sample from after `ts` is not older than it.
unfoldable pub trim : ℕ → ℕ → List Sample → List Sample
trim ts window [] = []
trim ts window (s ∷ ss) =
    let rest = trim ts window ss in if ltb window (ts - s.ts) then rest else s ∷ ss

-- `record(rx_bytes, tx_bytes, ts)`
unfoldable pub record_sample : Sample → TrafficStats → TrafficStats
record_sample s stats = record stats { samples = trim s.ts stats.window (stats.samples ++ s ∷ []) }

-- The bytes received and sent, and the time that they took: the rates are the quotients.
pub record Rate : Type 0 where
  pub rx : ℕ
  pub tx : ℕ
  pub dt : ℕ

abbrev last_sample : Sample → List Sample → Sample
last_sample s [] = s
last_sample s (t ∷ ss) = last_sample t ss

-- `max(t1 - t0, 1e-6)`
abbrev at_least_one : ℕ → ℕ
at_least_one dt = if ltb dt 1 then 1 else dt

abbrev between : Sample → Sample → Rate
between first last = record {
  rx = last.rx - first.rx;
  tx = last.tx - first.tx;
  dt = at_least_one (last.ts - first.ts);
}

-- `rate()`, `none` for the pair of zeros that fewer than two samples give
unfoldable pub rate : TrafficStats → Option Rate
rate stats = elim stats.samples [
  | [] ↦ none
  | s ∷ ss ↦ elim ss [ [] ↦ none | t ∷ rest ↦ some (between s (last_sample t rest)) ]
]
