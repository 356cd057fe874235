-- ===== src/Tests/Monitor.antt =====
-- tuntop/monitor/health.py, tuntop/core/events.py, tuntop/monitor/traffic.py and tuntop/config/models.py at concrete inputs.
use tun_top.Prelude.{
  starts_with, false, not, true, ◌||◌, if◌then◌else◌, ℕ, ◌≡◌, refl, String, none, some, List, [],
  ◌∷◌, arith,
}
use tun_top.EventLog.{LogRecord, info, warning}
use tun_top.Traffic.{Sample, new_stats, trim, record_sample, rate}
use tun_top.Traffic.Window.{within, record_all, record_all-within}
use tun_top.Prelude.Text.{strip_prefix}
use tun_top.Health.{
  Probe, unhealthy, degraded, healthy, severity, overall_status, by_length, insert, first_match,
  len,
}
use tun_top.Health.Tables.{Severity, severity_table}
use tun_top.Health.Verdict.{some_critical, some_failed, some_passed, overall_status_lem}
use tun_top.Profile.{
  Field, Value, atom, items, str, int, server, port, default_get, from_snapshot, to_snapshot,
  field_of, load_field, load, set, set_list, same_field, field_place, is_list_field,
}
use tun_top.Profile.Snapshot.{from_snapshot-IsTyped, from_snapshot-to_snapshot}

abbrev first : LogRecord
first = record {
  ts = 1;
  severity = info;
  component = "CORE";
  message = "up";
  state = none;
  details = none;
}

abbrev second : LogRecord
second = record first { ts = 2; severity = warning; message = "down" }

abbrev at : ℕ → ℕ → Sample
at ts rx = record { ts = ts; rx = rx; tx = 0 }

abbrev three : List Sample
three = at 1000000 0 ∷ at 31000000 500 ∷ at 70000000 900 ∷ []

record_all-within_example :
    (record_all three (new_stats 60000000)).samples ≡ at 31000000 500 ∷ at 70000000 900 ∷ []
unfolding within
record_all-within_example =
    record_all-within 60000000 three (omega arith, (omega arith, (omega arith, tt)))

rate_test :
    rate (record_all three (new_stats 60000000)) ≡ some (record { rx = 400; tx = 0; dt = 39000000 })
unfolding rate record_all record_sample trim new_stats
rate_test = refl

-- A text where a list is expected
abbrev shared : List (String × Value)
shared =
    ("name", atom (str "x")) ∷ ("server", atom (str "1.1.1.1")) ∷ ("port", atom (int 1080)) ∷ []

shared_test :
    ((from_snapshot "home" shared).get server ≡ items (str "1.1.1.1" ∷ []))
    × ((from_snapshot "home" shared).get port ≡ atom (int 1080))
unfolding from_snapshot load load_field field_of set_list set same_field field_place is_list_field
    default_get
shared_test = (refl, refl)

from_snapshot-to_snapshot_example :
    (snap : List (String × Value)) × (to_snapshot (from_snapshot "home" shared) ≡ some snap)
    × ((from_snapshot "copy" snap).name ≡ "copy")
    × ((f : Field) → (from_snapshot "copy" snap).get f ≡ (from_snapshot "home" shared).get f)
from_snapshot-to_snapshot_example =
    from_snapshot-to_snapshot "copy" (from_snapshot "home" shared)
      (from_snapshot-IsTyped "home" shared).1

abbrev same_text : String → String
same_text s = s

abbrev scan : List Probe
scan =
    record { name = "wintun ipv6"; ok = false }
    ∷ record { name = "dns configuration"; ok = true }
    ∷ []

-- The longer key wins over "ipv6" and over the keys of other adapters.
severity_test : severity same_text "wintun ipv6 address" ≡ Severity.warning
unfolding severity severity_table by_length insert first_match len starts_with strip_prefix
severity_test = refl

overall_status_lem_example : overall_status same_text scan ≡ (
    if some_critical same_text scan || not (some_passed scan)
    then unhealthy
    else if some_failed scan
    then degraded
    else healthy)
overall_status_lem_example =
    overall_status_lem same_text (record { name = "wintun ipv6"; ok = false })
      (record { name = "dns configuration"; ok = true } ∷ [])
