-- ===== src/Tests/Lines.antt =====
-- tuntop/core/markers.py at concrete lines.
use tun_top.Prelude.{
  ℕ, ◌≡◌, ◌↔◌, refl, String, true, some, starts_with, get_elem?, strip, partition_tail,
}
use tun_top.Prelude.Text.{strip_prefix}
use tun_top.State.{running}
use tun_top.Markers.{classify, detail_for, applies_in}
use tun_top.Markers.Rules.{rules, v_probe_failed}
use tun_top.Markers.Matching.{classify_iff}

abbrev line : String
line = "[MONITOR] tunnel check failed (2 of 3): no endpoint answered"

detail_test : detail_for v_probe_failed line ≡ "no endpoint answered"
unfolding detail_for partition_tail strip strip_prefix
detail_test = refl

classify_iff_example : (classify line (some running) ≡ some v_probe_failed) ↔ (
    (i : ℕ) × (p : String) × (get_elem? rules i ≡ some (p, v_probe_failed))
    × (starts_with line p ≡ true)
    × (applies_in v_probe_failed (some running) ≡ true))
classify_iff_example = classify_iff line (some running) v_probe_failed
