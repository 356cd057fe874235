-- ===== src/Markers.antt =====
-- tuntop/core/markers.py: what the dashboard makes of one line of the helper's output.
pub mod Rules
pub mod Matching
pub mod Meaning
use tun_top.Prelude.{
  String, Bool, true, false, not, ◌||◌, Option, none, some, List, [], ◌∷◌, is_empty, or_text, strip,
  starts_with, partition_tail, if◌then◌else◌,
}
use tun_top.State.{TunnelState, member}
use tun_top.Markers.Rules.{Verdict, Rule, rules}

-- `effective_reason`
unfoldable pub effective_reason : Verdict → String
effective_reason v = or_text v.reason v.detail

abbrev or_detail : Option String → Verdict → String
or_detail none v = v.detail
or_detail (some tail) v = or_text (strip tail) v.detail

-- `detail_for(line)`
unfoldable pub detail_for : Verdict → String → String
detail_for v line =
    if is_empty v.detail_after then v.detail else or_detail (partition_tail v.detail_after line) v

abbrev in_gate : List TunnelState → Option TunnelState → Bool
in_gate [] current = true
in_gate (s ∷ gate) none = true
in_gate (s ∷ gate) (some current) = member current (s ∷ gate)

-- `applies_in(current)`
unfoldable pub applies_in : Verdict → Option TunnelState → Bool
applies_in v current = in_gate v.only_from current

unfoldable pub gated : Verdict → Option TunnelState → Option Verdict
unfolding applies_in
gated v current = if applies_in v current then some v else none

-- The loop over the rules
unfoldable pub first_rule : List Rule → String → Option TunnelState → Option Verdict
first_rule [] line current = none
first_rule ((prefix, v) ∷ rest) line current =
    let later = first_rule rest line current in
    if starts_with line prefix then gated v current else later

-- `classify(line, current)`
unfoldable pub classify : String → Option TunnelState → Option Verdict
unfolding first_rule gated
classify line current = if is_empty line then none else first_rule rules line current

abbrev pub is_known : Option Verdict → Bool
is_known none = false
is_known (some v) = true

-- `known_marker(line)`
unfoldable pub known_marker : String → Bool
unfolding classify
known_marker line = is_known (classify line none)
