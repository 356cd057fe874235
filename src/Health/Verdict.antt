-- ===== src/Health/Verdict.antt =====
-- tuntop/monitor/health.py: the verdict on a scan.
use tun_top.Prelude.{
  ℕ, ◌≡◌, refl, String, Bool, true, false, not, ◌&&◌, ◌||◌, List, [], ◌∷◌, ltb, arith,
  if◌then◌else◌,
}
use tun_top.Health.{
  Probe, Tally, unhealthy, degraded, healthy, passed, severity, counts, overall_status, judged,
  one_more,
}
use tun_top.Health.Tables.{Severity, critical, warning, info}

abbrev is_critical : Severity → Bool
is_critical critical = true
is_critical warning = false
is_critical info = false

-- Some probe passes, some probe fails, and some failing probe is critical.
unfoldable pub some_passed : List Probe → Bool
some_passed [] = false
some_passed (p ∷ ps) = let rest = some_passed ps in p.ok || rest

unfoldable pub some_failed : List Probe → Bool
some_failed [] = false
some_failed (p ∷ ps) = let rest = some_failed ps in not p.ok || rest

unfoldable pub some_critical : (String → String) → List Probe → Bool
some_critical lower [] = false
some_critical lower (p ∷ ps) =
    let rest = some_critical lower ps in (not p.ok && is_critical (severity lower p.name)) || rest

passed_lem : (ps : List Probe) → ltb 0 (passed ps) ≡ some_passed ps
unfolding passed some_passed
passed_lem [] = refl
passed_lem (p ∷ ps) = ground (arith, passed_lem ps)

tally_critical :
    (ok : Bool) (s : Severity) (t : Tally) (b : Bool)
    → ltb 0 t.criticals ≡ b
    → ltb 0 (if ok then t else one_more s t).criticals ≡ ((not ok && is_critical s) || b)
tally_critical ok s t b h = ground arith

tally_failed :
    (ok : Bool) (s : Severity) (t : Tally) (b : Bool)
    → (ltb 0 t.criticals || (ltb 0 t.warnings || ltb 0 t.infos)) ≡ b
    → (ltb 0 (if ok then t else one_more s t).criticals
        || (ltb 0 (if ok then t else one_more s t).warnings
            || ltb 0 (if ok then t else one_more s t).infos))
      ≡ (not ok || b)
tally_failed ok s t b h = ground arith

critical_lem :
    (lower : String → String) (ps : List Probe)
    → ltb 0 (counts lower ps).criticals ≡ some_critical lower ps
unfolding counts some_critical
critical_lem lower [] = refl
critical_lem lower (p ∷ ps) =
    tally_critical p.ok (severity lower p.name) (counts lower ps) (some_critical lower ps)
      (critical_lem lower ps)

failed_lem :
    (lower : String → String) (ps : List Probe)
    → (ltb 0 (counts lower ps).criticals
        || (ltb 0 (counts lower ps).warnings || ltb 0 (counts lower ps).infos))
      ≡ some_failed ps
unfolding counts some_failed
failed_lem lower [] = refl
failed_lem lower (p ∷ ps) =
    tally_failed p.ok (severity lower p.name) (counts lower ps) (some_failed ps)
      (failed_lem lower ps)

judged_lem :
    (lower : String → String) (t : Tally) (n : ℕ) (crit fails passes : Bool)
    → ltb 0 t.criticals ≡ crit
    → (ltb 0 t.criticals || (ltb 0 t.warnings || ltb 0 t.infos)) ≡ fails
    → ltb 0 n ≡ passes
    → (fails || passes) ≡ true
    → judged lower t n
      ≡ (if crit || not passes then unhealthy else if fails then degraded else healthy)
judged_lem lower t n crit fails passes a b c d = ground arith

one_or_other : (p : Probe) (ps : List Probe) → (some_failed (p ∷ ps) || some_passed (p ∷ ps)) ≡ true
unfolding some_failed some_passed
one_or_other p ps = ground arith

-- The verdict on a scan with at least one probe: unhealthy exactly if a critical probe fails or no probe
-- passes, degraded if probes fail otherwise, and healthy if none fails. Neither the number of
-- failures nor their order counts.
pub overall_status_lem :
    (lower : String → String) (p : Probe) (ps : List Probe)
    → overall_status lower (p ∷ ps) ≡ (
        if some_critical lower (p ∷ ps) || not (some_passed (p ∷ ps))
        then unhealthy
        else if some_failed (p ∷ ps)
        then degraded
        else healthy)
unfolding overall_status
overall_status_lem lower p ps =
    judged_lem lower (counts lower (p ∷ ps)) (passed (p ∷ ps)) (some_critical lower (p ∷ ps))
      (some_failed (p ∷ ps)) (some_passed (p ∷ ps)) (critical_lem lower (p ∷ ps))
      (failed_lem lower (p ∷ ps)) (passed_lem (p ∷ ps)) (one_or_other p ps)
