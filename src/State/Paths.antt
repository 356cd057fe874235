-- ===== src/State/Paths.antt =====
-- tuntop/core/state.py: what a sequence of legal transitions can and cannot do.
use tun_top.Prelude.{
  ◌≤◌, ◌<◌, ◌≡◌, refl, Bool, true, false, arith, not, ◌&&◌, ◌||◌, List, [], ◌∷◌, Bool-cases, inl,
  inr,
}
use tun_top.State.{
  TunnelState, stopped, verifying, stopping, failed, allowed, place, same, member, is_health,
  is_start_sequence,
}

-- Every step of `path`, from `s` on, is a legal transition.
unfoldable pub follows : TunnelState → List TunnelState → Bool
follows s [] = true
follows s (t ∷ path) = allowed s t && follows t path

-- Where `path` ends.
unfoldable pub final : TunnelState → List TunnelState → TunnelState
final s [] = s
final s (t ∷ path) = final t path

entry_to_health :
    (s t : TunnelState)
    → allowed s t ≡ true
    → is_health s ≡ false
    → is_health t ≡ true
    → s ≡ verifying
unfolding allowed
entry_to_health stopped t a hs ht = ground arith
entry_to_health _ t a hs ht = ground arith

health_after_verifying :
    (s : TunnelState) (path : List TunnelState)
    → follows s path ≡ true
    → is_health s ≡ false
    → is_health (final s path) ≡ true
    → member verifying (s ∷ path) ≡ true
unfolding follows final
health_after_verifying s [] f hs hf = ground arith
health_after_verifying s (t ∷ path) f hs hf = elim (Bool-cases (is_health t)) [
  | inl ht ↦ ground (arith, entry_to_health s t)
  | inr ht ↦ ground (arith, health_after_verifying t path)
]

-- A tunnel that starts out stopped and makes legal transitions only is never running, degraded or
-- recovering unless it was verifying on the way.
pub health_needs_verifying :
    (path : List TunnelState)
    → follows stopped path ≡ true
    → is_health (final stopped path) ≡ true
    → member verifying path ≡ true
health_needs_verifying path f h = health_after_verifying stopped path f refl h

-- Up, or on the way up.
abbrev is_live : TunnelState → Bool
is_live s = is_start_sequence s || is_health s

abbrev pub avoids_exits : List TunnelState → Bool
avoids_exits path = not (member failed path) && not (member stopping path)

live_step :
    (s t : TunnelState)
    → allowed s t ≡ true
    → is_live s ≡ true
    → same failed t ≡ false
    → same stopping t ≡ false
    → (is_live t ≡ true) × (is_start_sequence t ≡ true → place s < place t)
unfolding allowed
live_step stopped t a l nf ns = ground arith
live_step _ t a l nf ns = ground arith

phase_place : (s : TunnelState) → is_start_sequence s ≡ true → place s ≤ 6
phase_place s h = ground arith

health_place : (s : TunnelState) → is_health s ≡ true → 7 ≤ place s
health_place s h = ground arith

no_way_back :
    (s : TunnelState) (path : List TunnelState)
    → follows s path ≡ true
    → is_live s ≡ true
    → avoids_exits path ≡ true
    → is_start_sequence (final s path) ≡ true
    → place s ≤ place (final s path)
unfolding follows final
no_way_back s [] f l av st = omega arith
no_way_back s (t ∷ path) f l av st =
    ground (arith, live_step s t, no_way_back t path, phase_place (final t path), health_place t)

-- From a start phase, legal transitions that avoid `failed` and `stopping` reach only later start
-- phases: to enter a phase again the tunnel has to fail or stop.
pub restart_needs_exit :
    (s t : TunnelState) (path : List TunnelState)
    → follows s (t ∷ path) ≡ true
    → is_start_sequence s ≡ true
    → avoids_exits (t ∷ path) ≡ true
    → is_start_sequence (final s (t ∷ path)) ≡ true
    → place s < place (final s (t ∷ path))
unfolding follows final
restart_needs_exit s t path f l av st =
    ground (arith, live_step s t, no_way_back t path, phase_place (final t path), health_place t)
