-- ===== src/State/Edges.antt =====
-- tuntop/core/state.py: the transition table as a data type of moves.
use tun_top.Prelude.{◌<◌, ◌≡◌, ◌≢◌, ◌↔◌, refl, true, arith}
use tun_top.State.{
  TunnelState, stopped, starting, verifying, running, degraded, stopping, failed, allowed, place,
  is_health, is_start_sequence,
}

-- The moves of the table.
pub data Edge : TunnelState → TunnelState → Type 0 where
  launch : Edge stopped starting
  advance :
      {s t : TunnelState}
      → is_start_sequence s ≡ true
      → is_start_sequence t ≡ true
      → place s < place t
      → Edge s t
  abort : {s : TunnelState} → is_start_sequence s ≡ true → Edge s failed
  cancel : {s : TunnelState} → is_start_sequence s ≡ true → Edge s stopping
  verified : Edge verifying running
  unverified : Edge verifying degraded
  cycle : {s t : TunnelState} → is_health s ≡ true → is_health t ≡ true → s ≢ t → Edge s t
  lose : {s : TunnelState} → is_health s ≡ true → Edge s failed
  quit : {s : TunnelState} → is_health s ≡ true → Edge s stopping
  finish : Edge stopping stopped
  stuck : Edge stopping failed
  retry : Edge failed starting
  clean_up : Edge failed stopping
  acknowledge : Edge failed stopped

ruleset edges = (
  launch, abort, cancel, verified, unverified, lose, quit, finish, stuck, retry, clean_up,
  acknowledge, cycle, advance,
)

pub allowed-Edge : (s t : TunnelState) → allowed s t ≡ true → Edge s t
unfolding allowed
allowed-Edge stopped t h = grind (arith, edges)
allowed-Edge starting t h = grind (arith, edges)
allowed-Edge running t h = grind (arith, edges)
allowed-Edge _ t h = grind (arith, edges)

pub Edge-allowed : {s t : TunnelState} → Edge s t → allowed s t ≡ true
unfolding allowed
Edge-allowed launch = refl
Edge-allowed (advance {s} {t} hs ht lt) = ground arith
Edge-allowed (abort {s} h) = ground arith
Edge-allowed (cancel {s} h) = ground arith
Edge-allowed verified = refl
Edge-allowed unverified = refl
Edge-allowed (cycle {s} {t} hs ht ne) = ground arith
Edge-allowed (lose {s} h) = ground arith
Edge-allowed (quit {s} h) = ground arith
Edge-allowed finish = refl
Edge-allowed stuck = refl
Edge-allowed retry = refl
Edge-allowed clean_up = refl
Edge-allowed acknowledge = refl

-- The two forms of the table agree.
pub allowed_iff : (s t : TunnelState) → (allowed s t ≡ true) ↔ Edge s t
allowed_iff s t = (allowed-Edge s t, Edge-allowed)
