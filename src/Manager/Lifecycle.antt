-- ===== src/Manager/Lifecycle.antt =====
-- tuntop/core/tunnel_manager.py: which state a request leaves, on every branch.
use tun_top.Prelude.{
  ℕ, ◌≡◌, ◌↔◌, refl, inl, inr, String, Bool, true, false, arith, Option, none, some, if◌then◌else◌,
  Bool-cases, ◌||◌,
}
use tun_top.State.{
  TunnelState, stopped, starting, verifying, failed, allowed, is_operational, is_start_sequence,
  same,
}
use tun_top.State.Machine.{Machine, state, try_transition}
use tun_top.State.Machine.Effects.{current-try_transition, event-try_transition}
use tun_top.Manager.{Manager, after_launch, request_start, call}

pub can_start : (c : TunnelState) → allowed c starting ≡ (same c stopped || same c failed)
unfolding allowed
can_start c = ground arith

to_verifying :
    (c : TunnelState)
    → is_start_sequence c ≡ true
    → (if allowed c verifying then verifying else c) ≡ verifying
unfolding allowed
to_verifying c h = ground arith

to_failed :
    (c : TunnelState)
    → is_start_sequence c ≡ true
    → (if allowed c failed then failed else c) ≡ failed
unfolding allowed
to_failed c h = ground arith

quiet :
    (c target : TunnelState)
    → is_operational target ≡ false
    → is_operational c ≡ false
    → is_operational (if allowed c target then target else c) ≡ false
quiet c target h k = ground arith

-- What the code after the launch returns and where it leaves the machine.
returned-after_launch :
    (v : Bool) (later : ℕ) (end : Machine × Option String) (s : Manager)
    → ((after_launch v later end s).0 ≡ true) ↔ (end.1 ≡ none)
returned-after_launch v later (m, none) s = (λ _. refl, λ _. refl)
returned-after_launch v later (m, some e) s = (λ h. cc, λ h. cc)

current-after_launch :
    (v : Bool) (later : ℕ) (end : Machine × Option String) (s : Manager)
    → is_start_sequence end.0.current ≡ true
    → (after_launch v later end s).1.machine.current ≡ (
        if (after_launch v later end s).0 then (if v then verifying else end.0.current) else failed)
current-after_launch true later (m, none) s h = rw current-try_transition (to_verifying m.current h)
current-after_launch false later (m, none) s h = refl
current-after_launch v later (m, some e) s h = rw current-try_transition (to_failed m.current h)

after_launch_quiet :
    (v : Bool) (later : ℕ) (end : Machine × Option String) (s : Manager)
    → is_operational end.0.current ≡ false
    → is_operational (after_launch v later end s).1.machine.current ≡ false
after_launch_quiet true later (m, none) s h =
    rw current-try_transition (quiet m.current verifying refl h)
after_launch_quiet false later (m, none) s h = h
after_launch_quiet v later (m, some e) s h =
    rw current-try_transition (quiet m.current failed refl h)

module _ (v : Bool) (now later : ℕ) (s : Manager) where
  -- The machine that the launch finds, and what the launch leaves.
  abbrev pub at_launch : Machine
  at_launch = (try_transition (state starting) (some "user start") now s.machine).1

  abbrev pub launched : Machine × Option String
  launched = call s.hooks.launch at_launch

  pub start_allowed :
      allowed s.machine.current starting ≡ true
      → request_start v now later s
        ≡ after_launch v later launched (record s { machine = at_launch })
  unfolding request_start
  start_allowed h = ground (arith, event-try_transition starting (some "user start") now s.machine)

  pub start_refused :
      allowed s.machine.current starting ≡ false
      → request_start v now later s ≡ (false, record s { machine = at_launch })
  unfolding request_start
  start_refused h = ground (arith, event-try_transition starting (some "user start") now s.machine)

  -- A start succeeds exactly if the tunnel was stopped or failed and the launch returned.
  pub request_start_iff : ((request_start v now later s).0 ≡ true) ↔ (
      ((same s.machine.current stopped || same s.machine.current failed) ≡ true)
      × (launched.1 ≡ none))
  request_start_iff = elim (Bool-cases (allowed s.machine.current starting)) [
    | inl h ↦
        rw (start_allowed h, ← can_start s.machine.current, h)
          (
            λ r. (
              refl,
              (returned-after_launch v later launched (record s { machine = at_launch })).0 r,
            ),
            λ (_, r).
                (returned-after_launch v later launched (record s { machine = at_launch })).1 r,
          )
    | inr h ↦ rw (start_refused h, ← can_start s.machine.current, h) (λ r. cc, λ (r, _). cc)
  ]

  -- What a start leaves of a launch that ended in the start sequence: `verifying` or, if
  -- `verify_immediately` is not set, the phase that the launch reached; after an exception `failed`.
  pub current-request_start :
      allowed s.machine.current starting ≡ true
      → is_start_sequence launched.0.current ≡ true
      → (request_start v now later s).1.machine.current ≡ (
          if (request_start v now later s).0
          then (if v then verifying else launched.0.current)
          else failed)
  current-request_start h l =
      rw (start_allowed h)
        (current-after_launch v later launched (record s { machine = at_launch }) l)

  -- A start alone never reports a tunnel as up: if the machine is running or degraded afterwards,
  -- it was so already, or the launch made it so.
  pub request_start_not_operational :
      is_operational s.machine.current ≡ false
      → is_operational launched.0.current ≡ false
      → is_operational (request_start v now later s).1.machine.current ≡ false
  request_start_not_operational h l = elim (Bool-cases (allowed s.machine.current starting)) [
    | inl a ↦
        rw (start_allowed a)
          (after_launch_quiet v later launched (record s { machine = at_launch }) l)
    | inr a ↦ rw (start_refused a, current-try_transition, a) h
  ]
