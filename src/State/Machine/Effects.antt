-- ===== src/State/Machine/Effects.antt =====
-- tuntop/core/state.py: what a call of `transition`, `try_transition` and `reset` does, on every
-- branch.
use tun_top.Prelude.{
  ℕ, ◌+◌, ◌≡◌, ◌↔◌, refl, inl, inr, String, true, false, arith, Option, none, some, ◌++◌, map,
  push_bounded, Bool-cases, if◌then◌else◌,
}
use tun_top.Prelude.Results.{ok, err}
use tun_top.State.{TunnelState, stopped, allowed, same}
use tun_top.State.Edges.{Edge, Edge-allowed, allowed-Edge}
use tun_top.State.Machine.{
  Machine, transition_error, StateTransition, state, can_transition, transition, try_transition,
  reset, new_transition, enter, reject, reason_or,
}

same→eq : (s t : TunnelState) → same s t ≡ true → s ≡ t
same→eq s t h = ground arith

not_allowed_self : (s : TunnelState) → allowed s s ≡ false
unfolding allowed
not_allowed_self s = ground arith

-- The fields that only a move changes.
abbrev pub Unmoved : Machine → Machine → Type 0
Unmoved m m' =
    (m'.current ≡ m.current)
    × (m'.entered_at ≡ m.entered_at)
    × (m'.last_reason ≡ m.last_reason)
    × (m'.history ≡ m.history)
    × (m'.sent ≡ m.sent)
    × (m'.observers ≡ m.observers)

-- A call moved the machine to `target`: the event is recorded, and sent once to each observer.
abbrev pub Moved : TunnelState → Option String → ℕ → Machine → Machine → Type 0
Moved target reason now m m' =
    let event = new_transition m.current target reason now now in
    (m'.current ≡ target)
    × (m'.entered_at ≡ now)
    × (m'.last_reason ≡ reason_or reason "")
    × (m'.history ≡ push_bounded m.history_size m.history event)
    × (m'.sent ≡ m.sent ++ map (λ fn. (fn, event)) m.observers)
    × (m'.rejected ≡ m.rejected)

-- Why an unforced call is refused.
abbrev pub refusal : TunnelState → TunnelState → String
refusal source target =
    if same source target then "already in that state" else "transition not allowed"

allowed_not_same : (s t : TunnelState) → allowed s t ≡ true → same s t ≡ false
allowed_not_same s t h = elim (Bool-cases (same s t)) [
  | inl e ↦ cc (same→eq s t e, not_allowed_self s)
  | inr ne ↦ ne
]

module _ (target : TunnelState) (reason : Option String) (now : ℕ) (m : Machine) where
  transition_moves :
      allowed m.current target ≡ true
      → transition (state target) reason false now m
        ≡ (ok (some (new_transition m.current target reason now now)), enter target reason now m)
  unfolding transition
  transition_moves h = ground (arith, allowed_not_same m.current target h)

  transition_refuses :
      allowed m.current target ≡ false
      → transition (state target) reason false now m ≡ (
        err (transition_error m.current target (refusal m.current target)),
        reject m.current target (refusal m.current target) now m,
      )
  unfolding transition
  transition_refuses h = ground arith

  -- An unforced call with a legal move makes the move, returns its event, and sends it once
  -- to each observer in the order of registration.
  pub transition-Edge :
      Edge m.current target
      → ((transition (state target) reason false now m).0
          ≡ ok (some (new_transition m.current target reason now now)))
        × Moved target reason now m (transition (state target) reason false now m).1
  transition-Edge e =
      rw (transition_moves (Edge-allowed e)) (refl, (refl, ground arith, refl, refl, refl, refl))

  -- An unforced call with any other target raises the error that names both states and the cause.
  -- The machine does not move, nobody is told, and the refusal is counted and kept.
  pub transition-refused :
      ¬ Edge m.current target
      → ((transition (state target) reason false now m).0
          ≡ err (transition_error m.current target (refusal m.current target)))
        × Unmoved m (transition (state target) reason false now m).1
        × ((transition (state target) reason false now m).1.rejected ≡ m.rejected + 1)
        × ((transition (state target) reason false now m).1.last_rejection
            ≡ some (record {
              source = m.current;
              target = target;
              why = refusal m.current target;
              ts = now;
            }))
  transition-refused n =
      let e : allowed m.current target ≡ false = elim (Bool-cases (allowed m.current target)) [
        | inl h ↦ absurd (n (allowed-Edge m.current target h))
        | inr h ↦ h
      ] in
      rw (transition_refuses e) (refl, (refl, refl, refl, refl, refl, refl), refl, refl)

  returned_event :
      (event : StateTransition)
      → (transition (state target) reason false now m).0 ≡ ok (some event)
      → allowed m.current target ≡ true
  returned_event event p = elim (Bool-cases (allowed m.current target)) [
    | inl h ↦ h
    | inr h ↦ absurd (cc (transition_refuses h))
  ]

  -- `can_transition` answers whether the unforced call would return an event.
  pub can_transition_iff : (can_transition m (state target) ≡ true) ↔ (
      (event : StateTransition) × ((transition (state target) reason false now m).0
        ≡ ok (some event)))
  unfolding can_transition
  can_transition_iff = (
    λ h. (new_transition m.current target reason now now, rw (transition_moves h)),
    λ (event, p). returned_event event p,
  )

  try_moves :
      allowed m.current target ≡ true
      → try_transition (state target) reason now m
        ≡ (some (new_transition m.current target reason now now), enter target reason now m)
  unfolding try_transition
  try_moves h = rw (transition_moves h)

  try_refused :
      allowed m.current target ≡ false
      → try_transition (state target) reason now m
        ≡ (none, reject m.current target (refusal m.current target) now m)
  unfolding try_transition
  try_refused h = rw (transition_refuses h)

-- Of two threads that ask for the same state the second is refused, whatever became of the first:
-- it gets no event, moves nothing and tells nobody, and its attempt is counted.
pub try_transition_twice :
    (target : TunnelState) (reason reason' : Option String) (now later : ℕ) (m : Machine)
    → let first = (try_transition (state target) reason now m).1 in
      let second = try_transition (state target) reason' later first in
      (second.0 ≡ none) × Unmoved first second.1 × (second.1.rejected ≡ first.rejected + 1)
try_transition_twice target reason reason' now later m =
    elim (Bool-cases (allowed m.current target)) [
      | inl h ↦
          rw
            (
              try_moves target reason now m h,
              try_refused target reason' later (enter target reason now m)
                  (not_allowed_self target),
            )
            (refl, (refl, refl, refl, refl, refl, refl), refl)
      | inr h ↦
          rw
            (
              try_refused target reason now m h,
              try_refused target reason' later
                  (reject m.current target (refusal m.current target) now m) h,
            )
            (refl, (refl, refl, refl, refl, refl, refl), refl)
    ]

-- `reset` never raises, and leaves the machine stopped. It announces an event exactly if the
-- machine was in another state, and counts no refusal.
pub reset_lem :
    (reason : Option String) (now : ℕ) (m : Machine)
    → ((reset reason now m).0
        ≡ ok (
            if same m.current stopped
            then none
            else some (new_transition m.current stopped reason now now)))
      × ((reset reason now m).1.current ≡ stopped)
      × ((reset reason now m).1.sent ≡ (
          if same m.current stopped
          then m.sent
          else m.sent
            ++ map (λ fn. (fn, new_transition m.current stopped reason now now)) m.observers))
      × ((reset reason now m).1.rejected ≡ m.rejected)
unfolding reset
reset_lem reason now m = ground (arith, same→eq m.current stopped)

-- Where an unforced request leaves the machine.
pub current-try_transition :
    (target : TunnelState) (reason : Option String) (now : ℕ) (m : Machine)
    → (try_transition (state target) reason now m).1.current
      ≡ (if allowed m.current target then target else m.current)
current-try_transition target reason now m = elim (Bool-cases (allowed m.current target)) [
  | inl h ↦ rw (try_moves target reason now m h, h)
  | inr h ↦ rw (try_refused target reason now m h, h)
]

-- Whether an unforced request returns an event.
pub event-try_transition :
    (target : TunnelState) (reason : Option String) (now : ℕ) (m : Machine)
    → (try_transition (state target) reason now m).0 ≡ (
        if allowed m.current target
        then some (new_transition m.current target reason now now)
        else none)
event-try_transition target reason now m = elim (Bool-cases (allowed m.current target)) [
  | inl h ↦ rw (try_moves target reason now m h, h)
  | inr h ↦ rw (try_refused target reason now m h, h)
]
