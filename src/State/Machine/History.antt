-- ===== src/State/Machine/History.antt =====
-- tuntop/core/state.py: the recorded history of a machine, after any sequence of calls.
use tun_top.Prelude.{
  ℕ, zero, suc, ◌-◌, ◌≤◌, ◌≡◌, refl, ◌⊎◌, String, Bool, true, false, arith, Option, none, some, inl,
  inr, List, [], ◌∷◌, ◌++◌, All, length, drop, push_bounded, length-push_bounded, All-push_bounded,
}
use tun_top.Prelude.Results.{ok}
use tun_top.State.{TunnelState, stopped, allowed}
use tun_top.State.Machine.{
  Machine, StateTransition, new_transition, enter, or_none_machine, Target, state, other,
  new_machine, transition, try_transition, reset, observe, unsubscribe,
}

-- Each event begins where the one before it ended, and the last one ends at `current`.
abbrev first_source : List StateTransition → TunnelState → TunnelState
first_source [] current = current
first_source (e ∷ es) current = e.source

abbrev pub Chained : List StateTransition → TunnelState → Type 0
Chained [] current = Unit
Chained (e ∷ es) current = (e.target ≡ first_source es current) × Chained es current

-- A legal move, or one to a state to which a move was forced.
abbrev pub IsLegal : (TunnelState → Type 0) → StateTransition → Type 0
IsLegal Forced e = (allowed e.source e.target ≡ true) ⊎ Forced e.target

pub record IsWellFormed (Forced : TunnelState → Type 0) (m : Machine) : Type 0 where
  pub bounded : length m.history ≤ m.history_size
  pub chained : Chained m.history m.current
  pub legal : All (IsLegal Forced) m.history

Chained-drop :
    (n : ℕ) (es : List StateTransition) (c : TunnelState) → Chained es c → Chained (drop n es) c
Chained-drop zero es c h = h
Chained-drop (suc n) [] c h = h
Chained-drop (suc n) (e ∷ es) c h = Chained-drop n es c h.1

Chained-append :
    (es : List StateTransition) (c : TunnelState) (e : StateTransition)
    → Chained es c
    → e.source ≡ c
    → Chained (es ++ e ∷ []) e.target
Chained-append [] c e h p = (refl, tt)
Chained-append (x ∷ []) c e h p = ground arith
Chained-append (x ∷ y ∷ es) c e h p = (h.0, Chained-append (y ∷ es) c e h.1 p)

Chained-push_bounded :
    (n : ℕ) (es : List StateTransition) (c : TunnelState) (e : StateTransition)
    → Chained es c
    → e.source ≡ c
    → Chained (push_bounded n es e) e.target
unfolding push_bounded
Chained-push_bounded n es c e h p =
    Chained-drop (length (es ++ e ∷ []) - n) (es ++ e ∷ []) e.target (Chained-append es c e h p)

-- The methods that change a machine; the flag of a transition is `force`.
pub data Call : Type 0 where
  do_transition : Target → Option String → Bool → Call
  try : Target → Option String → Call
  do_reset : Option String → Call
  do_observe do_unsubscribe : ℕ → Call

unfoldable pub run : Call → ℕ → Machine → Machine
run (do_transition target reason force) now m = (transition target reason force now m).1
run (try target reason) now m = (try_transition target reason now m).1
run (do_reset reason) now m = (reset reason now m).1
run (do_observe fn) now m = observe fn m
run (do_unsubscribe fn) now m = unsubscribe fn m

-- Any interleaving of the calls of any number of threads, each with its time.
unfoldable pub run_all : List (Call × ℕ) → Machine → Machine
run_all [] m = m
run_all ((call, now) ∷ calls) m = run_all calls (run call now m)

-- The state to which a call forces a move.
abbrev forced_by : Call → Option TunnelState
forced_by (do_transition (state target) reason true) = some target
forced_by (do_transition (state target) reason false) = none
forced_by (do_transition (other name) reason force) = none
forced_by (try target reason) = none
forced_by (do_reset reason) = some stopped
forced_by (do_observe fn) = none
forced_by (do_unsubscribe fn) = none

-- One of the calls forces a move to that state.
abbrev pub Forces : List (Call × ℕ) → TunnelState → Type 0
Forces [] s = ⊥
Forces (c ∷ cs) s = (forced_by c.0 ≡ some s) ⊎ Forces cs s

module _ (Forced : TunnelState → Type 0) where
  enter-IsWellFormed :
      (target : TunnelState) (reason : Option String) (now : ℕ) (m : Machine)
      → (allowed m.current target ≡ true) ⊎ Forced target
      → IsWellFormed Forced m
      → IsWellFormed Forced (enter target reason now m)
  enter-IsWellFormed target reason now m l h =
      let e = new_transition m.current target reason now now in
      record {
        bounded = length-push_bounded m.history_size m.history e;
        chained = Chained-push_bounded m.history_size m.history m.current e h.chained refl;
        legal = All-push_bounded (IsLegal Forced) m.history_size m.history e h.legal l;
      }

  transition-IsWellFormed :
      (target : Target) (reason : Option String) (force : Bool) (now : ℕ) (m : Machine)
      → ((t : TunnelState) → force ≡ true → target ≡ state t → Forced t)
      → IsWellFormed Forced m
      → IsWellFormed Forced (transition target reason force now m).1
  unfolding transition
  transition-IsWellFormed (other name) reason force now m f h = h
  transition-IsWellFormed (state target) reason true now m f h =
      let forced = f target refl refl in
      ground (arith, enter-IsWellFormed target reason now m (inr forced) h)
  transition-IsWellFormed (state target) reason false now m f h =
      ground (arith, enter-IsWellFormed target reason now m)

  try-IsWellFormed :
      (target : Target) (reason : Option String) (now : ℕ) (m : Machine)
      → IsWellFormed Forced m
      → IsWellFormed Forced (try_transition target reason now m).1
  unfolding try_transition
  try-IsWellFormed target reason now m h =
      rw (or_none_machine (transition target reason false now m))
        (transition-IsWellFormed target reason false now m (λ t p. absurd (cc)) h)

  forced_here :
      (target : Target) (reason : Option String) (force : Bool) (t : TunnelState)
      → force ≡ true
      → target ≡ state t
      → forced_by (do_transition target reason force) ≡ some t
  forced_here (other name) reason force t p q = absurd (cc)
  forced_here (state s) reason true t p q = cc
  forced_here (state s) reason false t p q = absurd (cc)

  run-IsWellFormed :
      (call : Call) (now : ℕ) (m : Machine)
      → ((t : TunnelState) → forced_by call ≡ some t → Forced t)
      → IsWellFormed Forced m
      → IsWellFormed Forced (run call now m)
  unfolding run
  run-IsWellFormed (do_transition target reason force) now m f h =
      transition-IsWellFormed target reason force now m
        (λ t p q. f t (forced_here target reason force t p q)) h
  run-IsWellFormed (try target reason) now m f h = try-IsWellFormed target reason now m h
  run-IsWellFormed (do_reset reason) now m f h =
      unfold reset in
      (transition-IsWellFormed (state stopped) reason true now m
        (λ t p q. f t (forced_here (state stopped) reason true t p q)) h)
  run-IsWellFormed (do_observe fn) now m f h =
      unfold observe in record { bounded = h.bounded; chained = h.chained; legal = h.legal }
  run-IsWellFormed (do_unsubscribe fn) now m f h =
      unfold unsubscribe in record { bounded = h.bounded; chained = h.chained; legal = h.legal }

  run_all-from :
      (calls : List (Call × ℕ)) (m : Machine)
      → ((t : TunnelState) → Forces calls t → Forced t)
      → IsWellFormed Forced m
      → IsWellFormed Forced (run_all calls m)
  unfolding run_all
  run_all-from [] m f h = h
  run_all-from ((call, now) ∷ calls) m f h =
      run_all-from calls (run call now m) (λ t p. f t (inr p))
        (run-IsWellFormed call now m (λ t p. f t (inl p)) h)

-- After any interleaving of calls on a new machine, forced transitions among them, the recorded
-- history has at most `history_size` events, each beginning where the one before it ended, the
-- last one ending in the current state, and each of them is a legal move, or leads to a state to
-- which one of the calls forces a move: a transition with `force`, or a reset to `stopped`.
pub run_all-IsWellFormed :
    (initial : Target) (history_size start : ℕ) (calls : List (Call × ℕ)) (m : Machine)
    → new_machine initial history_size start ≡ ok m
    → IsWellFormed (Forces calls) (run_all calls m)
unfolding new_machine
run_all-IsWellFormed (other name) n start calls m e = absurd (cc)
run_all-IsWellFormed (state initial) n start calls m e =
    run_all-from (Forces calls) calls m (λ t p. p) (ground arith)
