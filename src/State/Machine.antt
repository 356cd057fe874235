-- ===== src/State/Machine.antt =====
-- tuntop/core/state.py: `TunnelStateMachine`. Each method that holds the lock is one function from
-- the machine to the machine; the clock is an argument. `sent` lists the calls made to observers:
-- what an observer raises is swallowed by the code, so only the calls matter.
pub mod History
pub mod Effects
use tun_top.Prelude.{
  ℕ, ◌+◌, ◌≡◌, refl, String, Bool, true, false, not, ◌&&◌, Option, none, some, List, [], ◌∷◌, ◌++◌,
  map, ◌==◌, if◌then◌else◌, push_bounded, or_text,
}
use tun_top.Prelude.Results.{Result, ok, err}
use tun_top.State.{TunnelState, stopped, same, allowed}

pub record StateTransition : Type 0 where
  pub source : TunnelState
  pub target : TunnelState
  pub reason : Option String
  pub timestamp : ℕ

-- `__post_init__`: a zero timestamp is replaced by the clock.
abbrev pub new_transition : TunnelState → TunnelState → Option String → ℕ → ℕ → StateTransition
new_transition source target reason timestamp now = record {
  source = source;
  target = target;
  reason = reason;
  timestamp = if timestamp == 0 then now else timestamp;
}

pub record Rejection : Type 0 where
  pub source : TunnelState
  pub target : TunnelState
  pub why : String
  pub ts : ℕ

pub data MachineError : Type 0 where
  type_error : String → MachineError
  transition_error : TunnelState → TunnelState → String → MachineError

-- What a caller passes for a state: a member of the enumeration, or a value of another type, whose
-- type name the message quotes.
pub data Target : Type 0 where
  state : TunnelState → Target
  other : String → Target

pub record Machine : Type 0 where
  pub current : TunnelState
  pub entered_at : ℕ
  pub last_reason : String
  pub history_size : ℕ
  pub history : List StateTransition
  pub observers : List ℕ
  pub rejected : ℕ
  pub last_rejection : Option Rejection
  pub sent : List (ℕ × StateTransition)

-- `TunnelStateMachine(initial, history_size)`
unfoldable pub new_machine : Target → ℕ → ℕ → Result MachineError Machine
new_machine (other name) history_size now = err (type_error name)
new_machine (state initial) history_size now = ok (record {
  current = initial;
  entered_at = now;
  last_reason = "initial state";
  history_size = history_size;
  history = [];
  observers = [];
  rejected = 0;
  last_rejection = none;
  sent = [];
})

-- `reason or default`
abbrev pub reason_or : Option String → String → String
reason_or none default = default
reason_or (some reason) default = or_text reason default

unfoldable pub can_transition : Machine → Target → Bool
can_transition m (other name) = false
can_transition m (state target) = allowed m.current target

-- `_reject`
abbrev reject : TunnelState → TunnelState → String → ℕ → Machine → Machine
reject source target why now m = record m {
  rejected = m.rejected + 1;
  last_rejection = some (record { source = source; target = target; why = why; ts = now });
}

-- `_notify`
abbrev pub notify : StateTransition → Machine → Machine
notify event m = record m { sent = m.sent ++ map (λ fn. (fn, event)) m.observers }

-- The part of `transition` under the lock that changes the state, then the announcement.
abbrev enter : TunnelState → Option String → ℕ → Machine → Machine
enter target reason now m =
    let event = new_transition m.current target reason now now in
    notify event (record m {
      current = target;
      entered_at = event.timestamp;
      last_reason = reason_or reason "";
      history = push_bounded m.history_size m.history event;
    })

abbrev already_there : String
already_there = "already in that state"

abbrev not_allowed : String
not_allowed = "transition not allowed"

abbrev pub Outcome : Type 0
Outcome = Result MachineError (Option StateTransition) × Machine

-- `transition(target, reason, force)`, at the time `now`
unfoldable pub transition : Target → Option String → Bool → ℕ → Machine → Outcome
transition (other name) reason force now m = (err (type_error name), m)
transition (state target) reason force now m =
    if same m.current target && not force
    then (
      err (transition_error m.current target already_there),
      reject m.current target already_there now m,
    )
    else if same m.current target && force
    then (ok none, record m { last_reason = reason_or reason m.last_reason })
    else if not force && not (allowed m.current target)
    then (
      err (transition_error m.current target not_allowed),
      reject m.current target not_allowed now m,
    )
    else (ok (some (new_transition m.current target reason now now)), enter target reason now m)

-- `except (TransitionError, TypeError): return None`
abbrev or_none : Outcome → Option StateTransition × Machine
or_none (ok event, m) = (event, m)
or_none (err e, m) = (none, m)

or_none_machine : (o : Outcome) → (or_none o).1 ≡ o.1
or_none_machine (ok event, m) = refl
or_none_machine (err e, m) = refl

-- `try_transition(target, reason)`
unfoldable pub try_transition :
    Target → Option String → ℕ → Machine → Option StateTransition × Machine
unfolding transition
try_transition target reason now m = or_none (transition target reason false now m)

-- `reset(reason)`
unfoldable pub reset : Option String → ℕ → Machine → Outcome
unfolding transition
reset reason now m = transition (state stopped) reason true now m

-- `observe(fn)`
unfoldable pub observe : ℕ → Machine → Machine
observe fn m = record m { observers = m.observers ++ fn ∷ [] }

-- `list.remove`: the first entry goes, and a missing one is ignored.
abbrev pub remove_first : ℕ → List ℕ → List ℕ
remove_first fn [] = []
remove_first fn (x ∷ xs) = if x == fn then xs else x ∷ remove_first fn xs

-- The `unsubscribe` that `observe(fn)` returned
unfoldable pub unsubscribe : ℕ → Machine → Machine
unsubscribe fn m = record m { observers = remove_first fn m.observers }
