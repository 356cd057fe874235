-- ===== src/State.antt =====
-- tuntop/core/state.py: the states of the tunnel and the table of the legal transitions.
pub mod Edges
pub mod Paths
pub mod Machine
use tun_top.Prelude.{
  ℕ, ◌≡◌, refl, Bool, true, false, not, ◌&&◌, ◌||◌, List, [], ◌∷◌, ◌++◌, map, ◌==◌, if◌then◌else◌,
}

pub data TunnelState : Type 0 where
  stopped starting resolving starting_tun starting_tun2socks installing_routes verifying :
      TunnelState
  running degraded recovering stopping failed : TunnelState

-- The place of a member in the enumeration; members are compared by identity.
abbrev pub place : TunnelState → ℕ
place stopped = 0
place starting = 1
place resolving = 2
place starting_tun = 3
place starting_tun2socks = 4
place installing_routes = 5
place verifying = 6
place running = 7
place degraded = 8
place recovering = 9
place stopping = 10
place failed = 11

abbrev pub same : TunnelState → TunnelState → Bool
same s t = place s == place t

-- `s in states`
abbrev pub member : TunnelState → List TunnelState → Bool
member s [] = false
member s (t ∷ ts) = same s t || member s ts

-- `states |= others`
abbrev pub union : List TunnelState → List TunnelState → List TunnelState
union states [] = states
union states (t ∷ ts) = union (if member t states then states else states ++ t ∷ []) ts

abbrev pub all_states : List TunnelState
all_states =
    stopped ∷ starting ∷ resolving ∷ starting_tun ∷ starting_tun2socks ∷ installing_routes
    ∷ verifying ∷ running ∷ degraded ∷ recovering ∷ stopping ∷ failed ∷ []

abbrev pub operational : List TunnelState
operational = running ∷ degraded ∷ []

abbrev pub terminal : List TunnelState
terminal = stopped ∷ failed ∷ []

abbrev pub health : List TunnelState
health = union operational (recovering ∷ [])

abbrev pub start_seq : List TunnelState
start_seq =
    starting ∷ resolving ∷ starting_tun ∷ starting_tun2socks ∷ installing_routes ∷ verifying ∷ []

abbrev pub is_operational : TunnelState → Bool
is_operational s = member s operational

abbrev pub is_terminal : TunnelState → Bool
is_terminal s = member s terminal

abbrev pub is_transitioning : TunnelState → Bool
is_transitioning s = not (is_operational s) && not (is_terminal s)

abbrev pub is_start_sequence : TunnelState → Bool
is_start_sequence s = member s start_seq

abbrev pub is_health : TunnelState → Bool
is_health s = member s health

abbrev pub Graph : Type 0
Graph = List (TunnelState × List TunnelState)

-- `graph[s]`; every state is a key of the graph.
abbrev pub targets : Graph → TunnelState → List TunnelState
targets [] s = []
targets ((k, ts) ∷ graph) s = if same k s then ts else targets graph s

-- `graph[s] = ts`
abbrev set_targets : TunnelState → List TunnelState → Graph → Graph
set_targets s ts [] = (s, ts) ∷ []
set_targets s ts ((k, old) ∷ graph) =
    if same k s then (k, ts) ∷ graph else (k, old) ∷ set_targets s ts graph

-- `graph[s] |= ts`
abbrev add_targets : TunnelState → List TunnelState → Graph → Graph
add_targets s ts graph = set_targets s (union (targets graph s) ts) graph

-- The loop over the start phases: skip-ahead edges, and the two escapes.
abbrev add_phases : List TunnelState → Graph → Graph
add_phases [] graph = graph
add_phases (phase ∷ later) graph =
    add_phases later (add_targets phase (failed ∷ stopping ∷ []) (add_targets phase later graph))

abbrev build_transitions : Graph
build_transitions =
    let phases = add_phases start_seq (map (λ s. (s, [])) all_states) in
    let g1 = set_targets stopped (starting ∷ []) phases in
    let g2 = add_targets verifying (running ∷ degraded ∷ []) g1 in
    let g3 = set_targets running (degraded ∷ recovering ∷ stopping ∷ failed ∷ []) g2 in
    let g4 = set_targets degraded (running ∷ recovering ∷ stopping ∷ failed ∷ []) g3 in
    let g5 = set_targets recovering (running ∷ degraded ∷ stopping ∷ failed ∷ []) g4 in
    let g6 = set_targets stopping (stopped ∷ failed ∷ []) g5 in
    set_targets failed (starting ∷ stopping ∷ stopped ∷ []) g6

-- `target in TRANSITIONS[source]`
unfoldable pub allowed : TunnelState → TunnelState → Bool
allowed source target = member target (targets build_transitions source)
