-- ===== src/V2/Resume.antt =====
-- v2/flow/resume.go: `Resume` and `ResumeWithState`. The closures over the maps of the checkpoint are
-- explicit state.
pub mod RoundTrip
pub mod Guards
pub mod Ends
use llm_agent_flow.Base.{
  ℕ, ◌+◌, String, Bool, true, false, not, ◌&&◌, ◌||◌, Option, none, some, List, [], ◌∷◌, Result, ok,
  err, ◌>>=◌, wrap, ◌==◌, if◌then◌else◌,
}
use llm_agent_flow.V2.Ir.{Mapping, Port}
use llm_agent_flow.V2.Value.{Value, PortTable, get_port, set_port}
use llm_agent_flow.V2.Errors.{
  RunError, checkpoint_not_found, load_failed, flow_changed, state_failed, port_failed,
  no_checkpoint_store, interrupt_node_not_found, invalid_human_input, edge_state_missing, Run,
}
use llm_agent_flow.V2.State.{StateCell, snapshot, set_committed, StateOption, build_state_cell}
use llm_agent_flow.V2.Codec.{Json, Registry, decode_port_value, state_codec_tag, is_nil}
use llm_agent_flow.V2.Nodes.{NodeKind}
use llm_agent_flow.V2.Engine.{GuardedEdge, Engine}
use llm_agent_flow.V2.Fire.{
  EdgeFireState, edge_deferred, Wiring, activate, evaluate, settle, Cursor, visit_mapping,
}
use llm_agent_flow.V2.Checkpoint.{RawSlot, Checkpoint, CheckpointStore}
use llm_agent_flow.V2.Tasks.{set_ports}
use llm_agent_flow.V2.Run.{Inputs, RunState}
use llm_agent_flow.V2.Run.Core.{Leg, failed, End, Services, run_layers}

-- `errors.Is(err, ErrCheckpointNotFound)` keeps the error.
unfoldable pub load_error : RunError → RunError
load_error checkpoint_not_found = checkpoint_not_found
load_error e = load_failed e

-- The switch over the hashes: whether the flow is one that the checkpoint is of.
unfoldable pub resumable : Engine → Checkpoint → Bool
resumable e cp =
    if cp.flow_hash == e.flow_hash
    then true
    else if not (cp.struct_hash == "")
    then cp.struct_hash == e.struct_hash
    else false

-- The keys of the human input must be output ports of the node.
abbrev pub declares : List Port → String → Bool
declares [] k = false
declares (p ∷ ports) k = p.name == k || declares ports k

unfoldable pub check_human_input : List Port → Inputs → Run (List Port)
check_human_input ports [] = ok ports
check_human_input ports ((k, v) ∷ inputs) =
    if declares ports k then check_human_input ports inputs else err (invalid_human_input k)

-- The loop over the deferred edges. An edge whose port has no value stays deferred.
unfoldable pub resume_edge : ℕ → GuardedEdge → EdgeFireState → Wiring → Run (EdgeFireState × Wiring)
unfolding get_port evaluate
resume_edge i e edge_deferred w = elim (get_port w.ports e.edge.source.node e.edge.source.port) [
  | none ↦ ok (edge_deferred, w)
  | some v ↦ do fires ← evaluate i e.guard v; ok (settle e v w fires)
]
resume_edge i e s w = ok (s, w)

unfoldable pub resume_edges :
    ℕ → List GuardedEdge → List EdgeFireState → Wiring → Run (Cursor × Wiring)
unfolding resume_edge
resume_edges i [] states w = ok ([], w)
resume_edges i (e ∷ es) [] w = err (edge_state_missing i)
resume_edges i (e ∷ es) (s ∷ states) w = do
  (s', w') ← resume_edge i e s w
  (es', w'') ← resume_edges (i + 1) es states w'
  ok ((e, s') ∷ es', w'')

-- The loop over the mappings out of the interrupt node, which reads the live ports.
unfoldable pub resume_mappings : String → ℕ → List Mapping → Wiring → Run Wiring
unfolding visit_mapping get_port
resume_mappings id i [] w = ok w
resume_mappings id i (m ∷ ms) w = do
  w' ← visit_mapping id (get_port w.ports id) i m w
  resume_mappings id (i + 1) ms w'

-- The human input as output of the interrupt node.
unfoldable pub inject : String → Inputs → Wiring → Wiring
unfolding set_ports
inject id human w = activate id (record w { ports = set_ports id human w.ports })

module _ (json : Json) (r : Registry) where
  unfoldable pub decode_ports : List RawSlot → Run PortTable
  unfolding decode_port_value
  decode_ports [] = ok []
  decode_ports (s ∷ slots) = do
    v ← wrap (port_failed s.node s.port) (decode_port_value json r s.raw)
    rest ← decode_ports slots
    ok (record { node = s.node; port = s.port; value = v } ∷ rest)

  -- The guard on the type of the State. A cell without a State has none to compare.
  unfoldable pub check_state_codec : String → Value → Run Bool
  unfolding state_codec_tag
  check_state_codec tag v = if tag == "" || is_nil v then ok true else do
    current ← wrap state_failed (state_codec_tag json r v)
    (if current == tag then ok true else err flow_changed)

  unfoldable pub restore_state : Checkpoint → Option StateCell → Run (Option StateCell)
  unfolding check_state_codec decode_port_value set_committed
  restore_state cp none = ok none
  restore_state cp (some c) = elim cp.state [
    | none ↦ ok (some c)
    | some raw ↦ do
      checked ← check_state_codec cp.state_codec (snapshot c)
      restored ← wrap state_failed (decode_port_value json r raw)
      ok (some (set_committed c restored))
  ]

  -- The snapshot with the human input, its deferred edges fired: what `runCore` goes on from.
  unfoldable pub restore : Engine → Checkpoint → Inputs → Option StateCell → Run RunState
  unfolding resumable restore_state decode_ports check_human_input inject resume_edges
      resume_mappings
  restore e cp human cell = if not (resumable e cp) then err flow_changed else do
    cell' ← restore_state cp cell
    ports ← decode_ports cp.port_values
    elim (e.nodes cp.interrupt_node_id) [
      | none ↦ err (interrupt_node_not_found cp.interrupt_node_id)
      | some node ↦ do
        declared ← check_human_input node.outputs human
        (es, w) ←
            resume_edges 0 e.edges cp.edge_states (
              inject cp.interrupt_node_id human
                (record { activated = cp.activated; ports = ports }))
        w' ← resume_mappings cp.interrupt_node_id 0 e.flow.mappings w
        ok (record { wiring = w'; cursor = es; cell = cell'; events = [] })
    ]

-- `e.layers` from an index on.
unfoldable pub layers_from : ℕ → List (List String) → List (List String)
layers_from ℕ.zero layers = layers
layers_from (ℕ.suc n) [] = []
layers_from (ℕ.suc n) (layer ∷ layers) = layers_from n layers

module _ {S : Type 0} (sv : Services S) (e : Engine) where
  unfoldable pub resume_from : String → Checkpoint → RunState → S → Leg × S
  unfolding run_layers layers_from
  resume_from run_id cp s store =
      let end =
        run_layers sv e (record { run_id = run_id; checkpoint = true; inputs = none })
          (cp.suspend_layer + 1) (layers_from (cp.suspend_layer + 1) e.layers) s store in
      (end.leg, end.store)

  unfoldable pub resume_with_cell : String → String → Inputs → Option StateCell → S → Leg × S
  unfolding load_error restore resume_from
  resume_with_cell run_id token human cell store = elim sv.checkpoint_store [
    | none ↦ (failed no_checkpoint_store, store)
    | some cs ↦ elim (cs.load_checkpoint store token) [
      | err failure ↦ (failed (load_error failure), store)
      | ok cp ↦ elim (restore sv.json sv.registry e cp human cell) [
        | err failure ↦ (failed failure, store)
        | ok s ↦ resume_from run_id cp s store
      ]
    ]
  ]

  unfoldable pub resume : String → String → Inputs → S → Leg × S
  unfolding resume_with_cell
  resume run_id token human store = resume_with_cell run_id token human none store

  unfoldable pub resume_with_state : String → String → Inputs → List StateOption → S → Leg × S
  unfolding resume_with_cell build_state_cell
  resume_with_state run_id token human opts store =
      resume_with_cell run_id token human (build_state_cell opts) store
