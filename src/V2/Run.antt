-- ===== src/V2/Run.antt =====
-- `runCore` of v2/flow/engine.go: a fresh run or the rest of a suspended one.
pub mod Snapshot
pub mod Core
pub mod Start
pub mod Ends
pub mod Emits
pub mod Contract
use llm_agent_flow.Base.{
  ℕ, suc, ◌+◌, String, Bool, true, false, not, ◌&&◌, ◌||◌, Option, none, some, List, [], ◌∷◌, ◌++◌,
  map, Result, ok, err, ◌>>=◌, wrap, length, update, ◌==◌, if◌then◌else◌,
}
use Prim.Native.String.{◌++◌ as concat}
use llm_agent_flow.V2.Ir.{Node, Edge, Mapping, NamedPortRef, Flow}
use llm_agent_flow.V2.Value.{Value, nil, PortTable, Slot, get_port, set_port, put_entry}
use llm_agent_flow.V2.Mapping.{select_path, set_mapped_port}
use llm_agent_flow.V2.Errors.{
  RunError, missing_input, mapping_missing_input, mapping_source, mapping_target,
  output_not_emitted, no_checkpoint_store, multiple_interrupts, port_failed, input_failed,
  state_failed, Run,
}
use llm_agent_flow.V2.State.{StateCell, reduce, snapshot}
use llm_agent_flow.V2.Codec.{Json, Registry, encode_port_value, state_codec_tag, is_nil}
use llm_agent_flow.V2.Nodes.{NodeKind}
use llm_agent_flow.V2.Engine.{GuardedEdge, Engine}
use llm_agent_flow.V2.Fire.{
  EdgeFireState, edge_pending, Wiring, activate, Cursor, fire_layer_edges, fire_layer_mappings,
}
use llm_agent_flow.V2.Checkpoint.{RawSlot, Checkpoint, CheckpointStore}
use llm_agent_flow.V2.Tasks.{
  Event, flow_started, node_skipped, flow_done, flow_err, flow_suspended, PendingInterrupt, Shared,
  emit, Task, run_task, FanoutResult, Fanout, Context, first_error,
}

-- A Go map from names to values.
abbrev pub Inputs : Type 0
Inputs = List (String × Value)

unfoldable pub find_input : Inputs → String → Option Value
find_input [] name = none
find_input ((k, v) ∷ inputs) name = if k == name then some v else find_input inputs name

-- The fresh start: nodes without incoming edges and mappings run.
unfoldable pub targeted : List Edge → String → Bool
targeted [] id = false
targeted (e ∷ es) id = e.target.node == id || targeted es id

unfoldable pub mapped : List Mapping → String → Bool
mapped [] id = false
mapped (m ∷ ms) id = m.target.node == id || mapped ms id

unfoldable pub entry_nodes : Flow → List Node → String → Bool
unfolding targeted mapped
entry_nodes f [] id = false
entry_nodes f (n ∷ ns) id =
    (n.id == id && not (targeted f.edges id) && not (mapped f.mappings id)) || entry_nodes f ns id

-- The loop over `Flow.Inputs`.
unfoldable pub apply_inputs : List NamedPortRef → Inputs → Wiring → Run Wiring
unfolding find_input set_port
apply_inputs [] inputs w = ok w
apply_inputs (r ∷ rs) inputs w = elim (find_input inputs r.name) [
  | none ↦ err (missing_input r.name)
  | some v ↦
      apply_inputs rs inputs
        (activate r.ref.node (record w { ports = set_port w.ports r.ref.node r.ref.port v }))
]

-- The body of `applyInputMappings` (v2/flow/mapping.go).
unfoldable pub apply_input_mapping : ℕ → Mapping → Inputs → Wiring → Run Wiring
unfolding find_input select_path set_mapped_port
apply_input_mapping i m inputs w =
    if m.source.input == "" then ok w else elim (find_input inputs m.source.input) [
      | none ↦ err (mapping_missing_input i m.source.input)
      | some raw ↦ do
        value ← wrap (mapping_source i) (select_path raw m.source.path)
        table ←
            wrap (mapping_target i)
              (set_mapped_port w.ports m.target.node m.target.port m.target.path value)
        ok (activate m.target.node (record w { ports = table }))
    ]

unfoldable pub apply_input_mappings : ℕ → List Mapping → Inputs → Wiring → Run Wiring
unfolding apply_input_mapping
apply_input_mappings i [] inputs w = ok w
apply_input_mappings i (m ∷ ms) inputs w = do
  w' ← apply_input_mapping i m inputs w
  apply_input_mappings (i + 1) ms inputs w'

abbrev pub start_edges : List GuardedEdge → Cursor
start_edges = map (λ e. (e, edge_pending))

-- The state of a run between two layers.
pub record RunState : Type 0 where
  pub wiring : Wiring
  pub cursor : Cursor
  pub cell : Option StateCell
  pub events : List Event

-- The declared outputs. An output of a node that did not run is left out; an output without a name
-- is keyed by its node and port.
abbrev pub output_key : NamedPortRef → String
output_key r = if r.name == "" then concat (concat r.ref.node ".") r.ref.port else r.name

unfoldable pub collect_outputs :
    List NamedPortRef → Wiring → List (String × Value) → Run (List (String × Value))
unfolding get_port put_entry
collect_outputs [] w out = ok out
collect_outputs (r ∷ rs) w out = elim (w.activated r.ref.node) [
  | false ↦ collect_outputs rs w out
  | true ↦ elim (get_port w.ports r.ref.node r.ref.port) [
    | none ↦ err (output_not_emitted r.name)
    | some v ↦ collect_outputs rs w (put_entry (output_key r) v out)
  ]
]
