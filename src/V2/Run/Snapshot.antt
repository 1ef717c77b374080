-- ===== src/V2/Run/Snapshot.antt =====
-- `snapshotCheckpoint` of v2/flow/engine.go: the checkpoint of a run that suspends. A map is listed in
-- some order.
use llm_agent_flow.Base.{
  ℕ, String, Option, none, some, List, [], ◌∷◌, map, ok, ◌>>=◌, wrap, if◌then◌else◌,
}
use llm_agent_flow.V2.Value.{Value, PortTable}
use llm_agent_flow.V2.Errors.{port_failed, input_failed, state_failed, Run}
use llm_agent_flow.V2.State.{StateCell, snapshot}
use llm_agent_flow.V2.Codec.{Json, Registry, encode_port_value, state_codec_tag, is_nil}
use llm_agent_flow.V2.Engine.{Engine}
use llm_agent_flow.V2.Checkpoint.{RawSlot, Checkpoint}
use llm_agent_flow.V2.Tasks.{PendingInterrupt}
use llm_agent_flow.V2.Run.{Inputs, RunState}

module _ (json : Json) (r : Registry) where
  unfoldable pub encode_ports : PortTable → Run (List RawSlot)
  unfolding encode_port_value
  encode_ports [] = ok []
  encode_ports (s ∷ table) = do
    raw ← wrap (port_failed s.node s.port) (encode_port_value json r s.value)
    rest ← encode_ports table
    ok (record { node = s.node; port = s.port; raw = raw } ∷ rest)

  unfoldable pub encode_inputs : Inputs → Run (List (String × String))
  unfolding encode_port_value
  encode_inputs [] = ok []
  encode_inputs ((k, v) ∷ inputs) = do
    raw ← wrap (input_failed k) (encode_port_value json r v)
    rest ← encode_inputs inputs
    ok ((k, raw) ∷ rest)

  abbrev pub original_inputs : Option Inputs → Run (List (String × String))
  original_inputs none = ok []
  original_inputs (some inputs) = encode_inputs inputs

  -- The State after the barrier, and its tag. A cell without a State leaves both empty.
  unfoldable pub encode_state : Value → Run (Option String × String)
  unfolding encode_port_value state_codec_tag
  encode_state v = if is_nil v then ok (none, "") else do
    raw ← wrap state_failed (encode_port_value json r v)
    tag ← wrap state_failed (state_codec_tag json r v)
    ok (some raw, tag)

  abbrev pub encode_cell : Option StateCell → Run (Option String × String)
  encode_cell none = ok (none, "")
  encode_cell (some c) = encode_state (snapshot c)

  unfoldable pub snapshot_checkpoint :
      Engine → String → ℕ → PendingInterrupt → RunState → Option Inputs → Run Checkpoint
  unfolding encode_ports encode_inputs encode_state
  snapshot_checkpoint e run_id i p s inputs = do
    ports ← encode_ports s.wiring.ports
    originals ← original_inputs inputs
    (state, tag) ← encode_cell s.cell
    ok (record {
      version = 3;
      run_id = run_id;
      flow_id = e.flow.id;
      flow_hash = e.flow_hash;
      struct_hash = e.struct_hash;
      port_values = ports;
      activated = s.wiring.activated;
      edge_states = map (λ entry. entry.1) s.cursor;
      suspend_layer = i;
      interrupt_node_id = p.node_id;
      interrupt_req = p.req;
      original_inputs = originals;
      state = state;
      state_codec = tag;
    })
