-- ===== src/V2/Errors.antt =====
-- The errors that a run or a resumption of a flow returns. The source formats most of them as text;
-- here the parts of the text are the fields.
use llm_agent_flow.Base.{ℕ, String, Bool, true, false, Result}
use llm_agent_flow.V2.Mapping.{PathError}

pub data RunError : Type 0 where
  -- context.Canceled, and errors of code that the engine only calls: nodes, conditions, stores
  canceled : RunError
  foreign : String → RunError
  -- a node's InterruptError, as an error value
  interrupt_error : String → RunError
  node_failed : String → RunError → RunError
  uninstrumented_interrupt : String → RunError
  missing_input : String → RunError
  mapping_missing_input : ℕ → String → RunError
  mapping_source mapping_target : ℕ → PathError → RunError
  condition_not_string : ℕ → RunError
  condition_failed : ℕ → RunError → RunError
  output_not_emitted : String → RunError
  state_write_conflict : RunError
  no_checkpoint_store multiple_interrupts not_checkpointable : RunError
  checkpoint_not_found flow_changed : RunError
  load_failed : RunError → RunError
  state_failed : RunError → RunError
  port_failed : String → String → RunError → RunError
  input_failed : String → RunError → RunError
  interrupt_node_not_found : String → RunError
  invalid_human_input : String → RunError
  -- the panic of an index past the edge states of a checkpoint
  edge_state_missing : ℕ → RunError
  -- of the structural hash
  unresolved_node : String → RunError
  descriptor_failed : RunError → RunError
  -- of the adapters of v2/flow/graph, by the node's id
  port_missing : String → String → RunError
  not_assignable : String → RunError
  undeclared_route : String → String → RunError
  closure_failed : String → RunError → RunError

-- `errors.Is(err, context.Canceled)` looks through the wrapping by the node's id.
abbrev pub is_canceled : RunError → Bool
is_canceled canceled = true
is_canceled (node_failed id e) = is_canceled e
is_canceled (closure_failed id e) = is_canceled e
is_canceled _ = false

abbrev pub Run {ℓ} : Type ℓ → Type ℓ
Run A = Result RunError A
