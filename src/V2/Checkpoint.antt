-- ===== src/V2/Checkpoint.antt =====
-- v2/flow/checkpoint.go: the snapshot of a suspended run, and the in-memory store. The creation time
-- is left out. A slice or map that is copied is the same value here.
pub mod Laws
use llm_agent_flow.Base.{
  ℕ, suc, String, Bool, true, false, not, ◌||◌, ◌-◌, Option, none, some, List, [], ◌∷◌, Result, ok,
  err, nat_eq, ◌==◌, if◌then◌else◌,
}
use llm_agent_flow.V2.Errors.{RunError, checkpoint_not_found, Run}
use llm_agent_flow.V2.Fire.{EdgeFireState}

-- An encoded port value.
pub record RawSlot : Type 0 where
  pub node : String
  pub port : String
  pub raw : String

pub record Checkpoint : Type 0 where
  pub version : ℕ
  pub run_id : String
  pub flow_id : String
  pub flow_hash : String
  pub struct_hash : String
  pub port_values : List RawSlot
  pub activated : String → Bool
  pub edge_states : List EdgeFireState
  pub suspend_layer : ℕ
  pub interrupt_node_id : String
  pub interrupt_req : String
  pub original_inputs : List (String × String)
  pub state : Option String
  pub state_codec : String

pub record CheckpointMeta : Type 0 where
  pub run_id : String
  pub flow_id : String
  pub interrupt_node_id : String

abbrev pub meta : Checkpoint → CheckpointMeta
meta cp = record {
  run_id = cp.run_id;
  flow_id = cp.flow_id;
  interrupt_node_id = cp.interrupt_node_id;
}

-- `CheckpointStore`: the operations that the engine calls, over the states `S` of a store.
pub record CheckpointStore (S : Type 0) : Type 0 where
  pub save_checkpoint : S → Checkpoint → Run S
  pub load_checkpoint : S → String → Run Checkpoint

-- `MemoryCheckpointStore`, keyed by run id; each method holds the mutex.
abbrev pub Memory : Type 0
Memory = List Checkpoint

unfoldable pub memory_save : Memory → Checkpoint → Memory
memory_save [] cp = cp ∷ []
memory_save (c ∷ m) cp = if c.run_id == cp.run_id then cp ∷ m else c ∷ memory_save m cp

unfoldable pub memory_find : Memory → String → Option Checkpoint
memory_find [] token = none
memory_find (c ∷ m) token = if c.run_id == token then some c else memory_find m token

unfoldable pub memory_load : Memory → String → Run Checkpoint
unfolding memory_find
memory_load m token = elim (memory_find m token) [
  | none ↦ err checkpoint_not_found
  | some cp ↦ ok cp
]

unfoldable pub memory_delete : Memory → String → Memory
memory_delete [] token = []
memory_delete (c ∷ m) token =
    let rest = memory_delete m token in if c.run_id == token then rest else c ∷ rest

-- `flowID != "" && cp.FlowID != flowID` skips a checkpoint.
abbrev pub listed : String → Checkpoint → Bool
listed flow_id cp = flow_id == "" || cp.flow_id == flow_id

-- `limit > 0 && len(out) >= limit` ends the loop after an entry; `room` counts the entries that may
-- follow, and a limit of 0 is none.
unfoldable pub memory_list : String → (limited : Bool) → (room : ℕ) → Memory → List CheckpointMeta
memory_list flow_id limited room [] = []
memory_list flow_id limited room (c ∷ m) = elim (listed flow_id c) [
  | false ↦ memory_list flow_id limited room m
  | true ↦ elim room [
    | suc more ↦ meta c ∷ memory_list flow_id limited more m
    | ℕ.zero ↦ if limited then meta c ∷ [] else meta c ∷ memory_list flow_id limited ℕ.zero m
  ]
]

unfoldable pub list_checkpoints : Memory → String → ℕ → List CheckpointMeta
unfolding memory_list
list_checkpoints m flow_id limit = memory_list flow_id (not (nat_eq limit 0)) (limit - 1) m

abbrev pub memory_store : CheckpointStore Memory
memory_store = record {
  save_checkpoint = λ m cp. ok (memory_save m cp);
  load_checkpoint = λ m token. memory_load m token;
}
