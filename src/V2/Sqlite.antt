-- ===== src/V2/Sqlite.antt =====
-- v2/flow/store/sqlite/checkpoint.go: the table of checkpoints. The marshalling of a checkpoint is a
-- parameter, and the creation time is left out.
pub mod Refines
use llm_agent_flow.Base.{
  String, Bool, Option, none, some, List, [], ◌∷◌, ◌++◌, Result, ok, err, wrap, ◌>>=◌, ◌==◌,
  if◌then◌else◌,
}
use llm_agent_flow.V2.Errors.{RunError, foreign, checkpoint_not_found, Run}
use llm_agent_flow.V2.Checkpoint.{Checkpoint, CheckpointMeta}

pub record CheckpointRow : Type 0 where
  pub token : String
  pub run_id : String
  pub flow_id : String
  pub interrupt_node : String
  pub data_json : String

-- encoding/json on checkpoints
pub record CheckpointJson : Type 0 where
  pub marshal : Checkpoint → Result String String
  pub unmarshal : String → Result String Checkpoint

-- DELETE … WHERE token = ?
unfoldable pub without_token : String → List CheckpointRow → List CheckpointRow
without_token token [] = []
without_token token (r ∷ rows) =
    let rest = without_token token rows in if r.token == token then rest else r ∷ rest

-- SELECT data_json … WHERE token = ?
unfoldable pub data_of : String → List CheckpointRow → Option String
data_of token [] = none
data_of token (r ∷ rows) = if r.token == token then some r.data_json else data_of token rows

abbrev pub row_of : Checkpoint → String → CheckpointRow
row_of cp text = record {
  token = cp.run_id;
  run_id = cp.run_id;
  flow_id = cp.flow_id;
  interrupt_node = cp.interrupt_node_id;
  data_json = text;
}

-- INSERT OR REPLACE takes a row with the token away. `fault` is the error of the statement.
unfoldable pub save_row :
    CheckpointJson → Option String → List CheckpointRow → Checkpoint → Run (List CheckpointRow)
unfolding without_token
save_row json fault rows cp = wrap foreign (json.marshal cp) >>= (λ text. elim fault [
  | some e ↦ err (foreign e)
  | none ↦ ok (without_token cp.run_id rows ++ row_of cp text ∷ [])
])

unfoldable pub load_row :
    CheckpointJson → Option String → List CheckpointRow → String → Run Checkpoint
unfolding data_of
load_row json (some e) rows token = err (foreign e)
load_row json none rows token = elim (data_of token rows) [
  | none ↦ err checkpoint_not_found
  | some text ↦ wrap foreign (json.unmarshal text)
]

unfoldable pub delete_row : Option String → List CheckpointRow → String → Run (List CheckpointRow)
unfolding without_token
delete_row (some e) rows token = err (foreign e)
delete_row none rows token = ok (without_token token rows)
