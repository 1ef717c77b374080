-- ===== src/V2/State.antt =====
-- The whole-graph State of a run: `stateCell` of v2/flow/state.go. A mutex guards every method, so
-- that a method is one step; a nil `any` is the value `nil`.
pub mod Barrier
use llm_agent_flow.Base.{
  ℕ, suc, String, Bool, Option, none, some, List, [], ◌∷◌, map, Result, ok, err, sort, ◌==◌,
  if◌then◌else◌,
}
use llm_agent_flow.V2.Value.{Value, nil, put_entry}
use llm_agent_flow.V2.Errors.{RunError, state_write_conflict, Run}

-- The merge of the prior State and the writes of a layer.
abbrev pub Reducer : Type 0
Reducer = Value → List Value → Run Value

pub record StateCell : Type 0 where
  pub committed : Value
  pub staged : List (String × Value)
  pub reducer : Option Reducer

unfoldable pub new_state_cell : Value → Option Reducer → StateCell
new_state_cell initial reducer = record { committed = initial; staged = []; reducer = reducer }

unfoldable pub set_committed : StateCell → Value → StateCell
set_committed c s = record c { committed = s }

-- `c.staged[nodeID] = s`
unfoldable pub stage : StateCell → String → Value → StateCell
unfolding put_entry
stage c id s = record c { staged = put_entry id s c.staged }

abbrev pub snapshot : StateCell → Value
snapshot c = c.committed

abbrev pub staged_ids : List (String × Value) → List String
staged_ids = map (λ e. e.0)

-- `c.staged[id]`; a missing key reads as nil.
unfoldable pub read_staged : List (String × Value) → String → Value
read_staged [] id = nil
read_staged ((j, v) ∷ rest) id = if j == id then v else read_staged rest id

-- The default reducer rejects two writers in one layer.
abbrev pub reject_collision : List (String × Value) → List String → Run Value
reject_collision staged (id ∷ []) = ok (read_staged staged id)
reject_collision staged _ = err state_write_conflict

abbrev pub merge : StateCell → List String → Run Value
merge c ids = elim c.reducer [
  | none ↦ reject_collision c.staged ids
  | some f ↦ f c.committed (map (read_staged c.staged) ids)
]

abbrev pub commit : StateCell → Run Value → Run StateCell
commit c (ok next) = ok (record c { committed = next; staged = [] })
commit c (err e) = err e

-- The barrier at the end of a layer.
unfoldable pub reduce : StateCell → Run StateCell
reduce c = elim c.staged [ [] ↦ ok c | _ ∷ _ ↦ commit c (merge c (sort (staged_ids c.staged))) ]

-- `stateConfig` and its options, applied in order.
pub data StateOption : Type 0 where
  with_initial_state : Value → StateOption
  with_reducer : Reducer → StateOption

pub record StateConfig : Type 0 where
  pub initial : Option Value
  pub reducer : Option Reducer

unfoldable pub apply_options : StateConfig → List StateOption → StateConfig
apply_options cfg [] = cfg
apply_options cfg (with_initial_state s ∷ opts) =
    apply_options (record cfg { initial = some s }) opts
apply_options cfg (with_reducer f ∷ opts) = apply_options (record cfg { reducer = some f }) opts

-- No cell unless an initial State or a reducer is given.
abbrev pub cell_of : StateConfig → Option StateCell
cell_of cfg = elim cfg.initial [
  | some s ↦ some (new_state_cell s cfg.reducer)
  | none ↦ elim cfg.reducer [ some f ↦ some (new_state_cell nil (some f)) | none ↦ none ]
]

unfoldable pub build_state_cell : List StateOption → Option StateCell
unfolding apply_options new_state_cell
build_state_cell opts = cell_of (apply_options (record { initial = none; reducer = none }) opts)
