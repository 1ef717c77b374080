-- ===== src/V2/Run/Core.antt =====
-- The loop of `runCore` over the layers, with the suspension, and its entry points.
use llm_agent_flow.Base.{
  ℕ, ◌+◌, String, Bool, not, Option, none, some, List, [], ◌∷◌, ◌++◌, Result, ok, err, ◌>>=◌,
  if◌then◌else◌,
}
use llm_agent_flow.V2.Ir.{Flow}
use llm_agent_flow.V2.Value.{Value, get_port}
use llm_agent_flow.V2.Errors.{RunError, no_checkpoint_store, multiple_interrupts, Run}
use llm_agent_flow.V2.State.{StateCell, reduce}
use llm_agent_flow.V2.Codec.{Json, Registry}
use llm_agent_flow.V2.Engine.{Nodes, Engine}
use llm_agent_flow.V2.Fire.{Wiring, fire_layer_edges, fire_layer_mappings}
use llm_agent_flow.V2.Checkpoint.{CheckpointStore}
use llm_agent_flow.V2.Tasks.{
  Event, node_skipped, flow_done, flow_err, flow_suspended, PendingInterrupt, Shared, Task,
  run_task, Fanout, Context, first_error,
}
use llm_agent_flow.V2.Run.Snapshot.{snapshot_checkpoint}
use llm_agent_flow.V2.Run.{Inputs, RunState, collect_outputs}

pub record Suspension : Type 0 where
  pub resume_token : String
  pub node_id : String
  pub request : String

-- What a leg of a run returns. `RunResult` is one of the first two, with a nil error.
pub data Leg : Type 0 where
  completed : List (String × Value) → Leg
  suspended : Suspension → Leg
  failed : RunError → Leg

-- The end of a leg: what it returns, the checkpoint store, and the events that were emitted.
pub record End (S : Type 0) : Type 0 where
  pub leg : Leg
  pub store : S
  pub events : List Event

-- The tasks of the active nodes, and a skip event for each of the others.
abbrev pub Plan : Type 0
Plan = List Task × List Event

unfoldable pub plan_layer : Bool → Nodes → Wiring → List String → Plan
unfolding run_task get_port
plan_layer checkpoint nodes w [] = ([], [])
plan_layer checkpoint nodes w (id ∷ layer) =
    let (tasks, skips) = plan_layer checkpoint nodes w layer in
    if not (w.activated id) then (tasks, node_skipped id ∷ skips) else elim (nodes id) [
      | none ↦ (tasks, skips)
      | some node ↦ (run_task checkpoint id node (get_port w.ports id) ∷ tasks, skips)
    ]

abbrev pub reduce_cell : Option StateCell → Run (Option StateCell)
reduce_cell none = ok none
reduce_cell (some c) = do c' ← reduce c; ok (some c')

-- A layer's tasks, up to and with the State barrier: the run's state and the pending interrupts.
unfoldable pub run_layer :
    Fanout
    → Context
    → Engine
    → (checkpoint : Bool) → ℕ
    → List String
    → RunState
    → Result (RunError × List Event) (RunState × List PendingInterrupt)
unfolding plan_layer first_error reduce
run_layer fanout ctx e checkpoint i layer s =
    let (tasks, skips) = plan_layer checkpoint e.nodes s.wiring layer in
    let start : Shared = record {
      ports = s.wiring.ports;
      pending = [];
      cell = s.cell;
      events = s.events ++ skips;
    } in
    let r = fanout e.max_node_concurrency tasks start in
    elim r.run_err [
      | some e ↦ err (e, r.shared.events)
      | none ↦ elim (first_error (ctx.after i) r.errors) [
        | some e ↦ err (e, r.shared.events)
        | none ↦ elim (reduce_cell r.shared.cell) [
          | err e ↦ err (e, r.shared.events)
          | ok cell ↦ ok (
            record {
              wiring = record { activated = s.wiring.activated; ports = r.shared.ports };
              cursor = s.cursor;
              cell = cell;
              events = r.shared.events;
            },
            r.shared.pending,
          )
        ]
      ]
    ]

-- The edges and then the mappings out of a layer.
unfoldable pub fire_layer : Flow → List String → String → RunState → Run RunState
unfolding fire_layer_edges fire_layer_mappings
fire_layer f layer interrupt s = do
  (es, w) ← fire_layer_edges layer interrupt s.cursor s.wiring
  w' ← fire_layer_mappings layer interrupt f.mappings w
  ok (record s { cursor = es; wiring = w' })

-- What the engine calls: the code of other modules, and the store, which may be missing.
pub record Services (S : Type 0) : Type 0 where
  pub fanout : Fanout
  pub ctx : Context
  pub json : Json
  pub registry : Registry
  pub checkpoint_store : Option (CheckpointStore S)

-- The arguments of `runCore` that do not change during a leg. A resumed leg has nil inputs.
pub record Call : Type 0 where
  pub run_id : String
  pub checkpoint : Bool
  pub inputs : Option Inputs

-- `emit(FlowErr)` and the return of the error.
abbrev pub fail : {S : Type 0} → RunError → List Event → S → End S
fail e events store = record { leg = failed e; store = store; events = events ++ flow_err e ∷ [] }

-- The end of `runCore`.
unfoldable pub finish : {S : Type 0} → Flow → RunState → S → End S
unfolding collect_outputs
finish f s store = elim (collect_outputs f.outputs s.wiring []) [
  | err e ↦ fail e s.events store
  | ok out ↦ record { leg = completed out; store = store; events = s.events ++ flow_done out ∷ [] }
]

module _ {S : Type 0} (sv : Services S) (e : Engine) (call : Call) where
  -- The edges and mappings of the layer, the snapshot, and the store's answer.
  unfoldable pub save_suspension :
      CheckpointStore S → ℕ → List String → RunState → PendingInterrupt → S → Run S
  unfolding fire_layer snapshot_checkpoint
  save_suspension cs i layer s p store = do
    s' ← fire_layer e.flow layer p.node_id s
    cp ← snapshot_checkpoint sv.json sv.registry e call.run_id i p s' call.inputs
    cs.save_checkpoint store cp

  -- The suspend splice, for a pending interrupt and the others of its layer.
  unfoldable pub suspend :
      ℕ → List String → RunState → PendingInterrupt → List PendingInterrupt → S → End S
  unfolding save_suspension
  suspend i layer s p others store = elim sv.checkpoint_store [
    | none ↦ fail no_checkpoint_store s.events store
    | some cs ↦ elim others [
      | _ ∷ _ ↦ fail multiple_interrupts s.events store
      | [] ↦ elim (save_suspension cs i layer s p store) [
        | err e ↦ fail e s.events store
        | ok store' ↦ record {
          leg =
              suspended
                (record { resume_token = call.run_id; node_id = p.node_id; request = p.req });
          store = store';
          events = s.events ++ flow_suspended p.node_id call.run_id p.req ∷ [];
        }
      ]
    ]
  ]

  -- The loop over the layers from index `i` on.
  unfoldable pub run_layers : ℕ → List (List String) → RunState → S → End S
  unfolding run_layer fire_layer suspend finish
  run_layers i [] s store = finish e.flow s store
  run_layers i (layer ∷ rest) s store = elim (sv.ctx.before i) [
    | some cancelled ↦ fail cancelled s.events store
    | none ↦ elim (run_layer sv.fanout sv.ctx e call.checkpoint i layer s) [
      | err failure ↦ fail failure.0 failure.1 store
      | ok barrier ↦ elim (if call.checkpoint then barrier.1 else []) [
        | p ∷ others ↦ suspend i layer barrier.0 p others store
        | [] ↦ elim (fire_layer e.flow layer "" barrier.0) [
          | err failure ↦ fail failure barrier.0.events store
          | ok s' ↦ run_layers (i + 1) rest s' store
        ]
      ]
    ]
  ]
