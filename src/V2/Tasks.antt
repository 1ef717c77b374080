-- ===== src/V2/Tasks.antt =====
-- One node's task in a layer, and the events of v2/flow/event.go. `fanout.Run`, which runs the tasks of a
-- layer, is another module's code and a parameter.
use llm_agent_flow.Base.{
  ℕ, String, Bool, true, false, ◌&&◌, Option, none, some, List, [], ◌∷◌, ◌++◌, if◌then◌else◌,
}
use llm_agent_flow.V2.Value.{Value, PortTable, set_port}
use llm_agent_flow.V2.State.{StateCell, snapshot, stage}
use llm_agent_flow.V2.Errors.{
  RunError, node_failed, interrupt_error, uninstrumented_interrupt, is_canceled,
}
use llm_agent_flow.V2.Nodes.{NodeOutcome, finished, interrupted, failed, NodeKind}
use llm_agent_flow.V2.Engine.{interrupts}

pub data Event : Type 0 where
  flow_started : String → Event
  node_started : String → (String → Option Value) → Event
  node_finished : String → List (String × Value) → Event
  node_errored : String → RunError → Event
  node_skipped : String → Event
  node_interrupted : String → String → Event
  flow_done : List (String × Value) → Event
  flow_err : RunError → Event
  flow_suspended : String → String → String → Event

pub record PendingInterrupt : Type 0 where
  pub node_id : String
  pub req : String

-- What the tasks of a layer share, each access under its mutex. `events` is what was emitted, in order;
-- a caller without a channel does not see it.
pub record Shared : Type 0 where
  pub ports : PortTable
  pub pending : List PendingInterrupt
  pub cell : Option StateCell
  pub events : List Event

abbrev pub emit : Event → Shared → Shared
emit ev s = record s { events = s.events ++ ev ∷ [] }

-- `for k, v := range out { setPort(nodeID, k, v) }`
unfoldable pub set_ports : String → List (String × Value) → PortTable → PortTable
set_ports id [] table = table
set_ports id ((k, v) ∷ out) table = set_ports id out (set_port table id k v)

abbrev pub stage_write : String → Option Value → Option StateCell → Option StateCell
stage_write id (some v) (some c) = some (stage c id v)
stage_write id _ cell = cell

abbrev pub committed_state : Option StateCell → Option Value
committed_state none = none
committed_state (some c) = some (snapshot c)

-- What the task does with the outcome of its node; the result is the task's error.
unfoldable pub conclude :
    (checkpoint : Bool) → String → NodeKind → NodeOutcome → Shared → Option RunError × Shared
unfolding set_ports
conclude checkpoint id node (finished out) s =
    (none, emit (node_finished id out) (record s { ports = set_ports id out s.ports }))
conclude checkpoint id node (failed e) s =
    (some (node_failed id e), emit (node_errored id (node_failed id e)) s)
conclude checkpoint id node (interrupted req) s =
    if checkpoint
    then if interrupts (some node)
      then (
        none,
        emit (node_interrupted id req)
            (record s { pending = s.pending ++ record { node_id = id; req = req } ∷ [] }),
      )
      else (
        some (uninstrumented_interrupt id),
        emit (node_errored id (uninstrumented_interrupt id)) s,
      )
    else (
      some (node_failed id (interrupt_error req)),
      emit (node_errored id (node_failed id (interrupt_error req))) s,
    )

abbrev pub Task : Type 0
Task = Shared → Option RunError × Shared

-- The task of node `id`, whose input was read before the layer started.
unfoldable pub run_task : (checkpoint : Bool) → String → NodeKind → (String → Option Value) → Task
unfolding conclude
run_task checkpoint id node input s =
    let (outcome, write) = node.run (committed_state s.cell) input in
    conclude checkpoint id node outcome (record s {
      cell = stage_write id write s.cell;
      events = s.events ++ node_started id input ∷ [];
    })

pub record FanoutResult : Type 0 where
  pub run_err : Option RunError
  pub errors : List (Option RunError)
  pub shared : Shared

-- `fanout.Run` with fail-fast: the cap on concurrency, the tasks, and what they share.
abbrev pub Fanout : Type 0
Fanout = ℕ → List Task → Shared → FanoutResult

-- `ctx`: its error when a layer starts, and after the tasks of that layer.
pub record Context : Type 0 where
  pub before : ℕ → Option RunError
  pub after : ℕ → Option RunError

-- The error that a layer's results make the run return: a cancelled task does not count unless the
-- caller has cancelled.
unfoldable pub first_error : Option RunError → List (Option RunError) → Option RunError
first_error ctx_err [] = none
first_error ctx_err (none ∷ errors) = first_error ctx_err errors
first_error ctx_err (some e ∷ errors) =
    let rest = first_error ctx_err errors in
    if is_canceled e && elim ctx_err [ none ↦ true | some _ ↦ false ] then rest else some e
