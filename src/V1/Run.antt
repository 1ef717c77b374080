-- ===== src/V1/Run.antt =====
-- `run` of flow/engine.go, and the events of flow/event.go. What the closures share is passed on; the
-- mutexes make each access one step. `fanout.Run` is a parameter.
pub mod Same
pub mod Planned
pub mod Keeps
pub mod Fires
pub mod Whole
pub mod Loops
pub mod Ready
pub mod Agree
pub mod Start
pub mod Compiled
use llm_agent_flow.Base.{
  ℕ, ◌+◌, String, Bool, true, false, not, ◌&&◌, ◌||◌, Option, none, some, List, [], ◌∷◌, ◌++◌, map,
  Result, ok, err, ◌>>=◌, wrap, update, ◌==◌, if◌then◌else◌,
}
use Prim.Native.String.{◌++◌ as concat}
use llm_agent_flow.V2.Ir.{Node, Edge, NamedPortRef}
use llm_agent_flow.V2.Errors.{
  RunError, node_failed, missing_input, condition_failed, output_not_emitted, Run,
}
use llm_agent_flow.V2.Engine.{Condition, GuardedEdge}
use llm_agent_flow.V2.Tasks.{first_error}
use llm_agent_flow.V1.Ir.{Flow}
use llm_agent_flow.V1.Compile.{StringNode, StringNodes, FlowEngine}

-- map[string]string: lookups find the first entry; a write takes the place of an entry.
abbrev pub Texts : Type 0
Texts = List (String × String)

unfoldable pub find_text : String → Texts → Option String
find_text k [] = none
find_text k ((j, v) ∷ m) = if j == k then some v else find_text k m

unfoldable pub put_text : String → String → Texts → Texts
put_text k v [] = (k, v) ∷ []
put_text k v ((j, u) ∷ m) = if j == k then (k, v) ∷ m else (j, u) ∷ put_text k v m

-- portValues[node][port]
abbrev pub TextPorts : Type 0
TextPorts = String → String → Option String

abbrev pub set_text_port : TextPorts → String → String → String → TextPorts
set_text_port ports node port v = update ports node (update (ports node) port (some v))

pub record FlowWiring : Type 0 where
  pub activated : String → Bool
  pub ports : TextPorts

pub data FlowEvent : Type 0 where
  flow_started : String → FlowEvent
  node_started : String → (String → Option String) → FlowEvent
  node_finished : String → Texts → Option Texts → FlowEvent
  node_errored : String → RunError → Option Texts → FlowEvent
  node_skipped : String → FlowEvent
  flow_done : Texts → FlowEvent
  flow_err : RunError → FlowEvent

-- What the tasks of a layer share.
pub record SharedTexts : Type 0 where
  pub ports : TextPorts
  pub events : List FlowEvent

abbrev pub FlowTask : Type 0
FlowTask = SharedTexts → Option RunError × SharedTexts

unfoldable pub set_text_ports : String → Texts → TextPorts → TextPorts
set_text_ports id [] ports = ports
set_text_ports id ((k, v) ∷ out) ports = set_text_ports id out (set_text_port ports id k v)

-- The task of node `id`, whose input was read before the layer started.
unfoldable pub run_flow_task : String → StringNode → (String → Option String) → FlowTask
unfolding set_text_ports
run_flow_task id node input s =
    let (result, meta) = node.run input in
    let started = s.events ++ node_started id input ∷ [] in
    elim result [
      | err e ↦ (
        some (node_failed id e),
        record s { events = started ++ node_errored id (node_failed id e) meta ∷ [] },
      )
      | ok out ↦ (
        none,
        record {
          ports = set_text_ports id out s.ports;
          events = started ++ node_finished id out meta ∷ [];
        },
      )
    ]

-- The tasks of the active nodes, and a skip event for each of the others.
unfoldable pub plan_flow_layer :
    StringNodes → FlowWiring → List String → List FlowTask × List FlowEvent
unfolding run_flow_task
plan_flow_layer nodes w [] = ([], [])
plan_flow_layer nodes w (id ∷ layer) =
    let (tasks, skips) = plan_flow_layer nodes w layer in
    if not (w.activated id) then (tasks, node_skipped id ∷ skips) else elim (nodes id) [
      | none ↦ (tasks, skips)
      | some node ↦ (run_flow_task id node (w.ports id) ∷ tasks, skips)
    ]

pub record FlowFanoutResult : Type 0 where
  pub run_err : Option RunError
  pub errors : List (Option RunError)
  pub shared : SharedTexts

abbrev pub FlowFanout : Type 0
FlowFanout = ℕ → List FlowTask → SharedTexts → FlowFanoutResult

-- Whether the condition of an edge lets a text through.
unfoldable pub evaluate_text : ℕ → Option Condition → String → Run Bool
evaluate_text i none v = ok true
evaluate_text i (some c) v = wrap (condition_failed i) (c v)

abbrev pub deliver_text : GuardedEdge → String → FlowWiring → Bool → FlowWiring
deliver_text e v w false = w
deliver_text e v w true = record {
  activated = update w.activated e.edge.target.node true;
  ports = set_text_port w.ports e.edge.target.node e.edge.target.port v;
}

-- An edge out of an active source, given the value of its source port.
unfoldable pub fire_text_edge : ℕ → GuardedEdge → Option String → FlowWiring → Run FlowWiring
unfolding evaluate_text
fire_text_edge i e none w = ok w
fire_text_edge i e (some v) w = do fires ← evaluate_text i e.guard v; ok (deliver_text e v w fires)

-- The loop over all edges for an active source with the ports `src_ports`.
unfoldable pub fire_text_source :
    String → (String → Option String) → ℕ → List GuardedEdge → FlowWiring → Run FlowWiring
unfolding fire_text_edge
fire_text_source src src_ports i [] w = ok w
fire_text_source src src_ports i (e ∷ es) w = do
  w' ←
      (if e.edge.source.node == src
        then fire_text_edge i e (src_ports e.edge.source.port) w
        else ok w)
  fire_text_source src src_ports (i + 1) es w'

unfoldable pub fire_text_layer : List String → List GuardedEdge → FlowWiring → Run FlowWiring
unfolding fire_text_source
fire_text_layer [] es w = ok w
fire_text_layer (src ∷ layer) es w = do
  w' ← (if not (w.activated src) then ok w else fire_text_source src (w.ports src) 0 es w)
  fire_text_layer layer es w'

-- `len(e.preds[id]) == 0`
unfoldable pub has_no_preds : List Edge → String → Bool
has_no_preds [] id = true
has_no_preds (e ∷ es) id = not (e.target.node == id) && has_no_preds es id

unfoldable pub activate_entries : Flow → List Node → (String → Bool) → String → Bool
unfolding has_no_preds
activate_entries f [] active = active
activate_entries f (n ∷ ns) active =
    activate_entries f ns (if has_no_preds f.edges n.id then update active n.id true else active)

unfoldable pub apply_text_inputs : List NamedPortRef → Texts → FlowWiring → Run FlowWiring
unfolding find_text
apply_text_inputs [] inputs w = ok w
apply_text_inputs (r ∷ rs) inputs w = elim (find_text r.name inputs) [
  | none ↦ err (missing_input r.name)
  | some v ↦ apply_text_inputs rs inputs (record {
    activated = update w.activated r.ref.node true;
    ports = set_text_port w.ports r.ref.node r.ref.port v;
  })
]

unfoldable pub collect_texts : List NamedPortRef → FlowWiring → Texts → Run Texts
unfolding put_text
collect_texts [] w out = ok out
collect_texts (r ∷ rs) w out = elim (w.activated r.ref.node) [
  | false ↦ collect_texts rs w out
  | true ↦ elim (w.ports r.ref.node r.ref.port) [
    | none ↦ err (output_not_emitted r.name)
    | some v ↦ collect_texts rs w (
        put_text (if r.name == "" then concat (concat r.ref.node ".") r.ref.port else r.name) v out)
  ]
]

-- The caller's context, by its error when a layer starts and after the tasks of that layer.
pub record FlowCall : Type 0 where
  pub fanout : FlowFanout
  pub before : ℕ → Option RunError
  pub after : ℕ → Option RunError

abbrev pub FlowEnd : Type 0
FlowEnd = Run Texts × List FlowEvent

abbrev pub fail_flow : RunError → List FlowEvent → FlowEnd
fail_flow e events = (err e, events ++ flow_err e ∷ [])

module _ (call : FlowCall) (e : FlowEngine) where
  -- The tasks of a layer: what they leave, or the error that ends the run.
  unfoldable pub run_flow_layer :
      ℕ → List String → FlowWiring → List FlowEvent → Option RunError × SharedTexts
  unfolding plan_flow_layer first_error
  run_flow_layer i layer w events =
      let (tasks, skips) = plan_flow_layer e.nodes w layer in
      let r =
        call.fanout e.max_node_concurrency tasks
          (record { ports = w.ports; events = events ++ skips }) in
      elim r.run_err [
        | some failure ↦ (some failure, r.shared)
        | none ↦ (first_error (call.after i) r.errors, r.shared)
      ]

  unfoldable pub run_flow_layers : ℕ → List (List String) → FlowWiring → List FlowEvent → FlowEnd
  unfolding run_flow_layer fire_text_layer collect_texts
  run_flow_layers i [] w events = elim (collect_texts e.flow.outputs w []) [
    | err failure ↦ fail_flow failure events
    | ok out ↦ (ok out, events ++ flow_done out ∷ [])
  ]
  run_flow_layers i (layer ∷ rest) w events = elim (call.before i) [
    | some failure ↦ fail_flow failure events
    | none ↦
        let (failed, shared) = run_flow_layer i layer w events in
        elim failed [
          | some failure ↦ fail_flow failure shared.events
          | none ↦ elim (fire_text_layer layer e.edges (record w { ports = shared.ports })) [
            | err failure ↦ fail_flow failure shared.events
            | ok w' ↦ run_flow_layers (i + 1) rest w' shared.events
          ]
        ]
  ]

  -- The results of `Run` and the events of `RunStream`.
  unfoldable pub run_flow : Texts → FlowEnd
  unfolding run_flow_layers apply_text_inputs activate_entries
  run_flow inputs =
      let started = flow_started e.flow.id ∷ [] in
      let entries = activate_entries e.flow e.flow.nodes (λ _. false) in
      elim (apply_text_inputs e.flow.inputs inputs
        (record { activated = entries; ports = λ _ _. none })) [
          | err failure ↦ fail_flow failure started
          | ok w ↦ run_flow_layers 0 e.layers w started
        ]
