-- ===== src/V1/Run/Planned.antt =====
-- The tasks of a layer in the two versions: they leave the same texts, errors and events.
use llm_agent_flow.Base.{
  ℕ, String, false, ◌≡◌, refl, sym, ap, ◌∙◌, fun_ext, Option, none, some, List, [], ◌∷◌, ◌++◌, map,
  Result-cases, inl, inr, eq_iff, ◌==◌, Bool-cases, Option-cases,
}
use mathlib.Core.List.{map-append}
use llm_agent_flow.V2.Errors.{node_failed}
use llm_agent_flow.V2.Value.{Value, str, PortTable, get_port, set_port, get-set_port}
use llm_agent_flow.V2.Fire.{Wiring}
use llm_agent_flow.V2.Tasks.{Event, Shared, Task, run_task, conclude, set_ports, Fanout}
use llm_agent_flow.V2.Tasks.{
  flow_started as started, node_started as node_starts, node_finished as node_finishes,
  node_errored as node_errs, node_skipped as node_skips, flow_done as done, flow_err as failed_with,
}
use llm_agent_flow.V2.Run.Core.{plan_layer}
use llm_agent_flow.V1.Compile.{StringNode, StringNodes}
use llm_agent_flow.V1.Compile.Upgrade.{text_of, upgrade_node, upgrade_nodes}
use llm_agent_flow.V1.Run.{
  Texts, TextPorts, FlowWiring, set_text_port, FlowEvent, flow_started, node_started, node_finished,
  node_errored, node_skipped, flow_done, flow_err, SharedTexts, FlowTask, set_text_ports,
  run_flow_task, plan_flow_layer, FlowFanout,
}
use llm_agent_flow.V1.Run.Same.{as_value, Agrees}

abbrev pub as_values : Texts → List (String × Value)
as_values = map (λ p. (p.0, str p.1))

-- The event of the second version; metadata is left out.
abbrev pub event_of : FlowEvent → Event
event_of (flow_started id) = started id
event_of (node_started id input) = node_starts id (λ port. as_value (input port))
event_of (node_finished id out meta) = node_finishes id (as_values out)
event_of (node_errored id e meta) = node_errs id e
event_of (node_skipped id) = node_skips id
event_of (flow_done out) = done (as_values out)
event_of (flow_err e) = failed_with e

-- The same texts on the ports.
abbrev pub SameTexts : TextPorts → PortTable → Type 0
SameTexts ports table = (id port : String) → get_port table id port ≡ as_value (ports id port)

-- What the tasks share is the same; there is no State, and no interrupt.
pub record SameShared (s : SharedTexts) (t : Shared) : Type 0 where
  pub texts : SameTexts s.ports t.ports
  pub events : t.events ≡ map event_of s.events
  pub cell : t.cell ≡ none
  pub pending : t.pending ≡ []

abbrev pub SameTask : FlowTask → Task → Type 0
SameTask a b =
    (s : SharedTexts) (t : Shared)
    → SameShared s t
    → ((b t).0 ≡ (a s).0) × SameShared (a s).1 (b t).1

abbrev pub SameTasks : List FlowTask → List Task → Type 0
SameTasks [] [] = Unit
SameTasks (a ∷ more) (b ∷ others) = SameTask a b × SameTasks more others
SameTasks [] (b ∷ others) = ⊥
SameTasks (a ∷ more) [] = ⊥

pub set_text_port-SameTexts :
    (ports : TextPorts) (table : PortTable) (n p s : String)
    → SameTexts ports table
    → SameTexts (set_text_port ports n p s) (set_port table n p (str s))
set_text_port-SameTexts ports table n p s same id port =
    get-set_port table n p id port (str s) ∙ (elim (Bool-cases (n == id)) [
      | inr h ↦ rw h (same id port)
      | inl h ↦ elim (Bool-cases (p == port)) [
        | inl k ↦ rw (h, k) refl
        | inr k ↦
            let alike = (eq_iff n id).0 h in
            rw (h, k) (same id port ∙ ap (λ m. as_value (ports m port)) (sym alike))
      ]
    ])

set_text_ports-SameTexts :
    (id : String) (out : Texts) (ports : TextPorts) (table : PortTable)
    → SameTexts ports table
    → SameTexts (set_text_ports id out ports) (set_ports id (as_values out) table)
unfolding set_text_ports set_ports
set_text_ports-SameTexts id [] ports table same = same
set_text_ports-SameTexts id ((k, v) ∷ out) ports table same =
    set_text_ports-SameTexts id out (set_text_port ports id k v) (set_port table id k (str v))
      (set_text_port-SameTexts ports table id k v same)

text_of-as_value : (input : String → Option String) → (λ p. text_of (as_value (input p))) ≡ input
text_of-as_value input = fun_ext (λ p. go (input p))
  where
    go : (o : Option String) → text_of (as_value o) ≡ o
    go none = refl
    go (some s) = refl

pub emitted :
    (events : List Event) (before : List FlowEvent) (ev : FlowEvent)
    → events ≡ map event_of before
    → events ++ event_of ev ∷ [] ≡ map event_of (before ++ ev ∷ [])
emitted events before ev same =
    ap (λ xs. xs ++ event_of ev ∷ []) same ∙ sym (map-append event_of before (ev ∷ []))

run_flow_task-SameTask :
    (id : String) (node : StringNode) (input : String → Option String)
    → SameTask
        (run_flow_task id node input)
        (run_task false id (upgrade_node node) (λ p. as_value (input p)))
unfolding run_flow_task run_task conclude
run_flow_task-SameTask id node input s t same =
    let begun = emitted t.events s.events (node_started id input) same.events in
    elim (Result-cases ((node.run input).0)) [
      | inl (out, ran) ↦
          rw (run_flow_task, run_task, conclude, text_of-as_value input, ran)
            (
              refl,
              record {
                texts = set_text_ports-SameTexts id out s.ports t.ports same.texts;
                events = emitted _ _ (node_finished id out (node.run input).1) begun;
                cell = same.cell;
                pending = same.pending;
              },
            )
      | inr (e, ran) ↦
          rw (run_flow_task, run_task, conclude, text_of-as_value input, ran)
            (
              refl,
              record {
                texts = same.texts;
                events = emitted _ _ (node_errored id (node_failed id e) (node.run input).1) begun;
                cell = same.cell;
                pending = same.pending;
              },
            )
    ]

-- What is asked of `fanout.Run` for the two types of results: of tasks that do the same it makes the
-- same.
abbrev pub SameFanout : FlowFanout → Fanout → Type 0
SameFanout a b =
    (max : ℕ) (ts : List FlowTask) (us : List Task) (s : SharedTexts) (t : Shared)
    → SameTasks ts us
    → SameShared s t
    → ((b max us t).run_err ≡ (a max ts s).run_err)
      × ((b max us t).errors ≡ (a max ts s).errors)
      × SameShared (a max ts s).shared (b max us t).shared

abbrev pub SamePlan : List FlowTask × List FlowEvent → List Task × List Event → Type 0
SamePlan p q = SameTasks p.0 q.0 × (q.1 ≡ map event_of p.1)

pub plan_flow_layer-SamePlan :
    (nodes : StringNodes) (v : FlowWiring) (w : Wiring) (layer : List String)
    → Agrees v w
    → SamePlan (plan_flow_layer nodes v layer) (plan_layer false (upgrade_nodes nodes) w layer)
unfolding plan_flow_layer plan_layer
plan_flow_layer-SamePlan nodes v w [] agrees = (tt, refl)
plan_flow_layer-SamePlan nodes v w (id ∷ layer) agrees =
    let (tasks, skips) = plan_flow_layer-SamePlan nodes v w layer agrees in
    elim (Bool-cases (v.activated id)) [
      | inr idle ↦
          rw (plan_flow_layer, plan_layer, agrees.active id, idle)
            (tasks, ap (◌∷◌ (node_skips id)) skips)
      | inl active ↦ elim (Option-cases (nodes id)) [
        | inl missing ↦
            rw (plan_flow_layer, plan_layer, agrees.active id, active, missing) (tasks, skips)
        | inr (node, found) ↦
            let read : get_port w.ports id ≡ (λ p. as_value (v.ports id p)) =
              fun_ext (agrees.texts id) in
            rw (plan_flow_layer, plan_layer, agrees.active id, active, found, read)
              ((run_flow_task-SameTask id node (v.ports id), tasks), skips)
      ]
    ]
