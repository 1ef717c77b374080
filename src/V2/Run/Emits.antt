-- ===== src/V2/Run/Emits.antt =====
-- The tasks of a layer only add events to those that were emitted before.
use llm_agent_flow.Base.{
  ℕ, String, ◌≡◌, refl, ◌∙◌, ap, Bool, true, false, Bool-cases, inl, inr, Option, some,
  Option-cases, List, [], ◌∷◌, ◌++◌, All,
}
use mathlib.Core.List.{append_assoc}
use llm_agent_flow.V2.Value.{Value}
use llm_agent_flow.V2.Nodes.{NodeKind, NodeOutcome, finished, interrupted, failed}
use llm_agent_flow.V2.Engine.{Nodes, interrupts}
use llm_agent_flow.V2.Fire.{Wiring}
use llm_agent_flow.V2.Tasks.{
  Event, node_started, Shared, Task, run_task, conclude, committed_state, Fanout,
}
use llm_agent_flow.V2.Run.Core.{plan_layer}

abbrev pub Extends : List Event → List Event → Type 0
Extends xs ys = (more : List Event) × (ys ≡ xs ++ more)

-- A task that only adds events.
abbrev pub EmitsTask : Task → Type 0
EmitsTask task = (s : Shared) → Extends s.events (task s).1.events

-- What is asked of `fanout.Run`: what it does with tasks that only add events, also only adds events.
abbrev pub Emits : Fanout → Type 0
Emits fanout =
    (cap : ℕ) (tasks : List Task) (s : Shared)
    → All EmitsTask tasks
    → Extends s.events ((fanout cap tasks s).shared.events)

pub Extends-trans : (xs ys zs : List Event) → Extends xs ys → Extends ys zs → Extends xs zs
Extends-trans xs ys zs (more, h) (rest, k) =
    (more ++ rest, k ∙ ap (λ l. l ++ rest) h ∙ append_assoc xs more rest)

conclude-emits :
    (checkpoint : Bool) (id : String) (node : NodeKind) (outcome : NodeOutcome) (s : Shared)
    → Extends s.events (conclude checkpoint id node outcome s).1.events
unfolding conclude
conclude-emits checkpoint id node (finished out) s = (_, refl)
conclude-emits checkpoint id node (failed e) s = (_, refl)
conclude-emits false id node (interrupted req) s = (_, refl)
conclude-emits true id node (interrupted req) s = elim (Bool-cases (interrupts (some node))) [
  | inl can ↦ rw (conclude, can) (_, refl)
  | inr cannot ↦ rw (conclude, cannot) (_, refl)
]

run_task-emits :
    (checkpoint : Bool) (id : String) (node : NodeKind) (input : String → Option Value)
    → EmitsTask (run_task checkpoint id node input)
unfolding run_task
run_task-emits checkpoint id node input s =
    Extends-trans s.events _ _ (node_started id input ∷ [], refl)
      (conclude-emits checkpoint id node (node.run (committed_state s.cell) input).0 _)

pub plan_layer-emits :
    (checkpoint : Bool) (nodes : Nodes) (w : Wiring) (layer : List String)
    → All EmitsTask (plan_layer checkpoint nodes w layer).0
unfolding plan_layer
plan_layer-emits checkpoint nodes w [] = tt
plan_layer-emits checkpoint nodes w (id ∷ layer) = elim (Bool-cases (w.activated id)) [
  | inr skipped ↦ rw (plan_layer, skipped) (plan_layer-emits checkpoint nodes w layer)
  | inl active ↦ elim (Option-cases (nodes id)) [
    | inl missing ↦ rw (plan_layer, active, missing) (plan_layer-emits checkpoint nodes w layer)
    | inr (node, present) ↦
        rw (plan_layer, active, present)
          (run_task-emits checkpoint id node _, plan_layer-emits checkpoint nodes w layer)
  ]
]
