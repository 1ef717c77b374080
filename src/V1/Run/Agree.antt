-- ===== src/V1/Run/Agree.antt =====
-- The layers of a run, in the two versions: its tasks and its firing.
use mathlib.Core.List.{map-append}
use llm_agent_flow.Base.{
  ℕ, ◌+◌, arith, String, false, ◌≡◌, refl, sym, ap, ◌∙◌, subst, Option, none, some, List, [], ◌∷◌,
  ◌++◌, map, Result, ok, err,
}
use llm_agent_flow.V2.Errors.{RunError}
use llm_agent_flow.V2.Fire.{fire_layer_edges}
use llm_agent_flow.V2.Tasks.{Event, Shared, PendingInterrupt, first_error}
use llm_agent_flow.V2.Run.{Inputs, RunState, collect_outputs}
use llm_agent_flow.V2.Run.Core.{
  Call, End, Services, fail, finish, run_layer, fire_layer, run_layers, plan_layer,
}
use llm_agent_flow.V1.Compile.{FlowEngine}
use llm_agent_flow.V1.Compile.Upgrade.{upgrade_nodes, upgrade_engine}
use llm_agent_flow.V1.Run.{
  FlowWiring, FlowEvent, SharedTexts, collect_texts, FlowCall, FlowEnd, fail_flow, fire_text_layer,
  run_flow_layer, run_flow_layers, plan_flow_layer,
}
use llm_agent_flow.V1.Run.Same.{Agrees}
use llm_agent_flow.V1.Run.Planned.{event_of, SameShared, SameFanout, plan_flow_layer-SamePlan}
use llm_agent_flow.V1.Run.Whole.{collect_texts-SameResult}
use llm_agent_flow.V1.Run.Ready.{Ready, fire_text_layer-Ready}
use llm_agent_flow.V1.Run.Loops.{
  SameEnd, fail_flow-SameEnd, SameBarrier, settled, finished_same, fired_same,
}

-- The body of the loop, around the firing.
stepped :
    {S : Type 0} (v : FlowWiring) (st : RunState) (before : List FlowEvent) (store : S)
    (stop stop2 : Option RunError) (m : Option RunError × SharedTexts)
    (b : Result (RunError × List Event) (RunState × List PendingInterrupt))
    (next : SharedTexts → FlowEnd) (goes : RunState → End S)
    → st.events ≡ map event_of before
    → stop2 ≡ stop
    → SameBarrier v st.cursor m b
    → ((s : SharedTexts) (t : RunState)
        → Agrees (record v { ports = s.ports }) t.wiring
        → t.cursor ≡ st.cursor
        → t.cell ≡ none
        → t.events ≡ map event_of s.events
        → SameEnd (next s) (goes t))
    → SameEnd
        (elim stop [
          | some failure ↦ fail_flow failure before
          | none ↦ elim m.0 [ some failure ↦ fail_flow failure m.1.events | none ↦ next m.1 ]
        ])
        (elim stop2 [
          | some failure ↦ fail failure st.events store
          | none ↦ elim b [
            | err failure ↦ fail failure.0 failure.1 store
            | ok barrier ↦ goes barrier.0
          ]
        ])
stepped v st before store (some x) (some y) m b next goes alike h same go =
    let one : y ≡ x = cc in rw one (fail_flow-SameEnd x before st.events store alike)
stepped v st before store (some x) none m b next goes alike h same go = absurd (ground arith)
stepped v st before store none (some y) m b next goes alike h same go = absurd (ground arith)
stepped v st before store none none (some x, s) (err (y, events)) next goes alike h same go =
    rw same.0 (fail_flow-SameEnd x s.events events store same.1)
stepped v st before store none none (none, s) (ok (t, pending)) next goes alike h same go =
    go s t same.0 same.1 same.2 same.3
stepped v st before store none none (some x, s) (ok end) next goes alike h same go = absurd same
stepped v st before store none none (none, s) (err failure) next goes alike h same go = absurd same

module _ {S : Type 0} (sv : Services S) (call : FlowCall) (e : FlowEngine) (fh sh : String)
    (fanouts : SameFanout call.fanout sv.fanout)
    (starts : (i : ℕ) → sv.ctx.before i ≡ call.before i)
    (ends : (i : ℕ) → sv.ctx.after i ≡ call.after i) where
  run_flow_layer-SameBarrier :
      (i : ℕ) (layer : List String) (v : FlowWiring) (st : RunState) (before : List FlowEvent)
      → Agrees v st.wiring
      → st.cell ≡ none
      → st.events ≡ map event_of before
      → SameBarrier v st.cursor
          (run_flow_layer call e i layer v before)
          (run_layer sv.fanout sv.ctx (upgrade_engine fh sh e) false i layer st)
  unfolding run_flow_layer run_layer
  run_flow_layer-SameBarrier i layer v st before agrees no_cell alike =
      let (tasks, skips) = plan_flow_layer-SamePlan e.nodes v st.wiring layer agrees in
      let plan = plan_flow_layer e.nodes v layer in
      let planned = plan_layer false (upgrade_nodes e.nodes) st.wiring layer in
      let s : SharedTexts = record { ports = v.ports; events = before ++ plan.1 } in
      let t : Shared = record {
        ports = st.wiring.ports;
        pending = [];
        cell = st.cell;
        events = st.events ++ planned.1;
      } in
      let shared : SameShared s t = record {
        texts = agrees.texts;
        events = added st.events before planned.1 plan.1 alike skips;
        cell = no_cell;
        pending = refl;
      } in
      let (errs, errors, ran) = fanouts e.max_node_concurrency plan.0 planned.0 s t tasks shared in
      let r = call.fanout e.max_node_concurrency plan.0 s in
      let u = sv.fanout e.max_node_concurrency planned.0 t in
      settled v st agrees r.run_err u.run_err (first_error (call.after i) r.errors)
        (first_error (sv.ctx.after i) u.errors) r.shared u.shared errs
        (ap (λ c. first_error c u.errors) (ends i) ∙ ap (first_error (call.after i)) errors) ran
    where
      added :
          (events : List Event) (olds : List FlowEvent) (more : List Event) (news : List FlowEvent)
          → events ≡ map event_of olds
          → more ≡ map event_of news
          → events ++ more ≡ map event_of (olds ++ news)
      added events olds more news p q =
          ap (λ xs. xs ++ more) p
          ∙ ap (λ xs. map event_of olds ++ xs) q
          ∙ sym (map-append event_of olds news)

  -- The rest of the run after the tasks of a layer, and after its firing.
  abbrev fire_texts : ℕ → List String → List (List String) → FlowWiring → SharedTexts → FlowEnd
  fire_texts i layer ls v s = elim (fire_text_layer layer e.edges (record v { ports = s.ports })) [
    | err failure ↦ fail_flow failure s.events
    | ok w ↦ run_flow_layers call e (i + 1) ls w s.events
  ]

  abbrev fresh_call : String → Inputs → Call
  fresh_call run_id inputs = record { run_id = run_id; checkpoint = false; inputs = some inputs }

  abbrev go_on : Call → ℕ → List (List String) → S → RunState → End S
  go_on c i ls store st = run_layers sv (upgrade_engine fh sh e) c (i + 1) ls st store

  abbrev fire_values : Call → ℕ → List String → List (List String) → S → RunState → End S
  fire_values c i layer ls store t = elim (fire_layer (upgrade_engine fh sh e).flow layer "" t) [
    | err failure ↦ fail failure t.events store
    | ok st ↦ go_on c i ls store st
  ]

  -- The loop, from layers whose edges are all open.
  pub run_flow_layers-SameEnd :
      (inputs : Inputs) (run_id : String) (ls : List (List String)) (i : ℕ) (v : FlowWiring)
      (st : RunState) (before : List FlowEvent) (store : S)
      → Agrees v st.wiring
      → st.cell ≡ none
      → st.events ≡ map event_of before
      → Ready e.edges ls st.cursor
      → SameEnd
          (run_flow_layers call e i ls v before)
          (run_layers sv (upgrade_engine fh sh e) (fresh_call run_id inputs) i ls st store)
  unfolding run_flow_layers run_layers finish fire_layer
  run_flow_layers-SameEnd inputs run_id [] i v st before store agrees no_cell alike ready =
      finished_same (collect_texts e.flow.outputs v [])
        (collect_outputs e.flow.outputs st.wiring []) before st.events store
        (collect_texts-SameResult e.flow.outputs v st.wiring [] agrees) alike
  run_flow_layers-SameEnd inputs run_id (layer ∷ ls) i v st before store agrees no_cell alike
        ready =
      stepped v st before store (call.before i) (sv.ctx.before i)
        (run_flow_layer call e i layer v before)
        (run_layer sv.fanout sv.ctx (upgrade_engine fh sh e) false i layer st)
        (fire_texts i layer ls v) (fire_values (fresh_call run_id inputs) i layer ls store) alike
        (starts i) (run_flow_layer-SameBarrier i layer v st before agrees no_cell alike)
        (λ s t agreed cursor cell events.
          let v' : FlowWiring = record v { ports = s.ports } in
          let (firing, next) =
            fire_text_layer-Ready e.edges layer ls t.cursor v' t.wiring
              (subst (Ready e.edges (layer ∷ ls)) (sym cursor) ready) agreed in
          fired_same store s.events layer t events (fire_text_layer layer e.edges v')
            (fire_layer_edges layer "" t.cursor t.wiring)
            (λ w. run_flow_layers call e (i + 1) ls w s.events)
            (go_on (fresh_call run_id inputs) i ls store) firing
            (λ v'' end fired going.
              run_flow_layers-SameEnd inputs run_id ls (i + 1) v''
                (record t { cursor = end.0; wiring = end.1 }) s.events store going cell events
                (next end fired)))
