-- ===== src/V2/Run/Contract.antt =====
-- The contract of the runs: the events of a stream, and the legs of a run without checkpoints.
use llm_agent_flow.Base.{
  ℕ, ◌+◌, String, ◌≡◌, ◌≢◌, refl, sym, ap, ◌∙◌, subst, Bool, true, false, Option, none, some, List,
  [], ◌∷◌, ◌++◌, Result, ok, err, >>=-on-ok, Result-match, Option-match, List-match, if◌then◌else◌,
}
use llm_agent_flow.V2.Ir.{Flow}
use llm_agent_flow.V2.Fire.{fire_layer_edges, fire_layer_mappings}
use llm_agent_flow.V2.Errors.{RunError, Run}
use llm_agent_flow.V2.State.{StateCell}
use llm_agent_flow.V2.Engine.{Engine}
use llm_agent_flow.V2.Tasks.{
  Event, flow_started, flow_done, flow_err, PendingInterrupt, Shared, Fanout, Context, first_error,
}
use llm_agent_flow.V2.Run.{Inputs, start_edges, RunState, collect_outputs}
use llm_agent_flow.V2.Run.Core.{
  Suspension, Leg, completed, suspended, failed, End, Services, Call, run_layer, fire_layer, finish,
  suspend, run_layers, reduce_cell, save_suspension, plan_layer,
}
use llm_agent_flow.V2.Run.Start.{
  start_wiring, run_fresh, outputs_of, run, deliver_events-all, run_stream,
}
use llm_agent_flow.V2.Run.Emits.{Extends, Extends-trans, Emits, plan_layer-emits}
use llm_agent_flow.V2.Run.Ends.{terminal, StoreAfter, IsEnd, fail-IsEnd, run_layers-IsEnd}

-- The events of a layer's end, whether it failed or not.
abbrev barrier_events :
    Result (RunError × List Event) (RunState × List PendingInterrupt) → List Event
barrier_events (ok b) = b.0.events
barrier_events (err failure) = failure.1

run_layer-Extends :
    (fanout : Fanout) (ctx : Context) (e : Engine) (checkpoint : Bool) (i : ℕ) (layer : List String)
    (s : RunState)
    → Emits fanout
    → Extends s.events (barrier_events (run_layer fanout ctx e checkpoint i layer s))
unfolding run_layer
run_layer-Extends fanout ctx e checkpoint i layer s emits =
    let plan = plan_layer checkpoint e.nodes s.wiring layer in
    let start : Shared = record {
      ports = s.wiring.ports;
      pending = [];
      cell = s.cell;
      events = s.events ++ plan.1;
    } in
    let r = fanout e.max_node_concurrency plan.0 start in
    let grown : Extends s.events r.shared.events =
      Extends-trans _ _ _ (plan.1, refl)
        (emits e.max_node_concurrency plan.0 start
          (plan_layer-emits checkpoint e.nodes s.wiring layer)) in
    Option-match (λ b. Extends s.events (barrier_events b)) r.run_err
      (λ _.
        Option-match (λ b. Extends s.events (barrier_events b)) (first_error (ctx.after i) r.errors)
          (λ _.
            Result-match (λ b. Extends s.events (barrier_events b)) (reduce_cell r.shared.cell)
              (λ cell _. grown) (λ failure _. grown))
          (λ failure _. grown))
      (λ failure _. grown)

fire_layer-events :
    (f : Flow) (layer : List String) (interrupt : String) (s s' : RunState)
    → fire_layer f layer interrupt s ≡ ok s'
    → s'.events ≡ s.events
unfolding fire_layer
fire_layer-events f layer interrupt s s' =
    >>=-on-ok {P = λ s'. s'.events ≡ s.events} (fire_layer_edges layer interrupt s.cursor s.wiring)
      _
      (λ fired _.
        >>=-on-ok {P = λ s'. s'.events ≡ s.events}
          (fire_layer_mappings layer interrupt f.mappings fired.1) _ (λ w _ s' h. cc))
      s'

abbrev Grows : {S : Type 0} → RunState → End S → Type 0
Grows s end = Extends s.events end.events

module _ {S : Type 0} (sv : Services S) (e : Engine) (call : Call) where
  suspend-Grows :
      (i : ℕ) (layer : List String) (s : RunState) (p : PendingInterrupt)
      (others : List PendingInterrupt) (store : S)
      → Grows s (suspend sv e call i layer s p others store)
  unfolding suspend
  suspend-Grows i layer s p others store =
      Option-match (Grows s) sv.checkpoint_store (λ _. (_, refl))
        (λ cs _.
          List-match (Grows s) others
            (λ _.
              Result-match (Grows s) (save_suspension sv e call cs i layer s p store)
                (λ after _. (_, refl)) (λ failure _. (_, refl)))
            (λ _ _ _. (_, refl)))

  run_layers-Grows :
      Emits sv.fanout
      → (i : ℕ) (ls : List (List String)) (s : RunState) (store : S)
      → Grows s (run_layers sv e call i ls s store)
  unfolding run_layers finish
  run_layers-Grows emits i [] s store =
      Result-match (Grows s) (collect_outputs e.flow.outputs s.wiring []) (λ out _. (_, refl))
        (λ failure _. (_, refl))
  run_layers-Grows emits i (layer ∷ rest) s store =
      let grown = run_layer-Extends sv.fanout sv.ctx e call.checkpoint i layer s emits in
      Option-match (Grows s) (sv.ctx.before i)
        (λ _.
          Result-match (Grows s) (run_layer sv.fanout sv.ctx e call.checkpoint i layer s)
            (λ barrier h.
              let run : Extends s.events barrier.0.events =
                subst (λ b. Extends s.events (barrier_events b)) h grown in
              List-match (Grows s) (if call.checkpoint then barrier.1 else [])
                (λ _.
                  Result-match (Grows s) (fire_layer e.flow layer "" barrier.0)
                    (λ s' fired.
                      let same = fire_layer-events e.flow layer "" barrier.0 s' fired in
                      Extends-trans s.events s'.events _
                        (subst (λ xs. Extends s.events xs) (sym same) run)
                        (run_layers-Grows emits (i + 1) rest s' store))
                    (λ failure _. Extends-trans s.events barrier.0.events _ run (_, refl)))
                (λ p others _.
                  Extends-trans s.events barrier.0.events _ run
                    (suspend-Grows i layer barrier.0 p others store)))
            (λ failure h.
              Extends-trans s.events failure.1 _
                (subst (λ b. Extends s.events (barrier_events b)) h grown) (_, refl)))
        (λ cancelled _. (_, refl))

kept :
    {S : Type 0} (sv : Services S) (call : Call) (before after : S) (leg : Leg)
    → call.checkpoint ≡ false
    → StoreAfter sv call before after leg
    → ((s : Suspension) → leg ≢ suspended s) × (after ≡ before)
kept sv call before after (completed out) c h = (λ s k. cc, h)
kept sv call before after (failed e) c h = (λ s k. cc, h)
kept sv call before after (suspended s) c h = absurd (bool_clash (h.resumable) c)
  where
    bool_clash : {b : Bool} → b ≡ true → b ≡ false → ⊥
    bool_clash k l = cc

-- The last event of a run that returned this.
abbrev pub ran_event : Run Inputs → Event
ran_event (ok out) = flow_done out
ran_event (err failure) = flow_err failure

module _ {S : Type 0} (sv : Services S) (e : Engine) where
  -- A fresh run ends as every leg does.
  pub run_fresh-IsEnd :
      (run_id : String) (checkpoint : Bool) (inputs : Inputs) (cell : Option StateCell) (store : S)
      → IsEnd sv
          (record { run_id = run_id; checkpoint = checkpoint; inputs = some inputs })
          store
          (run_fresh sv e run_id checkpoint inputs cell store)
  unfolding run_fresh
  run_fresh-IsEnd run_id checkpoint inputs cell store =
      let call : Call = record { run_id = run_id; checkpoint = checkpoint; inputs = some inputs } in
      Result-match (IsEnd sv call store) (start_wiring e inputs)
        (λ w _. run_layers-IsEnd sv call e 0 e.layers _ store)
        (λ failure _. fail-IsEnd sv call failure (flow_started e.flow.id ∷ []) store)

  run_fresh-Extends :
      (run_id : String) (checkpoint : Bool) (inputs : Inputs) (cell : Option StateCell) (store : S)
      → Emits sv.fanout
      → Extends
          (flow_started e.flow.id ∷ [])
          (run_fresh sv e run_id checkpoint inputs cell store).events
  unfolding run_fresh
  run_fresh-Extends run_id checkpoint inputs cell store emits =
      Result-match {B = End S} (λ end. Extends (flow_started e.flow.id ∷ []) end.events)
        (start_wiring e inputs)
        (λ w _.
          run_layers-Grows sv e
            (record { run_id = run_id; checkpoint = checkpoint; inputs = some inputs }) emits 0
            e.layers
            (record {
              wiring = w;
              cursor = start_edges e.edges;
              cell = cell;
              events = flow_started e.flow.id ∷ [];
            })
            store)
        (λ failure _. (_, refl))

  -- A run without checkpoints, as `Run`, `RunWithState` and `RunStream` start it, is never suspended
  -- and leaves the checkpoint store as it was, whatever its nodes return.
  pub run_fresh-never_suspended :
      (run_id : String) (inputs : Inputs) (cell : Option StateCell) (store : S)
      → ((s : Suspension) → (run_fresh sv e run_id false inputs cell store).leg ≢ suspended s)
        × ((run_fresh sv e run_id false inputs cell store).store ≡ store)
  run_fresh-never_suspended run_id inputs cell store =
      kept sv _ store _ _ refl (run_fresh-IsEnd run_id false inputs cell store).store

  terminal-ran :
      (leg : Leg)
      → ((s : Suspension) → leg ≢ suspended s)
      → terminal leg ≡ ran_event (outputs_of sv e leg)
  terminal-ran (completed out) h = refl
  terminal-ran (suspended s) h = absurd (h s refl)
  terminal-ran (failed failure) h = refl

  -- For a fan-out that adds no more than its tasks' events, and a context that drops no event: the
  -- stream of a run starts with FlowStarted, and its last event is FlowDone with the outputs that `Run`
  -- returns from the same inputs, or FlowErr with the error that it returns.
  pub run_stream_contract :
      (dropped : ℕ → Bool) (inputs : Inputs) (store : S)
      → Emits sv.fanout
      → ((i : ℕ) → dropped i ≡ false)
      → (first : List Event) × (rest : List Event) × (run_stream sv e dropped inputs store
          ≡ flow_started e.flow.id ∷ rest)
        × (run_stream sv e dropped inputs store ≡ first ++ ran_event (run sv e inputs store) ∷ [])
  unfolding run_stream run
  run_stream_contract dropped inputs store emits alive =
      let ended = run_fresh sv e "" false inputs none store in
      let end = run_fresh-IsEnd "" false inputs none store in
      let (more, h) = run_fresh-Extends "" false inputs none store emits in
      let all = deliver_events-all dropped 0 ended.events alive in
      let last = terminal-ran ended.leg (run_fresh-never_suspended "" inputs none store).0 in
      (end.emitted, more, all ∙ h, all ∙ end.last ∙ ap (λ x. end.emitted ++ x ∷ []) last)
