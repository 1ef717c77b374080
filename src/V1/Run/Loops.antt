-- ===== src/V1/Run/Loops.antt =====
-- The ends of a run, of a layer's tasks and of its firing, in the two versions.
use llm_agent_flow.Base.{
  arith, String, ◌≡◌, refl, sym, Option, none, some, List, [], ◌∷◌, ◌++◌, map, Result, ok, err,
  ◌>>=◌,
}
use llm_agent_flow.V2.Errors.{RunError, Run}
use llm_agent_flow.V2.Value.{Value}
use llm_agent_flow.V2.Fire.{Wiring, Cursor, fire_layer_mappings}
use llm_agent_flow.V2.Tasks.{Event, Shared, PendingInterrupt}
use llm_agent_flow.V2.Run.{RunState}
use llm_agent_flow.V2.Run.Core.{Leg, completed, failed, End, fail, reduce_cell}
use llm_agent_flow.V1.Run.{
  Texts, FlowWiring, FlowEvent, flow_done, flow_err, SharedTexts, FlowEnd, fail_flow,
}
use llm_agent_flow.V1.Run.Same.{Agrees, SameFiring}
use llm_agent_flow.V1.Run.Planned.{as_values, event_of, SameShared, emitted}
use llm_agent_flow.V2.Tasks.{flow_done as done}
use llm_agent_flow.V1.Run.Whole.{fire_no_mappings, SameResult}

-- The ends of a run: the result and the events.
abbrev pub SameLeg : Run Texts → Leg → Type 0
SameLeg (ok a) (completed b) = b ≡ as_values a
SameLeg (err e) (failed f) = f ≡ e
SameLeg _ _ = ⊥

abbrev pub SameEnd : {S : Type 0} → FlowEnd → End S → Type 0
SameEnd p end = SameLeg p.0 end.leg × (end.events ≡ map event_of p.1)

pub fail_flow-SameEnd :
    {S : Type 0} (e : RunError) (before : List FlowEvent) (events : List Event) (store : S)
    → events ≡ map event_of before
    → SameEnd (fail_flow e before) (fail e events store)
fail_flow-SameEnd e before events store same = (refl, emitted events before (flow_err e) same)

-- What a layer's tasks leave: both fail, or both go on from the same.
abbrev pub SameBarrier :
    FlowWiring
    → Cursor
    → Option RunError × SharedTexts
    → Result (RunError × List Event) (RunState × List PendingInterrupt)
    → Type 0
SameBarrier v es (some f, s) (err (g, events)) = (g ≡ f) × (events ≡ map event_of s.events)
SameBarrier v es (none, s) (ok (t, pending)) =
    Agrees (record v { ports = s.ports }) t.wiring
    × (t.cursor ≡ es)
    × (t.cell ≡ none)
    × (t.events ≡ map event_of s.events)
SameBarrier v es (some f, s) (ok end) = ⊥
SameBarrier v es (none, s) (err failure) = ⊥

module _ (v : FlowWiring) (st : RunState) (agrees : Agrees v st.wiring) where
  pub settled :
      (run_err run_err2 first first2 : Option RunError) (s : SharedTexts) (t : Shared)
      → run_err2 ≡ run_err
      → first2 ≡ first
      → SameShared s t
      → SameBarrier v st.cursor
          (elim run_err [ some failure ↦ (some failure, s) | none ↦ (first, s) ])
          (elim run_err2 [
            | some failure ↦ err (failure, t.events)
            | none ↦ elim first2 [
              | some failure ↦ err (failure, t.events)
              | none ↦ elim (reduce_cell t.cell) [
                | err failure ↦ err (failure, t.events)
                | ok cell ↦ ok (
                  record {
                    wiring = record { activated = st.wiring.activated; ports = t.ports };
                    cursor = st.cursor;
                    cell = cell;
                    events = t.events;
                  },
                  t.pending,
                )
              ]
            ]
          ])
  settled (some x) (some y) first first2 s t h k same = (cc, same.events)
  settled (some x) none first first2 s t h k same = absurd (ground arith)
  settled none (some y) first first2 s t h k same = absurd (ground arith)
  settled none none (some x) (some y) s t h k same = (cc, same.events)
  settled none none (some x) none s t h k same = absurd (ground arith)
  settled none none none (some y) s t h k same = absurd (ground arith)
  settled none none none none s t h k same =
      rw same.cell (record { active = agrees.active; texts = same.texts }, refl, refl, same.events)

pub finished_same :
    {S : Type 0} (a : Run Texts) (b : Run (List (String × Value))) (before : List FlowEvent)
    (events : List Event) (store : S)
    → SameResult a b
    → events ≡ map event_of before
    → SameEnd
        (elim a [
          | err failure ↦ fail_flow failure before
          | ok out ↦ (ok out, before ++ flow_done out ∷ [])
        ])
        (elim b [
          | err failure ↦ fail failure events store
          | ok out ↦ record { leg = completed out; store = store; events = events ++ done out ∷ [] }
        ])
finished_same (ok out) (ok b) before events store same alike =
    rw same (refl, emitted events before (flow_done out) alike)
finished_same (err e) (err f) before events store same alike =
    rw same (fail_flow-SameEnd e before events store alike)
finished_same (ok out) (err f) before events store same alike = absurd same
finished_same (err e) (ok b) before events store same alike = absurd same

module _ {S : Type 0} (store : S) (before : List FlowEvent) (layer : List String) (st : RunState)
    (alike : st.events ≡ map event_of before) where
  pub fired_same :
      (a : Run FlowWiring) (b : Run (Cursor × Wiring)) (next : FlowWiring → FlowEnd)
      (goes : RunState → End S)
      → SameFiring a b
      → ((v : FlowWiring) (end : Cursor × Wiring)
          → b ≡ ok end
          → Agrees v end.1
          → SameEnd (next v) (goes (record st { cursor = end.0; wiring = end.1 })))
      → SameEnd
          (elim a [ err failure ↦ fail_flow failure before | ok w ↦ next w ])
          (elim (b >>= (λ fired.
            fire_layer_mappings layer "" [] fired.1
            >>= (λ w. ok (record st { cursor = fired.0; wiring = w })))) [
              | err failure ↦ fail failure st.events store
              | ok st2 ↦ goes st2
            ])
  fired_same (ok v) (ok end) next goes same go =
      rw (fire_no_mappings layer end.1) (go v end refl same)
  fired_same (err e) (err f) next goes same go =
      rw (sym same) (fail_flow-SameEnd e before st.events store alike)
  fired_same (ok v) (err f) next goes same go = absurd same
  fired_same (err e) (ok end) next goes same go = absurd same
