-- ===== src/V2/Run/Start.antt =====
-- The fresh start of `runCore`, and the methods `Run`, `RunWithState` and `RunStream` of v2/flow/engine.go,
-- `RunResumable` and `RunResumableWithState` of v2/flow/resume.go.
use llm_agent_flow.Base.{
  ℕ, ◌+◌, ◌≡◌, refl, if◌then◌else◌, String, Bool, true, false, Option, none, some, List, [], ◌∷◌,
  ok, err, ◌>>=◌,
}
use llm_agent_flow.V2.Errors.{Run}
use llm_agent_flow.V2.State.{StateCell, StateOption, build_state_cell}
use llm_agent_flow.V2.Engine.{Engine}
use llm_agent_flow.V2.Fire.{Wiring}
use llm_agent_flow.V2.Tasks.{Event, flow_started}
use llm_agent_flow.V2.Run.{Inputs, entry_nodes, apply_inputs, apply_input_mappings, start_edges}
use llm_agent_flow.V2.Run.Core.{Leg, completed, suspended, failed, End, Services, fail, run_layers}

-- The wiring of a fresh run.
unfoldable pub start_wiring : Engine → Inputs → Run Wiring
unfolding entry_nodes apply_inputs apply_input_mappings
start_wiring e inputs = do
  w ←
      apply_inputs e.flow.inputs inputs
        (record { activated = entry_nodes e.flow e.flow.nodes; ports = [] })
  apply_input_mappings 0 e.flow.mappings inputs w

-- The `select` of `emit` for each event, in the order of the calls: `dropped i` where it took
-- `ctx.Done()`, which it can only once the context is done.
unfoldable pub deliver_events : (dropped : ℕ → Bool) → ℕ → List Event → List Event
deliver_events dropped i [] = []
deliver_events dropped i (x ∷ xs) =
    let rest = deliver_events dropped (i + 1) xs in if dropped i then rest else x ∷ rest

pub deliver_events-all :
    (dropped : ℕ → Bool) (i : ℕ) (xs : List Event)
    → ((n : ℕ) → dropped n ≡ false)
    → deliver_events dropped i xs ≡ xs
unfolding deliver_events
deliver_events-all dropped i [] alive = refl
deliver_events-all dropped i (x ∷ xs) alive =
    rw (alive i, deliver_events-all dropped (i + 1) xs alive) refl

module _ {S : Type 0} (sv : Services S) (e : Engine) where
  unfoldable pub run_fresh : String → Bool → Inputs → Option StateCell → S → End S
  unfolding start_wiring run_layers
  run_fresh run_id checkpoint inputs cell store =
      let started = flow_started e.flow.id ∷ [] in
      elim (start_wiring e inputs) [
        | err failure ↦ fail failure started store
        | ok w ↦
            run_layers sv e
              (record { run_id = run_id; checkpoint = checkpoint; inputs = some inputs }) 0 e.layers
              (record { wiring = w; cursor = start_edges e.edges; cell = cell; events = started })
              store
      ]

  -- `(outputs, err)`: the suspension is dropped, and its outputs are nil.
  abbrev pub outputs_of : Leg → Run Inputs
  outputs_of (completed out) = ok out
  outputs_of (suspended _) = ok []
  outputs_of (failed failure) = err failure

  unfoldable pub run : Inputs → S → Run Inputs
  unfolding run_fresh
  run inputs store = outputs_of ((run_fresh "" false inputs none store).leg)

  unfoldable pub run_with_state : Inputs → List StateOption → S → Run Inputs
  unfolding run_fresh build_state_cell
  run_with_state inputs opts store =
      outputs_of ((run_fresh "" false inputs (build_state_cell opts) store).leg)

  -- The events of the channel, for a reader that takes them all.
  unfoldable pub run_stream : (dropped : ℕ → Bool) → Inputs → S → List Event
  unfolding run_fresh deliver_events
  run_stream dropped inputs store =
      deliver_events dropped 0 (run_fresh "" false inputs none store).events

  unfoldable pub run_resumable : String → Inputs → S → Leg × S
  unfolding run_fresh
  run_resumable run_id inputs store =
      let end = run_fresh run_id true inputs none store in (end.leg, end.store)

  unfoldable pub run_resumable_with_state : String → Inputs → List StateOption → S → Leg × S
  unfolding run_fresh build_state_cell
  run_resumable_with_state run_id inputs opts store =
      let end = run_fresh run_id true inputs (build_state_cell opts) store in (end.leg, end.store)
