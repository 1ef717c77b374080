-- ===== src/V2/Resume/Ends.antt =====
-- What a resumption leaves in the checkpoint store.
use llm_agent_flow.Base.{◌+◌, String, refl, true, Option, none, Result-match, Option-match}
use llm_agent_flow.V2.State.{StateCell}
use llm_agent_flow.V2.Engine.{Engine}
use llm_agent_flow.V2.Run.{Inputs}
use llm_agent_flow.V2.Run.Core.{Leg, Services}
use llm_agent_flow.V2.Run.Ends.{StoreAfter, run_layers-IsEnd}
use llm_agent_flow.V2.Resume.{restore, layers_from, resume_from, resume_with_cell}

module _ {S : Type 0} (sv : Services S) (e : Engine) where
  -- A resumption that is refused, fails or completes leaves the store as it was, the checkpoint that it
  -- has read included. One that is suspended again has saved one checkpoint, with the id of the new
  -- run, which is the resume token, and with the node and request of the interrupt.
  pub resume_with_cell-StoreAfter :
      (run_id token : String) (human : Inputs) (cell : Option StateCell) (store : S)
      → StoreAfter sv
          (record { run_id = run_id; checkpoint = true; inputs = none })
          store
          (resume_with_cell sv e run_id token human cell store).1
          (resume_with_cell sv e run_id token human cell store).0
  unfolding resume_with_cell resume_from
  resume_with_cell-StoreAfter run_id token human cell store =
      let P : Leg × S → Type 0 = λ r.
        StoreAfter sv (record { run_id = run_id; checkpoint = true; inputs = none }) store r.1
          r.0 in
      Option-match P sv.checkpoint_store (λ _. refl)
        (λ cs _.
          Result-match P (cs.load_checkpoint store token)
            (λ cp _.
              Result-match P (restore sv.json sv.registry e cp human cell)
                (λ s _.
                  (run_layers-IsEnd sv
                    (record { run_id = run_id; checkpoint = true; inputs = none }) e
                    (cp.suspend_layer + 1) (layers_from (cp.suspend_layer + 1) e.layers) s
                    store).store)
                (λ failure _. refl))
            (λ failure _. refl))
