-- ===== src/V2/Run/Ends.antt =====
-- How a leg of a run ends: the store, the checkpoint and the last event that go with what it returns.
use llm_agent_flow.Base.{
  ℕ, ◌+◌, String, ◌≡◌, refl, Bool, true, false, some, List, [], ◌∷◌, ◌++◌, ok, >>=-on-ok,
  Result-match, Option-match, List-match, if◌then◌else◌,
}
use llm_agent_flow.V2.Errors.{RunError, no_checkpoint_store, multiple_interrupts}
use llm_agent_flow.V2.Ir.{Flow}
use llm_agent_flow.V2.Engine.{Engine}
use llm_agent_flow.V2.Checkpoint.{Checkpoint, CheckpointStore}
use llm_agent_flow.V2.Tasks.{Event, flow_done, flow_err, flow_suspended, PendingInterrupt}
use llm_agent_flow.V2.Run.{RunState, collect_outputs}
use llm_agent_flow.V2.Run.Snapshot.{snapshot_checkpoint, encode_ports, original_inputs, encode_cell}
use llm_agent_flow.V2.Run.Core.{
  Leg, completed, suspended, failed, End, Services, Call, run_layer, fire_layer, fail, finish,
  save_suspension, suspend, run_layers,
}

-- The terminal event of a leg.
abbrev pub terminal : Leg → Event
terminal (completed out) = flow_done out
terminal (suspended s) = flow_suspended s.node_id s.resume_token s.request
terminal (failed e) = flow_err e

-- What was saved when a leg was suspended: one checkpoint, of this run and its interrupt, in a store
-- that the engine has.
pub record IsSaved {S : Type 0} (sv : Services S) (call : Call) (before after : S)
    (node request token : String) : Type 0 where
  pub checkpoint : Checkpoint
  pub target : CheckpointStore S
  pub has_target : sv.checkpoint_store ≡ some target
  pub resumable : call.checkpoint ≡ true
  pub saved : target.save_checkpoint before checkpoint ≡ ok after
  pub run : checkpoint.run_id ≡ call.run_id
  pub same_token : checkpoint.run_id ≡ token
  pub same_node : checkpoint.interrupt_node_id ≡ node
  pub same_request : checkpoint.interrupt_req ≡ request

-- A leg that is not suspended leaves the store as it was.
abbrev pub StoreAfter : {S : Type 0} → Services S → Call → S → S → Leg → Type 0
StoreAfter sv call before after (completed _) = after ≡ before
StoreAfter sv call before after (failed _) = after ≡ before
StoreAfter sv call before after (suspended s) =
    IsSaved sv call before after s.node_id s.request s.resume_token

pub record IsEnd {S : Type 0} (sv : Services S) (call : Call) (before : S) (end : End S)
    : Type 0 where
  pub emitted : List Event
  pub last : end.events ≡ emitted ++ terminal end.leg ∷ []
  pub store : StoreAfter sv call before end.store end.leg

checkpoint_of_pending :
    (b : Bool) (pending : List PendingInterrupt) {rest : List PendingInterrupt}
    {p : PendingInterrupt}
    → (if b then pending else []) ≡ p ∷ rest
    → b ≡ true
checkpoint_of_pending true pending h = refl
checkpoint_of_pending false pending h = cc

module _ {S : Type 0} (sv : Services S) (call : Call) where
  pub fail-IsEnd :
      (e : RunError) (events : List Event) (store : S) → IsEnd sv call store (fail e events store)
  fail-IsEnd e events store = record { emitted = events; last = refl; store = refl }

  finish-IsEnd : (f : Flow) (s : RunState) (store : S) → IsEnd sv call store (finish f s store)
  unfolding finish
  finish-IsEnd f s store =
      Result-match (IsEnd sv call store) (collect_outputs f.outputs s.wiring [])
        (λ out _. record { emitted = s.events; last = refl; store = refl })
        (λ e _. fail-IsEnd e s.events store)

  module _ (e : Engine) where
    snapshot_checkpoint-ids :
        (s : RunState) (i : ℕ) (p : PendingInterrupt) (cp : Checkpoint)
        → snapshot_checkpoint sv.json sv.registry e call.run_id i p s call.inputs ≡ ok cp
        → (cp.run_id ≡ call.run_id)
          × (cp.interrupt_node_id ≡ p.node_id)
          × (cp.interrupt_req ≡ p.req)
    unfolding snapshot_checkpoint
    snapshot_checkpoint-ids s i p =
        >>=-on-ok (encode_ports sv.json sv.registry s.wiring.ports) _ (λ ports _.
          >>=-on-ok (original_inputs sv.json sv.registry call.inputs) _ (λ originals _.
            >>=-on-ok (encode_cell sv.json sv.registry s.cell) _
              (λ (state, tag) _ cp h. (cc, cc, cc))))

    save_suspension-IsSaved :
        (cs : CheckpointStore S) (i : ℕ) (layer : List String) (s : RunState) (p : PendingInterrupt)
        (before after : S)
        → save_suspension sv e call cs i layer s p before ≡ ok after
        → sv.checkpoint_store ≡ some cs
        → call.checkpoint ≡ true
        → IsSaved sv call before after p.node_id p.req call.run_id
    unfolding save_suspension
    save_suspension-IsSaved cs i layer s p before after h has_target resumable =
        >>=-on-ok {P = λ after. IsSaved sv call before after p.node_id p.req call.run_id}
          (fire_layer e.flow layer p.node_id s) _
          (λ s' _.
            >>=-on-ok {P = λ after. IsSaved sv call before after p.node_id p.req call.run_id}
              (snapshot_checkpoint sv.json sv.registry e call.run_id i p s' call.inputs) _
              (λ cp taken after saved.
                let (run, node, request) = snapshot_checkpoint-ids s' i p cp taken in
                record {
                  checkpoint = cp;
                  target = cs;
                  has_target = has_target;
                  resumable = resumable;
                  saved = saved;
                  run = run;
                  same_token = run;
                  same_node = node;
                  same_request = request;
                }))
          after h

    suspend-IsEnd :
        (i : ℕ) (layer : List String) (s : RunState) (p : PendingInterrupt)
        (others : List PendingInterrupt) (store : S)
        → call.checkpoint ≡ true
        → IsEnd sv call store (suspend sv e call i layer s p others store)
    unfolding suspend
    suspend-IsEnd i layer s p others store resumable =
        Option-match (IsEnd sv call store) sv.checkpoint_store
          (λ _. fail-IsEnd no_checkpoint_store s.events store)
          (λ cs has.
            List-match (IsEnd sv call store) others
              (λ _.
                Result-match (IsEnd sv call store) (save_suspension sv e call cs i layer s p store)
                  (λ after saved. record {
                    emitted = s.events;
                    last = refl;
                    store = save_suspension-IsSaved cs i layer s p store after saved has resumable;
                  })
                  (λ e' _. fail-IsEnd e' s.events store))
              (λ _ _ _. fail-IsEnd multiple_interrupts s.events store))

    -- The end of every leg, from any layer, state and store: its last event is the terminal event of
    -- what it returns. If it completed or failed, the store is as it was. If it was suspended, the run
    -- is resumable and the engine has a store, in which it saved one checkpoint, with the run's id,
    -- which is the resume token, and with the node and request of the interrupt.
    pub run_layers-IsEnd :
        (i : ℕ) (ls : List (List String)) (s : RunState) (store : S)
        → IsEnd sv call store (run_layers sv e call i ls s store)
    unfolding run_layers
    run_layers-IsEnd i [] s store = finish-IsEnd e.flow s store
    run_layers-IsEnd i (layer ∷ rest) s store =
        Option-match (IsEnd sv call store) (sv.ctx.before i)
          (λ _.
            Result-match (IsEnd sv call store)
              (run_layer sv.fanout sv.ctx e call.checkpoint i layer s)
              (λ barrier _.
                List-match (IsEnd sv call store) (if call.checkpoint then barrier.1 else [])
                  (λ _.
                    Result-match (IsEnd sv call store) (fire_layer e.flow layer "" barrier.0)
                      (λ s' _. run_layers-IsEnd (i + 1) rest s' store)
                      (λ failure _. fail-IsEnd failure barrier.0.events store))
                  (λ p others some_pending.
                    suspend-IsEnd i layer barrier.0 p others store
                      (checkpoint_of_pending call.checkpoint barrier.1 some_pending)))
              (λ failure _. fail-IsEnd failure.0 failure.1 store))
          (λ cancelled _. fail-IsEnd cancelled s.events store)
