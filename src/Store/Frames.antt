-- ===== src/Store/Frames.antt =====
-- flow/store/sqlite: the tables that each call leaves as they are.
use llm_agent_flow.Base.{
  ℕ, String, Bool, Option, none, some, List, [], ◌∷◌, ◌≡◌, Result, refl, ◌==◌, Bool-match,
  Option-match, Result-match,
}
use llm_agent_flow.Store.{RunEventBatchItem, RunRecord, Tables, Faults, StoreError, FlowRecord}
use llm_agent_flow.Store.Flows.{put_flow, delete_flow, flow_row}
use llm_agent_flow.Store.Runs.{
  start_run, finish_run, suspend_run, run_row, transition, affects, finished, paused,
}
use llm_agent_flow.Store.Events.{append_run_event, append_run_events, batch}

-- The tables that a call leaves.
pub put_flow-rest :
    (faults : Faults) (now : ℕ) (id name json : String) (create : Bool) (db : Tables)
    → ((put_flow faults now id name json create db).1.runs ≡ db.runs)
      × ((put_flow faults now id name json create db).1.run_events ≡ db.run_events)
unfolding put_flow
put_flow-rest faults now id name json create db =
    let Q : Result StoreError FlowRecord × Tables → Type 0 =
      λ t. (t.1.runs ≡ db.runs) × (t.1.run_events ≡ db.run_events) in
    Bool-match Q (id == "") (λ _. (refl, refl))
      (λ _.
        Bool-match Q (json == "") (λ _. (refl, refl))
          (λ _.
            Bool-match Q create
              (λ _.
                Option-match Q (faults 0)
                  (λ _.
                    Option-match Q (flow_row id db.flows) (λ _. (refl, refl)) (λ _ _. (refl, refl)))
                  (λ _ _. (refl, refl)))
              (λ _. Option-match Q (faults 0) (λ _. (refl, refl)) (λ _ _. (refl, refl)))))

pub delete_flow-rest :
    (fault : Option String) (id : String) (db : Tables)
    → ((delete_flow fault id db).1.runs ≡ db.runs)
      × ((delete_flow fault id db).1.run_events ≡ db.run_events)
unfolding delete_flow
delete_flow-rest (some e) id db = (refl, refl)
delete_flow-rest none id db =
    Option-match {B = Option StoreError × Tables}
      (λ t. (t.1.runs ≡ db.runs) × (t.1.run_events ≡ db.run_events)) (flow_row id db.flows)
      (λ _. (refl, refl)) (λ _ _. (refl, refl))

pub start_run-events :
    (fault : Option String) (now : ℕ) (drawn : Result String String) (flow_id : String)
    (inputs : List (String × String)) (db : Tables)
    → (start_run fault now drawn flow_id inputs db).1.run_events ≡ db.run_events
unfolding start_run
start_run-events fault now drawn flow_id inputs db =
    let Q : Result StoreError String × Tables → Type 0 = λ t. t.1.run_events ≡ db.run_events in
    Bool-match Q (flow_id == "") (λ _. refl)
      (λ _.
        Result-match Q drawn
          (λ run_id _.
            Option-match Q fault
              (λ _. Option-match Q (run_row run_id db.runs) (λ _. refl) (λ _ _. refl))
              (λ _ _. refl))
          (λ _ _. refl))

transition-events :
    (change : RunRecord → RunRecord) (faults : Faults) (doing run_id : String) (db : Tables)
    → (transition faults doing run_id change db).1.run_events ≡ db.run_events
unfolding transition
transition-events change faults doing run_id db =
    let Q : Option StoreError × Tables → Type 0 = λ t. t.1.run_events ≡ db.run_events in
    Option-match Q (faults 0)
      (λ _.
        Bool-match Q (affects run_id db.runs) (λ _. refl)
          (λ _.
            Option-match Q (faults 1)
              (λ _. Option-match Q (run_row run_id db.runs) (λ _. refl) (λ _ _. refl))
              (λ _ _. refl)))
      (λ _ _. refl)

pub append_run_event-runs :
    (faults : Faults) (now : ℕ) (run_id : String) (item : RunEventBatchItem) (db : Tables)
    → (append_run_event faults now run_id item db).1.runs ≡ db.runs
unfolding append_run_event
append_run_event-runs faults now run_id item db =
    let Q : Option StoreError × Tables → Type 0 = λ t. t.1.runs ≡ db.runs in
    Bool-match Q (run_id == "") (λ _. refl)
      (λ _.
        Option-match Q (faults 0)
          (λ _.
            Option-match Q (run_row run_id db.runs) (λ _. refl)
              (λ r _. Option-match Q (faults 1) (λ _. refl) (λ _ _. refl)))
          (λ _ _. refl))

pub append_run_events-runs :
    (faults : Faults) (commit : Option String) (now : ℕ) (run_id : String)
    (items : List RunEventBatchItem) (db : Tables)
    → (append_run_events faults commit now run_id items db).1.runs ≡ db.runs
unfolding append_run_events
append_run_events-runs faults commit now run_id [] db =
    Bool-match {B = Option StoreError × Tables} (λ t. t.1.runs ≡ db.runs) (run_id == "") (λ _. refl)
      (λ _. refl)
append_run_events-runs faults commit now run_id (item ∷ items) db =
    let Q : Option StoreError × Tables → Type 0 = λ t. t.1.runs ≡ db.runs in
    Bool-match Q (run_id == "") (λ _. refl)
      (λ _.
        Result-match Q (batch faults commit now run_id (item ∷ items) db) (λ _ _. refl)
          (λ _ _. refl))

pub finish_run-events :
    (faults : Faults) (now : ℕ) (run_id : String) (outputs : List (String × String)) (msg : String)
    (db : Tables)
    → (finish_run faults now run_id outputs msg db).1.run_events ≡ db.run_events
unfolding finish_run
finish_run-events faults now run_id outputs msg db =
    transition-events (finished now outputs msg) faults "finish run" run_id db

pub suspend_run-events :
    (faults : Faults) (run_id token node : String) (db : Tables)
    → (suspend_run faults run_id token node db).1.run_events ≡ db.run_events
unfolding suspend_run
suspend_run-events faults run_id token node db =
    transition-events (paused token node) faults "suspend run" run_id db
