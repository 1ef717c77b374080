-- ===== src/Store/Steps.antt =====
-- flow/store/sqlite: the calls that change the tables, as steps in any order, each with any refusals.
use llm_agent_flow.Base.{
  ℕ, String, Bool, false, Option, none, some, List, [], ◌≡◌, Result, ok, subst, sym, ap, ◌∙◌, ◌≢◌,
}
use llm_agent_flow.Store.{RunEventBatchItem, RunRecord, Tables, Faults}
use llm_agent_flow.Store.Flows.{put_flow, delete_flow}
use llm_agent_flow.Store.Runs.{start_run, finish_run, suspend_run, run_row, is_open}
use llm_agent_flow.Store.Runs.Final.{start_run-row, finish_run-closed, suspend_run-closed}
use llm_agent_flow.Store.Events.{append_run_event, append_run_events, events_of, list_run_events}
use llm_agent_flow.Store.Events.Numbered.{
  IsNumbered, AllNumbered, list_run_events-in_order, append_run_event-AllNumbered,
  append_run_events-AllNumbered,
}
use llm_agent_flow.Store.Frames.{
  put_flow-rest, delete_flow-rest, start_run-events, append_run_event-runs, append_run_events-runs,
  finish_run-events, suspend_run-events,
}

pub data StoreStep (db : Tables) : Tables → Type 0 where
  put_step :
      (faults : Faults) (now : ℕ) (id name json : String) (create : Bool)
      → StoreStep db (put_flow faults now id name json create db).1
  delete_step : (fault : Option String) (id : String) → StoreStep db (delete_flow fault id db).1
  start_step :
      (fault : Option String) (now : ℕ) (drawn : Result String String) (flow_id : String)
      (inputs : List (String × String))
      → StoreStep db (start_run fault now drawn flow_id inputs db).1
  finish_step :
      (faults : Faults) (now : ℕ) (run_id : String) (outputs : List (String × String))
      (msg : String)
      → StoreStep db (finish_run faults now run_id outputs msg db).1
  suspend_step :
      (faults : Faults) (run_id token node : String)
      → StoreStep db (suspend_run faults run_id token node db).1
  append_step :
      (faults : Faults) (now : ℕ) (run_id : String) (item : RunEventBatchItem)
      → StoreStep db (append_run_event faults now run_id item db).1
  batch_step :
      (faults : Faults) (commit : Option String) (now : ℕ) (run_id : String)
      (items : List RunEventBatchItem)
      → StoreStep db (append_run_events faults commit now run_id items db).1

pub data StoreSteps (db : Tables) : Tables → Type 0 where
  no_step : StoreSteps db db
  next_step : (db' db'' : Tables) → StoreSteps db db' → StoreStep db' db'' → StoreSteps db db''

step-closed :
    (db db' : Tables) (id : String) (r : RunRecord)
    → StoreStep db db'
    → run_row id db.runs ≡ some r
    → is_open r.status ≡ false
    → run_row id db'.runs ≡ some r
step-closed db db' id r (put_step faults now id' name json create) h closed =
    ap (run_row id) (put_flow-rest faults now id' name json create db).0 ∙ h
step-closed db db' id r (delete_step fault id') h closed =
    ap (run_row id) (delete_flow-rest fault id' db).0 ∙ h
step-closed db db' id r (start_step fault now drawn flow_id inputs) h closed =
    start_run-row fault now drawn flow_id inputs id db r h
step-closed db db' id r (finish_step faults now run_id outputs msg) h closed =
    finish_run-closed faults now run_id outputs msg id db r h closed
step-closed db db' id r (suspend_step faults run_id token node) h closed =
    suspend_run-closed faults run_id token node id db r h closed
step-closed db db' id r (append_step faults now run_id item) h closed =
    ap (run_row id) (append_run_event-runs faults now run_id item db) ∙ h
step-closed db db' id r (batch_step faults commit now run_id items) h closed =
    ap (run_row id) (append_run_events-runs faults commit now run_id items db) ∙ h

-- A run that is done or failed keeps its row through all further calls, in any order and with any
-- refusals of the database.
pub closed_run_stays :
    (db db' : Tables) (id : String) (r : RunRecord)
    → run_row id db.runs ≡ some r
    → is_open r.status ≡ false
    → StoreSteps db db'
    → run_row id db'.runs ≡ some r
closed_run_stays db db' id r h closed no_step = h
closed_run_stays db db' id r h closed (next_step db₁ db₂ steps step) =
    step-closed db₁ db₂ id r step (closed_run_stays db db₁ id r h closed steps) closed

step-AllNumbered :
    (db db' : Tables) → StoreStep db db' → AllNumbered db.run_events → AllNumbered db'.run_events
step-AllNumbered db db' (put_step faults now id name json create) h =
    subst AllNumbered (sym (put_flow-rest faults now id name json create db).1) h
step-AllNumbered db db' (delete_step fault id) h =
    subst AllNumbered (sym (delete_flow-rest fault id db).1) h
step-AllNumbered db db' (start_step fault now drawn flow_id inputs) h =
    subst AllNumbered (sym (start_run-events fault now drawn flow_id inputs db)) h
step-AllNumbered db db' (finish_step faults now run_id outputs msg) h =
    subst AllNumbered (sym (finish_run-events faults now run_id outputs msg db)) h
step-AllNumbered db db' (suspend_step faults run_id token node) h =
    subst AllNumbered (sym (suspend_run-events faults run_id token node db)) h
step-AllNumbered db db' (append_step faults now run_id item) h =
    append_run_event-AllNumbered faults now run_id item db h
step-AllNumbered db db' (batch_step faults commit now run_id items) h =
    append_run_events-AllNumbered faults commit now run_id items db h

-- From tables without events, after any calls with any refusals of the database, the events of each run
-- are numbered from 1 without a gap, and a listing gives them in the order of their insertion.
pub steps-IsNumbered :
    (db db' : Tables) (run_id : String)
    → db.run_events ≡ []
    → StoreSteps db db'
    → run_id ≢ ""
    → IsNumbered 0 (events_of run_id db'.run_events)
      × (list_run_events none run_id 0 db' ≡ ok (events_of run_id db'.run_events))
unfolding AllNumbered IsNumbered
steps-IsNumbered db db' run_id empty steps named =
    (all_numbered run_id, list_run_events-in_order run_id db' all_numbered named)
  where
    reached : (d : Tables) → StoreSteps db d → AllNumbered d.run_events
    reached d no_step = subst AllNumbered (sym empty) (λ other. _)
    reached d (next_step d₁ d₂ before step) = step-AllNumbered d₁ d₂ step (reached d₁ before)

    all_numbered : AllNumbered db'.run_events
    all_numbered = reached db' steps
