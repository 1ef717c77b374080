-- ===== src/Store.antt =====
-- flow/store/store.go: the records of flowd's store, and the tables of flow/store/sqlite/open.go that keep
-- them. A time is a number of seconds, a JSON object of texts its pairs, and a null column the empty text
-- where the code reads it so.
pub mod Flows
pub mod Runs
pub mod Events
pub mod Frames
pub mod Steps
pub mod Listings
use llm_agent_flow.Base.{ℕ, String, Bool, true, false, Option, List, []}

pub record FlowRecord : Type 0 where
  pub id : String
  pub name : String
  pub created_at : ℕ
  pub updated_at : ℕ
  pub json : String

pub data RunStatus : Type 0 where
  running : RunStatus
  done : RunStatus
  failed : RunStatus
  suspended : RunStatus

pub record RunRecord : Type 0 where
  pub id : String
  pub flow_id : String
  pub status : RunStatus
  pub started_at : ℕ
  pub finished_at : Option ℕ
  pub inputs : List (String × String)
  pub outputs : List (String × String)
  pub error : String
  pub resume_token : String
  pub interrupt_node : String

pub data RunEventKind : Type 0 where
  flow_started : RunEventKind
  node_started : RunEventKind
  node_finished : RunEventKind
  node_skipped : RunEventKind
  flow_done : RunEventKind
  flow_err : RunEventKind
  node_interrupted : RunEventKind
  flow_suspended : RunEventKind

pub record RunEvent : Type 0 where
  pub seq : ℕ
  pub kind : RunEventKind
  pub node_id : String
  pub payload : String
  pub timestamp : ℕ

pub record RunEventBatchItem : Type 0 where
  pub kind : RunEventKind
  pub node_id : String
  pub payload : String

-- `failure` is an error of the database, with what was being done.
pub data StoreError : Type 0 where
  not_found : StoreError
  already_exists : StoreError
  empty_id : StoreError
  empty_json : StoreError
  empty_flow_id : StoreError
  empty_run_id : StoreError
  failure : String → String → StoreError

pub record EventRow : Type 0 where
  pub run_id : String
  pub event : RunEvent

-- The tables, each row after those that were inserted before it.
pub record Tables : Type 0 where
  pub flows : List FlowRecord
  pub runs : List RunRecord
  pub run_events : List EventRow

-- The error of each statement that a call makes, counted from 0, when the database refuses it.
abbrev pub Faults : Type 0
Faults = ℕ → Option String
