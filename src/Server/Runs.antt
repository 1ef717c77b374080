-- ===== src/Server/Runs.antt =====
-- cmd/flowd/server/server.go: the handlers that run a flow and resume a run. The engines' runs, the
-- payloads of events and what a store offers besides `Store` are parameters.
pub mod Settles
use Prim.Native.Char.{code}
use Prim.Native.String.{String}
use llm_agent_flow.Base.{
  ℕ, suc, Bool, true, false, not, ◌&&◌, ◌||◌, Option, none, some, List, [], ◌∷◌, Result, ok, err,
  ◌==◌, if◌then◌else◌, nat_eq, map,
}
use llm_agent_flow.Store.{
  RunRecord, RunStatus, running, done, failed, suspended, Tables, Faults, StoreError, not_found,
  RunEventKind, RunEventBatchItem, flow_started, node_started, node_finished, node_skipped,
  flow_done, flow_err, node_interrupted, flow_suspended,
}
use llm_agent_flow.Store.Runs.{start_run, finish_run, suspend_run, get_run}
use llm_agent_flow.Store.Events.{append_run_event, append_run_events}
use llm_agent_flow.Store.Events.InTurn.{append_in_turn}
use llm_agent_flow.Server.Flows.{
  Server, EngineError, load_failed, compile_failed, engine_for, engine_for_v2,
}

-- What `errors.As` and `errors.Is` find in an error of the first engine, and its text.
pub record RunFailure : Type 0 where
  pub is_validate_error : Bool
  pub is_empty_flow : Bool
  pub text : String

-- `flow.FlowEvent`, with the payload that `streamPayload` and `mustJSON` render.
pub record FlowEvent : Type 0 where
  pub kind : RunEventKind
  pub node_id : String
  pub payload : String
  pub outputs : List (String × String)
  pub error : RunFailure

unfoldable pub starts_with : String → String → Bool
starts_with s String.[] = true
starts_with String.[] (String.◌∷◌ d t) = false
starts_with (String.◌∷◌ c s) (String.◌∷◌ d t) =
    let rest = starts_with s t in if nat_eq (code c) (code d) then rest else false

unfoldable pub contains : String → String → Bool
unfolding starts_with
contains String.[] t = starts_with String.[] t
contains (String.◌∷◌ c s) t =
    let rest = contains s t in if starts_with (String.◌∷◌ c s) t then true else rest

unfoldable pub status_for_error : RunFailure → ℕ
unfolding contains
status_for_error e =
    if e.is_validate_error
    then 400
    else if e.is_empty_flow
    then 400
    else if contains e.text "missing required input"
        || (contains e.text "awaits port" || contains e.text "awaits")
    then 400
    else 500

-- The refusals of the database for each call of one request.
pub record RunFaults : Type 0 where
  pub read_flow : Option String
  pub read_run : Option String
  pub start : Option String
  pub append : ℕ → Faults
  pub batch : Faults
  pub commit : Option String
  pub finish : Faults
  pub suspend : Faults

pub data RunError : Type 0 where
  decode_body : String → RunError
  flow_not_found : String → RunError
  run_not_found : String → RunError
  engine_error : EngineError → RunError
  store_error : StoreError → RunError
  no_streaming : RunError
  not_suspended : String → RunStatus → RunError
  run_failed : String → RunError

-- A response: an error, the outputs of a run, or its suspension; a stream has sent its frames.
pub data RunReply : Type 0 where
  replied_error : ℕ → RunError → RunReply
  replied_outputs : String → List (String × String) → RunReply
  replied_suspended : String → String → String → String → RunReply
  streamed : String → RunReply

abbrev pub item_of : FlowEvent → RunEventBatchItem
item_of ev = record { kind = ev.kind; node_id = ev.node_id; payload = ev.payload }

-- `finalOutputs` and `finalErr` after the events.
unfoldable pub final :
    List FlowEvent
    → List (String × String) × Option RunFailure
    → List (String × String) × Option RunFailure
final [] ended = ended
final (ev ∷ events) (outputs, failure) = elim ev.kind [
  | flow_done ↦ final events (ev.outputs, failure)
  | flow_err ↦ final events (outputs, some ev.error)
  | _ ↦ final events (outputs, failure)
]

-- On a stream each event is appended, and an error of the store is only logged.
unfoldable pub append_streamed : (ℕ → Faults) → ℕ → String → ℕ → List FlowEvent → Tables → Tables
append_streamed faults now run_id i [] db = db
append_streamed faults now run_id i (ev ∷ events) db =
    append_streamed faults now run_id (suc i) events
      (append_run_event (faults i) now run_id (item_of ev) db).1

unfoldable pub persist_finish :
    Faults → ℕ → String → List (String × String) → Option RunFailure → Tables → Tables
persist_finish faults now run_id outputs none db = (finish_run faults now run_id outputs "" db).1
persist_finish faults now run_id outputs (some e) db = (finish_run faults now run_id [] e.text db).1

unfoldable pub persist_events :
    RunFaults → ℕ → (stream can_batch : Bool) → String → List FlowEvent → Tables → Tables
unfolding append_streamed
persist_events faults now stream can_batch run_id events db =
    if stream
    then append_streamed faults.append now run_id 0 events db
    else if can_batch
    then (append_run_events faults.batch faults.commit now run_id (map item_of events) db).1
    else (append_in_turn faults.append (λ i. now) run_id 0 (map item_of events) db).1

-- `errors.Is(err, flowstore.ErrNotFound)`
abbrev pub is_not_found : StoreError → Bool
is_not_found not_found = true
is_not_found _ = false

abbrev pub is_unknown_flow : EngineError → Bool
is_unknown_flow (load_failed e) = is_not_found e
is_unknown_flow (compile_failed e) = false

abbrev pub engine_reply : String → EngineError → RunReply
engine_reply flow_id e =
    if is_unknown_flow e
    then replied_error 404 (flow_not_found flow_id)
    else replied_error 500 (engine_error e)

abbrev pub ended_reply :
    (stream : Bool) → String → List (String × String) × Option RunFailure → RunReply
ended_reply true run_id ended = streamed run_id
ended_reply false run_id (outputs, none) = replied_outputs run_id outputs
ended_reply false run_id (outputs, some e) = replied_error (status_for_error e) (run_failed e.text)

module _ (error_payload : String → String) where
  -- What is persisted of a run, from `RunStream` on: `outcome` is what it returns.
  unfoldable pub persist_run :
      RunFaults
      → ℕ
      → (stream can_batch : Bool) → String
      → Result RunFailure (List FlowEvent)
      → Tables
      → Tables
  unfolding final persist_events persist_finish
  persist_run faults now stream can_batch run_id (err e) db =
      let item : RunEventBatchItem = record {
        kind = flow_err;
        node_id = "";
        payload = error_payload e.text;
      } in
      persist_finish faults.finish now run_id [] (some e)
        (append_run_event (faults.append 0) now run_id item db).1
  persist_run faults now stream can_batch run_id (ok events) db =
      let (outputs, failure) = final events ([], none) in
      persist_finish faults.finish now run_id outputs failure
        (persist_events faults now stream can_batch run_id events db)

  unfoldable pub run_reply :
      (stream : Bool) → String → Result RunFailure (List FlowEvent) → RunReply
  unfolding final
  run_reply stream run_id (err e) = ended_reply stream run_id ([], some e)
  run_reply stream run_id (ok events) = ended_reply stream run_id (final events ([], none))

  module _ {E F : Type 0} (load_compile : String → Result String E)
      (start_stream : E → List (String × String) → Result RunFailure (List FlowEvent)) where
    unfoldable pub run_with_store :
        RunFaults
        → ℕ
        → (drawn : Result String String) → (can_stream can_batch stream : Bool) → String
        → Result String (List (String × String))
        → Server E F
        → RunReply × Server E F
    unfolding persist_run run_reply
    run_with_store faults now drawn can_stream can_batch stream flow_id (err e) s =
        (replied_error 400 (decode_body e), s)
    run_with_store faults now drawn can_stream can_batch stream flow_id (ok inputs) s =
        let (found, s') = engine_for load_compile faults.read_flow flow_id s in
        elim found [
          | err e ↦ (engine_reply flow_id e, s')
          | ok engine ↦
              let (began, db) = start_run faults.start now drawn flow_id inputs s'.db in
              elim began [
                | err e ↦ (replied_error 500 (store_error e), record s' { db = db })
                | ok run_id ↦
                    if stream && not can_stream
                    then (replied_error 500 no_streaming, record s' { db = db })
                    else (
                      run_reply stream run_id (start_stream engine inputs),
                      record s' {
                        db =
                            persist_run faults now stream can_batch run_id
                              (start_stream engine inputs) db;
                      },
                    )
              ]
        ]
