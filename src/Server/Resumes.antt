-- ===== src/Server/Resumes.antt =====
-- cmd/flowd/server/server.go: the resumable runs of the second engine. `run_engine` and `resume_engine`
-- are its `RunResumable` and `Resume` on a checkpoint store; the texts of payloads, errors and values that
-- are no text are parameters.
pub mod Once
use llm_agent_flow.Base.{
  ℕ, String, Bool, true, false, ◌||◌, Option, none, some, List, [], ◌∷◌, Result, ok, err,
  if◌then◌else◌,
}
use llm_agent_flow.Store.{
  RunStatus, suspended, Tables, StoreError, not_found, RunEventKind, flow_started, flow_done,
  flow_err, node_interrupted, flow_suspended, running, done, failed,
}
use llm_agent_flow.Store.Runs.{start_run, suspend_run, get_run, finish_run}
use llm_agent_flow.Store.Events.{append_run_event}
use llm_agent_flow.V2.Value.{Value, str}
use llm_agent_flow.V2.Errors.{
  RunError, invalid_human_input, checkpoint_not_found, flow_changed, node_failed, condition_failed,
  load_failed, state_failed, port_failed, input_failed,
}
use llm_agent_flow.V2.Tasks.{
  Event, flow_started as started_event, flow_done as done_event, flow_err as err_event,
  node_interrupted as interrupted_event, flow_suspended as suspended_event,
}
use llm_agent_flow.V2.Run.{Inputs}
use llm_agent_flow.V2.Run.Core.{
  Suspension, Leg, completed, suspended as suspended_leg, failed as failed_leg,
}
use llm_agent_flow.Server.Flows.{Server, EngineError, engine_for_v2}
use llm_agent_flow.Server.Runs.{
  RunFailure, RunFaults, RunReply, replied_error, replied_outputs, replied_suspended, decode_body,
  flow_not_found, run_not_found, engine_error, store_error, not_suspended, run_failed, is_not_found,
  engine_reply, persist_finish,
}

abbrev pub is_suspended : RunStatus → Bool
is_suspended suspended = true
is_suspended _ = false

-- `errors.Is`, which looks through the errors that wrap another.
unfoldable pub wraps : (RunError → Bool) → RunError → Bool
wraps is (node_failed id e) = is (node_failed id e) || wraps is e
wraps is (condition_failed i e) = is (condition_failed i e) || wraps is e
wraps is (load_failed e) = is (load_failed e) || wraps is e
wraps is (state_failed e) = is (state_failed e) || wraps is e
wraps is (port_failed node port e) = is (port_failed node port e) || wraps is e
wraps is (input_failed name e) = is (input_failed name e) || wraps is e
wraps is e = is e

abbrev pub is_invalid_input : RunError → Bool
is_invalid_input (invalid_human_input key) = true
is_invalid_input _ = false

abbrev pub is_checkpoint_not_found : RunError → Bool
is_checkpoint_not_found checkpoint_not_found = true
is_checkpoint_not_found _ = false

abbrev pub is_flow_changed : RunError → Bool
is_flow_changed flow_changed = true
is_flow_changed _ = false

unfoldable pub status_for_resume_error : RunError → ℕ
unfolding wraps
status_for_resume_error e =
    if wraps is_invalid_input e
    then 400
    else if wraps is_checkpoint_not_found e
    then 404
    else if wraps is_flow_changed e
    then 409
    else 500

abbrev pub run_reply_error : String → StoreError → RunReply
run_reply_error run_id e =
    if is_not_found e
    then replied_error 404 (run_not_found run_id)
    else replied_error 500 (store_error e)

module _ (value_text : Value → String) (error_text : RunError → String)
    (payload : Event → String) where
  unfoldable pub stringify_outputs : List (String × Value) → List (String × String)
  stringify_outputs [] = []
  stringify_outputs ((k, str v) ∷ out) = (k, v) ∷ stringify_outputs out
  stringify_outputs ((k, v) ∷ out) = (k, value_text v) ∷ stringify_outputs out

  -- `appendV2Event`: an error of the store is only logged. The call is the `i`-th of its request.
  unfoldable pub append_v2_event :
      RunFaults → ℕ → ℕ → String → RunEventKind → String → Event → Tables → Tables
  append_v2_event faults now i run_id kind node_id ev db =
      (append_run_event (faults.append i) now run_id
        (record { kind = kind; node_id = node_id; payload = payload ev }) db).1

  unfoldable pub persist_suspension :
      RunFaults → ℕ → ℕ → (can_suspend : Bool) → String → Suspension → Tables → Tables
  unfolding append_v2_event
  persist_suspension faults now i can_suspend run_id susp db =
      let told =
        append_v2_event faults now (ℕ.suc i) run_id flow_suspended susp.node_id
          (suspended_event susp.node_id susp.resume_token susp.request)
          (append_v2_event faults now i run_id node_interrupted susp.node_id
            (interrupted_event susp.node_id susp.request) db) in
      if can_suspend
      then (suspend_run faults.suspend run_id susp.resume_token susp.node_id told).1
      else told

  abbrev pub suspended_reply : String → Suspension → RunReply
  suspended_reply run_id susp = replied_suspended run_id susp.resume_token susp.node_id susp.request

  unfoldable pub persist_completed :
      RunFaults → ℕ → ℕ → String → List (String × Value) → Tables → Tables
  unfolding append_v2_event
  persist_completed faults now i run_id out db =
      persist_finish faults.finish now run_id (stringify_outputs out) none
        (append_v2_event faults now i run_id flow_done "" (done_event out) db)

  module _ {E F C : Type 0} (load_compile_v2 : String → Result String F)
      (run_engine : F → String → Inputs → C → Leg × C)
      (resume_engine : F → String → String → Inputs → C → Leg × C)
      (delete_checkpoint : C → String → C) where
    unfoldable pub run_resumable_v2 :
        RunFaults
        → ℕ
        → (drawn : Result String String) → (can_suspend : Bool) → String
        → List (String × String)
        → Inputs
        → Server E F
        → C
        → RunReply × Server E F × C
    unfolding persist_suspension persist_completed
    run_resumable_v2 faults now drawn can_suspend flow_id inputs values s store =
        let (found, s') = engine_for_v2 load_compile_v2 faults.read_flow flow_id s in
        elim found [
          | err e ↦ (engine_reply flow_id e, s', store)
          | ok engine ↦
              let (began, db) = start_run faults.start now drawn flow_id inputs s'.db in
              elim began [
                | err e ↦ (replied_error 500 (store_error e), record s' { db = db }, store)
                | ok run_id ↦
                    let (leg, store') = run_engine engine run_id values store in
                    let told =
                      append_v2_event faults now 0 run_id flow_started "" (started_event flow_id)
                        db in
                    elim leg [
                      | failed_leg e ↦ (
                        replied_error 500 (run_failed (error_text e)),
                        record s' {
                          db =
                              persist_finish faults.finish now run_id []
                                (some (record {
                                  is_validate_error = false;
                                  is_empty_flow = false;
                                  text = error_text e;
                                }))
                                (append_v2_event faults now 1 run_id flow_err "" (err_event e)
                                  told);
                        },
                        store',
                      )
                      | suspended_leg susp ↦ (
                        suspended_reply run_id susp,
                        record s' {
                          db = persist_suspension faults now 1 can_suspend run_id susp told;
                        },
                        store',
                      )
                      | completed out ↦ (
                        replied_outputs run_id (stringify_outputs out),
                        record s' { db = persist_completed faults now 1 run_id out told },
                        store',
                      )
                    ]
              ]
        ]

    unfoldable pub handle_resume_run :
        RunFaults
        → ℕ
        → (can_suspend : Bool) → String
        → Result String Inputs
        → Server E F
        → C
        → RunReply × Server E F × C
    unfolding persist_suspension persist_completed
    handle_resume_run faults now can_suspend run_id (err e) s store =
        (replied_error 400 (decode_body e), s, store)
    handle_resume_run faults now can_suspend run_id (ok human) s store =
        elim (get_run faults.read_run run_id s.db) [
          | err e ↦ (run_reply_error run_id e, s, store)
          | ok rec ↦
              if is_suspended rec.status
              then (let (found, s') =
                    engine_for_v2 load_compile_v2 faults.read_flow rec.flow_id s in
                  elim found [
                    | err e ↦ (engine_reply rec.flow_id e, s', store)
                    | ok engine ↦
                        let (leg, store') =
                          resume_engine engine run_id rec.resume_token human store in
                        elim leg [
                          | failed_leg e ↦ (
                            replied_error (status_for_resume_error e) (run_failed (error_text e)),
                            s',
                            store',
                          )
                          | suspended_leg susp ↦ (
                            suspended_reply run_id susp,
                            record s' {
                              db = persist_suspension faults now 0 can_suspend run_id susp s'.db;
                            },
                            store',
                          )
                          | completed out ↦ (
                            replied_outputs run_id (stringify_outputs out),
                            record s' { db = persist_completed faults now 0 run_id out s'.db },
                            delete_checkpoint store' run_id,
                          )
                        ]
                  ])
              else (replied_error 409 (not_suspended run_id rec.status), s, store)
        ]
