-- ===== src/Server/Resumes/Once.antt =====
-- cmd/flowd/server/server.go: a run that was resumed to its end is not resumed again.
use llm_agent_flow.Base.{
  ℕ, String, Bool, false, Option, none, some, List, Result, ok, err, ◌≡◌, refl, ap, ◌∙◌,
  if◌then◌else◌, Bool-match, Result-match, Option-cases, inl, inr, ok-injective, Bool-cases, ◌≢◌,
}
use llm_agent_flow.Store.{
  RunRecord, RunStatus, Tables, running, done, failed, suspended, flow_done, StoreError,
}
use llm_agent_flow.Store.Runs.{run_row, is_open, get_run, finished}
use llm_agent_flow.Store.Runs.Final.{finish_run-own}
use llm_agent_flow.Store.Frames.{append_run_event-runs}
use llm_agent_flow.Store.Steps.{StoreSteps, closed_run_stays}
use llm_agent_flow.V2.Value.{Value}
use llm_agent_flow.V2.Errors.{RunError}
use llm_agent_flow.V2.Tasks.{Event, flow_done as done_event}
use llm_agent_flow.V2.Run.{Inputs}
use llm_agent_flow.V2.Run.Core.{
  Suspension, Leg, completed, suspended as suspended_leg, failed as failed_leg,
}
use llm_agent_flow.Server.Flows.{Server, engine_for_v2, EngineError}
use llm_agent_flow.Server.Runs.{
  RunFaults, RunReply, replied_error, replied_outputs, not_suspended, persist_finish, engine_reply,
  is_not_found, is_unknown_flow,
}
use llm_agent_flow.Server.Resumes.{
  is_suspended, stringify_outputs, append_v2_event, persist_completed, handle_resume_run,
  run_reply_error,
}

-- The run has a row, and it is closed.
pub record IsClosed (db : Tables) (run_id : String) : Type 0 where
  pub row : RunRecord
  pub stored_row : run_row run_id db.runs ≡ some row
  pub closed : is_open row.status ≡ false

closed_row :
    (now : ℕ) (outputs : List (String × String)) (r : RunRecord)
    → is_open ((if is_open r.status then finished now outputs "" r else r).status) ≡ false
closed_row now outputs r = elim (Bool-cases (is_open r.status)) [
  | inl o ↦ rw (o) refl
  | inr c ↦ rw (c) c
]

get_run-row :
    (fault : Option String) (run_id : String) (db : Tables) (r : RunRecord)
    → get_run fault run_id db ≡ ok r
    → run_row run_id db.runs ≡ some r
unfolding get_run
get_run-row (some e) run_id db r h = absurd cc
get_run-row none run_id db r h = elim (Option-cases (run_row run_id db.runs)) [
  | inl absent ↦ absurd (cc (simp (get_run, absent) at h))
  | inr (s, found) ↦
      let same : s ≡ r = ok-injective (simp (get_run, found) at h) in rw (found, same) refl
]

closed-unsuspended : (status : RunStatus) → is_open status ≡ false → is_suspended status ≡ false
closed-unsuspended running h = refl
closed-unsuspended done h = refl
closed-unsuspended failed h = refl
closed-unsuspended suspended h = absurd cc

Leg-match {ℓ κ} :
    {B : Type ℓ} (P : B → Type κ) (leg : Leg) {f : List (String × Value) → B} {g : Suspension → B}
    {h : RunError → B}
    → ((out : List (String × Value)) → P (f out))
    → ((susp : Suspension) → P (g susp))
    → ((e : RunError) → P (h e))
    → P (elim leg [ completed out ↦ f out | suspended_leg susp ↦ g susp | failed_leg e ↦ h e ])
Leg-match P (completed out) a b c = a out
Leg-match P (suspended_leg susp) a b c = b susp
Leg-match P (failed_leg e) a b c = c e

-- The replies to an error are no outputs.
engine_reply-ne :
    (flow_id run_id : String) (e : EngineError) (outputs : List (String × String))
    → engine_reply flow_id e ≢ replied_outputs run_id outputs
engine_reply-ne flow_id run_id e outputs =
    Bool-match (λ r. r ≢ replied_outputs run_id outputs) (is_unknown_flow e) (λ _ h. absurd cc)
      (λ _ h. absurd cc)

run_reply_error-ne :
    (run_id : String) (e : StoreError) (outputs : List (String × String))
    → run_reply_error run_id e ≢ replied_outputs run_id outputs
run_reply_error-ne run_id e outputs =
    Bool-match (λ r. r ≢ replied_outputs run_id outputs) (is_not_found e) (λ _ h. absurd cc)
      (λ _ h. absurd cc)

module _ (value_text : Value → String) (error_text : RunError → String)
    (payload : Event → String) where
  completed-IsClosed :
      (faults : RunFaults) (now i : ℕ) (run_id : String) (out : List (String × Value)) (db : Tables)
      (r : RunRecord)
      → faults.finish ≡ (λ j. none)
      → run_row run_id db.runs ≡ some r
      → IsClosed (persist_completed value_text error_text payload faults now i run_id out db) run_id
  unfolding persist_completed append_v2_event persist_finish
  completed-IsClosed faults now i run_id out db r fine found =
      let told =
        append_v2_event value_text error_text payload faults now i run_id flow_done ""
          (done_event out) db in
      let kept : run_row run_id told.runs ≡ some r =
        ap (run_row run_id) (append_run_event-runs (faults.append i) now run_id _ db) ∙ found in
      let own =
        finish_run-own now run_id (stringify_outputs value_text error_text payload out) "" told r
          kept in
      rw (fine) (record {
        row =
            if is_open r.status
            then finished now (stringify_outputs value_text error_text payload out) "" r
            else r;
        stored_row = own.1;
        closed = closed_row now (stringify_outputs value_text error_text payload out) r;
      })

  module _ {E F C : Type 0} (load_compile_v2 : String → Result String F)
      (run_engine : F → String → Inputs → C → Leg × C)
      (resume_engine : F → String → String → Inputs → C → Leg × C)
      (delete_checkpoint : C → String → C) where
    abbrev resume_request :
        RunFaults
        → ℕ
        → Bool
        → String
        → Result String Inputs
        → Server E F
        → C
        → RunReply × Server E F × C
    resume_request =
        handle_resume_run value_text error_text payload load_compile_v2 run_engine resume_engine
          delete_checkpoint

    -- A reply with outputs means that the row of the run is closed.
    outputs-IsClosed :
        (faults : RunFaults) (now : ℕ) (can_suspend : Bool) (run_id : String)
        (req : Result String Inputs) (s : Server E F) (store : C) (outputs : List (String × String))
        → faults.finish ≡ (λ j. none)
        → (resume_request faults now can_suspend run_id req s store).0
          ≡ replied_outputs run_id outputs
        → IsClosed (resume_request faults now can_suspend run_id req s store).1.db run_id
    unfolding handle_resume_run engine_for_v2
    outputs-IsClosed faults now can_suspend run_id (err e) s store outputs fine = λ h. absurd cc
    outputs-IsClosed faults now can_suspend run_id (ok human) s store outputs fine =
        let Q : RunReply × Server E F × C → Type 0 =
          λ t. t.0 ≡ replied_outputs run_id outputs → IsClosed t.1.db run_id in
        Result-match Q (get_run faults.read_run run_id s.db)
          (λ r given.
            Bool-match Q (is_suspended r.status)
              (λ _.
                Result-match Q (engine_for_v2 load_compile_v2 faults.read_flow r.flow_id s).0
                  (λ engine _.
                    Leg-match Q (resume_engine engine run_id r.resume_token human store).0
                      (λ out _.
                        completed-IsClosed faults now 0 run_id out s.db r fine
                          (get_run-row faults.read_run run_id s.db r given))
                      (λ susp h. absurd cc) (λ e h. absurd cc))
                  (λ e _ h. absurd (engine_reply-ne r.flow_id run_id e outputs h)))
              (λ _ h. absurd cc))
          (λ e _ h. absurd (run_reply_error-ne run_id e outputs h))

    -- A run that is closed is not resumed: the request is refused, and changes nothing.
    closed-refused :
        (faults : RunFaults) (now : ℕ) (can_suspend : Bool) (run_id : String) (human : Inputs)
        (s : Server E F) (store : C) (r : RunRecord)
        → faults.read_run ≡ none
        → run_row run_id s.db.runs ≡ some r
        → is_open r.status ≡ false
        → resume_request faults now can_suspend run_id (ok human) s store
          ≡ (replied_error 409 (not_suspended run_id r.status), s, store)
    unfolding handle_resume_run get_run
    closed-refused faults now can_suspend run_id human s store r reads found closed =
        rw (handle_resume_run, reads, get_run, found, closed-unsuspended r.status closed) refl

    -- When a resumption was answered with outputs and the database did not refuse to finish the run, then
    -- after any calls of the store every later request to resume the run is refused with 409 and changes
    -- neither the server nor the checkpoints, if the database does not refuse the read of the run.
    pub resumed_once :
        (faults : RunFaults) (now : ℕ) (can_suspend : Bool) (run_id : String)
        (req : Result String Inputs) (s : Server E F) (store : C) (outputs : List (String × String))
        (faults' : RunFaults) (now' : ℕ) (can_suspend' : Bool) (human : Inputs) (s' : Server E F)
        (store' : C)
        → faults.finish ≡ (λ j. none)
        → (resume_request faults now can_suspend run_id req s store).0
          ≡ replied_outputs run_id outputs
        → StoreSteps (resume_request faults now can_suspend run_id req s store).1.db s'.db
        → faults'.read_run ≡ none
        → (status : RunStatus) × (resume_request faults' now' can_suspend' run_id
              (ok human)
              s'
              store'
            ≡ (replied_error 409 (not_suspended run_id status), s', store'))
    resumed_once faults now can_suspend run_id req s store outputs faults' now' can_suspend' human
          s' store' fine replied steps reads =
        let over =
          outputs-IsClosed faults now can_suspend run_id req s store outputs fine replied in
        (
          over.row.status,
          closed-refused faults' now' can_suspend' run_id human s' store' over.row reads
              (closed_run_stays _ s'.db run_id over.row over.stored_row over.closed steps)
              over.closed,
        )
