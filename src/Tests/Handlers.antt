-- ===== src/Tests/Handlers.antt =====
-- The daemon runs a flow, and resumes a suspended run.
use llm_agent_flow.Base.{String, true, false, none, List, [], ◌∷◌, Result, ok, ◌≡◌, refl}
use llm_agent_flow.Store.{Tables, RunRecord, RunStatus, suspended, flow_done}
use llm_agent_flow.Store.Runs.{new_run, start_run, get_run}
use llm_agent_flow.Store.Flows.{put_flow}
use llm_agent_flow.Server.Lru.{get}
use llm_agent_flow.Store.Steps.{no_step}
use llm_agent_flow.V2.Value.{str}
use llm_agent_flow.V2.Run.{Inputs}
use llm_agent_flow.V2.Run.Core.{Leg, completed}
use llm_agent_flow.Server.Flows.{Server, engine_for_v2, handle_create_flow}
use llm_agent_flow.Server.Runs.{
  RunFailure, FlowEvent, RunFaults, RunReply, replied_error, not_suspended,
}
use llm_agent_flow.Server.Resumes.{handle_resume_run, stringify_outputs}
use llm_agent_flow.Server.Resumes.Once.{resumed_once}
use llm_agent_flow.Tests.Daemon.{no_faults, loads, made}

abbrev calm : RunFaults
calm = record {
  read_flow = none;
  read_run = none;
  start = none;
  append = λ i. no_faults;
  batch = no_faults;
  commit = none;
  finish = no_faults;
  suspend = no_faults;
}

abbrev no_failure : RunFailure
no_failure = record { is_validate_error = false; is_empty_flow = false; text = "" }

-- The engine tells that its flow is done, with its inputs as outputs.
abbrev echo : String → List (String × String) → Result RunFailure (List FlowEvent)
echo engine inputs = ok (
    record { kind = flow_done; node_id = ""; payload = "{}"; outputs = inputs; error = no_failure }
    ∷ [])

abbrev begun : Tables
begun = (start_run none 4 (ok "r9") "f" (("q", "go") ∷ []) made.db).1

abbrev waiting : RunRecord
waiting = record (new_run 4 "r3" "f" []) {
  status = suspended;
  resume_token = "t3";
  interrupt_node = "ask";
}

abbrev paused_server : Server String String
paused_server = record made { db = record made.db { runs = waiting ∷ [] } }

abbrev answers_yes : String → String → String → Inputs → List String → Leg × List String
answers_yes engine run_id token human store = (completed (("a", str "yes") ∷ []), store)

abbrev never_runs : String → String → Inputs → List String → Leg × List String
never_runs engine run_id inputs store = (completed [], store)

abbrev resume_r3 :
    Server String String → List String → RunReply × Server String String × List String
resume_r3 s store =
    handle_resume_run (λ v. "") (λ e. "") (λ ev. "{}") loads never_runs answers_yes (λ c token. [])
      calm 8 true "r3" (ok (("a", str "yes") ∷ [])) s store

resumed_once_example :
    (status : RunStatus) × (resume_r3 (resume_r3 paused_server ("t3" ∷ [])).1 [] ≡ (
      replied_error 409 (not_suspended "r3" status),
      (resume_r3 paused_server ("t3" ∷ [])).1,
      [],
    ))
unfolding handle_resume_run get_run engine_for_v2 get handle_create_flow put_flow stringify_outputs
resumed_once_example =
    resumed_once (λ v. "") (λ e. "") (λ ev. "{}") loads never_runs answers_yes (λ c token. []) calm
      8 true "r3" (ok (("a", str "yes") ∷ [])) paused_server ("t3" ∷ []) (("a", "yes") ∷ []) calm 8
      true (("a", str "yes") ∷ []) (resume_r3 paused_server ("t3" ∷ [])).1 [] refl refl no_step refl
