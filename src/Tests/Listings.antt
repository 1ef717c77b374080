-- ===== src/Tests/Listings.antt =====
-- The flows and runs of a small database, listed.
use llm_agent_flow.Base.{String, ◌≡◌, refl, none, [], ◌∷◌, map, ok, ℕ}
use llm_agent_flow.Store.{FlowRecord, RunRecord, running, Tables}
use llm_agent_flow.Store.Listings.{flow_meta, run_meta, list_flows, list_runs}

abbrev stored_flow : String → ℕ → FlowRecord
stored_flow id time = record { id = id; name = id; created_at = 1; updated_at = time; json = "{}" }

abbrev stored_run : String → String → ℕ → RunRecord
stored_run id flow_id time = record {
  id = id;
  flow_id = flow_id;
  status = running;
  started_at = time;
  finished_at = none;
  inputs = [];
  outputs = [];
  error = "";
  resume_token = "";
  interrupt_node = "";
}

abbrev database : Tables
database = record {
  flows = stored_flow "b" 5 ∷ stored_flow "a" 5 ∷ stored_flow "c" 7 ∷ [];
  runs = stored_run "r1" "a" 1 ∷ stored_run "r2" "b" 2 ∷ stored_run "r3" "a" 3 ∷ [];
  run_events = [];
}

two_flows :
    list_flows none 2 database ≡ ok (map flow_meta (stored_flow "c" 7 ∷ stored_flow "a" 5 ∷ []))
unfolding list_flows
two_flows = refl

all_runs :
    list_runs none "a" 0 database
    ≡ ok (map run_meta (stored_run "r3" "a" 3 ∷ stored_run "r1" "a" 1 ∷ []))
unfolding list_runs
all_runs = refl
