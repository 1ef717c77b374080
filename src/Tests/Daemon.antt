-- ===== src/Tests/Daemon.antt =====
-- A daemon with two flows, and a store with a run and its events.
use llm_agent_flow.Base.{
  ℕ, String, true, none, some, List, [], ◌∷◌, Result, ok, ◌≡◌, ◌≢◌, ◌≤◌, refl, eq_iff, length,
  arith,
}
use llm_agent_flow.Store.{
  Tables, RunRecord, running, done, RunEventBatchItem, node_started, flow_done, Faults,
}
use llm_agent_flow.Store.Flows.{put_flow}
use llm_agent_flow.Store.Flows.Laws.{IsPut, put_flow-IsPut}
use llm_agent_flow.Store.Runs.{run_row, finish_run, suspend_run}
use llm_agent_flow.Store.Events.{append_run_event, append_run_events, events_of, list_run_events}
use llm_agent_flow.Store.Events.InTurn.{append_in_turn, append_run_events-in_turn}
use llm_agent_flow.Store.Events.Numbered.{IsNumbered}
use llm_agent_flow.Store.Steps.{
  StoreSteps, no_step, next_step, append_step, batch_step, suspend_step, finish_step,
  closed_run_stays, steps-IsNumbered,
}
use llm_agent_flow.Server.Lru.{new_engine_cache, evict_lru, get, set, delete, len}
use llm_agent_flow.Server.Lru.Serve.{
  Call, get_call, set_call, delete_call, serve, recall, serve-recall, len-serve, get-set,
}
use llm_agent_flow.Server.Flows.{
  Server, new_server, handle_create_flow, handle_put_flow, engine_for, engine_for_v2,
}
use llm_agent_flow.Server.Requests.{
  Requests, no_request, next_request, create_request, put_request, run_request, engines-IsCurrent,
}
use llm_agent_flow.Server.Current.{IsCurrent}

abbrev pub no_faults : Faults
no_faults i = none

abbrev pub no_tables : Tables
no_tables = record { flows = []; runs = []; run_events = [] }

abbrev calls : List (Call ℕ)
calls =
    set_call "a" 1
    ∷ set_call "b" 2
    ∷ get_call "a"
    ∷ set_call "c" 3
    ∷ get_call "b"
    ∷ get_call "a"
    ∷ delete_call "c"
    ∷ []

-- With room for two, the third key takes the place of the one that was not looked up.
answers : (serve calls (new_engine_cache 2)).0 ≡ some 1 ∷ none ∷ some 1 ∷ []
unfolding serve get set evict_lru
answers = refl

len-serve_example : len (serve calls (new_engine_cache 2)).1 ≤ 2
len-serve_example = len-serve 2 calls (omega arith)

serve-recall_example :
    ((serve calls (new_engine_cache 2)).0 ≡ (recall 2 calls []).0)
    × (len (serve calls (new_engine_cache 2)).1 ≡ length (recall 2 calls []).1)
serve-recall_example = serve-recall 2 calls

get-set_example : (get "a" (set "a" 7 (serve calls (new_engine_cache 2)).1)).0 ≡ some 7
get-set_example = get-set 2 calls "a" 7

abbrev closed_run : RunRecord
closed_run = record {
  id = "r1";
  flow_id = "f";
  status = done;
  started_at = 5;
  finished_at = some 9;
  inputs = ("q", "go") ∷ [];
  outputs = ("a", "yes") ∷ [];
  error = "";
  resume_token = "";
  interrupt_node = "";
}

abbrev open_run : RunRecord
open_run = record closed_run { id = "r2"; status = running; finished_at = none; outputs = [] }

abbrev tables : Tables
tables = record { flows = []; runs = closed_run ∷ open_run ∷ []; run_events = [] }

abbrev started : RunEventBatchItem
started = record { kind = node_started; node_id = "n"; payload = "" }

abbrev ended : RunEventBatchItem
ended = record { kind = flow_done; node_id = ""; payload = "{}" }

put_flow-IsPut_example :
    IsPut no_faults 3 "f" "first" "{}" true no_tables
      (put_flow no_faults 3 "f" "first" "{}" true no_tables)
put_flow-IsPut_example = put_flow-IsPut no_faults 3 "f" "first" "{}" true no_tables

abbrev later : Tables
later = (suspend_run no_faults "r1" "token" "n" (finish_run no_faults 20 "r1" [] "late" tables).1).1

late_steps : StoreSteps tables later
late_steps =
    next_step (finish_run no_faults 20 "r1" [] "late" tables).1 later
      (next_step tables (finish_run no_faults 20 "r1" [] "late" tables).1 no_step
        (finish_step no_faults 20 "r1" [] "late"))
      (suspend_step no_faults "r1" "token" "n")

closed_run_stays_example : run_row "r1" later.runs ≡ some closed_run
closed_run_stays_example = closed_run_stays tables later "r1" closed_run refl refl late_steps

abbrev told : Tables
told =
    (append_run_events no_faults none 7 "r2" (started ∷ ended ∷ [])
      (append_run_event no_faults 6 "r2" started tables).1).1

told_steps : StoreSteps tables told
told_steps =
    next_step (append_run_event no_faults 6 "r2" started tables).1 told
      (next_step tables (append_run_event no_faults 6 "r2" started tables).1 no_step
        (append_step no_faults 6 "r2" started))
      (batch_step no_faults none 7 "r2" (started ∷ ended ∷ []))

abbrev told_run : String
told_run = "r2"

named : told_run ≢ ""
named = ground (arith, eq_iff told_run "")

steps-IsNumbered_example :
    IsNumbered 0 (events_of "r2" told.run_events)
    × (list_run_events none "r2" 0 told ≡ ok (events_of "r2" told.run_events))
steps-IsNumbered_example = steps-IsNumbered tables told "r2" refl told_steps named

append_run_events-in_turn_example :
    append_run_events (λ j. none) none 7 "r2" (started ∷ ended ∷ []) tables
    ≡ append_in_turn (λ j k. none) (λ j. 7) "r2" 0 (started ∷ ended ∷ []) tables
append_run_events-in_turn_example =
    append_run_events-in_turn 7 "r2" (started ∷ ended ∷ []) tables named

-- An engine is the text that it was compiled from, and the head of a flow its id and no name.
abbrev pub loads : String → Result String String
loads json = ok json

abbrev pub head_of : String → Result String (String × String)
head_of json = ok ("f", "")

abbrev pub start : Server String String
start = new_server 2 no_tables

abbrev pub made : Server String String
made =
    (handle_create_flow loads head_of no_faults 1
      (ok (record { id = "f"; name = "n"; flow = "old" })) start).1

abbrev ran : Server String String
ran = (engine_for loads none "f" made).1

abbrev replaced : Server String String
replaced =
    (handle_put_flow loads head_of no_faults 2 "f"
      (ok (record { id = ""; name = ""; flow = "new" })) ran).1

requests : Requests loads loads head_of start replaced
requests =
    next_request ran replaced
      (next_request made ran
        (next_request start made no_request
          (create_request no_faults 1 (ok (record { id = "f"; name = "n"; flow = "old" }))))
        (run_request none "f"))
      (put_request no_faults 2 "f" (ok (record { id = ""; name = ""; flow = "new" })) refl)

engines-IsCurrent_example :
    ((engine : String)
      → (engine_for loads none "f" replaced).0 ≡ ok engine
      → IsCurrent loads replaced.db "f" engine)
    × ((engine : String)
        → (engine_for_v2 loads none "f" replaced).0 ≡ ok engine
        → IsCurrent loads replaced.db "f" engine)
engines-IsCurrent_example =
    engines-IsCurrent loads loads head_of 2 no_tables replaced none "f" requests

finds_new : (engine_for loads none "f" replaced).0 ≡ ok "new"
unfolding engine_for get handle_put_flow put_flow handle_create_flow delete set
finds_new = refl

-- When the row is written but the read of it fails, the engine of the flow that was replaced is kept.
abbrev unread : Server String String
unread =
    (handle_put_flow loads head_of (λ i. elim i [ ℕ.suc ℕ.zero ↦ some "disk I/O error" | _ ↦ none ])
      2 "f" (ok (record { id = ""; name = ""; flow = "new" })) ran).1

finds_old : (engine_for loads none "f" unread).0 ≡ ok "old"
unfolding engine_for get handle_put_flow put_flow handle_create_flow set
finds_old = refl
