-- ===== src/Tests/Runs.antt =====
-- Runs of the test flow: a suspension and its resumption, with an in-memory store.
use llm_agent_flow.Base.{
  String, ◌≡◌, ◌≢◌, refl, sym, subst, inr, ap, true, false, ◌||◌, Option, none, some, List, [], ◌∷◌,
  ◌++◌, map, All, arith, ok, err, eq_iff, ok-injective, ◌==◌, if◌then◌else◌,
}
use mathlib.Core.List.{append-nil}
use llm_agent_flow.V2.Value.{Value, nil, str}
use llm_agent_flow.V2.Errors.{RunError, foreign, invalid_human_input, checkpoint_not_found, Run}
use llm_agent_flow.V2.State.{StateCell}
use llm_agent_flow.V2.Codec.{Json, Registry, register_codec, no_codecs}
use llm_agent_flow.V2.Codec.RoundTrip.{IsPaired, IsPaired-nil, register_codec-IsPaired, ReadsBack}
use llm_agent_flow.V2.Fire.{
  edge_pending, edge_fired, edge_deferred, Wiring, Cursor, deliver, fire_layer_edges,
}
use llm_agent_flow.V2.Fire.Layer.{Fires, fire_layer_edges-Fires}
use llm_agent_flow.V2.Checkpoint.{Checkpoint, Memory, memory_store, memory_load, memory_save}
use llm_agent_flow.V2.Tasks.{Event, flow_started, Shared, Task, Fanout, PendingInterrupt}
use llm_agent_flow.V2.Run.{Inputs, RunState}
use llm_agent_flow.V2.Run.Snapshot.{snapshot_checkpoint}
use llm_agent_flow.V2.Run.Core.{Suspension, Leg, completed, suspended, failed, Services, run_layers}
use llm_agent_flow.V2.Run.Start.{run_fresh, run, run_stream, run_resumable}
use llm_agent_flow.V2.Run.Emits.{Extends, Extends-trans, EmitsTask, Emits}
use llm_agent_flow.V2.Run.Ends.{StoreAfter, IsEnd, run_layers-IsEnd}
use llm_agent_flow.V2.Run.Contract.{run_fresh-never_suspended, ran_event, run_stream_contract}
use llm_agent_flow.V2.Resume.{resume, resume_with_cell, restore}
use llm_agent_flow.V2.Resume.Ends.{resume_with_cell-StoreAfter}
use llm_agent_flow.V2.Resume.RoundTrip.{IsRestored, snapshot_checkpoint-IsRestored}
use llm_agent_flow.V2.Resume.Guards.{IsGuarded, restore-IsGuarded}
use llm_agent_flow.V2.Validate.{edge_key}
use llm_agent_flow.Tests.Flows.{link, review_engine}

-- One task after another.
abbrev one_by_one : List Task → Shared → List (Option RunError) × Shared
one_by_one [] s = ([], s)
one_by_one (task ∷ tasks) s =
    let first = task s in let rest = one_by_one tasks first.1 in (first.0 ∷ rest.0, rest.1)

abbrev in_turn : Fanout
in_turn cap tasks s =
    let r = one_by_one tasks s in record { run_err = none; errors = r.0; shared = r.1 }

one_by_one-emits :
    (tasks : List Task) (s : Shared)
    → All EmitsTask tasks
    → Extends s.events (one_by_one tasks s).1.events
one_by_one-emits [] s h = ([], sym (append-nil s.events))
one_by_one-emits (task ∷ tasks) s h =
    Extends-trans s.events ((task s).1).events _ (h.0 s) (one_by_one-emits tasks (task s).1 h.1)

in_turn-Emits : Emits in_turn
in_turn-Emits cap tasks s h = one_by_one-emits tasks s h

-- Texts only, with the tag left out.
abbrev marshal_text : Value → Run String
marshal_text (str s) = ok s
marshal_text _ = err (foreign "not a text")

abbrev type_name : Value → String
type_name (str s) = "string"
type_name _ = "other"

abbrev text_json : Json
text_json = record {
  type_of = type_name;
  marshal = marshal_text;
  unmarshal = λ type raw. ok (str raw);
  marshal_tagged = λ name inner. if name == "text" then ok inner else err (foreign name);
  unmarshal_tagged = λ raw. ok ("text", raw);
  fingerprint = λ type. "0";
}

text_json-ReadsBack : (text : String) → ReadsBack text_json (str text)
text_json-ReadsBack text name inner raw h k =
    (ground (arith, eq_iff name "text"), ap (λ s. ok (str s)) (sym (ok-injective h)))

codecs : Registry
unfolding register_codec
codecs = register_codec no_codecs "text" "string"

codecs-IsPaired : IsPaired codecs
unfolding codecs register_codec
codecs-IsPaired = register_codec-IsPaired no_codecs "text" "string" IsPaired-nil

abbrev services : Services Memory
services = record {
  fanout = in_turn;
  ctx = record { before = λ i. none; after = λ i. none };
  json = text_json;
  registry = codecs;
  checkpoint_store = some memory_store;
}

abbrev question : Inputs
question = ("question", str "ship it?") ∷ []

asked : Leg × Memory
unfolding run_resumable edge_key
asked = run_resumable services review_engine "run-1" question []

asks :
    asked.0 ≡ suspended (record { resume_token = "run-1"; node_id = "ask"; request = "approve?" })
unfolding asked codecs review_engine register_codec run_resumable edge_key
asks = refl

approves :
    (resume services review_engine "run-1" "run-1" (("out", str "yes") ∷ []) asked.1).0
    ≡ completed (("yes", str "yes") ∷ [])
unfolding asked codecs review_engine register_codec run_resumable resume edge_key memory_load
    memory_save
approves = refl

rejects_unknown_port :
    (resume services review_engine "run-1" "run-1" (("other", str "yes") ∷ []) asked.1).0
    ≡ failed (invalid_human_input "other")
unfolding asked codecs review_engine register_codec run_resumable resume edge_key memory_load
    memory_save
rejects_unknown_port = refl

misses : (resume services review_engine "run-1" "run-2" [] asked.1).0 ≡ failed checkpoint_not_found
unfolding asked codecs review_engine register_codec run_resumable resume edge_key memory_load
    memory_save
misses = refl

-- The state of the test run at its suspension.
abbrev paused : RunState
paused = record {
  wiring = record {
    activated = λ id. id == "start" || id == "ask";
    ports =
        record { node = "start"; port = "in"; value = str "ship it?" }
        ∷ record { node = "start"; port = "out"; value = str "ship it?" }
        ∷ record { node = "ask"; port = "in"; value = str "ship it?" }
        ∷ [];
  };
  cursor =
      (record { edge = link "start" "ask" ""; guard = none }, edge_fired)
      ∷ (record { edge = link "ask" "left" "value == yes"; guard = none }, edge_deferred)
      ∷ (record { edge = link "ask" "right" "value == no"; guard = none }, edge_deferred)
      ∷ [];
  cell = some (record { committed = str "draft"; staged = []; reducer = none });
  events = [];
}

abbrev ask_pending : PendingInterrupt
ask_pending = record { node_id = "ask"; req = "approve?" }

abbrev blank : Checkpoint
blank = record {
  version = 0;
  run_id = "";
  flow_id = "";
  flow_hash = "";
  struct_hash = "";
  port_values = [];
  activated = λ id. false;
  edge_states = [];
  suspend_layer = 0;
  interrupt_node_id = "";
  interrupt_req = "";
  original_inputs = [];
  state = none;
  state_codec = "";
}

abbrev checkpoint_of : Run Checkpoint → Checkpoint
checkpoint_of (ok cp) = cp
checkpoint_of (err e) = blank

saved : Checkpoint
unfolding snapshot_checkpoint
saved = checkpoint_of (
    snapshot_checkpoint text_json codecs review_engine "run-1" 1 ask_pending paused (some question))

saved_taken :
    snapshot_checkpoint text_json codecs review_engine "run-1" 1 ask_pending paused (some question)
    ≡ ok saved
unfolding saved snapshot_checkpoint codecs register_codec
saved_taken = refl

abbrev restored_of : Run RunState → RunState
restored_of (ok s) = s
restored_of (err e) = paused

answer : Inputs
answer = ("out", str "yes") ∷ []

went_on : RunState
went_on = restored_of (restore text_json codecs review_engine saved answer none)

restores : restore text_json codecs review_engine saved answer none ≡ ok went_on
unfolding went_on saved answer restore snapshot_checkpoint codecs register_codec review_engine
    edge_key deliver
restores = refl

abbrev open_edges : Cursor
open_edges =
    (record { edge = link "start" "ask" ""; guard = none }, edge_pending)
    ∷ (record { edge = link "ask" "left" ""; guard = none }, edge_pending)
    ∷ []

abbrev fired_of : Run (Cursor × Wiring) → Cursor × Wiring
fired_of (ok r) = r
fired_of (err e) = ([], paused.wiring)

start_fired : Cursor × Wiring
start_fired = fired_of (fire_layer_edges ("start" ∷ []) "" open_edges paused.wiring)

start_fires : fire_layer_edges ("start" ∷ []) "" open_edges paused.wiring ≡ ok start_fired
unfolding start_fired fire_layer_edges
start_fires = refl

start_fires_once : map (λ x. x.1) start_fired.0 ≡ edge_fired ∷ edge_pending ∷ []
unfolding start_fired fire_layer_edges
start_fires_once = refl

fire_layer_edges-Fires_example : Fires ("start" ∷ []) open_edges paused.wiring start_fired
fire_layer_edges-Fires_example =
    fire_layer_edges-Fires ("start" ∷ []) "" open_edges paused.wiring start_fired start_fires

run_layers-IsEnd_example :
    IsEnd services
      (record { run_id = "run-1"; checkpoint = true; inputs = some question })
      []
      (run_layers services review_engine
        (record { run_id = "run-1"; checkpoint = true; inputs = some question })
        1
        (("ask" ∷ []) ∷ ("left" ∷ "right" ∷ []) ∷ [])
        paused
        [])
run_layers-IsEnd_example =
    run_layers-IsEnd services
      (record { run_id = "run-1"; checkpoint = true; inputs = some question }) review_engine 1
      (("ask" ∷ []) ∷ ("left" ∷ "right" ∷ []) ∷ []) paused []

run_fresh-never_suspended_example :
    ((s : Suspension)
      → (run_fresh services review_engine "" false question none []).leg ≢ suspended s)
    × ((run_fresh services review_engine "" false question none []).store ≡ [])
run_fresh-never_suspended_example =
    run_fresh-never_suspended services review_engine "" question none []

run_stream_contract_example :
    (first : List Event) × (rest : List Event) × (run_stream services review_engine
        (λ i. false)
        question
        []
      ≡ flow_started "review" ∷ rest)
    × (run_stream services review_engine (λ i. false) question []
        ≡ first ++ ran_event (run services review_engine question []) ∷ [])
unfolding review_engine edge_key
run_stream_contract_example =
    run_stream_contract services review_engine (λ i. false) question [] in_turn-Emits (λ i. refl)

abbrev cell_value : Option StateCell → Value
cell_value none = nil
cell_value (some c) = c.committed

-- Another cell, with a State of its own and a staged write.
abbrev fresh_cell : StateCell
fresh_cell = record { committed = str "fresh"; staged = ("ask", str "kept") ∷ []; reducer = none }

snapshot_checkpoint-IsRestored_example :
    IsRestored text_json codecs review_engine paused fresh_cell saved
snapshot_checkpoint-IsRestored_example =
    snapshot_checkpoint-IsRestored text_json codecs codecs-IsPaired review_engine "run-1" 1
      ask_pending paused (some question) fresh_cell saved
      (
        text_json-ReadsBack "ship it?",
        (text_json-ReadsBack "ship it?", (text_json-ReadsBack "ship it?", tt)),
      )
      (λ c same stateful. (
        subst (λ v. ReadsBack text_json v) (ap cell_value same) (text_json-ReadsBack "draft"),
        inr (ap type_name (ap cell_value same)),
      ))
      saved_taken

restore-IsGuarded_example : IsGuarded review_engine saved answer went_on
restore-IsGuarded_example =
    restore-IsGuarded text_json codecs review_engine saved answer none went_on restores

register_codec-IsPaired_example : IsPaired (register_codec no_codecs "text" "string")
register_codec-IsPaired_example = register_codec-IsPaired no_codecs "text" "string" IsPaired-nil

resume_with_cell-StoreAfter_example :
    StoreAfter services
      (record { run_id = "run-2"; checkpoint = true; inputs = none })
      asked.1
      (resume_with_cell services review_engine "run-2" "run-1" answer none asked.1).1
      (resume_with_cell services review_engine "run-2" "run-1" answer none asked.1).0
resume_with_cell-StoreAfter_example =
    resume_with_cell-StoreAfter services review_engine "run-2" "run-1" answer none asked.1
