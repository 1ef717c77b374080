-- ===== src/Store/Runs.antt =====
-- flow/store/sqlite/runs.go: the table of runs, and the life of a run. The id that `newRunID` draws is an
-- argument.
pub mod Final
use Prim.Native.String.{◌++◌ as concat}
use llm_agent_flow.Base.{
  ℕ, suc, String, Bool, true, false, ◌&&◌, Option, none, some, List, [], ◌∷◌, ◌++◌, Result, ok, err,
  ◌==◌, if◌then◌else◌, ◌≡◌, ◌≢◌, refl, arith, eq_iff, eq_refl, Option-match, Bool-match, Bool-cases,
  inl, inr,
}
use llm_agent_flow.Store.{
  RunRecord, RunStatus, running, done, failed, suspended, Tables, Faults, StoreError, not_found,
  empty_flow_id, failure,
}

-- SELECT … WHERE id = ?
abbrev pub run_row : String → List RunRecord → Option RunRecord
run_row id [] = none
run_row id (r ∷ rows) = if r.id == id then some r else run_row id rows

-- status IN ('running', 'suspended')
abbrev pub is_open : RunStatus → Bool
is_open running = true
is_open suspended = true
is_open done = false
is_open failed = false

-- UPDATE runs SET … WHERE id = ? AND status IN ('running', 'suspended')
unfoldable pub update_open : String → (RunRecord → RunRecord) → List RunRecord → List RunRecord
update_open id change [] = []
update_open id change (r ∷ rows) =
    let rest = update_open id change rows in
    if r.id == id && is_open r.status then change r ∷ rest else r ∷ rest

-- The number of rows it affects is not 0.
unfoldable pub affects : String → List RunRecord → Bool
affects id [] = false
affects id (r ∷ rows) =
    let rest = affects id rows in if r.id == id && is_open r.status then true else rest

abbrev pub new_run : ℕ → String → String → List (String × String) → RunRecord
new_run now run_id flow_id inputs = record {
  id = run_id;
  flow_id = flow_id;
  status = running;
  started_at = now;
  finished_at = none;
  inputs = inputs;
  outputs = [];
  error = "";
  resume_token = "";
  interrupt_node = "";
}

unfoldable pub start_run :
    Option String
    → (now : ℕ) → (drawn : Result String String) → String
    → List (String × String)
    → Tables
    → Result StoreError String × Tables
start_run fault now drawn flow_id inputs db =
    if flow_id == "" then (err empty_flow_id, db) else elim drawn [
      | err e ↦ (err (failure "id rand" e), db)
      | ok run_id ↦ elim fault [
        | some e ↦ (err (failure "start run" e), db)
        | none ↦ elim (run_row run_id db.runs) [
          | some r ↦ (err (failure "start run" "UNIQUE constraint failed: runs.id"), db)
          | none ↦
              (ok run_id, record db { runs = db.runs ++ new_run now run_id flow_id inputs ∷ [] })
        ]
      ]
    ]

-- An UPDATE of the open run, and the probe that tells a closed run from an unknown one.
unfoldable pub transition :
    Faults → String → String → (RunRecord → RunRecord) → Tables → Option StoreError × Tables
unfolding update_open affects
transition faults doing run_id change db = elim (faults 0) [
  | some e ↦ (some (failure doing e), db)
  | none ↦
      if affects run_id db.runs
      then (none, record db { runs = update_open run_id change db.runs })
      else elim (faults 1) [
        | some e ↦ (some (failure (concat doing " probe") e), db)
        | none ↦ elim (run_row run_id db.runs) [ none ↦ (some not_found, db) | some r ↦ (none, db) ]
      ]
]

abbrev pub finished : ℕ → List (String × String) → String → RunRecord → RunRecord
finished now outputs msg r = record r {
  status = if msg == "" then done else failed;
  finished_at = some now;
  outputs = outputs;
  error = msg;
}

unfoldable pub finish_run :
    Faults
    → (now : ℕ) → String
    → List (String × String)
    → String
    → Tables
    → Option StoreError × Tables
unfolding transition
finish_run faults now run_id outputs msg db =
    transition faults "finish run" run_id (finished now outputs msg) db

abbrev pub paused : String → String → RunRecord → RunRecord
paused token node r = record r { status = suspended; resume_token = token; interrupt_node = node }

unfoldable pub suspend_run : Faults → String → String → String → Tables → Option StoreError × Tables
unfolding transition
suspend_run faults run_id token node db =
    transition faults "suspend run" run_id (paused token node) db

unfoldable pub get_run : Option String → String → Tables → Result StoreError RunRecord
get_run (some e) run_id db = err (failure "get run" e)
get_run none run_id db = elim (run_row run_id db.runs) [ none ↦ err not_found | some r ↦ ok r ]
