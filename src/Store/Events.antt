-- ===== src/Store/Events.antt =====
-- flow/store/sqlite/events.go: the history of a run. A column of a node or a payload that is null is read
-- as the empty text.
pub mod Numbered
pub mod InTurn
use llm_agent_flow.Base.{
  ℕ, suc, zero, String, Bool, true, false, ◌+◌, Option, none, some, List, [], ◌∷◌, ◌++◌, Result, ok,
  err, ◌==◌, if◌then◌else◌, ◌≡◌, ◌≢◌, refl, arith, eq_iff, eq_refl, ltb,
}
use llm_agent_flow.Store.{
  RunRecord, RunEvent, RunEventKind, RunEventBatchItem, EventRow, Tables, Faults, StoreError,
  not_found, empty_run_id, failure,
}
use llm_agent_flow.Store.Runs.{run_row}

-- COALESCE(MAX(seq), 0) of the rows WHERE run_id = ?
unfoldable pub max_seq : String → List EventRow → ℕ
max_seq run_id [] = 0
max_seq run_id (r ∷ rows) =
    let rest = max_seq run_id rows in
    if r.run_id == run_id then if ltb rest r.event.seq then r.event.seq else rest else rest

abbrev pub event_row : String → ℕ → ℕ → RunEventBatchItem → EventRow
event_row run_id seq now item = record {
  run_id = run_id;
  event = record {
    seq = seq;
    kind = item.kind;
    node_id = item.node_id;
    payload = item.payload;
    timestamp = now;
  };
}

unfoldable pub append_run_event :
    Faults → (now : ℕ) → String → RunEventBatchItem → Tables → Option StoreError × Tables
unfolding max_seq
append_run_event faults now run_id item db =
    if run_id == "" then (some empty_run_id, db) else elim (faults 0) [
      | some e ↦ (some (failure "append event probe" e), db)
      | none ↦ elim (run_row run_id db.runs) [
        | none ↦ (some not_found, db)
        | some r ↦ elim (faults 1) [
          | some e ↦ (some (failure "append event" e), db)
          | none ↦ (
            none,
            record db {
              run_events =
                  db.run_events
                  ++ event_row run_id (suc (max_seq run_id db.run_events)) now item ∷ [];
            },
          )
        ]
      ]
    ]

-- The rows of a batch: item `i` gets `baseSeq+i+1`; statement `i + 4` of the call inserts it.
unfoldable pub batch_rows :
    Faults
    → (now : ℕ) → String
    → (base i : ℕ) → List RunEventBatchItem
    → Result String (List EventRow)
batch_rows faults now run_id base i [] = ok []
batch_rows faults now run_id base i (item ∷ items) =
    let rest = batch_rows faults now run_id base (suc i) items in
    elim (faults (4 + i)) [
      | some e ↦ err e
      | none ↦ elim rest [
        | err e ↦ err e
        | ok rows ↦ ok (event_row run_id (suc (base + i)) now item ∷ rows)
      ]
    ]

-- What follows a statement, unless the database refuses it.
abbrev pub past {ℓ} :
    {A : Type ℓ} → Option String → String → Result StoreError A → Result StoreError A
past (some e) doing next = err (failure doing e)
past none doing next = next

-- The statements are the probe, the start of the transaction, the read of the last number, the
-- preparation, the inserts, and the commit, whose error is an argument of its own.
unfoldable pub batch :
    Faults
    → (commit : Option String) → (now : ℕ) → String
    → List RunEventBatchItem
    → Tables
    → Result StoreError (List EventRow)
unfolding max_seq batch_rows
batch faults commit now run_id items db =
    past (faults 0) "batch append probe" (elim (run_row run_id db.runs) [
      | none ↦ err not_found
      | some r ↦ past (faults 1) "begin tx" (
          past (faults 2) "batch seq probe" (
            past (faults 3) "batch prepare"
              (elim (batch_rows faults now run_id (max_seq run_id db.run_events) 0 items) [
                | err e ↦ err (failure "batch insert" e)
                | ok rows ↦ past commit "batch commit" (ok rows)
              ])))
    ])

-- A transaction that fails is rolled back.
unfoldable pub append_run_events :
    Faults
    → (commit : Option String) → (now : ℕ) → String
    → List RunEventBatchItem
    → Tables
    → Option StoreError × Tables
unfolding batch
append_run_events faults commit now run_id [] db =
    if run_id == "" then (some empty_run_id, db) else (none, db)
append_run_events faults commit now run_id (item ∷ items) db =
    if run_id == ""
    then (some empty_run_id, db)
    else elim (batch faults commit now run_id (item ∷ items) db) [
      | err e ↦ (some e, db)
      | ok rows ↦ (none, record db { run_events = db.run_events ++ rows })
    ]

abbrev pub events_of : String → List EventRow → List RunEvent
events_of run_id [] = []
events_of run_id (r ∷ rows) =
    let rest = events_of run_id rows in if r.run_id == run_id then r.event ∷ rest else rest

-- ORDER BY seq ASC
unfoldable pub insert_event : RunEvent → List RunEvent → List RunEvent
insert_event ev [] = ev ∷ []
insert_event ev (other ∷ events) =
    let rest = insert_event ev events in
    if ltb other.seq ev.seq then other ∷ rest else ev ∷ other ∷ events

unfoldable pub sort_events : List RunEvent → List RunEvent
unfolding insert_event
sort_events [] = []
sort_events (ev ∷ events) = insert_event ev (sort_events events)

abbrev pub first : ℕ → List RunEvent → List RunEvent
first zero events = []
first (suc n) [] = []
first (suc n) (ev ∷ events) = ev ∷ first n events

-- `limit > 0` adds LIMIT ?; a limit that is not positive is 0.
unfoldable pub list_run_events :
    Option String → String → ℕ → Tables → Result StoreError (List RunEvent)
unfolding sort_events
list_run_events fault run_id limit db = if run_id == "" then err empty_run_id else elim fault [
  | some e ↦ err (failure "list events" e)
  | none ↦
      let all = sort_events (events_of run_id db.run_events) in
      ok (if ltb 0 limit then first limit all else all)
]
