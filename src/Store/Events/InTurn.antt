-- ===== src/Store/Events/InTurn.antt =====
-- flow/store/sqlite/events.go: a batch of events against the same events one by one, which is what
-- cmd/flowd/server/server.go does with a store that takes no batches.
use mathlib.Core.List.{append-nil, append_assoc}
use llm_agent_flow.Base.{
  ap, ℕ, suc, String, false, ◌+◌, Option, none, some, List, [], ◌∷◌, ◌++◌, ok, ◌==◌, ◌≡◌, ◌∙◌, ◌≢◌,
  refl, arith, eq_refl, ◌≤◌, Option-cases, inl, inr, sym, eq-false_of_ne,
}
use llm_agent_flow.Store.{
  RunEventBatchItem, EventRow, RunRecord, Tables, Faults, StoreError, not_found,
}
use llm_agent_flow.Store.Runs.{run_row}
use llm_agent_flow.Store.Events.{
  max_seq, event_row, append_run_event, append_run_events, batch, batch_rows,
}

-- `for _, item := range syncBatch`, which stops at the first error; call `i` is made at `now i`.
unfoldable pub append_in_turn :
    (ℕ → Faults)
    → (now : ℕ → ℕ) → String
    → (i : ℕ) → List RunEventBatchItem
    → Tables
    → Option StoreError × Tables
append_in_turn faults now run_id i [] db = (none, db)
append_in_turn faults now run_id i (item ∷ items) db =
    let (error, db') = append_run_event (faults i) (now i) run_id item db in
    let rest = append_in_turn faults now run_id (suc i) items db' in
    elim error [ some e ↦ (some e, db') | none ↦ rest ]

-- The rows of items that are numbered after `seq`.
unfoldable pub rows_after : ℕ → String → ℕ → List RunEventBatchItem → List EventRow
rows_after now run_id seq [] = []
rows_after now run_id seq (item ∷ items) =
    event_row run_id (suc seq) now item ∷ rows_after now run_id (suc seq) items

max_seq-append :
    (run_id : String) (now seq : ℕ) (item : RunEventBatchItem) (rows : List EventRow)
    → max_seq run_id rows ≤ seq
    → max_seq run_id (rows ++ event_row run_id (suc seq) now item ∷ []) ≡ suc seq
unfolding max_seq
max_seq-append run_id now seq item [] h = ground (arith, eq_refl run_id)
max_seq-append run_id now seq item (r ∷ rows) h =
    ground (arith, max_seq-append run_id now seq item rows)

batch_rows_after :
    (now : ℕ) (run_id : String) (base i seq : ℕ) (items : List RunEventBatchItem)
    → base + i ≡ seq
    → batch_rows (λ j. none) now run_id base i items ≡ ok (rows_after now run_id seq items)
unfolding batch_rows rows_after
batch_rows_after now run_id base i seq [] h = refl
batch_rows_after now run_id base i seq (item ∷ items) h =
    rw (batch_rows_after now run_id base (suc i) (suc seq) items (omega (arith, h)), h) refl

appended :
    (now seq : ℕ) (run_id : String) (item : RunEventBatchItem) (db : Tables) (r : RunRecord)
    → (run_id == "") ≡ false
    → run_row run_id db.runs ≡ some r
    → max_seq run_id db.run_events ≡ seq
    → append_run_event (λ k. none) now run_id item db
      ≡ (none, record db { run_events = db.run_events ++ event_row run_id (suc seq) now item ∷ [] })
unfolding append_run_event
appended now seq run_id item db r named known h = rw (append_run_event, named, known, h) refl

next_in_turn :
    (faults : ℕ → Faults) (now : ℕ → ℕ) (run_id : String) (i : ℕ) (item : RunEventBatchItem)
    (items : List RunEventBatchItem) (db db' : Tables) (error : Option StoreError)
    → append_run_event (faults i) (now i) run_id item db ≡ (error, db')
    → append_in_turn faults now run_id i (item ∷ items) db ≡ (elim error [
      | some e ↦ (some e, db')
      | none ↦ append_in_turn faults now run_id (suc i) items db'
    ])
unfolding append_in_turn
next_in_turn faults now run_id i item items db db' error h =
    ap
      (λ (p : Option StoreError × Tables). elim p.0 [
        | some e ↦ (some e, p.1)
        | none ↦ append_in_turn faults now run_id (suc i) items p.1
      ])
      h

in_turn_after :
    (now : ℕ) (run_id : String) (i seq : ℕ) (items : List RunEventBatchItem) (db : Tables)
    (r : RunRecord)
    → (run_id == "") ≡ false
    → run_row run_id db.runs ≡ some r
    → max_seq run_id db.run_events ≡ seq
    → append_in_turn (λ j k. none) (λ j. now) run_id i items db
      ≡ (none, record db { run_events = db.run_events ++ rows_after now run_id seq items })
unfolding append_in_turn rows_after
in_turn_after now run_id i seq [] db r named known h =
    ap (λ rows. (none, record db { run_events = rows })) (sym (append-nil db.run_events))
in_turn_after now run_id i seq (item ∷ items) db r named known h =
    let db' : Tables = record db {
      run_events = db.run_events ++ event_row run_id (suc seq) now item ∷ [];
    } in
    let more : max_seq run_id db'.run_events ≡ suc seq =
      max_seq-append run_id now seq item db.run_events (omega (arith, h)) in
    next_in_turn (λ j k. none) (λ j. now) run_id i item items db db' none
      (appended now seq run_id item db r named known h)
    ∙ in_turn_after now run_id (suc i) (suc seq) items db' r named known more
    ∙ ap (λ rows. (none, record db { run_events = rows })) (append_assoc db.run_events _ _)

-- When the database refuses nothing, a batch for a run has the effect and the result of its events
-- appended one by one at the same time.
pub append_run_events-in_turn :
    (now : ℕ) (run_id : String) (items : List RunEventBatchItem) (db : Tables)
    → run_id ≢ ""
    → append_run_events (λ j. none) none now run_id items db
      ≡ append_in_turn (λ j k. none) (λ j. now) run_id 0 items db
unfolding append_run_events batch append_in_turn append_run_event
append_run_events-in_turn now run_id [] db named = rw (eq-false_of_ne run_id "" named) refl
append_run_events-in_turn now run_id (item ∷ items) db named =
    elim (Option-cases (run_row run_id db.runs)) [
      | inl unknown ↦
          rw (append_run_events, batch, eq-false_of_ne run_id "" named, unknown)
            (sym (
              next_in_turn (λ j k. none) (λ j. now) run_id 0 item items db db (some not_found)
                (rw (append_run_event, eq-false_of_ne run_id "" named, unknown) refl)))
      | inr (r, known) ↦
          rw
            (
              append_run_events,
              batch,
              eq-false_of_ne run_id "" named,
              known,
              batch_rows_after now run_id (max_seq run_id db.run_events) 0
                  (max_seq run_id db.run_events) (item ∷ items) (omega arith),
            )
            (sym (
              in_turn_after now run_id 0 (max_seq run_id db.run_events) (item ∷ items) db r
                (eq-false_of_ne run_id "" named) known refl))
    ]
