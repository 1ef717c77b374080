-- ===== src/Store/Events/Numbered.antt =====
-- flow/store/sqlite/events.go: the events of a run are numbered from 1 without a gap, so that a listing
-- is the order in which they were appended.
use mathlib.Core.List.{append-nil}
use llm_agent_flow.Base.{
  ℕ, suc, String, false, ◌+◌, Option, none, some, List, [], ◌∷◌, ◌++◌, Result, ok, ◌==◌, ◌≡◌, ◌≢◌,
  refl, arith, eq_refl, length, ◌⊎◌, inl, inr, subst, Option-match, Bool-match, Result-match,
  String-cases, sym, ◌∙◌, Bool-cases, Option-cases, Result-cases, ok-injective, eq-false_of_ne,
}
use llm_agent_flow.Store.{RunEvent, RunEventBatchItem, EventRow, Tables, Faults, StoreError}
use llm_agent_flow.Store.Events.InTurn.{rows_after}
use llm_agent_flow.Store.Runs.{run_row}
use llm_agent_flow.Store.Events.{
  max_seq, append_run_event, append_run_events, batch, batch_rows, past, events_of, insert_event,
  sort_events, list_run_events,
}

unfoldable pub IsNumbered : ℕ → List RunEvent → Type 0
IsNumbered k [] = Unit
IsNumbered k (ev ∷ events) = (ev.seq ≡ suc k) × IsNumbered (suc k) events

-- The events of each run are numbered 1, 2, … in the order of the table.
unfoldable pub AllNumbered : List EventRow → Type 0
AllNumbered rows = (run_id : String) → IsNumbered 0 (events_of run_id rows)

IsNumbered-append :
    (k n : ℕ) (events more : List RunEvent)
    → IsNumbered k events
    → n ≡ k + length events
    → IsNumbered n more
    → IsNumbered k (events ++ more)
unfolding IsNumbered
IsNumbered-append k n [] more h e j = subst (λ m. IsNumbered m more) (omega (arith, e)) j
IsNumbered-append k n (ev ∷ events) more h e j =
    (h.0, IsNumbered-append (suc k) n events more h.1 (omega (arith, e)) j)

events_of-append :
    (run_id : String) (rows more : List EventRow)
    → events_of run_id (rows ++ more) ≡ events_of run_id rows ++ events_of run_id more
events_of-append run_id [] more = refl
events_of-append run_id (r ∷ rows) more = ground (arith, events_of-append run_id rows more)

-- The greatest number of a run whose events are numbered after `k`.
greatest :
    (run_id : String) (k : ℕ) (rows : List EventRow)
    → IsNumbered k (events_of run_id rows)
    → (max_seq run_id rows ≡ k + length (events_of run_id rows))
      ⊎ ((events_of run_id rows ≡ []) × (max_seq run_id rows ≡ 0))
unfolding IsNumbered max_seq
greatest run_id k [] h = inr (refl, refl)
greatest run_id k (r ∷ rows) h = elim (Bool-cases (r.run_id == run_id)) [
  | inr other ↦ simp (other) (greatest run_id k rows (simp (other) at h))
  | inl same ↦
      let numbered : (r.event.seq ≡ suc k) × IsNumbered (suc k) (events_of run_id rows) =
        simp (same) at h in
      elim (greatest run_id (suc k) rows numbered.1) [
        | inl most ↦ inl (ground (arith, same, most, numbered.0))
        | inr (none_left, zero_most) ↦ inl (ground (arith, same, none_left, zero_most, numbered.0))
      ]
]

last_number :
    (run_id : String) (rows : List EventRow)
    → IsNumbered 0 (events_of run_id rows)
    → max_seq run_id rows ≡ length (events_of run_id rows)
last_number run_id rows h = elim (greatest run_id 0 rows h) [
  | inl most ↦ omega (arith, most)
  | inr (empty, most) ↦ rw (empty, most) refl
]

after-IsNumbered :
    (now : ℕ) (run_id : String) (seq : ℕ) (items : List RunEventBatchItem)
    → IsNumbered seq (events_of run_id (rows_after now run_id seq items))
unfolding IsNumbered rows_after
after-IsNumbered now run_id seq [] = _
after-IsNumbered now run_id seq (item ∷ items) =
    simp (eq_refl run_id) (refl, after-IsNumbered now run_id (suc seq) items)

after_others :
    (now : ℕ) (run_id other : String) (seq : ℕ) (items : List RunEventBatchItem)
    → (run_id == other) ≡ false
    → events_of other (rows_after now run_id seq items) ≡ []
unfolding rows_after
after_others now run_id other seq [] h = refl
after_others now run_id other seq (item ∷ items) h =
    rw (h) (after_others now run_id other (suc seq) items h)

batch_rows-after :
    (faults : Faults) (now : ℕ) (run_id : String) (base i seq : ℕ) (items : List RunEventBatchItem)
    (rows : List EventRow)
    → base + i ≡ seq
    → batch_rows faults now run_id base i items ≡ ok rows
    → rows ≡ rows_after now run_id seq items
unfolding batch_rows rows_after
batch_rows-after faults now run_id base i seq [] rows e h = sym (ok-injective h)
batch_rows-after faults now run_id base i seq (item ∷ items) rows e h =
    elim (Option-cases (faults (4 + i))) [
      | inr (x, fault) ↦ absurd (cc (simp (batch_rows, fault) at h))
      | inl fine ↦ elim (Result-cases (batch_rows faults now run_id base (suc i) items)) [
        | inr (x, fails) ↦ absurd (cc (simp (batch_rows, fine, fails) at h))
        | inl (more, gives) ↦
            let rest =
              batch_rows-after faults now run_id base (suc i) (suc seq) items more
                (omega (arith, e)) gives in
            sym (ok-injective (simp (batch_rows, fine, gives) at h)) ∙ rw (e, rest) refl
      ]
    ]

-- Rows that follow a run's last number keep all runs numbered.
extended :
    (now : ℕ) (run_id : String) (items : List RunEventBatchItem) (rows : List EventRow)
    → AllNumbered rows
    → AllNumbered (rows ++ rows_after now run_id (max_seq run_id rows) items)
unfolding AllNumbered
extended now run_id items rows h other =
    rw (events_of-append other rows (rows_after now run_id (max_seq run_id rows) items))
      (elim (String-cases run_id other) [
        | inl same ↦ rw (← same) (
            IsNumbered-append 0 (max_seq run_id rows) (events_of run_id rows) _ (h run_id)
              (omega (arith, last_number run_id rows (h run_id)))
              (after-IsNumbered now run_id (max_seq run_id rows) items))
        | inr apart ↦
            rw
              (
                after_others now run_id other (max_seq run_id rows) items apart,
                append-nil (events_of other rows),
              )
              (h other)
      ])

sorted : (k : ℕ) (events : List RunEvent) → IsNumbered k events → sort_events events ≡ events
unfolding IsNumbered sort_events insert_event
sorted k [] h = refl
sorted k (ev ∷ []) h = refl
sorted k (ev ∷ ev' ∷ events) h =
    rw (sort_events, sorted (suc k) (ev' ∷ events) h.1) (ground (arith, h.0, h.1.0))

past-ok :
    (fault : Option String) (doing : String) (next : Result StoreError (List EventRow))
    (rows : List EventRow)
    → past fault doing next ≡ ok rows
    → next ≡ ok rows
past-ok none doing next rows h = h
past-ok (some e) doing next rows h = absurd cc

batch-rows :
    (faults : Faults) (commit : Option String) (now : ℕ) (run_id : String)
    (items : List RunEventBatchItem) (db : Tables) (rows : List EventRow)
    → batch faults commit now run_id items db ≡ ok rows
    → rows ≡ rows_after now run_id (max_seq run_id db.run_events) items
unfolding batch
batch-rows faults commit now run_id items db rows h =
    let target = rows_after now run_id (max_seq run_id db.run_events) items in
    let Q : Result StoreError (List EventRow) → Type 0 = λ r. r ≡ ok rows → rows ≡ target in
    Option-match Q (run_row run_id db.runs) (λ _ c. absurd cc)
      (λ r _ c.
        Result-match Q (batch_rows faults now run_id (max_seq run_id db.run_events) 0 items)
          (λ more given c'.
            sym (ok-injective (past-ok commit "batch commit" (ok more) rows c'))
            ∙ batch_rows-after faults now run_id (max_seq run_id db.run_events) 0
                (max_seq run_id db.run_events) items more (omega arith) given)
          (λ e _ c'. absurd cc)
          (past-ok (faults 3) "batch prepare" _ rows
            (past-ok (faults 2) "batch seq probe" _ rows (past-ok (faults 1) "begin tx" _ rows c))))
      (past-ok (faults 0) "batch append probe" _ rows h)

-- Appending an event keeps the events of every run numbered from 1 without a gap, whatever the database
-- refuses.
pub append_run_event-AllNumbered :
    (faults : Faults) (now : ℕ) (run_id : String) (item : RunEventBatchItem) (db : Tables)
    → AllNumbered db.run_events
    → AllNumbered (append_run_event faults now run_id item db).1.run_events
unfolding append_run_event rows_after
append_run_event-AllNumbered faults now run_id item db h =
    let P : Option StoreError × Tables → Type 0 = λ r. AllNumbered r.1.run_events in
    Bool-match P (run_id == "") (λ _. h)
      (λ _.
        Option-match P (faults 0)
          (λ _.
            Option-match P (run_row run_id db.runs) (λ _. h)
              (λ r _.
                Option-match P (faults 1) (λ _. extended now run_id (item ∷ []) db.run_events h)
                  (λ e _. h)))
          (λ e _. h))

pub append_run_events-AllNumbered :
    (faults : Faults) (commit : Option String) (now : ℕ) (run_id : String)
    (items : List RunEventBatchItem) (db : Tables)
    → AllNumbered db.run_events
    → AllNumbered (append_run_events faults commit now run_id items db).1.run_events
unfolding append_run_events
append_run_events-AllNumbered faults commit now run_id [] db h =
    Bool-match {B = Option StoreError × Tables} (λ r. AllNumbered r.1.run_events) (run_id == "")
      (λ _. h) (λ _. h)
append_run_events-AllNumbered faults commit now run_id (item ∷ items) db h =
    let P : Option StoreError × Tables → Type 0 = λ r. AllNumbered r.1.run_events in
    Bool-match P (run_id == "") (λ _. h)
      (λ _.
        Result-match P (batch faults commit now run_id (item ∷ items) db)
          (λ rows given.
            subst (λ more. AllNumbered (db.run_events ++ more))
              (sym (batch-rows faults commit now run_id (item ∷ items) db rows given))
              (extended now run_id (item ∷ items) db.run_events h))
          (λ e _. h))

-- A listing without a limit gives the events of the run in the order in which they were appended.
pub list_run_events-in_order :
    (run_id : String) (db : Tables)
    → AllNumbered db.run_events
    → run_id ≢ ""
    → list_run_events none run_id 0 db ≡ ok (events_of run_id db.run_events)
unfolding list_run_events AllNumbered
list_run_events-in_order run_id db h named =
    rw (eq-false_of_ne run_id "" named, sorted 0 (events_of run_id db.run_events) (h run_id)) refl
