-- ===== src/Store/Runs/Final.antt =====
-- flow/store/sqlite/runs.go: what the transitions do to the row of a run.
use llm_agent_flow.Base.{
  ℕ, String, Bool, true, false, ◌&&◌, Option, none, some, List, [], ◌∷◌, ◌++◌, ◌==◌, if◌then◌else◌,
  ◌≡◌, refl, arith, eq_iff, eq_refl, Option-match, Bool-match, Bool-cases, inl, inr, ◌∙◌, Result,
  Result-match, ok-injective, ok, ap, subst,
}
use llm_agent_flow.Store.{RunRecord, Tables, Faults, StoreError}
use llm_agent_flow.Store.Runs.{
  new_run, run_row, is_open, update_open, affects, start_run, transition, finished, finish_run,
  paused, suspend_run,
}

module _ (change : RunRecord → RunRecord) (same_id : (r : RunRecord) → (change r).id ≡ r.id) where
  sym_eq :
      (run_id : String) (s : RunRecord) (id : String)
      → (s.id == id) ≡ true
      → (s.id == run_id) ≡ (run_id == id)
  sym_eq run_id s id own = ground (arith, eq_iff s.id id, eq_iff s.id run_id, eq_iff run_id id)

  row-head :
      (id : String) (c : Bool) (s : RunRecord) (rest : List RunRecord)
      → run_row id (if c then change s ∷ rest else s ∷ rest)
        ≡ (if s.id == id then some (if c then change s else s) else run_row id rest)
  row-head id true s rest = rw (same_id s) refl
  row-head id false s rest = refl

  -- The row of a run after an update of the open rows of a run.
  row-update :
      (id run_id : String) (rows : List RunRecord) (r : RunRecord)
      → run_row id rows ≡ some r
      → run_row id (update_open run_id change rows)
        ≡ some (if run_id == id && is_open r.status then change r else r)
  unfolding update_open
  row-update id run_id [] r h = absurd cc
  row-update id run_id (s ∷ rows) r h =
      row-head id (s.id == run_id && is_open s.status) s (update_open run_id change rows)
      ∙ (elim (Bool-cases (s.id == id)) [
        | inl own ↦
            let same : s ≡ r = ground (arith, h, own) in rw (own, sym_eq run_id s id own, same) refl
        | inr other ↦ rw (other) (row-update id run_id rows r (simp (other) at h))
      ])

  affects-open :
      (id : String) (rows : List RunRecord) (r : RunRecord)
      → run_row id rows ≡ some r
      → is_open r.status ≡ true
      → affects id rows ≡ true
  unfolding affects
  affects-open id [] r h o = absurd cc
  affects-open id (s ∷ rows) r h o = ground (arith, affects-open id rows r, eq_iff s.id id)

  -- A transition leaves the row of another run and the row of a closed run.
  pub transition-row :
      (faults : Faults) (doing id run_id : String) (db : Tables) (r : RunRecord)
      → run_row id db.runs ≡ some r
      → (run_id == id && is_open r.status) ≡ false
      → run_row id (transition faults doing run_id change db).1.runs ≡ some r
  unfolding transition
  transition-row faults doing id run_id db r h still =
      let P : Option StoreError × Tables → Type 0 = λ t. run_row id t.1.runs ≡ some r in
      Option-match P (faults 0)
        (λ _.
          Bool-match P (affects run_id db.runs)
            (λ _. row-update id run_id db.runs r h ∙ rw (still) refl)
            (λ _.
              Option-match P (faults 1)
                (λ _. Option-match P (run_row run_id db.runs) (λ _. h) (λ _ _. h)) (λ _ _. h)))
        (λ _ _. h)

  -- A transition of a run that is there succeeds, and changes its row if it is open.
  pub transition-own :
      (doing run_id : String) (db : Tables) (r : RunRecord)
      → run_row run_id db.runs ≡ some r
      → ((transition (λ i. none) doing run_id change db).0 ≡ none)
        × (run_row run_id (transition (λ i. none) doing run_id change db).1.runs
            ≡ some (if is_open r.status then change r else r))
  unfolding transition
  transition-own doing run_id db r h =
      let P : Option StoreError × Tables → Type 0 = λ t.
        (t.0 ≡ none)
        × (run_row run_id t.1.runs ≡ some (if is_open r.status then change r else r)) in
      Bool-match P (affects run_id db.runs)
        (λ _. (refl, row-update run_id run_id db.runs r h ∙ rw (eq_refl run_id) refl))
        (λ n. rw (h) (refl, h ∙ rw (closed n) refl))
    where
      closed : affects run_id db.runs ≡ false → is_open r.status ≡ false
      closed n = ground (arith, affects-open run_id db.runs r h, n)

pub finish_run-own :
    (now : ℕ) (run_id : String) (outputs : List (String × String)) (msg : String) (db : Tables)
    (r : RunRecord)
    → run_row run_id db.runs ≡ some r
    → ((finish_run (λ i. none) now run_id outputs msg db).0 ≡ none)
      × (run_row run_id (finish_run (λ i. none) now run_id outputs msg db).1.runs
          ≡ some (if is_open r.status then finished now outputs msg r else r))
unfolding finish_run
finish_run-own now run_id outputs msg db r h =
    transition-own (finished now outputs msg) (λ s. refl) "finish run" run_id db r h

closed_other :
    (id run_id : String) (r : RunRecord)
    → is_open r.status ≡ false
    → (run_id == id && is_open r.status) ≡ false
closed_other id run_id r h = rw (h) (ground arith)

pub finish_run-closed :
    (faults : Faults) (now : ℕ) (run_id : String) (outputs : List (String × String))
    (msg id : String) (db : Tables) (r : RunRecord)
    → run_row id db.runs ≡ some r
    → is_open r.status ≡ false
    → run_row id (finish_run faults now run_id outputs msg db).1.runs ≡ some r
unfolding finish_run
finish_run-closed faults now run_id outputs msg id db r h closed =
    transition-row (finished now outputs msg) (λ s. refl) faults "finish run" id run_id db r h
      (closed_other id run_id r closed)

pub suspend_run-closed :
    (faults : Faults) (run_id token node id : String) (db : Tables) (r : RunRecord)
    → run_row id db.runs ≡ some r
    → is_open r.status ≡ false
    → run_row id (suspend_run faults run_id token node db).1.runs ≡ some r
unfolding suspend_run
suspend_run-closed faults run_id token node id db r h closed =
    transition-row (paused token node) (λ s. refl) faults "suspend run" id run_id db r h
      (closed_other id run_id r closed)

row-append :
    (id : String) (rows more : List RunRecord) (r : RunRecord)
    → run_row id rows ≡ some r
    → run_row id (rows ++ more) ≡ some r
row-append id [] more r h = absurd cc
row-append id (s ∷ rows) more r h = ground (arith, row-append id rows more r)

-- A new run leaves the rows that are there.
pub start_run-row :
    (fault : Option String) (now : ℕ) (drawn : Result String String) (flow_id : String)
    (inputs : List (String × String)) (id : String) (db : Tables) (r : RunRecord)
    → run_row id db.runs ≡ some r
    → run_row id (start_run fault now drawn flow_id inputs db).1.runs ≡ some r
unfolding start_run
start_run-row fault now drawn flow_id inputs id db r h =
    let P : Result StoreError String × Tables → Type 0 = λ t. run_row id t.1.runs ≡ some r in
    Bool-match P (flow_id == "") (λ _. h)
      (λ _.
        Result-match P drawn
          (λ run_id _.
            Option-match P fault
              (λ _.
                Option-match P (run_row run_id db.runs) (λ _. row-append id db.runs _ r h)
                  (λ _ _. h))
              (λ _ _. h))
          (λ _ _. h))

row-new :
    (id : String) (rows : List RunRecord) (r : RunRecord)
    → run_row id rows ≡ none
    → r.id ≡ id
    → run_row id (rows ++ r ∷ []) ≡ some r
row-new id [] r h e = ground (arith, eq_iff r.id id, e)
row-new id (s ∷ rows) r h e = ground (arith, row-new id rows r, e)

-- A run that is started has a row in status running.
pub start_run-new :
    (fault : Option String) (now : ℕ) (drawn : Result String String) (flow_id : String)
    (inputs : List (String × String)) (db db' : Tables) (run_id : String)
    → start_run fault now drawn flow_id inputs db ≡ (ok run_id, db')
    → run_row run_id db'.runs ≡ some (new_run now run_id flow_id inputs)
unfolding start_run
start_run-new fault now drawn flow_id inputs db db' run_id =
    let P : Result StoreError String × Tables → Type 0 = λ t.
      t ≡ (ok run_id, db') → run_row run_id db'.runs ≡ some (new_run now run_id flow_id inputs) in
    Bool-match P (flow_id == "") (λ _ h. absurd cc)
      (λ _.
        Result-match P drawn
          (λ id _.
            Option-match P fault
              (λ _.
                Option-match P (run_row id db.runs)
                  (λ absent h.
                    let same : id ≡ run_id = ok-injective (ap (λ t. t.0) h) in
                    let table = ap (λ t. t.1.runs) h in
                    subst (λ rows. run_row run_id rows ≡ some (new_run now run_id flow_id inputs))
                      table
                      (rw (← same)
                        (row-new id db.runs (new_run now id flow_id inputs) absent refl)))
                  (λ _ _ h. absurd cc))
              (λ _ _ h. absurd cc))
          (λ _ _ h. absurd cc))
