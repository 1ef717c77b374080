-- ===== src/Store/Flows/Laws.antt =====
-- flow/store/sqlite/flows.go: what a read finds after a put or a deletion.
use llm_agent_flow.Base.{
  ℕ, String, Bool, true, false, Option, none, some, List, [], ◌∷◌, Result, ok, err, ◌==◌,
  if◌then◌else◌, ◌≡◌, refl, sym, subst, arith, eq_iff, eq_refl, Option-cases, String-cases,
  ok-injective, ◌≢◌, ◌∙◌, Option-match, Bool-match, inl, inr,
}
use llm_agent_flow.Store.{
  FlowRecord, Tables, Faults, StoreError, already_exists, empty_id, empty_json, failure,
}
use llm_agent_flow.Store.Flows.{flow_row, upsert_flow, remove_flow, get_flow, put_flow, delete_flow}

-- The record of a flow that is put now; one that was there keeps the time of its creation.
abbrev pub put_record : ℕ → String → String → String → Option FlowRecord → FlowRecord
put_record now id name json old = record {
  id = id;
  name = name;
  created_at = elim old [ none ↦ now | some r ↦ r.created_at ];
  updated_at = now;
  json = json;
}

flow_row-upsert :
    (now : ℕ) (id name json other : String) (rows : List FlowRecord)
    → flow_row other (upsert_flow now id name json rows) ≡ (
        if id == other
        then some (put_record now id name json (flow_row id rows))
        else flow_row other rows)
unfolding upsert_flow
flow_row-upsert now id name json other [] = refl
flow_row-upsert now id name json other (r ∷ rows) = ground (
  arith,
  flow_row-upsert now id name json other rows,
  eq_iff r.id id,
  eq_iff r.id other,
  eq_iff id other,
)

flow_row-remove :
    (id other : String) (rows : List FlowRecord)
    → flow_row other (remove_flow id rows) ≡ (if id == other then none else flow_row other rows)
unfolding remove_flow
flow_row-remove id other [] = ground arith
flow_row-remove id other (r ∷ rows) =
    ground
      (arith, flow_row-remove id other rows, eq_iff r.id id, eq_iff r.id other, eq_iff id other)

-- What a read finds after a call.
abbrev pub Finds : Tables → (String → Option FlowRecord) → Type 0
Finds db rows = (other : String) → flow_row other db.flows ≡ rows other

-- Why a put changes nothing.
pub data PutRefusal (faults : Faults) (id json : String) (create : Bool) (db : Tables)
    : StoreError → Type 0 where
  no_id : id ≡ "" → PutRefusal faults id json create db empty_id
  no_json : json ≡ "" → PutRefusal faults id json create db empty_json
  taken :
      (r : FlowRecord)
      → create ≡ true
      → flow_row id db.flows ≡ some r
      → PutRefusal faults id json create db already_exists
  broken :
      (doing e : String) → faults 0 ≡ some e → PutRefusal faults id json create db (failure doing e)

-- A put that fails before its statement changes nothing. Otherwise the flow has the name and the JSON
-- that were put, and the time of its creation if it was there, no other flow changes, and the call
-- returns that record, or the fault of the second access, which reads it; with `create` the flow was
-- not there.
pub data IsPut (faults : Faults) (now : ℕ) (id name json : String) (create : Bool) (db : Tables)
    : Result StoreError FlowRecord × Tables → Type 0 where
  put_refused :
      (e : StoreError)
      → PutRefusal faults id json create db e
      → IsPut faults now id name json create db (err e, db)
  put_written :
      (db' : Tables)
      → (create ≡ true → flow_row id db.flows ≡ none)
      → Finds db' (λ other.
        if id == other
        then some (put_record now id name json (flow_row id db.flows))
        else flow_row other db.flows)
      → IsPut faults now id name json create db (
        elim (faults 1) [
          | none ↦ ok (put_record now id name json (flow_row id db.flows))
          | some e ↦ err (failure "get flow" e)
        ],
        db',
      )

-- What the read after the write returns.
get_flow-upsert :
    (read : Option String) (now : ℕ) (id name json : String) (db : Tables)
    → get_flow read id (record db { flows = upsert_flow now id name json db.flows }) ≡ (elim read [
      | none ↦ ok (put_record now id name json (flow_row id db.flows))
      | some e ↦ err (failure "get flow" e)
    ])
unfolding get_flow
get_flow-upsert (some e) now id name json db = refl
get_flow-upsert none now id name json db =
    let found : flow_row id (upsert_flow now id name json db.flows)
        ≡ some (put_record now id name json (flow_row id db.flows)) =
      ground (arith, flow_row-upsert now id name json id db.flows, eq_refl id) in
    rw (get_flow, found) refl

IsPut-written :
    (faults : Faults) (now : ℕ) (id name json : String) (create : Bool) (db : Tables)
    → (create ≡ true → flow_row id db.flows ≡ none)
    → IsPut faults now id name json create db (
      get_flow (faults 1) id (record db { flows = upsert_flow now id name json db.flows }),
      record db { flows = upsert_flow now id name json db.flows },
    )
IsPut-written faults now id name json create db absent =
    let db' = record db { flows = upsert_flow now id name json db.flows } in
    subst (λ r. IsPut faults now id name json create db (r, db'))
      (sym (get_flow-upsert (faults 1) now id name json db))
      (put_written db' absent (λ other. flow_row-upsert now id name json other db.flows))

-- A put that fails before its statement changes nothing, for one of the named reasons: an empty id or
-- JSON, a flow that is there already when `create` is set, or a fault of the first access to the
-- database. Otherwise the flow has the name and the JSON that were put, and the time of its creation
-- if it was there, no other flow changes, and the call returns that record, if the second access, which
-- reads it, has no fault, and the fault of that access if it has one; with `create` the flow was not
-- there.
pub put_flow-IsPut :
    (faults : Faults) (now : ℕ) (id name json : String) (create : Bool) (db : Tables)
    → IsPut faults now id name json create db (put_flow faults now id name json create db)
unfolding put_flow
put_flow-IsPut faults now id name json create db =
    let P = IsPut faults now id name json create db in
    Bool-match P (id == "") (λ h. put_refused empty_id (no_id ((eq_iff id "").0 h)))
      (λ h.
        Bool-match P (json == "") (λ h. put_refused empty_json (no_json ((eq_iff json "").0 h)))
          (λ h.
            Bool-match P create
              (λ only.
                Option-match P (faults 0)
                  (λ fine.
                    Option-match P (flow_row id db.flows)
                      (λ absent. IsPut-written faults now id name json create db (λ c. absent))
                      (λ r found. put_refused already_exists (taken r only found)))
                  (λ e fault. put_refused (failure "insert flow" e) (broken "insert flow" e fault)))
              (λ any.
                Option-match P (faults 0)
                  (λ fine. IsPut-written faults now id name json create db (λ c. absurd cc))
                  (λ e fault.
                    put_refused (failure "upsert flow" e) (broken "upsert flow" e fault)))))

pub get_flow-row :
    (fault : Option String) (id : String) (db : Tables) (r : FlowRecord)
    → get_flow fault id db ≡ ok r
    → flow_row id db.flows ≡ some r
unfolding get_flow
get_flow-row (some e) id db r h = absurd cc
get_flow-row none id db r h = elim (Option-cases (flow_row id db.flows)) [
  | inl absent ↦ absurd (cc (simp (get_flow, absent) at h))
  | inr (s, found) ↦
      let same : s ≡ r = ok-injective (simp (get_flow, found) at h) in rw (found, same) refl
]

-- A put leaves every other flow.
put-others :
    (faults : Faults) (now : ℕ) (id name json other : String) (create : Bool) (db : Tables)
    (t : Result StoreError FlowRecord × Tables)
    → IsPut faults now id name json create db t
    → (id == other) ≡ false
    → flow_row other t.1.flows ≡ flow_row other db.flows
put-others faults now id name json other create db t (put_refused e reason) apart = refl
put-others faults now id name json other create db t (put_written db' absent finds) apart =
    finds other ∙ rw (apart) refl

pub put_flow-others :
    (faults : Faults) (now : ℕ) (id name json other : String) (create : Bool) (db : Tables)
    → (id == other) ≡ false
    → flow_row other (put_flow faults now id name json create db).1.flows ≡ flow_row other db.flows
put_flow-others faults now id name json other create db =
    put-others faults now id name json other create db _
      (put_flow-IsPut faults now id name json create db)

create-keeps :
    (faults : Faults) (now : ℕ) (id name json other : String) (db : Tables) (r : FlowRecord)
    (t : Result StoreError FlowRecord × Tables)
    → IsPut faults now id name json true db t
    → flow_row other db.flows ≡ some r
    → flow_row other t.1.flows ≡ some r
create-keeps faults now id name json other db r t (put_refused e reason) h = h
create-keeps faults now id name json other db r t (put_written db' absent finds) h =
    elim (String-cases id other) [
      | inl same ↦ absurd (ground (arith, absent refl, h, same))
      | inr apart ↦ finds other ∙ rw (apart) h
    ]

-- A flow that is created replaces none.
pub put_flow-create :
    (faults : Faults) (now : ℕ) (id name json other : String) (db : Tables) (r : FlowRecord)
    → flow_row other db.flows ≡ some r
    → flow_row other (put_flow faults now id name json true db).1.flows ≡ some r
put_flow-create faults now id name json other db r =
    create-keeps faults now id name json other db r _
      (put_flow-IsPut faults now id name json true db)

get_flow-written :
    (now : ℕ) (id name json : String) (db : Tables) (e : StoreError)
    → get_flow none id (record db { flows = upsert_flow now id name json db.flows }) ≢ err e
unfolding get_flow
get_flow-written now id name json db e h =
    let found : flow_row id (upsert_flow now id name json db.flows)
        ≡ some (put_record now id name json (flow_row id db.flows)) =
      ground (arith, flow_row-upsert now id name json id db.flows, eq_refl id) in
    cc (simp (get_flow, found) at h)

-- A put that fails changed nothing, if it was not the read of the new row that failed.
pub put_flow-failed :
    (faults : Faults) (now : ℕ) (id name json : String) (create : Bool) (db : Tables)
    (e : StoreError)
    → faults 1 ≡ none
    → (put_flow faults now id name json create db).0 ≡ err e
    → (put_flow faults now id name json create db).1 ≡ db
unfolding put_flow
put_flow-failed faults now id name json create db e read =
    let P : Result StoreError FlowRecord × Tables → Type 0 = λ t. t.0 ≡ err e → t.1 ≡ db in
    let wrote : P (
      get_flow (faults 1) id (record db { flows = upsert_flow now id name json db.flows }),
      record db { flows = upsert_flow now id name json db.flows },
    ) =
      rw (read) (λ h. absurd (get_flow-written now id name json db e h)) in
    Bool-match P (id == "") (λ _ _. refl)
      (λ _.
        Bool-match P (json == "") (λ _ _. refl)
          (λ _.
            Bool-match P create
              (λ _.
                Option-match P (faults 0)
                  (λ _. Option-match P (flow_row id db.flows) (λ _. wrote) (λ _ _ _. refl))
                  (λ _ _ _. refl))
              (λ _. Option-match P (faults 0) (λ _. wrote) (λ _ _ _. refl))))

pub delete_flow-others :
    (fault : Option String) (id other : String) (db : Tables)
    → (id == other) ≡ false
    → flow_row other (delete_flow fault id db).1.flows ≡ flow_row other db.flows
unfolding delete_flow
delete_flow-others (some e) id other db apart = refl
delete_flow-others none id other db apart =
    Option-match {B = Option StoreError × Tables}
      (λ t. flow_row other t.1.flows ≡ flow_row other db.flows) (flow_row id db.flows) (λ _. refl)
      (λ r _. flow_row-remove id other db.flows ∙ rw (apart) refl)

pub delete_flow-failed :
    (fault : Option String) (id : String) (db : Tables) (e : StoreError)
    → (delete_flow fault id db).0 ≡ some e
    → (delete_flow fault id db).1 ≡ db
unfolding delete_flow
delete_flow-failed (some e') id db e = λ h. refl
delete_flow-failed none id db e =
    Option-match {B = Option StoreError × Tables} (λ t. t.0 ≡ some e → t.1 ≡ db)
      (flow_row id db.flows) (λ _ _. refl) (λ r _ h. absurd cc)
