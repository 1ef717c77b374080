-- ===== src/Store/Flows.antt =====
-- flow/store/sqlite/flows.go: the table of flows.
pub mod Laws
use llm_agent_flow.Base.{
  ℕ, suc, String, Bool, true, false, Option, none, some, List, [], ◌∷◌, ◌++◌, Result, ok, err, ◌==◌,
  if◌then◌else◌, ◌≡◌, refl, arith, eq_iff, eq_refl, Option-cases, String-cases, ok-injective, ◌≢◌,
  ◌∙◌, Option-match, Bool-match, Bool-cases, inl, inr,
}
use llm_agent_flow.Store.{
  FlowRecord, Tables, Faults, StoreError, not_found, already_exists, empty_id, empty_json, failure,
}

-- SELECT … WHERE id = ?
abbrev pub flow_row : String → List FlowRecord → Option FlowRecord
flow_row id [] = none
flow_row id (r ∷ rows) = if r.id == id then some r else flow_row id rows

-- INSERT … ON CONFLICT(id) DO UPDATE
unfoldable pub upsert_flow : ℕ → String → String → String → List FlowRecord → List FlowRecord
upsert_flow now id name json [] =
    record { id = id; name = name; created_at = now; updated_at = now; json = json } ∷ []
upsert_flow now id name json (r ∷ rows) =
    let rest = upsert_flow now id name json rows in
    if r.id == id then record r { name = name; json = json; updated_at = now } ∷ rows else r ∷ rest

unfoldable pub remove_flow : String → List FlowRecord → List FlowRecord
remove_flow id [] = []
remove_flow id (r ∷ rows) = let rest = remove_flow id rows in if r.id == id then rest else r ∷ rest

unfoldable pub get_flow : Option String → String → Tables → Result StoreError FlowRecord
get_flow (some e) id db = err (failure "get flow" e)
get_flow none id db = elim (flow_row id db.flows) [ none ↦ err not_found | some r ↦ ok r ]

unfoldable pub put_flow :
    Faults
    → (now : ℕ) → (id name json : String) → (create : Bool) → Tables
    → Result StoreError FlowRecord × Tables
unfolding get_flow upsert_flow
put_flow faults now id name json create db =
    let written : Tables = record db { flows = upsert_flow now id name json db.flows } in
    if id == ""
    then (err empty_id, db)
    else if json == ""
    then (err empty_json, db)
    else if create
    then elim (faults 0) [
      | some e ↦ (err (failure "insert flow" e), db)
      | none ↦ elim (flow_row id db.flows) [
        | some r ↦ (err already_exists, db)
        | none ↦ (get_flow (faults 1) id written, written)
      ]
    ]
    else elim (faults 0) [
      | some e ↦ (err (failure "upsert flow" e), db)
      | none ↦ (get_flow (faults 1) id written, written)
    ]

-- The result is the error of the call.
unfoldable pub delete_flow : Option String → String → Tables → Option StoreError × Tables
unfolding remove_flow
delete_flow (some e) id db = (some (failure "delete flow" e), db)
delete_flow none id db = elim (flow_row id db.flows) [
  | none ↦ (some not_found, db)
  | some r ↦ (none, record db { flows = remove_flow id db.flows })
]
