-- ===== src/Store/Listings.antt =====
-- `ListFlows` of flow/store/sqlite/flows.go and `ListRuns` of flow/store/sqlite/runs.go. A limit that is not
-- positive is 0. SQLite compares texts by their bytes.
pub mod Newest
use llm_agent_flow.Base.{
  ℕ, zero, suc, ltb, String, Bool, true, false, Option, none, some, List, [], ◌∷◌, map, Result, ok,
  err, ◌==◌, if◌then◌else◌, text_le,
}
use llm_agent_flow.Store.{FlowRecord, RunRecord, RunStatus, Tables, StoreError, failure}

pub record FlowMeta : Type 0 where
  pub id : String
  pub name : String
  pub created_at : ℕ
  pub updated_at : ℕ

pub record RunMeta : Type 0 where
  pub id : String
  pub flow_id : String
  pub status : RunStatus
  pub started_at : ℕ
  pub finished_at : Option ℕ

abbrev pub flow_meta : FlowRecord → FlowMeta
flow_meta r = record {
  id = r.id;
  name = r.name;
  created_at = r.created_at;
  updated_at = r.updated_at;
}

abbrev pub run_meta : RunRecord → RunMeta
run_meta r = record {
  id = r.id;
  flow_id = r.flow_id;
  status = r.status;
  started_at = r.started_at;
  finished_at = r.finished_at;
}

abbrev pub limit_or_100 : ℕ → ℕ
limit_or_100 zero = 100
limit_or_100 (suc n) = suc n

abbrev pub take : {A : Type 0} → ℕ → List A → List A
take zero rows = []
take (suc n) [] = []
take (suc n) (r ∷ rows) = r ∷ take n rows

-- ORDER BY time DESC, id
module _ {A : Type 0} (time : A → ℕ) (id : A → String) where
  abbrev pub comes_first : A → A → Bool
  comes_first a b =
      if ltb (time b) (time a)
      then true
      else if ltb (time a) (time b)
      then false
      else text_le (id a) (id b)

  unfoldable pub insert_row : A → List A → List A
  unfolding text_le
  insert_row a [] = a ∷ []
  insert_row a (b ∷ rows) =
      let rest = insert_row a rows in if comes_first a b then a ∷ b ∷ rows else b ∷ rest

  unfoldable pub newest_first : List A → List A
  unfolding insert_row
  newest_first [] = []
  newest_first (a ∷ rows) = insert_row a (newest_first rows)

-- WHERE flow_id = ?
unfoldable pub runs_of : String → List RunRecord → List RunRecord
runs_of flow_id [] = []
runs_of flow_id (r ∷ rows) =
    let rest = runs_of flow_id rows in if r.flow_id == flow_id then r ∷ rest else rest

unfoldable pub list_flows : Option String → ℕ → Tables → Result StoreError (List FlowMeta)
unfolding newest_first
list_flows (some e) limit db = err (failure "list flows" e)
list_flows none limit db = ok (
    map flow_meta (
      take (limit_or_100 limit)
        (newest_first (λ (r : FlowRecord). r.updated_at) (λ r. r.id) db.flows)))

unfoldable pub list_runs : Option String → String → ℕ → Tables → Result StoreError (List RunMeta)
unfolding newest_first runs_of
list_runs (some e) flow_id limit db = err (failure "list runs" e)
list_runs none flow_id limit db = ok (
    map run_meta (
      take (limit_or_100 limit)
        (newest_first (λ (r : RunRecord). r.started_at) (λ r. r.id) (runs_of flow_id db.runs))))
