-- ===== src/V2/Sqlite/Refines.antt =====
-- v2/flow/store/sqlite/checkpoint.go: the table answers as the store in memory does.
use llm_agent_flow.Base.{
  String, Bool, true, false, Option, none, some, List, [], ◌∷◌, ◌++◌, ok, err, ◌==◌, if◌then◌else◌,
  ◌≡◌, refl, arith, eq_iff, ◌∙◌, Bool-cases, inl, inr,
}
use llm_agent_flow.V2.Errors.{Run}
use llm_agent_flow.V2.Checkpoint.{Checkpoint, Memory, memory_save, memory_load, memory_delete}
use llm_agent_flow.V2.Checkpoint.Laws.{find-save, find-delete}
use llm_agent_flow.V2.Sqlite.{
  CheckpointRow, CheckpointJson, without_token, data_of, row_of, save_row, load_row, delete_row,
}

data_of-append :
    (token : String) (rows : List CheckpointRow) (r : CheckpointRow)
    → data_of token (rows ++ r ∷ []) ≡ (elim (data_of token rows) [
      | some text ↦ some text
      | none ↦ if r.token == token then some r.data_json else none
    ])
unfolding data_of
data_of-append token [] r = refl
data_of-append token (s ∷ rows) r = ground (arith, data_of-append token rows r)

data_of-without :
    (token other : String) (rows : List CheckpointRow)
    → data_of other (without_token token rows)
      ≡ (if token == other then none else data_of other rows)
unfolding data_of without_token
data_of-without token other [] = ground arith
data_of-without token other (r ∷ rows) = ground (
  arith,
  data_of-without token other rows,
  eq_iff r.token token,
  eq_iff r.token other,
  eq_iff token other,
)

-- The tables hold, marshalled, what the store in memory holds.
pub Mirrors : CheckpointJson → List CheckpointRow → Memory → Type 0
Mirrors json rows m = (token : String) → load_row json none rows token ≡ memory_load m token

pub data CheckpointCall : Type 0 where
  save_call : Checkpoint → CheckpointCall
  load_call : String → CheckpointCall
  delete_call : String → CheckpointCall

-- Each checkpoint that is saved is marshalled, and read back.
unfoldable pub ReadsBack : CheckpointJson → List CheckpointCall → Type 0
ReadsBack json [] = Unit
ReadsBack json (save_call cp ∷ calls) =
    ((text : String) × (json.marshal cp ≡ ok text) × (json.unmarshal text ≡ ok cp))
    × ReadsBack json calls
ReadsBack json (load_call token ∷ calls) = ReadsBack json calls
ReadsBack json (delete_call token ∷ calls) = ReadsBack json calls

-- The answers of the loads among the calls, or the first error of another call.
unfoldable pub serve_table :
    CheckpointJson → List CheckpointCall → List CheckpointRow → List (Run Checkpoint)
serve_table json [] rows = []
serve_table json (save_call cp ∷ calls) rows = elim (save_row json none rows cp) [
  | ok rows' ↦ serve_table json calls rows'
  | err e ↦ err e ∷ []
]
serve_table json (load_call token ∷ calls) rows =
    load_row json none rows token ∷ serve_table json calls rows
serve_table json (delete_call token ∷ calls) rows = elim (delete_row none rows token) [
  | ok rows' ↦ serve_table json calls rows'
  | err e ↦ err e ∷ []
]

unfoldable pub serve_memory : List CheckpointCall → Memory → List (Run Checkpoint)
serve_memory [] m = []
serve_memory (save_call cp ∷ calls) m = serve_memory calls (memory_save m cp)
serve_memory (load_call token ∷ calls) m = memory_load m token ∷ serve_memory calls m
serve_memory (delete_call token ∷ calls) m = serve_memory calls (memory_delete m token)

some_or_none :
    (o : Option String) (b : Bool) (text : String)
    → b ≡ false
    → (elim o [ some found ↦ some found | none ↦ if b then some text else none ]) ≡ o
some_or_none none b text h = rw (h) refl
some_or_none (some found) b text h = refl

saved-Mirrors :
    (json : CheckpointJson) (rows : List CheckpointRow) (m : Memory) (cp : Checkpoint)
    (text : String)
    → json.unmarshal text ≡ ok cp
    → Mirrors json rows m
    → Mirrors json (without_token cp.run_id rows ++ row_of cp text ∷ []) (memory_save m cp)
unfolding Mirrors load_row memory_load
saved-Mirrors json rows m cp text reads h token = elim (Bool-cases (cp.run_id == token)) [
  | inl own ↦
      let own_row : ((row_of cp text).token == token) ≡ true = own in
      let found : data_of token (without_token cp.run_id rows ++ row_of cp text ∷ []) ≡ some text =
        data_of-append token (without_token cp.run_id rows) (row_of cp text)
        ∙ rw (data_of-without cp.run_id token rows, own, own_row) refl in
      rw (load_row, memory_load, found, reads, find-save m cp token, own) refl
  | inr other ↦
      let same : data_of token (without_token cp.run_id rows ++ row_of cp text ∷ [])
          ≡ data_of token rows =
        data_of-append token (without_token cp.run_id rows) (row_of cp text)
        ∙ rw (data_of-without cp.run_id token rows, other)
            (some_or_none (data_of token rows) (cp.run_id == token) text other) in
      rw (load_row, memory_load, same, find-save m cp token, other) (h token)
]

deleted-Mirrors :
    (json : CheckpointJson) (rows : List CheckpointRow) (m : Memory) (token : String)
    → Mirrors json rows m
    → Mirrors json (without_token token rows) (memory_delete m token)
unfolding Mirrors load_row memory_load
deleted-Mirrors json rows m token h other = elim (Bool-cases (token == other)) [
  | inl own ↦
      rw (load_row, memory_load, data_of-without token other rows, find-delete m token other, own)
        refl
  | inr apart ↦
      rw (load_row, memory_load, data_of-without token other rows, find-delete m token other, apart)
        (h other)
]

table_answers :
    (json : CheckpointJson) (calls : List CheckpointCall) (rows : List CheckpointRow) (m : Memory)
    → ReadsBack json calls
    → Mirrors json rows m
    → serve_table json calls rows ≡ serve_memory calls m
unfolding serve_table serve_memory ReadsBack save_row delete_row Mirrors
table_answers json [] rows m reads h = refl
table_answers json (save_call cp ∷ calls) rows m reads h =
    let (text, written, read) = reads.0 in
    rw (serve_table, save_row, written)
      (table_answers json calls (without_token cp.run_id rows ++ row_of cp text ∷ [])
        (memory_save m cp) reads.1 (saved-Mirrors json rows m cp text read h))
table_answers json (load_call token ∷ calls) rows m reads h =
    let same : load_row json none rows token ≡ memory_load m token = h token in
    let rest = table_answers json calls rows m reads h in cc
table_answers json (delete_call token ∷ calls) rows m reads h =
    table_answers json calls (without_token token rows) (memory_delete m token) reads
      (deleted-Mirrors json rows m token h)

-- When each saved checkpoint is read back as it was and the database refuses nothing, a new table answers
-- any saves, loads and deletions as a new store in memory does.
pub serve_table-serve_memory :
    (json : CheckpointJson) (calls : List CheckpointCall)
    → ReadsBack json calls
    → serve_table json calls [] ≡ serve_memory calls []
unfolding Mirrors load_row memory_load
serve_table-serve_memory json calls reads = table_answers json calls [] [] reads (λ token. refl)
