-- ===== src/Tests/Tables.antt =====
-- A table of checkpoints next to a store in memory, and merged streams.
use llm_agent_flow.Base.{ℕ, String, some, ◌<◌, arith, List, [], ◌∷◌, ok, err, ◌≡◌, refl}
use llm_agent_flow.V2.Errors.{checkpoint_not_found}
use llm_agent_flow.V2.RoundRobin.{round_robin_merge, drain_merged_per_source}
use llm_agent_flow.V2.RoundRobin.Delivers.{oks, drain-round_robin_merge}
use llm_agent_flow.V2.Sqlite.{CheckpointJson, save_row, load_row, delete_row}
use llm_agent_flow.V2.Sqlite.Refines.{
  CheckpointCall, save_call, load_call, delete_call, ReadsBack, serve_table, serve_memory,
  serve_table-serve_memory,
}
use llm_agent_flow.Tests.Graphs.{checkpoint}

-- A checkpoint of these tests is known by its run id.
abbrev by_run_id : CheckpointJson
by_run_id = record { marshal = λ cp. ok cp.run_id; unmarshal = λ text. ok (checkpoint text) }

abbrev checkpoint_calls : List CheckpointCall
checkpoint_calls =
    save_call (checkpoint "r1")
    ∷ save_call (checkpoint "r2")
    ∷ load_call "r1"
    ∷ save_call (checkpoint "r1")
    ∷ delete_call "r2"
    ∷ load_call "r2"
    ∷ []

reads_back : ReadsBack by_run_id checkpoint_calls
unfolding ReadsBack
reads_back = (("r1", refl, refl), (("r2", refl, refl), (("r1", refl, refl), _)))

serve_table-serve_memory_example :
    serve_table by_run_id checkpoint_calls [] ≡ serve_memory checkpoint_calls []
serve_table-serve_memory_example = serve_table-serve_memory by_run_id checkpoint_calls reads_back

answers_alike :
    serve_table by_run_id checkpoint_calls [] ≡ ok (checkpoint "r1") ∷ err checkpoint_not_found ∷ []
unfolding serve_table save_row load_row delete_row
answers_alike = refl

-- Three sources of different lengths.
abbrev letters : ℕ → List String
letters i = elim i [
  | ℕ.zero ↦ "a" ∷ "b" ∷ "c" ∷ []
  | ℕ.suc j ↦ elim j [ ℕ.zero ↦ [] | ℕ.suc k ↦ "x" ∷ [] ]
]

drain-round_robin_merge_example :
    (fuel : ℕ) × (all : ℕ → List String) × (drain_merged_per_source {E = String} fuel
        (round_robin_merge 3 (λ i. oks (letters i)))
        (λ i. [])
      ≡ some (ok all))
    × ((i : ℕ) → i < 3 → all i ≡ letters i)
drain-round_robin_merge_example = drain-round_robin_merge 3 letters (omega arith)
