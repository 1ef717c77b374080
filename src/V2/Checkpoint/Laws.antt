-- ===== src/V2/Checkpoint/Laws.antt =====
-- The in-memory store is a map from run ids to checkpoints.
use llm_agent_flow.Base.{String, ◌≡◌, refl, none, some, [], ◌∷◌, arith, eq_iff, ◌==◌, if◌then◌else◌}
use llm_agent_flow.V2.Checkpoint.{Checkpoint, Memory, memory_save, memory_find, memory_delete}

-- After a checkpoint is saved, its run id finds it, and every other token finds what it found before.
pub find-save :
    (m : Memory) (cp : Checkpoint) (token : String)
    → memory_find (memory_save m cp) token
      ≡ (if cp.run_id == token then some cp else memory_find m token)
unfolding memory_find memory_save
find-save [] cp token = refl
find-save (c ∷ m) cp token = ground (
  arith,
  find-save m cp token,
  eq_iff c.run_id cp.run_id,
  eq_iff c.run_id token,
  eq_iff cp.run_id token,
)

-- After a token is deleted it finds nothing, and every other token finds what it found before.
pub find-delete :
    (m : Memory) (key token : String)
    → memory_find (memory_delete m key) token ≡ (if key == token then none else memory_find m token)
unfolding memory_find memory_delete
find-delete [] key token = ground arith
find-delete (c ∷ m) key token =
    ground
      (arith, find-delete m key token, eq_iff c.run_id key, eq_iff c.run_id token, eq_iff key token)
