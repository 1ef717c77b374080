-- ===== src/Base/Maps.antt =====
-- Go maps with string keys: as functions where the program only looks up and stores.
use Prim.Native.String.{String}
use llm_agent_flow.Base.Tests.{◌==◌, if◌then◌else◌}

module _ {ℓ} {A : Type ℓ} where
  -- m[k] = v
  abbrev pub update : (String → A) → String → A → String → A
  update m k v j = if k == j then v else m j
