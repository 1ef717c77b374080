-- ===== src/Tests/Structure.antt =====
-- The hash of the structure of the test flow, and of the flow with its nodes in another order and with
-- another configuration.
use llm_agent_flow.Base.{
  ◌≡◌, refl, sym, ◌∙◌, ◌↔◌, some, [], ◌∷◌, ok, ok-injective, ◌==◌, if◌then◌else◌,
}
use llm_agent_flow.V2.Ir.{Flow}
use llm_agent_flow.V2.Engine.{Nodes}
use llm_agent_flow.V2.Structure.{Descriptor, describe, structural_hash}
use llm_agent_flow.V2.Structure.Same.{SameStructure}
use llm_agent_flow.V2.Structure.Decides.{structural_hash-iff-SameStructure}
use llm_agent_flow.Tests.Flows.{review, copy, human, node_of, first_type}

abbrev resolved : Nodes
resolved id = if id == "ask" then some human else some copy

abbrev edited : Flow
edited = record review {
  name = "edited";
  nodes =
      record { id = "right"; type = "copy"; config = "changed" }
      ∷ node_of "start" "copy"
      ∷ node_of "left" "copy"
      ∷ node_of "ask" "human"
      ∷ [];
}

same_descriptor :
    (a b : Descriptor) → describe review resolved ≡ ok a → describe edited resolved ≡ ok b → a ≡ b
unfolding describe
same_descriptor a b h k = ok-injective (sym h ∙ k)

structural_hash-iff_example :
    (structural_hash first_type (λ text. text) edited resolved ≡ ok "human")
    ↔ SameStructure review resolved edited resolved
unfolding structural_hash
structural_hash-iff_example =
    structural_hash-iff-SameStructure first_type (λ text. text) review edited resolved resolved
      "human" refl (λ a b text other h k m n e. same_descriptor a b h k)
