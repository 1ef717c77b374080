-- ===== src/V1/Ir.antt =====
-- The flow of the first version: flow/ir.go. Its nodes, edges and port references have the fields of
-- those of v2/flow/ir.go, whose types are used for them; there are no mappings.
use llm_agent_flow.Base.{String, List}
use llm_agent_flow.V2.Ir.{Node, Edge, NamedPortRef}

pub record Flow : Type 0 where
  pub id : String
  pub name : String
  pub description : String
  pub nodes : List Node
  pub edges : List Edge
  pub inputs : List NamedPortRef
  pub outputs : List NamedPortRef
