-- ===== src/V2/Ir.antt =====
-- The serializable shape of a flow: v2/flow/ir.go. A node's raw JSON configuration is a text that
-- only the node factories read.
use llm_agent_flow.Base.{String, List}

pub record Node : Type 0 where
  pub id : String
  pub type : String
  pub config : String

pub record PortRef : Type 0 where
  pub node : String
  pub port : String

pub record Edge : Type 0 where
  pub source : PortRef
  pub target : PortRef
  pub condition : String

pub record MappingSource : Type 0 where
  pub input : String
  pub node : String
  pub port : String
  pub path : List String

pub record MappingTarget : Type 0 where
  pub node : String
  pub port : String
  pub path : List String

pub record Mapping : Type 0 where
  pub source : MappingSource
  pub target : MappingTarget

-- The embedded `PortRef` is the field `ref`.
pub record NamedPortRef : Type 0 where
  pub name : String
  pub ref : PortRef

pub record Flow : Type 0 where
  pub id : String
  pub name : String
  pub description : String
  pub nodes : List Node
  pub edges : List Edge
  pub mappings : List Mapping
  pub inputs : List NamedPortRef
  pub outputs : List NamedPortRef

-- The Go type of a port is build-time metadata of the typed front-end and is left out.
pub record Port : Type 0 where
  pub name : String
  pub schema : String
