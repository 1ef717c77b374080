-- ===== src/V2/Structure.antt =====
-- `structuralHash` of v2/flow/structhash.go. The JSON text of the descriptor and its SHA-256 sum are
-- parameters.
pub mod Same
pub mod Decides
use llm_agent_flow.Base.{
  ℕ, ◌+◌, sort, String, Option, none, some, List, [], ◌∷◌, map, update, ok, err, wrap, ◌>>=◌,
}
use llm_agent_flow.V2.Ir.{Node, Edge, Mapping, Port, Flow}
use llm_agent_flow.V2.Errors.{Run, unresolved_node, descriptor_failed}
use llm_agent_flow.V2.Nodes.{NodeKind}
use llm_agent_flow.V2.Engine.{Nodes}

pub record NodeDesc : Type 0 where
  pub id : String
  pub type : String
  pub inputs : List String
  pub outputs : List String

pub record EdgeDesc : Type 0 where
  pub index : ℕ
  pub source_node : String
  pub source_port : String
  pub target_node : String
  pub target_port : String
  pub condition : String

pub record MappingDesc : Type 0 where
  pub index : ℕ
  pub source_in : String
  pub source_node : String
  pub source_port : String
  pub source_path : List String
  pub target_node : String
  pub target_port : String
  pub target_path : List String

pub record Descriptor : Type 0 where
  pub nodes : List NodeDesc
  pub edges : List EdgeDesc
  pub mappings : List MappingDesc

unfoldable pub port_names : List Port → List String
unfolding sort
port_names ports = sort (map (λ p. p.name) ports)

-- The map from the id of a node to its type: the last node of an id wins, and a missing key reads "".
unfoldable pub type_by_id : (String → String) → List Node → String → String
type_by_id types [] = types
type_by_id types (n ∷ nodes) = type_by_id (update types n.id n.type) nodes

unfoldable pub node_descs : (String → String) → Nodes → List String → Run (List NodeDesc)
unfolding port_names
node_descs types nodes [] = ok []
node_descs types nodes (id ∷ ids) = elim (nodes id) [
  | none ↦ err (unresolved_node id)
  | some kind ↦ do
    rest ← node_descs types nodes ids
    ok (
        record {
          id = id;
          type = types id;
          inputs = port_names kind.inputs;
          outputs = port_names kind.outputs;
        }
        ∷ rest)
]

unfoldable pub edge_descs : ℕ → List Edge → List EdgeDesc
edge_descs i [] = []
edge_descs i (e ∷ edges) =
    record {
      index = i;
      source_node = e.source.node;
      source_port = e.source.port;
      target_node = e.target.node;
      target_port = e.target.port;
      condition = e.condition;
    }
    ∷ edge_descs (i + 1) edges

unfoldable pub mapping_descs : ℕ → List Mapping → List MappingDesc
mapping_descs i [] = []
mapping_descs i (m ∷ mappings) =
    record {
      index = i;
      source_in = m.source.input;
      source_node = m.source.node;
      source_port = m.source.port;
      source_path = m.source.path;
      target_node = m.target.node;
      target_port = m.target.port;
      target_path = m.target.path;
    }
    ∷ mapping_descs (i + 1) mappings

abbrev pub flow_ids : Flow → List String
flow_ids f = map (λ n. n.id) f.nodes

-- The type of the nodes with an id.
abbrev pub flow_types : Flow → String → String
flow_types f = type_by_id (λ _. "") f.nodes

unfoldable pub describe : Flow → Nodes → Run Descriptor
unfolding sort node_descs edge_descs mapping_descs type_by_id
describe f nodes = do
  nds ← node_descs (flow_types f) nodes (sort (flow_ids f))
  ok (record { nodes = nds; edges = edge_descs 0 f.edges; mappings = mapping_descs 0 f.mappings })

-- `marshal` is `json.Marshal` of the descriptor, `sum` the SHA-256 sum of a text in hexadecimal digits.
unfoldable pub structural_hash :
    (marshal : Descriptor → Run String) (sum : String → String) → Flow → Nodes → Run String
unfolding describe
structural_hash marshal sum f nodes = do
  d ← describe f nodes
  text ← wrap descriptor_failed (marshal d)
  ok (sum text)
