-- ===== src/Graph/Compile.antt =====
-- `Compile` of v2/flow/graph/runnable.go up to the compiled engine, and `lower` of lower.go.
pub mod Passes
pub mod Shape
pub mod Lowers
use llm_agent_flow.Base.{
  ℕ, ◌+◌, String, Bool, Option, none, some, List, [], ◌∷◌, Result, ok, err, ◌>>=◌, wrap, ◌==◌,
  if◌then◌else◌,
}
use llm_agent_flow.V2.Ir.{Node, Edge, Flow}
use llm_agent_flow.V2.Errors.{Run}
use llm_agent_flow.V2.Nodes.{BuildError, NodeRegistry, register}
use llm_agent_flow.V2.Engine.{Nodes, Engine, EngineConfig, CompileError, compile}
use llm_agent_flow.Graph.Types.{GoType, Reflect, Verdict, fits, deferred, unfit, panics, assignable}
use llm_agent_flow.Graph.Adapters.{port_in, port_out, passthrough_adapter}
use llm_agent_flow.Graph.Builder.{
  NodeRef, zero_ref, GraphNode, GraphEdge, NodeLowering, GraphError, Graph, lookup,
  builtin_passthrough,
}

abbrev pub graph_input_key : String
graph_input_key = "__graph_in"

abbrev pub graph_output_key : String
graph_output_key = "__graph_out"

pub data GraphCompileError : Type 0 where
  latched : GraphError → GraphCompileError
  no_entry no_exit recheck_panicked : GraphCompileError
  edge_mismatch : GraphEdge → GraphCompileError
  entry_mismatch exit_mismatch : String → GraphCompileError
  register_failed : String → BuildError → GraphCompileError
  engine_failed : CompileError → GraphCompileError

abbrev pub GraphCompiled {ℓ} : Type ℓ → Type ℓ
GraphCompiled A = Result GraphCompileError A

-- A missing entry of `byID` reads as the zero value.
abbrev pub or_zero : Option NodeRef → NodeRef
or_zero none = zero_ref
or_zero (some ref) = ref

abbrev pub or_nil : Option (Option GoType) → Option GoType
or_nil none = none
or_nil (some t) = t

-- The declared type of a port of a node.
unfoldable pub port_type : NodeRef → String → Option GoType
unfolding lookup
port_type to port = elim to.in_ports [ none ↦ to.in_t | some ports ↦ or_nil (lookup port ports) ]

-- `if ok, _ := …; !ok { return nil, … }`
abbrev pub require : Verdict → GraphCompileError → GraphCompiled (Unit {0})
require fits e = ok tt
require deferred e = ok tt
require unfit e = err e
require panics e = err recheck_panicked

abbrev pub latch_free : Option GraphError → GraphCompiled (Unit {0})
latch_free none = ok tt
latch_free (some e) = err (latched e)

abbrev pub present : GraphCompileError → Option NodeRef → GraphCompiled NodeRef
present e none = err e
present e (some ref) = ok ref

unfoldable pub register_nodes :
    (ℕ → String) → ℕ → List GraphNode → NodeRegistry → GraphCompiled NodeRegistry
unfolding register
register_nodes type_name i [] reg = ok reg
register_nodes type_name i (gn ∷ gns) reg = do
  next ← wrap (register_failed gn.ref.id) (register reg (type_name i) (some (λ _. ok gn.kind)))
  register_nodes type_name (i + 1) gns next

unfoldable pub ir_nodes : (ℕ → String) → ℕ → List GraphNode → List Node
ir_nodes type_name i [] = []
ir_nodes type_name i (gn ∷ gns) =
    record { id = gn.ref.id; type = type_name i; config = "" } ∷ ir_nodes type_name (i + 1) gns

unfoldable pub ir_edges : List GraphEdge → List Edge
ir_edges [] = []
ir_edges (e ∷ es) =
    record {
      source = record { node = e.from; port = e.from_port };
      target = record { node = e.to; port = e.to_port };
      condition = "";
    }
    ∷ ir_edges es

-- The flow of the given nodes and edges between an entry and an exit.
unfoldable pub graph_flow : List Node → List Edge → String → String → Flow
graph_flow nodes edges entry exit = record {
  id = "graph";
  name = "";
  description = "";
  nodes = nodes;
  edges = edges;
  mappings = [];
  inputs = record { name = graph_input_key; ref = record { node = entry; port = port_in } } ∷ [];
  outputs = record { name = graph_output_key; ref = record { node = exit; port = port_out } } ∷ [];
}

module _ (reflect : Reflect) where
  unfoldable pub recheck_edges :
      (String → Option NodeRef) → List GraphEdge → GraphCompiled (Unit {0})
  unfolding assignable port_type
  recheck_edges by_id [] = ok tt
  recheck_edges by_id (e ∷ es) = do
    let from = or_zero (by_id e.from)
    let to = or_zero (by_id e.to)
    _ ← require (assignable reflect from.out_t (port_type to e.to_port)) (edge_mismatch e)
    recheck_edges by_id es

  -- `type_name` is `fmt.Sprintf("g%d", i)`.
  module _ (type_name : ℕ → String) (flow_hash : Flow → Run String)
      (struct_hash : Flow → Nodes → Run String) where
    unfoldable pub compile_graph : Graph → EngineConfig → GraphCompiled Engine
    unfolding recheck_edges register_nodes ir_nodes ir_edges graph_flow compile
    compile_graph g cfg = do
      _ ← latch_free g.latched_err
      entry ← present no_entry g.entry
      exit ← present no_exit g.exit
      _ ← recheck_edges g.by_id g.edges
      _ ← require (assignable reflect (some g.in_t) entry.in_t) (entry_mismatch entry.id)
      _ ← require (assignable reflect exit.out_t (some g.out_t)) (exit_mismatch exit.id)
      reg ← register_nodes type_name 0 g.nodes []
      wrap engine_failed (
          compile flow_hash struct_hash
            (graph_flow (ir_nodes type_name 0 g.nodes) (ir_edges g.edges) entry.id exit.id)
            (some reg) cfg)

-- `reason == ""` is a missing reason as well as an empty one.
abbrev pub reason_of : Option String → String
reason_of none = "not serializable"
reason_of (some r) = if r == "" then "not serializable" else r

-- The nodes that have no serializable form, with the reason.
unfoldable pub unserializable : Graph → List GraphNode → List (String × String)
unserializable g [] = []
unserializable g (gn ∷ gns) =
    let rest = unserializable g gns in
    elim (g.lowering gn.ref.id) [
      | some _ ↦ rest
      | none ↦ (gn.ref.id, reason_of (g.reasons gn.ref.id)) ∷ rest
    ]

abbrev pub or_empty : Option NodeLowering → NodeLowering
or_empty none = record { typ = ""; config = "" }
or_empty (some l) = l

unfoldable pub lowered_nodes : Graph → List GraphNode → List Node
lowered_nodes g [] = []
lowered_nodes g (gn ∷ gns) =
    let l = or_empty (g.lowering gn.ref.id) in
    record { id = gn.ref.id; type = l.typ; config = l.config } ∷ lowered_nodes g gns

-- With the entry and the exit that `Compile` found to be set.
unfoldable pub lower : Graph → NodeRef → NodeRef → Result (List (String × String)) Flow
unfolding unserializable lowered_nodes ir_edges graph_flow
lower g entry exit = elim (unserializable g g.nodes) [
  | x ∷ xs ↦ err (x ∷ xs)
  | [] ↦ ok (graph_flow (lowered_nodes g g.nodes) (ir_edges g.edges) entry.id exit.id)
]

-- A rebuilt passthrough node has an empty id. The error of `Register` is dropped.
unfoldable pub new_builtin_registry : NodeRegistry
unfolding passthrough_adapter register
new_builtin_registry =
    elim (register [] builtin_passthrough (some (λ config. ok (passthrough_adapter "")))) [
      | ok reg ↦ reg
      | err _ ↦ []
    ]
