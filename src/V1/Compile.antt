-- ===== src/V1/Compile.antt =====
-- Node kinds and their registry (flow/node.go), and `Compile` of flow/engine.go. The loops over edges and
-- layers are written as in v2/flow/engine.go, and are the functions of V2.Engine and V2.Layers.
pub mod Upgrade
use llm_agent_flow.Base.{
  ℕ, String, Bool, Option, none, some, List, [], ◌∷◌, Result, ok, err, ◌>>=◌, wrap, update, ◌==◌,
  if◌then◌else◌,
}
use llm_agent_flow.V2.Ir.{Node, Port}
use llm_agent_flow.V2.Errors.{RunError}
use llm_agent_flow.V2.Nodes.{
  BuildError, empty_type, nil_factory, already_registered, unknown_type, factory_failed,
}
use llm_agent_flow.V2.Layers.{layers}
use llm_agent_flow.V2.Engine.{
  GuardedEdge, ConditionEvaluator, CompileError, nil_registry, build_failed, Compiled,
  compile_edges, or_residual, guard_valid,
}
use llm_agent_flow.V1.Ir.{Flow}
use llm_agent_flow.V1.Validate.{flow_node_ids, flow_arcs, validate}

-- A node reads texts and returns texts, with metadata if it is `MetadataAware`.
pub record StringNode : Type 0 where
  pub inputs : List Port
  pub outputs : List Port
  pub run :
      (String → Option String)
      → Result RunError (List (String × String)) × Option (List (String × String))

abbrev pub Factories : Type 0
Factories = List (String × (String → Result RunError StringNode))

unfoldable pub find_string_factory :
    String → Factories → Option (String → Result RunError StringNode)
find_string_factory type [] = none
find_string_factory type ((t, fac) ∷ r) = if t == type then some fac else find_string_factory type r

unfoldable pub register_factory :
    Factories → String → Option (String → Result RunError StringNode) → Result BuildError Factories
unfolding find_string_factory
register_factory r type fac = if type == "" then err empty_type else elim fac [
  | none ↦ err nil_factory
  | some f ↦ elim (find_string_factory type r) [
    | some _ ↦ err (already_registered type)
    | none ↦ ok ((type, f) ∷ r)
  ]
]

unfoldable pub build_string_node : Factories → Node → Result BuildError StringNode
unfolding find_string_factory
build_string_node r n = elim (find_string_factory n.type r) [
  | none ↦ err (unknown_type n.id n.type)
  | some f ↦ wrap (factory_failed n.id) (f n.config)
]

abbrev pub StringNodes : Type 0
StringNodes = String → Option StringNode

-- `preds` only tells whether a node has incoming edges.
pub record FlowEngine : Type 0 where
  pub flow : Flow
  pub nodes : StringNodes
  pub layers : List (List String)
  pub edges : List GuardedEdge
  pub max_node_concurrency : ℕ

unfoldable pub build_string_nodes : Factories → List Node → StringNodes → Compiled StringNodes
unfolding build_string_node
build_string_nodes reg [] nodes = ok nodes
build_string_nodes reg (n ∷ ns) nodes = do
  kind ← wrap build_failed (build_string_node reg n)
  build_string_nodes reg ns (update nodes n.id (some kind))

unfoldable pub compile_flow :
    Flow → Option Factories → ℕ → Option ConditionEvaluator → Compiled FlowEngine
unfolding validate build_string_nodes compile_edges layers
compile_flow f none max eval = err nil_registry
compile_flow f (some reg) max eval = do
  _ ← guard_valid (validate f)
  nodes ← build_string_nodes reg f.nodes (λ _. none)
  edges ← compile_edges eval 0 f.edges
  ls ← or_residual (layers (flow_node_ids f) (flow_arcs f))
  ok (record { flow = f; nodes = nodes; layers = ls; edges = edges; max_node_concurrency = max })
