-- ===== src/Tests/Builder.antt =====
-- A chain of two passthrough nodes, built, compiled and lowered.
use llm_agent_flow.Base.{
  ℕ, zero, suc, String, ◌≡◌, ◌≢◌, refl, sym, subst, ◌⊎◌, ap, arith, Bool, true, false, not, none,
  some, Option, List, [], ◌∷◌, ok, ok-injective, ◌==◌, if◌then◌else◌, count, wrap, map, update,
  eq_iff, inl, inr,
}
use llm_agent_flow.V2.Ir.{Flow}
use llm_agent_flow.V2.Value.{Value}
use llm_agent_flow.V2.Nodes.{NodeRegistry}
use llm_agent_flow.V2.Validate.{has}
use llm_agent_flow.V2.Engine.{Nodes, build_nodes, Engine, EngineConfig, compile}
use llm_agent_flow.V2.Structure.{structural_hash}
use llm_agent_flow.Tests.Flows.{structure_hash}
use llm_agent_flow.Graph.Adapters.{passthrough_adapter}
use llm_agent_flow.Graph.Builder.{
  NodeRef, Graph, new_graph, add_node, mark_serializable, add_passthrough_node, add_edge, set_entry,
  set_exit,
}
use llm_agent_flow.Graph.Builder.Reaches.{Reaches, start, passthrough, edge, entry, exit}
use llm_agent_flow.Graph.Compile.{
  engine_failed, register_nodes, ir_nodes, ir_edges, graph_flow, compile_graph, lower,
  lowered_nodes, new_builtin_registry,
}
use llm_agent_flow.Graph.Compile.Lowers.{lower-compiles}
use llm_agent_flow.Graph.Chain.{
  wire, walk, out_of_fuel, one_each_way, linear_order, find_node, PipelineNode, pipeline_node,
  chain_nodes, check_folders, build_linear_pipeline,
}
use llm_agent_flow.Graph.Chain.Ordered.{walk_ends}
use llm_agent_flow.Graph.Chain.Visits.{
  StartsAt, IsRoute, pipeline_ids, graph_node_ids, build_linear_pipeline_visits,
}
use llm_agent_flow.Graph.Types.{GoType, Reflect, any_type, asserts, assignable, panics}
use llm_agent_flow.Graph.Compile.Passes.{IsNaming, compile_graph-Reaches}
use llm_agent_flow.Graph.Types.Delivers.{IsGo, assignable-asserts, only_by_pointer}

-- The type T has the methods of Stringer by its pointer alone.
abbrev pub implements : GoType → GoType → Bool
implements s t =
    if t == any_type
    then true
    else if t == "Stringer"
    then if s == "Stringer" then true else s == "*T"
    else false

abbrev pub is_interface : GoType → Bool
is_interface t = if t == any_type then true else t == "Stringer"

interface-cases : (s : GoType) → is_interface s ≡ true → (s ≡ any_type) ⊎ (s ≡ "Stringer")
interface-cases s h = ground (arith, h, eq_iff s any_type, eq_iff s "Stringer")

implements_trans :
    (r s t : GoType)
    → is_interface s ≡ true
    → implements r s ≡ true
    → implements s t ≡ true
    → implements r t ≡ true
implements_trans r s t i h k = elim (interface-cases s i) [
  | inl e ↦ let below = subst (λ x. implements x t ≡ true) e k in ground (arith, below)
  | inr e ↦ let above = subst (λ x. implements r x ≡ true) e h in ground (arith, above)
]

no_methods :
    (s t : GoType)
    → is_interface s ≡ true
    → implements (if s == "T" then "*T" else "*") t ≡ true
    → implements s t ≡ true
no_methods s t i h = elim (interface-cases s i) [
  | inl e ↦
      let below = subst (λ x. implements (if x == "T" then "*T" else "*") t ≡ true) e h in
      subst (λ x. implements x t ≡ true) (sym e) (ground (arith, below))
  | inr e ↦
      let below = subst (λ x. implements (if x == "T" then "*T" else "*") t ≡ true) e h in
      subst (λ x. implements x t ≡ true) (sym e) (ground (arith, below))
]

abbrev pub go_types : Reflect
go_types = record {
  is_interface = is_interface;
  is_pointer = λ t. t == "*T";
  pointer_to = λ t. if t == "T" then "*T" else "*";
  implements = implements;
}

go_types-IsGo : IsGo go_types
go_types-IsGo = record {
  any_is_interface = refl;
  implements_any = λ t. refl;
  implements_self = λ t h. ground (arith, h);
  implements_trans = implements_trans;
  no_methods = no_methods;
}

assignable-asserts_example :
    asserts go_types (some "T") "Stringer"
    ≡ not (only_by_pointer go_types go_types-IsGo "T" "Stringer")
unfolding assignable asserts
assignable-asserts_example = assignable-asserts go_types go_types-IsGo "T" "Stringer" "T" refl refl

-- A node with several input ports has no type of its own: an edge to it panics.
edge_to_many_panics : assignable go_types (some "T") none ≡ panics
unfolding assignable
edge_to_many_panics = refl

-- A nil value fails the assertion to `any`.
nil_refused : asserts go_types none any_type ≡ false
unfolding asserts
nil_refused = refl

abbrev type_name : ℕ → String
type_name zero = "g"
type_name (suc i) = String.◌∷◌ "n" (type_name i)

abbrev letters : String → ℕ
letters String.[] = 0
letters (String.◌∷◌ c s) = suc (letters s)

letters-type_name : (i : ℕ) → letters (type_name i) ≡ suc i
letters-type_name zero = refl
letters-type_name (suc i) = omega (arith, letters-type_name i)

type_name-IsNaming : IsNaming type_name
type_name-IsNaming = (
  λ i h. absurd (omega (arith, letters-type_name i, ap letters h)),
  λ i j h. omega (arith, letters-type_name i, letters-type_name j, ap letters h),
)

-- No value of these tests is looked at.
abbrev untyped : Value → Option GoType
untyped v = some "string"

abbrev ref : String → NodeRef
ref id = record { id = id; in_t = some "string"; out_t = some "string"; in_ports = none }

abbrev with_a : Graph
with_a = (add_passthrough_node (new_graph "string" "string") "a" "string").1

abbrev with_b : Graph
with_b = (add_passthrough_node with_a "b" "string").1

abbrev joined : Graph
joined = (add_edge go_types with_b (ref "a") (ref "b")).1

abbrev entered : Graph
entered = (set_entry go_types joined (ref "a")).1

abbrev chain : Graph
chain = (set_exit go_types entered (ref "b")).1

chain-Reaches : Reaches go_types untyped chain
unfolding new_graph add_passthrough_node add_node add_edge set_entry assignable mark_serializable
chain-Reaches =
    exit entered (ref "b")
      (entry joined (ref "a")
        (edge with_b (ref "a") (ref "b")
          (passthrough with_a "b" "string"
            (passthrough (new_graph "string" "string") "a" "string" (start "string" "string")))
          refl refl)
        refl)
      refl

abbrev no_store : EngineConfig
no_store = record { max_node_concurrency = 0; cond_eval = none; has_store = false }

abbrev flow_of : Graph → Flow
flow_of g = graph_flow (ir_nodes type_name 0 g.nodes) (ir_edges g.edges) "a" "b"

compile_graph-Reaches_example :
    (reg : NodeRegistry) × (register_nodes type_name 0 chain.nodes [] ≡ ok reg)
    × (compile_graph go_types type_name (λ f. ok "hash") (λ f nodes. ok "hash") chain no_store
        ≡ wrap engine_failed
            (compile (λ f. ok "hash") (λ f nodes. ok "hash") (flow_of chain) (some reg) no_store))
unfolding new_graph add_passthrough_node add_node add_edge set_entry set_exit assignable
    mark_serializable
compile_graph-Reaches_example =
    compile_graph-Reaches type_name type_name-IsNaming go_types untyped (λ f. ok "hash")
      (λ f nodes. ok "hash") chain (ref "a") (ref "b") no_store chain-Reaches refl refl refl

walk_ends_example : walk (λ v. if "a" == v then some "b" else none) 2 "a" [] ≢ out_of_fuel
unfolding new_graph add_passthrough_node add_node add_edge set_entry set_exit assignable
    mark_serializable wire
walk_ends_example = walk_ends chain "a" _ refl

abbrev pipeline : List PipelineNode
pipeline =
    pipeline_node (record { ref = ref "a"; kind = passthrough_adapter "a"; streams = false })
    ∷ pipeline_node (record { ref = ref "b"; kind = passthrough_adapter "b"; streams = false })
    ∷ []

build_linear_pipeline_visits_example :
    StartsAt "a" (pipeline_ids pipeline)
    × IsRoute chain.edges "b" (pipeline_ids pipeline)
    × ((v : String) → count v (pipeline_ids pipeline) ≡ count v (graph_node_ids chain.nodes))
unfolding new_graph add_passthrough_node add_node add_edge set_entry set_exit assignable
    mark_serializable wire build_linear_pipeline linear_order one_each_way walk has chain_nodes
    find_node check_folders passthrough_adapter
build_linear_pipeline_visits_example =
    build_linear_pipeline_visits (λ t. false) chain "a" "b" pipeline refl

abbrev chain_engine : Engine
chain_engine = record {
  flow = flow_of chain;
  nodes =
      update (update (λ _. none) "a" (some (passthrough_adapter "a"))) "b"
        (some (passthrough_adapter "b"));
  layers = ("a" ∷ []) ∷ ("b" ∷ []) ∷ [];
  edges = map (λ e. record { edge = e; guard = none }) (ir_edges chain.edges);
  max_node_concurrency = 0;
  has_store = false;
  flow_hash = "hash";
  struct_hash = type_name 0;
}

abbrev lowered_chain : Flow
lowered_chain = graph_flow (lowered_nodes chain chain.nodes) (ir_edges chain.edges) "a" "b"

lowered_chain-hashed :
    (nodes : Nodes)
    → build_nodes new_builtin_registry lowered_chain.nodes (λ _. none) ≡ ok nodes
    → structure_hash lowered_chain nodes ≡ ok "builtin.passthrough"
unfolding new_graph add_passthrough_node add_node add_edge set_entry set_exit assignable
    mark_serializable structural_hash build_nodes graph_flow lowered_nodes new_builtin_registry
lowered_chain-hashed nodes built =
    subst (λ nodes. structure_hash lowered_chain nodes ≡ ok "builtin.passthrough")
      (ok-injective built) refl

lower-compiles_example :
    (rebuilt : Engine) × (compile
        (λ f. ok "hash")
        structure_hash
        lowered_chain
        (some new_builtin_registry)
        no_store
      ≡ ok rebuilt)
    × (rebuilt.layers ≡ chain_engine.layers)
    × (rebuilt.edges ≡ chain_engine.edges)
unfolding new_graph add_passthrough_node add_node add_edge set_entry set_exit assignable
    mark_serializable compile_graph compile lower structural_hash
lower-compiles_example =
    lower-compiles (λ f. ok "hash") structure_hash go_types untyped type_name type_name-IsNaming
      chain (ref "a") (ref "b") no_store chain_engine lowered_chain "hash" "builtin.passthrough"
      chain-Reaches refl refl refl refl refl refl lowered_chain-hashed
