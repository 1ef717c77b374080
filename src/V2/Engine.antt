-- ===== src/V2/Engine.antt =====
-- The compiled engine, and `Compile` of v2/flow/engine.go.
pub mod Sound
use llm_agent_flow.Base.{
  ℕ, zero, suc, ◌+◌, String, Bool, true, false, ◌&&◌, Option, none, some, List, [], ◌∷◌, map,
  Result, ok, err, ◌>>=◌, wrap, ltb, update, ◌==◌, if◌then◌else◌,
}
use llm_agent_flow.V2.Ir.{Node, Edge, Mapping, Flow}
use llm_agent_flow.V2.Arcs.{arcs, node_ids}
use llm_agent_flow.V2.Validate.{ValidateError, validate}
use llm_agent_flow.V2.Layers.{layers}
use llm_agent_flow.V2.Errors.{RunError, Run}
use llm_agent_flow.V2.Nodes.{NodeKind, BuildError, NodeRegistry, build}

-- A compiled condition, as a function of the `value` of its environment.
abbrev pub Condition : Type 0
Condition = String → Run Bool

abbrev pub ConditionEvaluator : Type 0
ConditionEvaluator = String → Run Condition

-- An edge with its entry of `edgeCond`.
pub record GuardedEdge : Type 0 where
  pub edge : Edge
  pub guard : Option Condition

abbrev pub Nodes : Type 0
Nodes = String → Option NodeKind

pub record Engine : Type 0 where
  pub flow : Flow
  pub nodes : Nodes
  pub layers : List (List String)
  pub edges : List GuardedEdge
  pub max_node_concurrency : ℕ
  pub has_store : Bool
  pub flow_hash : String
  pub struct_hash : String

pub record EngineConfig : Type 0 where
  pub max_node_concurrency : ℕ
  pub cond_eval : Option ConditionEvaluator
  pub has_store : Bool

pub data CompileError : Type 0 where
  nil_registry residual_cycle : CompileError
  invalid : ValidateError → CompileError
  build_failed : BuildError → CompileError
  no_evaluator : ℕ → CompileError
  condition_invalid : ℕ → RunError → CompileError
  hash_failed : RunError → CompileError
  layer_interrupts : ℕ → ℕ → CompileError

abbrev pub Compiled {ℓ} : Type ℓ → Type ℓ
Compiled A = Result CompileError A

unfoldable pub build_nodes : NodeRegistry → List Node → Nodes → Compiled Nodes
unfolding build
build_nodes reg [] nodes = ok nodes
build_nodes reg (n ∷ ns) nodes = do
  kind ← wrap build_failed (build reg n)
  build_nodes reg ns (update nodes n.id (some kind))

unfoldable pub compile_guard : Option ConditionEvaluator → ℕ → Edge → Compiled (Option Condition)
compile_guard eval i e = if e.condition == "" then ok none else elim eval [
  | none ↦ err (no_evaluator i)
  | some compile ↦ do c ← wrap (condition_invalid i) (compile e.condition); ok (some c)
]

unfoldable pub compile_edges :
    Option ConditionEvaluator → ℕ → List Edge → Compiled (List GuardedEdge)
unfolding compile_guard
compile_edges eval i [] = ok []
compile_edges eval i (e ∷ es) = do
  c ← compile_guard eval i e
  rest ← compile_edges eval (i + 1) es
  ok (record { edge = e; guard = c } ∷ rest)

abbrev pub interrupts : Option NodeKind → Bool
interrupts none = false
interrupts (some kind) = elim kind.can_interrupt [ none ↦ false | some b ↦ b ]

-- The interrupt-capable nodes of a layer.
unfoldable pub count_interrupts : Nodes → List String → ℕ
count_interrupts nodes [] = 0
count_interrupts nodes (id ∷ layer) =
    (if interrupts (nodes id) then 1 else 0) + count_interrupts nodes layer

unfoldable pub check_interrupts : Nodes → ℕ → List (List String) → Compiled (Unit {0})
unfolding count_interrupts
check_interrupts nodes i [] = ok tt
check_interrupts nodes i (layer ∷ ls) =
    let rest = check_interrupts nodes (i + 1) ls in
    if ltb 1 (count_interrupts nodes layer)
    then err (layer_interrupts i (count_interrupts nodes layer))
    else rest

abbrev pub or_residual : Option (List (List String)) → Compiled (List (List String))
or_residual none = err residual_cycle
or_residual (some ls) = ok ls

abbrev pub guard_valid : Option ValidateError → Compiled (Unit {0})
guard_valid none = ok tt
guard_valid (some e) = err (invalid e)

-- The two hashes are parameters: SHA-256 over JSON texts of the flow, and of its structure with the
-- resolved nodes.
module _ (flow_hash : Flow → Run String) (struct_hash : Flow → Nodes → Run String) where
  unfoldable pub compile : Flow → Option NodeRegistry → EngineConfig → Compiled Engine
  unfolding build_nodes compile_edges check_interrupts validate layers
  compile f none cfg = err nil_registry
  compile f (some reg) cfg = do
    _ ← guard_valid (validate f)
    nodes ← build_nodes reg f.nodes (λ _. none)
    edges ← compile_edges cfg.cond_eval 0 f.edges
    ls ← or_residual (layers (node_ids f) (arcs f))
    fh ← wrap hash_failed (flow_hash f)
    sh ← wrap hash_failed (struct_hash f nodes)
    _ ← (if cfg.has_store then check_interrupts nodes 0 ls else ok tt)
    ok (record {
      flow = f;
      nodes = nodes;
      layers = ls;
      edges = edges;
      max_node_concurrency = cfg.max_node_concurrency;
      has_store = cfg.has_store;
      flow_hash = fh;
      struct_hash = sh;
    })
