-- ===== src/Graph/Compile/Shape.antt =====
-- The lowered flow of a graph has the shape of the flow that `Compile` runs, and its nodes are built
-- from the built-in registry.
use llm_agent_flow.Base.{
  ℕ, ◌+◌, arith, String, false, ◌≡◌, refl, ap, inl, inr, none, some, List, [], ◌∷◌, map, ok, All,
  update, ◌==◌, eq-false_of_ne, Bool-cases, Option-cases,
}
use llm_agent_flow.V2.Ir.{Node, Edge}
use llm_agent_flow.V2.Nodes.{find_factory, register, build}
use llm_agent_flow.V2.Validate.{issues, add_id, node_issues, check_nodes, all_issues, validate}
use llm_agent_flow.V2.Engine.{Nodes, build_nodes, interrupts, count_interrupts, check_interrupts}
use llm_agent_flow.Graph.Adapters.{passthrough_adapter}
use llm_agent_flow.Graph.Builder.{GraphNode, NodeLowering, Graph, builtin_passthrough}
use llm_agent_flow.Graph.Compile.Passes.{IsNaming}
use llm_agent_flow.Graph.Compile.{
  ir_nodes, graph_flow, unserializable, lowered_nodes, new_builtin_registry,
}

-- The node has a serializable form, of the built-in type.
abbrev pub HasForm : Graph → GraphNode → Type 0
HasForm g gn = (l : NodeLowering) × (g.lowering gn.ref.id ≡ some l) × (l.typ ≡ builtin_passthrough)

pub unserializable-none :
    (g : Graph) (gns : List GraphNode)
    → ((id : String) (l : NodeLowering) → g.lowering id ≡ some l → l.typ ≡ builtin_passthrough)
    → unserializable g gns ≡ []
    → All (HasForm g) gns
unfolding unserializable
unserializable-none g [] builtin h = tt
unserializable-none g (gn ∷ gns) builtin h = elim (Option-cases (g.lowering gn.ref.id)) [
  | inl e ↦ let bad = rw (unserializable, e) at h in absurd (ground arith)
  | inr (l, e) ↦ (
    (l, e, builtin gn.ref.id l e),
    unserializable-none g gns builtin (rw (unserializable, e) at h),
  )
]

pub all_issues-graph_flow :
    (ns ms : List Node) (es : List Edge) (entry exit : String)
    → check_nodes 0 [] ns ≡ check_nodes 0 [] ms
    → map (λ n. n.id) ns ≡ map (λ n. n.id) ms
    → all_issues (graph_flow ns es entry exit) ≡ all_issues (graph_flow ms es entry exit)
unfolding all_issues graph_flow
all_issues-graph_flow ns ms es entry exit same ids = rw (same, ids) refl

module _ (type_name : ℕ → String) (naming : IsNaming type_name) (g : Graph) where
  -- Validation reads of a node's type only that it is not empty.
  pub check_nodes-lowered :
      (gns : List GraphNode)
      → All (HasForm g) gns
      → (i j : ℕ) (ids : List String)
      → check_nodes i ids (lowered_nodes g gns) ≡ check_nodes i ids (ir_nodes type_name j gns)
  unfolding check_nodes node_issues lowered_nodes ir_nodes
  check_nodes-lowered [] form i j ids = refl
  check_nodes-lowered (gn ∷ gns) ((l, e, typ), form) i j ids =
      rw
        (
          e,
          typ,
          eq-false_of_ne (type_name j) "" (naming.0 j),
          check_nodes-lowered gns form (i + 1) (j + 1)
              (add_id ids (record { id = gn.ref.id; type = type_name j; config = "" })),
        )
        refl

  pub ids-lowered :
      (gns : List GraphNode) (j : ℕ)
      → map (λ n. n.id) (lowered_nodes g gns) ≡ map (λ n. n.id) (ir_nodes type_name j gns)
  unfolding lowered_nodes ir_nodes
  ids-lowered [] j = refl
  ids-lowered (gn ∷ gns) j = ap (◌∷◌ gn.ref.id) (ids-lowered gns (j + 1))

  pub validate-lowered :
      (gns : List GraphNode) (es : List Edge) (entry exit : String)
      → All (HasForm g) gns
      → validate (graph_flow (lowered_nodes g gns) es entry exit)
        ≡ validate (graph_flow (ir_nodes type_name 0 gns) es entry exit)
  unfolding validate graph_flow lowered_nodes ir_nodes
  validate-lowered [] es entry exit form = refl
  validate-lowered (gn ∷ gns) es entry exit form =
      ap (λ xs. elim xs [ [] ↦ none | x ∷ rest ↦ some (issues (x ∷ rest)) ])
        (all_issues-graph_flow (lowered_nodes g (gn ∷ gns)) (ir_nodes type_name 0 (gn ∷ gns)) es
          entry exit (check_nodes-lowered (gn ∷ gns) form 0 0 []) (ids-lowered (gn ∷ gns) 0))

-- No node of the table may interrupt.
abbrev pub IsQuiet : Nodes → Type 0
IsQuiet nodes = (id : String) → interrupts (nodes id) ≡ false

-- The built-in registry builds every node of a lowered flow.
pub build_nodes-lowered :
    (g : Graph) (gns : List GraphNode) (nodes : Nodes)
    → All (HasForm g) gns
    → IsQuiet nodes
    → (built : Nodes) × (build_nodes new_builtin_registry (lowered_nodes g gns) nodes ≡ ok built)
      × IsQuiet built
unfolding build_nodes build find_factory register new_builtin_registry lowered_nodes
    passthrough_adapter
build_nodes-lowered g [] nodes form quiet = (nodes, refl, quiet)
build_nodes-lowered g (gn ∷ gns) nodes ((l, e, typ), form) quiet =
    let after : Nodes = update nodes gn.ref.id (some (passthrough_adapter "")) in
    let (built, done, still) = build_nodes-lowered g gns after form (λ id.
      elim (Bool-cases (gn.ref.id == id)) [
        | inl same ↦ rw same refl
        | inr other ↦ rw other (quiet id)
      ]) in
    (built, rw (e, typ) done, still)

pub check_interrupts-IsQuiet :
    (nodes : Nodes) (i : ℕ) (ls : List (List String))
    → IsQuiet nodes
    → check_interrupts nodes i ls ≡ ok tt
unfolding check_interrupts count_interrupts
check_interrupts-IsQuiet nodes i [] quiet = refl
check_interrupts-IsQuiet nodes i (layer ∷ ls) quiet =
    ground (arith, none_of layer, check_interrupts-IsQuiet nodes (i + 1) ls quiet)
  where
    none_of : (layer : List String) → count_interrupts nodes layer ≡ 0
    none_of [] = refl
    none_of (id ∷ rest) = rw (quiet id) (omega (arith, none_of rest))
