-- ===== src/Graph/Compile/Passes.antt =====
-- What can fail in `Compile` for a graph that the builder's calls made.
use llm_agent_flow.Base.{
  ℕ, ◌+◌, ◌≤◌, arith, String, true, ◌≡◌, ◌≢◌, refl, Option, none, some, List, [], ◌∷◌, ok, wrap,
  All, eq-false_of_ne,
}
use llm_agent_flow.V2.Ir.{Flow}
use llm_agent_flow.V2.Errors.{Run}
use llm_agent_flow.V2.Value.{Value}
use llm_agent_flow.V2.Nodes.{NodeRegistry, find_factory, register}
use llm_agent_flow.V2.Engine.{Nodes, EngineConfig, compile}
use llm_agent_flow.Graph.Types.{
  GoType, Reflect, Verdict, fits, deferred, unfit, panics, accepts, assignable,
}
use llm_agent_flow.Graph.Builder.{NodeRef, GraphNode, GraphEdge, Graph}
use llm_agent_flow.Graph.Builder.Typed.{IsFit}
use llm_agent_flow.Graph.Builder.Reaches.{Reaches, Reaches-IsTyped}
use llm_agent_flow.Graph.Compile.{
  GraphCompileError, edge_mismatch, entry_mismatch, exit_mismatch, engine_failed, port_type,
  require, register_nodes, ir_nodes, ir_edges, graph_flow, recheck_edges, compile_graph,
}

-- `fmt.Sprintf` of different numbers gives different texts, none of them empty.
abbrev pub IsNaming : (ℕ → String) → Type 0
IsNaming type_name = ((i : ℕ) → type_name i ≢ "") × ((i j : ℕ) → type_name i ≡ type_name j → i ≡ j)

require-accepts : (v : Verdict) (e : GraphCompileError) → accepts v ≡ true → require v e ≡ ok tt
require-accepts fits e h = refl
require-accepts deferred e h = refl
require-accepts unfit e h = cc
require-accepts panics e h = cc

recheck_edges-IsFit :
    (reflect : Reflect) (by_id : String → Option NodeRef) (es : List GraphEdge)
    → All (IsFit reflect by_id) es
    → recheck_edges reflect by_id es ≡ ok tt
unfolding recheck_edges
recheck_edges-IsFit reflect by_id [] h = refl
recheck_edges-IsFit reflect by_id (e ∷ es) ((from, to, hf, ht, fit), rest) =
    rw
      (
        hf,
        ht,
        require-accepts (assignable reflect from.out_t (port_type to e.to_port)) (edge_mismatch e)
            fit,
      )
      (recheck_edges-IsFit reflect by_id es rest)

-- No synthetic type from `i` on is taken.
abbrev IsFree : (ℕ → String) → ℕ → NodeRegistry → Type 0
IsFree type_name i reg = (j : ℕ) → i ≤ j → find_factory (type_name j) reg ≡ none

module _ (type_name : ℕ → String) (naming : IsNaming type_name) where
  register_nodes-ok :
      (i : ℕ) (gns : List GraphNode) (reg : NodeRegistry)
      → IsFree type_name i reg
      → (r : NodeRegistry) × (register_nodes type_name i gns reg ≡ ok r)
  unfolding register_nodes register find_factory
  register_nodes-ok i [] reg free = (reg, refl)
  register_nodes-ok i (gn ∷ gns) reg free =
      let (r, done) =
        register_nodes-ok (i + 1) gns ((type_name i, λ _. ok gn.kind) ∷ reg) (λ j above.
          rw
            (eq-false_of_ne (type_name i) (type_name j)
              (λ same. absurd (omega (arith, naming.1 i j same))))
            (free j (omega arith))) in
      (r, rw (eq-false_of_ne (type_name i) "" (naming.0 i), free i (omega arith)) done)

  module _ (reflect : Reflect) (type_of : Value → Option GoType) (flow_hash : Flow → Run String)
      (struct_hash : Flow → Nodes → Run String) where
    -- `Compile` of a graph that calls of the builder made, each with references that the graph gave
    -- out: when no call left an error and both the entry and the exit are set, the second check of
    -- the types and the registration of the nodes succeed, and what `Compile` returns is what the
    -- compilation of the graph's flow returns with the registered nodes. The synthetic node types
    -- are different texts, none of them empty.
    pub compile_graph-Reaches :
        (g : Graph) (entry exit : NodeRef) (cfg : EngineConfig)
        → Reaches reflect type_of g
        → g.latched_err ≡ none
        → g.entry ≡ some entry
        → g.exit ≡ some exit
        → (reg : NodeRegistry) × (register_nodes type_name 0 g.nodes [] ≡ ok reg)
          × (compile_graph reflect type_name flow_hash struct_hash g cfg
              ≡ wrap engine_failed (
                  compile flow_hash struct_hash
                    (graph_flow (ir_nodes type_name 0 g.nodes) (ir_edges g.edges) entry.id exit.id)
                    (some reg)
                    cfg))
    unfolding compile_graph
    compile_graph-Reaches g entry exit cfg reached clean has_entry has_exit =
        let typed = Reaches-IsTyped reflect type_of g reached in
        let (reg, registered) = register_nodes-ok 0 g.nodes [] (λ j above. refl) in
        (
          reg,
          registered,
          rw
              (
                clean,
                has_entry,
                has_exit,
                recheck_edges-IsFit reflect g.by_id g.edges typed.edges_fit,
                require-accepts (assignable reflect (some g.in_t) entry.in_t)
                    (entry_mismatch entry.id) (typed.entry_fits entry has_entry).1,
                require-accepts (assignable reflect exit.out_t (some g.out_t))
                    (exit_mismatch exit.id) (typed.exit_fits exit has_exit).1,
                registered,
              )
              refl,
        )
