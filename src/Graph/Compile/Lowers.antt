-- ===== src/Graph/Compile/Lowers.antt =====
-- What the lowered flow of a graph has in common with the flow that `Compile` runs.
use llm_agent_flow.Base.{
  ℕ, arith, String, ◌≡◌, refl, sym, ap, ◌∙◌, ◌⊎◌, inl, inr, Option, none, some, List, [], ◌∷◌,
  Result, ok, err, ok-injective, wrap, >>=-eq-ok, if◌then◌else◌, Bool-cases, subst,
}
use llm_agent_flow.V2.Ir.{Flow}
use llm_agent_flow.V2.Arcs.{arcs, node_ids}
use llm_agent_flow.V2.Errors.{Run}
use llm_agent_flow.V2.Value.{Value}
use llm_agent_flow.V2.Nodes.{NodeRegistry}
use llm_agent_flow.V2.Layers.{layers}
use llm_agent_flow.V2.Validate.{validate}
use llm_agent_flow.V2.Engine.{
  GuardedEdge, Nodes, Engine, EngineConfig, build_nodes, compile_edges, hash_failed,
  check_interrupts, or_residual, guard_valid, compile,
}
use llm_agent_flow.Graph.Types.{GoType, Reflect}
use llm_agent_flow.Graph.Builder.{NodeRef, Graph}
use llm_agent_flow.Graph.Builder.Reaches.{Reaches, Reaches-IsTyped}
use llm_agent_flow.Graph.Compile.Passes.{IsNaming, compile_graph-Reaches}
use llm_agent_flow.Graph.Compile.Shape.{
  IsQuiet, unserializable-none, ids-lowered, validate-lowered, build_nodes-lowered,
  check_interrupts-IsQuiet,
}
use llm_agent_flow.Graph.Compile.{
  engine_failed, ir_nodes, ir_edges, graph_flow, compile_graph, unserializable, lowered_nodes,
  lower, new_builtin_registry,
}

wrap-ok : {E F A : Type 0} (f : E → F) (m : Result E A) {a : A} → wrap f m ≡ ok a → m ≡ ok a
wrap-ok f (ok b) h = cc
wrap-ok f (err e) h = cc

lower-ok :
    (g : Graph) (entry exit : NodeRef) {f : Flow}
    → lower g entry exit ≡ ok f
    → (unserializable g g.nodes ≡ [])
      × (graph_flow (lowered_nodes g g.nodes) (ir_edges g.edges) entry.id exit.id ≡ f)
unfolding lower
lower-ok g entry exit {f} h = elim (List-cases (unserializable g g.nodes)) [
  | inl e ↦ (e, ok-injective (rw (lower, e) at h))
  | inr (x, xs, e) ↦ let bad = rw (lower, e) at h in absurd (ground arith)
]
  where
    List-cases :
        (xs : List (String × String))
        → (xs ≡ []) ⊎ ((x : String × String) × (rest : List (String × String)) × (xs ≡ x ∷ rest))
    List-cases [] = inl refl
    List-cases (x ∷ rest) = inr (x, rest, refl)

module _ (flow_hash : Flow → Run String) (struct_hash : Flow → Nodes → Run String) where
  -- The parts of a successful compilation.
  compile-parts :
      (f : Flow) (reg : NodeRegistry) (cfg : EngineConfig) (e : Engine)
      → compile flow_hash struct_hash f (some reg) cfg ≡ ok e
      → (guard_valid (validate f) ≡ ok tt)
        × (compile_edges cfg.cond_eval 0 f.edges ≡ ok e.edges)
        × (or_residual (layers (node_ids f) (arcs f)) ≡ ok e.layers)
  unfolding compile
  compile-parts f reg cfg e h =
      let (u, valid, after_valid) = >>=-eq-ok (guard_valid (validate f)) _ h in
      let (nodes, _, after_nodes) = >>=-eq-ok (build_nodes reg f.nodes (λ _. none)) _ after_valid in
      let (edges, guarded, after_edges) =
        >>=-eq-ok (compile_edges cfg.cond_eval 0 f.edges) _ after_nodes in
      let (ls, layered, after_layers) =
        >>=-eq-ok (or_residual (layers (node_ids f) (arcs f))) _ after_edges in
      let (fh, _, after_fh) = >>=-eq-ok (wrap hash_failed (flow_hash f)) _ after_layers in
      let (sh, _, after_sh) = >>=-eq-ok (wrap hash_failed (struct_hash f nodes)) _ after_fh in
      let (_, _, returned) =
        >>=-eq-ok (if cfg.has_store then check_interrupts nodes 0 ls else ok tt) _ after_sh in
      let same = ok-injective returned in
      (
        valid,
        guarded ∙ ap (λ (x : Engine). ok x.edges) same,
        layered ∙ ap (λ (x : Engine). ok x.layers) same,
      )

  -- A compilation whose parts succeed, where no node may interrupt.
  compile-of_parts :
      (f : Flow) (reg : NodeRegistry) (cfg : EngineConfig) (nodes : Nodes)
      (edges : List GuardedEdge) (ls : List (List String)) (fh sh : String)
      → guard_valid (validate f) ≡ ok tt
      → build_nodes reg f.nodes (λ _. none) ≡ ok nodes
      → compile_edges cfg.cond_eval 0 f.edges ≡ ok edges
      → or_residual (layers (node_ids f) (arcs f)) ≡ ok ls
      → flow_hash f ≡ ok fh
      → struct_hash f nodes ≡ ok sh
      → IsQuiet nodes
      → (e : Engine) × (compile flow_hash struct_hash f (some reg) cfg ≡ ok e)
        × (e.layers ≡ ls)
        × (e.edges ≡ edges)
  unfolding compile
  compile-of_parts f reg cfg nodes edges ls fh sh valid built guarded layered hf hs quiet =
      let quiet_layers = check_interrupts-IsQuiet nodes 0 ls quiet in
      let passes : (if cfg.has_store then check_interrupts nodes 0 ls else ok tt) ≡ ok tt =
        elim (Bool-cases cfg.has_store) [ inl e ↦ rw e quiet_layers | inr e ↦ rw e refl ] in
      (
        record {
          flow = f;
          nodes = nodes;
          layers = ls;
          edges = edges;
          max_node_concurrency = cfg.max_node_concurrency;
          has_store = cfg.has_store;
          flow_hash = fh;
          struct_hash = sh;
        },
        rw (valid, built, guarded, layered, hf, hs, passes) refl,
        refl,
        refl,
      )

  module _ (reflect : Reflect) (type_of : Value → Option GoType) (type_name : ℕ → String)
      (naming : IsNaming type_name) where
    -- A graph that calls of the builder made and that `Compile` accepts, and whose every node has a
    -- serializable form: its lowered flow compiles against the built-in registry, to an engine with
    -- the same layers and edges, when the hash of the lowered flow, and the hash of its structure
    -- with the nodes that the registry builds, can be computed.
    pub lower-compiles :
        (g : Graph) (entry exit : NodeRef) (cfg : EngineConfig) (engine : Engine) (lowered : Flow)
        (fh sh : String)
        → Reaches reflect type_of g
        → g.latched_err ≡ none
        → g.entry ≡ some entry
        → g.exit ≡ some exit
        → compile_graph reflect type_name flow_hash struct_hash g cfg ≡ ok engine
        → lower g entry exit ≡ ok lowered
        → flow_hash lowered ≡ ok fh
        → ((nodes : Nodes)
            → build_nodes new_builtin_registry lowered.nodes (λ _. none) ≡ ok nodes
            → struct_hash lowered nodes ≡ ok sh)
        → (rebuilt : Engine) × (compile flow_hash struct_hash lowered
              (some new_builtin_registry)
              cfg
            ≡ ok rebuilt)
          × (rebuilt.layers ≡ engine.layers)
          × (rebuilt.edges ≡ engine.edges)
    unfolding graph_flow lowered_nodes
    lower-compiles g entry exit cfg engine lowered fh sh reached clean has_entry has_exit compiled
          low hf hs =
        let typed = Reaches-IsTyped reflect type_of g reached in
        let (reg, _, same) =
          compile_graph-Reaches type_name naming reflect type_of flow_hash struct_hash g entry exit
            cfg reached clean has_entry has_exit in
        let (valid, guarded, layered) =
          compile-parts
            (graph_flow (ir_nodes type_name 0 g.nodes) (ir_edges g.edges) entry.id exit.id) reg cfg
            engine (wrap-ok engine_failed _ (sym same ∙ compiled)) in
        let (all, is_lowered) = lower-ok g entry exit low in
        let form = unserializable-none g g.nodes typed.builtin all in
        let (built, built_ok, quiet) =
          build_nodes-lowered g g.nodes (λ _. none) form (λ id. refl) in
        subst
          (λ f.
            flow_hash f ≡ ok fh
            → ((nodes : Nodes)
                → build_nodes new_builtin_registry f.nodes (λ _. none) ≡ ok nodes
                → struct_hash f nodes ≡ ok sh)
            → (rebuilt : Engine) × (compile flow_hash struct_hash f (some new_builtin_registry) cfg
                ≡ ok rebuilt)
              × (rebuilt.layers ≡ engine.layers)
              × (rebuilt.edges ≡ engine.edges))
          is_lowered
          (λ hf hs.
            compile-of_parts
              (graph_flow (lowered_nodes g g.nodes) (ir_edges g.edges) entry.id exit.id)
              new_builtin_registry cfg built engine.edges engine.layers fh sh
              (ap guard_valid (
                  validate-lowered type_name naming g g.nodes (ir_edges g.edges) entry.id exit.id
                    form)
                ∙ valid)
              built_ok guarded (rw (ids-lowered type_name naming g g.nodes 0) layered) hf
              (hs built built_ok) quiet)
          hf hs
