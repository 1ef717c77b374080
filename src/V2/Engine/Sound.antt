-- ===== src/V2/Engine/Sound.antt =====
-- What `Compile` guarantees of an engine, and that the error for a residual cycle never occurs.
use llm_agent_flow.Base.{
  >>=-ne-err, >>=-on-ok, if◌then◌else◌, ℕ, ◌+◌, ◌≤◌, String, ◌≡◌, ◌≢◌, refl, subst, Bool, true,
  Option, none, some, List, [], ◌∷◌, inl, inr, Result-cases, ok, err, ok-injective, wrap, arith,
  All, count, flatten,
}
use llm_agent_flow.V2.Ir.{Node, Edge, Flow}
use llm_agent_flow.V2.Arcs.{arcs, node_ids}
use llm_agent_flow.V2.Layers.{layers}
use llm_agent_flow.V2.Layers.Order.{Respects, layers-Settled}
use llm_agent_flow.V2.Layers.Total.{layers_partition}
use llm_agent_flow.V2.Cycle.Decides.{found, absent, find_cycle_decides}
use llm_agent_flow.V2.Cycle.Rank.{layers_after_search}
use llm_agent_flow.V2.Errors.{Run}
use llm_agent_flow.V2.Nodes.{NodeRegistry, build}
use llm_agent_flow.V2.Validate.{ValidateError, validate}
use llm_agent_flow.V2.Validate.Accepts.{IsWellFormed, validate-IsWellFormed, arcs-IsClosed}
use llm_agent_flow.V2.Engine.{
  GuardedEdge, ConditionEvaluator, compile_guard, Nodes, Engine, EngineConfig, residual_cycle,
  hash_failed, build_nodes, compile_edges, or_residual, guard_valid, count_interrupts,
  check_interrupts, compile,
}

layers_of_valid :
    (f : Flow)
    → validate f ≡ none
    → (ls : List (List String)) × (layers (node_ids f) (arcs f) ≡ some ls)
layers_of_valid f accepted =
    let wf = validate-IsWellFormed f accepted in
    let closed = arcs-IsClosed f wf.edges wf.mappings in
    elim (find_cycle_decides (node_ids f) (arcs f) closed) [
      | found c e n listed w ↦ absurd (wf.acyclic w)
      | absent s e n ↦ layers_after_search (node_ids f) (arcs f) closed s wf.once e
    ]

-- An engine's promise. A store needs at most one node in a layer that can interrupt.
pub record IsCompiled (f : Flow) (cfg : EngineConfig) (e : Engine) : Type 0 where
  pub flow : e.flow ≡ f
  pub well_formed : IsWellFormed f
  pub ordered : Respects (arcs f) [] e.layers
  pub complete : (v : String) → count v (flatten e.layers) ≡ count v (node_ids f)
  pub single : cfg.has_store ≡ true → All (λ layer. count_interrupts e.nodes layer ≤ 1) e.layers

check_interrupts-ok :
    (nodes : Nodes) (i : ℕ) (ls : List (List String)) {u : Unit {0}}
    → check_interrupts nodes i ls ≡ ok u
    → All (λ layer. count_interrupts nodes layer ≤ 1) ls
unfolding check_interrupts
check_interrupts-ok nodes i [] h = tt
check_interrupts-ok nodes i (layer ∷ ls) h = ground (arith, check_interrupts-ok nodes (i + 1) ls)

or_residual-ok :
    (o : Option (List (List String))) {ls : List (List String)}
    → or_residual o ≡ ok ls
    → o ≡ some ls
or_residual-ok o h = ground arith

IsCompiled-of :
    (f : Flow) (cfg : EngineConfig)
    → validate f ≡ none
    → (ls : List (List String)) (nodes : Nodes) → layers (node_ids f) (arcs f) ≡ some ls
    → (cfg.has_store ≡ true → All (λ layer. count_interrupts nodes layer ≤ 1) ls)
    → (edges : List GuardedEdge) (fh sh : String)
    → IsCompiled f cfg (record {
      flow = f;
      nodes = nodes;
      layers = ls;
      edges = edges;
      max_node_concurrency = cfg.max_node_concurrency;
      has_store = cfg.has_store;
      flow_hash = fh;
      struct_hash = sh;
    })
IsCompiled-of f cfg accepted ls nodes layered single edges fh sh =
    let wf = validate-IsWellFormed f accepted in
    let closed = arcs-IsClosed f wf.edges wf.mappings in
    record {
      flow = refl;
      well_formed = wf;
      ordered = (layers-Settled (node_ids f) (arcs f) wf.once layered).0;
      complete = λ v. layers_partition (node_ids f) (arcs f) wf.once closed ls v layered;
      single = single;
    }

build_nodes-ne :
    (reg : NodeRegistry) (ns : List Node) (nodes : Nodes)
    → build_nodes reg ns nodes ≢ err residual_cycle
unfolding build_nodes
build_nodes-ne reg [] nodes h = ground arith
build_nodes-ne reg (n ∷ ns) nodes h = elim (Result-cases (build reg n)) [
  | inl done ↦ build_nodes-ne reg ns _ (rw done.1 at h)
  | inr stop ↦ absurd (ground (arith, stop.1))
]

compile_guard-ne :
    (eval : Option ConditionEvaluator) (i : ℕ) (e : Edge)
    → compile_guard eval i e ≢ err residual_cycle
unfolding compile_guard
compile_guard-ne none i e h = ground arith
compile_guard-ne (some c) i e h = ground arith

compile_edges-ne :
    (eval : Option ConditionEvaluator) (i : ℕ) (es : List Edge)
    → compile_edges eval i es ≢ err residual_cycle
unfolding compile_edges
compile_edges-ne eval i [] h = ground arith
compile_edges-ne eval i (e ∷ es) h =
    ground (arith, compile_guard-ne eval i e, compile_edges-ne eval (i + 1) es)

check_interrupts-ne :
    (nodes : Nodes) (i : ℕ) (ls : List (List String))
    → check_interrupts nodes i ls ≢ err residual_cycle
unfolding check_interrupts
check_interrupts-ne nodes i [] h = ground arith
check_interrupts-ne nodes i (layer ∷ ls) h = ground (arith, check_interrupts-ne nodes (i + 1) ls)

guard_valid-ok : (o : Option ValidateError) {u : Unit {0}} → guard_valid o ≡ ok u → o ≡ none
guard_valid-ok o h = ground arith

guard_valid-ne : (o : Option ValidateError) → guard_valid o ≢ err residual_cycle
guard_valid-ne o h = ground arith

wrap_hash-ne : (m : Run String) → wrap hash_failed m ≢ err residual_cycle
wrap_hash-ne m h = ground arith

guarded_check-ne :
    (b : Bool) (nodes : Nodes) (ls : List (List String))
    → (if b then check_interrupts nodes 0 ls else ok tt) ≢ err residual_cycle
guarded_check-ne b nodes ls h = ground (arith, check_interrupts-ne nodes 0 ls)

module _ (flow_hash : Flow → Run String) (struct_hash : Flow → Nodes → Run String) where
  -- A compiled engine runs the given flow, which is well formed; each node stands in one layer, after
  -- all its predecessors; and with a checkpoint store no layer has two nodes that can interrupt.
  pub compile-IsCompiled :
      (f : Flow) (reg : NodeRegistry) (cfg : EngineConfig) (e : Engine)
      → compile flow_hash struct_hash f (some reg) cfg ≡ ok e
      → IsCompiled f cfg e
  unfolding compile
  compile-IsCompiled f reg cfg = >>=-on-ok (guard_valid (validate f)) _ (λ _ g.
      let accepted = guard_valid-ok (validate f) g in
      >>=-on-ok (build_nodes reg f.nodes (λ _. none)) _ (λ nodes _.
        >>=-on-ok (compile_edges cfg.cond_eval 0 f.edges) _ (λ edges _.
          >>=-on-ok (or_residual (layers (node_ids f) (arcs f))) _ (λ ls layered.
            >>=-on-ok (wrap hash_failed (flow_hash f)) _ (λ fh _.
              >>=-on-ok (wrap hash_failed (struct_hash f nodes)) _ (λ sh _.
                >>=-on-ok (if cfg.has_store then check_interrupts nodes 0 ls else ok tt) _
                  (λ u checked e h.
                    subst (λ e. IsCompiled f cfg e) (ok-injective h)
                      (IsCompiled-of f cfg accepted ls nodes
                        (or_residual-ok (layers (node_ids f) (arcs f)) layered)
                        (λ s. check_interrupts-ok nodes 0 ls (rw s at checked)) edges fh sh))))))))

  -- Whatever the registry, the configuration and the hashes are: after a validation that accepts the
  -- flow, the layering places every node, and the compilation does not fail with a residual cycle.
  pub compile-ne_residual_cycle :
      (f : Flow) (reg : Option NodeRegistry) (cfg : EngineConfig)
      → compile flow_hash struct_hash f reg cfg ≢ err residual_cycle
  unfolding compile
  compile-ne_residual_cycle f none cfg = λ h. cc
  compile-ne_residual_cycle f (some reg) cfg =
      >>=-ne-err (guard_valid (validate f)) _ (λ h. guard_valid-ne (validate f) h)
        (λ _ g.
          let (ls, layered) = layers_of_valid f (guard_valid-ok (validate f) g) in
          >>=-ne-err (build_nodes reg f.nodes (λ _. none)) _
            (build_nodes-ne reg f.nodes (λ _. none))
            (λ nodes _.
              >>=-ne-err (compile_edges cfg.cond_eval 0 f.edges) _
                (compile_edges-ne cfg.cond_eval 0 f.edges)
                (λ edges _.
                  >>=-ne-err (or_residual (layers (node_ids f) (arcs f))) _ (λ h. cc)
                    (λ ls' _.
                      >>=-ne-err (wrap hash_failed (flow_hash f)) _ (wrap_hash-ne (flow_hash f))
                        (λ fh _.
                          >>=-ne-err (wrap hash_failed (struct_hash f nodes)) _
                            (wrap_hash-ne (struct_hash f nodes))
                            (λ sh _.
                              >>=-ne-err
                                (if cfg.has_store then check_interrupts nodes 0 ls' else ok tt) _
                                (guarded_check-ne cfg.has_store nodes ls') (λ _ _ h. cc)))))))
