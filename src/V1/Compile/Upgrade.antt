-- ===== src/V1/Compile/Upgrade.antt =====
-- A flow of the first version compiles as the same flow does in the second one.
use mathlib.Core.List.{append-nil}
use llm_agent_flow.Base.{
  ℕ, String, false, ◌≡◌, refl, ap, ◌∙◌, Option, none, some, List, [], ◌∷◌, ◌++◌, map, Result, ok,
  err, ◌>>=◌, Result-cases, inl, inr, update, fun_ext, ◌==◌, Bool-cases,
}
use llm_agent_flow.V2.Ir.{Node}
use llm_agent_flow.V2.Ir.{Flow as FlowV2}
use llm_agent_flow.V2.Arcs.{edge_arcs, arcs}
use llm_agent_flow.V2.Errors.{Run, RunError}
use llm_agent_flow.V2.Value.{Value, str}
use llm_agent_flow.V2.Nodes.{
  NodeKind, NodeOutcome, NodeRegistry, finished, failed, find_factory, build,
}
use llm_agent_flow.V2.Cycle.{find_cycle}
use llm_agent_flow.V2.Layers.{layers}
use llm_agent_flow.V2.Validate.{
  empty_flow, issues, all_issues, validate, check_mappings, check_nodes, check_edges, check_refs,
  cycle_issues, input_not_found, output_not_found,
}
use llm_agent_flow.V2.Engine.{
  Nodes, Engine, ConditionEvaluator, build_nodes, compile_edges, or_residual, guard_valid, compile,
}
use llm_agent_flow.V1.Ir.{Flow}
use llm_agent_flow.V1.Validate.{flow_node_ids, flow_arcs, flow_issues, validate as validate_flow}
use llm_agent_flow.V1.Compile.{
  StringNode, Factories, find_string_factory, build_string_node, StringNodes, FlowEngine,
  build_string_nodes, compile_flow,
}

-- The flow without mappings.
abbrev pub upgrade : Flow → FlowV2
upgrade f = record {
  id = f.id;
  name = f.name;
  description = f.description;
  nodes = f.nodes;
  edges = f.edges;
  mappings = [];
  inputs = f.inputs;
  outputs = f.outputs;
}

arcs-upgrade : (f : Flow) → arcs (upgrade f) ≡ flow_arcs f
arcs-upgrade f = append-nil (edge_arcs f.edges)

all_issues-upgrade : (f : Flow) → all_issues (upgrade f) ≡ flow_issues f
unfolding all_issues flow_issues check_mappings
all_issues-upgrade f =
    let (faults, ids) = check_nodes 0 [] f.nodes in
    let before =
      faults
      ++ check_edges ids [] 0 f.edges
      ++ check_refs input_not_found ids 0 f.inputs
      ++ check_refs output_not_found ids 0 f.outputs in
    ap (λ xs. xs ++ cycle_issues (find_cycle (flow_node_ids f) (arcs (upgrade f))))
      (append-nil before)
    ∙ ap (λ joins. before ++ cycle_issues (find_cycle (flow_node_ids f) joins)) (arcs-upgrade f)

validate-upgrade : (f : Flow) → validate (upgrade f) ≡ validate_flow f
unfolding validate validate_flow
validate-upgrade f =
    ap
      (λ xs. elim f.nodes [
        | [] ↦ some empty_flow
        | _ ∷ _ ↦ elim xs [ [] ↦ none | x ∷ rest ↦ some (issues (x ∷ rest)) ]
      ])
      (all_issues-upgrade f)

-- A value that a node of the first version reads; its edges carry only texts.
abbrev pub text_of : Option Value → Option String
text_of (some (str s)) = some s
text_of _ = none

abbrev pub outcome_of : Result RunError (List (String × String)) → NodeOutcome
outcome_of (ok out) = finished (map (λ p. (p.0, str p.1)) out)
outcome_of (err e) = failed e

-- A node of the first version as one of the second.
abbrev pub upgrade_node : StringNode → NodeKind
upgrade_node n = record {
  inputs = n.inputs;
  outputs = n.outputs;
  can_interrupt = none;
  run = λ state ports. (outcome_of (n.run (λ p. text_of (ports p))).0, none);
}

abbrev pub map_ok {ℓ κ} : {E : Type 0} {A : Type ℓ} {B : Type κ} → (A → B) → Result E A → Result E B
map_ok f (ok a) = ok (f a)
map_ok f (err e) = err e

-- A chain whose later parts agree up to a function.
map_ok->>= {ℓ κ μ} :
    {E : Type 0} {A : Type ℓ} {B : Type κ} {C : Type μ} (m : Result E A) (f : A → Result E C)
    (g : A → Result E B) (h : B → C)
    → ((a : A) → m ≡ ok a → f a ≡ map_ok h (g a))
    → (m >>= f) ≡ map_ok h (m >>= g)
map_ok->>= (ok a) f g h same = same a refl
map_ok->>= (err e) f g h same = refl

>>=-map_ok {ℓ κ μ ν} :
    {E : Type 0} {A : Type ℓ} {D : Type ν} {B : Type κ} {C : Type μ} (m : Result E A) (k : A → D)
    (f : D → Result E C) (g : A → Result E B) (h : B → C)
    → ((a : A) → m ≡ ok a → f (k a) ≡ map_ok h (g a))
    → (map_ok k m >>= f) ≡ map_ok h (m >>= g)
>>=-map_ok (ok a) k f g h same = same a refl
>>=-map_ok (err e) k f g h same = refl

abbrev pub upgrade_registry : Factories → NodeRegistry
upgrade_registry = map (λ p. (p.0, λ config. map_ok upgrade_node (p.1 config)))

abbrev pub upgrade_kind : Option StringNode → Option NodeKind
upgrade_kind none = none
upgrade_kind (some n) = some (upgrade_node n)

abbrev pub upgrade_nodes : StringNodes → Nodes
upgrade_nodes nodes id = upgrade_kind (nodes id)

build-upgrade :
    (r : Factories) (n : Node)
    → build (upgrade_registry r) n ≡ map_ok upgrade_node (build_string_node r n)
unfolding build build_string_node find_factory find_string_factory
build-upgrade [] n = refl
build-upgrade ((t, fac) ∷ r) n = elim (Bool-cases (t == n.type)) [
  | inl e ↦
      rw (build, build_string_node, e)
        (elim (Result-cases (fac n.config)) [
          | inl (kind, built) ↦ rw built refl
          | inr (error, stopped) ↦ rw stopped refl
        ])
  | inr e ↦ rw (build, build_string_node, e) (build-upgrade r n)
]

upgrade_nodes-update :
    (nodes : StringNodes) (id : String) (n : StringNode)
    → update (upgrade_nodes nodes) id (some (upgrade_node n))
      ≡ upgrade_nodes (update nodes id (some n))
upgrade_nodes-update nodes id n =
    fun_ext (λ k. elim (Bool-cases (id == k)) [ inl e ↦ rw e refl | inr e ↦ rw e refl ])

build_nodes-upgrade :
    (r : Factories) (ns : List Node) (nodes : StringNodes)
    → build_nodes (upgrade_registry r) ns (upgrade_nodes nodes)
      ≡ map_ok upgrade_nodes (build_string_nodes r ns nodes)
unfolding build_nodes build_string_nodes
build_nodes-upgrade r [] nodes = refl
build_nodes-upgrade r (n ∷ ns) nodes = elim (Result-cases (build_string_node r n)) [
  | inr (e, stopped) ↦ rw (build-upgrade r n, stopped) refl
  | inl (kind, built) ↦
      rw (build-upgrade r n, built, upgrade_nodes-update nodes n.id kind)
        (build_nodes-upgrade r ns (update nodes n.id (some kind)))
]

-- The engine of the second version for the same flow.
abbrev pub upgrade_engine : (fh sh : String) → FlowEngine → Engine
upgrade_engine fh sh e = record {
  flow = upgrade e.flow;
  nodes = upgrade_nodes e.nodes;
  layers = e.layers;
  edges = e.edges;
  max_node_concurrency = e.max_node_concurrency;
  has_store = false;
  flow_hash = fh;
  struct_hash = sh;
}

module _ (flow_hash : FlowV2 → Run String) (struct_hash : FlowV2 → Nodes → Run String)
    (fh sh : String) where
  -- A flow of the first version compiles with the second version, its nodes taken over, as it does with
  -- the first: to the engine with the same nodes, layers and edges, or with the same error. There is no
  -- checkpoint store, and the hash of the flow, and the hash of its structure with the nodes that the
  -- factories build, can be computed.
  pub compile-upgrade :
      (f : Flow) (reg : Option Factories) (max : ℕ) (eval : Option ConditionEvaluator)
      → flow_hash (upgrade f) ≡ ok fh
      → ((r : Factories) (nodes : StringNodes)
          → reg ≡ some r
          → build_string_nodes r f.nodes (λ _. none) ≡ ok nodes
          → struct_hash (upgrade f) (upgrade_nodes nodes) ≡ ok sh)
      → compile flow_hash struct_hash
          (upgrade f)
          (elim reg [ none ↦ none | some r ↦ some (upgrade_registry r) ])
          (record { max_node_concurrency = max; cond_eval = eval; has_store = false })
        ≡ map_ok (upgrade_engine fh sh) (compile_flow f reg max eval)
  unfolding compile compile_flow
  compile-upgrade f none max eval hf hs = refl
  compile-upgrade f (some r) max eval hf hs =
      rw (validate-upgrade f, build_nodes-upgrade r f.nodes (λ _. none), arcs-upgrade f)
        (map_ok->>= (guard_valid (validate_flow f)) _ _ (upgrade_engine fh sh) (λ _ _.
          >>=-map_ok (build_string_nodes r f.nodes (λ _. none)) upgrade_nodes _ _
            (upgrade_engine fh sh)
            (λ nodes built.
              map_ok->>= (compile_edges eval 0 f.edges) _ _ (upgrade_engine fh sh) (λ edges _.
                map_ok->>= (or_residual (layers (flow_node_ids f) (flow_arcs f))) _ _
                  (upgrade_engine fh sh) (λ ls _. rw (hf, hs r nodes refl built) refl)))))
