-- ===== src/V2/Validate/Accepts.antt =====
-- An accepted flow is well formed, and its graph has no cycle.
use llm_agent_flow.Base.{
  String, ◌≡◌, ◌≢◌, none, List, [], ◌∷◌, ◌++◌, map, arith, All, Bool-cases, eq_iff, ◌==◌, inl, inr,
}
use llm_agent_flow.V2.Ir.{Edge, Mapping, Flow}
use llm_agent_flow.V2.Arcs.{Arc, arcs, edge_arcs, mapping_arcs, node_ids}
use llm_agent_flow.V2.Layers.Order.{IsNodup}
use llm_agent_flow.V2.Layers.Total.{IsClosed}
use llm_agent_flow.V2.Cycle.{find_cycle}
use llm_agent_flow.V2.Cycle.Decides.{HasCycle, found, absent, find_cycle_decides}
use llm_agent_flow.V2.Validate.{
  check_nodes, edge_key, check_edges, check_refs, check_mappings, cycle_issues, all_issues,
  validate, input_not_found, output_not_found,
}
use llm_agent_flow.V2.Validate.Loops.{
  append-eq-nil, Known, IsNamed, IsSource, IsEdge, IsRef, IsMapping, NodesOk, check_nodes-NodesOk,
  check_edges-IsEdge, check_refs-IsRef, check_mappings-IsMapping,
}

pub record IsWellFormed (f : Flow) : Type 0 where
  pub nonempty : f.nodes ≢ []
  pub named : All IsNamed f.nodes
  pub once : IsNodup (node_ids f)
  pub edges : All (IsEdge (node_ids f)) f.edges
  pub keys : IsNodup (map edge_key f.edges)
  pub inputs : All (IsRef (node_ids f)) f.inputs
  pub outputs : All (IsRef (node_ids f)) f.outputs
  pub mappings : All (IsMapping (node_ids f)) f.mappings
  pub acyclic : ¬ HasCycle (arcs f)

pub All-impl {ℓ κ μ} :
    {A : Type ℓ} {P : A → Type κ} {Q : A → Type μ}
    → ((a : A) → P a → Q a)
    → (xs : List A) → All P xs
    → All Q xs
All-impl f [] h = tt
All-impl f (x ∷ xs) h = (f x h.0, All-impl f xs h.1)

IsClosed-append :
    (ids : List String) (xs ys : List Arc)
    → IsClosed ids xs
    → IsClosed ids ys
    → IsClosed ids (xs ++ ys)
IsClosed-append ids [] ys h k = k
IsClosed-append ids (x ∷ xs) ys h k = (h.0, IsClosed-append ids xs ys h.1 k)

edge_arcs-IsClosed :
    (ids : List String) (es : List Edge) → All (IsEdge ids) es → IsClosed ids (edge_arcs es)
edge_arcs-IsClosed ids [] h = tt
edge_arcs-IsClosed ids (e ∷ es) h = ((h.0.0, h.0.1), edge_arcs-IsClosed ids es h.1)

mapping_arcs-IsClosed :
    (ids : List String) (ms : List Mapping)
    → All (IsMapping ids) ms
    → IsClosed ids (mapping_arcs ms)
mapping_arcs-IsClosed ids [] h = tt
mapping_arcs-IsClosed ids (m ∷ ms) h = elim (Bool-cases (m.source.node == "")) [
  | inl here ↦ rw here (mapping_arcs-IsClosed ids ms h.1)
  | inr other ↦
      rw other ((ground (arith, eq_iff m.source.node ""), h.0.1), mapping_arcs-IsClosed ids ms h.1)
]

pub arcs-IsClosed :
    (f : Flow)
    → All (IsEdge (node_ids f)) f.edges
    → All (IsMapping (node_ids f)) f.mappings
    → IsClosed (node_ids f) (arcs f)
arcs-IsClosed f e m =
    IsClosed-append (node_ids f) (edge_arcs f.edges) (mapping_arcs f.mappings)
      (edge_arcs-IsClosed (node_ids f) f.edges e) (mapping_arcs-IsClosed (node_ids f) f.mappings m)

pub IsMapping-mono :
    (xs ys : List String) (m : Mapping)
    → ((v : String) → Known xs v → Known ys v)
    → IsMapping xs m
    → IsMapping ys m
IsMapping-mono xs ys m k h = (source h.0, k m.target.node h.1, h.2, h.3, h.4, h.5)
  where
    source : IsSource xs m → IsSource ys m
    source (inl i) = inl i
    source (inr n) = inr (n.0, k m.source.node n.1, n.2)

validate-eq-none : (f : Flow) → validate f ≡ none → (f.nodes ≢ []) × (all_issues f ≡ [])
unfolding validate
validate-eq-none f h = ground arith

acyclic_of_issues :
    (ids : List String) (graph : List Arc)
    → IsClosed ids graph
    → cycle_issues (find_cycle ids graph) ≡ []
    → ¬ HasCycle graph
acyclic_of_issues ids graph c h = elim (find_cycle_decides ids graph c) [
  | found l e n listed w ↦ absurd (ground arith)
  | absent s e none_there ↦ none_there
]

-- What is known of the flow from the first loop, over the set `ids` that it has collected.
module _ (f : Flow) (accepted : validate f ≡ none) where
  abbrev ids : List String
  ids = (check_nodes 0 [] f.nodes).1

  record LoopsOk : Type 0 where
    nodes : (check_nodes 0 [] f.nodes).0 ≡ []
    edges : check_edges ids [] 0 f.edges ≡ []
    inputs : check_refs input_not_found ids 0 f.inputs ≡ []
    outputs : check_refs output_not_found ids 0 f.outputs ≡ []
    mappings : check_mappings ids 0 f.mappings ≡ []
    search : cycle_issues (find_cycle (node_ids f) (arcs f)) ≡ []

  loops_ok : LoopsOk
  unfolding all_issues
  loops_ok =
      let h = (validate-eq-none f accepted).1 in
      let (h, search) = append-eq-nil _ (cycle_issues (find_cycle (node_ids f) (arcs f))) h in
      let (h, mappings) = append-eq-nil _ (check_mappings ids 0 f.mappings) h in
      let (h, outputs) = append-eq-nil _ (check_refs output_not_found ids 0 f.outputs) h in
      let (h, inputs) = append-eq-nil _ (check_refs input_not_found ids 0 f.inputs) h in
      let (nodes, edges) = append-eq-nil _ (check_edges ids [] 0 f.edges) h in
      record {
        nodes = nodes;
        edges = edges;
        inputs = inputs;
        outputs = outputs;
        mappings = mappings;
        search = search;
      }

  nodes_ok : NodesOk [] f.nodes ids
  nodes_ok = check_nodes-NodesOk 0 [] f.nodes loops_ok.nodes

  -- The set holds exactly the ids of the flow.
  known : (v : String) → Known ids v → Known (node_ids f) v
  known v h = omega (arith, nodes_ok.collected v)

  edges_ok : All (IsEdge (node_ids f)) f.edges
  edges_ok =
      All-impl (λ e h. (known e.source.node h.0, known e.target.node h.1, h.2)) f.edges
        (check_edges-IsEdge ids [] 0 f.edges loops_ok.edges).0

  mappings_ok : All (IsMapping (node_ids f)) f.mappings
  mappings_ok =
      All-impl (λ m. IsMapping-mono ids (node_ids f) m known) f.mappings
        (check_mappings-IsMapping ids 0 f.mappings loops_ok.mappings)

  -- A flow that `Validate` accepts is well formed: it has nodes, with distinct ids; every
  -- reference is to one of them; the edges have distinct keys; and the graph of its edges and
  -- mappings has no cycle.
  pub validate-IsWellFormed : IsWellFormed f
  validate-IsWellFormed = record {
    nonempty = (validate-eq-none f accepted).0;
    named = nodes_ok.named;
    once = λ v. omega (arith, nodes_ok.once v);
    edges = edges_ok;
    keys = λ v. omega (arith, (check_edges-IsEdge ids [] 0 f.edges loops_ok.edges).1 v);
    inputs =
        All-impl (λ r. known r.ref.node) f.inputs
          (check_refs-IsRef input_not_found ids 0 f.inputs loops_ok.inputs);
    outputs =
        All-impl (λ r. known r.ref.node) f.outputs
          (check_refs-IsRef output_not_found ids 0 f.outputs loops_ok.outputs);
    mappings = mappings_ok;
    acyclic =
        acyclic_of_issues (node_ids f) (arcs f) (arcs-IsClosed f edges_ok mappings_ok)
          loops_ok.search;
  }
