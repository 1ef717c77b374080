-- ===== src/Graph/Chain/Visits.antt =====
-- A graph with a linear pipeline is a chain of all its nodes.
use llm_agent_flow.Base.{
  ◌+◌, ◌<◌, arith, String, Bool, true, ◌≡◌, refl, sym, ap, subst, ◌∙◌, inl, inr, Option, some, List,
  [], ◌∷◌, map, length, count, ok, ok-injective, >>=-eq-ok, count-eq_of_length, eq_iff, ◌==◌,
  Bool-cases, Option-cases,
}
use llm_agent_flow.V2.Layers.Order.{IsNodup}
use llm_agent_flow.Graph.Types.{GoType}
use llm_agent_flow.Graph.Builder.{GraphNode, GraphEdge, Graph}
use llm_agent_flow.Graph.Chain.{
  ends_at, linear_order, find_node, PipelineNode, pipeline_node, chain_nodes, check_folders,
  build_linear_pipeline,
}
use llm_agent_flow.Graph.Chain.Ordered.{linear_order-IsChain}
use llm_agent_flow.Graph.Chain.Walks.{HasEdge, IsChain}

abbrev pub graph_node_ids : List GraphNode → List String
graph_node_ids = map (λ n. n.ref.id)

-- The ids of a pipeline, in its order.
abbrev pub pipeline_ids : List PipelineNode → List String
pipeline_ids = map (λ n. n.id)

-- From one node to the next along edges, up to the exit.
abbrev pub IsRoute : List GraphEdge → String → List String → Type 0
IsRoute es exit [] = ⊥
IsRoute es exit (x ∷ []) = x ≡ exit
IsRoute es exit (x ∷ y ∷ rest) = HasEdge es x y × IsRoute es exit (y ∷ rest)

abbrev pub StartsAt : String → List String → Type 0
StartsAt entry [] = ⊥
StartsAt entry (x ∷ _) = x ≡ entry

some-injective : {A : Type 0} {a b : A} → ◌≡◌ {A = Option A} (some a) (some b) → a ≡ b
some-injective h = cc

find_node-id :
    (id : String) (ns : List GraphNode) (n : GraphNode)
    → find_node id ns ≡ some n
    → (n.ref.id ≡ id) × (0 < count id (graph_node_ids ns))
unfolding find_node
find_node-id id [] n h = absurd (ground arith)
find_node-id id (m ∷ ns) n h = elim (Option-cases (find_node id ns)) [
  | inr (k, later) ↦
      let same : k ≡ n = some-injective (rw (find_node, later) at h) in
      let (found, there) = find_node-id id ns k later in
      (subst (λ (o : GraphNode). o.ref.id ≡ id) same found, omega (arith, there))
  | inl last ↦ elim (Bool-cases (m.ref.id == id)) [
    | inl e ↦
        let same : m ≡ n = some-injective (rw (find_node, last, e) at h) in
        (
          subst (λ (o : GraphNode). o.ref.id ≡ id) same ((eq_iff m.ref.id id).0 e),
          ground (arith, e),
        )
    | inr e ↦ let bad = rw (find_node, last, e) at h in absurd (ground arith)
  ]
]

abbrev Ends : List GraphEdge → String → String → List PipelineNode → Type 0
Ends es entry exit nodes =
    StartsAt entry (pipeline_ids nodes) × IsRoute es exit (pipeline_ids nodes)

-- One step of the loop.
chain_nodes-step :
    (ns : List GraphNode) (x : String) (rest : List String) (done nodes : List PipelineNode)
    → chain_nodes ns (x ∷ rest) done ≡ ok nodes
    → (n : GraphNode) × (n.ref.id ≡ x)
      × (0 < count x (graph_node_ids ns))
      × (chain_nodes ns rest (pipeline_node n ∷ done) ≡ ok nodes)
unfolding chain_nodes
chain_nodes-step ns x rest done nodes h = elim (Option-cases (find_node x ns)) [
  | inl missing ↦ let bad = rw (chain_nodes, missing) at h in absurd (ground arith)
  | inr (n, found) ↦
      let (same, there) = find_node-id x ns n found in
      (n, same, there, rw (chain_nodes, found) at h)
]

-- The adapters are those of the chain, now the entry first.
chain_nodes-Ends :
    (es : List GraphEdge) (entry exit : String) (ns : List GraphNode) (x : String)
    (rest : List String) (done nodes : List PipelineNode)
    → IsChain es entry (x ∷ rest)
    → IsRoute es exit (x ∷ pipeline_ids done)
    → chain_nodes ns (x ∷ rest) done ≡ ok nodes
    → Ends es entry exit nodes
unfolding chain_nodes
chain_nodes-Ends es entry exit ns x [] done nodes chain route h =
    let (n, same, there, returned) = chain_nodes-step ns x [] done nodes h in
    subst (Ends es entry exit) (returned_as n returned)
      (same ∙ chain, subst (λ y. IsRoute es exit (y ∷ pipeline_ids done)) (sym same) route)
  where
    returned_as :
        (n : GraphNode)
        → chain_nodes ns [] (pipeline_node n ∷ done) ≡ ok nodes
        → pipeline_node n ∷ done ≡ nodes
    returned_as n e = ok-injective e
chain_nodes-Ends es entry exit ns x (y ∷ rest) done nodes (joined, chain) route h =
    let (n, same, there, returned) = chain_nodes-step ns x (y ∷ rest) done nodes h in
    chain_nodes-Ends es entry exit ns y rest (pipeline_node n ∷ done) nodes chain
      (subst (λ z. IsRoute es exit (y ∷ z ∷ pipeline_ids done)) (sym same) (joined, route)) returned

chain_nodes-count :
    (ns : List GraphNode) (order : List String) (done nodes : List PipelineNode) (v : String)
    → chain_nodes ns order done ≡ ok nodes
    → (count v (pipeline_ids nodes) ≡ count v order + count v (pipeline_ids done))
      × (0 < count v order → 0 < count v (graph_node_ids ns))
unfolding chain_nodes
chain_nodes-count ns [] done nodes v h =
    let same : done ≡ nodes = ok-injective h in
    (rw (sym same) (omega arith), λ none_here. absurd (omega arith))
chain_nodes-count ns (x ∷ order) done nodes v h =
    let (n, same, there, returned) = chain_nodes-step ns x order done nodes h in
    let (counted, known) = chain_nodes-count ns order (pipeline_node n ∷ done) nodes v returned in
    let alike : (n.ref.id == v) ≡ (x == v) = ap (λ y. y == v) same in
    (
      ground (arith, counted, alike),
      λ here. elim (Bool-cases (x == v)) [
        | inl e ↦ subst (λ w. 0 < count w (graph_node_ids ns)) ((eq_iff x v).0 e) there
        | inr e ↦ known (ground (arith, e, here))
      ],
    )

length-graph_node_ids : (ns : List GraphNode) → length (graph_node_ids ns) ≡ length ns
length-graph_node_ids [] = refl
length-graph_node_ids (n ∷ ns) = omega (arith, length-graph_node_ids ns)

-- The pipeline is the whole graph.
abbrev Whole : Graph → String → String → List PipelineNode → Type 0
Whole g entry exit nodes =
    StartsAt entry (pipeline_ids nodes)
    × IsRoute g.edges exit (pipeline_ids nodes)
    × ((v : String) → count v (pipeline_ids nodes) ≡ count v (graph_node_ids g.nodes))

chain_nodes-Whole :
    (g : Graph) (entry exit : String) (order : List String) (nodes : List PipelineNode)
    → IsNodup order
    → IsChain g.edges entry order
    → length order ≡ length g.nodes
    → ends_at order exit ≡ true
    → chain_nodes g.nodes order [] ≡ ok nodes
    → Whole g entry exit nodes
chain_nodes-Whole g entry exit [] nodes once chain all at_exit h = absurd chain
chain_nodes-Whole g entry exit (x ∷ rest) nodes once chain all at_exit h =
    let (starts, route) =
      chain_nodes-Ends g.edges entry exit g.nodes x rest [] nodes chain ((eq_iff x exit).0 at_exit)
        h in
    let same =
      count-eq_of_length (x ∷ rest) (graph_node_ids g.nodes)
        (λ v. ground (arith, once v, chain_nodes-count g.nodes (x ∷ rest) [] nodes v h))
        (all ∙ sym (length-graph_node_ids g.nodes)) in
    (
      starts,
      route,
      λ v. omega (arith, same v, (chain_nodes-count g.nodes (x ∷ rest) [] nodes v h).0),
    )

module _ (has_folder : Option GoType → Bool) where
  -- A graph for which a linear pipeline is built is a chain: the pipeline starts at the entry and
  -- ends at the exit, an edge from "out" to "in" joins each of its nodes to the next, and it has each
  -- node of the graph exactly as often as the graph has it.
  pub build_linear_pipeline_visits :
      (g : Graph) (entry exit : String) (nodes : List PipelineNode)
      → build_linear_pipeline has_folder g entry exit ≡ ok (some nodes)
      → StartsAt entry (pipeline_ids nodes)
        × IsRoute g.edges exit (pipeline_ids nodes)
        × ((v : String) → count v (pipeline_ids nodes) ≡ count v (graph_node_ids g.nodes))
  unfolding build_linear_pipeline
  build_linear_pipeline_visits g entry exit nodes h =
      elim (Option-cases (linear_order g entry exit)) [
        | inl off ↦ let bad = rw (build_linear_pipeline, off) at h in absurd (ground arith)
        | inr (order, found) ↦
            let (once, chain, all, at_exit) = linear_order-IsChain g entry exit order found in
            let (built, made, after) =
              >>=-eq-ok (chain_nodes g.nodes order []) _ (rw (build_linear_pipeline, found) at h) in
            let (u, checked, returned) =
              >>=-eq-ok (check_folders has_folder g.out_t built) _ after in
            let same : built ≡ nodes = some-injective (ok-injective returned) in
            subst (Whole g entry exit) same
              (chain_nodes-Whole g entry exit order built once chain all at_exit made)
      ]
