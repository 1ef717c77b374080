-- ===== src/V2/Validate/Complete.antt =====
-- `Validate` accepts the well-formed flows, and no others.
use llm_agent_flow.Base.{
  ℕ, ◌+◌, ◌≤◌, String, ◌≡◌, ◌≢◌, ◌↔◌, refl, ap, none, not, ◌&&◌, List, [], ◌∷◌, ◌++◌, map, arith,
  All, count, eq_iff, ◌==◌, inl, inr, subst,
}
use llm_agent_flow.V2.Ir.{Node, Edge, Mapping, NamedPortRef, Flow}
use llm_agent_flow.V2.Arcs.{Arc, arcs, node_ids}
use llm_agent_flow.V2.Layers.Total.{IsClosed}
use llm_agent_flow.V2.Cycle.{find_cycle}
use llm_agent_flow.V2.Cycle.Decides.{HasCycle, found, absent, find_cycle_decides}
use llm_agent_flow.V2.Validate.{
  Issue, has, node_issues, add_id, check_nodes, edge_key, edge_issues, check_edges, check_refs,
  source_issues, path_issues, mapping_issues, check_mappings, report, check_id, cycle_issues,
  all_issues, validate, input_not_found, output_not_found, source_path_empty, target_path_empty,
}
use llm_agent_flow.V2.Validate.Loops.{
  has_lem, Known, IsNamed, IsSource, IsEdge, IsRef, IsMapping, check_nodes-NodesOk,
}
use llm_agent_flow.V2.Validate.Accepts.{
  IsWellFormed, All-impl, IsMapping-mono, arcs-IsClosed, validate-IsWellFormed,
}

append-nil : {A : Type 0} (xs ys : List A) → xs ≡ [] → ys ≡ [] → xs ++ ys ≡ []
append-nil xs ys h k = rw (h, k) refl

node_issues-nil :
    (i : ℕ) (ids : List String) (n : Node)
    → IsNamed n
    → count n.id ids ≡ 0
    → (node_issues i ids n ≡ []) × (add_id ids n ≡ n.id ∷ ids)
unfolding node_issues
node_issues-nil i ids n named fresh =
    ground (arith, has_lem ids n.id, eq_iff n.id "", eq_iff n.type "")

check_nodes-nil :
    (i : ℕ) (ids : List String) (ns : List Node)
    → All IsNamed ns
    → ((v : String) → count v ids + count v (map (λ n. n.id) ns) ≤ 1)
    → (check_nodes i ids ns).0 ≡ []
unfolding check_nodes
check_nodes-nil i ids [] named once = refl
check_nodes-nil i ids (n ∷ ns) named once =
    let (here, added) =
      node_issues-nil i ids n named.0 (ground (arith, once n.id, eq_iff n.id n.id)) in
    append-nil (node_issues i ids n) _ here (
      check_nodes-nil (i + 1) (add_id ids n) ns named.1
        (λ v. ground (arith, once v, ap (count v) added, eq_iff n.id v)))

edge_issues-nil :
    (ids seen : List String) (i : ℕ) (e : Edge)
    → IsEdge ids e
    → count (edge_key e) seen ≡ 0
    → edge_issues ids seen i e ≡ []
unfolding edge_issues
edge_issues-nil ids seen i e edge fresh = ground (
  arith,
  has_lem ids e.source.node,
  has_lem ids e.target.node,
  has_lem seen (edge_key e),
  eq_iff e.source.node e.target.node,
)

check_edges-nil :
    (ids seen : List String) (i : ℕ) (es : List Edge)
    → All (IsEdge ids) es
    → ((v : String) → count v seen + count v (map edge_key es) ≤ 1)
    → check_edges ids seen i es ≡ []
unfolding check_edges
check_edges-nil ids seen i [] edges once = refl
check_edges-nil ids seen i (e ∷ es) edges once =
    append-nil (edge_issues ids seen i e) _
      (edge_issues-nil ids seen i e edges.0
        (ground (arith, once (edge_key e), eq_iff (edge_key e) (edge_key e))))
      (check_edges-nil ids (edge_key e ∷ seen) (i + 1) es edges.1
        (λ v. ground (arith, once v, eq_iff (edge_key e) v)))

check_refs-nil :
    (not_found : ℕ → String → Issue) (ids : List String) (i : ℕ) (rs : List NamedPortRef)
    → All (IsRef ids) rs
    → check_refs not_found ids i rs ≡ []
unfolding check_refs
check_refs-nil not_found ids i [] refs = refl
check_refs-nil not_found ids i (r ∷ rs) refs =
    append-nil (report (not (has ids r.ref.node)) _) _ (ground (arith, has_lem ids r.ref.node))
      (check_refs-nil not_found ids (i + 1) rs refs.1)

path_issues-nil :
    (empty : ℕ → Issue) (j : ℕ) (path : List String)
    → All (λ s. s ≢ "") path
    → path_issues empty j path ≡ []
unfolding path_issues
path_issues-nil empty j [] h = refl
path_issues-nil empty j (seg ∷ path) h =
    append-nil (report (seg == "") (empty j)) _ (ground (arith, eq_iff seg ""))
      (path_issues-nil empty (j + 1) path h.1)

-- No node has an empty id.
module _ (ids : List String) (no_empty : ¬ Known ids "") where
  named_of_Known : (v : String) → Known ids v → v ≢ ""
  named_of_Known v h same = no_empty (subst (Known ids) same h)

  source_issues-nil : (i : ℕ) (m : Mapping) → IsSource ids m → source_issues ids i m ≡ []
  unfolding source_issues
  source_issues-nil i m (inl h) =
      ground (arith, eq_iff m.source.input "", eq_iff m.source.node "", eq_iff m.source.port "")
  source_issues-nil i m (inr h) =
      let named = named_of_Known m.source.node h.1 in
      ground (
        arith,
        has_lem ids m.source.node,
        eq_iff m.source.input "",
        eq_iff m.source.node "",
        eq_iff m.source.port "",
      )

  mapping_issues-nil : (i : ℕ) (m : Mapping) → IsMapping ids m → mapping_issues ids i m ≡ []
  unfolding mapping_issues
  mapping_issues-nil i m (source, target, port, apart, from, to) =
      let named = named_of_Known m.target.node target in
      append-nil _ (report (not (m.source.node == "") && m.source.node == m.target.node) _)
        (append-nil _ (path_issues (target_path_empty i) 0 m.target.path)
          (append-nil _ (path_issues (source_path_empty i) 0 m.source.path)
            (append-nil _ (report (m.target.port == "") _)
              (append-nil (source_issues ids i m) (check_id ids m.target.node _ _)
                (source_issues-nil i m source)
                (ground (arith, has_lem ids m.target.node, eq_iff m.target.node "")))
              (ground (arith, eq_iff m.target.port "")))
            (path_issues-nil (source_path_empty i) 0 m.source.path from))
          (path_issues-nil (target_path_empty i) 0 m.target.path to))
        (ground (arith, eq_iff m.source.node "", eq_iff m.source.node m.target.node))

  check_mappings-nil :
      (i : ℕ) (ms : List Mapping) → All (IsMapping ids) ms → check_mappings ids i ms ≡ []
  unfolding check_mappings
  check_mappings-nil i [] h = refl
  check_mappings-nil i (m ∷ ms) h =
      append-nil (mapping_issues ids i m) _ (mapping_issues-nil i m h.0)
        (check_mappings-nil (i + 1) ms h.1)

cycle_issues-nil :
    (ids : List String) (graph : List Arc)
    → IsClosed ids graph
    → ¬ HasCycle graph
    → cycle_issues (find_cycle ids graph) ≡ []
cycle_issues-nil ids graph closed acyclic = elim (find_cycle_decides ids graph closed) [
  | found l e n listed w ↦ absurd (acyclic w)
  | absent s e none_there ↦ rw e refl
]

no_empty_id : (ns : List Node) → All IsNamed ns → count "" (map (λ n. n.id) ns) ≡ 0
no_empty_id [] named = refl
no_empty_id (n ∷ ns) named = ground (arith, no_empty_id ns named.1, eq_iff n.id "")

all_issues-nil : (f : Flow) → IsWellFormed f → all_issues f ≡ []
unfolding all_issues
all_issues-nil f good =
    let ids = (check_nodes 0 [] f.nodes).1 in
    let faults = check_nodes-nil 0 [] f.nodes good.named (λ v. omega (arith, good.once v)) in
    let nodes = check_nodes-NodesOk 0 [] f.nodes faults in
    let known : (v : String) → Known (node_ids f) v → Known ids v =
      λ v h. omega (arith, nodes.collected v) in
    let no_empty : ¬ Known ids "" =
      λ h. omega (arith, nodes.collected "", no_empty_id f.nodes good.named) in
    append-nil _ (cycle_issues (find_cycle (node_ids f) (arcs f)))
      (append-nil _ (check_mappings ids 0 f.mappings)
        (append-nil _ (check_refs output_not_found ids 0 f.outputs)
          (append-nil _ (check_refs input_not_found ids 0 f.inputs)
            (append-nil _ (check_edges ids [] 0 f.edges) faults (
              check_edges-nil ids [] 0 f.edges
                (All-impl (λ e h. (known e.source.node h.0, known e.target.node h.1, h.2)) f.edges
                  good.edges)
                (λ v. omega (arith, good.keys v))))
            (check_refs-nil input_not_found ids 0 f.inputs
              (All-impl (λ r. known r.ref.node) f.inputs good.inputs)))
          (check_refs-nil output_not_found ids 0 f.outputs
            (All-impl (λ r. known r.ref.node) f.outputs good.outputs)))
        (check_mappings-nil ids no_empty 0 f.mappings
          (All-impl (λ m. IsMapping-mono (node_ids f) ids m known) f.mappings good.mappings)))
      (cycle_issues-nil (node_ids f) (arcs f) (arcs-IsClosed f good.edges good.mappings)
        good.acyclic)

-- `Validate` accepts a flow if and only if it is well formed: it has nodes, each with a type, with
-- distinct ids; every reference is to one of them; the edges have distinct keys; each mapping has one
-- source and a port and paths without an empty part; and the graph of the edges and mappings has no cycle.
pub validate-iff-IsWellFormed : (f : Flow) → (validate f ≡ none) ↔ IsWellFormed f
unfolding validate
validate-iff-IsWellFormed f =
    (validate-IsWellFormed f, λ good. ground (arith, good.nonempty, all_issues-nil f good))
