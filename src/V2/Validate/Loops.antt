-- ===== src/V2/Validate/Loops.antt =====
-- What the loops of `Validate` accept: one predicate for each, and that no issue means it holds.
use llm_agent_flow.Base.{
  ℕ, ◌+◌, ◌≤◌, ◌<◌, String, ◌≡◌, ◌≢◌, refl, ap, Bool, not, ◌&&◌, List, [], ◌∷◌, ◌++◌, map, arith,
  All, count, ltb, eq_iff, ◌==◌, ◌⊎◌,
}
use llm_agent_flow.V2.Ir.{Node, Edge, Mapping, NamedPortRef}
use llm_agent_flow.V2.Validate.{
  Issue, has, node_issues, add_id, check_nodes, edge_key, edge_issues, check_edges, check_refs,
  source_issues, path_issues, mapping_issues, check_mappings, report, check_id, source_path_empty,
  target_path_empty,
}

pub append-eq-nil {ℓ} : {A : Type ℓ} (xs ys : List A) → xs ++ ys ≡ [] → (xs ≡ []) × (ys ≡ [])
append-eq-nil [] ys h = (refl, h)
append-eq-nil (x ∷ xs) ys h = cc

-- A set of texts, kept as a list, holds a text if it occurs.
pub has_lem : (xs : List String) (v : String) → has xs v ≡ ltb 0 (count v xs)
unfolding has
has_lem [] v = refl
has_lem (x ∷ xs) v = ground (arith, has_lem xs v)

abbrev pub IsNamed : Node → Type 0
IsNamed n = (n.id ≢ "") × (n.type ≢ "")

module _ (ids : List String) where
  abbrev pub Known : String → Type 0
  Known v = 0 < count v ids

  abbrev pub IsEdge : Edge → Type 0
  IsEdge e = Known e.source.node × Known e.target.node × (e.source.node ≢ e.target.node)

  abbrev pub IsRef : NamedPortRef → Type 0
  IsRef r = Known r.ref.node

  abbrev pub IsSource : Mapping → Type 0
  IsSource m =
      (m.source.input ≢ "") × (m.source.node ≡ "") × (m.source.port ≡ "")
      ⊎ (m.source.input ≡ "") × Known m.source.node × (m.source.port ≢ "")

  abbrev pub IsMapping : Mapping → Type 0
  IsMapping m =
      IsSource m
      × Known m.target.node
      × (m.target.port ≢ "")
      × (m.source.node ≡ "" ⊎ (m.source.node ≢ m.target.node))
      × All (λ s. s ≢ "") m.source.path
      × All (λ s. s ≢ "") m.target.path

Known-of_report :
    (ids : List String) (v : String) (x : Issue) → report (not (has ids v)) x ≡ [] → Known ids v
Known-of_report ids v x h = ground (arith, has_lem ids v)

Known-of_check_id :
    (ids : List String) (v : String) (x y : Issue) → check_id ids v x y ≡ [] → Known ids v
Known-of_check_id ids v x y h = ground (arith, has_lem ids v)

accepted_node :
    (i : ℕ) (ids : List String) (n : Node)
    → node_issues i ids n ≡ []
    → IsNamed n × (count n.id ids ≡ 0) × (add_id ids n ≡ n.id ∷ ids)
unfolding node_issues
accepted_node i ids n h = ground (arith, has_lem ids n.id, eq_iff n.id "", eq_iff n.type "")

pub record NodesOk (ids : List String) (ns : List Node) (all : List String) : Type 0 where
  pub named : All IsNamed ns
  pub once : (v : String) → count v ids ≤ 1 → count v ids + count v (map (λ n. n.id) ns) ≤ 1
  pub collected : (v : String) → count v all ≡ count v ids + count v (map (λ n. n.id) ns)

pub check_nodes-NodesOk :
    (i : ℕ) (ids : List String) (ns : List Node)
    → (check_nodes i ids ns).0 ≡ []
    → NodesOk ids ns (check_nodes i ids ns).1
unfolding check_nodes
check_nodes-NodesOk i ids [] h = record {
  named = tt;
  once = λ v k. omega arith;
  collected = λ v. omega arith;
}
check_nodes-NodesOk i ids (n ∷ ns) h =
    let (here, later) = append-eq-nil (node_issues i ids n) _ h in
    let rest = check_nodes-NodesOk (i + 1) (add_id ids n) ns later in
    let (named, fresh, added) = accepted_node i ids n here in
    record {
      named = (named, rest.named);
      once = λ v k. ground (arith, rest.once v, ap (count v) added, eq_iff n.id v, fresh);
      collected = λ v. ground (arith, rest.collected v, ap (count v) added);
    }

edge_issues-IsEdge :
    (ids seen : List String) (i : ℕ) (e : Edge)
    → edge_issues ids seen i e ≡ []
    → IsEdge ids e × (count (edge_key e) seen ≡ 0)
unfolding edge_issues
edge_issues-IsEdge ids seen i e h = ground (
  arith,
  has_lem ids e.source.node,
  has_lem ids e.target.node,
  has_lem seen (edge_key e),
  eq_iff e.source.node e.target.node,
)

-- The edges are well formed, and no two have one key.
pub check_edges-IsEdge :
    (ids seen : List String) (i : ℕ) (es : List Edge)
    → check_edges ids seen i es ≡ []
    → All (IsEdge ids) es
      × ((v : String) → count v seen ≤ 1 → count v seen + count v (map edge_key es) ≤ 1)
unfolding check_edges
check_edges-IsEdge ids seen i [] h = (tt, λ v k. omega arith)
check_edges-IsEdge ids seen i (e ∷ es) h =
    let (here, later) = append-eq-nil (edge_issues ids seen i e) _ h in
    let (edge, fresh) = edge_issues-IsEdge ids seen i e here in
    let (edges, once) = check_edges-IsEdge ids (edge_key e ∷ seen) (i + 1) es later in
    ((edge, edges), λ v k. ground (arith, once v, eq_iff (edge_key e) v, fresh))

pub check_refs-IsRef :
    (not_found : ℕ → String → Issue) (ids : List String) (i : ℕ) (rs : List NamedPortRef)
    → check_refs not_found ids i rs ≡ []
    → All (IsRef ids) rs
unfolding check_refs
check_refs-IsRef not_found ids i [] h = tt
check_refs-IsRef not_found ids i (r ∷ rs) h =
    let (here, later) = append-eq-nil (report (not (has ids r.ref.node)) _) _ h in
    (Known-of_report ids r.ref.node _ here, check_refs-IsRef not_found ids (i + 1) rs later)

path_issues-nonempty :
    (empty : ℕ → Issue) (j : ℕ) (path : List String)
    → path_issues empty j path ≡ []
    → All (λ s. s ≢ "") path
unfolding path_issues
path_issues-nonempty empty j [] h = tt
path_issues-nonempty empty j (seg ∷ path) h =
    let (here, later) = append-eq-nil (report (seg == "") (empty j)) _ h in
    (ground (arith, eq_iff seg ""), path_issues-nonempty empty (j + 1) path later)

source_issues-IsSource :
    (ids : List String) (i : ℕ) (m : Mapping) → source_issues ids i m ≡ [] → IsSource ids m
unfolding source_issues
source_issues-IsSource ids i m h = ground (
  arith,
  has_lem ids m.source.node,
  eq_iff m.source.input "",
  eq_iff m.source.node "",
  eq_iff m.source.port "",
)

mapping_issues-IsMapping :
    (ids : List String) (i : ℕ) (m : Mapping) → mapping_issues ids i m ≡ [] → IsMapping ids m
unfolding mapping_issues
mapping_issues-IsMapping ids i m h =
    let (before, loop) = append-eq-nil _ (report self _) h in
    let (before, to_path) =
      append-eq-nil _ (path_issues (target_path_empty i) 0 m.target.path) before in
    let (before, from_path) =
      append-eq-nil _ (path_issues (source_path_empty i) 0 m.source.path) before in
    let (before, port) = append-eq-nil _ (report (m.target.port == "") _) before in
    let (source, node) = append-eq-nil (source_issues ids i m) _ before in
    (
      source_issues-IsSource ids i m source,
      Known-of_check_id ids m.target.node _ _ node,
      ground (arith, eq_iff m.target.port ""),
      ground (arith, eq_iff m.source.node "", eq_iff m.source.node m.target.node),
      path_issues-nonempty (source_path_empty i) 0 m.source.path from_path,
      path_issues-nonempty (target_path_empty i) 0 m.target.path to_path,
    )
  where
    self : Bool
    self = not (m.source.node == "") && m.source.node == m.target.node

pub check_mappings-IsMapping :
    (ids : List String) (i : ℕ) (ms : List Mapping)
    → check_mappings ids i ms ≡ []
    → All (IsMapping ids) ms
unfolding check_mappings
check_mappings-IsMapping ids i [] h = tt
check_mappings-IsMapping ids i (m ∷ ms) h =
    let (here, later) = append-eq-nil (mapping_issues ids i m) _ h in
    (mapping_issues-IsMapping ids i m here, check_mappings-IsMapping ids (i + 1) ms later)
