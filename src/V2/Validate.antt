-- ===== src/V2/Validate.antt =====
-- `Validate` of v2/flow/validate.go. An issue is a value in place of the formatted text.
pub mod Loops
pub mod Accepts
pub mod Complete
pub mod Keys
use llm_agent_flow.Base.{
  ℕ, zero, suc, ◌+◌, String, Bool, true, false, ◌&&◌, ◌||◌, not, Option, none, some, List, [], ◌∷◌,
  ◌++◌, ◌==◌, if◌then◌else◌,
}
use Prim.Native.String.{◌++◌ as concat}
use llm_agent_flow.V2.Ir.{Node, Edge, Mapping, NamedPortRef, Flow}
use llm_agent_flow.V2.Arcs.{arcs, node_ids}
use llm_agent_flow.V2.Cycle.{Outcome, done, cycle, out_of_fuel, find_cycle}

pub data Issue : Type 0 where
  empty_id : ℕ → Issue
  empty_type duplicate_id : String → Issue
  edge_source_not_found edge_target_not_found edge_self_loop duplicate_edge : ℕ → String → Issue
  input_not_found output_not_found : ℕ → String → Issue
  source_ambiguous source_empty source_node_empty source_port_empty : ℕ → Issue
  source_node_not_found target_node_not_found mapping_self_loop : ℕ → String → Issue
  target_node_empty target_port_empty : ℕ → Issue
  source_path_empty target_path_empty : ℕ → ℕ → Issue
  cycle_detected : List String → Issue
  search_unfinished : Issue

pub data ValidateError : Type 0 where
  empty_flow : ValidateError
  issues : List Issue → ValidateError

abbrev pub report : Bool → Issue → List Issue
report b x = if b then x ∷ [] else []

-- `_, ok := ids[id]`
unfoldable pub has : List String → String → Bool
has [] id = false
has (x ∷ xs) id = x == id || has xs id

unfoldable pub node_issues : ℕ → List String → Node → List Issue
unfolding has
node_issues i ids n =
    if n.id == ""
    then empty_id i ∷ []
    else report (n.type == "") (empty_type n.id) ++ report (has ids n.id) (duplicate_id n.id)

abbrev pub add_id : List String → Node → List String
add_id ids n = if n.id == "" || has ids n.id then ids else n.id ∷ ids

-- The loop over the nodes: its issues, and the set `ids`.
unfoldable pub check_nodes : ℕ → List String → List Node → List Issue × List String
unfolding node_issues
check_nodes i ids [] = ([], ids)
check_nodes i ids (n ∷ ns) =
    let (rest, all) = check_nodes (i + 1) (add_id ids n) ns in (node_issues i ids n ++ rest, all)

-- `e.Source.Node + "." + e.Source.Port + " -> " + e.Target.Node + "." + e.Target.Port`
unfoldable pub edge_key : Edge → String
edge_key e =
    concat
      (concat
        (concat (concat (concat (concat e.source.node ".") e.source.port) " -> ") e.target.node)
        ".")
      e.target.port

unfoldable pub edge_issues : List String → List String → ℕ → Edge → List Issue
unfolding has
edge_issues ids seen i e =
    report (not (has ids e.source.node)) (edge_source_not_found i e.source.node)
    ++ report (not (has ids e.target.node)) (edge_target_not_found i e.target.node)
    ++ report (e.source.node == e.target.node) (edge_self_loop i e.source.node)
    ++ report (has seen (edge_key e)) (duplicate_edge i (edge_key e))

unfoldable pub check_edges : List String → List String → ℕ → List Edge → List Issue
unfolding edge_issues
check_edges ids seen i [] = []
check_edges ids seen i (e ∷ es) =
    edge_issues ids seen i e ++ check_edges ids (edge_key e ∷ seen) (i + 1) es

unfoldable pub check_refs : (ℕ → String → Issue) → List String → ℕ → List NamedPortRef → List Issue
unfolding has
check_refs not_found ids i [] = []
check_refs not_found ids i (r ∷ rs) =
    report (not (has ids r.ref.node)) (not_found i r.ref.node)
    ++ check_refs not_found ids (i + 1) rs

-- `if id == "" { … } else if _, ok := ids[id]; !ok { … }`
abbrev pub check_id : List String → String → (empty missing : Issue) → List Issue
check_id ids id empty missing = if id == "" then empty ∷ [] else report (not (has ids id)) missing

-- The `switch` over the two kinds of source.
unfoldable pub source_issues : List String → ℕ → Mapping → List Issue
unfolding has
source_issues ids i m =
    let input_source = not (m.source.input == "") in
    let node_source = not (m.source.node == "") || not (m.source.port == "") in
    if input_source && node_source
    then source_ambiguous i ∷ []
    else if not input_source && not node_source
    then source_empty i ∷ []
    else if node_source
    then check_id ids m.source.node (source_node_empty i) (source_node_not_found i m.source.node)
      ++ report (m.source.port == "") (source_port_empty i)
    else []

unfoldable pub path_issues : (ℕ → Issue) → ℕ → List String → List Issue
path_issues empty j [] = []
path_issues empty j (seg ∷ path) = report (seg == "") (empty j) ++ path_issues empty (j + 1) path

unfoldable pub mapping_issues : List String → ℕ → Mapping → List Issue
unfolding source_issues path_issues
mapping_issues ids i m =
    source_issues ids i m
    ++ check_id ids m.target.node (target_node_empty i) (target_node_not_found i m.target.node)
    ++ report (m.target.port == "") (target_port_empty i)
    ++ path_issues (source_path_empty i) 0 m.source.path
    ++ path_issues (target_path_empty i) 0 m.target.path
    ++ report (not (m.source.node == "") && m.source.node == m.target.node)
        (mapping_self_loop i m.source.node)

unfoldable pub check_mappings : List String → ℕ → List Mapping → List Issue
unfolding mapping_issues
check_mappings ids i [] = []
check_mappings ids i (m ∷ ms) = mapping_issues ids i m ++ check_mappings ids (i + 1) ms

-- `len(cycle) > 0`. The last case never arises: the search has fuel enough.
abbrev pub cycle_issues : Outcome → List Issue
cycle_issues (done s) = []
cycle_issues (cycle []) = []
cycle_issues (cycle (x ∷ xs)) = cycle_detected (x ∷ xs) ∷ []
cycle_issues out_of_fuel = search_unfinished ∷ []

unfoldable pub all_issues : Flow → List Issue
unfolding check_nodes check_edges check_refs check_mappings find_cycle
all_issues f =
    let (faults, ids) = check_nodes 0 [] f.nodes in
    faults
    ++ check_edges ids [] 0 f.edges
    ++ check_refs input_not_found ids 0 f.inputs
    ++ check_refs output_not_found ids 0 f.outputs
    ++ check_mappings ids 0 f.mappings
    ++ cycle_issues (find_cycle (node_ids f) (arcs f))

-- `none` is the nil error.
unfoldable pub validate : Flow → Option ValidateError
unfolding all_issues
validate f = elim f.nodes [
  | [] ↦ some empty_flow
  | _ ∷ _ ↦ elim (all_issues f) [ [] ↦ none | x ∷ xs ↦ some (issues (x ∷ xs)) ]
]
