-- ===== src/V1/Validate.antt =====
-- `Validate` of flow/validate.go. Its loops over nodes, edges and references, and `findCycle`, are
-- written as in v2/flow/validate.go, and are the functions of V2.Validate and V2.Cycle.
use llm_agent_flow.Base.{String, Option, none, some, List, [], ◌∷◌, ◌++◌, map}
use llm_agent_flow.V2.Arcs.{Arc, edge_arcs}
use llm_agent_flow.V2.Cycle.{find_cycle}
use llm_agent_flow.V2.Validate.{
  Issue, input_not_found, output_not_found, ValidateError, empty_flow, issues, check_nodes,
  check_edges, check_refs, cycle_issues,
}
use llm_agent_flow.V1.Ir.{Flow}

abbrev pub flow_node_ids : Flow → List String
flow_node_ids f = map (λ n. n.id) f.nodes

-- Only the edges join nodes.
abbrev pub flow_arcs : Flow → List Arc
flow_arcs f = edge_arcs f.edges

unfoldable pub flow_issues : Flow → List Issue
unfolding check_nodes check_edges check_refs find_cycle
flow_issues f =
    let (faults, ids) = check_nodes 0 [] f.nodes in
    faults
    ++ check_edges ids [] 0 f.edges
    ++ check_refs input_not_found ids 0 f.inputs
    ++ check_refs output_not_found ids 0 f.outputs
    ++ cycle_issues (find_cycle (flow_node_ids f) (flow_arcs f))

unfoldable pub validate : Flow → Option ValidateError
unfolding flow_issues
validate f = elim f.nodes [
  | [] ↦ some empty_flow
  | _ ∷ _ ↦ elim (flow_issues f) [ [] ↦ none | x ∷ xs ↦ some (issues (x ∷ xs)) ]
]
