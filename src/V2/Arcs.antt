-- ===== src/V2/Arcs.antt =====
-- The directed graph that `findCycle` (v2/flow/validate.go) and `Compile` (v2/flow/engine.go) build
-- from the edges and the mappings of a flow.
use llm_agent_flow.Base.{String, List, [], ◌∷◌, ◌++◌, map, ◌==◌, if◌then◌else◌}
use llm_agent_flow.V2.Ir.{Edge, Mapping, Flow}

pub record Arc : Type 0 where
  pub source : String
  pub target : String

abbrev pub edge_arcs : List Edge → List Arc
edge_arcs = map (λ e. record { source = e.source.node; target = e.target.node })

-- Only a mapping from a node adds an arc.
abbrev pub mapping_arcs : List Mapping → List Arc
mapping_arcs [] = []
mapping_arcs (m ∷ ms) =
    let rest = mapping_arcs ms in
    if m.source.node == ""
    then rest
    else record { source = m.source.node; target = m.target.node } ∷ rest

abbrev pub arcs : Flow → List Arc
arcs f = edge_arcs f.edges ++ mapping_arcs f.mappings

abbrev pub node_ids : Flow → List String
node_ids f = map (λ n. n.id) f.nodes

-- `out[u]`: the targets of `u`, in the order of the arcs.
unfoldable pub successors : List Arc → String → List String
successors [] u = []
successors (a ∷ rest_arcs) u =
    let rest = successors rest_arcs u in if a.source == u then a.target ∷ rest else rest
