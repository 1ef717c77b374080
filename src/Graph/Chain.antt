-- ===== src/Graph/Chain.antt =====
-- `buildLinearPipeline` of v2/flow/graph/runnable.go. `has_folder` tells which types the registry of
-- concatenators knows.
pub mod Walks
pub mod Ordered
pub mod Visits
use llm_agent_flow.Base.{
  ℕ, zero, suc, ◌+◌, ltb, String, Bool, true, false, not, ◌&&◌, ◌||◌, Option, none, some, List, [],
  ◌∷◌, Result, ok, err, ◌>>=◌, length, nat_eq, update, ◌==◌, if◌then◌else◌,
}
use llm_agent_flow.V2.Nodes.{NodeKind}
use llm_agent_flow.V2.Validate.{has}
use llm_agent_flow.Graph.Types.{GoType}
use llm_agent_flow.Graph.Adapters.{port_in, port_out}
use llm_agent_flow.Graph.Builder.{NodeRef, GraphNode, GraphEdge, Graph}

pub record PipelineNode : Type 0 where
  pub id : String
  pub kind : NodeKind
  pub streams : Bool
  pub in_t : Option GoType
  pub out_t : Option GoType

-- The three maps that the first loop fills.
pub record Wires : Type 0 where
  pub indeg : String → ℕ
  pub outdeg : String → ℕ
  pub next : String → Option String

abbrev pub no_wiring : Wires
no_wiring = record { indeg = λ _. 0; outdeg = λ _. 0; next = λ _. none }

abbrev pub add_wire : GraphEdge → Wires → Wires
add_wire e w = record {
  indeg = update w.indeg e.to (w.indeg e.to + 1);
  outdeg = update w.outdeg e.from (w.outdeg e.from + 1);
  next = update w.next e.from (some e.to);
}

-- `none` when an edge leaves by another port than "out", or enters by another than "in".
unfoldable pub wire : List GraphEdge → Wires → Option Wires
wire [] w = some w
wire (e ∷ es) w =
    let rest = wire es (add_wire e w) in
    if e.from_port == port_out then if e.to_port == port_in then rest else none else none

unfoldable pub one_each_way : Wires → List GraphNode → Bool
one_each_way w [] = true
one_each_way w (n ∷ ns) =
    let rest = one_each_way w ns in
    if ltb 1 (w.indeg n.ref.id) || ltb 1 (w.outdeg n.ref.id) then false else rest

-- `walked` has the visited ids, the last one first.
pub data Walk : Type 0 where
  walked : List String → Walk
  looped : Walk
  out_of_fuel : Walk

-- The loop along the successors. `order` has the ids so far, the last one first, which are `seen`.
unfoldable pub walk : (String → Option String) → (fuel : ℕ) → String → List String → Walk
unfolding has
walk next zero cur order = out_of_fuel
walk next (suc fuel) cur order = if has order cur then looped else elim (next cur) [
  | none ↦ walked (cur ∷ order)
  | some succ ↦ walk next fuel succ (cur ∷ order)
]

abbrev pub ends_at : List String → String → Bool
ends_at [] id = false
ends_at (x ∷ _) id = x == id

-- The walk has to visit all nodes and to end at the exit.
abbrev pub whole_walk : ℕ → String → Walk → Option (List String)
whole_walk n exit looped = none
whole_walk n exit out_of_fuel = none
whole_walk n exit (walked order) =
    if nat_eq (length order) n && ends_at order exit then some order else none

-- The order of the chain, the exit first; `none` when the graph is no chain.
unfoldable pub linear_order : Graph → String → String → Option (List String)
unfolding wire one_each_way walk
linear_order g entry exit = elim (wire g.edges no_wiring) [
  | none ↦ none
  | some w ↦
      if one_each_way w g.nodes
      then whole_walk (length g.nodes) exit (walk w.next (length g.edges + 1) entry [])
      else none
]

-- The entry that a loop over the nodes leaves in `byID`: the last with that id.
unfoldable pub find_node : String → List GraphNode → Option GraphNode
find_node id [] = none
find_node id (n ∷ ns) =
    let rest = find_node id ns in
    elim rest [ some m ↦ some m | none ↦ if n.ref.id == id then some n else none ]

pub data PipelineError : Type 0 where
  no_concatenator : String → Option GoType → PipelineError
  -- the call of a nil `newKind`
  no_such_node : String → PipelineError

abbrev pub pipeline_node : GraphNode → PipelineNode
pipeline_node n = record {
  id = n.ref.id;
  kind = n.kind;
  streams = n.streams;
  in_t = n.ref.in_t;
  out_t = n.ref.out_t;
}

-- The adapters along the chain, from the ids with the last one first.
unfoldable pub chain_nodes :
    List GraphNode → List String → List PipelineNode → Result PipelineError (List PipelineNode)
unfolding find_node
chain_nodes ns [] done = ok done
chain_nodes ns (id ∷ order) done = elim (find_node id ns) [
  | none ↦ err (no_such_node id)
  | some n ↦ chain_nodes ns order (pipeline_node n ∷ done)
]

module _ (has_folder : Option GoType → Bool) where
  -- Where a stream meets a node, or the end of the chain, its type needs a folder.
  unfoldable pub check_folders : GoType → List PipelineNode → Result PipelineError (Unit {0})
  check_folders out_t [] = ok tt
  check_folders out_t (last ∷ []) =
      if last.streams && not (has_folder (some out_t))
      then err (no_concatenator last.id (some out_t))
      else ok tt
  check_folders out_t (up ∷ down ∷ rest) =
      let after = check_folders out_t (down ∷ rest) in
      if up.streams && not (has_folder down.in_t)
      then err (no_concatenator up.id down.in_t)
      else after

  unfoldable pub build_linear_pipeline :
      Graph → String → String → Result PipelineError (Option (List PipelineNode))
  unfolding linear_order chain_nodes check_folders
  build_linear_pipeline g entry exit = elim (linear_order g entry exit) [
    | none ↦ ok none
    | some order ↦ do
      nodes ← chain_nodes g.nodes order []
      _ ← check_folders g.out_t nodes
      ok (some nodes)
  ]
