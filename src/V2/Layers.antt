-- ===== src/V2/Layers.antt =====
-- The layering in `Compile` of v2/flow/engine.go: Kahn's algorithm, one layer to a round.
pub mod Counters
pub mod Order
pub mod Total
use llm_agent_flow.Base.{
  ℕ, zero, suc, ◌+◌, ◌-◌, String, Option, none, some, List, [], ◌∷◌, ◌++◌, foldl, length, flatten,
  update, nat_eq, ◌==◌, if◌then◌else◌,
}
use llm_agent_flow.V2.Arcs.{Arc, successors}

-- `indeg[v]` after the counting loops.
unfoldable pub indegree : List Arc → String → ℕ
indegree [] v = 0
indegree (a ∷ arcs) v = (if a.target == v then 1 else 0) + indegree arcs v

-- The counters and the next queue while a layer is visited.
pub record Round : Type 0 where
  pub indeg : String → ℕ
  pub next : List String

-- `indeg[v]--; if indeg[v] == 0 { next = append(next, v) }`. A counter that has reached 0 stays
-- there, where the source's would become negative: neither is pushed again.
unfoldable pub arrive : Round → String → Round
arrive r v = record {
  indeg = update r.indeg v (r.indeg v - 1);
  next = if nat_eq (r.indeg v) 1 then r.next ++ v ∷ [] else r.next;
}

unfoldable pub visit : List Arc → Round → String → Round
unfolding successors arrive
visit arcs r u = foldl arrive r (successors arcs u)

unfoldable pub visit_layer : List Arc → Round → List String → Round
unfolding visit
visit_layer arcs r layer = foldl (visit arcs) r layer

-- The first queue: the nodes with no incoming arc.
unfoldable pub entries : (String → ℕ) → List String → List String
entries indeg [] = []
entries indeg (n ∷ nodes) =
    let rest = entries indeg nodes in if nat_eq (indeg n) 0 then n ∷ rest else rest

pub data Rounds : Type 0 where
  finished : List (List String) → Rounds
  out_of_fuel : Rounds

abbrev pub with_layer : List String → Rounds → Rounds
with_layer l (finished ls) = finished (l ∷ ls)
with_layer l out_of_fuel = out_of_fuel

-- The loop `for len(queue) > 0`, on fuel.
unfoldable pub rounds : ℕ → List Arc → (String → ℕ) → List String → Rounds
unfolding visit_layer
rounds fuel arcs indeg [] = finished []
rounds zero arcs indeg (q ∷ queue) = out_of_fuel
rounds (suc fuel) arcs indeg (q ∷ queue) =
    let r = visit_layer arcs (record { indeg = indeg; next = [] }) (q ∷ queue) in
    with_layer (q ∷ queue) (rounds fuel arcs r.indeg r.next)

-- `visited != len(f.Nodes)` fails the compilation.
abbrev pub check_visited : List String → Rounds → Option (List (List String))
check_visited nodes (finished ls) =
    if nat_eq (length (flatten ls)) (length nodes) then some ls else none
check_visited nodes out_of_fuel = none

-- Each round but the first is started by an arc that has lost its last predecessor, so that one
-- round for each arc and one more is enough fuel.
unfoldable pub layers : List String → List Arc → Option (List (List String))
unfolding indegree entries rounds
layers nodes arcs =
    check_visited nodes
      (rounds (suc (length arcs)) arcs (indegree arcs) (entries (indegree arcs) nodes))
