-- ===== src/V2/Cycle.antt =====
-- `findCycle` of v2/flow/validate.go: a depth-first search with three colours.
pub mod Acyclic
pub mod Rank
pub mod Stack
pub mod Sound
pub mod Decides
use llm_agent_flow.Base.{
  ℕ, zero, suc, String, ◌||◌, Option, none, some, List, [], ◌∷◌, ◌++◌, map, length, update, ◌==◌,
  if◌then◌else◌,
}
use llm_agent_flow.V2.Arcs.{Arc, successors}
use mathlib.Core.List.{reverse}

pub data Color : Type 0 where
  white gray black : Color

-- A missing key reads as white, and as no parent.
pub record Search : Type 0 where
  pub color : String → Color
  pub parent : String → String

pub data Outcome : Type 0 where
  done : Search → Outcome
  cycle : List String → Outcome
  out_of_fuel : Outcome

-- A visit that finds a cycle returns true, and its callers return at once.
abbrev pub and_then : Outcome → (Search → Outcome) → Outcome
and_then (done s) f = f s
and_then (cycle c) f = cycle c
and_then out_of_fuel f = out_of_fuel

-- `for cur != v && cur != "" { cycle = append(cycle, cur); cur = parent[cur] }`
unfoldable pub walk_back : ℕ → (String → String) → String → String → Option (List String)
walk_back zero parent v cur = if cur == v || cur == "" then some [] else none
walk_back (suc fuel) parent v cur =
    let rest = walk_back fuel parent v (parent cur) in
    if cur == v || cur == "" then some [] else elim rest [ none ↦ none | some l ↦ some (cur ∷ l) ]

-- The cycle through the gray node `v`, when the search stands at `u`.
abbrev pub close_cycle : String → Option (List String) → Outcome
close_cycle v none = out_of_fuel
close_cycle v (some back) = cycle (reverse ((v ∷ back) ++ v ∷ []))

-- The loop over `out[u]`; `visit` is the recursive call.
unfoldable pub visit_targets :
    (bound : ℕ) (visit : String → String → Search → Outcome) (u : String)
    → List String
    → Search
    → Outcome
unfolding walk_back
visit_targets bound visit u [] s = done s
visit_targets bound visit u (v ∷ vs) s = elim (s.color v) [
  | white ↦ and_then (visit v u s) (visit_targets bound visit u vs)
  | gray ↦ close_cycle v (walk_back bound s.parent v u)
  | black ↦ visit_targets bound visit u vs s
]

abbrev pub enter : String → String → Search → Search
enter u from s = record { color = update s.color u gray; parent = update s.parent u from }

abbrev pub leave : String → Search → Outcome
leave u s = done (record s { color = update s.color u black })

unfoldable pub visit : (bound fuel : ℕ) → List Arc → String → String → Search → Outcome
unfolding visit_targets
visit bound zero arcs u from s = out_of_fuel
visit bound (suc fuel) arcs u from s =
    and_then (visit_targets bound (visit bound fuel arcs) u (successors arcs u) (enter u from s))
      (leave u)

-- The last loop, over the nodes.
unfoldable pub visit_all : (bound : ℕ) → List Arc → List String → Search → Outcome
unfolding visit
visit_all bound arcs [] s = done s
visit_all bound arcs (n ∷ nodes) s = elim (s.color n) [
  | white ↦ and_then (visit bound bound arcs n "" s) (visit_all bound arcs nodes)
  | _ ↦ visit_all bound arcs nodes s
]

-- A visit turns a white node gray, and the nodes that can be visited are those of the list and the
-- targets of the arcs: that many nested visits, and steps back, are enough.
abbrev pub universe : List String → List Arc → List String
universe nodes arcs = nodes ++ map (λ a. a.target) arcs

abbrev pub unvisited : Search
unvisited = record { color = λ _. white; parent = λ _. "" }

unfoldable pub find_cycle : List String → List Arc → Outcome
unfolding visit_all
find_cycle nodes arcs = visit_all (length (universe nodes arcs)) arcs nodes unvisited
