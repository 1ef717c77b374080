-- ===== src/V2/Cycle/Decides.antt =====
-- `findCycle` decides whether the graph has a cycle.
use mathlib.Core.Logic.{⊎_elim}
use llm_agent_flow.Base.{
  ℕ, ◌<◌, String, ◌≡◌, ◌≢◌, refl, ◌⊎◌, inl, inr, count, count-append, map, List, [], ◌∷◌, arith,
  eq_iff,
}
use llm_agent_flow.V2.Arcs.{Arc, successors}
use llm_agent_flow.V2.Layers.Total.{IsRanked, IsClosed}
use llm_agent_flow.V2.Cycle.{
  Search, Outcome, done, cycle, out_of_fuel, unvisited, universe, find_cycle,
}
use llm_agent_flow.V2.Cycle.Stack.{IsArc, Walk, one, step}
use llm_agent_flow.V2.Cycle.Rank.{find_cycle-IsRanked}
use llm_agent_flow.V2.Cycle.Sound.{IsCycle, IsGood, find_cycle-IsGood}

abbrev pub HasCycle : List Arc → Type 0
HasCycle arcs = (v : String) × Walk arcs v v

module _ (rank : String → ℕ) where
  rank-lt_of_arc :
      (arcs : List Arc) (x y : String) → IsRanked rank arcs → IsArc arcs x y → rank x < rank y
  unfolding successors
  rank-lt_of_arc [] x y r h = absurd (omega arith)
  rank-lt_of_arc (a ∷ arcs) x y r h =
      ground (arith, rank-lt_of_arc arcs x y r.1, r.0, eq_iff a.source x, eq_iff a.target y)

  rank-lt_of_Walk :
      (arcs : List Arc) {x y : String} → IsRanked rank arcs → Walk arcs x y → rank x < rank y
  rank-lt_of_Walk arcs {x} {y} r (one a) = rank-lt_of_arc arcs x y r a
  rank-lt_of_Walk arcs {x} {y = z} r (step {y} w a) =
      omega (arith, rank-lt_of_Walk arcs r w, rank-lt_of_arc arcs y z r a)

-- The two answers: a cycle, or the end of the search where there is none. A node with the empty id
-- stops the way back along the parents, so that the list can be too short.
pub data Decision (nodes : List String) (arcs : List Arc) (o : Outcome) : Type 0 where
  found :
      (c : List String)
      → o ≡ cycle c
      → c ≢ []
      → IsCycle arcs c ⊎ (0 < count "" nodes)
      → HasCycle arcs
      → Decision nodes arcs o
  absent : (s : Search) → o ≡ done s → ¬ HasCycle arcs → Decision nodes arcs o

mem_of_universe :
    (nodes : List String) (arcs : List Arc) (v : String)
    → IsClosed nodes arcs
    → 0 < count v (universe nodes arcs)
    → 0 < count v nodes
mem_of_universe nodes arcs v closed m =
    grind (arith, m, count-append v nodes (map (λ a. a.target) arcs), targets arcs closed)
  where
    targets :
        (xs : List Arc)
        → IsClosed nodes xs
        → 0 < count v (map (λ a. a.target) xs)
        → 0 < count v nodes
    targets [] c h = absurd (omega arith)
    targets (a ∷ xs) c h = ground (arith, targets xs c.1, c.0.1, eq_iff a.target v)

-- For a graph whose arcs join nodes of the list, the search ends, and it decides. If it reports a list,
-- the graph has a cycle, and the list is one: it leads along the arcs from a node through others back to
-- it, unless one of the nodes has the empty id. If it reports none, the graph has no cycle.
pub find_cycle_decides :
    (nodes : List String) (arcs : List Arc)
    → IsClosed nodes arcs
    → Decision nodes arcs (find_cycle nodes arcs)
find_cycle_decides nodes arcs closed =
    cases (find_cycle nodes arcs) refl (find_cycle-IsGood nodes arcs)
  where
    cases :
        (o : Outcome)
        → find_cycle nodes arcs ≡ o
        → IsGood arcs (universe nodes arcs) unvisited o
        → Decision nodes arcs (find_cycle nodes arcs)
    cases (done s) e g =
        let (rank, ranked) = find_cycle-IsRanked nodes arcs closed s e in
        absent s e (λ (v, w). omega (arith, rank-lt_of_Walk rank arcs ranked w))
    cases (cycle c) e g =
        found c e g.0 (⊎_elim inl (λ n. inr (mem_of_universe nodes arcs "" closed n)) g.1)
          (g.2, g.3)
    cases out_of_fuel e g = absurd g
