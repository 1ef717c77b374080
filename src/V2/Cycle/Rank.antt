-- ===== src/V2/Cycle/Rank.antt =====
-- A search without a cycle ranks the nodes, so that the layering of the same graph succeeds.
use llm_agent_flow.Base.{
  ℕ, suc, ◌-◌, ◌≤◌, ◌<◌, String, ◌≡◌, subst, inl, inr, List, [], ◌∷◌, some, arith, length, All,
  count, Bool-cases, eq_iff, ◌==◌, if◌then◌else◌,
}
use llm_agent_flow.V2.Arcs.{Arc}
use llm_agent_flow.V2.Layers.{layers}
use llm_agent_flow.V2.Layers.Order.{IsNodup}
use llm_agent_flow.V2.Layers.Total.{IsRanked, IsClosed, layers_total}
use llm_agent_flow.V2.Cycle.{Search, black, done, universe, unvisited, find_cycle}
use llm_agent_flow.V2.Cycle.Acyclic.{IsOrdered, Finished, visit_all-Extends}

-- The position of a node in the order, counted from the end.
height : List String → String → ℕ
height [] v = 0
height (u ∷ order) v = let rest = height order v in if u == v then suc (length order) else rest

height-le : (order : List String) (v : String) → height order v ≤ length order
unfolding height
height-le [] v = omega arith
height-le (u ∷ order) v = ground (arith, height-le order v)

abbrev finish_rank : List String → String → ℕ
finish_rank order v = length order - height order v

module _ (a : Arc) where
  target-mem :
      (order : List String)
      → IsOrdered (a ∷ []) order
      → 0 < count a.source order
      → 0 < count a.target order
  target-mem [] o h = absurd (omega arith)
  target-mem (u ∷ order) o h =
      ground (arith, target-mem order o.1, o.0.0, eq_iff a.source u, eq_iff u a.source)

  height-lt :
      (order : List String)
      → IsOrdered (a ∷ []) order
      → IsNodup order
      → 0 < count a.source order
      → height order a.target < height order a.source
  unfolding height
  height-lt [] o d h = absurd (omega arith)
  height-lt (u ∷ order) o d h = ground (
    arith,
    height-lt order o.1 (λ v. ground (arith, d v)),
    height-le order a.target,
    target-mem order o.1,
    o.0.0,
    d a.target,
    eq_iff u a.source,
    eq_iff u a.target,
  )

IsOrdered-head :
    (a : Arc) (arcs : List Arc) (order : List String)
    → IsOrdered (a ∷ arcs) order
    → IsOrdered (a ∷ []) order × IsOrdered arcs order
IsOrdered-head a arcs [] h = (tt, tt)
IsOrdered-head a arcs (u ∷ order) h =
    let (one, rest) = IsOrdered-head a arcs order h.1 in (((h.0.0, tt), one), (h.0.1, rest))

finish_rank-IsRanked :
    (nodes : List String) (arcs : List Arc) (order : List String)
    → IsOrdered arcs order
    → IsNodup order
    → IsClosed nodes arcs
    → ((v : String) → 0 < count v nodes → 0 < count v order)
    → IsRanked (finish_rank order) arcs
finish_rank-IsRanked nodes [] order o d c h = tt
finish_rank-IsRanked nodes (a ∷ arcs) order o d c h =
    let (one, rest) = IsOrdered-head a arcs order o in
    (
      omega (arith, height-lt a order one d (h a.source c.0.0), height-le order a.source),
      finish_rank-IsRanked nodes arcs order rest d c.1 h,
    )

All-count :
    (s : Search) (nodes : List String) (v : String)
    → All (λ n. s.color n ≡ black) nodes
    → 0 < count v nodes
    → s.color v ≡ black
All-count s [] v all h = absurd (omega arith)
All-count s (n ∷ nodes) v all h = elim (Bool-cases (n == v)) [
  | inl here ↦ subst (λ x. s.color x ≡ black) ((eq_iff n v).0 here) all.0
  | inr other ↦ All-count s nodes v all.1 (ground arith)
]

module _ (nodes : List String) (arcs : List Arc) (closed : IsClosed nodes arcs) where
  -- No cycle found means that some ranking of the nodes grows along every arc.
  pub find_cycle-IsRanked :
      (s : Search) → find_cycle nodes arcs ≡ done s → (rank : String → ℕ) × IsRanked rank arcs
  unfolding find_cycle
  find_cycle-IsRanked s h =
      let start : Finished arcs unvisited [] = record {
        blacks = λ w e. cc;
        members = λ w m. absurd (omega arith);
        once = λ w. omega arith;
        ordered = tt;
      } in
      let (order, ext, all) =
        visit_all-Extends arcs (length (universe nodes arcs)) nodes unvisited s [] start (λ w e. cc)
          h in
      let f = ext.finished in
      (
        finish_rank order,
        finish_rank-IsRanked nodes arcs order f.ordered f.once closed
            (λ v m. f.blacks v (All-count s nodes v all m)),
      )

  -- After a validation that found no cycle the layering does not fail.
  pub layers_after_search :
      (s : Search)
      → IsNodup nodes
      → find_cycle nodes arcs ≡ done s
      → (ls : List (List String)) × (layers nodes arcs ≡ some ls)
  layers_after_search s once h =
      let (rank, ranked) = find_cycle-IsRanked s h in
      layers_total nodes arcs once closed rank ranked
