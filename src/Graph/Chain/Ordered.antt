-- ===== src/Graph/Chain/Ordered.antt =====
-- The walk of a graph ends, and the order that it finds is a chain.
use llm_agent_flow.Base.{
  ℕ, ◌+◌, arith, String, true, ◌≡◌, ◌≢◌, refl, subst, inl, inr, Option, some, List, [], length,
  nat_eq, Bool-cases, Option-match, Bool-match,
}
use llm_agent_flow.V2.Layers.Order.{IsNodup}
use llm_agent_flow.Graph.Builder.{Graph}
use llm_agent_flow.Graph.Chain.{
  Wires, no_wiring, wire, one_each_way, Walk, walked, looped, out_of_fuel, walk, ends_at,
  whole_walk, linear_order,
}
use llm_agent_flow.Graph.Chain.Walks.{
  HasEdge, IsChain, wire-HasEdge, walk-ne_out_of_fuel, walk-IsChain,
}

along :
    (g : Graph) (w : Wires)
    → wire g.edges no_wiring ≡ some w
    → (v t : String) → w.next v ≡ some t
    → HasEdge g.edges v t
along g w wired v t found = elim (wire-HasEdge g.edges no_wiring w v t wired found) [
  | inl e ↦ e
  | inr none_yet ↦ absurd (ground arith)
]

-- The walk of a graph is over after as many steps as it has edges, and one more, since a node that is
-- met again ends it.
pub walk_ends :
    (g : Graph) (entry : String) (w : Wires)
    → wire g.edges no_wiring ≡ some w
    → walk w.next (length g.edges + 1) entry [] ≢ out_of_fuel
walk_ends g entry w wired =
    walk-ne_out_of_fuel g.edges w.next (along g w wired) (length g.edges + 1) entry []
      (λ v. omega arith) (λ v h. absurd (omega arith)) (omega arith)

whole_walk-eq-some :
    (n : ℕ) (exit : String) (w : Walk) (order : List String)
    → whole_walk n exit w ≡ some order
    → (w ≡ walked order) × (length order ≡ n) × (ends_at order exit ≡ true)
whole_walk-eq-some n exit looped order h = absurd (ground arith)
whole_walk-eq-some n exit out_of_fuel order h = absurd (ground arith)
whole_walk-eq-some n exit (walked xs) order h = elim (Bool-cases (nat_eq (length xs) n)) [
  | inr e ↦ let bad = rw e at h in absurd (ground arith)
  | inl e ↦ elim (Bool-cases (ends_at xs exit)) [
    | inr f ↦ let bad = rw (e, f) at h in absurd (ground arith)
    | inl f ↦
        let same : xs ≡ order = cc in
        subst (λ ys. (walked xs ≡ walked ys) × (length ys ≡ n) × (ends_at ys exit ≡ true)) same
          (refl, ground arith, f)
  ]
]

pub linear_order-IsChain :
    (g : Graph) (entry exit : String) (order : List String)
    → linear_order g entry exit ≡ some order
    → IsNodup order
      × IsChain g.edges entry order
      × (length order ≡ length g.nodes)
      × (ends_at order exit ≡ true)
unfolding linear_order
linear_order-IsChain g entry exit order h =
    let P : Option (List String) → Type 0 = λ o.
      o ≡ some order
      → IsNodup order
        × IsChain g.edges entry order
        × (length order ≡ length g.nodes)
        × (ends_at order exit ≡ true) in
    Option-match P (wire g.edges no_wiring) (λ _ e. absurd (ground arith))
      (λ w wired.
        Bool-match P (one_each_way w g.nodes)
          (λ _ e.
            let (whole, all, at_exit) = whole_walk-eq-some (length g.nodes) exit _ order e in
            let (once, chain) =
              walk-IsChain g.edges w.next (along g w wired) entry (length g.edges + 1) entry []
                order (λ v. omega arith) refl whole in
            (once, chain, all, at_exit))
          (λ _ e. absurd (ground arith)))
      h
