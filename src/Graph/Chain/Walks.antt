-- ===== src/Graph/Chain/Walks.antt =====
-- The walk along the successors ends, and what it visits is a chain of the graph.
use llm_agent_flow.Base.{
  ℕ, zero, suc, ◌+◌, ◌<◌, arith, String, ◌≡◌, ◌≢◌, refl, ap, subst, ◌∙◌, ◌⊎◌, inl, inr, Option,
  some, List, [], ◌∷◌, map, length, count, length-le_of_count, eq_iff, ◌==◌, Bool-cases,
  Option-cases,
}
use llm_agent_flow.V2.Validate.{has}
use llm_agent_flow.V2.Validate.Loops.{has_lem}
use llm_agent_flow.V2.Layers.Order.{IsNodup}
use llm_agent_flow.Graph.Adapters.{port_in, port_out}
use llm_agent_flow.Graph.Builder.{GraphEdge}
use llm_agent_flow.Graph.Chain.{Wires, add_wire, wire, walked, out_of_fuel, walk}

-- An edge from the output of one node to the input of the other.
abbrev pub HasEdge : List GraphEdge → String → String → Type 0
HasEdge [] a b = ⊥
HasEdge (e ∷ es) a b =
    ((e.from ≡ a) × (e.to ≡ b) × (e.from_port ≡ port_out) × (e.to_port ≡ port_in)) ⊎ HasEdge es a b

-- From the entry along edges, the last node first.
abbrev pub IsChain : List GraphEdge → String → List String → Type 0
IsChain es entry [] = ⊥
IsChain es entry (x ∷ []) = x ≡ entry
IsChain es entry (y ∷ x ∷ rest) = HasEdge es x y × IsChain es entry (x ∷ rest)

abbrev sources : List GraphEdge → List String
sources = map (λ e. e.from)

pub wire-HasEdge :
    (es : List GraphEdge) (w after : Wires) (v t : String)
    → wire es w ≡ some after
    → after.next v ≡ some t
    → HasEdge es v t ⊎ (w.next v ≡ some t)
unfolding wire
wire-HasEdge [] w after v t h found =
    let same : w ≡ after = cc in inr (ap (λ (x : Wires). x.next v) same ∙ found)
wire-HasEdge (e ∷ es) w after v t h found = elim (Bool-cases (e.from_port == port_out)) [
  | inr off ↦ let bad = rw (wire, off) at h in absurd (ground arith)
  | inl out ↦ elim (Bool-cases (e.to_port == port_in)) [
    | inr off ↦ let bad = rw (wire, out, off) at h in absurd (ground arith)
    | inl arrives ↦
        elim (wire-HasEdge es (add_wire e w) after v t (rw (wire, out, arrives) at h) found) [
          | inl later ↦ inl (inr later)
          | inr now ↦ elim (Bool-cases (e.from == v)) [
            | inl here ↦
                let target = rw here at now in
                inl (
                  inl (
                    (eq_iff e.from v).0 here,
                    cc,
                    (eq_iff e.from_port port_out).0 out,
                    (eq_iff e.to_port port_in).0 arrives,
                  ))
            | inr other ↦ inr (rw other at now)
          ]
        ]
  ]
]

source-HasEdge : (es : List GraphEdge) (v t : String) → HasEdge es v t → 0 < count v (sources es)
source-HasEdge [] v t h = absurd h
source-HasEdge (e ∷ es) v t (inl here) = ground (arith, eq_iff e.from v, here.0)
source-HasEdge (e ∷ es) v t (inr later) = ground (arith, source-HasEdge es v t later)

sources-length : (es : List GraphEdge) → length (sources es) ≡ length es
sources-length [] = refl
sources-length (e ∷ es) = omega (arith, sources-length es)

module _ (es : List GraphEdge) (next : String → Option String)
    (along : (v t : String) → next v ≡ some t → HasEdge es v t) where
  -- The walk visits no more nodes than there are edges before it ends.
  pub walk-ne_out_of_fuel :
      (fuel : ℕ) (cur : String) (order : List String)
      → IsNodup order
      → ((v : String) → 0 < count v order → 0 < count v (sources es))
      → length es < fuel + length order
      → walk next fuel cur order ≢ out_of_fuel
  unfolding walk has
  walk-ne_out_of_fuel zero cur order once from enough h = absurd (
      omega (
        arith,
        enough,
        sources-length es,
        length-le_of_count order (sources es) (λ v. ground (arith, once v, from v)),
      ))
  walk-ne_out_of_fuel (suc fuel) cur order once from enough h = elim (Bool-cases (has order cur)) [
    | inl seen ↦ let bad = rw (walk, seen) at h in absurd (ground arith)
    | inr new ↦ elim (Option-cases (next cur)) [
      | inl last ↦ let bad = rw (walk, new, last) at h in absurd (ground arith)
      | inr (succ, found) ↦
          walk-ne_out_of_fuel fuel succ (cur ∷ order)
            (λ v. ground (arith, once v, eq_iff cur v, has_lem order cur, new))
            (λ v there.
              ground
                (arith, from v, eq_iff cur v, source-HasEdge es cur succ (along cur succ found)))
            (omega (arith, enough)) (rw (walk, new, found) at h)
    ]
  ]

  pub walk-IsChain :
      (entry : String) (fuel : ℕ) (cur : String) (order xs : List String)
      → IsNodup order
      → IsChain es entry (cur ∷ order)
      → walk next fuel cur order ≡ walked xs
      → IsNodup xs × IsChain es entry xs
  unfolding walk has
  walk-IsChain entry zero cur order xs once chain h = absurd (ground arith)
  walk-IsChain entry (suc fuel) cur order xs once chain h = elim (Bool-cases (has order cur)) [
    | inl seen ↦ let bad = rw (walk, seen) at h in absurd (ground arith)
    | inr new ↦
        let fresh : IsNodup (cur ∷ order) =
          λ v. ground (arith, once v, eq_iff cur v, has_lem order cur, new) in
        elim (Option-cases (next cur)) [
          | inl last ↦
              let stop = rw (walk, new, last) at h in
              let same : cur ∷ order ≡ xs = cc in
              (subst IsNodup same fresh, subst (IsChain es entry) same chain)
          | inr (succ, found) ↦
              walk-IsChain entry fuel succ (cur ∷ order) xs fresh (along cur succ found, chain)
                (rw (walk, new, found) at h)
        ]
  ]
