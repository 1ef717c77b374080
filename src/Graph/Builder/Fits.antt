-- ===== src/Graph/Builder/Fits.antt =====
-- What the checks of targets and sources establish of the edges that follow them.
use llm_agent_flow.Base.{
  String, true, ◌≡◌, refl, inl, inr, Option, none, some, [], ◌∷◌, Result, ok, All, All-map, arith,
  eq_iff, eq_refl, ◌==◌, Bool-cases,
}
use llm_agent_flow.Graph.Types.{
  GoType, Reflect, Verdict, fits, deferred, unfit, panics, accepts, assignable,
}
use llm_agent_flow.Graph.Adapters.{Entries}
use llm_agent_flow.Graph.Builder.{NodeRef, GraphError, lookup}
use llm_agent_flow.Graph.Builder.FanOut.{
  target_edges, source_edges, has_type, admitted, check_sources, out_types, elem_types,
  check_targets,
}
use llm_agent_flow.Graph.Compile.{port_type}
use llm_agent_flow.Graph.Builder.Plain.{accepts-port_in}
use llm_agent_flow.Graph.Builder.Typed.{UniqueKeys, IsRef, IsFit}

pub admitted-ok :
    (v : Verdict) (e : GraphError) (rest : Result GraphError (Unit {0}))
    → admitted v e rest ≡ ok tt
    → (accepts v ≡ true) × (rest ≡ ok tt)
admitted-ok fits e rest h = (refl, h)
admitted-ok deferred e rest h = (refl, h)
admitted-ok unfit e rest h = cc
admitted-ok panics e rest h = cc

-- A port under a key that no other source has.
pub lookup-out_types :
    (k : String) (m : Entries NodeRef) → lookup k m ≡ none → lookup k (out_types m) ≡ none
unfolding lookup
lookup-out_types k [] h = refl
lookup-out_types k ((j, src) ∷ m) h = ground (arith, lookup-out_types k m)

pub out_types-found :
    (m : Entries NodeRef) → UniqueKeys m → All (λ p. lookup p.0 (out_types m) ≡ some p.1.out_t) m
unfolding lookup
out_types-found [] u = tt
out_types-found ((k, src) ∷ m) (fresh, u) = (
  rw (eq_refl k) refl,
  All-map
      (λ (p : String × NodeRef) found. elim (Bool-cases (k == p.0)) [
        | inl e ↦ let no = lookup-out_types k m fresh in let same = (eq_iff k p.0).0 e in cc
        | inr e ↦ rw e found
      ])
      m (out_types-found m u),
)

pub elem_types-found :
    (t : GoType) (m : Entries NodeRef) → All (λ p. lookup p.0 (elem_types t m) ≡ some (some t)) m
unfolding lookup
elem_types-found t [] = tt
elem_types-found t ((k, src) ∷ m) = (
  rw (eq_refl k) refl,
  All-map
      (λ (p : String × NodeRef) found. elim (Bool-cases (k == p.0)) [
        | inl e ↦ rw e refl
        | inr e ↦ rw e found
      ])
      m (elem_types-found t m),
)

pub assignable_self :
    (reflect : Reflect) (t : Option GoType) → accepts (assignable reflect t t) ≡ true
unfolding assignable
assignable_self reflect none = refl
assignable_self reflect (some t) = rw (eq_refl t) refl

pub has_type-fits :
    (reflect : Reflect) (out : Option GoType) (t : GoType)
    → has_type out t ≡ true
    → assignable reflect out (some t) ≡ fits
unfolding assignable
has_type-fits reflect none t h = cc
has_type-fits reflect (some s) t h = rw h refl

-- The sources of a merge give what its ports take.
pub check_sources-fits :
    (reflect : Reflect) (id : String) (t : GoType) (m : Entries NodeRef)
    → check_sources id t m ≡ ok tt
    → All (λ p. accepts (assignable reflect p.1.out_t (some t)) ≡ true) m
unfolding check_sources
check_sources-fits reflect id t [] h = tt
check_sources-fits reflect id t ((k, src) ∷ m) h = elim (Bool-cases (k == "")) [
  | inl e ↦ let bad = rw e at h in cc
  | inr e ↦ elim (Bool-cases (has_type src.out_t t)) [
    | inl f ↦ (
      rw (has_type-fits reflect src.out_t t f) refl,
      check_sources-fits reflect id t m (rw (e, f) at h),
    )
    | inr f ↦ let bad = rw (e, f) at h in cc
  ]
]

module _ (reflect : Reflect) where
  -- A target that the check accepted takes the type of the values.
  pub check_targets-fits :
      (id : String) (t : GoType) (m : Entries NodeRef)
      → check_targets reflect id t m ≡ ok tt
      → All (λ p. accepts (assignable reflect (some t) p.1.in_t) ≡ true) m
  unfolding check_targets
  check_targets-fits id t [] h = tt
  check_targets-fits id t ((k, target) ∷ m) h = elim (Bool-cases (k == "")) [
    | inl e ↦ let bad = rw e at h in cc
    | inr e ↦
        let (fit, rest) = admitted-ok (assignable reflect (some t) target.in_t) _ _ (rw e at h) in
        (fit, check_targets-fits id t m rest)
  ]

  -- The edges of a new node, with `c` as the references after it.
  pub target_edges-IsFit :
      (c : String → Option NodeRef) (id : String) (ref : NodeRef) (t : GoType) (m : Entries NodeRef)
      → c id ≡ some ref
      → ref.out_t ≡ some t
      → All (λ p. (c p.1.id ≡ some p.1) × IsRef p.1.id p.1) m
      → All (λ p. accepts (assignable reflect (some t) p.1.in_t) ≡ true) m
      → All (IsFit reflect c) (target_edges id m)
  unfolding target_edges
  target_edges-IsFit c id ref t [] here out held fit = tt
  target_edges-IsFit c id ref t ((k, to) ∷ m) here out held fit = (
    (
      ref,
      to,
      here,
      held.0.0,
      rw out (accepts-port_in reflect (some t) to (λ h. cc) held.0.1.2 fit.0),
    ),
    target_edges-IsFit c id ref t m here out held.1 fit.1,
  )

  pub source_edges-IsFit :
      (c : String → Option NodeRef) (id : String) (ref : NodeRef) (m : Entries NodeRef)
      → c id ≡ some ref
      → All (λ p. c p.1.id ≡ some p.1) m
      → All (λ p. accepts (assignable reflect p.1.out_t (port_type ref p.0)) ≡ true) m
      → All (IsFit reflect c) (source_edges id m)
  unfolding source_edges
  source_edges-IsFit c id ref [] here held fit = tt
  source_edges-IsFit c id ref ((k, src) ∷ m) here held fit =
      ((src, ref, held.0, here, fit.0), source_edges-IsFit c id ref m here held.1 fit.1)
