-- ===== src/Graph/Builder/Typed.antt =====
-- What the operations of the builder keep true of the graph.
use llm_agent_flow.Base.{
  String, Bool, true, false, ◌≡◌, ◌≢◌, refl, sym, ◌⊎◌, inl, inr, Option, none, some, List, [], ◌∷◌,
  ◌++◌, All, All-map, All-append, subst, ◌∙◌, update, ◌==◌, Bool-cases, Option-cases, Bool-match,
  String-cases,
}
use llm_agent_flow.V2.Nodes.{NodeKind}
use llm_agent_flow.Graph.Types.{
  GoType, Reflect, Verdict, fits, deferred, unfit, panics, accepts, assignable,
}
use llm_agent_flow.Graph.Adapters.{Entries}
use llm_agent_flow.Graph.Builder.{
  NodeRef, NodeLowering, builtin_passthrough, GraphEdge, GraphError, Graph, Built, latch, stop,
  is_panic, checked, add_node, then_mark, ref_of, with_node, lookup,
}
use llm_agent_flow.Graph.Compile.{port_type}

-- The graph gave this reference out, with the types that it has.
abbrev pub IsHeld : Graph → NodeRef → Type 0
IsHeld g ref = g.by_id ref.id ≡ some ref

-- A reference has the id it is found under, and an output type; one with several input ports has no
-- type of its own.
abbrev pub IsRef : String → NodeRef → Type 0
IsRef id ref = (ref.id ≡ id) × (ref.out_t ≢ none) × ((ref.in_ports ≡ none) ⊎ (ref.in_t ≡ none))

-- Each reference of the map was given out by the graph.
abbrev pub AllHeld : Graph → Entries NodeRef → Type 0
AllHeld g = All (λ p. IsHeld g p.1)

-- The keys of a Go map are different.
abbrev pub UniqueKeys : Entries NodeRef → Type 0
UniqueKeys [] = Unit
UniqueKeys ((k, ref) ∷ m) = (lookup k m ≡ none) × UniqueKeys m

-- Writes under a new id take no reference back.
pub extends :
    (b c : String → Option NodeRef) (id : String)
    → b id ≡ none
    → ((k : String) → (id == k) ≡ false → c k ≡ b k)
    → (k : String) (r : NodeRef) → b k ≡ some r
    → c k ≡ some r
extends b c id fresh there k r found = elim (String-cases id k) [
  | inl e ↦ cc
  | inr e ↦ there k e ∙ found
]

module _ (reflect : Reflect) where
  -- Both ends of the edge are nodes, and their declared types fit.
  abbrev pub IsFit : (String → Option NodeRef) → GraphEdge → Type 0
  IsFit by_id e =
      (from : NodeRef) × (to : NodeRef) × (by_id e.from ≡ some from)
      × (by_id e.to ≡ some to)
      × (accepts (assignable reflect from.out_t (port_type to e.to_port)) ≡ true)

  pub record IsTypedAs (in_t out_t : GoType) (by_id : String → Option NodeRef)
      (edges : List GraphEdge) (entry exit : Option NodeRef)
      (lowering : String → Option NodeLowering) : Type 0 where
    pub refs : (id : String) (ref : NodeRef) → by_id id ≡ some ref → IsRef id ref
    pub edges_fit : All (IsFit by_id) edges
    pub entry_fits :
        (ref : NodeRef)
        → entry ≡ some ref
        → (by_id ref.id ≡ some ref) × (accepts (assignable reflect (some in_t) ref.in_t) ≡ true)
    pub exit_fits :
        (ref : NodeRef)
        → exit ≡ some ref
        → (by_id ref.id ≡ some ref) × (accepts (assignable reflect ref.out_t (some out_t)) ≡ true)
    -- the serializable form of a node is of a built-in type
    pub builtin :
        (id : String) (l : NodeLowering) → lowering id ≡ some l → l.typ ≡ builtin_passthrough

  abbrev pub IsTyped : Graph → Type 0
  IsTyped g = IsTypedAs g.in_t g.out_t g.by_id g.edges g.entry g.exit g.lowering

  -- What is known of the edges stays, when no reference is taken back.
  IsFit-mono :
      (b c : String → Option NodeRef)
      → ((k : String) (ref : NodeRef) → b k ≡ some ref → c k ≡ some ref)
      → (e : GraphEdge) → IsFit b e
      → IsFit c e
  IsFit-mono b c ext e (from, to, p, q, a) = (from, to, ext e.from from p, ext e.to to q, a)

  module _ {in_t out_t : GoType} {b : String → Option NodeRef} {edges : List GraphEdge}
      {entry exit : Option NodeRef} {lowering : String → Option NodeLowering}
      (typed : IsTypedAs in_t out_t b edges entry exit lowering) where
    -- A new reference under a new id, after any number of writes there.
    pub IsTypedAs-set :
        (c : String → Option NodeRef) (id : String) (ref : NodeRef)
        → b id ≡ none
        → c id ≡ some ref
        → ((k : String) → (id == k) ≡ false → c k ≡ b k)
        → IsRef id ref
        → IsTypedAs in_t out_t c edges entry exit lowering
    IsTypedAs-set c id ref fresh here there good = record {
      refs = λ k r found. elim (String-cases id k) [
        | inl e ↦ let same : ref ≡ r = cc in subst (λ j. IsRef j r) e (subst (IsRef id) same good)
        | inr e ↦ typed.refs k r (sym (there k e) ∙ found)
      ];
      edges_fit = All-map (IsFit-mono b c (extends b c id fresh there)) edges typed.edges_fit;
      entry_fits = λ r e.
          let (held, fit) = typed.entry_fits r e in (extends b c id fresh there r.id r held, fit);
      exit_fits = λ r e.
          let (held, fit) = typed.exit_fits r e in (extends b c id fresh there r.id r held, fit);
      builtin = typed.builtin;
    }

    pub IsTypedAs-edges :
        (more : List GraphEdge)
        → All (IsFit b) more
        → IsTypedAs in_t out_t b (edges ++ more) entry exit lowering
    IsTypedAs-edges more fit = record {
      refs = typed.refs;
      edges_fit = All-append (IsFit b) edges more typed.edges_fit fit;
      entry_fits = typed.entry_fits;
      exit_fits = typed.exit_fits;
      builtin = typed.builtin;
    }

    pub IsTypedAs-entry :
        (ref : NodeRef)
        → b ref.id ≡ some ref
        → accepts (assignable reflect (some in_t) ref.in_t) ≡ true
        → IsTypedAs in_t out_t b edges (some ref) exit lowering
    IsTypedAs-entry ref held fit = record {
      refs = typed.refs;
      edges_fit = typed.edges_fit;
      entry_fits = λ r e.
          let same : ref ≡ r = cc in
          subst (λ s. (b s.id ≡ some s) × (accepts (assignable reflect (some in_t) s.in_t) ≡ true))
            same (held, fit);
      exit_fits = typed.exit_fits;
      builtin = typed.builtin;
    }

    pub IsTypedAs-exit :
        (ref : NodeRef)
        → b ref.id ≡ some ref
        → accepts (assignable reflect ref.out_t (some out_t)) ≡ true
        → IsTypedAs in_t out_t b edges entry (some ref) lowering
    IsTypedAs-exit ref held fit = record {
      refs = typed.refs;
      edges_fit = typed.edges_fit;
      entry_fits = typed.entry_fits;
      exit_fits = λ r e.
          let same : ref ≡ r = cc in
          subst
            (λ s. (b s.id ≡ some s) × (accepts (assignable reflect s.out_t (some out_t)) ≡ true))
            same (held, fit);
      builtin = typed.builtin;
    }

    -- A node without a serializable form, and one that has the built-in form.
    pub IsTypedAs-lower :
        (new : String → Option NodeLowering)
        → ((id : String) (l : NodeLowering) → new id ≡ some l → l.typ ≡ builtin_passthrough)
        → IsTypedAs in_t out_t b edges entry exit new
    IsTypedAs-lower new h = record {
      refs = typed.refs;
      edges_fit = typed.edges_fit;
      entry_fits = typed.entry_fits;
      exit_fits = typed.exit_fits;
      builtin = h;
    }

    pub IsTypedAs-unmark :
        (id : String) → IsTypedAs in_t out_t b edges entry exit (update lowering id none)
    IsTypedAs-unmark id = IsTypedAs-lower (update lowering id none) (λ k l found.
        elim (Bool-cases (id == k)) [
          | inl e ↦ let no = rw e at found in cc
          | inr e ↦ typed.builtin k l (rw e at found)
        ])

  -- The calls that may stop.
  pub stop-IsTyped {ℓ} :
      (A : Type ℓ) (g : Graph) (e : GraphError) → IsTyped g → IsTyped (stop {A = A} g e).1
  unfolding latch
  stop-IsTyped A g e typed =
      Bool-match (λ (built : Built A). IsTyped built.1) (is_panic e) (λ _. typed) (λ _. typed)

  pub checked-IsTyped :
      (v : Verdict) (g : Graph) (e : GraphError) (h : Graph)
      → IsTyped g
      → (accepts v ≡ true → IsTyped h)
      → IsTyped (checked v g e h).1
  unfolding latch
  checked-IsTyped fits g e h typed next = next refl
  checked-IsTyped deferred g e h typed next = next refl
  checked-IsTyped unfit g e h typed next = typed
  checked-IsTyped panics g e h typed next = typed

  pub then_mark-IsTyped :
      (g : Graph) (id : String) (in_t out_t : Option GoType) (kind : NodeKind) (streams : Bool)
      (next : NodeRef → Graph → NodeRef × Graph)
      → IsTyped g
      → (g.by_id id ≡ none
          → IsTyped
              (next (ref_of id in_t out_t) (with_node (ref_of id in_t out_t) kind streams g)).1)
      → IsTyped (then_mark (add_node g id in_t out_t kind streams) next).1
  unfolding add_node latch
  then_mark-IsTyped g id in_t out_t kind streams next typed done = elim (Bool-cases (id == "")) [
    | inl e ↦ rw e typed
    | inr e ↦ elim (Option-cases (g.by_id id)) [
      | inl fresh ↦ rw (e, fresh) (done fresh)
      | inr (ref, found) ↦ rw (e, found) typed
    ]
  ]
