-- ===== src/V2/Structure/Same.antt =====
-- Which changes of a flow keep the hash of its structure.
use llm_agent_flow.Base.{
  ◌<◌, String, ◌≡◌, refl, ap, Option, none, some, List, [], ◌∷◌, map, ok, count, arith, inl, inr,
  Option-cases, >>=-eq-ok, ok-injective, eq_iff, sort_unique, count-sort,
}
use llm_agent_flow.V2.Ir.{Port, Flow}
use llm_agent_flow.V2.Nodes.{NodeKind}
use llm_agent_flow.V2.Engine.{Nodes}
use llm_agent_flow.V2.Structure.{NodeDesc, flow_ids, flow_types, port_names, node_descs}

-- The same names, as often, in any order.
abbrev pub SameNames : List String → List String → Type 0
SameNames xs ys = (v : String) → count v xs ≡ count v ys

abbrev pub SamePorts : List Port → List Port → Type 0
SamePorts ports others = SameNames (map (λ p. p.name) ports) (map (λ p. p.name) others)

-- Both unresolved, or with ports of the same names.
abbrev pub SameKind : Option NodeKind → Option NodeKind → Type 0
SameKind none none = Unit
SameKind none (some k) = ⊥
SameKind (some j) none = ⊥
SameKind (some j) (some k) = SamePorts j.inputs k.inputs × SamePorts j.outputs k.outputs

-- What the hash is of: the ids of the nodes, in any order, with the type of each, and the names of its
-- ports; the edges and the mappings, in their order.
pub record SameStructure (f : Flow) (nodes : Nodes) (g : Flow) (resolved : Nodes) : Type 0 where
  pub ids : SameNames (flow_ids f) (flow_ids g)
  pub types : (v : String) → 0 < count v (flow_ids f) → flow_types f v ≡ flow_types g v
  pub kinds : (v : String) → 0 < count v (flow_ids f) → SameKind (nodes v) (resolved v)
  pub edges : f.edges ≡ g.edges
  pub mappings : f.mappings ≡ g.mappings

pub SameNames-port_names :
    (ports others : List Port) → port_names ports ≡ port_names others → SamePorts ports others
unfolding port_names
SameNames-port_names ports others h v =
    let same : count v (port_names ports) ≡ count v (port_names others) = ap (count v) h in
    omega
      (arith, same, count-sort v (map (λ p. p.name) ports), count-sort v (map (λ p. p.name) others))

module _ (types others : String → String) (nodes resolved : Nodes) where
  node_descs-cons :
      (id : String) (ids : List String) (o p : Option NodeKind)
      → node_descs types nodes ids ≡ node_descs others resolved ids
      → types id ≡ others id
      → nodes id ≡ o
      → resolved id ≡ p
      → SameKind o p
      → node_descs types nodes (id ∷ ids) ≡ node_descs others resolved (id ∷ ids)
  unfolding node_descs port_names
  node_descs-cons id ids none none rest typed e f k = rw (node_descs, e, f) refl
  node_descs-cons id ids none (some b) rest typed e f k = absurd k
  node_descs-cons id ids (some a) none rest typed e f k = absurd k
  node_descs-cons id ids (some a) (some b) rest typed e f k =
      rw
        (
          node_descs,
          e,
          f,
          rest,
          typed,
          sort_unique (map (λ p. p.name) a.inputs) (map (λ p. p.name) b.inputs) k.0,
          sort_unique (map (λ p. p.name) a.outputs) (map (λ p. p.name) b.outputs) k.1,
        )
        refl

  pub node_descs-same :
      (ids : List String)
      → ((v : String) → 0 < count v ids → types v ≡ others v)
      → ((v : String) → 0 < count v ids → SameKind (nodes v) (resolved v))
      → node_descs types nodes ids ≡ node_descs others resolved ids
  unfolding node_descs
  node_descs-same [] typed same = refl
  node_descs-same (id ∷ ids) typed same =
      let here : 0 < count id (id ∷ ids) = ground (arith, eq_iff id id) in
      node_descs-cons id ids (nodes id) (resolved id)
        (node_descs-same ids (λ v m. typed v (ground arith)) (λ v m. same v (ground arith)))
        (typed id here) refl refl (same id here)

-- The parts of the descriptors of a list of nodes.
pub node_descs-ok :
    (types : String → String) (nodes : Nodes) (id : String) (ids : List String)
    (nds : List NodeDesc)
    → node_descs types nodes (id ∷ ids) ≡ ok nds
    → (k : NodeKind) × (rest : List NodeDesc) × (nodes id ≡ some k)
      × (node_descs types nodes ids ≡ ok rest)
      × (record {
        id = id;
        type = types id;
        inputs = port_names k.inputs;
        outputs = port_names k.outputs;
      }
            ∷ rest
          ≡ nds)
unfolding node_descs
node_descs-ok types nodes id ids nds h = elim (Option-cases (nodes id)) [
  | inl absent ↦ absurd (cc (rw (node_descs, absent) at h))
  | inr (k, found) ↦
      let (rest, e, last) =
        >>=-eq-ok (node_descs types nodes ids) _ (rw (node_descs, found) at h) in
      (k, rest, found, e, ok-injective last)
]

pub ids-node_descs :
    (types : String → String) (nodes : Nodes) (ids : List String) (nds : List NodeDesc)
    → node_descs types nodes ids ≡ ok nds
    → map (λ d. d.id) nds ≡ ids
unfolding node_descs
ids-node_descs types nodes [] nds h = rw (← ok-injective h) refl
ids-node_descs types nodes (id ∷ ids) nds h =
    let (k, rest, found, e, last) = node_descs-ok types nodes id ids nds h in
    rw (← last) (ap (λ l. id ∷ l) (ids-node_descs types nodes ids rest e))
