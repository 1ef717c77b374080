-- ===== src/V2/Structure/Decides.antt =====
-- The hash of the structure tells flows with a different structure apart.
use llm_agent_flow.Base.{
  ℕ, ◌+◌, ◌<◌, String, ◌≡◌, refl, sym, ap, subst, ◌∙◌, ◌↔◌, List, [], ◌∷◌, map, ok, err, wrap,
  count, count-sort, sort, sort_unique, arith, eq_iff, inl, inr, >>=-eq-ok, ok-injective,
  Bool-cases, ◌==◌,
}
use llm_agent_flow.V2.Ir.{Edge, Mapping, Flow}
use llm_agent_flow.V2.Errors.{Run, descriptor_failed}
use llm_agent_flow.V2.Engine.{Nodes}
use llm_agent_flow.V2.Structure.{
  Descriptor, NodeDesc, EdgeDesc, MappingDesc, flow_ids, flow_types, describe, port_names,
  node_descs, edge_descs, mapping_descs, structural_hash,
}
use llm_agent_flow.V2.Structure.Same.{
  SameKind, SameStructure, SameNames-port_names, node_descs-ok, ids-node_descs, node_descs-same,
}

-- Equal descriptors of the same ids are of nodes with the same types and ports.
node_descs-reads :
    (types others : String → String) (nodes resolved : Nodes) (ids : List String)
    (nds : List NodeDesc) (v : String)
    → node_descs types nodes ids ≡ ok nds
    → node_descs others resolved ids ≡ ok nds
    → 0 < count v ids
    → (types v ≡ others v) × SameKind (nodes v) (resolved v)
node_descs-reads types others nodes resolved [] nds v h k m = absurd (omega arith)
node_descs-reads types others nodes resolved (id ∷ ids) nds v h k m =
    let (a, rest, found, e, last) = node_descs-ok types nodes id ids nds h in
    let (b, rest', found', e', last') = node_descs-ok others resolved id ids nds k in
    let both = last ∙ sym last' in
    let same_rest : rest ≡ rest' = cc in
    elim (Bool-cases (id == v)) [
      | inl here ↦
          let typed : types id ≡ others id = cc in
          let ins : port_names a.inputs ≡ port_names b.inputs = cc in
          let outs : port_names a.outputs ≡ port_names b.outputs = cc in
          let kinds : SameKind (nodes id) (resolved id) =
            rw (found, found')
              (
                SameNames-port_names a.inputs b.inputs ins,
                SameNames-port_names a.outputs b.outputs outs,
              ) in
          subst (λ v. (types v ≡ others v) × SameKind (nodes v) (resolved v)) ((eq_iff id v).0 here)
            (typed, kinds)
      | inr other ↦
          node_descs-reads types others nodes resolved ids rest v e (rw same_rest e')
            (ground (arith, other))
    ]

abbrev edge_of : EdgeDesc → Edge
edge_of d = record {
  source = record { node = d.source_node; port = d.source_port };
  target = record { node = d.target_node; port = d.target_port };
  condition = d.condition;
}

edges-read : (i : ℕ) (edges : List Edge) → map edge_of (edge_descs i edges) ≡ edges
unfolding edge_descs
edges-read i [] = refl
edges-read i (e ∷ edges) = ap (λ l. e ∷ l) (edges-read (i + 1) edges)

abbrev mapping_of : MappingDesc → Mapping
mapping_of d = record {
  source = record {
    input = d.source_in;
    node = d.source_node;
    port = d.source_port;
    path = d.source_path;
  };
  target = record { node = d.target_node; port = d.target_port; path = d.target_path };
}

mappings-read :
    (i : ℕ) (mappings : List Mapping) → map mapping_of (mapping_descs i mappings) ≡ mappings
unfolding mapping_descs
mappings-read i [] = refl
mappings-read i (m ∷ mappings) = ap (λ l. m ∷ l) (mappings-read (i + 1) mappings)

describe-ok :
    (f : Flow) (nodes : Nodes) (d : Descriptor)
    → describe f nodes ≡ ok d
    → (nds : List NodeDesc) × (node_descs (flow_types f) nodes (sort (flow_ids f)) ≡ ok nds)
      × (record { nodes = nds; edges = edge_descs 0 f.edges; mappings = mapping_descs 0 f.mappings }
          ≡ d)
unfolding describe
describe-ok f nodes d h =
    let (nds, e, last) = >>=-eq-ok (node_descs (flow_types f) nodes (sort (flow_ids f))) _ h in
    (nds, e, ok-injective last)

-- Equal descriptors are of the same structure.
describe-SameStructure :
    (f g : Flow) (nodes resolved : Nodes) (d : Descriptor)
    → describe f nodes ≡ ok d
    → describe g resolved ≡ ok d
    → SameStructure f nodes g resolved
describe-SameStructure f g nodes resolved d h k =
    let (nds, e, last) = describe-ok f nodes d h in
    let (nds', e', last') = describe-ok g resolved d k in
    let both = last ∙ sym last' in
    let same_nodes : nds ≡ nds' = ap (λ (d : Descriptor). d.nodes) both in
    let sorted : sort (flow_ids f) ≡ sort (flow_ids g) =
      sym (ids-node_descs (flow_types f) nodes (sort (flow_ids f)) nds e)
      ∙ ap (map (λ (d : NodeDesc). d.id)) same_nodes
      ∙ ids-node_descs (flow_types g) resolved (sort (flow_ids g)) nds' e' in
    let reads = λ (v : String) (m : 0 < count v (flow_ids f)).
      node_descs-reads (flow_types f) (flow_types g) nodes resolved (sort (flow_ids f)) nds v e
        (rw (sorted, same_nodes) e') (omega (arith, m, count-sort v (flow_ids f))) in
    record {
      ids = λ v. sym (count-sort v (flow_ids f)) ∙ ap (count v) sorted ∙ count-sort v (flow_ids g);
      types = λ v m. (reads v m).0;
      kinds = λ v m. (reads v m).1;
      edges =
          sym (edges-read 0 f.edges)
          ∙ ap (λ (d : Descriptor). map edge_of d.edges) both
          ∙ edges-read 0 g.edges;
      mappings =
          sym (mappings-read 0 f.mappings)
          ∙ ap (λ (d : Descriptor). map mapping_of d.mappings) both
          ∙ mappings-read 0 g.mappings;
    }

SameStructure-describe :
    (f g : Flow) (nodes resolved : Nodes)
    → SameStructure f nodes g resolved
    → describe f nodes ≡ describe g resolved
unfolding describe
SameStructure-describe f g nodes resolved same =
    let sorted : sort (flow_ids f) ≡ sort (flow_ids g) =
      sort_unique (flow_ids f) (flow_ids g) same.ids in
    let described =
      node_descs-same (flow_types f) (flow_types g) nodes resolved (sort (flow_ids f))
        (λ v m. same.types v (omega (arith, m, count-sort v (flow_ids f))))
        (λ v m. same.kinds v (omega (arith, m, count-sort v (flow_ids f)))) in
    rw (describe, described, sorted, same.edges, same.mappings) refl

structural_hash-ok :
    (marshal : Descriptor → Run String) (sum : String → String) (f : Flow) (nodes : Nodes)
    (hash : String)
    → structural_hash marshal sum f nodes ≡ ok hash
    → (d : Descriptor) × (text : String) × (describe f nodes ≡ ok d)
      × (marshal d ≡ ok text)
      × (sum text ≡ hash)
unfolding structural_hash
structural_hash-ok marshal sum f nodes hash h =
    let (d, described, after) = >>=-eq-ok (describe f nodes) _ h in
    let (text, marshalled, last) = >>=-eq-ok (wrap descriptor_failed (marshal d)) _ after in
    (d, text, described, wrap-eq-ok (marshal d) marshalled, ok-injective last)
  where
    wrap-eq-ok : (m : Run String) {text : String} → wrap descriptor_failed m ≡ ok text → m ≡ ok text
    wrap-eq-ok (ok t) h = cc
    wrap-eq-ok (err e) h = cc

-- Where a flow with its nodes has a structural hash, another flow with its nodes has the same one exactly
-- if the structure is the same: the same node ids in any order, the same type for each id, nodes whose
-- ports have the same names in any order, and the same edges and mappings in the same order; all else,
-- such as the configurations, may differ. For the one direction, the JSON texts and the sums of the two
-- flows' descriptors do not collide.
pub structural_hash-iff-SameStructure :
    (marshal : Descriptor → Run String) (sum : String → String) (f g : Flow)
    (nodes resolved : Nodes) (hash : String)
    → structural_hash marshal sum f nodes ≡ ok hash
    → ((a b : Descriptor) (text other : String)
        → describe f nodes ≡ ok a
        → describe g resolved ≡ ok b
        → marshal a ≡ ok text
        → marshal b ≡ ok other
        → sum text ≡ sum other
        → a ≡ b)
    → (structural_hash marshal sum g resolved ≡ ok hash) ↔ SameStructure f nodes g resolved
unfolding structural_hash
structural_hash-iff-SameStructure marshal sum f g nodes resolved hash hashed distinct = (
  λ same.
      let (a, text, described, marshalled, summed) =
        structural_hash-ok marshal sum f nodes hash hashed in
      let (b, other, described', marshalled', summed') =
        structural_hash-ok marshal sum g resolved hash same in
      let equal =
        distinct a b text other described described' marshalled marshalled'
          (summed ∙ sym summed') in
      describe-SameStructure f g nodes resolved a described (rw equal described'),
  λ same. rw (structural_hash, ← SameStructure-describe f g nodes resolved same) hashed,
)
