-- ===== src/Graph/Builder/Plain.antt =====
-- The edges, the ends and the nodes with one input keep the graph typed.
use llm_agent_flow.Base.{
  Bool, ok, err, String, true, false, ◌≡◌, ◌≢◌, refl, sym, ap, ◌⊎◌, inl, inr, Option, none, some,
  arith, eq_iff, eq_refl, ◌==◌, Bool-cases, Option-match, Bool-match,
}
use llm_agent_flow.V2.Nodes.{NodeKind}
use llm_agent_flow.Graph.Types.{GoType, any_type, Reflect, accepts, assignable}
use llm_agent_flow.Graph.Adapters.{port_in}
use llm_agent_flow.Graph.Builder.{
  then_mark, NodeRef, NodeLowering, Graph, Built, latch, ref_of, lookup, mark_in_process,
  mark_serializable, add_closure_node, add_passthrough_node, add_edge, add_edge_at, add_edge_to,
  set_entry, set_exit,
}
use llm_agent_flow.Graph.Compile.{port_type, or_empty}
use llm_agent_flow.Graph.Builder.Typed.{
  IsHeld, IsTyped, IsTypedAs-set, IsTypedAs-edges, IsTypedAs-unmark, IsTypedAs-lower,
  IsTypedAs-entry, IsTypedAs-exit, checked-IsTyped, then_mark-IsTyped,
}

module _ (reflect : Reflect) where
  accepts-any :
      (t : GoType) (to : Option GoType)
      → (t == any_type) ≡ true
      → accepts (assignable reflect (some t) to) ≡ true
  unfolding assignable
  accepts-any t none h = rw h refl
  accepts-any t (some to) h = ground (arith, eq_iff t any_type, eq_iff t to, eq_iff to any_type)

  -- An edge that was accepted for the input type of its target is accepted for its input port.
  pub accepts-port_in :
      (out : Option GoType) (to : NodeRef)
      → out ≢ none
      → (to.in_ports ≡ none) ⊎ (to.in_t ≡ none)
      → accepts (assignable reflect out to.in_t) ≡ true
      → accepts (assignable reflect out (port_type to port_in)) ≡ true
  unfolding port_type assignable
  accepts-port_in none to typed shape h = absurd (typed refl)
  accepts-port_in (some t) to typed (inl single) h = rw (port_type, single) h
  accepts-port_in (some t) to typed (inr untyped) h =
      accepts-any t (port_type to port_in) (elim (Bool-cases (t == any_type)) [
        | inl e ↦ e
        | inr e ↦ let bad = simp (assignable, untyped, e) at h in cc
      ])

  pub add_edge-IsTyped :
      (g : Graph) (from to : NodeRef)
      → IsTyped reflect g
      → IsHeld g from
      → IsHeld g to
      → IsTyped reflect (add_edge reflect g from to).1
  unfolding add_edge
  add_edge-IsTyped g from to typed hf ht = checked-IsTyped reflect _ g _ _ typed (λ fit.
      IsTypedAs-edges reflect typed _ (
        (
          from,
          to,
          hf,
          ht,
          accepts-port_in from.out_t to (typed.refs from.id from hf).1 (typed.refs to.id to ht).2
              fit,
        ),
        tt,
      ))

  pub add_edge_to-IsTyped :
      (g : Graph) (from to : NodeRef) (to_port : String)
      → IsTyped reflect g
      → IsHeld g from
      → IsHeld g to
      → IsTyped reflect (add_edge_to reflect g from to to_port).1
  unfolding add_edge_to latch port_type
  add_edge_to-IsTyped g from to to_port typed hf ht =
      let P : Built (Unit {0}) → Type 0 = λ b. IsTyped reflect b.1 in
      Option-match P to.in_ports
        (λ single.
          Bool-match P (to_port == port_in)
            (λ e.
              joined to.in_t
                (Option-match (λ t. t ≡ to.in_t) to.in_ports (λ _. refl) (λ ports h. cc)))
            (λ e. typed))
        (λ ports multi.
          Option-match P (lookup to_port ports) (λ missing. typed)
            (λ t declared. joined t (rw multi (rw declared refl))))
    where
      joined :
          (t : Option GoType)
          → port_type to to_port ≡ t
          → IsTyped reflect (add_edge_at reflect g from to to_port t).1
      joined t at =
          checked-IsTyped reflect (assignable reflect from.out_t t) g _ _ typed
            (λ fit. IsTypedAs-edges reflect typed _ ((from, to, hf, ht, rw at fit), tt))

  -- The two ends of the graph.
  pub set_entry-IsTyped :
      (g : Graph) (to : NodeRef)
      → IsTyped reflect g
      → IsHeld g to
      → IsTyped reflect (set_entry reflect g to).1
  unfolding set_entry
  set_entry-IsTyped g to typed held =
      checked-IsTyped reflect _ g _ _ typed (λ fit. IsTypedAs-entry reflect typed to held fit)

  pub set_exit-IsTyped :
      (g : Graph) (from : NodeRef)
      → IsTyped reflect g
      → IsHeld g from
      → IsTyped reflect (set_exit reflect g from).1
  unfolding set_exit
  set_exit-IsTyped g from typed held =
      checked-IsTyped reflect _ g _ _ typed (λ fit. IsTypedAs-exit reflect typed from held fit)

  -- Nodes with one input and one output.
  pub add_closure_node-IsTyped :
      (streams : Bool) (reason : String) (kind : NodeKind) (g : Graph) (id : String)
      (in_t out_t : GoType)
      → IsTyped reflect g
      → IsTyped reflect (add_closure_node streams reason kind g id in_t out_t).1
  unfolding add_closure_node mark_in_process
  add_closure_node-IsTyped streams reason kind g id in_t out_t typed =
      then_mark-IsTyped reflect g id _ _ kind streams _ typed (λ fresh.
        IsTypedAs-unmark reflect
          (IsTypedAs-set reflect typed _ id (ref_of id (some in_t) (some out_t)) fresh
            (rw (eq_refl id) refl) (λ k other. rw other refl) (refl, (λ h. cc), inl refl))
          id)

  -- The reason of a node that was added is given anew.
  pub remark-IsTyped :
      (id reason : String) (b : Built NodeRef)
      → IsTyped reflect b.1
      → IsTyped reflect (then_mark b (λ ref h. (ref, mark_in_process id reason h))).1
  unfolding mark_in_process
  remark-IsTyped id reason (ok ref, g) typed = IsTypedAs-unmark reflect typed id
  remark-IsTyped id reason (err e, g) typed = typed

  pub add_passthrough_node-IsTyped :
      (g : Graph) (id : String) (t : GoType)
      → IsTyped reflect g
      → IsTyped reflect (add_passthrough_node g id t).1
  unfolding add_passthrough_node mark_serializable
  add_passthrough_node-IsTyped g id t typed =
      then_mark-IsTyped reflect g id _ _ _ false _ typed (λ fresh.
        IsTypedAs-lower reflect
          (IsTypedAs-set reflect typed _ id (ref_of id (some t) (some t)) fresh
            (rw (eq_refl id) refl) (λ k other. rw other refl) (refl, (λ h. cc), inl refl))
          _
          (λ k l found. elim (Bool-cases (id == k)) [
            | inl e ↦
                let same = rw e at found in
                ap (λ (o : Option NodeLowering). (or_empty o).typ) (sym same)
            | inr e ↦ typed.builtin k l (rw e at found)
          ]))
