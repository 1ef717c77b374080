-- ===== src/Graph/Builder/Fans.antt =====
-- The nodes with several targets or several sources keep the graph typed.
use llm_agent_flow.Base.{
  String, true, false, ◌≡◌, refl, inl, inr, Option, none, some, [], ◌∷◌, Result, ok, err, All,
  All-map, update, eq_refl, sort, ◌==◌,
}
use llm_agent_flow.V2.Value.{Value}
use llm_agent_flow.V2.Nodes.{NodeKind}
use llm_agent_flow.Graph.Types.{GoType, Reflect, accepts, assignable}
use llm_agent_flow.Graph.Adapters.{Entries, Closure, combine_adapter}
use llm_agent_flow.Graph.Builder.{
  NodeRef, GraphError, Graph, Built, ref_of, lookup, mark_in_process, nil_func,
}
use llm_agent_flow.Graph.Builder.FanOut.{
  keys_of, target_edges, source_edges, after_check, finish_fan_out, finish_merge_node, check_keys,
  check_sources, out_types, elem_types, non_empty, check_targets, add_combine, add_merge,
  add_fan_out, combine_reason, merge_reason,
}
use llm_agent_flow.Graph.Compile.{port_type, or_nil}
use llm_agent_flow.Graph.Builder.Fits.{
  out_types-found, elem_types-found, assignable_self, check_sources-fits, check_targets-fits,
  target_edges-IsFit, source_edges-IsFit,
}
use llm_agent_flow.Graph.Builder.Typed.{
  AllHeld, UniqueKeys, IsTyped, extends, IsTypedAs-set, IsTypedAs-edges, IsTypedAs-unmark,
  stop-IsTyped, then_mark-IsTyped,
}

module _ (reflect : Reflect) where
  after_check-IsTyped :
      (m : Result GraphError (Unit {0})) (g : Graph) (next : Built NodeRef)
      → IsTyped reflect g
      → (m ≡ ok tt → IsTyped reflect next.1)
      → IsTyped reflect (after_check m g next).1
  after_check-IsTyped (ok done) g next typed go = go refl
  after_check-IsTyped (err e) g next typed go = stop-IsTyped reflect NodeRef g e typed

  finish_fan_out-IsTyped :
      (reason : String) (g : Graph) (id : String) (t : GoType) (m : Entries NodeRef)
      (kind : NodeKind)
      → IsTyped reflect g
      → AllHeld g m
      → All (λ p. accepts (assignable reflect (some t) p.1.in_t) ≡ true) m
      → IsTyped reflect (finish_fan_out reason g id t m kind).1
  unfolding finish_fan_out mark_in_process
  finish_fan_out-IsTyped reason g id t m kind typed held fit =
      then_mark-IsTyped reflect g id _ _ kind false _ typed (λ fresh.
        let ref = ref_of id (some t) (some t) in
        let c : String → Option NodeRef = update g.by_id id (some ref) in
        let here : c id ≡ some ref = rw (eq_refl id) refl in
        let there : (k : String) → (id == k) ≡ false → c k ≡ g.by_id k = λ k other. rw other refl in
        IsTypedAs-edges reflect
          (IsTypedAs-unmark reflect
            (IsTypedAs-set reflect typed c id ref fresh here there (refl, (λ h. cc), inl refl)) id)
          (target_edges id m)
          (target_edges-IsFit reflect c id ref t m here refl
            (All-map
              (λ (p : String × NodeRef) h.
                (extends g.by_id c id fresh there p.1.id p.1 h, typed.refs p.1.id p.1 h))
              m held)
            fit))

  finish_merge_node-IsTyped :
      (reason : String) (g : Graph) (id : String) (m : Entries NodeRef)
      (in_ports : Entries (Option GoType)) (out_t : GoType) (kind : NodeKind)
      → IsTyped reflect g
      → AllHeld g m
      → All (λ p. accepts (assignable reflect p.1.out_t (or_nil (lookup p.0 in_ports))) ≡ true) m
      → IsTyped reflect (finish_merge_node reason g id m in_ports out_t kind).1
  unfolding finish_merge_node mark_in_process port_type
  finish_merge_node-IsTyped reason g id m in_ports out_t kind typed held fit =
      then_mark-IsTyped reflect g id _ _ kind false _ typed (λ fresh.
        let ref = ref_of id none (some out_t) in
        let wired : NodeRef = record ref { in_ports = some in_ports } in
        let c : String → Option NodeRef = update (update g.by_id id (some ref)) id (some wired) in
        let here : c id ≡ some wired = rw (eq_refl id) refl in
        let there : (k : String) → (id == k) ≡ false → c k ≡ g.by_id k = λ k other. rw other refl in
        IsTypedAs-edges reflect
          (IsTypedAs-unmark reflect
            (IsTypedAs-set reflect typed c id wired fresh here there (refl, (λ h. cc), inr refl))
            id)
          (source_edges id m)
          (source_edges-IsFit reflect c id wired m here
            (All-map (λ (p : String × NodeRef) h. extends g.by_id c id fresh there p.1.id p.1 h) m
              held)
            fit))

  -- The whole of the calls, whatever the adapter.
  pub add_fan_out-IsTyped :
      (reason : String) (g : Graph) (id : String) (t : GoType) (m : Entries NodeRef)
      (kind : NodeKind)
      → IsTyped reflect g
      → AllHeld g m
      → IsTyped reflect (add_fan_out reflect reason g id t m kind).1
  unfolding add_fan_out
  add_fan_out-IsTyped reason g id t m kind typed held =
      after_check-IsTyped (non_empty id m) g
        (after_check (check_targets reflect id t m) g (finish_fan_out reason g id t m kind)) typed
        (λ _.
          after_check-IsTyped (check_targets reflect id t m) g (finish_fan_out reason g id t m kind)
            typed
            (λ checked.
              finish_fan_out-IsTyped reason g id t m kind typed held
                (check_targets-fits reflect id t m checked)))

  pub add_merge-IsTyped :
      (g : Graph) (id : String) (elem_t out_t : GoType) (m : Entries NodeRef) (kind : NodeKind)
      → IsTyped reflect g
      → AllHeld g m
      → IsTyped reflect (add_merge g id elem_t out_t m kind).1
  unfolding add_merge
  add_merge-IsTyped g id elem_t out_t m kind typed held =
      let merged = finish_merge_node merge_reason g id m (elem_types elem_t m) out_t kind in
      after_check-IsTyped (non_empty id m) g (after_check (check_sources id elem_t m) g merged)
        typed
        (λ _. after_check-IsTyped (check_sources id elem_t m) g merged typed (λ checked.
          finish_merge_node-IsTyped merge_reason g id m (elem_types elem_t m) out_t kind typed held
            (both m (elem_types-found elem_t m) (check_sources-fits reflect id elem_t m checked))))
    where
      both :
          (n : Entries NodeRef)
          → All (λ p. lookup p.0 (elem_types elem_t m) ≡ some (some elem_t)) n
          → All (λ p. accepts (assignable reflect p.1.out_t (some elem_t)) ≡ true) n
          → All
              (λ p.
                accepts (assignable reflect p.1.out_t (or_nil (lookup p.0 (elem_types elem_t m))))
                ≡ true)
              n
      both [] found fit = tt
      both (p ∷ n) found fit = (rw found.0 fit.0, both n found.1 fit.1)

  pub add_combine-IsTyped :
      (g : Graph) (id : String) (out_t : GoType) (m : Entries NodeRef)
      (combine : Option (Closure (Entries Value) Value))
      → IsTyped reflect g
      → AllHeld g m
      → UniqueKeys m
      → IsTyped reflect (add_combine g id out_t m combine).1
  unfolding add_combine sort combine_adapter
  add_combine-IsTyped g id out_t m none typed held u =
      stop-IsTyped reflect NodeRef g (nil_func id) typed
  add_combine-IsTyped g id out_t m (some combine) typed held u =
      let kind = combine_adapter id (sort (keys_of m)) combine in
      let merged = finish_merge_node combine_reason g id m (out_types m) out_t kind in
      after_check-IsTyped (non_empty id m) g (after_check (check_keys id m) g merged) typed (λ _.
        after_check-IsTyped (check_keys id m) g merged typed (λ checked.
          finish_merge_node-IsTyped combine_reason g id m (out_types m) out_t kind typed held (
            All-map (λ (p : String × NodeRef) found. rw found (assignable_self reflect p.1.out_t)) m
              (out_types-found m u))))
