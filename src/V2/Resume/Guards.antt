-- ===== src/V2/Resume/Guards.antt =====
-- What `Resume` has checked when it goes on with the layers, and what it leaves as it was.
use llm_agent_flow.Base.{
  ℕ, ◌+◌, ◌<◌, String, ◌≡◌, ◌≢◌, ◌⊎◌, refl, subst, Bool, true, false, inl, inr, Bool-cases,
  Option-cases, Option, some, List, [], ◌∷◌, map, All, count, arith, eq_iff, ok, >>=-on-ok,
  ok-injective, wrap, ap, eq_refl, ◌>>=◌, ◌==◌,
}
use llm_agent_flow.V2.Ir.{Port, Mapping}
use llm_agent_flow.V2.Value.{Value, PortTable, get_port}
use llm_agent_flow.V2.Errors.{mapping_source, mapping_target, Run}
use llm_agent_flow.V2.Mapping.{select_path, set_mapped_port}
use llm_agent_flow.V2.State.{StateCell}
use llm_agent_flow.V2.Codec.{Json, Registry}
use llm_agent_flow.V2.Nodes.{NodeKind}
use llm_agent_flow.V2.Engine.{GuardedEdge, Engine}
use llm_agent_flow.V2.Fire.{
  EdgeFireState, edge_deferred, Wiring, activate, evaluate, settle, deliver, Cursor, visit_mapping,
  fire_mapping,
}
use llm_agent_flow.V2.Checkpoint.{Checkpoint}
use llm_agent_flow.V2.Run.{Inputs, RunState}
use llm_agent_flow.V2.Resume.{
  resumable, check_human_input, declares, resume_edge, resume_edges, resume_mappings, inject,
  decode_ports, restore_state, restore,
}

-- An edge that the checkpoint does not hold as deferred has the state that it holds.
abbrev pub Undeferred : List EdgeFireState → Cursor → Type 0
Undeferred states [] = Unit
Undeferred [] (x ∷ es) = ⊥
Undeferred (s ∷ states) (x ∷ es) = (s ≢ edge_deferred → x.1 ≡ s) × Undeferred states es

-- What holds of the run state that a checkpoint is restored to.
pub record IsGuarded (e : Engine) (cp : Checkpoint) (human : Inputs) (s : RunState) : Type 0 where
  pub flow :
      (cp.flow_hash ≡ e.flow_hash) ⊎ ((cp.struct_hash ≢ "") × (cp.struct_hash ≡ e.struct_hash))
  pub node : NodeKind
  pub has_node : e.nodes cp.interrupt_node_id ≡ some node
  pub declared :
      All (λ (entry : String × Value). 0 < count entry.0 (map (λ p. p.name) node.outputs)) human
  pub active : s.wiring.activated cp.interrupt_node_id ≡ true
  pub edges : map (λ x. x.0) s.cursor ≡ e.edges
  pub others : Undeferred cp.edge_states s.cursor

resumable-flow :
    (e : Engine) (cp : Checkpoint)
    → resumable e cp ≡ true
    → (cp.flow_hash ≡ e.flow_hash) ⊎ ((cp.struct_hash ≢ "") × (cp.struct_hash ≡ e.struct_hash))
unfolding resumable
resumable-flow e cp h = elim (Bool-cases (cp.flow_hash == e.flow_hash)) [
  | inl same ↦ inl (ground (arith, same, eq_iff cp.flow_hash e.flow_hash))
  | inr other ↦ inr (
    λ k. ground (arith, k, eq_iff cp.struct_hash ""),
    ground (arith, other, eq_iff cp.struct_hash "", eq_iff cp.struct_hash e.struct_hash),
  )
]

declares-count :
    (ports : List Port) (k : String)
    → declares ports k ≡ true
    → 0 < count k (map (λ p. p.name) ports)
declares-count [] k h = cc
declares-count (p ∷ ports) k h = ground (arith, declares-count ports k, eq_iff p.name k)

check_human_input-declared :
    (ports : List Port) (human : Inputs) (r : List Port)
    → check_human_input ports human ≡ ok r
    → All (λ (entry : String × Value). 0 < count entry.0 (map (λ p. p.name) ports)) human
unfolding check_human_input
check_human_input-declared ports [] r h = tt
check_human_input-declared ports ((k, v) ∷ human) r h = elim (Bool-cases (declares ports k)) [
  | inl d ↦ (
    declares-count ports k d,
    check_human_input-declared ports human r (simp (check_human_input, d) at h),
  )
  | inr n ↦ absurd (cc (simp (check_human_input, n) at h))
]

-- An edge that is resumed: kept as it is, unless it was deferred; and no node is deactivated.
record EdgeResumed (s : EdgeFireState) (w : Wiring) (r : EdgeFireState × Wiring) : Type 0 where
  keeps : s ≢ edge_deferred → r.0 ≡ s
  grows : (t : String) → w.activated t ≡ true → r.1.activated t ≡ true

settle-EdgeResumed :
    (e : GuardedEdge) (v : Value) (w : Wiring) (fires : Bool)
    → EdgeResumed edge_deferred w (settle e v w fires)
unfolding deliver
settle-EdgeResumed e v w true = record { keeps = λ n. absurd (n refl); grows = λ t a. ground arith }
settle-EdgeResumed e v w false = record { keeps = λ n. absurd (n refl); grows = λ t a. a }

resume_edge-EdgeResumed :
    (i : ℕ) (e : GuardedEdge) (s : EdgeFireState) (w : Wiring) (r : EdgeFireState × Wiring)
    → resume_edge i e s w ≡ ok r
    → EdgeResumed s w r
unfolding resume_edge
resume_edge-EdgeResumed i e edge_deferred w r h =
    elim (Option-cases (get_port w.ports e.edge.source.node e.edge.source.port)) [
      | inl missing ↦
          subst (EdgeResumed edge_deferred w) (ok-injective (simp (resume_edge, missing) at h))
            (record { keeps = λ n. refl; grows = λ t a. a })
      | inr (v, present) ↦
          >>=-on-ok {P = EdgeResumed edge_deferred w} (evaluate i e.guard v) _
            (λ fires _ r h.
              subst (EdgeResumed edge_deferred w) (ok-injective h) (settle-EdgeResumed e v w fires))
            r (simp (resume_edge, present) at h)
    ]
resume_edge-EdgeResumed i e s w r h =
    subst (EdgeResumed s w) (ok-injective h) (record { keeps = λ n. refl; grows = λ t a. a })

record EdgesResumed (es : List GuardedEdge) (states : List EdgeFireState) (w : Wiring)
    (r : Cursor × Wiring) : Type 0 where
  edges : map (λ x. x.0) r.0 ≡ es
  others : Undeferred states r.0
  grows : (t : String) → w.activated t ≡ true → r.1.activated t ≡ true

resume_edges-EdgesResumed :
    (i : ℕ) (es : List GuardedEdge) (states : List EdgeFireState) (w : Wiring) (r : Cursor × Wiring)
    → resume_edges i es states w ≡ ok r
    → EdgesResumed es states w r
unfolding resume_edges
resume_edges-EdgesResumed i [] states w r h =
    subst (EdgesResumed [] states w) (ok-injective h)
      (record { edges = refl; others = tt; grows = λ t a. a })
resume_edges-EdgesResumed i (e ∷ es) [] w r h = cc
resume_edges-EdgesResumed i (e ∷ es) (s ∷ states) w r h =
    >>=-on-ok {P = EdgesResumed (e ∷ es) (s ∷ states) w} (resume_edge i e s w) _
      (λ one first r h.
        let a = resume_edge-EdgeResumed i e s w one first in
        >>=-on-ok {P = EdgesResumed (e ∷ es) (s ∷ states) w} (resume_edges (i + 1) es states one.1)
          _
          (λ rest later r h.
            let b = resume_edges-EdgesResumed (i + 1) es states one.1 rest later in
            subst (EdgesResumed (e ∷ es) (s ∷ states) w) (ok-injective h) (record {
              edges = ap (λ xs. e ∷ xs) b.edges;
              others = (a.keeps, b.others);
              grows = λ t k. b.grows t (a.grows t k);
            }))
          r h)
      r h

grows_of_same :
    (w w' : Wiring)
    → ◌≡◌ {A = Run Wiring} (ok w) (ok w')
    → (t : String) → w.activated t ≡ true
    → w'.activated t ≡ true
grows_of_same w w' h t a = subst (λ (v : Wiring). v.activated t ≡ true) (ok-injective h) a

fire_mapping-grows :
    (i : ℕ) (m : Mapping) (raw : Value) (w w' : Wiring)
    → fire_mapping i m raw w ≡ ok w'
    → (t : String) → w.activated t ≡ true
    → w'.activated t ≡ true
unfolding fire_mapping
fire_mapping-grows i m raw w w' h t a =
    >>=-on-ok {P = λ (w' : Wiring). w'.activated t ≡ true}
      (wrap (mapping_source i) (select_path raw m.source.path)) _
      (λ value _.
        >>=-on-ok {P = λ (w' : Wiring). w'.activated t ≡ true}
          (wrap (mapping_target i)
            (set_mapped_port w.ports m.target.node m.target.port m.target.path value))
          _
          (λ table _ w' h.
            grows_of_same (activate m.target.node (record w { ports = table })) w' h t
              (ground (arith, a))))
      w' h

visit_mapping-grows :
    (src : String) (ports : String → Option Value) (i : ℕ) (m : Mapping) (w w' : Wiring)
    → visit_mapping src ports i m w ≡ ok w'
    → (t : String) → w.activated t ≡ true
    → w'.activated t ≡ true
unfolding visit_mapping fire_mapping
visit_mapping-grows src ports i m w w' h t a = elim (Bool-cases (m.source.node == src)) [
  | inr other ↦ grows_of_same w w' (simp (visit_mapping, other) at h) t a
  | inl mine ↦ elim (Option-cases (ports m.source.port)) [
    | inl missing ↦ grows_of_same w w' (simp (visit_mapping, mine, missing) at h) t a
    | inr (raw, present) ↦
        fire_mapping-grows i m raw w w' (simp (visit_mapping, mine, present) at h) t a
  ]
]

resume_mappings-grows :
    (id : String) (i : ℕ) (ms : List Mapping) (w w' : Wiring)
    → resume_mappings id i ms w ≡ ok w'
    → (t : String) → w.activated t ≡ true
    → w'.activated t ≡ true
unfolding resume_mappings
resume_mappings-grows id i [] w w' h t a =
    ground (arith, ap (λ (v : Wiring). v.activated t) (ok-injective h))
resume_mappings-grows id i (m ∷ ms) w w' h t a =
    >>=-on-ok {P = λ (w' : Wiring). w'.activated t ≡ true}
      (visit_mapping id (get_port w.ports id) i m w) _
      (λ one first w' h.
        resume_mappings-grows id (i + 1) ms one w' h t
          (visit_mapping-grows id (get_port w.ports id) i m w one first t a))
      w' h

fired-IsGuarded :
    (e : Engine) (cp : Checkpoint) (human : Inputs) (cell : Option StateCell) (ports : PortTable)
    (node : NodeKind)
    → resumable e cp ≡ true
    → e.nodes cp.interrupt_node_id ≡ some node
    → All (λ (entry : String × Value). 0 < count entry.0 (map (λ p. p.name) node.outputs)) human
    → (s : RunState)
    → (do
      (es, w) ←
          resume_edges 0 e.edges cp.edge_states
            (inject cp.interrupt_node_id human (record { activated = cp.activated; ports = ports }))
      w' ← resume_mappings cp.interrupt_node_id 0 e.flow.mappings w
      ok (record { wiring = w'; cursor = es; cell = cell; events = [] }))
      ≡ ok s
    → IsGuarded e cp human s
unfolding inject
fired-IsGuarded e cp human cell ports node same present declared s h =
    let id = cp.interrupt_node_id in
    let start = inject id human (record { activated = cp.activated; ports = ports }) in
    >>=-on-ok {P = IsGuarded e cp human} (resume_edges 0 e.edges cp.edge_states start) _
      (λ fired edges.
        let r = resume_edges-EdgesResumed 0 e.edges cp.edge_states start fired edges in
        >>=-on-ok {P = IsGuarded e cp human} (resume_mappings id 0 e.flow.mappings fired.1) _
          (λ w mapped s h. subst (IsGuarded e cp human) (ok-injective h) (record {
            flow = resumable-flow e cp same;
            node = node;
            has_node = present;
            declared = declared;
            active =
                resume_mappings-grows id 0 e.flow.mappings fired.1 w mapped id
                  (r.grows id (ground (arith, eq_refl id)));
            edges = r.edges;
            others = r.others;
          })))
      s h

-- When `Resume` goes on with the layers, the checkpoint is of this flow, or of one with the same
-- structure hash that is not empty; its interrupt node exists, every key of the human input is one of
-- that node's output ports, and the node is active; the states belong to the engine's edges; and an
-- edge that was not deferred has the state that was saved.
pub restore-IsGuarded :
    (json : Json) (r : Registry) (e : Engine) (cp : Checkpoint) (human : Inputs)
    (cell : Option StateCell) (s : RunState)
    → restore json r e cp human cell ≡ ok s
    → IsGuarded e cp human s
unfolding restore
restore-IsGuarded json r e cp human cell s h = elim (Bool-cases (resumable e cp)) [
  | inr changed ↦ absurd (cc (simp (restore, changed) at h))
  | inl same ↦ elim (Option-cases (e.nodes cp.interrupt_node_id)) [
    | inl missing ↦
        >>=-on-ok {P = IsGuarded e cp human} (restore_state json r cp cell) _
          (λ cell' _.
            >>=-on-ok {P = IsGuarded e cp human} (decode_ports json r cp.port_values) _
              (λ ports _ s h. cc))
          s (simp (restore, same, missing) at h)
    | inr (node, present) ↦
        >>=-on-ok {P = IsGuarded e cp human} (restore_state json r cp cell) _
          (λ cell' _.
            >>=-on-ok {P = IsGuarded e cp human} (decode_ports json r cp.port_values) _ (λ ports _.
              >>=-on-ok {P = IsGuarded e cp human} (check_human_input node.outputs human) _
                (λ outputs checked.
                  fired-IsGuarded e cp human cell' ports node same present
                    (check_human_input-declared node.outputs human outputs checked))))
          s (simp (restore, same, present) at h)
  ]
]
