-- ===== src/V2/Fire/Layer.antt =====
-- The firing of a whole layer, by the sources of the layer one after another.
use llm_agent_flow.Base.{
  ℕ, ◌+◌, String, ◌≡◌, refl, ◌∙◌, ap, subst, false, ◌||◌, inl, inr, Bool-cases, Option, List, [],
  ◌∷◌, arith, ok, >>=-on-ok, ok-injective, not,
}
use llm_agent_flow.V2.Engine.{GuardedEdge}
use llm_agent_flow.V2.Value.{Value, get_port}
use llm_agent_flow.V2.Fire.{
  EdgeFireState, edge_dead_src_skip, edge_deferred, Wiring, is_pending, Cursor, mark, visit_edge,
  fire_source, is_interrupt, fire_node, fire_layer_edges,
}
use llm_agent_flow.V2.Fire.Once.{
  is_fired, Settles, Advances, fires_into, visit_edge-Visited, Visited-Settles, Visited-activates,
  mark-Advances,
}

-- What firing the sources `layer` does: each edge of theirs is settled, unless it was before, and no
-- other edge changes; and a node is active afterwards exactly if it was, or a pending edge into it fired.
pub record Fires (layer : List String) (es : Cursor) (w : Wiring) (r : Cursor × Wiring)
    : Type 0 where
  pub advances : Advances layer es r.0
  pub activates : (t : String) → r.1.activated t ≡ (w.activated t || fires_into t es r.0)

fires_into_refl : (t : String) (es : Cursor) → fires_into t es es ≡ false
unfolding fires_into
fires_into_refl t [] = refl
fires_into_refl t ((e, s) ∷ es) = ground (arith, fires_into_refl t es)

Advances-refl : (es : Cursor) → Advances [] es es
Advances-refl [] = tt
Advances-refl ((e, s) ∷ es) = (
  refl,
  record { keeps = λ h. refl; elsewhere = λ h. refl; settled = λ h. absurd (ground arith) },
  Advances-refl es,
)

Settles-trans :
    (src : String) (layer : List String) (e : GuardedEdge) (s s' s'' : EdgeFireState)
    → Settles (src ∷ []) e s s'
    → Settles layer e s' s''
    → Settles (src ∷ layer) e s s''
Settles-trans src layer e s s' s'' a b = record {
  keeps = λ h. ground (arith, a.keeps, b.keeps);
  elsewhere = λ h. ground (arith, a.elsewhere, b.elsewhere);
  settled = λ h. ground (arith, a.settled, b.settled, b.keeps);
}

Advances-trans :
    (src : String) (layer : List String) (xs ys zs : Cursor)
    → Advances (src ∷ []) xs ys
    → Advances layer ys zs
    → Advances (src ∷ layer) xs zs
Advances-trans src layer [] [] [] a b = tt
Advances-trans src layer [] [] (_ ∷ zs) a b = absurd b
Advances-trans src layer [] (_ ∷ ys) zs a b = absurd a
Advances-trans src layer ((e, s) ∷ xs) [] zs a b = absurd a
Advances-trans src layer ((e, s) ∷ xs) ((e', s') ∷ ys) [] a b = absurd b
Advances-trans src layer ((e, s) ∷ xs) ((e', s') ∷ ys) ((e'', s'') ∷ zs) a b = (
  b.0 ∙ a.0,
  Settles-trans src layer e s s' s'' a.1 (subst (λ e. Settles layer e s' s'') a.0 b.1),
  Advances-trans src layer xs ys zs a.2 b.2,
)

fires_into_trans :
    (t src : String) (layer : List String) (xs ys zs : Cursor)
    → Advances (src ∷ []) xs ys
    → Advances layer ys zs
    → fires_into t xs zs ≡ (fires_into t xs ys || fires_into t ys zs)
unfolding fires_into
fires_into_trans t src layer [] [] [] a b = refl
fires_into_trans t src layer [] [] (_ ∷ zs) a b = absurd b
fires_into_trans t src layer [] (_ ∷ ys) zs a b = absurd a
fires_into_trans t src layer ((e, s) ∷ xs) [] zs a b = absurd a
fires_into_trans t src layer ((e, s) ∷ xs) ((e', s') ∷ ys) [] a b = absurd b
fires_into_trans t src layer ((e, s) ∷ xs) ((e', s') ∷ ys) ((e'', s'') ∷ zs) a b = ground (
  arith,
  ap (λ e. e.edge.target.node) a.0,
  (a.1).keeps,
  (b.1).keeps,
  fires_into_trans t src layer xs ys zs a.2 b.2,
)

Fires-trans :
    (src : String) (layer : List String) (es : Cursor) (w : Wiring) (r q : Cursor × Wiring)
    → Fires (src ∷ []) es w r
    → Fires layer r.0 r.1 q
    → Fires (src ∷ layer) es w q
Fires-trans src layer es w r q a b = record {
  advances = Advances-trans src layer es r.0 q.0 a.advances b.advances;
  activates = λ t. ground (
    arith,
    a.activates t,
    b.activates t,
    fires_into_trans t src layer es r.0 q.0 a.advances b.advances,
  );
}

fire_source-Fires :
    (src : String) (ports : String → Option Value) (i : ℕ) (es : Cursor) (w : Wiring)
    (r : Cursor × Wiring)
    → fire_source src ports i es w ≡ ok r
    → Fires (src ∷ []) es w r
unfolding fire_source fires_into
fire_source-Fires src ports i [] w r h =
    subst (Fires (src ∷ []) [] w) (ok-injective h)
      (record { advances = tt; activates = λ t. ground arith })
fire_source-Fires src ports i ((e, s) ∷ es) w r h =
    >>=-on-ok {P = Fires (src ∷ []) ((e, s) ∷ es) w} (visit_edge src ports i e s w) _
      (λ one visited r h.
        let v = visit_edge-Visited src i e s w ports one visited in
        >>=-on-ok {P = Fires (src ∷ []) ((e, s) ∷ es) w} (fire_source src ports (i + 1) es one.1) _
          (λ rest fired r h.
            let f = fire_source-Fires src ports (i + 1) es one.1 rest fired in
            subst (Fires (src ∷ []) ((e, s) ∷ es) w) (ok-injective h) (record {
              advances = (refl, Visited-Settles src e s one.0 w one.1 v, f.advances);
              activates =
                  λ t. ground (arith, f.activates t, Visited-activates src e s one.0 w one.1 v t);
            }))
          r h)
      r h

fires_into-mark :
    (t src : String) (to : EdgeFireState) (es : Cursor)
    → is_fired to ≡ false
    → fires_into t es (mark src to es) ≡ false
unfolding fires_into mark
fires_into-mark t src to [] h = refl
fires_into-mark t src to ((e, s) ∷ es) h = ground (arith, fires_into-mark t src to es h)

mark-Fires :
    (src : String) (to : EdgeFireState) (es : Cursor) (w : Wiring)
    → is_pending to ≡ false
    → is_fired to ≡ false
    → Fires (src ∷ []) es w (mark src to es, w)
mark-Fires src to es w p f = record {
  advances = mark-Advances src to es p;
  activates = λ t. ground (arith, fires_into-mark t src to es f);
}

fire_node-Fires :
    (interrupt src : String) (es : Cursor) (w : Wiring) (r : Cursor × Wiring)
    → fire_node interrupt src es w ≡ ok r
    → Fires (src ∷ []) es w r
unfolding fire_node
fire_node-Fires interrupt src es w r h = elim (Bool-cases (is_interrupt interrupt src)) [
  | inl here ↦
      subst (Fires (src ∷ []) es w) (ok-injective (simp (fire_node, here) at h))
        (mark-Fires src edge_deferred es w refl refl)
  | inr other ↦ elim (Bool-cases (not (w.activated src))) [
    | inl skipped ↦
        subst (Fires (src ∷ []) es w) (ok-injective (simp (fire_node, other, skipped) at h))
          (mark-Fires src edge_dead_src_skip es w refl refl)
    | inr active ↦
        fire_source-Fires src (get_port w.ports src) 0 es w r (simp (fire_node, other, active) at h)
  ]
]

-- When the edges out of a layer have been fired, in a run or at a suspension: each edge out of a node
-- of the layer is settled, an edge that was settled before keeps its state, no other edge changes, and
-- a node is active exactly if it was or a pending edge into it fired.
pub fire_layer_edges-Fires :
    (layer : List String) (interrupt : String) (es : Cursor) (w : Wiring) (r : Cursor × Wiring)
    → fire_layer_edges layer interrupt es w ≡ ok r
    → Fires layer es w r
unfolding fire_layer_edges
fire_layer_edges-Fires [] interrupt es w r h =
    subst (Fires [] es w) (ok-injective h) (record {
      advances = Advances-refl es;
      activates = λ t. ground (arith, fires_into_refl t es);
    })
fire_layer_edges-Fires (src ∷ layer) interrupt es w r h =
    >>=-on-ok {P = Fires (src ∷ layer) es w} (fire_node interrupt src es w) _
      (λ one fired q h.
        Fires-trans src layer es w one q (fire_node-Fires interrupt src es w one fired)
          (fire_layer_edges-Fires layer interrupt one.0 one.1 q h))
      r h
