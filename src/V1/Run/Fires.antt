-- ===== src/V1/Run/Fires.antt =====
-- The first version fires the edges out of a layer as the second version does.
use llm_agent_flow.Base.{
  ◌<◌, arith, String, not, ◌≡◌, subst, List, [], ◌∷◌, count, ok, ok-injective, inl, inr, eq_refl,
  if◌then◌else◌, Bool-cases,
}
use llm_agent_flow.V2.Value.{get_port}
use llm_agent_flow.V2.Layers.Order.{IsNodup}
use llm_agent_flow.V2.Fire.{edge_dead_src_skip, Wiring, Cursor, mark, fire_node, fire_layer_edges}
use llm_agent_flow.V1.Run.{FlowWiring, fire_text_source, fire_text_layer}
use llm_agent_flow.V1.Run.Same.{
  Agrees, IsOpen, cursor_edges, SameFiring, bind_same, fire_source_same,
}
use llm_agent_flow.V1.Run.Keeps.{Keeps, fire_source-Keeps, mark-Keeps}

pub IsOpen-fewer :
    (srcs rest : List String)
    → ((x : String) → 0 < count x rest → 0 < count x srcs)
    → (es : Cursor) → IsOpen srcs es
    → IsOpen rest es
IsOpen-fewer srcs rest fewer [] opened = tt
IsOpen-fewer srcs rest fewer ((e, s) ∷ es) opened =
    (λ here. opened.0 (fewer e.edge.source.node here), IsOpen-fewer srcs rest fewer es opened.1)

fire_node_same :
    (src : String) (es : Cursor) (v : FlowWiring) (w : Wiring)
    → IsOpen (src ∷ []) es
    → Agrees v w
    → SameFiring
        (if not (v.activated src)
          then ok v
          else fire_text_source src (v.ports src) 0 (cursor_edges es) v)
        (fire_node "" src es w)
unfolding fire_node
fire_node_same src es v w opened agrees = elim (Bool-cases (v.activated src)) [
  | inr idle ↦ rw (fire_node, agrees.active src, idle) agrees
  | inl active ↦
      rw (fire_node, agrees.active src, active)
        (fire_source_same src (v.ports src) (get_port w.ports src) (agrees.texts src) 0 es v w
          opened agrees)
]

pub fire_node-Keeps :
    (src : String) (es : Cursor) (w : Wiring) (end : Cursor × Wiring)
    → fire_node "" src es w ≡ ok end
    → Keeps src es end.0
unfolding fire_node
fire_node-Keeps src es w end h = elim (Bool-cases (w.activated src)) [
  | inl active ↦
      fire_source-Keeps src (get_port w.ports src) 0 es w end (rw (fire_node, active) at h)
  | inr idle ↦
      let same : (mark src edge_dead_src_skip es, w) ≡ end =
        ok-injective (rw (fire_node, idle) at h) in
      subst (λ (x : Cursor × Wiring). Keeps src es x.0) same (mark-Keeps src edge_dead_src_skip es)
]

-- Where the same nodes are active and the same texts are on the ports, and no edge out of the layer is
-- settled yet, the two versions fire the edges out of a layer of different nodes alike: with the same
-- error, or to the same active nodes and the same texts on the ports.
pub fire_text_layer-Agrees :
    (layer : List String) (es : Cursor) (v : FlowWiring) (w : Wiring)
    → IsNodup layer
    → IsOpen layer es
    → Agrees v w
    → SameFiring (fire_text_layer layer (cursor_edges es) v) (fire_layer_edges layer "" es w)
unfolding fire_text_layer fire_layer_edges
fire_text_layer-Agrees [] es v w once opened agrees = agrees
fire_text_layer-Agrees (src ∷ layer) es v w once opened agrees =
    bind_same _ (fire_node "" src es w) _ _
      (fire_node_same src es v w
        (IsOpen-fewer (src ∷ layer) (src ∷ []) (λ x here. ground (arith, here)) es opened) agrees)
      (λ v' end found agreed.
        let (order, others) = fire_node-Keeps src es w end found in
        subst
          (λ edges.
            SameFiring (fire_text_layer layer edges v') (fire_layer_edges layer "" end.0 end.1))
          order
          (fire_text_layer-Agrees layer end.0 v' end.1 (λ x. ground (arith, once x))
            (others layer (ground (arith, once src, eq_refl src))
              (IsOpen-fewer (src ∷ layer) layer (λ x here. ground (arith, here)) es opened))
            agreed))
