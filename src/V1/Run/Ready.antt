-- ===== src/V1/Run/Ready.antt =====
-- The firing of the layers one after the other, whose edges are settled once.
use llm_agent_flow.V2.Engine.{GuardedEdge}
use llm_agent_flow.Base.{arith, String, ◌≡◌, ◌∙◌, subst, List, ◌∷◌, ◌++◌, count-append, flatten, ok}
use llm_agent_flow.V2.Layers.Order.{IsNodup}
use llm_agent_flow.V2.Fire.{Cursor, Wiring, fire_layer_edges}
use llm_agent_flow.V1.Run.{FlowWiring, fire_text_layer}
use llm_agent_flow.V1.Run.Same.{Agrees, IsOpen, cursor_edges, SameFiring}
use llm_agent_flow.V1.Run.Fires.{IsOpen-fewer, fire_text_layer-Agrees}
use llm_agent_flow.V1.Run.Whole.{fire_layer_edges-Keeps}

-- Before the layers `ls`: each node stands once in them, and the edges out of them are not settled.
pub record Ready (edges : List GuardedEdge) (ls : List (List String)) (es : Cursor) : Type 0 where
  pub once : IsNodup (flatten ls)
  pub opened : IsOpen (flatten ls) es
  pub same : cursor_edges es ≡ edges

-- A layer is fired alike, and leaves the edges out of the later ones as they are.
pub fire_text_layer-Ready :
    (edges : List GuardedEdge) (layer : List String) (ls : List (List String)) (es : Cursor)
    (v : FlowWiring) (w : Wiring)
    → Ready edges (layer ∷ ls) es
    → Agrees v w
    → SameFiring (fire_text_layer layer edges v) (fire_layer_edges layer "" es w)
      × ((end : Cursor × Wiring) → fire_layer_edges layer "" es w ≡ ok end → Ready edges ls end.0)
fire_text_layer-Ready edges layer ls es v w ready agrees =
    let all = layer ++ flatten ls in
    let first : IsOpen layer es =
      IsOpen-fewer all layer (λ x here. ground (arith, here, count-append x layer (flatten ls))) es
        ready.opened in
    let later : IsOpen (flatten ls) es =
      IsOpen-fewer all (flatten ls)
        (λ x here. ground (arith, here, count-append x layer (flatten ls))) es ready.opened in
    (
      subst (λ edges. SameFiring (fire_text_layer layer edges v) (fire_layer_edges layer "" es w))
          ready.same
          (fire_text_layer-Agrees layer es v w
            (λ x. ground (arith, ready.once x, count-append x layer (flatten ls))) first agrees),
      λ end fired.
          let (order, rest_open) = fire_layer_edges-Keeps layer es w end fired in
          record {
            once = λ x. ground (arith, ready.once x, count-append x layer (flatten ls));
            opened =
                rest_open (flatten ls)
                  (λ x here. ground (arith, here, ready.once x, count-append x layer (flatten ls)))
                  later;
            same = order ∙ ready.same;
          },
    )
