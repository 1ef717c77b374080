-- ===== src/V2/Fire/Once.antt =====
-- Each edge out of a layer is settled when the layer fires, and never again; a node becomes active
-- exactly by a fired edge.
use llm_agent_flow.Base.{
  ℕ, ◌<◌, String, ◌≡◌, refl, Bool, true, false, ◌&&◌, ◌||◌, Option, List, [], ◌∷◌, arith, count,
  eq_iff, inl, inr, Bool-cases, subst, none, some, ok, >>=-on-ok, ok-injective, ◌==◌,
}
use llm_agent_flow.V2.Engine.{GuardedEdge}
use llm_agent_flow.V2.Value.{Value}
use llm_agent_flow.V2.Fire.{
  EdgeFireState, edge_fired, Wiring, evaluate, settle, deliver, fire_edge, is_pending, Cursor, mark,
  visit_edge,
}

abbrev pub is_fired : EdgeFireState → Bool
is_fired edge_fired = true
is_fired _ = false

-- What the firing of the sources `layer` does to the state of one edge.
pub record Settles (layer : List String) (e : GuardedEdge) (before after : EdgeFireState)
    : Type 0 where
  pub keeps : is_pending before ≡ false → after ≡ before
  pub elsewhere : count e.edge.source.node layer ≡ 0 → after ≡ before
  pub settled : 0 < count e.edge.source.node layer → is_pending after ≡ false

abbrev pub Advances : List String → Cursor → Cursor → Type 0
Advances layer [] [] = Unit
Advances layer ((e, s) ∷ es) ((e', s') ∷ es') =
    (e' ≡ e) × Settles layer e s s' × Advances layer es es'
Advances layer _ _ = ⊥

-- Whether an edge into `t` goes from pending to fired.
unfoldable pub fires_into : String → Cursor → Cursor → Bool
fires_into t ((e, s) ∷ es) ((e', s') ∷ es') =
    (is_pending s && is_fired s' && e.edge.target.node == t) || fires_into t es es'
fires_into t _ _ = false

-- A case of an edge that is visited: passed over, or settled with what it does to the wiring.
pub data Visited (src : String) (e : GuardedEdge) (s : EdgeFireState) (w : Wiring)
    : EdgeFireState → Wiring → Type 0 where
  passed : ((e.edge.source.node == src && is_pending s) ≡ false) → Visited src e s w s w
  died :
      {s' : EdgeFireState}
      → e.edge.source.node ≡ src
      → is_pending s ≡ true
      → is_pending s' ≡ false
      → is_fired s' ≡ false
      → Visited src e s w s' w
  fired :
      (v : Value)
      → e.edge.source.node ≡ src
      → is_pending s ≡ true
      → Visited src e s w edge_fired (deliver e v w)

abbrev pub VisitedBy :
    String → GuardedEdge → EdgeFireState → Wiring → EdgeFireState × Wiring → Type 0
VisitedBy src e s w r = Visited src e s w r.0 r.1

module _ (src : String) (i : ℕ) (e : GuardedEdge) (s : EdgeFireState) (w : Wiring) where
  settle-Visited :
      (v : Value) (fires : Bool)
      → e.edge.source.node ≡ src
      → is_pending s ≡ true
      → VisitedBy src e s w (settle e v w fires)
  settle-Visited v true at p = fired v at p
  settle-Visited v false at p = died at p refl refl

  fire_edge-Visited :
      (o : Option Value)
      → e.edge.source.node ≡ src
      → is_pending s ≡ true
      → (r : EdgeFireState × Wiring) → fire_edge i e o w ≡ ok r
      → VisitedBy src e s w r
  unfolding fire_edge
  fire_edge-Visited none at p r h =
      subst (VisitedBy src e s w) (ok-injective h) (died at p refl refl)
  fire_edge-Visited (some v) at p r h =
      >>=-on-ok {P = VisitedBy src e s w} (evaluate i e.guard v) _
        (λ fires _ r h. subst (VisitedBy src e s w) (ok-injective h) (settle-Visited v fires at p))
        r h

  pub visit_edge-Visited :
      (ports : String → Option Value) (r : EdgeFireState × Wiring)
      → visit_edge src ports i e s w ≡ ok r
      → VisitedBy src e s w r
  unfolding visit_edge
  visit_edge-Visited ports r h = elim (Bool-cases (e.edge.source.node == src && is_pending s)) [
    | inr skip ↦
        subst (VisitedBy src e s w) (ok-injective (simp (visit_edge, skip) at h)) (passed skip)
    | inl turn ↦
        fire_edge-Visited (ports e.edge.source.port)
          (ground (arith, turn, eq_iff e.edge.source.node src)) (ground (arith, turn)) r
          (simp (visit_edge, turn) at h)
  ]

pub Visited-Settles :
    (src : String) (e : GuardedEdge) (s s' : EdgeFireState) (w w' : Wiring)
    → Visited src e s w s' w'
    → Settles (src ∷ []) e s s'
Visited-Settles src e s s' w w' (passed skip) = record {
  keeps = λ h. refl;
  elsewhere = λ h. refl;
  settled = λ h. ground (arith, skip, eq_iff e.edge.source.node src, eq_iff src e.edge.source.node);
}
Visited-Settles src e s s' w w' (died at p d f) = record {
  keeps = λ h. ground arith;
  elsewhere = λ h. ground (arith, eq_iff src e.edge.source.node);
  settled = λ h. d;
}
Visited-Settles src e s s' w w' (fired v at p) = record {
  keeps = λ h. ground arith;
  elsewhere = λ h. ground (arith, eq_iff src e.edge.source.node);
  settled = λ h. refl;
}

pub Visited-activates :
    (src : String) (e : GuardedEdge) (s s' : EdgeFireState) (w w' : Wiring)
    → Visited src e s w s' w'
    → (t : String)
    → w'.activated t ≡ (w.activated t || (is_pending s && is_fired s' && e.edge.target.node == t))
unfolding deliver
Visited-activates src e s s' w w' (passed skip) t = ground arith
Visited-activates src e s s' w w' (died at p d f) t = ground (arith, p, f)
Visited-activates src e s s' w w' (fired v at p) t = ground (arith, p)

pub mark-Advances :
    (src : String) (to : EdgeFireState) (es : Cursor)
    → is_pending to ≡ false
    → Advances (src ∷ []) es (mark src to es)
unfolding mark
mark-Advances src to [] h = tt
mark-Advances src to ((e, s) ∷ es) h = (
  refl,
  record {
    keeps = λ k. ground arith;
    elsewhere = λ k. ground (arith, eq_iff e.edge.source.node src, eq_iff src e.edge.source.node);
    settled = λ k. ground (arith, eq_iff e.edge.source.node src, eq_iff src e.edge.source.node);
  },
  mark-Advances src to es h,
)
