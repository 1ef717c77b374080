-- ===== src/V1/Run/Keeps.antt =====
-- The edges of one node, once fired, leave those of the others as they were.
use llm_agent_flow.Base.{
  ℕ, ◌+◌, ◌<◌, arith, String, ◌≡◌, refl, sym, ap, ◌∙◌, subst, Option, List, [], ◌∷◌, count, ok,
  ok-injective, >>=-eq-ok, inl, inr, eq_iff, ◌==◌, Bool-cases,
}
use llm_agent_flow.V2.Value.{Value}
use llm_agent_flow.V2.Engine.{GuardedEdge}
use llm_agent_flow.V2.Fire.{
  EdgeFireState, edge_pending, Wiring, Cursor, mark, visit_edge, fire_source,
}
use llm_agent_flow.V1.Run.Same.{IsOpen, cursor_edges}

-- What firing one source leaves of the edges: their order, and the openness of the other edges.
abbrev pub Keeps : String → Cursor → Cursor → Type 0
Keeps src es after =
    (cursor_edges after ≡ cursor_edges es)
    × ((rest : List String) → count src rest ≡ 0 → IsOpen rest es → IsOpen rest after)

visit_edge-other :
    (src : String) (values : String → Option Value) (i : ℕ) (e : GuardedEdge) (s : EdgeFireState)
    (w : Wiring) (end : EdgeFireState × Wiring)
    → visit_edge src values i e s w ≡ ok end
    → (rest : List String) → count src rest ≡ 0
    → (0 < count e.edge.source.node rest → s ≡ edge_pending)
    → 0 < count e.edge.source.node rest
    → end.0 ≡ edge_pending
unfolding visit_edge
visit_edge-other src values i e s w end found rest none_of opened there =
    elim (Bool-cases (e.edge.source.node == src)) [
      | inl here ↦ absurd (ground (arith, none_of, there, eq_iff e.edge.source.node src, here))
      | inr other ↦
          let same : (s, w) ≡ end = ok-injective (rw (visit_edge, other) at found) in
          ap (λ (x : EdgeFireState × Wiring). x.0) (sym same) ∙ opened there
    ]

pub fire_source-Keeps :
    (src : String) (values : String → Option Value) (i : ℕ) (es : Cursor) (w : Wiring)
    (end : Cursor × Wiring)
    → fire_source src values i es w ≡ ok end
    → Keeps src es end.0
unfolding fire_source
fire_source-Keeps src values i [] w end h =
    let same : ([], w) ≡ end = ok-injective h in
    subst (λ (x : Cursor × Wiring). Keeps src [] x.0) same (refl, λ rest none_of opened. opened)
fire_source-Keeps src values i ((e, s) ∷ es) w end h =
    let (one, found, after) = >>=-eq-ok (visit_edge src values i e s w) _ h in
    let (more, later, returned) = >>=-eq-ok (fire_source src values (i + 1) es one.1) _ after in
    let (order, others) = fire_source-Keeps src values (i + 1) es one.1 more later in
    subst (λ (x : Cursor × Wiring). Keeps src ((e, s) ∷ es) x.0) (ok-injective returned)
      (
        ap (◌∷◌ e) order,
        λ rest none_of opened. (
          visit_edge-other src values i e s w one found rest none_of opened.0,
          others rest none_of opened.1,
        ),
      )

pub mark-Keeps : (src : String) (to : EdgeFireState) (es : Cursor) → Keeps src es (mark src to es)
unfolding mark
mark-Keeps src to [] = (refl, λ rest none_of opened. opened)
mark-Keeps src to ((e, s) ∷ es) =
    let (order, others) = mark-Keeps src to es in
    (
      ap (◌∷◌ e) order,
      λ rest none_of opened. (
        λ there. elim (Bool-cases (e.edge.source.node == src)) [
          | inl here ↦ absurd (ground (arith, none_of, there, eq_iff e.edge.source.node src, here))
          | inr other ↦ rw other (opened.0 there)
        ],
        others rest none_of opened.1,
      ),
    )
