-- ===== src/V1/Run/Same.antt =====
-- The first version fires the edges out of one node as the second version does.
use llm_agent_flow.Base.{
  ℕ, ◌+◌, ◌<◌, arith, String, Bool, true, false, ◌≡◌, refl, sym, ap, ◌∙◌, Option, none, some, List,
  [], ◌∷◌, map, All, count, ok, err, inl, inr, ◌>>=◌, eq_iff, ◌==◌, if◌then◌else◌, Bool-cases,
}
use llm_agent_flow.V2.Errors.{Run}
use llm_agent_flow.V2.Value.{Value, str, get_port, get-set_port}
use llm_agent_flow.V2.Engine.{Condition, GuardedEdge}
use llm_agent_flow.V2.Fire.{
  edge_pending, Wiring, deliver, evaluate, settle, fire_edge, Cursor, visit_edge, fire_source,
}
use llm_agent_flow.V1.Run.{
  FlowWiring, evaluate_text, deliver_text, fire_text_edge, fire_text_source,
}

abbrev pub as_value : Option String → Option Value
as_value none = none
as_value (some s) = some (str s)

-- The same nodes are active, and the same texts are on the ports.
pub record Agrees (v : FlowWiring) (w : Wiring) : Type 0 where
  pub active : (id : String) → w.activated id ≡ v.activated id
  pub texts : (id port : String) → get_port w.ports id port ≡ as_value (v.ports id port)

-- The edges out of the nodes of the list have not been settled.
abbrev pub IsOpen : List String → Cursor → Type 0
IsOpen srcs = All (λ p. 0 < count p.0.edge.source.node srcs → p.1 ≡ edge_pending)

abbrev pub cursor_edges : Cursor → List GuardedEdge
cursor_edges = map (λ p. p.0)

-- Both fail with the same error, or both go on in agreement.
abbrev pub SameFiring : {S : Type 0} → Run FlowWiring → Run (S × Wiring) → Type 0
SameFiring (ok v) (ok end) = Agrees v end.1
SameFiring (err e) (err f) = e ≡ f
SameFiring (ok v) (err f) = ⊥
SameFiring (err e) (ok end) = ⊥

deliver-Agrees :
    (e : GuardedEdge) (s : String) (v : FlowWiring) (w : Wiring)
    → Agrees v w
    → Agrees (deliver_text e s v true) (deliver e (str s) w)
unfolding deliver
deliver-Agrees e s v w agrees = record {
  active = λ id. elim (Bool-cases (e.edge.target.node == id)) [
    | inl h ↦ rw h refl
    | inr h ↦ rw h (agrees.active id)
  ];
  texts = λ id port.
      get-set_port w.ports e.edge.target.node e.edge.target.port id port (str s)
      ∙ (elim (Bool-cases (e.edge.target.node == id)) [
        | inr h ↦ rw h (agrees.texts id port)
        | inl h ↦ elim (Bool-cases (e.edge.target.port == port)) [
          | inl k ↦ rw (h, k) refl
          | inr k ↦
              let same = (eq_iff e.edge.target.node id).0 h in
              rw (h, k) (agrees.texts id port ∙ ap (λ n. as_value (v.ports n port)) (sym same))
        ]
      ]);
}

pub bind_same :
    {S T : Type 0} (a : Run FlowWiring) (b : Run (S × Wiring)) (f : FlowWiring → Run FlowWiring)
    (g : S × Wiring → Run (T × Wiring))
    → SameFiring a b
    → ((v : FlowWiring) (end : S × Wiring) → b ≡ ok end → Agrees v end.1 → SameFiring (f v) (g end))
    → SameFiring (a >>= f) (b >>= g)
bind_same (ok v) (ok end) f g same next = next v end refl same
bind_same (err e) (err d) f g same next = same
bind_same (ok v) (err d) f g same next = absurd same
bind_same (err e) (ok end) f g same next = absurd same

return_same :
    {S T : Type 0} (a : Run FlowWiring) (b : Run (S × Wiring)) (f : S × Wiring → T)
    → SameFiring a b
    → SameFiring a (b >>= (λ end. ok (f end, end.1)))
return_same (ok v) (ok end) f same = same
return_same (err e) (err d) f same = same
return_same (ok v) (err d) f same = absurd same
return_same (err e) (ok end) f same = absurd same

fire_edge_same :
    (i : ℕ) (e : GuardedEdge) (text : Option String) (v : FlowWiring) (w : Wiring)
    → Agrees v w
    → SameFiring (fire_text_edge i e text v) (fire_edge i e (as_value text) w)
unfolding fire_text_edge fire_edge evaluate evaluate_text
fire_edge_same i e none v w agrees = agrees
fire_edge_same i e (some s) v w agrees = guarded e.guard
  where
    decided :
        (m : Run Bool)
        → SameFiring
            (m >>= (λ fires. ok (deliver_text e s v fires)))
            (m >>= (λ fires. ok (settle e (str s) w fires)))
    decided (ok true) = deliver-Agrees e s v w agrees
    decided (ok false) = agrees
    decided (err f) = refl

    guarded :
        (c : Option Condition)
        → SameFiring
            (evaluate_text i c s >>= (λ fires. ok (deliver_text e s v fires)))
            (evaluate i c (str s) >>= (λ fires. ok (settle e (str s) w fires)))
    guarded none = deliver-Agrees e s v w agrees
    guarded (some c) = decided (evaluate i (some c) (str s))

pub fire_source_same :
    (src : String) (texts : String → Option String) (values : String → Option Value)
    → ((port : String) → values port ≡ as_value (texts port))
    → (i : ℕ) (es : Cursor) (v : FlowWiring) (w : Wiring) → IsOpen (src ∷ []) es
    → Agrees v w
    → SameFiring (fire_text_source src texts i (cursor_edges es) v) (fire_source src values i es w)
unfolding fire_text_source fire_source visit_edge
fire_source_same src texts values read i [] v w opened agrees = agrees
fire_source_same src texts values read i ((e, s) ∷ es) v w opened agrees =
    bind_same _ (visit_edge src values i e s w) _ _ first (λ v' end found agreed.
      return_same (fire_text_source src texts (i + 1) (cursor_edges es) v')
        (fire_source src values (i + 1) es end.1) (λ rest. (e, end.0) ∷ rest.0)
        (fire_source_same src texts values read (i + 1) es v' end.1 opened.1 agreed))
  where
    first :
        SameFiring
          (if e.edge.source.node == src
            then fire_text_edge i e (texts e.edge.source.port) v
            else ok v)
          (visit_edge src values i e s w)
    first = elim (Bool-cases (e.edge.source.node == src)) [
      | inr other ↦ rw (visit_edge, other) agrees
      | inl here ↦
          let pending : s ≡ edge_pending =
            opened.0 (
              ground (arith, here, eq_iff e.edge.source.node src, eq_iff src e.edge.source.node)) in
          rw (visit_edge, here, pending, read e.edge.source.port)
            (fire_edge_same i e (texts e.edge.source.port) v w agrees)
    ]
