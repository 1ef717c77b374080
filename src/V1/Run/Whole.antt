-- ===== src/V1/Run/Whole.antt =====
-- The firing of a layer without mappings, and the outputs of a run, in the two versions.
use llm_agent_flow.Base.{
  ◌<◌, arith, String, ◌≡◌, refl, ap, ◌∙◌, subst, List, [], ◌∷◌, count, ok, err, >>=-eq-ok,
  ok-injective, inl, inr, eq_refl, ◌==◌, Bool-cases, Option-cases,
}
use llm_agent_flow.V2.Ir.{NamedPortRef}
use llm_agent_flow.V2.Errors.{Run}
use llm_agent_flow.V2.Value.{Value, str, put_entry}
use llm_agent_flow.V2.Fire.{
  Wiring, Cursor, fire_node, fire_layer_edges, fire_layer_mappings, fire_mappings,
}
use llm_agent_flow.V2.Run.{collect_outputs, output_key}
use llm_agent_flow.V1.Run.{Texts, put_text, FlowWiring, collect_texts}
use llm_agent_flow.V1.Run.Same.{Agrees, IsOpen, cursor_edges}
use llm_agent_flow.V1.Run.Fires.{fire_node-Keeps}
use llm_agent_flow.V1.Run.Planned.{as_values}

-- The edges out of a layer leave those of the later layers open.
pub fire_layer_edges-Keeps :
    (layer : List String) (es : Cursor) (w : Wiring) (end : Cursor × Wiring)
    → fire_layer_edges layer "" es w ≡ ok end
    → (cursor_edges end.0 ≡ cursor_edges es)
      × ((rest : List String)
          → ((x : String) → 0 < count x layer → count x rest ≡ 0)
          → IsOpen rest es
          → IsOpen rest end.0)
unfolding fire_layer_edges
fire_layer_edges-Keeps [] es w end h =
    let same : (es, w) ≡ end = ok-injective h in
    subst
      (λ (x : Cursor × Wiring).
        (cursor_edges x.0 ≡ cursor_edges es)
        × ((rest : List String)
            → ((y : String) → 0 < count y [] → count y rest ≡ 0)
            → IsOpen rest es
            → IsOpen rest x.0))
      same (refl, λ rest apart opened. opened)
fire_layer_edges-Keeps (src ∷ layer) es w end h =
    let (one, fired, after) = >>=-eq-ok (fire_node "" src es w) _ h in
    let (order, others) = fire_node-Keeps src es w one fired in
    let (orders, rest_open) = fire_layer_edges-Keeps layer one.0 one.1 end after in
    (
      orders ∙ order,
      λ rest apart opened.
          rest_open rest (λ x here. apart x (ground (arith, here)))
            (others rest (apart src (ground (arith, eq_refl src))) opened),
    )

pub fire_no_mappings : (layer : List String) (w : Wiring) → fire_layer_mappings layer "" [] w ≡ ok w
unfolding fire_layer_mappings fire_mappings
fire_no_mappings [] w = refl
fire_no_mappings (src ∷ layer) w = elim (Bool-cases (w.activated src)) [
  | inl active ↦ rw (fire_layer_mappings, active) (fire_no_mappings layer w)
  | inr idle ↦ rw (fire_layer_mappings, idle) (fire_no_mappings layer w)
]

put_text-as_values :
    (k v : String) (out : Texts)
    → put_entry k (str v) (as_values out) ≡ as_values (put_text k v out)
unfolding put_text put_entry
put_text-as_values k v [] = refl
put_text-as_values k v ((j, u) ∷ out) = elim (Bool-cases (j == k)) [
  | inl e ↦ rw (put_text, put_entry, e) refl
  | inr e ↦ rw (put_text, put_entry, e) (ap (◌∷◌ (j, str u)) (put_text-as_values k v out))
]

-- The results of the two versions.
abbrev pub SameResult : Run Texts → Run (List (String × Value)) → Type 0
SameResult (ok a) (ok b) = b ≡ as_values a
SameResult (err e) (err f) = f ≡ e
SameResult (ok a) (err f) = ⊥
SameResult (err e) (ok b) = ⊥

pub collect_texts-SameResult :
    (rs : List NamedPortRef) (v : FlowWiring) (w : Wiring) (out : Texts)
    → Agrees v w
    → SameResult (collect_texts rs v out) (collect_outputs rs w (as_values out))
unfolding collect_texts collect_outputs
collect_texts-SameResult [] v w out agrees = refl
collect_texts-SameResult (r ∷ rs) v w out agrees = elim (Bool-cases (v.activated r.ref.node)) [
  | inr idle ↦
      rw (collect_texts, collect_outputs, agrees.active r.ref.node, idle)
        (collect_texts-SameResult rs v w out agrees)
  | inl active ↦ elim (Option-cases (v.ports r.ref.node r.ref.port)) [
    | inl absent ↦
        rw
          (
            collect_texts,
            collect_outputs,
            agrees.active r.ref.node,
            active,
            agrees.texts r.ref.node r.ref.port,
            absent,
          )
          refl
    | inr (s, there) ↦
        rw
          (
            collect_texts,
            collect_outputs,
            agrees.active r.ref.node,
            active,
            agrees.texts r.ref.node r.ref.port,
            there,
            put_text-as_values (output_key r) s out,
          )
          (collect_texts-SameResult rs v w (put_text (output_key r) s out) agrees)
  ]
]
