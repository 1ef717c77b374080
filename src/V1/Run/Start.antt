-- ===== src/V1/Run/Start.antt =====
-- The start of a run, and the run from it, in the two versions.
use llm_agent_flow.Base.{
  ℕ, arith, String, Bool, true, false, not, ◌&&◌, ◌||◌, ◌≡◌, refl, sym, ap, ◌∙◌, none, some, List,
  [], ◌∷◌, ◌>>=◌, flatten, ok, err, inl, inr, update, eq_iff, ◌==◌, if◌then◌else◌, Bool-cases,
  Option-cases,
}
use llm_agent_flow.V2.Ir.{Node, Edge, NamedPortRef}
use llm_agent_flow.V2.Errors.{Run}
use llm_agent_flow.V2.Value.{str, set_port, get_port}
use llm_agent_flow.V2.Layers.Order.{IsNodup}
use llm_agent_flow.V2.Engine.{GuardedEdge}
use llm_agent_flow.V2.Fire.{Wiring, activate}
use llm_agent_flow.V2.Run.{
  find_input, targeted, mapped, entry_nodes, apply_inputs, apply_input_mappings, start_edges,
  RunState,
}
use llm_agent_flow.V2.Run.Core.{Services, fail, run_layers}
use llm_agent_flow.V2.Tasks.{flow_started as started}
use llm_agent_flow.V2.Run.Start.{start_wiring, run_fresh}
use llm_agent_flow.V1.Ir.{Flow}
use llm_agent_flow.V1.Compile.{FlowEngine}
use llm_agent_flow.V1.Compile.Upgrade.{upgrade, upgrade_engine}
use llm_agent_flow.V1.Run.{
  Texts, find_text, FlowWiring, flow_started, set_text_port, has_no_preds, activate_entries,
  apply_text_inputs, FlowCall, run_flow, run_flow_layers, fail_flow,
}
use llm_agent_flow.V1.Run.Same.{as_value, Agrees, IsOpen, cursor_edges}
use llm_agent_flow.V1.Run.Planned.{as_values, SameFanout, set_text_port-SameTexts}
use llm_agent_flow.V1.Run.Loops.{SameEnd, fail_flow-SameEnd}
use llm_agent_flow.V1.Run.Agree.{run_flow_layers-SameEnd}

has_no_preds-targeted : (es : List Edge) (id : String) → has_no_preds es id ≡ not (targeted es id)
unfolding has_no_preds targeted
has_no_preds-targeted [] id = refl
has_no_preds-targeted (e ∷ es) id = elim (Bool-cases (e.target.node == id)) [
  | inl h ↦ rw h refl
  | inr h ↦ rw h (has_no_preds-targeted es id)
]

chosen_update :
    (t : Bool) (x : String) (active : String → Bool) (id : String)
    → (if not t then update active x true else active) id ≡ ((x == id && not t) || active id)
chosen_update true x active id = ground arith
chosen_update false x active id = ground arith

-- The entry nodes are added to the active ones.
activate_entries-entry_nodes :
    (f : Flow) (ns : List Node) (active : String → Bool) (id : String)
    → activate_entries f ns active id ≡ (active id || entry_nodes (upgrade f) ns id)
unfolding activate_entries entry_nodes mapped
activate_entries-entry_nodes f [] active id = ground arith
activate_entries-entry_nodes f (n ∷ ns) active id = rw (has_no_preds-targeted f.edges n.id) (
    activate_entries-entry_nodes f ns
      (if not (targeted f.edges n.id) then update active n.id true else active) id
    ∙ ap (λ b. b || entry_nodes (upgrade f) ns id)
        (chosen_update (targeted f.edges n.id) n.id active id)
    ∙ (elim (Bool-cases (n.id == id)) [
      | inl k ↦
          let same : targeted f.edges n.id ≡ targeted f.edges id =
            ap (targeted f.edges) ((eq_iff n.id id).0 k) in
          rw (mapped, same, k) (ground arith)
      | inr k ↦ rw k refl
    ]))

find_text-as_values :
    (name : String) (inputs : Texts)
    → find_input (as_values inputs) name ≡ as_value (find_text name inputs)
unfolding find_text find_input
find_text-as_values name [] = refl
find_text-as_values name ((j, u) ∷ inputs) = elim (Bool-cases (j == name)) [
  | inl h ↦ rw h refl
  | inr h ↦ rw h (find_text-as_values name inputs)
]

-- The wirings that the two versions start from.
abbrev SameStart : Run FlowWiring → Run Wiring → Type 0
SameStart (ok v) (ok w) = Agrees v w
SameStart (err e) (err f) = f ≡ e
SameStart (ok v) (err f) = ⊥
SameStart (err e) (ok w) = ⊥

apply_text_inputs-SameStart :
    (rs : List NamedPortRef) (inputs : Texts) (v : FlowWiring) (w : Wiring)
    → Agrees v w
    → SameStart (apply_text_inputs rs inputs v) (apply_inputs rs (as_values inputs) w)
unfolding apply_text_inputs apply_inputs
apply_text_inputs-SameStart [] inputs v w agrees = agrees
apply_text_inputs-SameStart (r ∷ rs) inputs v w agrees =
    elim (Option-cases (find_text r.name inputs)) [
      | inl h ↦ rw (apply_inputs, apply_text_inputs, find_text-as_values r.name inputs, h) refl
      | inr (s, h) ↦
          rw (apply_inputs, apply_text_inputs, find_text-as_values r.name inputs, h)
            (apply_text_inputs-SameStart rs inputs
              (record {
                activated = update v.activated r.ref.node true;
                ports = set_text_port v.ports r.ref.node r.ref.port s;
              })
              (activate r.ref.node
                (record w { ports = set_port w.ports r.ref.node r.ref.port (str s) }))
              (record {
                active = λ id. elim (Bool-cases (r.ref.node == id)) [
                  | inl k ↦ rw k refl
                  | inr k ↦ rw k (agrees.active id)
                ];
                texts =
                    set_text_port-SameTexts v.ports w.ports r.ref.node r.ref.port s agrees.texts;
              }))
    ]

start_edges-IsOpen : (srcs : List String) (es : List GuardedEdge) → IsOpen srcs (start_edges es)
start_edges-IsOpen srcs [] = tt
start_edges-IsOpen srcs (e ∷ es) = ((λ here. refl), start_edges-IsOpen srcs es)

cursor_edges-start_edges : (es : List GuardedEdge) → cursor_edges (start_edges es) ≡ es
cursor_edges-start_edges [] = refl
cursor_edges-start_edges (e ∷ es) = ap (◌∷◌ e) (cursor_edges-start_edges es)

-- What the two versions begin with, before the inputs.
abbrev first_texts : Flow → FlowWiring
first_texts f = record { activated = activate_entries f f.nodes (λ _. false); ports = λ _ _. none }

abbrev first_values : Flow → Wiring
first_values f = record { activated = entry_nodes (upgrade f) f.nodes; ports = [] }

first_texts-Agrees : (f : Flow) → Agrees (first_texts f) (first_values f)
unfolding get_port
first_texts-Agrees f = record {
  active = λ id. sym (activate_entries-entry_nodes f f.nodes (λ _. false) id);
  texts = λ id port. refl;
}

module _ {S : Type 0} (sv : Services S) (call : FlowCall) (e : FlowEngine) (fh sh : String)
    (fanouts : SameFanout call.fanout sv.fanout)
    (starts : (i : ℕ) → sv.ctx.before i ≡ call.before i)
    (ends : (i : ℕ) → sv.ctx.after i ≡ call.after i) (once : IsNodup (flatten e.layers)) where
  abbrev begun : Wiring → RunState
  begun w = record {
    wiring = w;
    cursor = start_edges e.edges;
    cell = none;
    events = started e.flow.id ∷ [];
  }

  started-SameEnd :
      (inputs : Texts) (run_id : String) (store : S) (a : Run FlowWiring) (b : Run Wiring)
      → SameStart a b
      → SameEnd
          (elim a [
            | err failure ↦ fail_flow failure (flow_started e.flow.id ∷ [])
            | ok v ↦ run_flow_layers call e 0 e.layers v (flow_started e.flow.id ∷ [])
          ])
          (elim (b >>= (λ w. ok w)) [
            | err failure ↦ fail failure (started e.flow.id ∷ []) store
            | ok w ↦
                run_layers sv
                  (upgrade_engine fh sh e)
                  (record { run_id = run_id; checkpoint = false; inputs = some (as_values inputs) })
                  0
                  e.layers
                  (begun w)
                  store
          ])
  started-SameEnd inputs run_id store (ok v) (ok w) same =
      run_flow_layers-SameEnd sv call e fh sh fanouts starts ends (as_values inputs) run_id e.layers
        0 v (begun w) (flow_started e.flow.id ∷ []) store same refl refl
        (record {
          once = once;
          opened = start_edges-IsOpen (flatten e.layers) e.edges;
          same = cursor_edges-start_edges e.edges;
        })
  started-SameEnd inputs run_id store (err x) (err y) same =
      rw same
        (fail_flow-SameEnd x (flow_started e.flow.id ∷ []) (started e.flow.id ∷ []) store refl)
  started-SameEnd inputs run_id store (ok v) (err y) same = absurd same
  started-SameEnd inputs run_id store (err x) (ok w) same = absurd same

  -- The run of an engine whose layers hold no node twice ends in both versions alike.
  pub run_flow-SameEnd :
      (inputs : Texts) (run_id : String) (store : S)
      → SameEnd
          (run_flow call e inputs)
          (run_fresh sv (upgrade_engine fh sh e) run_id false (as_values inputs) none store)
  unfolding run_flow run_fresh start_wiring apply_input_mappings
  run_flow-SameEnd inputs run_id store =
      started-SameEnd inputs run_id store
        (apply_text_inputs e.flow.inputs inputs (first_texts e.flow))
        (apply_inputs e.flow.inputs (as_values inputs) (first_values e.flow))
        (apply_text_inputs-SameStart e.flow.inputs inputs (first_texts e.flow) (first_values e.flow)
          (first_texts-Agrees e.flow))
