-- ===== src/V2/Fire.antt =====
-- The edges and mappings out of a layer: `fireLayerEdges` and `fireLayerMappings` of `runCore` in
-- v2/flow/engine.go, and the edge states of v2/flow/checkpoint.go.
pub mod Once
pub mod Layer
use llm_agent_flow.Base.{
  ℕ, zero, suc, ◌+◌, String, Bool, true, false, not, ◌&&◌, ◌||◌, Option, none, some, List, [], ◌∷◌,
  Result, ok, err, ◌>>=◌, wrap, update, ◌==◌, if◌then◌else◌,
}
use llm_agent_flow.V2.Ir.{Mapping}
use llm_agent_flow.V2.Value.{Value, str, PortTable, get_port, set_port}
use llm_agent_flow.V2.Mapping.{select_path, set_mapped_port}
use llm_agent_flow.V2.Errors.{
  RunError, condition_not_string, condition_failed, mapping_source, mapping_target, Run,
}
use llm_agent_flow.V2.Engine.{Condition, GuardedEdge}

pub data EdgeFireState : Type 0 where
  edge_pending edge_fired edge_dead_false edge_dead_no_port edge_dead_src_skip edge_deferred :
      EdgeFireState

-- The nodes that will run, and what their ports hold.
pub record Wiring : Type 0 where
  pub activated : String → Bool
  pub ports : PortTable

abbrev pub activate : String → Wiring → Wiring
activate id w = record w { activated = update w.activated id true }

-- `setPort` and `activated[…] = true` for the target of an edge.
unfoldable pub deliver : GuardedEdge → Value → Wiring → Wiring
unfolding set_port
deliver e v w =
    activate e.edge.target.node
      (record w { ports = set_port w.ports e.edge.target.node e.edge.target.port v })

-- Whether a guard lets a value through. Only a text reaches the evaluator.
unfoldable pub evaluate : ℕ → Option Condition → Value → Run Bool
evaluate i none v = ok true
evaluate i (some c) (str s) = wrap (condition_failed i) (c s)
evaluate i (some c) _ = err (condition_not_string i)

-- One pending edge out of an active source, given the value of its source port.
abbrev pub settle : GuardedEdge → Value → Wiring → Bool → EdgeFireState × Wiring
settle e v w true = (edge_fired, deliver e v w)
settle e v w false = (edge_dead_false, w)

unfoldable pub fire_edge : ℕ → GuardedEdge → Option Value → Wiring → Run (EdgeFireState × Wiring)
unfolding evaluate deliver
fire_edge i e none w = ok (edge_dead_no_port, w)
fire_edge i e (some v) w = do fires ← evaluate i e.guard v; ok (settle e v w fires)

abbrev pub is_pending : EdgeFireState → Bool
is_pending edge_pending = true
is_pending _ = false

-- The edges of the flow, each beside its state.
abbrev pub Cursor : Type 0
Cursor = List (GuardedEdge × EdgeFireState)

-- The loops that mark the pending edges of one source.
unfoldable pub mark : String → EdgeFireState → Cursor → Cursor
mark src to [] = []
mark src to ((e, s) ∷ es) =
    (e, (if e.edge.source.node == src && is_pending s then to else s)) ∷ mark src to es

-- The body of the loop: an edge of another source, or one that is settled, is passed over.
unfoldable pub visit_edge :
    String
    → (String → Option Value)
    → ℕ
    → GuardedEdge
    → EdgeFireState
    → Wiring
    → Run (EdgeFireState × Wiring)
unfolding fire_edge
visit_edge src src_ports i e s w =
    if e.edge.source.node == src && is_pending s
    then fire_edge i e (src_ports e.edge.source.port) w
    else ok (s, w)

-- The loop over all edges for an active source with the ports `src_ports`.
unfoldable pub fire_source :
    String → (String → Option Value) → ℕ → Cursor → Wiring → Run (Cursor × Wiring)
unfolding visit_edge
fire_source src src_ports i [] w = ok ([], w)
fire_source src src_ports i ((e, s) ∷ es) w = do
  (s', w') ← visit_edge src src_ports i e s w
  (es', w'') ← fire_source src src_ports (i + 1) es w'
  ok ((e, s') ∷ es', w'')

-- `interruptNodeID != "" && srcID == interruptNodeID`; the empty text stands for no node.
abbrev pub is_interrupt : String → String → Bool
is_interrupt interrupt src = not (interrupt == "") && src == interrupt

unfoldable pub fire_node : String → String → Cursor → Wiring → Run (Cursor × Wiring)
unfolding mark fire_source get_port
fire_node interrupt src es w =
    if is_interrupt interrupt src
    then ok (mark src edge_deferred es, w)
    else if not (w.activated src)
    then ok (mark src edge_dead_src_skip es, w)
    else fire_source src (get_port w.ports src) 0 es w

unfoldable pub fire_layer_edges : List String → String → Cursor → Wiring → Run (Cursor × Wiring)
unfolding fire_node
fire_layer_edges [] interrupt es w = ok (es, w)
fire_layer_edges (src ∷ layer) interrupt es w = do
  (es', w') ← fire_node interrupt src es w
  fire_layer_edges layer interrupt es' w'

-- One mapping from the value of a source port.
unfoldable pub fire_mapping : ℕ → Mapping → Value → Wiring → Run Wiring
unfolding select_path set_mapped_port
fire_mapping i m raw w = do
  value ← wrap (mapping_source i) (select_path raw m.source.path)
  table ←
      wrap (mapping_target i)
        (set_mapped_port w.ports m.target.node m.target.port m.target.path value)
  ok (activate m.target.node (record w { ports = table }))

-- The body of the loop over the mappings.
unfoldable pub visit_mapping : String → (String → Option Value) → ℕ → Mapping → Wiring → Run Wiring
unfolding fire_mapping
visit_mapping src src_ports i m w =
    if m.source.node == src
    then elim (src_ports m.source.port) [ none ↦ ok w | some raw ↦ fire_mapping i m raw w ]
    else ok w

-- The loop over all mappings for an active source.
unfoldable pub fire_mappings :
    String → (String → Option Value) → ℕ → List Mapping → Wiring → Run Wiring
unfolding visit_mapping
fire_mappings src src_ports i [] w = ok w
fire_mappings src src_ports i (m ∷ ms) w = do
  w' ← visit_mapping src src_ports i m w
  fire_mappings src src_ports (i + 1) ms w'

unfoldable pub fire_layer_mappings : List String → String → List Mapping → Wiring → Run Wiring
unfolding fire_mappings get_port
fire_layer_mappings [] interrupt ms w = ok w
fire_layer_mappings (src ∷ layer) interrupt ms w = do
  w' ←
      (if is_interrupt interrupt src || not (w.activated src)
        then ok w
        else fire_mappings src (get_port w.ports src) 0 ms w)
  fire_layer_mappings layer interrupt ms w'
