-- ===== src/Graph/Builder.antt =====
-- The state of the typed builder and its operations: v2/flow/graph/graph.go, with `AddEdge`,
-- `AddEdgeTo`, `Entry` and `Exit` of typecheck.go. An operation returns its result and the graph after
-- it; a panic leaves the graph as it is. A node kind stands for the call of its `newKind`.
pub mod FanOut
pub mod Components
pub mod Typed
pub mod Plain
pub mod Fits
pub mod Fans
pub mod Reaches
use llm_agent_flow.Base.{
  String, Bool, true, false, Option, none, some, List, [], ◌∷◌, ◌++◌, Result, ok, err, update, ◌==◌,
  if◌then◌else◌,
}
use llm_agent_flow.V2.Nodes.{NodeKind}
use llm_agent_flow.Graph.Adapters.{
  port_in, port_out, Entries, Closure, lambda_adapter, passthrough_adapter,
}
use llm_agent_flow.V2.Value.{Value}
use llm_agent_flow.Graph.Types.{GoType, Reflect, Verdict, fits, deferred, unfit, panics, assignable}

pub record NodeRef : Type 0 where
  pub id : String
  pub in_t : Option GoType
  pub out_t : Option GoType
  pub in_ports : Option (Entries (Option GoType))

-- `NodeRef{}`
abbrev pub zero_ref : NodeRef
zero_ref = record { id = ""; in_t = none; out_t = none; in_ports = none }

-- `streams` tells whether the kind is a `streamNode`.
pub record GraphNode : Type 0 where
  pub ref : NodeRef
  pub kind : NodeKind
  pub streams : Bool

pub record GraphEdge : Type 0 where
  pub from : String
  pub to : String
  pub from_port : String
  pub to_port : String

pub record NodeLowering : Type 0 where
  pub typ : String
  pub config : String

pub data GraphError : Type 0 where
  empty_id : GraphError
  duplicate_id : String → GraphError
  edge_unfit : String → String → String → GraphError
  undeclared_port single_port : String → String → String → GraphError
  entry_unfit exit_unfit : String → GraphError
  nil_func no_targets empty_key : String → GraphError
  target_unfit source_unfit : String → String → GraphError
  -- not an error value: a nil `reflect.Type` was asked for its kind or its methods
  panicked : GraphError

pub record Graph : Type 0 where
  pub in_t : GoType
  pub out_t : GoType
  pub nodes : List GraphNode
  pub by_id : String → Option NodeRef
  pub edges : List GraphEdge
  pub entry : Option NodeRef
  pub exit : Option NodeRef
  pub lowering : String → Option NodeLowering
  pub reasons : String → Option String
  pub latched_err : Option GraphError

unfoldable pub new_graph : GoType → GoType → Graph
new_graph in_t out_t = record {
  in_t = in_t;
  out_t = out_t;
  nodes = [];
  by_id = λ _. none;
  edges = [];
  entry = none;
  exit = none;
  lowering = λ _. none;
  reasons = λ _. none;
  latched_err = none;
}

unfoldable pub mark_serializable : String → String → String → Graph → Graph
mark_serializable id typ config g = record g {
  lowering = update g.lowering id (some (record { typ = typ; config = config }));
}

unfoldable pub mark_in_process : String → String → Graph → Graph
mark_in_process id reason g = record g {
  reasons = update g.reasons id (some reason);
  lowering = update g.lowering id none;
}

abbrev pub first_error : Option GraphError → GraphError → Option GraphError
first_error none e = some e
first_error (some first) e = some first

abbrev pub Built {ℓ} : Type ℓ → Type ℓ
Built A = Result GraphError A × Graph

unfoldable pub latch {ℓ} : {A : Type ℓ} → Graph → GraphError → Built A
latch g e = (err e, record g { latched_err = first_error g.latched_err e })

abbrev pub is_panic : GraphError → Bool
is_panic panicked = true
is_panic _ = false

-- The return of an error: latched, unless it is a panic.
abbrev pub stop {ℓ} : {A : Type ℓ} → Graph → GraphError → Built A
stop g e = if is_panic e then (err e, g) else latch g e

abbrev pub ref_of : String → Option GoType → Option GoType → NodeRef
ref_of id in_t out_t = record { id = id; in_t = in_t; out_t = out_t; in_ports = none }

-- The graph with one more node.
abbrev pub with_node : NodeRef → NodeKind → Bool → Graph → Graph
with_node ref kind streams g = record g {
  nodes = g.nodes ++ (record { ref = ref; kind = kind; streams = streams }) ∷ [];
  by_id = update g.by_id ref.id (some ref);
}

unfoldable pub add_node :
    Graph → String → Option GoType → Option GoType → NodeKind → Bool → Built NodeRef
unfolding latch
add_node g id in_t out_t kind streams = if id == "" then latch g empty_id else elim (g.by_id id) [
  | some _ ↦ latch g (duplicate_id id)
  | none ↦ (ok (ref_of id in_t out_t), with_node (ref_of id in_t out_t) kind streams g)
]

-- What follows the check of `addNode`'s error.
abbrev pub then_mark : Built NodeRef → (NodeRef → Graph → NodeRef × Graph) → Built NodeRef
then_mark (ok ref, g) next = let (r, h) = next ref g in (ok r, h)
then_mark (err e, g) next = (err e, g)

abbrev pub builtin_passthrough : String
builtin_passthrough = "builtin.passthrough"

abbrev pub lambda_reason : String
lambda_reason = "lambda node holds a Go closure (in-process only)"

abbrev pub interruptible_reason : String
interruptible_reason = "interruptible lambda node holds a Go closure (in-process only)"

abbrev pub stateful_reason : String
stateful_reason = "stateful lambda node holds a Go closure (in-process only)"

-- `AddLambdaNode` and its kin differ in their adapter, in the reason that they give, and in whether the
-- adapter is a `streamNode`.
unfoldable pub add_closure_node :
    Bool → String → NodeKind → Graph → String → GoType → GoType → Built NodeRef
unfolding add_node mark_in_process
add_closure_node streams reason kind g id in_t out_t =
    then_mark (add_node g id (some in_t) (some out_t) kind streams)
      (λ ref h. (ref, mark_in_process id reason h))

unfoldable pub add_passthrough_node : Graph → String → GoType → Built NodeRef
unfolding add_node mark_serializable passthrough_adapter
add_passthrough_node g id t =
    then_mark (add_node g id (some t) (some t) (passthrough_adapter id) false)
      (λ ref h. (ref, mark_serializable id builtin_passthrough "" h))

abbrev pub with_edge : GraphEdge → Graph → Graph
with_edge e g = record g { edges = g.edges ++ e ∷ [] }

unfoldable pub lookup {ℓ} : {A : Type ℓ} → String → Entries A → Option A
lookup k [] = none
lookup k ((j, a) ∷ m) = if j == k then some a else lookup k m

-- `if !ok { return g.latch(…) }`, then the change.
abbrev pub checked : Verdict → Graph → GraphError → Graph → Built (Unit {0})
checked fits g e h = (ok tt, h)
checked deferred g e h = (ok tt, h)
checked unfit g e h = latch g e
checked panics g e h = (err panicked, g)

module _ (reflect : Reflect) (type_of : Value → Option GoType) where
  unfoldable pub add_lambda_node :
      Graph → String → GoType → GoType → Closure Value Value → Built NodeRef
  unfolding add_closure_node lambda_adapter
  add_lambda_node g id in_t out_t fn =
      add_closure_node false lambda_reason (lambda_adapter reflect type_of none id in_t fn) g id
        in_t out_t

  unfoldable pub add_interruptible_lambda_node :
      Graph → String → GoType → GoType → Closure Value Value → Built NodeRef
  unfolding add_closure_node lambda_adapter
  add_interruptible_lambda_node g id in_t out_t fn =
      add_closure_node false interruptible_reason
        (lambda_adapter reflect type_of (some true) id in_t fn) g id in_t out_t

  -- The closure of a stateful node reads the State as an argument, which a `Closure` does anyway.
  unfoldable pub add_stateful_lambda_node :
      Graph → String → GoType → GoType → Closure Value Value → Built NodeRef
  unfolding add_closure_node lambda_adapter
  add_stateful_lambda_node g id in_t out_t fn =
      add_closure_node false stateful_reason (lambda_adapter reflect type_of none id in_t fn) g id
        in_t out_t

module _ (reflect : Reflect) where
  unfoldable pub add_edge : Graph → NodeRef → NodeRef → Built (Unit {0})
  unfolding assignable latch
  add_edge g from to =
      checked (assignable reflect from.out_t to.in_t) g (edge_unfit from.id to.id port_in) (
        with_edge (record { from = from.id; to = to.id; from_port = port_out; to_port = port_in })
          g)

  -- The edge to a port of a known type.
  abbrev pub add_edge_at : Graph → NodeRef → NodeRef → String → Option GoType → Built (Unit {0})
  add_edge_at g from to to_port port_type =
      checked (assignable reflect from.out_t port_type) g (edge_unfit from.id to.id to_port) (
        with_edge (record { from = from.id; to = to.id; from_port = port_out; to_port = to_port })
          g)

  unfoldable pub add_edge_to : Graph → NodeRef → NodeRef → String → Built (Unit {0})
  unfolding assignable latch lookup
  add_edge_to g from to to_port = elim to.in_ports [
    | some ports ↦ elim (lookup to_port ports) [
      | none ↦ latch g (undeclared_port from.id to.id to_port)
      | some port_type ↦ add_edge_at g from to to_port port_type
    ]
    | none ↦
        if to_port == port_in
        then add_edge_at g from to to_port to.in_t
        else latch g (single_port from.id to.id to_port)
  ]

  unfoldable pub set_entry : Graph → NodeRef → Built (Unit {0})
  unfolding assignable latch
  set_entry g to =
      checked (assignable reflect (some g.in_t) to.in_t) g (entry_unfit to.id)
        (record g { entry = some to })

  unfoldable pub set_exit : Graph → NodeRef → Built (Unit {0})
  unfolding assignable latch
  set_exit g from =
      checked (assignable reflect from.out_t (some g.out_t)) g (exit_unfit from.id)
        (record g { exit = some from })
