-- ===== src/V2/Nodes.antt =====
-- Node kinds and their registry: v2/flow/node.go, with `InterruptCapable` of interrupt.go. What a node
-- does is a parameter: a function of what it reads, which are the State and its input ports.
use llm_agent_flow.Base.{
  String, Bool, Option, none, some, List, [], ◌∷◌, Result, ok, err, wrap, ◌==◌, if◌then◌else◌,
}
use llm_agent_flow.V2.Ir.{Node, Port}
use llm_agent_flow.V2.Value.{Value}
use llm_agent_flow.V2.Errors.{RunError}

-- `interrupted` is an error that wraps an `InterruptError` with this request.
pub data NodeOutcome : Type 0 where
  finished : List (String × Value) → NodeOutcome
  interrupted : String → NodeOutcome
  failed : RunError → NodeOutcome

-- `Run`: the outcome, and the State that was last staged, if any.
abbrev pub NodeRun : Type 0
NodeRun = Option Value → (String → Option Value) → NodeOutcome × Option Value

-- `can_interrupt` is `none` for a node that is not `InterruptCapable`.
pub record NodeKind : Type 0 where
  pub inputs : List Port
  pub outputs : List Port
  pub can_interrupt : Option Bool
  pub run : NodeRun

pub data BuildError : Type 0 where
  empty_type nil_factory : BuildError
  already_registered : String → BuildError
  unknown_type : String → String → BuildError
  factory_failed : String → RunError → BuildError

-- A factory reads the raw configuration of a node.
abbrev pub NodeFactory : Type 0
NodeFactory = String → Result RunError NodeKind

abbrev pub NodeRegistry : Type 0
NodeRegistry = List (String × NodeFactory)

unfoldable pub find_factory : String → NodeRegistry → Option NodeFactory
find_factory type [] = none
find_factory type ((t, fac) ∷ r) = if t == type then some fac else find_factory type r

-- `none` is a nil factory.
unfoldable pub register :
    NodeRegistry → String → Option NodeFactory → Result BuildError NodeRegistry
unfolding find_factory
register r type fac = if type == "" then err empty_type else elim fac [
  | none ↦ err nil_factory
  | some f ↦ elim (find_factory type r) [
    | some _ ↦ err (already_registered type)
    | none ↦ ok ((type, f) ∷ r)
  ]
]

unfoldable pub build : NodeRegistry → Node → Result BuildError NodeKind
unfolding find_factory
build r n = elim (find_factory n.type r) [
  | none ↦ err (unknown_type n.id n.type)
  | some f ↦ wrap (factory_failed n.id) (f n.config)
]
