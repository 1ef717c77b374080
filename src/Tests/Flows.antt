-- ===== src/Tests/Flows.antt =====
-- The flow of the tests, with its nodes, conditions and hashes, and its compilation.
use llm_agent_flow.Base.{
  ◌↔◌, String, ◌≡◌, ◌≢◌, refl, true, false, none, some, List, [], ◌∷◌, Result, ok, err, ◌==◌,
  if◌then◌else◌,
}
use llm_agent_flow.V2.Ir.{PortRef, Node, Edge, Flow, Port}
use llm_agent_flow.V2.Errors.{foreign, Run}
use llm_agent_flow.V2.Nodes.{finished, interrupted, failed, NodeKind, NodeRegistry}
use llm_agent_flow.V2.Validate.{validate, edge_key}
use llm_agent_flow.V2.Arcs.{successors}
use llm_agent_flow.V2.Validate.Accepts.{IsWellFormed}
use llm_agent_flow.V2.Validate.Complete.{validate-iff-IsWellFormed}
use llm_agent_flow.V2.Engine.{
  Condition, Nodes, Engine, EngineConfig, CompileError, compile, residual_cycle,
}
use llm_agent_flow.V2.Structure.{Descriptor, structural_hash}
use llm_agent_flow.V2.Engine.Sound.{IsCompiled, compile-IsCompiled, compile-ne_residual_cycle}

abbrev pub port_ref : String → String → PortRef
port_ref node port = record { node = node; port = port }

abbrev pub link : String → String → String → Edge
link source target condition = record {
  source = port_ref source "out";
  target = port_ref target "in";
  condition = condition;
}

-- A structural hash, where the text of a descriptor is the type of its first node.
abbrev pub first_type : Descriptor → Run String
first_type d = elim d.nodes [ [] ↦ ok "" | n ∷ _ ↦ ok n.type ]

abbrev pub structure_hash : Flow → Nodes → Run String
structure_hash = structural_hash first_type (λ text. text)

abbrev pub node_of : String → String → Node
node_of id type = record { id = id; type = type; config = "{}" }

-- start → ask → left | right, where `ask` may interrupt.
abbrev pub review : Flow
review = record {
  id = "review";
  name = "";
  description = "";
  nodes =
      node_of "start" "copy"
      ∷ node_of "ask" "human"
      ∷ node_of "left" "copy"
      ∷ node_of "right" "copy"
      ∷ [];
  edges =
      link "start" "ask" ""
      ∷ link "ask" "left" "value == yes"
      ∷ link "ask" "right" "value == no"
      ∷ [];
  mappings = [];
  inputs = record { name = "question"; ref = port_ref "start" "in" } ∷ [];
  outputs =
      record { name = "yes"; ref = port_ref "left" "out" }
      ∷ record { name = "no"; ref = port_ref "right" "out" }
      ∷ [];
}

abbrev pub out_port : List Port
out_port = record { name = "out"; schema = "" } ∷ []

-- Passes its input on.
abbrev pub copy : NodeKind
copy = record {
  inputs = record { name = "in"; schema = "" } ∷ [];
  outputs = out_port;
  can_interrupt = none;
  run = λ state input. elim (input "in") [
    | some v ↦ (finished (("out", v) ∷ []), none)
    | none ↦ (failed (foreign "no input"), none)
  ];
}

-- Asks a human.
abbrev pub human : NodeKind
human = record {
  inputs = record { name = "in"; schema = "" } ∷ [];
  outputs = out_port;
  can_interrupt = some true;
  run = λ state input. (interrupted "approve?", none);
}

abbrev pub kinds : NodeRegistry
kinds = ("copy", λ config. ok copy) ∷ ("human", λ config. ok human) ∷ []

abbrev pub condition : String → Run Condition
condition source =
    ok (λ value. ok (if source == "value == yes" then value == "yes" else value == "no"))

abbrev pub config : EngineConfig
config = record { max_node_concurrency = 4; cond_eval = some condition; has_store = true }

abbrev pub hash_of_flow : Flow → Run String
hash_of_flow f = ok "full"

abbrev pub hash_of_structure : Flow → Nodes → Run String
hash_of_structure f nodes = ok "shape"

abbrev fallback : Engine
fallback = record {
  flow = review;
  nodes = λ _. none;
  layers = [];
  edges = [];
  max_node_concurrency = 0;
  has_store = false;
  flow_hash = "";
  struct_hash = "";
}

abbrev engine_of : Result CompileError Engine → Engine
engine_of (ok e) = e
engine_of (err _) = fallback

unfoldable pub review_engine : Engine
unfolding compile
review_engine = engine_of (compile hash_of_flow hash_of_structure review (some kinds) config)

review_compiles :
    compile hash_of_flow hash_of_structure review (some kinds) config ≡ ok review_engine
unfolding compile edge_key review_engine
review_compiles = refl

review_layers : review_engine.layers ≡ ("start" ∷ []) ∷ ("ask" ∷ []) ∷ ("left" ∷ "right" ∷ []) ∷ []
unfolding compile edge_key review_engine
review_layers = refl

review_accepted : validate review ≡ none
unfolding validate edge_key successors
review_accepted = refl

compile-IsCompiled_example : IsCompiled review config review_engine
compile-IsCompiled_example =
    compile-IsCompiled hash_of_flow hash_of_structure review kinds config review_engine
      review_compiles

compile-ne_residual_cycle_example :
    compile hash_of_flow hash_of_structure review (some kinds) config ≢ err residual_cycle
compile-ne_residual_cycle_example =
    compile-ne_residual_cycle hash_of_flow hash_of_structure review (some kinds) config

validate-iff-IsWellFormed_example : (validate review ≡ none) ↔ IsWellFormed review
validate-iff-IsWellFormed_example = validate-iff-IsWellFormed review
