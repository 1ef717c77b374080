-- ===== src/Tests/First.antt =====
-- A flow of the first version, compiled by both versions, and run by both.
use llm_agent_flow.Base.{
  update, ◌≡◌, refl, sym, subst, ok-injective, false, Option, none, some, List, [], ◌∷◌, ok, err,
}
use llm_agent_flow.V2.Engine.{compile}
use llm_agent_flow.V2.Structure.{structural_hash}
use llm_agent_flow.V1.Ir.{Flow}
use llm_agent_flow.V1.Compile.{
  StringNode, Factories, StringNodes, build_string_nodes, FlowEngine, compile_flow,
}
use llm_agent_flow.V1.Compile.Upgrade.{
  upgrade, upgrade_nodes, upgrade_registry, map_ok, upgrade_engine, compile-upgrade,
}
use llm_agent_flow.V1.Run.{Texts, SharedTexts, FlowTask, FlowFanout, FlowCall, run_flow}
use llm_agent_flow.V1.Run.Planned.{as_values, SameShared, SameTasks, SameFanout}
use llm_agent_flow.V1.Run.Loops.{SameEnd}
use llm_agent_flow.V1.Run.Compiled.{run_compiled-SameEnd}
use llm_agent_flow.V2.Errors.{RunError, foreign}
use llm_agent_flow.V2.Tasks.{Task, Shared, Fanout}
use llm_agent_flow.V2.Run.Core.{Services}
use llm_agent_flow.V2.Run.Start.{run_fresh}
use llm_agent_flow.V2.Checkpoint.{Memory}
use llm_agent_flow.V2.Codec.{no_codecs}
use llm_agent_flow.Tests.Flows.{structure_hash, node_of, link, out_port}

abbrev echo : StringNode
echo = record { inputs = []; outputs = out_port; run = λ input. (ok (("out", "hello") ∷ []), none) }

abbrev echoes : Factories
echoes = ("echo", λ config. ok echo) ∷ []

abbrev pair : Flow
pair = record {
  id = "pair";
  name = "";
  description = "";
  nodes = node_of "a" "echo" ∷ node_of "b" "echo" ∷ [];
  edges = link "a" "b" "" ∷ [];
  inputs = [];
  outputs = [];
}

pair-hashed :
    (r : Factories) (nodes : StringNodes)
    → (some echoes) ≡ some r
    → build_string_nodes r pair.nodes (λ _. none) ≡ ok nodes
    → structure_hash (upgrade pair) (upgrade_nodes nodes) ≡ ok "echo"
unfolding structural_hash build_string_nodes
pair-hashed r nodes same built =
    let k : echoes ≡ r = cc in
    let h : build_string_nodes echoes pair.nodes (λ _. none) ≡ ok nodes =
      subst (λ r. build_string_nodes r pair.nodes (λ _. none) ≡ ok nodes) (sym k) built in
    subst (λ nodes. structure_hash (upgrade pair) (upgrade_nodes nodes) ≡ ok "echo")
      (ok-injective h) refl

compile-upgrade_example :
    compile
      (λ f. ok "flow")
      structure_hash
      (upgrade pair)
      (some (upgrade_registry echoes))
      (record { max_node_concurrency = 0; cond_eval = none; has_store = false })
    ≡ map_ok (upgrade_engine "flow" "echo") (compile_flow pair (some echoes) 0 none)
compile-upgrade_example =
    compile-upgrade (λ f. ok "flow") structure_hash "flow" "echo" pair (some echoes) 0 none refl
      pair-hashed

-- The node gives its text on.
abbrev relay : StringNode
relay = record {
  inputs = [];
  outputs = out_port;
  run = λ input. elim (input "in") [
    | none ↦ (err (foreign "no text"), none)
    | some text ↦ (ok (("out", text) ∷ []), none)
  ];
}

abbrev relays : Factories
relays = ("echo", λ config. ok relay) ∷ []

abbrev relayed_flow : Flow
relayed_flow = record pair {
  inputs = record { name = "question"; ref = record { node = "a"; port = "in" } } ∷ [];
  outputs = record { name = "answer"; ref = record { node = "b"; port = "out" } } ∷ [];
}

abbrev relayed : FlowEngine
relayed = record {
  flow = relayed_flow;
  nodes = update (update (λ _. none) "a" (some relay)) "b" (some relay);
  layers = ("a" ∷ []) ∷ ("b" ∷ []) ∷ [];
  edges = record { edge = link "a" "b" ""; guard = none } ∷ [];
  max_node_concurrency = 0;
}

-- One task after another, in each version.
abbrev text_tasks : List FlowTask → SharedTexts → List (Option RunError) × SharedTexts
text_tasks [] s = ([], s)
text_tasks (task ∷ tasks) s =
    let first = task s in let rest = text_tasks tasks first.1 in (first.0 ∷ rest.0, rest.1)

abbrev value_tasks : List Task → Shared → List (Option RunError) × Shared
value_tasks [] s = ([], s)
value_tasks (task ∷ tasks) s =
    let first = task s in let rest = value_tasks tasks first.1 in (first.0 ∷ rest.0, rest.1)

abbrev texts_in_turn : FlowFanout
texts_in_turn cap tasks s =
    let r = text_tasks tasks s in record { run_err = none; errors = r.0; shared = r.1 }

abbrev values_in_turn : Fanout
values_in_turn cap tasks s =
    let r = value_tasks tasks s in record { run_err = none; errors = r.0; shared = r.1 }

tasks-SameShared :
    (ts : List FlowTask) (us : List Task) (s : SharedTexts) (t : Shared)
    → SameTasks ts us
    → SameShared s t
    → ((value_tasks us t).0 ≡ (text_tasks ts s).0)
      × SameShared (text_tasks ts s).1 (value_tasks us t).1
tasks-SameShared [] [] s t alike same = (refl, same)
tasks-SameShared (a ∷ ts) (b ∷ us) s t alike same =
    let (first, between) = alike.0 s t same in
    let (rest, after) = tasks-SameShared ts us (a s).1 (b t).1 alike.1 between in (cc, after)
tasks-SameShared [] (b ∷ us) s t alike same = absurd alike
tasks-SameShared (a ∷ ts) [] s t alike same = absurd alike

texts_in_turn-SameFanout : SameFanout texts_in_turn values_in_turn
texts_in_turn-SameFanout cap ts us s t alike same =
    let (errors, after) = tasks-SameShared ts us s t alike same in (refl, errors, after)

abbrev text_call : FlowCall
text_call = record { fanout = texts_in_turn; before = λ i. none; after = λ i. none }

abbrev value_services : Services Memory
value_services = record {
  fanout = values_in_turn;
  ctx = record { before = λ i. none; after = λ i. none };
  json = record {
    type_of = λ v. "string";
    marshal = λ v. err (foreign "not used");
    unmarshal = λ type raw. err (foreign "not used");
    marshal_tagged = λ name inner. err (foreign "not used");
    unmarshal_tagged = λ raw. err (foreign "not used");
    fingerprint = λ type. "0";
  };
  registry = no_codecs;
  checkpoint_store = none;
}

abbrev asking : Texts
asking = ("question", "ship it?") ∷ []

answers : (run_flow text_call relayed asking).0 ≡ ok (("answer", "ship it?") ∷ [])
unfolding run_flow
answers = refl

relayed_flow-hashed :
    (nodes : StringNodes)
    → build_string_nodes relays relayed_flow.nodes (λ _. none) ≡ ok nodes
    → structure_hash (upgrade relayed_flow) (upgrade_nodes nodes) ≡ ok "echo"
unfolding structural_hash build_string_nodes
relayed_flow-hashed nodes built =
    subst (λ nodes. structure_hash (upgrade relayed_flow) (upgrade_nodes nodes) ≡ ok "echo")
      (ok-injective built) refl

run_compiled-SameEnd_example :
    (compile
        (λ f. ok "flow")
        structure_hash
        (upgrade relayed_flow)
        (some (upgrade_registry relays))
        (record { max_node_concurrency = 0; cond_eval = none; has_store = false })
      ≡ ok (upgrade_engine "flow" "echo" relayed))
    × SameEnd (run_flow text_call relayed asking) (
        run_fresh value_services
          (upgrade_engine "flow" "echo" relayed)
          ""
          false
          (as_values asking)
          none
          [])
unfolding compile_flow
run_compiled-SameEnd_example =
    run_compiled-SameEnd (λ f. ok "flow") structure_hash "flow" "echo" relayed_flow relays 0 none
      relayed refl relayed_flow-hashed refl value_services text_call texts_in_turn-SameFanout
      (λ i. refl) (λ i. refl) asking "" []
