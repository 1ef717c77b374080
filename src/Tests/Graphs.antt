-- ===== src/Tests/Graphs.antt =====
-- Small graphs, States, ports and stores.
use llm_agent_flow.Base.{
  ℕ, String, ◌≡◌, ◌≢◌, refl, subst, false, none, some, List, [], ◌∷◌, count, flatten, arith, ok,
  Bool-cases, inl, inr, eq_iff, ◌==◌, if◌then◌else◌,
}
use llm_agent_flow.V2.Ir.{Flow}
use llm_agent_flow.V2.Arcs.{Arc, successors}
use llm_agent_flow.V2.Layers.{layers}
use llm_agent_flow.V2.Layers.Order.{IsNodup}
use llm_agent_flow.V2.Layers.Total.{IsClosed, layers_partition, layers_total}
use llm_agent_flow.V2.Cycle.{cycle, find_cycle}
use llm_agent_flow.V2.Cycle.Decides.{Decision, find_cycle_decides}
use llm_agent_flow.V2.Validate.{validate}
use llm_agent_flow.V2.Validate.Keys.{long_port, long_node, dotted_edges_rejected}
use llm_agent_flow.V2.Value.{Value, nil, str, object, field, end, PortTable, get_port}
use llm_agent_flow.V2.Mapping.{select_path, set_mapped_port}
use llm_agent_flow.V2.Mapping.RoundTrip.{select-set_mapped_port}
use llm_agent_flow.V2.State.{StateCell, reduce}
use llm_agent_flow.V2.State.Barrier.{stage_all, last_write, reduce_order}
use llm_agent_flow.V2.Checkpoint.{Checkpoint}
use llm_agent_flow.Tests.Flows.{review}

abbrev arc : String → String → Arc
arc source target = record { source = source; target = target }

abbrev diamond : List Arc
diamond = arc "a" "b" ∷ arc "a" "c" ∷ arc "b" "d" ∷ arc "c" "d" ∷ []

abbrev ids : List String
ids = "a" ∷ "b" ∷ "c" ∷ "d" ∷ []

pub IsNodup-cons : (x : String) (xs : List String) → count x xs ≡ 0 → IsNodup xs → IsNodup (x ∷ xs)
IsNodup-cons x xs h d v = elim (Bool-cases (x == v)) [
  | inl e ↦
      let here : count v xs ≡ 0 = subst (λ v. count v xs ≡ 0) ((eq_iff x v).0 e) h in
      ground (arith, here, e)
  | inr n ↦ ground (arith, d v, n)
]

ids-IsNodup : IsNodup ids
ids-IsNodup = IsNodup-cons "a" ("b" ∷ "c" ∷ "d" ∷ []) refl (
    IsNodup-cons "b" ("c" ∷ "d" ∷ []) refl
      (IsNodup-cons "c" ("d" ∷ []) refl (IsNodup-cons "d" [] refl (λ v. omega arith))))

diamond-IsClosed : IsClosed ids diamond
diamond-IsClosed = (
  (omega arith, omega arith),
  ((omega arith, omega arith), ((omega arith, omega arith), ((omega arith, omega arith), tt))),
)

abbrev diamond_layers : List (List String)
diamond_layers = ("a" ∷ []) ∷ ("b" ∷ "c" ∷ []) ∷ ("d" ∷ []) ∷ []

layers_of_diamond : layers ids diamond ≡ some diamond_layers
unfolding layers
layers_of_diamond = refl

layers_partition_example : count "c" (flatten diamond_layers) ≡ count "c" ids
layers_partition_example =
    layers_partition ids diamond ids-IsNodup diamond-IsClosed diamond_layers "c" layers_of_diamond

abbrev loop : List Arc
loop = arc "d" "a" ∷ diamond

loop-IsClosed : IsClosed ids loop
loop-IsClosed = ((omega arith, omega arith), diamond-IsClosed)

find_cycle_decides_example : Decision ids loop (find_cycle ids loop)
find_cycle_decides_example = find_cycle_decides ids loop loop-IsClosed

finds_loop : find_cycle ids loop ≡ cycle ("a" ∷ "b" ∷ "d" ∷ "a" ∷ [])
unfolding find_cycle successors
finds_loop = refl

abbrev level : String → ℕ
level v = if v == "a" then 0 else if v == "d" then 2 else 1

layers_total_example : (ls : List (List String)) × (layers ids diamond ≡ some ls)
layers_total_example =
    layers_total ids diamond ids-IsNodup diamond-IsClosed level
      (omega arith, (omega arith, (omega arith, (omega arith, tt))))

abbrev cell : StateCell
cell = record {
  committed = nil;
  staged = [];
  reducer = some (λ prior writes. ok (object (field "writes" prior end)));
}

abbrev two_writes : List (String × Value)
two_writes = ("x", str "1") ∷ ("y", str "2") ∷ []

abbrev three_writes : List (String × Value)
three_writes = ("y", str "0") ∷ ("x", str "1") ∷ ("y", str "2") ∷ []

same_last : (k : String) → last_write k two_writes ≡ last_write k three_writes
same_last k = ground (arith, eq_iff "x" k, eq_iff "y" k)

reduce_order_example : reduce (stage_all cell two_writes) ≡ reduce (stage_all cell three_writes)
reduce_order_example = reduce_order cell two_writes three_writes refl same_last

abbrev table : PortTable
table = record { node = "n"; port = "in"; value = object (field "a" (str "1") end) } ∷ []

abbrev stored_table : PortTable
stored_table =
    record {
      node = "n";
      port = "in";
      value = object (field "a" (str "1") (field "b" (object (field "c" (str "2") end)) end));
    }
    ∷ []

stores : set_mapped_port table "n" "in" ("b" ∷ "c" ∷ []) (str "2") ≡ ok stored_table
unfolding set_mapped_port
stores = refl

select-set_mapped_port_example :
    (v : Value) × (get_port stored_table "n" "in" ≡ some v)
    × (select_path v ("b" ∷ "c" ∷ []) ≡ ok (str "2"))
select-set_mapped_port_example =
    select-set_mapped_port table stored_table "n" "in" ("b" ∷ "c" ∷ []) (str "2") stores

abbrev pub checkpoint : String → Checkpoint
checkpoint run_id = record {
  version = 3;
  run_id = run_id;
  flow_id = "f";
  flow_hash = "h";
  struct_hash = "s";
  port_values = [];
  activated = λ id. false;
  edge_states = [];
  suspend_layer = 0;
  interrupt_node_id = "n";
  interrupt_req = "";
  original_inputs = [];
  state = none;
  state_codec = "";
}

-- Edges from the port `b.c` of the node `a` and from the port `c` of the node `a.b`.
abbrev dotted : Flow
dotted = record review {
  edges =
      long_port "a" "b" "c" (record { node = "ask"; port = "in" })
      ∷ long_node "a" "b" "c" (record { node = "ask"; port = "in" })
      ∷ [];
}

dotted_edges_rejected_example : validate dotted ≢ none
dotted_edges_rejected_example =
    dotted_edges_rejected "a" "b" "c" (record { node = "ask"; port = "in" }) dotted [] [] [] refl
