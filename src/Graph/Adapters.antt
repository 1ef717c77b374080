-- ===== src/Graph/Adapters.antt =====
-- The node kinds behind the nodes of the typed builder: the adapters of v2/flow/graph/graph.go,
-- branch.go, copy.go, parallel.go and merge.go. A value of Go's generic types is a `Value`, of which
-- `type_of` gives the dynamic type.
use llm_agent_flow.Base.{String, Bool, Option, none, some, List, [], ◌∷◌, map, if◌then◌else◌}
use llm_agent_flow.V2.Ir.{Port}
use llm_agent_flow.V2.Errors.{
  RunError, port_missing, not_assignable, undeclared_route, closure_failed,
}
use llm_agent_flow.V2.Value.{Value}
use llm_agent_flow.V2.Nodes.{NodeOutcome, finished, interrupted, failed, NodeKind}
use llm_agent_flow.V2.Validate.{has}
use llm_agent_flow.Graph.Types.{GoType, Reflect, asserts}

abbrev pub port_in : String
port_in = "in"

abbrev pub port_out : String
port_out = "out"

-- A Go map with string keys, by its entries in the order in which a loop over it visits them.
abbrev pub Entries {ℓ} : Type ℓ → Type ℓ
Entries A = List (String × A)

-- What a caller's closure returns; `suspends` is an error that wraps an `InterruptError`.
pub data Returned {ℓ} (A : Type ℓ) : Type ℓ where
  returns : A → Returned A
  suspends : String → Returned A
  fails : RunError → Returned A

-- A closure reads the State of its context and its argument, and may stage a State.
abbrev pub Closure {ℓ κ} : Type ℓ → Type κ → Type (ℓ ⊔ κ)
Closure A B = Option Value → A → Returned B × Option Value

abbrev pub port : String → Port
port name = record { name = name; schema = "" }

abbrev pub emit_out : Returned Value × Option Value → NodeOutcome × Option Value
emit_out (returns v, staged) = (finished ((port_out, v) ∷ []), staged)
emit_out (suspends request, staged) = (interrupted request, staged)
emit_out (fails e, staged) = (failed e, staged)

-- The same where the adapter says which node failed.
abbrev pub emit_of : String → Returned Value × Option Value → NodeOutcome × Option Value
emit_of id (returns v, staged) = (finished ((port_out, v) ∷ []), staged)
emit_of id (suspends request, staged) = (interrupted request, staged)
emit_of id (fails e, staged) = (failed (closure_failed id e), staged)

-- `out[k] = typed` for every key.
unfoldable pub to_all : List String → Value → List (String × Value)
to_all [] v = []
to_all (k ∷ keys) v = (k, v) ∷ to_all keys v

-- The input ports that are present, in the order of the keys.
unfoldable pub gather : List String → (String → Option Value) → Entries Value
gather [] ports = []
gather (k ∷ keys) ports =
    let rest = gather keys ports in elim (ports k) [ none ↦ rest | some v ↦ (k, v) ∷ rest ]

abbrev pub emit_key :
    String → List String → Value → Returned String × Option Value → NodeOutcome × Option Value
emit_key id keys v (returns k, staged) =
    (if has keys k then finished ((k, v) ∷ []) else failed (undeclared_route id k), staged)
emit_key id keys v (suspends request, staged) = (interrupted request, staged)
emit_key id keys v (fails e, staged) = (failed (closure_failed id e), staged)

module _ (reflect : Reflect) (type_of : Value → Option GoType) where
  -- The input port and its assertion, before what an adapter does with the value.
  abbrev pub typed_input :
      String
      → GoType
      → (String → Option Value)
      → (Value → NodeOutcome × Option Value)
      → NodeOutcome × Option Value
  typed_input id in_t ports next = elim (ports port_in) [
    | none ↦ (failed (port_missing id port_in), none)
    | some raw ↦
        if asserts reflect (type_of raw) in_t then next raw else (failed (not_assignable id), none)
  ]

  -- `can_interrupt` is `some true` for an interruptible lambda node.
  unfoldable pub lambda_adapter : Option Bool → String → GoType → Closure Value Value → NodeKind
  unfolding asserts
  lambda_adapter can_interrupt id in_t fn = record {
    inputs = port port_in ∷ [];
    outputs = port port_out ∷ [];
    can_interrupt = can_interrupt;
    run = λ state ports. typed_input id in_t ports (λ v. emit_out (fn state v));
  }

  unfoldable pub branch_adapter : String → Closure Value String → List String → GoType → NodeKind
  unfolding asserts has
  branch_adapter id key keys in_t = record {
    inputs = port port_in ∷ [];
    outputs = map port keys;
    can_interrupt = none;
    run = λ state ports. typed_input id in_t ports (λ v. emit_key id keys v (key state v));
  }

  -- `copyAdapter` and `parallelAdapter` run alike.
  unfoldable pub fan_out_adapter : String → List String → GoType → NodeKind
  unfolding asserts to_all
  fan_out_adapter id keys in_t = record {
    inputs = port port_in ∷ [];
    outputs = map port keys;
    can_interrupt = none;
    run = λ state ports. typed_input id in_t ports (λ v. (finished (to_all keys v), none));
  }

  -- The values of the gathered ports, unless one is not of the element type.
  unfoldable pub typed_items : GoType → Entries Value → Option (List Value)
  unfolding asserts
  typed_items elem_t [] = some []
  typed_items elem_t ((k, v) ∷ m) =
      let rest = typed_items elem_t m in
      if asserts reflect (type_of v) elem_t
      then elim rest [ none ↦ none | some vs ↦ some (v ∷ vs) ]
      else none

  unfoldable pub stream_merge_adapter :
      String → List String → GoType → Closure (List Value) Value → NodeKind
  unfolding typed_items gather
  stream_merge_adapter id keys elem_t combine = record {
    inputs = map port keys;
    outputs = port port_out ∷ [];
    can_interrupt = none;
    run = λ state ports. elim (typed_items elem_t (gather keys ports)) [
      | none ↦ (failed (not_assignable id), none)
      | some items ↦ emit_of id (combine state items)
    ];
  }

  -- The values of every source; one that was skipped has none.
  unfoldable pub per_source :
      GoType → List String → (String → Option Value) → Option (List (List Value))
  unfolding asserts
  per_source elem_t [] ports = some []
  per_source elem_t (k ∷ keys) ports =
      let rest = per_source elem_t keys ports in
      elim (ports k) [
        | none ↦ elim rest [ none ↦ none | some vs ↦ some ([] ∷ vs) ]
        | some v ↦
            if asserts reflect (type_of v) elem_t
            then elim rest [ none ↦ none | some vs ↦ some ((v ∷ []) ∷ vs) ]
            else none
      ]

  unfoldable pub zip_adapter :
      String → List String → GoType → Closure (List (List Value)) Value → NodeKind
  unfolding per_source
  zip_adapter id keys elem_t combine = record {
    inputs = map port keys;
    outputs = port port_out ∷ [];
    can_interrupt = none;
    run = λ state ports. elim (per_source elem_t keys ports) [
      | none ↦ (failed (not_assignable id), none)
      | some slots ↦ emit_of id (combine state slots)
    ];
  }

unfoldable pub passthrough_adapter : String → NodeKind
passthrough_adapter id = record {
  inputs = port port_in ∷ [];
  outputs = port port_out ∷ [];
  can_interrupt = none;
  run = λ state ports. elim (ports port_in) [
    | none ↦ (failed (port_missing id port_in), none)
    | some raw ↦ (finished ((port_out, raw) ∷ []), none)
  ];
}

unfoldable pub combine_adapter : String → List String → Closure (Entries Value) Value → NodeKind
unfolding gather
combine_adapter id keys combine = record {
  inputs = map port keys;
  outputs = port port_out ∷ [];
  can_interrupt = none;
  run = λ state ports. emit_of id (combine state (gather keys ports));
}
