-- ===== src/V2/Value.antt =====
-- The values that ports carry (`any`), as far as v2/flow looks into them, and the port table.
use llm_agent_flow.Base.{
  String, ◌&&◌, ◌≡◌, refl, Option, none, some, List, [], ◌∷◌, arith, eq_iff, ◌==◌, if◌then◌else◌,
}

-- `texts` is a map[string]string, `object` a map[string]any, and `nil_map` one
-- that is nil. A struct has its exported and its other
-- fields. `opaque` is a value of any other Go type, by that type and a printed form.
mutual
  pub data Value : Type 0 where
    nil : Value
    str : String → Value
    texts : List (String × String) → Value
    object : Fields → Value
    nil_map : Value
    struct : Fields → Fields → Value
    pointer : Value → Value
    nil_pointer : Value
    opaque : String → String → Value

  pub data Fields : Type 0 where
    end : Fields
    field : String → Value → Fields → Fields

unfoldable pub lookup_field : String → Fields → Option Value
lookup_field k end = none
lookup_field k (field j v fs) = if j == k then some v else lookup_field k fs

unfoldable pub store_field : String → Value → Fields → Fields
store_field k v end = field k v end
store_field k v (field j w fs) = if j == k then field k v fs else field j w (store_field k v fs)

pub lookup-store_field :
    (k j : String) (v : Value) (fs : Fields)
    → lookup_field j (store_field k v fs) ≡ (if k == j then some v else lookup_field j fs)
unfolding lookup_field store_field
lookup-store_field k j v end = refl
lookup-store_field k j v (field i w fs) =
    ground (arith, eq_iff k j, eq_iff i k, eq_iff i j, lookup-store_field k j v fs)

unfoldable pub lookup_text : String → List (String × String) → Option String
lookup_text k [] = none
lookup_text k ((j, v) ∷ m) = if j == k then some v else lookup_text k m

-- portValues[node][port]
pub record Slot : Type 0 where
  pub node : String
  pub port : String
  pub value : Value

abbrev pub PortTable : Type 0
PortTable = List Slot

unfoldable pub get_port : PortTable → String → String → Option Value
get_port [] n p = none
get_port (s ∷ table) n p = if s.node == n && s.port == p then some s.value else get_port table n p

-- The closure `setPort` of `runCore`.
unfoldable pub set_port : PortTable → String → String → Value → PortTable
set_port [] n p v = record { node = n; port = p; value = v } ∷ []
set_port (s ∷ table) n p v =
    if s.node == n && s.port == p
    then record { node = n; port = p; value = v } ∷ table
    else s ∷ set_port table n p v

pub get-set_port :
    (table : PortTable) (n p m q : String) (v : Value)
    → get_port (set_port table n p v) m q
      ≡ (if n == m && p == q then some v else get_port table m q)
unfolding get_port set_port
get-set_port [] n p m q v = refl
get-set_port (s ∷ table) n p m q v = ground (
  arith,
  eq_iff s.node n,
  eq_iff s.port p,
  eq_iff s.node m,
  eq_iff s.port q,
  eq_iff n m,
  eq_iff p q,
  get-set_port table n p m q v,
)

-- A Go map from names to values, as its entries: m[k] = v.
unfoldable pub put_entry : String → Value → List (String × Value) → List (String × Value)
put_entry k v [] = (k, v) ∷ []
put_entry k v ((j, w) ∷ rest) = if j == k then (k, v) ∷ rest else (j, w) ∷ put_entry k v rest
