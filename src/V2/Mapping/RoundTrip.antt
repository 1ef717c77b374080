-- ===== src/V2/Mapping/RoundTrip.antt =====
-- What is stored under a path is selected by it, and the fields beside the path stay.
use llm_agent_flow.Base.{
  String, ◌≡◌, ◌≢◌, refl, false, Bool-cases, inl, inr, some, List, [], ◌∷◌, ok, ◌>>=◌, >>=-eq-ok,
  ok-injective, ◌∙◌, arith, eq_refl, eq-false_of_ne, ◌==◌,
}
use llm_agent_flow.V2.Value.{
  Value, object, Fields, lookup_field, store_field, lookup-store_field, PortTable, get_port,
  set_port, get-set_port,
}
use llm_agent_flow.V2.Mapping.{select_path, nested, store_path, existing_root, set_mapped_port}

select_path-cons :
    (fs : Fields) (key : String) (path : List String) (v : Value)
    → (key == "") ≡ false
    → lookup_field key fs ≡ some v
    → select_path (object fs) (key ∷ path) ≡ select_path v path
unfolding select_path
select_path-cons fs key path v named here = rw (named, here)

lookup-stored :
    (k : String) (v : Value) (fs : Fields) → lookup_field k (store_field k v fs) ≡ some v
lookup-stored k v fs = rw (lookup-store_field, eq_refl)

-- The two forms of a successful store.
store_path-last :
    (root stored : Fields) (key : String) (value : Value)
    → store_path root key [] value ≡ ok stored
    → ((key == "") ≡ false) × (stored ≡ store_field key value root)
unfolding store_path
store_path-last root stored key value h = ground arith

store_path-step :
    (root stored : Fields) (key next : String) (path : List String) (value : Value)
    → store_path root key (next ∷ path) value ≡ ok stored
    → ((key == "") ≡ false)
      × (below : Fields) × (inner : Fields) × (nested key next (lookup_field key root) ≡ ok below)
      × (store_path below next path value ≡ ok inner)
      × (stored ≡ store_field key (object inner) root)
unfolding store_path
store_path-step root stored key next path value h = elim (Bool-cases (key == "")) [
  | inl empty ↦ absurd (cc (rw empty at h))
  | inr named ↦
      let found = rw named at h in
      let (below, into, after) =
        >>=-eq-ok (nested key next (lookup_field key root))
          (λ b. store_path b next path value >>= λ i. ok (store_field key (object i) root)) found in
      let (inner, ended, e) =
        >>=-eq-ok (store_path below next path value) (λ i. ok (store_field key (object i) root))
          after in
      (named, below, inner, into, ended, ground arith)
]

-- The value stored under a path is the one that the path selects.
pub select-store_path :
    (root stored : Fields) (key : String) (path : List String) (value : Value)
    → store_path root key path value ≡ ok stored
    → select_path (object stored) (key ∷ path) ≡ ok value
select-store_path root stored key [] value h =
    let (named, e) = store_path-last root stored key value h in
    rw e (
      select_path-cons (store_field key value root) key [] value named
        (lookup-stored key value root)
      ∙ unfold select_path in refl)
select-store_path root stored key (next ∷ path) value h =
    let (named, below, inner, _, ended, e) = store_path-step root stored key next path value h in
    rw e (
      select_path-cons (store_field key (object inner) root) key (next ∷ path) (object inner) named
        (lookup-stored key (object inner) root)
      ∙ select-store_path below inner next path value ended)

-- A store keeps every field of the map but the first of its path.
pub lookup-store_path_ne :
    (root stored : Fields) (key other : String) (path : List String) (value : Value)
    → store_path root key path value ≡ ok stored
    → key ≢ other
    → lookup_field other stored ≡ lookup_field other root
lookup-store_path_ne root stored key other [] value h ne =
    let (_, e) = store_path-last root stored key value h in
    rw (e, lookup-store_field, eq-false_of_ne key other ne)
lookup-store_path_ne root stored key other (next ∷ path) value h ne =
    let (_, _, inner, _, _, e) = store_path-step root stored key next path value h in
    rw (e, lookup-store_field, eq-false_of_ne key other ne)

-- When `setMappedPort` succeeds, for values that share no map with one another, the port has a value from
-- which the path selects what was stored.
pub select-set_mapped_port :
    (table stored : PortTable) (node port : String) (path : List String) (value : Value)
    → set_mapped_port table node port path value ≡ ok stored
    → (v : Value) × (get_port stored node port ≡ some v) × (select_path v path ≡ ok value)
unfolding set_mapped_port
select-set_mapped_port table stored node port [] value h =
    (value, rw (← ok-injective h, get-set_port, eq_refl, eq_refl), unfold select_path in refl)
select-set_mapped_port table stored node port (key ∷ path) value h =
    let (root, _, rest) =
      >>=-eq-ok (existing_root (get_port table node port))
        (λ r. store_path r key path value >>= λ s. ok (set_port table node port (object s))) h in
    let (inner, ended, e) =
      >>=-eq-ok (store_path root key path value) (λ s. ok (set_port table node port (object s)))
        rest in
    (
      object inner,
      rw (← ok-injective e, get-set_port, eq_refl, eq_refl),
      select-store_path root inner key path value ended,
    )
