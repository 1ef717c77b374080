-- ===== src/V2/Mapping.antt =====
-- v2/flow/mapping.go: the selection of a nested value, and its storage under a path of a port. A
-- value is a tree here. The source shares nested maps: where a mapping has put a whole map into a
-- port, a later path into it also changes the map that the first one came from.
pub mod RoundTrip
use llm_agent_flow.Base.{
  String, Bool, Option, none, some, List, [], ◌∷◌, Result, ok, err, ◌>>=◌, ◌==◌, if◌then◌else◌,
}
use llm_agent_flow.V2.Value.{
  Value, nil, nil_map, str, texts, object, struct, pointer, nil_pointer, opaque, Fields, end,
  lookup_field, store_field, lookup_text, PortTable, get_port, set_port,
}

pub data PathError : Type 0 where
  empty_source_segment empty_target_segment into_existing : PathError
  -- the panic of a write to a nil map
  write_to_nil_map : String → PathError
  path_not_found path_on_nil_pointer path_not_exported path_on_value not_a_map : String → PathError

abbrev pub or_error {ℓ} : {A : Type ℓ} → PathError → Option A → Result PathError A
or_error e none = err e
or_error e (some a) = ok a

-- The reflective part of `selectOne`: pointers are followed down to a struct.
unfoldable pub select_reflect : Value → String → Result PathError Value
select_reflect (pointer v) key = select_reflect v key
select_reflect nil_pointer key = err (path_on_nil_pointer key)
select_reflect (struct exported hidden) key = elim (lookup_field key exported) [
  | some v ↦ ok v
  | none ↦ elim (lookup_field key hidden) [
    | some v ↦ err (path_not_exported key)
    | none ↦ err (path_not_found key)
  ]
]
select_reflect _ key = err (path_on_value key)

unfoldable pub select_one : Value → String → Result PathError Value
unfolding select_reflect lookup_field lookup_text
select_one (object fs) key = or_error (path_not_found key) (lookup_field key fs)
select_one (texts m) key = do t ← or_error (path_not_found key) (lookup_text key m); ok (str t)
select_one nil_map key = err (path_not_found key)
select_one v key = select_reflect v key

unfoldable pub select_path : Value → List String → Result PathError Value
unfolding select_one
select_path value [] = ok value
select_path value (key ∷ path) =
    if key == ""
    then err empty_source_segment
    else do next ← select_one value key; select_path next path

-- The map under a path segment that is not the last; `next` is the segment behind it. A write to a nil
-- map panics, and every store under a segment that is not empty writes to it.
abbrev pub nested : (key next : String) → Option Value → Result PathError Fields
nested key next none = ok end
nested key next (some (object fs)) = ok fs
nested key next (some nil_map) =
    err (if next == "" then empty_target_segment else write_to_nil_map next)
nested key next (some _) = err (not_a_map key)

-- The loop of `setMappedPort`, over the first segment and those behind it: the map with the value
-- stored under the path.
unfoldable pub store_path : Fields → String → List String → Value → Result PathError Fields
unfolding store_field lookup_field
store_path root last [] value =
    if last == "" then err empty_target_segment else ok (store_field last value root)
store_path root key (next ∷ path) value = if key == "" then err empty_target_segment else do
  below ← nested key next (lookup_field key root)
  stored ← store_path below next path value
  ok (store_field key (object stored) root)

-- A copy of the map that the port holds already; the copy of a nil map, and a missing one, is a new
-- map.
abbrev pub existing_root : Option Value → Result PathError Fields
existing_root none = ok end
existing_root (some (object fs)) = ok fs
existing_root (some nil_map) = ok end
existing_root (some _) = err into_existing

unfoldable pub set_mapped_port :
    PortTable → (node port : String) → List String → Value → Result PathError PortTable
unfolding store_path set_port get_port
set_mapped_port table node port [] value = ok (set_port table node port value)
set_mapped_port table node port (key ∷ path) value = do
  root ← existing_root (get_port table node port)
  stored ← store_path root key path value
  ok (set_port table node port (object stored))
