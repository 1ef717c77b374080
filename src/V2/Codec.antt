-- ===== src/V2/Codec.antt =====
-- v2/flow/codec.go, and `stateCodecTag` of statecodec.go: the registry of codecs and the tagged texts
-- of port values. A Go type is its name. JSON is a parameter.
pub mod RoundTrip
use llm_agent_flow.Base.{
  String, Bool, not, Option, none, some, List, [], ◌∷◌, ◌≡◌, Result, ok, err, ◌>>=◌, ◌==◌,
  if◌then◌else◌,
}
use Prim.Native.String.{◌++◌ as concat}
use llm_agent_flow.V2.Value.{Value, nil, str, texts, object, struct, pointer, nil_pointer, opaque}
use llm_agent_flow.V2.Errors.{RunError, foreign, not_checkpointable, Run}

-- `encoding/json`, and `reflect` as far as the type of a value and its shape.
pub record Json : Type 0 where
  pub type_of : Value → String
  pub marshal : Value → Run String
  pub unmarshal : String → String → Run Value
  pub marshal_tagged : String → String → Run String
  pub unmarshal_tagged : String → Run (String × String)
  pub fingerprint : String → String

-- `codecByName` and `codecByType`.
pub record Registry : Type 0 where
  pub by_name : String → Option String
  pub by_type : String → Option String

abbrev pub add_entry : (String → Option String) → String → String → String → Option String
add_entry m k v j = if k == j then some v else m j

-- `existing, ok := m[k]; ok && existing != v`
abbrev pub conflicts : Option String → String → Bool
conflicts none v = Bool.false
conflicts (some w) v = not (w == v)

unfoldable pub register_codec : Registry → String → String → Registry
register_codec r name t =
    if conflicts (r.by_name name) t
    then r
    else if conflicts (r.by_type t) name
    then r
    else record { by_name = add_entry r.by_name name t; by_type = add_entry r.by_type t name }

abbrev pub no_codecs : Registry
no_codecs = record { by_name = λ _. none; by_type = λ _. none }

abbrev pub or_fail {ℓ} : {A : Type ℓ} → RunError → Option A → Run A
or_fail e none = err e
or_fail e (some a) = ok a

abbrev pub is_nil : Value → Bool
is_nil nil = Bool.true
is_nil _ = Bool.false

module _ (json : Json) (r : Registry) where
  unfoldable pub encode_port_value : Value → Run String
  encode_port_value v = if is_nil v then err not_checkpointable else do
    name ← or_fail not_checkpointable (r.by_type (json.type_of v))
    inner ← json.marshal v
    json.marshal_tagged name inner

  unfoldable pub decode_port_value : String → Run Value
  decode_port_value raw = do
    (name, inner) ← json.unmarshal_tagged raw
    t ← or_fail (foreign name) (r.by_name name)
    json.unmarshal t inner

  unfoldable pub state_codec_tag : Value → Run String
  state_codec_tag v = do
    name ← or_fail not_checkpointable (r.by_type (json.type_of v))
    ok (concat (concat (concat "state:" name) ":") (json.fingerprint (json.type_of v)))
