-- ===== src/V2/Codec/RoundTrip.antt =====
-- Registration keeps the two tables of codecs inverse to one another, so that what is encoded can be
-- decoded.
use llm_agent_flow.Base.{
  String, ◌≡◌, refl, ◌⊎◌, Option, false, none, some, ok, ◌>>=◌, >>=-eq-ok, arith, eq_iff,
  Bool-cases, inl, inr,
}
use llm_agent_flow.V2.Value.{Value}
use llm_agent_flow.V2.Errors.{RunError, not_checkpointable}
use llm_agent_flow.V2.Codec.{
  Json, Registry, register_codec, no_codecs, conflicts, or_fail, is_nil, encode_port_value,
  decode_port_value,
}

conflicts-false :
    (o : Option String) (v : String) → conflicts o v ≡ false → (o ≡ none) ⊎ (o ≡ some v)
conflicts-false none v h = inl refl
conflicts-false (some w) v h = ground (arith, eq_iff w v)

-- A name has a type exactly when the type has the name.
pub record IsPaired (r : Registry) : Type 0 where
  pub named : (t n : String) → r.by_type t ≡ some n → r.by_name n ≡ some t
  pub typed : (t n : String) → r.by_name n ≡ some t → r.by_type t ≡ some n

pub IsPaired-nil : IsPaired no_codecs
IsPaired-nil = record { named = λ t n h. cc; typed = λ t n h. cc }

-- Registration keeps the tables paired: where every name of a codec and its type were found from one
-- another, they are after any registration, a conflicting one included.
pub register_codec-IsPaired :
    (r : Registry) (name t : String) → IsPaired r → IsPaired (register_codec r name t)
unfolding register_codec
register_codec-IsPaired r name t p = record {
  named = λ u n h. ground (
    arith,
    p.named u n,
    p.named t name,
    p.typed t name,
    p.typed u name,
    p.named t n,
    conflicts-false (r.by_name name) t,
    conflicts-false (r.by_type t) name,
    eq_iff t u,
    eq_iff name n,
  );
  typed = λ u n h. ground (
    arith,
    p.typed u n,
    p.named t name,
    p.typed t name,
    p.typed u name,
    p.named t n,
    conflicts-false (r.by_name name) t,
    conflicts-false (r.by_type t) name,
    eq_iff t u,
    eq_iff name n,
  );
}

or_fail-ok : (e : RunError) (o : Option String) {n : String} → or_fail e o ≡ ok n → o ≡ some n
or_fail-ok e none h = cc
or_fail-ok e (some m) h = cc

-- The texts of a value, by itself and with a tag, are read back as they were written. `encoding/json`
-- does so for a value whose fields are exported and typed, and whose texts are valid.
abbrev pub ReadsBack : Json → Value → Type 0
ReadsBack json v =
    (name inner raw : String)
    → json.marshal v ≡ ok inner
    → json.marshal_tagged name inner ≡ ok raw
    → (json.unmarshal_tagged raw ≡ ok (name, inner))
      × (json.unmarshal (json.type_of v) inner ≡ ok v)

-- Where the tables are paired and the texts of a value are read back, the text that the value is
-- encoded to is decoded to it.
pub decode-encode :
    (json : Json) (r : Registry) (v : Value) (raw : String)
    → IsPaired r
    → ReadsBack json v
    → encode_port_value json r v ≡ ok raw
    → decode_port_value json r raw ≡ ok v
unfolding encode_port_value decode_port_value
decode-encode json r v raw paired reads h = elim (Bool-cases (is_nil v)) [
  | inl e ↦ absurd (cc (rw e at h))
  | inr e ↦
      let (name, known, rest) =
        >>=-eq-ok (or_fail not_checkpointable (r.by_type (json.type_of v)))
          (λ name. json.marshal v >>= λ inner. json.marshal_tagged name inner) (rw e at h) in
      let (inner, marshalled, tagged) =
        >>=-eq-ok (json.marshal v) (λ inner. json.marshal_tagged name inner) rest in
      let back = paired.named (json.type_of v) name (or_fail-ok not_checkpointable _ known) in
      let (untagged, value) = reads name inner raw marshalled tagged in rw (untagged, back, value)
]
