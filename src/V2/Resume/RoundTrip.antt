-- ===== src/V2/Resume/RoundTrip.antt =====
-- What `Resume` reads from the checkpoint that `snapshotCheckpoint` made of a run.
use llm_agent_flow.Base.{
  ℕ, String, ◌≡◌, refl, subst, sym, ap, ◌∙◌, ◌⊎◌, All, Bool, true, false, inl, inr, Bool-cases,
  Option, none, some, List, [], ◌∷◌, map, arith, eq_refl, Result, ok, err, ◌>>=◌, wrap, >>=-on-ok,
  >>=-eq-ok, ok-injective, ◌==◌, if◌then◌else◌, ◌||◌,
}
use llm_agent_flow.V2.Value.{Value, PortTable}
use llm_agent_flow.V2.Errors.{port_failed, state_failed, Run}
use llm_agent_flow.V2.State.{StateCell, set_committed}
use llm_agent_flow.V2.Codec.{Json, Registry, encode_port_value, state_codec_tag, is_nil}
use llm_agent_flow.V2.Codec.RoundTrip.{IsPaired, ReadsBack, decode-encode}
use llm_agent_flow.V2.Engine.{Engine}
use llm_agent_flow.V2.Checkpoint.{RawSlot, Checkpoint}
use llm_agent_flow.V2.Tasks.{PendingInterrupt}
use llm_agent_flow.V2.Run.{Inputs, RunState}
use llm_agent_flow.V2.Run.Snapshot.{
  encode_ports, original_inputs, encode_state, encode_cell, snapshot_checkpoint,
}
use llm_agent_flow.V2.Resume.{resumable, decode_ports, check_state_codec, restore_state}

wrap-eq-ok : {E F A : Type 0} (f : E → F) (m : Result E A) (a : A) → wrap f m ≡ ok a → m ≡ ok a
wrap-eq-ok f (ok b) a h = cc
wrap-eq-ok f (err e) a h = cc

-- A cell with the State of the run that was snapshotted, if that run had one, in place of its own.
abbrev pub seeded : Option StateCell → StateCell → StateCell
seeded none seed = seed
seeded (some c) seed = if is_nil c.committed then seed else record seed { committed = c.committed }

-- What a checkpoint gives back of the run that it was taken from; the State goes into the cell that
-- the resumption was given.
pub record IsRestored (json : Json) (r : Registry) (e : Engine) (s : RunState) (seed : StateCell)
    (cp : Checkpoint) : Type 0 where
  pub flow : resumable e cp ≡ true
  pub ports : decode_ports json r cp.port_values ≡ ok s.wiring.ports
  pub activated : cp.activated ≡ s.wiring.activated
  pub edges : cp.edge_states ≡ map (λ x. x.1) s.cursor
  pub cell : restore_state json r cp (some seed) ≡ ok (some (seeded s.cell seed))

encoded_state :
    (b : Bool) (text tags : Run String) (q : Option String × String)
    → b ≡ false
    → (if b then ok (none, "") else do raw ← text; tag ← tags; ok (some raw, tag)) ≡ ok q
    → (raw : String) × (tag : String) × (text ≡ ok raw)
      × (tags ≡ ok tag)
      × (◌≡◌ {A = Run (Option String × String)} (ok (some raw, tag)) (ok q))
encoded_state true text tags q n h = cc
encoded_state false text tags q n h =
    let (raw, a, h) = >>=-eq-ok text _ h in
    let (tag, b, h) = >>=-eq-ok tags _ h in (raw, tag, a, b, h)

-- The values of a port table are read back.
abbrev pub PortsReadBack : Json → PortTable → Type 0
PortsReadBack json = All (λ s. ReadsBack json s.value)

module _ (json : Json) (r : Registry) (paired : IsPaired r) where
  decode_ports-encode_ports :
      (table : PortTable) (slots : List RawSlot)
      → PortsReadBack json table
      → encode_ports json r table ≡ ok slots
      → decode_ports json r slots ≡ ok table
  unfolding encode_ports decode_ports
  decode_ports-encode_ports [] slots reads h =
      subst (λ slots. decode_ports json r slots ≡ ok []) (ok-injective h) refl
  decode_ports-encode_ports (s ∷ table) slots reads h =
      let (raw, encoded, h) =
        >>=-eq-ok (wrap (port_failed s.node s.port) (encode_port_value json r s.value)) _ h in
      let (rest, others, h) = >>=-eq-ok (encode_ports json r table) _ h in
      let back =
        decode-encode json r s.value raw paired reads.0
          (wrap-eq-ok (port_failed s.node s.port) (encode_port_value json r s.value) raw encoded) in
      subst (λ slots. decode_ports json r slots ≡ ok (s ∷ table)) (ok-injective h)
        (rw (decode_ports, back, decode_ports-encode_ports table rest reads.1 others) refl)

  -- A seed without a value, or with one of the type of the State, passes the guard on the State's type.
  check_same_type :
      (v state : Value) (tag current : String)
      → wrap state_failed (state_codec_tag json r state) ≡ ok tag
      → current ≡ tag
      → (is_nil v ≡ true) ⊎ (json.type_of v ≡ json.type_of state)
      → check_state_codec json r current v ≡ ok true
  unfolding check_state_codec state_codec_tag
  check_same_type v state tag current h k (inl no_value) =
      rw (check_state_codec, no_value) (ground arith)
  check_same_type v state tag current h k (inr same) =
      elim (Bool-cases (current == "" || is_nil v)) [
        | inl none_to_compare ↦ rw (check_state_codec, none_to_compare) refl
        | inr compared ↦
            let tagged : wrap state_failed (state_codec_tag json r v) ≡ ok tag =
              rw (state_codec_tag, same) h in
            rw (check_state_codec, compared, tagged, k, eq_refl tag) refl
      ]

  -- The State of the cell, and its tag, are read back.
  restored_cell :
      (cell : Option StateCell) (seed : StateCell) (q : Option String × String) (cp : Checkpoint)
      → ((c : StateCell)
          → cell ≡ some c
          → is_nil c.committed ≡ false
          → ReadsBack json c.committed
            × ((is_nil seed.committed ≡ true)
                ⊎ (json.type_of seed.committed ≡ json.type_of c.committed)))
      → encode_cell json r cell ≡ ok q
      → cp.state ≡ q.0
      → cp.state_codec ≡ q.1
      → restore_state json r cp (some seed) ≡ ok (some (seeded cell seed))
  unfolding encode_state restore_state set_committed
  restored_cell none seed q cp fits h a b =
      let empty : q ≡ (none, "") = sym (ok-injective h) in
      let missing : cp.state ≡ none = a ∙ ap (λ (q : Option String × String). q.0) empty in
      rw (restore_state, missing) refl
  restored_cell (some c) seed q cp fits h a b = elim (Bool-cases (is_nil c.committed)) [
    | inl no_state ↦
        let empty : q ≡ (none, "") = sym (ok-injective (simp (encode_state, no_state) at h)) in
        let missing : cp.state ≡ none = a ∙ ap (λ (q : Option String × String). q.0) empty in
        rw (restore_state, missing, no_state) refl
    | inr stateful ↦
        let (raw, tag, encoded, tagged, h) =
          encoded_state (is_nil c.committed)
            (wrap state_failed (encode_port_value json r c.committed))
            (wrap state_failed (state_codec_tag json r c.committed)) q stateful h in
        let full : q ≡ (some raw, tag) = sym (ok-injective h) in
        let present : cp.state ≡ some raw = a ∙ ap (λ (q : Option String × String). q.0) full in
        let same_tag : cp.state_codec ≡ tag = b ∙ ap (λ (q : Option String × String). q.1) full in
        let (reads, typed) = fits c refl stateful in
        let back =
          decode-encode json r c.committed raw paired reads
            (wrap-eq-ok state_failed (encode_port_value json r c.committed) raw encoded) in
        rw
          (
            restore_state,
            present,
            check_same_type seed.committed c.committed tag cp.state_codec tagged same_tag typed,
            back,
            stateful,
          )
          refl
  ]

  -- Where the codecs are paired, and the texts of the values that the ports hold, and of the State if
  -- there is one, are read back: from the checkpoint of a run, the engine that took it accepts the
  -- flow, and reads back the values of all ports, the active nodes and the states of the edges. Into
  -- any cell whose own State is nil or of the type of the run's State it restores that State, and
  -- changes nothing else of the cell; where the run had none, the cell stays.
  pub snapshot_checkpoint-IsRestored :
      (e : Engine) (run_id : String) (i : ℕ) (p : PendingInterrupt) (s : RunState)
      (inputs : Option Inputs) (seed : StateCell) (cp : Checkpoint)
      → PortsReadBack json s.wiring.ports
      → ((c : StateCell)
          → s.cell ≡ some c
          → is_nil c.committed ≡ false
          → ReadsBack json c.committed
            × ((is_nil seed.committed ≡ true)
                ⊎ (json.type_of seed.committed ≡ json.type_of c.committed)))
      → snapshot_checkpoint json r e run_id i p s inputs ≡ ok cp
      → IsRestored json r e s seed cp
  unfolding snapshot_checkpoint resumable
  snapshot_checkpoint-IsRestored e run_id i p s inputs seed cp reads fits h =
      >>=-on-ok {P = IsRestored json r e s seed} (encode_ports json r s.wiring.ports) _
        (λ ports encoded.
          >>=-on-ok {P = IsRestored json r e s seed} (original_inputs json r inputs) _
            (λ originals _.
              >>=-on-ok {P = IsRestored json r e s seed} (encode_cell json r s.cell) _
                (λ q state cp h. subst (IsRestored json r e s seed) (ok-injective h) (record {
                  flow = ground (arith, eq_refl e.flow_hash);
                  ports = decode_ports-encode_ports s.wiring.ports ports reads encoded;
                  activated = refl;
                  edges = refl;
                  cell = restored_cell s.cell seed q _ fits state refl refl;
                }))))
        cp h
