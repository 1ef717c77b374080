-- ===== src/Graph/Streams/Steps.antt =====
-- The step of the loop of `runLinearStream` leaves no stream open but that of its carrier.
use llm_agent_flow.Base.{
  ℕ, ◌<◌, arith, nat_eq, String, Bool, true, false, ◌≡◌, ◌≢◌, refl, Option, none, some, All, Result,
  ok, err, wrap, Bool-cases, Result-cases, inl, inr, if◌then◌else◌,
}
use llm_agent_flow.V2.Errors.{Run}
use llm_agent_flow.V2.Value.{Value}
use llm_agent_flow.Graph.Types.{GoType, Reflect, asserts}
use llm_agent_flow.Graph.Chain.{PipelineNode}
use llm_agent_flow.Graph.Streams.{
  Source, Streams, open_stream, Concatenator, Concatenators, Lookup, found, missing,
  lookup_panicked, is_found, lookup_concat,
}
use llm_agent_flow.Graph.Builder.Components.{request_type, event_type}
use llm_agent_flow.Graph.Streams.Linear.{
  Carrier, value, stream, StreamError, run_failed, no_concatenator, lookup_panic, Flowing, Step,
  and_then, close_if_live, out_of, stream_run, concat_to_value, materialise, run_streaming,
  run_value, run_pipeline_node, input_port,
}
use llm_agent_flow.Graph.Streams.Lookups.{AllClosed, Closes, FoundCloses, lookup_concat-FoundCloses}

-- All streams are closed but that of the carrier.
abbrev pub ClosedBut : Carrier → Streams → Type 0
ClosedBut (value v) s = AllClosed s
ClosedBut (stream i t) s = (j : ℕ) → j < s.opened → j ≢ i → s.closed j ≡ true

-- `liveCarrier` holds a carrier that is a stream.
abbrev pub Held : Carrier → Flowing → Type 0
Held (value v) fl = fl.live ≡ none
Held (stream i t) fl = fl.live ≡ some (stream i t)

abbrev pub StreamsOnly : Carrier → Bool → Type 0
StreamsOnly (value v) b = Unit
StreamsOnly (stream i t) b = b ≡ true

-- After a step: an error with nothing that the cleanup does not close, or what holds of its result.
abbrev pub After : {A : Type 0} → (A → Flowing → Type 0) → Result StreamError A × Flowing → Type 0
After P (err e, fl) = AllClosed (close_if_live fl)
After P (ok a, fl) = P a fl

pub and_then-After :
    {A B : Type 0} (P : A → Flowing → Type 0) (Q : B → Flowing → Type 0) (step : Step A)
    (next : A → Step B) (fl : Flowing)
    → After P (step fl)
    → ((a : A) (after : Flowing) → P a after → After Q (next a after))
    → After Q (and_then step next fl)
and_then-After {A = A} P Q step next fl first rest = chained (step fl) first
  where
    chained :
        (r : Result StreamError A × Flowing)
        → After P r
        → After Q (elim r.0 [ err e ↦ (err e, r.1) | ok a ↦ next a r.1 ])
    chained (ok a, after) held = rest a after held
    chained (err e, after) held = held

abbrev pub Idle : {A : Type 0} → A → Flowing → Type 0
Idle a fl = (fl.live ≡ none) × AllClosed fl.streams

close_if_live-idle :
    (fl : Flowing) → fl.live ≡ none → AllClosed fl.streams → AllClosed (close_if_live fl)
unfolding close_if_live
close_if_live-idle fl h closed = rw h closed

Closes-after :
    (f : Concatenator) (i : ℕ) (t : GoType) (s : Streams)
    → Closes f
    → ClosedBut (stream i t) s
    → AllClosed (f i s).1
Closes-after f i t s closes but j low = elim (Bool-cases (nat_eq j i)) [
  | inl e ↦ let same : j ≡ i = ground arith in rw same (closes.own i s)
  | inr e ↦
      let fewer : j < s.opened = ground (arith, closes.opened i s) in
      closes.others i j s (but j fewer (ground arith))
]

module _ (reflect : Reflect) (type_of : Value → Option GoType) (registry : Concatenators)
    (model_stream : String → Value → Run Source) (all : All (λ p. Closes p.1) registry) where
  -- A stream meets a type that has a concatenator.
  abbrev pub Foldable : Carrier → Option GoType → Type 0
  Foldable (value v) t = Unit
  Foldable (stream i el) t = is_found (lookup_concat reflect registry t) ≡ true

  materialise-After :
      (t : Option GoType) (carrier : Carrier) (fl : Flowing)
      → ClosedBut carrier fl.streams
      → Held carrier fl
      → Foldable carrier t
      → After Idle (materialise reflect type_of registry model_stream t carrier fl)
  unfolding materialise concat_to_value close_if_live
  materialise-After t (value v) fl but held foldable = (held, but)
  materialise-After t (stream i el) fl but held foldable =
      folds (lookup_concat reflect registry t) foldable
        (lookup_concat-FoundCloses reflect registry t all)
    where
      idle : Flowing
      idle = record fl { live = none }

      wrapped :
          (r : Run Value) (s : Streams)
          → AllClosed s
          → After Idle (wrap run_failed r, record { live = none; streams = s })
      wrapped (ok v) s closed = (refl, closed)
      wrapped (err e) s closed = closed

      folds :
          (l : Lookup)
          → is_found l ≡ true
          → FoundCloses l
          → After {A = Value} Idle (elim l [
            | found f ↦ (
              wrap run_failed (f i fl.streams).0,
              record fl { live = none; streams = (f i fl.streams).1 },
            )
            | missing ↦ (err (no_concatenator t), record fl { live = none })
            | lookup_panicked ↦ (err lookup_panic, record fl { live = none })
          ])
      folds (found f) h closes =
          wrapped (f i fl.streams).0 (f i fl.streams).1 (Closes-after f i el fl.streams closes but)
      folds missing h closes = absurd (ground arith)
      folds lookup_panicked h closes = absurd (ground arith)

  -- What holds after a node: the stream of its output is the only open one.
  abbrev pub Passed : Bool → Carrier → Flowing → Type 0
  Passed b carrier fl = ClosedBut carrier fl.streams × Held carrier fl × StreamsOnly carrier b

  run_value-After :
      (n : PipelineNode) (v : Value) (fl : Flowing)
      → Idle v fl
      → After (Passed false) (run_value reflect type_of registry model_stream n v fl)
  unfolding run_value
  run_value-After n v fl idle =
      ends (out_of (n.kind.run none (input_port reflect type_of registry model_stream v)).0)
    where
      ends :
          (r : Run Value)
          → After
              (Passed false)
              (elim r [ err e ↦ (err (run_failed e), fl) | ok out ↦ (ok (value out), fl) ])
      ends (ok out) = (idle.1, idle.0, tt)
      ends (err e) = close_if_live-idle fl idle.0 idle.1

  open_stream-ClosedBut :
      (src : Source) (s : Streams) (t : GoType)
      → AllClosed s
      → ClosedBut (stream s.opened t) (open_stream src s)
  unfolding open_stream
  open_stream-ClosedBut src s t closed j low differs = elim (Bool-cases (nat_eq s.opened j)) [
    | inl e ↦ absurd (ground arith)
    | inr e ↦ rw e (closed j (ground arith))
  ]

  -- `streamRun` opens a stream, or changes nothing.
  abbrev Opened : Result StreamError Carrier × Streams → Type 0
  Opened (err e, s) = AllClosed s
  Opened (ok (value v), s) = ⊥
  Opened (ok (stream i t), s) = ClosedBut (stream i t) s

  stream_run-Opened :
      (id : String) (v : Value) (s : Streams)
      → AllClosed s
      → Opened (stream_run reflect type_of registry model_stream id (value v) s)
  unfolding stream_run
  stream_run-Opened id v s closed = elim (Bool-cases (asserts reflect (type_of v) request_type)) [
    | inr h ↦ rw (Opened, h) closed
    | inl h ↦ elim (Result-cases (model_stream id v)) [
      | inr (e, k) ↦ rw (Opened, h, k) closed
      | inl (src, k) ↦ rw (Opened, h, k) (open_stream-ClosedBut src s event_type closed)
    ]
  ]

  run_streaming-After :
      (n : PipelineNode) (v : Value) (fl : Flowing)
      → Idle v fl
      → After (Passed true) (run_streaming reflect type_of registry model_stream n v fl)
  unfolding run_streaming close_if_live
  run_streaming-After n v fl idle =
      settles (stream_run reflect type_of registry model_stream n.id (value v) fl.streams)
        (stream_run-Opened n.id v fl.streams idle.1)
    where
      settles :
          (r : Result StreamError Carrier × Streams)
          → Opened r
          → After (Passed true) (elim r.0 [
            | err e ↦ (err e, record fl { streams = r.1 })
            | ok out ↦ (ok out, record { live = some out; streams = r.1 })
          ])
      settles (err e, s) closed = rw idle.0 closed
      settles (ok (value v), s) none_opened = absurd none_opened
      settles (ok (stream i t), s) but = (but, refl, refl)

  pub run_pipeline_node-After :
      (n : PipelineNode) (carrier : Carrier) (fl : Flowing)
      → ClosedBut carrier fl.streams
      → Held carrier fl
      → Foldable carrier n.in_t
      → After
          (Passed n.streams)
          (run_pipeline_node reflect type_of registry model_stream n carrier fl)
  unfolding run_pipeline_node
  run_pipeline_node-After n carrier fl but held foldable =
      and_then-After Idle (Passed n.streams)
        (materialise reflect type_of registry model_stream n.in_t carrier)
        (λ v.
          if n.streams
          then run_streaming reflect type_of registry model_stream n v
          else run_value reflect type_of registry model_stream n v)
        fl (materialise-After n.in_t carrier fl but held foldable)
        (λ v after idle. elim (Bool-cases n.streams) [
          | inl e ↦ rw e (run_streaming-After n v after idle)
          | inr e ↦ rw e (run_value-After n v after idle)
        ])
