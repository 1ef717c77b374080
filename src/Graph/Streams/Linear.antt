-- ===== src/Graph/Streams/Linear.antt =====
-- `runLinearStream` of v2/flow/graph/runnable.go, with `streamRun` of component.go, `liveCarrier` of
-- streamexec.go, and the readers `boxReader` and `foldTailReader` of stream.go. `llm.ChatModel` is a
-- parameter, by the node's id. There is no State in the context.
use llm_agent_flow.Base.{
  ℕ, String, Bool, true, false, ◌||◌, Option, none, some, List, [], ◌∷◌, Result, ok, err, wrap,
  ◌==◌, if◌then◌else◌,
}
use llm_agent_flow.V2.Errors.{RunError, interrupt_error, Run}
use llm_agent_flow.V2.Value.{Value, nil}
use llm_agent_flow.V2.Nodes.{NodeOutcome, finished, interrupted, failed}
use llm_agent_flow.V2.Run.{find_input}
use llm_agent_flow.Graph.Types.{GoType, Reflect, asserts}
use llm_agent_flow.Graph.Adapters.{port_in, port_out}
use llm_agent_flow.Graph.Builder.Components.{request_type, event_type}
use llm_agent_flow.Graph.Chain.{PipelineNode}
use llm_agent_flow.Graph.Streams.{
  Source, Streams, open_stream, close_stream, Concatenator, Concatenators, found, missing,
  lookup_panicked, lookup_concat,
}

-- A carrier is a value or a stream with the type of its elements.
pub data Carrier : Type 0 where
  value : Value → Carrier
  stream : ℕ → GoType → Carrier

pub data StreamError : Type 0 where
  run_failed : RunError → StreamError
  no_concatenator : Option GoType → StreamError
  lookup_panic : StreamError
  needs_value : String → StreamError
  input_not_assignable : String → StreamError
  tail_not_assignable : Value → StreamError

-- The streams, and what `liveCarrier` holds.
pub record Flowing : Type 0 where
  pub live : Option Carrier
  pub streams : Streams

abbrev pub Step : Type 0 → Type 0
Step A = Flowing → Result StreamError A × Flowing

abbrev pub and_then : {A B : Type 0} → Step A → (A → Step B) → Step B
and_then step next fl =
    let (result, after) = step fl in elim result [ err e ↦ (err e, after) | ok a ↦ next a after ]

-- `closeIfLive`, with the `clear` in it.
unfoldable pub close_if_live : Flowing → Streams
unfolding close_stream
close_if_live fl = elim fl.live [
  | none ↦ fl.streams
  | some carrier ↦ elim carrier [ value _ ↦ fl.streams | stream i _ ↦ close_stream i fl.streams ]
]

-- What the "out" port holds; a missing entry of the map reads as nil.
abbrev pub out_value : Option Value → Value
out_value none = nil
out_value (some v) = v

abbrev pub out_of : NodeOutcome → Run Value
out_of (finished out) = ok (out_value (find_input out port_out))
out_of (interrupted request) = err (interrupt_error request)
out_of (failed e) = err e

-- A reader of the output: `boxReader`, and `foldTailReader` with its stream and concatenator; each with
-- `done` and `closed`.
pub data Reader : Type 0 where
  boxed : Value → (done closed : Bool) → Reader
  folding : ℕ → Concatenator → (done closed : Bool) → Reader

module _ (reflect : Reflect) (type_of : Value → Option GoType) where
  module _ (registry : Concatenators) (model_stream : String → Value → Run Source) where
    -- `streamRun` of `chatModelAdapter`.
    unfoldable pub stream_run : String → Carrier → Streams → Result StreamError Carrier × Streams
    unfolding asserts open_stream
    stream_run id (stream i t) s = (err (needs_value id), s)
    stream_run id (value v) s =
        if asserts reflect (type_of v) request_type
        then (elim (model_stream id v) [
          | err e ↦ (err (run_failed e), s)
          | ok src ↦ (ok (stream s.opened event_type), open_stream src s)
        ])
        else (err (input_not_assignable id), s)

    unfoldable pub concat_to_value : ℕ → Option GoType → Step Value
    unfolding lookup_concat
    concat_to_value i t fl = elim (lookup_concat reflect registry t) [
      | found f ↦
          let (result, s) = f i fl.streams in (wrap run_failed result, record fl { streams = s })
      | missing ↦ (err (no_concatenator t), fl)
      | lookup_panicked ↦ (err lookup_panic, fl)
    ]

    -- `live.clear()` and the fold, where the carrier is a stream.
    unfoldable pub materialise : Option GoType → Carrier → Step Value
    unfolding concat_to_value
    materialise t (value v) fl = (ok v, fl)
    materialise t (stream i _) fl = concat_to_value i t (record fl { live = none })

    -- The node itself, with its input as a value.
    unfoldable pub run_streaming : PipelineNode → Value → Step Carrier
    unfolding stream_run
    run_streaming n v fl =
        let (result, s) = stream_run n.id (value v) fl.streams in
        elim result [
          | err e ↦ (err e, record fl { streams = s })
          | ok out ↦ (ok out, record { live = some out; streams = s })
        ]

    abbrev pub input_port : Value → String → Option Value
    input_port v name = if name == port_in then some v else none

    unfoldable pub run_value : PipelineNode → Value → Step Carrier
    unfolding find_input
    run_value n v fl = elim (out_of (n.kind.run none (input_port v)).0) [
      | err e ↦ (err (run_failed e), fl)
      | ok out ↦ (ok (value out), fl)
    ]

    -- The body of the loop.
    unfoldable pub run_pipeline_node : PipelineNode → Carrier → Step Carrier
    unfolding materialise run_streaming run_value
    run_pipeline_node n carrier =
        and_then (materialise n.in_t carrier)
          (λ v. if n.streams then run_streaming n v else run_value n v)

    unfoldable pub run_pipeline : List PipelineNode → Carrier → Step Carrier
    unfolding run_pipeline_node
    run_pipeline [] carrier fl = (ok carrier, fl)
    run_pipeline (n ∷ ns) carrier fl = and_then (run_pipeline_node n carrier) (run_pipeline ns) fl

    -- The tail, which takes over a live stream.
    unfoldable pub finish_tail : GoType → Carrier → Streams → Result StreamError Reader × Streams
    unfolding lookup_concat asserts close_stream
    finish_tail out_t (value v) s =
        if asserts reflect (type_of v) out_t
        then (ok (boxed v false false), s)
        else (err (tail_not_assignable v), s)
    finish_tail out_t (stream i _) s = elim (lookup_concat reflect registry (some out_t)) [
      | found f ↦ (ok (folding i f false false), s)
      | missing ↦ (err (no_concatenator (some out_t)), close_stream i s)
      | lookup_panicked ↦ (err lookup_panic, s)
    ]

    unfoldable pub run_linear_stream :
        GoType → List PipelineNode → Value → Streams → Result StreamError Reader × Streams
    unfolding run_pipeline finish_tail close_if_live
    run_linear_stream out_t nodes input s =
        let (result, fl) = run_pipeline nodes (value input) (record { live = none; streams = s }) in
        elim result [
          | err e ↦ (err e, close_if_live fl)
          | ok carrier ↦ finish_tail out_t carrier fl.streams
        ]

  -- What `Next` gives: `none` is io.EOF.
  abbrev pub typed_tail : GoType → Run Value → Result (Option StreamError) Value
  typed_tail out_t (err e) = err (some (run_failed e))
  typed_tail out_t (ok v) =
      if asserts reflect (type_of v) out_t then ok v else err (some (tail_not_assignable v))

  unfoldable pub reader_next :
      GoType → Reader → Streams → Result (Option StreamError) Value × Reader × Streams
  unfolding asserts close_stream
  reader_next out_t (boxed v done closed) s =
      if closed || done then (err none, boxed v done closed, s) else (ok v, boxed v true closed, s)
  reader_next out_t (folding i f done closed) s =
      let (result, after) = f i s in
      if closed || done
      then (err none, folding i f done closed, s)
      else (typed_tail out_t result, folding i f true true, close_stream i after)

unfoldable pub reader_close : Reader → Streams → Reader × Streams
unfolding close_stream
reader_close (boxed v done closed) s = (boxed v done true, s)
reader_close (folding i f done closed) s =
    (folding i f done true, if done then s else close_stream i s)
