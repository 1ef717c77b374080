-- ===== src/Graph/Streams/Releases.antt =====
-- What `runLinearStream` opens is closed: by a concatenator, by its cleanup on an error, or by its reader.
use llm_agent_flow.Base.{
  arith, String, Bool, true, false, not, ◌&&◌, ◌≡◌, refl, Option, none, some, List, [], ◌∷◌, All,
  Result, ok, err, Bool-cases, inl, inr, if◌then◌else◌,
}
use llm_agent_flow.V2.Errors.{Run}
use llm_agent_flow.V2.Value.{Value}
use llm_agent_flow.Graph.Types.{GoType, Reflect, asserts}
use llm_agent_flow.Graph.Chain.{PipelineNode, check_folders, no_concatenator}
use llm_agent_flow.Graph.Streams.{
  Source, Streams, close_stream, Concatenators, Lookup, found, missing, lookup_panicked, is_found,
  lookup_concat,
}
use llm_agent_flow.Graph.Streams.Linear.{
  Carrier, value, stream, StreamError, lookup_panic, no_concatenator as no_folder, Flowing,
  close_if_live, Reader, boxed, folding, run_pipeline_node, run_pipeline, finish_tail,
  run_linear_stream,
}
use llm_agent_flow.Graph.Streams.Lookups.{AllClosed, Closes, FoundCloses, lookup_concat-FoundCloses}
use llm_agent_flow.Graph.Streams.Steps.{
  ClosedBut, Held, StreamsOnly, After, and_then-After, Foldable, Passed, run_pipeline_node-After,
}
use llm_agent_flow.Graph.Streams.Readers.{
  ReaderCall, answer, answers, answer-Folds, answers-AllClosed, answer-AllClosed,
}

module _ (reflect : Reflect) (type_of : Value → Option GoType) (registry : Concatenators)
    (model_stream : String → Value → Run Source) (all : All (λ p. Closes p.1) registry) where
  abbrev has_folder : Option GoType → Bool
  has_folder t = is_found (lookup_concat reflect registry t)

  -- The type that the next node, or the end, wants.
  abbrev wanted : GoType → List PipelineNode → Option GoType
  wanted out_t [] = some out_t
  wanted out_t (n ∷ ns) = n.in_t

  unguarded :
      {E : Type 0} (b : Bool) (e : E) (m : Result E (Unit {0}))
      → (if b then err e else m) ≡ ok tt
      → (b ≡ false) × (m ≡ ok tt)
  unguarded true e m h = cc
  unguarded false e m h = (refl, h)

  check_folders-Foldable :
      (out_t : GoType) (n : PipelineNode) (ns : List PipelineNode) (carrier : Carrier)
      → check_folders has_folder out_t (n ∷ ns) ≡ ok tt
      → StreamsOnly carrier n.streams
      → Foldable reflect type_of registry model_stream all carrier (wanted out_t ns)
        × (check_folders has_folder out_t ns ≡ ok tt)
  unfolding check_folders
  check_folders-Foldable out_t n [] (value v) h streams = (tt, refl)
  check_folders-Foldable out_t n [] (stream i t) h streams =
      let (checked, _) =
        unguarded (n.streams && not (has_folder (some out_t))) (no_concatenator n.id (some out_t))
          (ok tt) h in
      (ground arith, refl)
  check_folders-Foldable out_t n (m ∷ ms) (value v) h streams =
      (tt, (unguarded (n.streams && not (has_folder m.in_t)) (no_concatenator n.id m.in_t) _ h).1)
  check_folders-Foldable out_t n (m ∷ ms) (stream i t) h streams =
      let (checked, rest) =
        unguarded (n.streams && not (has_folder m.in_t)) (no_concatenator n.id m.in_t)
          (check_folders has_folder out_t (m ∷ ms)) h in
      (ground arith, rest)

  run_pipeline-After :
      (out_t : GoType) (ns : List PipelineNode) (carrier : Carrier) (fl : Flowing)
      → ClosedBut carrier fl.streams
      → Held carrier fl
      → Foldable reflect type_of registry model_stream all carrier (wanted out_t ns)
      → check_folders has_folder out_t ns ≡ ok tt
      → After
          (λ c after.
            ClosedBut c after.streams
            × Foldable reflect type_of registry model_stream all c (some out_t))
          (run_pipeline reflect type_of registry model_stream ns carrier fl)
  unfolding run_pipeline
  run_pipeline-After out_t [] carrier fl but held foldable checked = (but, foldable)
  run_pipeline-After out_t (n ∷ ns) carrier fl but held foldable checked =
      and_then-After (Passed reflect type_of registry model_stream all n.streams) _
        (run_pipeline_node reflect type_of registry model_stream n carrier)
        (run_pipeline reflect type_of registry model_stream ns) fl
        (run_pipeline_node-After reflect type_of registry model_stream all n carrier fl but held
          foldable)
        (λ c after passed.
          let (fold, rest) = check_folders-Foldable out_t n ns c checked passed.2 in
          run_pipeline-After out_t ns c after passed.0 passed.1 fold rest)

module _ (reflect : Reflect) (type_of : Value → Option GoType) (out_t : GoType) where
  -- A reader, and any calls of it, the first included.
  abbrev pub Released : Result StreamError Reader × Streams → Type 0
  Released (err e, s) = AllClosed s
  Released (ok r, s) =
      (c : ReaderCall) (cs : List ReaderCall)
      → AllClosed (answers reflect type_of out_t (c ∷ cs) r s).1

  module _ (registry : Concatenators) (model_stream : String → Value → Run Source)
      (all : All (λ p. Closes p.1) registry) where
    finish_tail-Released :
        (carrier : Carrier) (s : Streams)
        → ClosedBut carrier s
        → Foldable reflect type_of registry model_stream all carrier (some out_t)
        → Released (finish_tail reflect type_of registry model_stream out_t carrier s)
    unfolding finish_tail answers
    finish_tail-Released (value v) s closed foldable =
        elim (Bool-cases (asserts reflect (type_of v) out_t)) [
          | inl h ↦
              rw (Released, h)
                (λ c cs.
                  answers-AllClosed reflect type_of out_t cs
                    (answer reflect type_of out_t c (boxed v false false) s).0
                    (answer reflect type_of out_t c (boxed v false false) s).1
                    (answer-Folds reflect type_of out_t c (boxed v false false) s tt)
                    (answer-AllClosed reflect type_of out_t c (boxed v false false) s tt closed))
          | inr h ↦ rw (Released, h) closed
        ]
    finish_tail-Released (stream i t) s but foldable =
        taken (lookup_concat reflect registry (some out_t)) foldable
          (lookup_concat-FoundCloses reflect registry (some out_t) all)
      where
        taken :
            (l : Lookup)
            → is_found l ≡ true
            → FoundCloses l
            → Released (elim l [
              | found f ↦ (ok (folding i f false false), s)
              | missing ↦ (err (no_folder (some out_t)), close_stream i s)
              | lookup_panicked ↦ (err lookup_panic, s)
            ])
        taken (found f) h closes = λ c cs.
            answers-AllClosed reflect type_of out_t cs
              (answer reflect type_of out_t c (folding i f false false) s).0
              (answer reflect type_of out_t c (folding i f false false) s).1
              (answer-Folds reflect type_of out_t c (folding i f false false) s closes)
              (answer-AllClosed reflect type_of out_t c (folding i f false false) s closes
                (refl, refl, λ t. but))
        taken missing h closes = absurd (ground arith)
        taken lookup_panicked h closes = absurd (ground arith)

    -- A chain whose stream edges and tail have concatenators, all of which close their stream, is run on from
    -- streams that are closed. If the run fails, every stream that it opened is closed; if it gives a reader,
    -- every stream is closed after the reader's first call, and after all further ones.
    pub run_linear_stream-Released :
        (nodes : List PipelineNode) (input : Value) (s : Streams)
        → check_folders (λ t. is_found (lookup_concat reflect registry t)) out_t nodes ≡ ok tt
        → AllClosed s
        → Released (run_linear_stream reflect type_of registry model_stream out_t nodes input s)
    unfolding run_linear_stream
    run_linear_stream-Released nodes input s checked closed =
        tailed
          (run_pipeline reflect type_of registry model_stream nodes (value input)
            (record { live = none; streams = s }))
          (run_pipeline-After reflect type_of registry model_stream all out_t nodes (value input)
            (record { live = none; streams = s }) closed refl tt checked)
      where
        tailed :
            (r : Result StreamError Carrier × Flowing)
            → After {A = Carrier}
                (λ c after.
                  ClosedBut c after.streams
                  × Foldable reflect type_of registry model_stream all c (some out_t))
                r
            → Released (elim r.0 [
              | err e ↦ (err e, close_if_live r.1)
              | ok carrier ↦
                  finish_tail reflect type_of registry model_stream out_t carrier r.1.streams
            ])
        tailed (err e, fl) held = held
        tailed (ok carrier, fl) held = finish_tail-Released carrier fl.streams held.0 held.1
