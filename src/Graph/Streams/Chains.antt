-- ===== src/Graph/Streams/Chains.antt =====
-- The stream of a compiled linear graph: `buildLinearPipeline` and `runLinearStream` of
-- v2/flow/graph/runnable.go, with the built-in concatenator of strings.
use llm_agent_flow.Base.{
  arith, nat_eq, String, Bool, ◌≡◌, refl, Option, none, some, List, [], ◌>>=◌, All, ok, >>=-eq-ok,
  subst, Bool-cases, inl, inr,
}
use llm_agent_flow.V2.Errors.{Run}
use llm_agent_flow.V2.Value.{Value}
use llm_agent_flow.Graph.Types.{GoType, Reflect}
use llm_agent_flow.Graph.Builder.{Graph}
use llm_agent_flow.Graph.Chain.{
  PipelineNode, linear_order, chain_nodes, check_folders, build_linear_pipeline,
}
use llm_agent_flow.Graph.Streams.{
  Source, Streams, close_stream, Concatenators, join_strings, is_found, lookup_concat,
}
use llm_agent_flow.Graph.Streams.Linear.{run_linear_stream}
use llm_agent_flow.Graph.Streams.Lookups.{AllClosed, Closes}
use llm_agent_flow.Graph.Streams.Releases.{Released, run_linear_stream-Released}

-- The concatenator of strings keeps the contract.
pub join_strings-Closes : Closes join_strings
unfolding join_strings close_stream
join_strings-Closes = record {
  opened = λ i s. refl;
  own = λ i s. elim (Bool-cases (nat_eq i i)) [ inl e ↦ rw e refl | inr e ↦ absurd (ground arith) ];
  others = λ i j s h. elim (Bool-cases (nat_eq i j)) [ inl e ↦ rw e refl | inr e ↦ rw e h ];
}

-- A pipeline that is built has passed the check of its concatenators.
build_linear_pipeline-checked :
    (has_folder : Option GoType → Bool) (g : Graph) (entry exit : String)
    (nodes : List PipelineNode)
    → build_linear_pipeline has_folder g entry exit ≡ ok (some nodes)
    → check_folders has_folder g.out_t nodes ≡ ok tt
unfolding build_linear_pipeline
build_linear_pipeline-checked has_folder g entry exit nodes = passed (linear_order g entry exit)
  where
    passed :
        (o : Option (List String))
        → elim o [
          | none ↦ ok none
          | some order ↦
              chain_nodes g.nodes order []
              >>= (λ built. check_folders has_folder g.out_t built >>= (λ _. ok (some built)))
        ]
          ≡ ok (some nodes)
        → check_folders has_folder g.out_t nodes ≡ ok tt
    passed none h = cc
    passed (some order) h =
        let (built, made, after) = >>=-eq-ok (chain_nodes g.nodes order []) _ h in
        let (u, good, returned) = >>=-eq-ok (check_folders has_folder g.out_t built) _ after in
        let same : built ≡ nodes = cc in
        subst (λ ns. check_folders has_folder g.out_t ns ≡ ok tt) same good

module _ (reflect : Reflect) (type_of : Value → Option GoType) (registry : Concatenators)
    (model_stream : String → Value → Run Source) (all : All (λ p. Closes p.1) registry) where
  -- The concatenators are the registered ones when the pipeline is built and when it runs, and each closes its
  -- stream. The pipeline of a graph runs on from streams that are closed. If the run fails, every stream that
  -- it opened is closed; if it gives a reader, every stream is closed after the reader's first call, Next or
  -- Close, and after all further ones.
  pub linear_stream-Released :
      (g : Graph) (entry exit : String) (nodes : List PipelineNode) (input : Value) (s : Streams)
      → build_linear_pipeline (λ t. is_found (lookup_concat reflect registry t)) g entry exit
        ≡ ok (some nodes)
      → AllClosed s
      → Released reflect type_of g.out_t
          (run_linear_stream reflect type_of registry model_stream g.out_t nodes input s)
  linear_stream-Released g entry exit nodes input s built closed =
      run_linear_stream-Released reflect type_of g.out_t registry model_stream all nodes input s
        (build_linear_pipeline-checked (λ t. is_found (lookup_concat reflect registry t)) g entry
          exit nodes built)
        closed
