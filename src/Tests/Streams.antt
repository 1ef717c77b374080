-- ===== src/Tests/Streams.antt =====
-- A graph of one chat model, and the streams of its runs.
use llm_agent_flow.Base.{
  String, ◌≡◌, refl, Option, none, some, List, [], ◌∷◌, Result, ok, err, true, false, ◌++◌,
}
use llm_agent_flow.V2.Errors.{Run}
use llm_agent_flow.V2.Value.{Value, nil, str, opaque}
use llm_agent_flow.Graph.Types.{GoType, assignable}
use llm_agent_flow.Graph.Adapters.{Closure, returns, lambda_adapter}
use llm_agent_flow.Graph.Builder.{
  NodeRef, Graph, new_graph, add_node, mark_in_process, set_entry, set_exit, add_closure_node,
}
use llm_agent_flow.Graph.Builder.Components.{
  chat_model_adapter, request_type, response_type, add_chat_model_node,
}
use llm_agent_flow.Graph.Chain.{
  PipelineNode, pipeline_node, wire, one_each_way, walk, linear_order, chain_nodes, find_node,
  check_folders, build_linear_pipeline,
}
use llm_agent_flow.V2.Validate.{has}
use llm_agent_flow.Graph.Streams.{
  Source, Streams, Concatenators, Concatenator, join_strings, lookup_concat,
}
use llm_agent_flow.Graph.Streams.Linear.{Reader, StreamError, run_linear_stream, reader_next}
use llm_agent_flow.Graph.Streams.Lookups.{Closes}
use llm_agent_flow.Graph.Streams.Releases.{Released}
use llm_agent_flow.Graph.Streams.Chains.{join_strings-Closes, linear_stream-Released}
use llm_agent_flow.Tests.Builder.{go_types}

abbrev type_of : Value → Option GoType
type_of nil = none
type_of (opaque t s) = some t
type_of (str s) = some "string"
type_of _ = some "other"

abbrev as_response : Value → Value
as_response (str s) = opaque response_type s
as_response v = v

abbrev respond : Run Value → Run Value
respond (ok v) = ok (as_response v)
respond (err e) = err e

-- The texts of the frames, joined to a response.
abbrev accumulate : Concatenator
accumulate i s = let (result, after) = join_strings i s in (respond result, after)

accumulate-Closes : Closes accumulate
unfolding join_strings
accumulate-Closes = record {
  opened = join_strings-Closes.opened;
  own = join_strings-Closes.own;
  others = join_strings-Closes.others;
}

abbrev concatenators : Concatenators
concatenators = (response_type, accumulate) ∷ ("string", join_strings) ∷ []

abbrev hello : String → Value → Run Source
hello id v = ok (record { frames = str "hel" ∷ str "lo" ∷ []; failure = none })

abbrev generate : Closure Value Value
generate state v = (returns (opaque response_type "hello"), none)

abbrev chat : NodeRef
chat = record { id = "chat"; in_t = some request_type; out_t = some response_type; in_ports = none }

abbrev with_chat : Graph
with_chat =
    (add_chat_model_node go_types type_of (new_graph request_type response_type) "chat" generate).1

abbrev from_chat : Graph
from_chat = (set_entry go_types with_chat chat).1

abbrev chat_graph : Graph
chat_graph = (set_exit go_types from_chat chat).1

abbrev nodes : List PipelineNode
nodes =
    pipeline_node (record {
      ref = chat;
      kind = chat_model_adapter go_types type_of "chat" generate;
      streams = true;
    })
    ∷ []

abbrev no_streams : Streams
no_streams = record {
  opened = 0;
  sources = λ _. record { frames = []; failure = none };
  closed = λ _. true;
}

abbrev ask : Value
ask = opaque request_type "hi"

abbrev streamed : Concatenators → Result StreamError Reader × Streams
streamed registry =
    run_linear_stream go_types type_of registry hello response_type nodes ask no_streams

-- The first `Next` folds the frames.
abbrev first_answer : Result StreamError Reader × Streams → Result (Option StreamError) Value
first_answer (err e, s) = err (some e)
first_answer (ok r, s) = (reader_next go_types type_of response_type r s).0

answers_hello : first_answer (streamed concatenators) ≡ ok (opaque response_type "hello")
unfolding run_linear_stream reader_next join_strings
answers_hello = refl

-- A node behind the model, whose input type has lost its concatenator since the pipeline was built: the
-- run fails, and the stream of the model stays open.
abbrev behind : PipelineNode
behind = record {
  id = "print";
  kind = lambda_adapter go_types type_of none "print" response_type generate;
  streams = false;
  in_t = some response_type;
  out_t = some response_type;
}

abbrev broken : Result StreamError Reader × Streams
broken =
    run_linear_stream go_types type_of [] hello response_type (nodes ++ behind ∷ []) ask no_streams

leaks : broken.1.closed 0 ≡ false
unfolding run_linear_stream
leaks = refl

linear_stream-Released_example :
    Released go_types type_of chat_graph.out_t
      (run_linear_stream go_types type_of concatenators hello chat_graph.out_t nodes ask no_streams)
unfolding new_graph add_chat_model_node add_closure_node add_node set_entry set_exit assignable
    mark_in_process wire build_linear_pipeline linear_order one_each_way walk has chain_nodes
    find_node check_folders chat_model_adapter lookup_concat
linear_stream-Released_example =
    linear_stream-Released go_types type_of concatenators hello
      (accumulate-Closes, (join_strings-Closes, tt)) chat_graph "chat" "chat" nodes ask no_streams
      refl (λ i low. refl)
