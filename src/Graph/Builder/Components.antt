-- ===== src/Graph/Builder/Components.antt =====
-- The nodes for chat models, prompt templates and tools: v2/flow/graph/component.go. What a model, a
-- template and a tool do are parameters.
use llm_agent_flow.Base.{String, true, none, Option}
use llm_agent_flow.V2.Value.{Value}
use llm_agent_flow.V2.Nodes.{NodeKind}
use llm_agent_flow.Graph.Types.{GoType, Reflect}
use llm_agent_flow.Graph.Adapters.{Closure, lambda_adapter}
use llm_agent_flow.Graph.Builder.{
  NodeRef, Graph, Built, mark_in_process, then_mark, add_closure_node, add_lambda_node,
}

abbrev pub vars_type : GoType
vars_type = "prompt.Vars"

abbrev pub request_type : GoType
request_type = "llm.Request"

abbrev pub response_type : GoType
response_type = "llm.Response"

abbrev pub event_type : GoType
event_type = "llm.StreamEvent"

abbrev pub raw_message_type : GoType
raw_message_type = "json.RawMessage"

abbrev pub string_type : GoType
string_type = "string"

abbrev pub chat_model_reason : String
chat_model_reason =
    "chatmodel node holds an injected llm.ChatModel (use the JSON front-end with Deps-resolved nodes for a checkpointable flow)"

abbrev pub template_reason : String
template_reason =
    "template node holds an injected prompt.Requester (use the JSON front-end with Deps-resolved nodes for a checkpointable flow)"

abbrev pub tool_reason : String
tool_reason =
    "tool node holds an injected agents.Tool (use the JSON front-end with Deps-resolved nodes for a checkpointable flow)"

module _ (reflect : Reflect) (type_of : Value → Option GoType) where
  -- The value path of `chatModelAdapter`; `generate` is the model's `Generate`.
  unfoldable pub chat_model_adapter : String → Closure Value Value → NodeKind
  unfolding lambda_adapter
  chat_model_adapter id generate = lambda_adapter reflect type_of none id request_type generate

  unfoldable pub add_chat_model_node : Graph → String → Closure Value Value → Built NodeRef
  unfolding chat_model_adapter add_closure_node
  add_chat_model_node g id generate =
      add_closure_node true chat_model_reason (chat_model_adapter id generate) g id request_type
        response_type

  unfoldable pub add_template_node : Graph → String → Closure Value Value → Built NodeRef
  unfolding add_lambda_node mark_in_process
  add_template_node g id format =
      then_mark (add_lambda_node reflect type_of g id vars_type request_type format)
        (λ ref h. (ref, mark_in_process id template_reason h))

  unfoldable pub add_tool_node : Graph → String → Closure Value Value → Built NodeRef
  unfolding add_lambda_node mark_in_process
  add_tool_node g id execute =
      then_mark (add_lambda_node reflect type_of g id raw_message_type string_type execute)
        (λ ref h. (ref, mark_in_process id tool_reason h))
