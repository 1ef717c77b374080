-- ===== src/Graph/Builder/Reaches.antt =====
-- The graphs that calls of the builder reach, each call with references that the graph gave out.
use llm_agent_flow.Base.{String, true, false, Option, none, some, List, sort}
use llm_agent_flow.V2.Value.{Value}
use llm_agent_flow.Graph.Types.{GoType, Reflect}
use llm_agent_flow.Graph.Adapters.{
  Entries, Closure, lambda_adapter, branch_adapter, fan_out_adapter, stream_merge_adapter,
  zip_adapter,
}
use llm_agent_flow.Graph.Builder.{
  NodeRef, Graph, new_graph, add_lambda_node, add_interruptible_lambda_node,
  add_stateful_lambda_node, add_passthrough_node, add_edge, add_edge_to, set_entry, set_exit,
  nil_func, lambda_reason, interruptible_reason, stateful_reason,
}
use llm_agent_flow.Graph.Builder.Components.{
  chat_model_adapter, vars_type, request_type, response_type, raw_message_type, string_type,
  chat_model_reason, template_reason, tool_reason, add_chat_model_node, add_template_node,
  add_tool_node,
}
use llm_agent_flow.Graph.Builder.FanOut.{
  branch_reason, copy_reason, parallel_reason, keys_of, add_combine, add_branch, add_copy,
  add_parallel, add_stream_merge, add_zip,
}
use llm_agent_flow.Graph.Builder.Typed.{IsTyped, IsHeld, AllHeld, UniqueKeys, stop-IsTyped}
use llm_agent_flow.Graph.Builder.Plain.{
  add_closure_node-IsTyped, remark-IsTyped, add_passthrough_node-IsTyped, add_edge-IsTyped,
  add_edge_to-IsTyped, set_entry-IsTyped, set_exit-IsTyped,
}
use llm_agent_flow.Graph.Builder.Fans.{add_fan_out-IsTyped, add_merge-IsTyped, add_combine-IsTyped}

module _ (reflect : Reflect) (type_of : Value → Option GoType) where
  -- Calls may fail; the graph goes on as the failed call left it.
  pub data Reaches : Graph → Type 0 where
    start : (in_t out_t : GoType) → Reaches (new_graph in_t out_t)
    lambda :
        (g : Graph) (id : String) (in_t out_t : GoType) (fn : Closure Value Value)
        → Reaches g
        → Reaches (add_lambda_node reflect type_of g id in_t out_t fn).1
    interruptible :
        (g : Graph) (id : String) (in_t out_t : GoType) (fn : Closure Value Value)
        → Reaches g
        → Reaches (add_interruptible_lambda_node reflect type_of g id in_t out_t fn).1
    stateful :
        (g : Graph) (id : String) (in_t out_t : GoType) (fn : Closure Value Value)
        → Reaches g
        → Reaches (add_stateful_lambda_node reflect type_of g id in_t out_t fn).1
    chat_model :
        (g : Graph) (id : String) (generate : Closure Value Value)
        → Reaches g
        → Reaches (add_chat_model_node reflect type_of g id generate).1
    template :
        (g : Graph) (id : String) (format : Closure Value Value)
        → Reaches g
        → Reaches (add_template_node reflect type_of g id format).1
    tool :
        (g : Graph) (id : String) (execute : Closure Value Value)
        → Reaches g
        → Reaches (add_tool_node reflect type_of g id execute).1
    passthrough :
        (g : Graph) (id : String) (t : GoType) → Reaches g → Reaches (add_passthrough_node g id t).1
    branch :
        (g : Graph) (id : String) (t : GoType) (routes : Entries NodeRef)
        (key : Option (Closure Value String))
        → Reaches g
        → AllHeld g routes
        → Reaches (add_branch reflect type_of g id t routes key).1
    copy :
        (g : Graph) (id : String) (t : GoType) (targets : Entries NodeRef)
        → Reaches g
        → AllHeld g targets
        → Reaches (add_copy reflect type_of g id t targets).1
    parallel :
        (g : Graph) (id : String) (t : GoType) (targets : Entries NodeRef)
        → Reaches g
        → AllHeld g targets
        → Reaches (add_parallel reflect type_of g id t targets).1
    combine :
        (g : Graph) (id : String) (out_t : GoType) (sources : Entries NodeRef)
        (fn : Option (Closure (Entries Value) Value))
        → Reaches g
        → AllHeld g sources
        → UniqueKeys sources
        → Reaches (add_combine g id out_t sources fn).1
    stream_merge :
        (g : Graph) (id : String) (elem_t out_t : GoType) (sources : Entries NodeRef)
        (fn : Option (Closure (List Value) Value))
        → Reaches g
        → AllHeld g sources
        → Reaches (add_stream_merge reflect type_of g id elem_t out_t sources fn).1
    zip :
        (g : Graph) (id : String) (elem_t out_t : GoType) (sources : Entries NodeRef)
        (fn : Option (Closure (List (List Value)) Value))
        → Reaches g
        → AllHeld g sources
        → Reaches (add_zip reflect type_of g id elem_t out_t sources fn).1
    edge :
        (g : Graph) (from to : NodeRef)
        → Reaches g
        → IsHeld g from
        → IsHeld g to
        → Reaches (add_edge reflect g from to).1
    edge_to :
        (g : Graph) (from to : NodeRef) (to_port : String)
        → Reaches g
        → IsHeld g from
        → IsHeld g to
        → Reaches (add_edge_to reflect g from to to_port).1
    entry :
        (g : Graph) (to : NodeRef) → Reaches g → IsHeld g to → Reaches (set_entry reflect g to).1
    exit :
        (g : Graph) (from : NodeRef)
        → Reaches g
        → IsHeld g from
        → Reaches (set_exit reflect g from).1

  new_graph-IsTyped : (in_t out_t : GoType) → IsTyped reflect (new_graph in_t out_t)
  unfolding new_graph
  new_graph-IsTyped in_t out_t = record {
    refs = λ id ref h. cc;
    edges_fit = tt;
    entry_fits = λ ref h. cc;
    exit_fits = λ ref h. cc;
    builtin = λ id l h. cc;
  }

  -- Every graph that the calls reach is typed.
  pub Reaches-IsTyped : (g : Graph) → Reaches g → IsTyped reflect g
  unfolding add_chat_model_node add_template_node add_tool_node chat_model_adapter add_lambda_node
      add_interruptible_lambda_node add_stateful_lambda_node add_branch add_copy add_parallel
      add_stream_merge add_zip sort lambda_adapter branch_adapter fan_out_adapter
      stream_merge_adapter zip_adapter
  Reaches-IsTyped g (start in_t out_t) = new_graph-IsTyped in_t out_t
  Reaches-IsTyped g (lambda h id in_t out_t fn r) =
      add_closure_node-IsTyped reflect false lambda_reason
        (lambda_adapter reflect type_of none id in_t fn) h id in_t out_t (Reaches-IsTyped h r)
  Reaches-IsTyped g (interruptible h id in_t out_t fn r) =
      add_closure_node-IsTyped reflect false interruptible_reason
        (lambda_adapter reflect type_of (some true) id in_t fn) h id in_t out_t
        (Reaches-IsTyped h r)
  Reaches-IsTyped g (stateful h id in_t out_t fn r) =
      add_closure_node-IsTyped reflect false stateful_reason
        (lambda_adapter reflect type_of none id in_t fn) h id in_t out_t (Reaches-IsTyped h r)
  Reaches-IsTyped g (chat_model h id generate r) =
      add_closure_node-IsTyped reflect true chat_model_reason
        (chat_model_adapter reflect type_of id generate) h id request_type response_type
        (Reaches-IsTyped h r)
  Reaches-IsTyped g (template h id format r) =
      remark-IsTyped reflect id template_reason
        (add_lambda_node reflect type_of h id vars_type request_type format)
        (add_closure_node-IsTyped reflect false lambda_reason
          (lambda_adapter reflect type_of none id vars_type format) h id vars_type request_type
          (Reaches-IsTyped h r))
  Reaches-IsTyped g (tool h id execute r) =
      remark-IsTyped reflect id tool_reason
        (add_lambda_node reflect type_of h id raw_message_type string_type execute)
        (add_closure_node-IsTyped reflect false lambda_reason
          (lambda_adapter reflect type_of none id raw_message_type execute) h id raw_message_type
          string_type (Reaches-IsTyped h r))
  Reaches-IsTyped g (passthrough h id t r) =
      add_passthrough_node-IsTyped reflect h id t (Reaches-IsTyped h r)
  Reaches-IsTyped g (branch h id t routes none r held) =
      stop-IsTyped reflect NodeRef h (nil_func id) (Reaches-IsTyped h r)
  Reaches-IsTyped g (branch h id t routes (some key) r held) =
      add_fan_out-IsTyped reflect branch_reason h id t routes
        (branch_adapter reflect type_of id key (keys_of routes) t) (Reaches-IsTyped h r) held
  Reaches-IsTyped g (copy h id t targets r held) =
      add_fan_out-IsTyped reflect copy_reason h id t targets
        (fan_out_adapter reflect type_of id (sort (keys_of targets)) t) (Reaches-IsTyped h r) held
  Reaches-IsTyped g (parallel h id t targets r held) =
      add_fan_out-IsTyped reflect parallel_reason h id t targets
        (fan_out_adapter reflect type_of id (sort (keys_of targets)) t) (Reaches-IsTyped h r) held
  Reaches-IsTyped g (combine h id out_t sources fn r held unique) =
      add_combine-IsTyped reflect h id out_t sources fn (Reaches-IsTyped h r) held unique
  Reaches-IsTyped g (stream_merge h id elem_t out_t sources none r held) =
      stop-IsTyped reflect NodeRef h (nil_func id) (Reaches-IsTyped h r)
  Reaches-IsTyped g (stream_merge h id elem_t out_t sources (some fn) r held) =
      add_merge-IsTyped reflect h id elem_t out_t sources
        (stream_merge_adapter reflect type_of id (sort (keys_of sources)) elem_t fn)
        (Reaches-IsTyped h r) held
  Reaches-IsTyped g (zip h id elem_t out_t sources none r held) =
      stop-IsTyped reflect NodeRef h (nil_func id) (Reaches-IsTyped h r)
  Reaches-IsTyped g (zip h id elem_t out_t sources (some fn) r held) =
      add_merge-IsTyped reflect h id elem_t out_t sources
        (zip_adapter reflect type_of id (sort (keys_of sources)) elem_t fn) (Reaches-IsTyped h r)
        held
  Reaches-IsTyped g (edge h from to r hf ht) =
      add_edge-IsTyped reflect h from to (Reaches-IsTyped h r) hf ht
  Reaches-IsTyped g (edge_to h from to to_port r hf ht) =
      add_edge_to-IsTyped reflect h from to to_port (Reaches-IsTyped h r) hf ht
  Reaches-IsTyped g (entry h to r held) = set_entry-IsTyped reflect h to (Reaches-IsTyped h r) held
  Reaches-IsTyped g (exit h from r held) =
      set_exit-IsTyped reflect h from (Reaches-IsTyped h r) held
