-- ===== src/V1/Run/Compiled.antt =====
-- A flow of the first version, compiled and run by both versions: `Compile` and `Run` of flow/engine.go and
-- of v2/flow/engine.go.
use llm_agent_flow.Base.{
  ℕ, arith, String, false, ◌≡◌, subst, ap, ◌∙◌, Option, none, some, ok, flatten,
}
use llm_agent_flow.V2.Ir.{Flow as FlowV2}
use llm_agent_flow.V2.Errors.{Run}
use llm_agent_flow.V2.Layers.Order.{IsNodup}
use llm_agent_flow.V2.Engine.{Nodes, ConditionEvaluator, compile}
use llm_agent_flow.V2.Engine.Sound.{compile-IsCompiled}
use llm_agent_flow.V2.Run.Core.{Services}
use llm_agent_flow.V2.Run.Start.{run_fresh}
use llm_agent_flow.V1.Ir.{Flow}
use llm_agent_flow.V1.Compile.{Factories, FlowEngine, StringNodes, build_string_nodes, compile_flow}
use llm_agent_flow.V1.Compile.Upgrade.{
  upgrade, upgrade_nodes, upgrade_registry, upgrade_engine, map_ok, compile-upgrade,
}
use llm_agent_flow.V1.Run.{Texts, FlowCall, run_flow}
use llm_agent_flow.V1.Run.Planned.{as_values, SameFanout}
use llm_agent_flow.V1.Run.Loops.{SameEnd}
use llm_agent_flow.V1.Run.Start.{run_flow-SameEnd}

module _ (flow_hash : FlowV2 → Run String) (struct_hash : FlowV2 → Nodes → Run String)
    (fh sh : String) (f : Flow) (reg : Factories) (max : ℕ) (eval : Option ConditionEvaluator)
    (e : FlowEngine) (hashed : flow_hash (upgrade f) ≡ ok fh)
    (struct_hashed : (nodes : StringNodes)
      → build_string_nodes reg f.nodes (λ _. none) ≡ ok nodes
      → struct_hash (upgrade f) (upgrade_nodes nodes) ≡ ok sh)
    (compiled : compile_flow f (some reg) max eval ≡ ok e) where
  compile-upgrade_engine :
      compile flow_hash struct_hash
        (upgrade f)
        (some (upgrade_registry reg))
        (record { max_node_concurrency = max; cond_eval = eval; has_store = false })
      ≡ ok (upgrade_engine fh sh e)
  compile-upgrade_engine =
      compile-upgrade flow_hash struct_hash fh sh f (some reg) max eval hashed (λ r nodes same.
        let k : reg ≡ r = cc in
        subst
          (λ r.
            build_string_nodes r f.nodes (λ _. none) ≡ ok nodes
            → struct_hash (upgrade f) (upgrade_nodes nodes) ≡ ok sh)
          k (struct_hashed nodes))
      ∙ ap (map_ok (upgrade_engine fh sh)) compiled

  -- Each node stands once in the layers of the compiled engine.
  layers-IsNodup : IsNodup (flatten e.layers)
  layers-IsNodup v =
      let sound =
        compile-IsCompiled flow_hash struct_hash (upgrade f) (upgrade_registry reg)
          (record { max_node_concurrency = max; cond_eval = eval; has_store = false })
          (upgrade_engine fh sh e) compile-upgrade_engine in
      ground (arith, sound.complete v, sound.well_formed.once v)

  module _ {S : Type 0} (sv : Services S) (call : FlowCall)
      (fanouts : SameFanout call.fanout sv.fanout)
      (starts : (i : ℕ) → sv.ctx.before i ≡ call.before i)
      (ends : (i : ℕ) → sv.ctx.after i ≡ call.after i) where
    -- A flow that compiles in the first version, its registry taken over, compiles in the second, if the
    -- hash of the flow, and the hash of its structure with the nodes that the factories build, can be
    -- computed. Where the two versions run alike tasks alike and the context ends alike, a run of the
    -- first engine has the result and the events of a fresh run of the second, without checkpoints: the
    -- same outputs or the same error, and the same events in the same order but for the metadata.
    pub run_compiled-SameEnd :
        (inputs : Texts) (run_id : String) (store : S)
        → (compile flow_hash struct_hash
              (upgrade f)
              (some (upgrade_registry reg))
              (record { max_node_concurrency = max; cond_eval = eval; has_store = false })
            ≡ ok (upgrade_engine fh sh e))
          × SameEnd
              (run_flow call e inputs)
              (run_fresh sv (upgrade_engine fh sh e) run_id false (as_values inputs) none store)
    run_compiled-SameEnd inputs run_id store = (
      compile-upgrade_engine,
      run_flow-SameEnd sv call e fh sh fanouts starts ends layers-IsNodup inputs run_id store,
    )
