-- ===== src/Agent/Runner/RunLoop/Context.antt =====
-- What an agent sees of its run: the kernel writes a run into the JSON of an instruction
-- (src/kernel/dispatch.rs), and the loop reads the context of the agent out of it
-- (src/kernel/runner.rs, `build_agent_context`).
use jeeves_core.Prelude.{
  String, ◌≡◌, sym, ap, ◌∙◌, Option, none, some, unwrap_or, and_then, List, [],
}
use jeeves_core.Prelude.Dict
use jeeves_core.Prelude.Dict.{Dict}
use jeeves_core.Json.{Value, object, get_field, from_dict}
use jeeves_core.Types.{RunId, Timestamp, ok}
use jeeves_core.Run.{Run, clear_interrupt}
use jeeves_core.Kernel.Routing.{RoutingDecision}
use jeeves_core.Kernel.Protocol.{AgentDispatchContext, run_agent_with}
use jeeves_core.Kernel.Orchestrator
use jeeves_core.Kernel.Orchestrator.Instructions.{run_agent-asked}
use jeeves_core.Kernel.Orchestrator.Queries.{take_last_routing_decision}
use jeeves_core.Kernel.AgentContext.{agent_context, outputs_fields}
use jeeves_core.Kernel.Dispatch.{
  Kernel, response_key, enrich_agent, attach_decision, deliver, enrich, get_next_instruction,
}
use jeeves_core.Kernel.Dispatch.Delivery.{next_known, next-run_agent}
use jeeves_core.Agent.Runner.RunLoop.{Decoders, LoopArgs, get_key, as_str, build_agent_context}
use jeeves_core.Agent.Runner.RunLoop.Drivable.{asked-run_agent}

-- `from_value` undoes `to_value` on the two kinds of map.
pub record IsInverse (d : Decoders) : Type 0 where
  pub outputs_back : (o : Dict (Dict Value)) → d.outputs (object (outputs_fields o)) ≡ some o
  pub entries_back : (m : Dict Value) → d.entries (object (from_dict m)) ≡ some m

attached_context :
    (d : Option RoutingDecision) (a agent : String) (y x : AgentDispatchContext)
    → attach_decision d (run_agent_with a y) ≡ run_agent_with agent x
    → x.agent_context ≡ y.agent_context
attached_context none a agent y x h = cc
attached_context (some d) a agent y x h = cc

-- The JSON of an instruction is that of the run as the orchestrator returns it.
deliver-agent_context :
    (now : Timestamp) (id : RunId) (run : Run) (k : Kernel) (a agent : String)
    (y x : AgentDispatchContext)
    → (deliver now id run k (ok (run_agent_with a y))).0 ≡ ok (run_agent_with agent x)
    → (broken : List String) × (x.agent_context ≡ some (agent_context broken run))
unfolding deliver enrich enrich_agent
deliver-agent_context now id run k a agent y x h =
    let d = (take_last_routing_decision id k.orchestrator).0 in
    let e : attach_decision d (run_agent_with a (enrich_agent now id run k y))
        ≡ run_agent_with agent x =
      cc in
    (_, attached_context d a agent (enrich_agent now id run k y) x e)

next-agent_context :
    (now : Timestamp) (id : RunId) (k : Kernel) {run : Run} {agent : String}
    {x : AgentDispatchContext}
    → Dict.get k.runs id ≡ some run
    → (get_next_instruction now id k).0 ≡ ok (run_agent_with agent x)
    → (broken : List String) × (x.agent_context ≡ some (agent_context broken (clear_interrupt run)))
next-agent_context now id k {run} {agent} {x} held h =
    let asked = Orchestrator.get_next_instruction now id run k.orchestrator in
    let k' = record k { orchestrator = asked.2 } in
    let told = ap (λ y. y.0) (sym (next_known now id k held)) ∙ h in
    let (a, y, q) = asked-run_agent now id asked.1 k' asked.0 told in
    let (s, known, t, free, bounds, named, same) = run_agent-asked now id run k.orchestrator q in
    let (broken, e) =
      deliver-agent_context now id asked.1 k' a agent y x
        (ap (λ r. (deliver now id asked.1 k' r).0) (sym q) ∙ told) in
    (broken, e ∙ ap (λ r. some (agent_context broken r)) same)

-- The agent that a `RunAgent` answer names sees the run as the kernel holds it: its input, its
-- outputs, its state and its metadata, and the answer to an interrupt that the metadata hold, where
-- `from_value` undoes `to_value`.
pub build_agent_context-run :
    (c : LoopArgs) (now : Timestamp) (k : Kernel) {run : Run} {agent : String}
    {x : AgentDispatchContext}
    → IsInverse c.decoders
    → Dict.get k.runs c.run_id ≡ some run
    → (get_next_instruction now c.run_id k).0 ≡ ok (run_agent_with agent x)
    → let seen = build_agent_context c x (some agent) in
      (seen.raw_input ≡ run.raw_input)
      × (seen.outputs ≡ run.outputs)
      × (seen.state ≡ run.state)
      × (seen.metadata ≡ run.audit.metadata)
      × (seen.interrupt_response ≡ Dict.get run.audit.metadata response_key)
unfolding build_agent_context agent_context get_field
build_agent_context-run c now k {run} {agent} {x} inverse held h =
    let (broken, e) = next-agent_context now c.run_id k held h in
    (
      ap (λ a. unwrap_or "" (and_then (and_then a (get_key "raw_input")) as_str)) e,
      ap (λ a. unwrap_or [] (and_then (and_then a (get_key "outputs")) c.decoders.outputs)) e
          ∙ ap (unwrap_or []) (inverse.outputs_back run.outputs),
      ap (λ a. unwrap_or [] (and_then (and_then a (get_key "state")) c.decoders.entries)) e
          ∙ ap (unwrap_or []) (inverse.entries_back run.state),
      ap (λ a. unwrap_or [] (and_then (and_then a (get_key "metadata")) c.decoders.entries)) e
          ∙ ap (unwrap_or []) (inverse.entries_back run.audit.metadata),
      (next-run_agent now c.run_id k held h).0,
    )
