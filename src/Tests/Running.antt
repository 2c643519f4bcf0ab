-- ===== src/Tests/Running.antt =====
-- The drafting workflow, run to its end.
use jeeves_core.Prelude.{
  ℕ, zero, suc, ◌≡◌, refl, ap, true, false, Option, none, some, List, [], ◌∷◌, arith, unwrap_or,
  map_option,
}
use jeeves_core.Prelude.Int.{pos}
use jeeves_core.Prelude.Dict
use jeeves_core.Prelude.Dict.{Dict}
use jeeves_core.Json.{Value, Fields, object, end, field, from_dict}
use jeeves_core.Types.{Result, ok}
use jeeves_core.Run.{Run, FlowInterrupt}
use jeeves_core.Kernel.Protocol.{AgentDispatchContext}
use jeeves_core.Kernel.Dispatch.{Kernel}
use jeeves_core.Agent.{AgentOutput, no_metrics, AgentContext, new_registry, deterministic}
use jeeves_core.Agent.Runner.{
  output_of, execute_agent, execute_agent_with_timeout, attempts, max_attempts, execute_with_retry,
  execute_agent_with_policy, after_hooks,
}
use jeeves_core.Agent.Runner.RunLoop
use jeeves_core.Agent.Runner.RunLoop.{
  WorkerResult, returns, get_key, step_of, after_agent, terminated_result, routing_event, follow,
  round, run_loop, LoopArgs, Decoders, Turn, Round, executed, build_agent_context,
}
use jeeves_core.Agent.Runner.RunLoop.Returns.{HasEnded, IsUndisturbed, IsCalm}
use jeeves_core.Agent.Runner.RunLoop.Whole.{run-HasEnded}
use jeeves_core.Agent.Runner.RunLoop.Context.{IsInverse, build_agent_context-run}
use jeeves_core.Agent.Runner.RunLoop.Ends.{Ended, run_loop-Ended}
use jeeves_core.Workflow
use jeeves_core.Run
use jeeves_core.Run.{TerminalReason, check_bounds}
use jeeves_core.Json.{get_field}
use jeeves_core.Types.{plain}
use jeeves_core.Prelude.{find}
use jeeves_core.Prelude.Int.{add_i32, add_i64, ◌+ℤ◌}
use jeeves_core.Kernel.Protocol.{Instruction, default_context, run_agent_with}
use jeeves_core.Kernel.Orchestrator
use jeeves_core.Kernel.Orchestrator.{
  instruct, get_agent_for_stage, find_stage, report_agent_result, book, route_from,
  apply_routing_result, advance, visits_exhausted, visits, count_visit, decide, routing_context,
}
use jeeves_core.Kernel.Orchestrator.Session.{bind_workflow, initialize_session}
use jeeves_core.Kernel.Orchestrator.Queries.{
  take_last_routing_decision, get_stage_config, get_state_schema, get_stage_output_key,
}
use jeeves_core.Kernel.Routing.{evaluate_routing_with_reason}
use jeeves_core.Kernel.MergeState.{merge_state_field}
use jeeves_core.Kernel.AgentContext.{outputs_fields}
use jeeves_core.Kernel.AgentOutput.{
  take_output, agent_output, note_failure, merge_output, update_metadata,
}
use jeeves_core.Kernel.Dispatch.{
  response_key, get_next_instruction, deliver, enrich, enrich_agent, process_agent_result,
  process_known, finish_report, charge_user,
}
use jeeves_core.Kernel.Dispatch.Runs.{initialize_orchestration}
use jeeves_core.Kernel.Actor.{dispatch_next}
use jeeves_core.Tests.{workflow, fresh_run, response_value, run_value, fresh, workflow-Fits}
use jeeves_core.Tests.Agents.{texts}
use jeeves_core.Tests.Commands.{empty_kernel}

-- The maps that objects stand for.
abbrev entries_of : Fields → Dict Value
entries_of end = []
entries_of (field k v fs) = (k, v) ∷ entries_of fs

abbrev entries : Value → Option (Dict Value)
entries (object fs) = some (entries_of fs)
entries _ = none

abbrev outputs_in : Fields → Dict (Dict Value)
outputs_in end = []
outputs_in (field k v fs) = (k, unwrap_or [] (entries v)) ∷ outputs_in fs

abbrev outputs : Value → Option (Dict (Dict Value))
outputs (object fs) = some (outputs_in fs)
outputs _ = none

abbrev decoders : Decoders
decoders = record { outputs = outputs; entries = entries; aggregate = λ v. none }

abbrev loop_args : LoopArgs
loop_args = record {
  run_id = "r1";
  streaming = false;
  workflow_name = "drafting";
  texts = texts;
  decoders = decoders;
  response_value = response_value;
}

abbrev turn : ℕ → Turn
turn n = record { between = λ k. k; now = pos n }

-- No agent is registered, so that the runner falls back to the deterministic one.
abbrev calm_round : ℕ → Round
calm_round n = record {
  asked = turn n;
  replied = turn n;
  polls = [];
  agents = λ i. new_registry;
  in_time = λ i. true;
  sent = [];
}

-- The deterministic agent asks for nothing, whatever the timeout and the retries are.
asks_nothing :
    (ctx : AgentContext) (timeout : Option ℕ) (left : ℕ) {o : AgentOutput} {i : FlowInterrupt}
    → map_option (after_hooks [] ctx) (
        attempts
          (λ n. execute_agent_with_timeout texts timeout n deterministic (some deterministic))
          left
          0
          no_metrics)
      ≡ some o
    → o.interrupt_request ≡ some i
    → i.expires_at ≡ none
unfolding attempts execute_agent_with_timeout after_hooks
asks_nothing ctx none zero h a = cc
asks_nothing ctx none (suc left) h a = ground (arith, h, a)
asks_nothing ctx (some s) zero h a = cc
asks_nothing ctx (some s) (suc left) h a = ground (arith, h, a)

turn-IsUndisturbed : (n : ℕ) → IsUndisturbed "r1" (turn n)
turn-IsUndisturbed n = record { same_run = λ k. refl; same_session = λ k. refl }

calm_round-IsCalm : (n : ℕ) → IsCalm loop_args (calm_round n)
unfolding executed execute_agent output_of execute_agent_with_policy execute_with_retry Dict.get
calm_round-IsCalm n = record {
  asked = turn-IsUndisturbed n;
  replied = turn-IsUndisturbed n;
  lasting = λ agent context o i e a.
      asks_nothing (build_agent_context loop_args context (some agent)) context.timeout_seconds
        (max_attempts context.retry_policy) e a;
}

run-HasEnded_example :
    HasEnded
      (RunLoop.run loop_args run_value
        (turn 0)
        workflow
        fresh_run
        (calm_round 1 ∷ calm_round 2 ∷ calm_round 3 ∷ calm_round 4 ∷ [])
        empty_kernel).0
run-HasEnded_example =
    run-HasEnded loop_args run_value (turn 0) workflow fresh_run
      (calm_round 1 ∷ calm_round 2 ∷ calm_round 3 ∷ calm_round 4 ∷ []) empty_kernel 3 fresh
      workflow-Fits (omega arith) (omega arith)
      (calm_round-IsCalm 1, (calm_round-IsCalm 2, (calm_round-IsCalm 3, (calm_round-IsCalm 4, tt))))

abbrev started : Kernel
started = (initialize_orchestration run_value (pos 0) "r1" workflow fresh_run false empty_kernel).1

abbrev bound_run : Run
bound_run = bind_workflow workflow fresh_run

abbrev asked : Result Instruction × Kernel
asked = get_next_instruction (pos 1) "r1" started

abbrev context_of : Result Instruction → AgentDispatchContext
context_of (ok (run_agent_with agent context)) = context
context_of _ = default_context

started_run : Dict.get started.runs "r1" ≡ some bound_run
unfolding initialize_orchestration initialize_session Workflow.validate Dict.get Dict.insert
started_run = refl

runs_writer : asked.0 ≡ ok (run_agent_with "writer" (context_of asked.0))
unfolding get_next_instruction deliver enrich take_last_routing_decision
    Orchestrator.get_next_instruction instruct check_bounds get_agent_for_stage find_stage find
    initialize_orchestration initialize_session Workflow.validate Dict.get Dict.insert bind_workflow
    Run.new
runs_writer = refl

entries_of-from_dict : (d : Dict Value) → entries_of (from_dict d) ≡ d
unfolding from_dict
entries_of-from_dict [] = refl
entries_of-from_dict ((k, v) ∷ d) = ap (λ r. (k, v) ∷ r) (entries_of-from_dict d)

outputs_in-outputs_fields : (d : Dict (Dict Value)) → outputs_in (outputs_fields d) ≡ d
unfolding outputs_fields
outputs_in-outputs_fields [] = refl
outputs_in-outputs_fields ((k, m) ∷ d) = cc (entries_of-from_dict m, outputs_in-outputs_fields d)

decoders-IsInverse : IsInverse decoders
decoders-IsInverse = record {
  outputs_back = λ o. ap some (outputs_in-outputs_fields o);
  entries_back = λ m. ap some (entries_of-from_dict m);
}

build_agent_context-run_example :
    let seen = build_agent_context loop_args (context_of asked.0) (some "writer") in
    (seen.raw_input ≡ bound_run.raw_input)
    × (seen.outputs ≡ bound_run.outputs)
    × (seen.state ≡ bound_run.state)
    × (seen.metadata ≡ bound_run.audit.metadata)
    × (seen.interrupt_response ≡ Dict.get bound_run.audit.metadata response_key)
build_agent_context-run_example =
    build_agent_context-run loop_args (pos 1) started decoders-IsInverse started_run runs_writer

-- The writer's round, the critic's and the end.
abbrev both_rounds : List Round
both_rounds = calm_round 1 ∷ calm_round 2 ∷ calm_round 3 ∷ []

abbrev finished : WorkerResult
finished = record {
  run_id = "r1";
  termination = some (record {
    reason = TerminalReason.completed;
    message = some (plain "Session already terminated");
  });
  outputs = ("writer", []) ∷ ("critic", []) ∷ [];
  aggregate_metrics = none;
}

loop_finished : (run_loop loop_args both_rounds started).0 ≡ returns (ok finished)
unfolding run_loop round follow after_agent step_of dispatch_next get_next_instruction deliver
    enrich take_last_routing_decision executed execute_agent output_of execute_agent_with_policy
    execute_with_retry attempts execute_agent_with_timeout after_hooks process_agent_result
    process_known take_output agent_output note_failure merge_output update_metadata finish_report
    charge_user report_agent_result book route_from apply_routing_result advance visits_exhausted
    visits count_visit decide routing_context evaluate_routing_with_reason add_i32 add_i64 ◌+ℤ◌
    check_bounds find_stage find get_state_schema get_stage_output_key get_stage_config
    merge_state_field Orchestrator.get_next_instruction instruct get_agent_for_stage
    initialize_orchestration initialize_session Workflow.validate Dict.get Dict.insert bind_workflow
    Run.new terminated_result routing_event get_key get_field enrich_agent outputs_fields from_dict
    Run.add_processing_record
loop_finished = refl

run_loop-Ended_example :
    Ended loop_args finished
      (run_loop loop_args both_rounds started).1
      (run_loop loop_args both_rounds started).2
run_loop-Ended_example = run_loop-Ended loop_args both_rounds started loop_finished
