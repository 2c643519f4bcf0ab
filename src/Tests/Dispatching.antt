-- ===== src/Tests/Dispatching.antt =====
-- A run in the kernel: it is created, interrupted, answered and terminated.
use jeeves_core.Prelude.{String, ◌≡◌, ◌↔◌, refl, none, some, true, false, find, [], ◌∷◌, ◌++◌}
use jeeves_core.Prelude.Int.{add_i32, add_i64, ◌+ℤ◌, pos}
use jeeves_core.Prelude.Dict
use jeeves_core.Prelude.Dict.{Dict}
use jeeves_core.Json.{Value, boolean, object, string, field, end}
use jeeves_core.Types.{Result, ok}
use jeeves_core.Workflow
use jeeves_core.Run
use jeeves_core.Run.{Run, ProcessingRecord, set_interrupt, check_bounds}
use jeeves_core.Kernel.Protocol.{Instruction, AgentDispatchContext, default_context, run_agent_with}
use jeeves_core.Kernel.Quota.Within.{IsWithin}
use jeeves_core.Kernel.Lifecycle
use jeeves_core.Kernel.Lifecycle.{RunRecord, new_record}
use jeeves_core.Kernel.Interrupts
use jeeves_core.Kernel.Interrupts.{PendingInterrupt, get_pending}
use jeeves_core.Kernel.Orchestrator
use jeeves_core.Kernel.Orchestrator.{
  Orchestration, expired, instruct, find_stage, get_agent_for_stage,
}
use jeeves_core.Kernel.Orchestrator.Session.{new_session, bind_workflow, initialize_session}
use jeeves_core.Kernel.Orchestrator.Queries.{take_last_routing_decision}
use jeeves_core.Kernel.Dispatch.{
  Kernel, response_key, with_quota, get_next_instruction, process_agent_result, deliver, enrich,
}
use jeeves_core.Kernel.AgentOutput.{
  take_output, agent_output, note_failure, merge_output, update_metadata,
}
use jeeves_core.Kernel.MergeState.{merge_state_field}
use jeeves_core.Kernel.Routing.{evaluate_routing_with_reason}
use jeeves_core.Kernel.Dispatch.Results.{result_recorded}
use jeeves_core.Kernel.Dispatch.Outputs.{kept_value}
use jeeves_core.Kernel.Dispatch.{process_known, finish_report, charge_user}
use jeeves_core.Kernel.Orchestrator.{
  report_agent_result, book, route_from, apply_routing_result, advance, visits_exhausted, visits,
  count_visit, decide, routing_context,
}
use jeeves_core.Kernel.Orchestrator.Queries.{
  get_stage_config, get_state_schema, get_stage_output_key,
}
use jeeves_core.Kernel.Dispatch.Runs.{
  create_run, initialize_orchestration, set_run_interrupt, resolve_run_interrupt, answer_run,
  check_quota,
}
use jeeves_core.Kernel.Dispatch.Waiting.{asked_of, passed, Awaited, interrupt_waits}
use jeeves_core.Kernel.Dispatch.Delivery.{Carries, answer_delivered_once, resolved_answer_delivered}
use jeeves_core.Kernel.Dispatch.Records.{check_quota_iff}
use jeeves_core.Kernel.Dispatch.Usage.{used, waited}
use jeeves_core.Tools.Health.{HealthConfig}
use jeeves_core.Tests.{workflow, fresh_run, run_value, response_value, metrics, question, answer}

abbrev health_config : HealthConfig
health_config = record {
  success_rate_healthy = record { bits = pos 0 };
  success_rate_degraded = record { bits = pos 0 };
  latency_healthy_ms = 1000;
  latency_degraded_ms = 3000;
  min_calls_for_assessment = 5;
  circuit_break_error_threshold = 5;
  circuit_break_window = pos 300_000_000_000;
  window_size = 100;
}

abbrev created : Kernel
created =
    (create_run (pos 0) "r1" "req_1" "user_1" "session_1" none (with_quota health_config none)).1

abbrev started : Kernel
started = (initialize_orchestration run_value (pos 0) "r1" workflow fresh_run false created).1

abbrev bound_run : Run
bound_run = bind_workflow workflow fresh_run

abbrev session : Orchestration
session = new_session (pos 0) "r1" workflow

started_run : Dict.get started.runs "r1" ≡ some bound_run
unfolding initialize_orchestration initialize_session create_run Workflow.validate Dict.get
    Dict.insert
started_run = refl

started_session : Dict.get started.orchestrator.sessions "r1" ≡ some session
unfolding initialize_orchestration initialize_session create_run Workflow.validate Dict.get
    Dict.insert
started_session = refl

not_terminated : bound_run.termination ≡ none
unfolding bind_workflow Run.new
not_terminated = refl

not_expired : expired (pos 2) question ≡ false
unfolding expired
not_expired = refl

interrupt_waits_example :
    let k = (set_run_interrupt (pos 1) "r1" question started).1 in
    ((set_run_interrupt (pos 1) "r1" question started).0 ≡ ok tt)
    × (get_pending "int_1" k.interrupts ≡ some (asked_of (pos 1) question bound_run))
    × Awaited question bound_run
        (Dict.get started.orchestrator.sessions "r1")
        bound_run.termination
        (passed (pos 2) question.expires_at)
        (get_next_instruction (pos 2) "r1" k).0
        (Dict.get (get_next_instruction (pos 2) "r1" k).1.runs "r1")
interrupt_waits_example = interrupt_waits (pos 1) (pos 2) "r1" question started started_run

abbrev context_of : Result Instruction → AgentDispatchContext
context_of (ok (run_agent_with agent context)) = context
context_of _ = default_context

abbrev interrupted : Kernel
interrupted = (set_run_interrupt (pos 1) "r1" question started).1

abbrev answered : Kernel
answered = (resolve_run_interrupt response_value "r1" "int_1" (answer true) interrupted).1

abbrev pending_question : PendingInterrupt
pending_question = record {
  interrupt = question;
  request_id = "req_1";
  user_id = "user_1";
  session_id = "session_1";
  envelope_id = "env_1";
  registered_at = pos 1;
}

question_pending : get_pending "int_1" interrupted.interrupts ≡ some pending_question
unfolding set_run_interrupt Interrupts.register_flow_interrupt initialize_orchestration
    initialize_session create_run Lifecycle.create Workflow.validate Dict.get Dict.insert
    bind_workflow Run.new
question_pending = refl

interrupted_run : Dict.get interrupted.runs "r1" ≡ some (set_interrupt question bound_run)
unfolding set_run_interrupt initialize_orchestration initialize_session create_run Lifecycle.create
    Workflow.validate Dict.get Dict.insert
interrupted_run = refl

abbrev next : Result Instruction × Kernel
next = get_next_instruction (pos 3) "r1" answered

runs_writer : next.0 ≡ ok (run_agent_with "writer" (context_of next.0))
unfolding get_next_instruction deliver enrich take_last_routing_decision
    Orchestrator.get_next_instruction instruct check_bounds get_agent_for_stage find_stage find
    resolve_run_interrupt answer_run Interrupts.resolve Dict.remove set_run_interrupt
    Interrupts.register_flow_interrupt initialize_orchestration initialize_session create_run
    Lifecycle.create Workflow.validate Dict.get Dict.insert bind_workflow Run.new
runs_writer = refl

resolved_answer_delivered_example :
    ((resolve_run_interrupt response_value "r1" "int_1" (answer true) interrupted).0 ≡ ok tt)
    × (get_pending "int_1" answered.interrupts ≡ none)
    × Carries (response_value (answer true)) next.0
resolved_answer_delivered_example =
    resolved_answer_delivered response_value (pos 3) "r1" "int_1" (answer true) interrupted
      question_pending interrupted_run

abbrev again : Result Instruction × Kernel
again = get_next_instruction (pos 4) "r1" next.1

answered_run : Dict.get answered.runs "r1" ≡ some (answer_run (boolean true) bound_run)
unfolding get_next_instruction deliver enrich take_last_routing_decision
    Orchestrator.get_next_instruction instruct check_bounds get_agent_for_stage find_stage find
    resolve_run_interrupt answer_run Interrupts.resolve Dict.remove set_run_interrupt
    Interrupts.register_flow_interrupt initialize_orchestration initialize_session create_run
    Lifecycle.create Workflow.validate Dict.get Dict.insert bind_workflow Run.new
answered_run = refl

runs_writer_again : again.0 ≡ ok (run_agent_with "writer" (context_of again.0))
unfolding get_next_instruction deliver enrich take_last_routing_decision
    Orchestrator.get_next_instruction instruct check_bounds get_agent_for_stage find_stage find
    resolve_run_interrupt answer_run Interrupts.resolve Dict.remove set_run_interrupt
    Interrupts.register_flow_interrupt initialize_orchestration initialize_session create_run
    Lifecycle.create Workflow.validate Dict.get Dict.insert bind_workflow Run.new
runs_writer_again = refl

answer_delivered_once_example :
    ((context_of next.0).interrupt_response
      ≡ Dict.get (answer_run (boolean true) bound_run).audit.metadata response_key)
    × ((context_of again.0).interrupt_response ≡ none)
answer_delivered_once_example =
    answer_delivered_once (pos 3) (pos 4) "r1" answered answered_run runs_writer runs_writer_again

abbrev first_record : RunRecord
first_record = new_record (pos 0) "r1" "req_1" "user_1" "session_1"

recorded : Lifecycle.get "r1" started.lifecycle ≡ some first_record
unfolding initialize_orchestration initialize_session create_run Lifecycle.create Workflow.validate
    Dict.get Dict.insert
recorded = refl

check_quota_iff_example :
    (check_quota (pos 5) "r1" started ≡ ok tt)
    ↔ IsWithin
        (used
          (waited (pos 5) first_record.started_at first_record.completed_at)
          (Dict.get started.runs "r1"))
        first_record.quota
check_quota_iff_example = check_quota_iff (pos 5) "r1" started recorded

abbrev draft : Value
draft = object (field "draft" (string "Text.") end)

taken_ok :
    (process_agent_result response_value
      (pos 5)
      "r1"
      "writer"
      draft
      none
      metrics
      true
      ""
      false
      started).0
    ≡ ok tt
unfolding process_agent_result process_known take_output agent_output note_failure merge_output
    update_metadata finish_report charge_user report_agent_result book route_from
    apply_routing_result advance visits_exhausted visits count_visit decide routing_context
    evaluate_routing_with_reason add_i32 add_i64 ◌+ℤ◌ check_bounds find_stage find get_state_schema
    get_stage_output_key get_stage_config merge_state_field initialize_orchestration
    initialize_session create_run Lifecycle.create Workflow.validate Dict.get Dict.insert
    bind_workflow Run.new
taken_ok = refl

result_recorded_example :
    (run' : Run) × (Dict.get
        (process_agent_result response_value
          (pos 5)
          "r1"
          "writer"
          draft
          none
          metrics
          true
          ""
          false
          started).1.runs
        "r1"
      ≡ some run')
    × ((written : Dict Value) × (run'.outputs ≡ Dict.insert bound_run.outputs "writer" written)
        × ((key : String) → Dict.get written key ≡ kept_value draft true "" key))
    × (r : ProcessingRecord) × (r.agent ≡ "writer")
    × (run'.audit.processing_history ≡ bound_run.audit.processing_history ++ r ∷ [])
result_recorded_example =
    result_recorded response_value (pos 5) "r1" "writer" draft none metrics true "" false started
      started_run taken_ok
