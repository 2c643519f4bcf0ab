-- ===== src/Tests/Sessions.antt =====
-- A session of the drafting workflow.
use jeeves_core.Prelude.{
  ◌≡◌, ◌↔◌, refl, arith, none, some, Bool, true, false, List, [], ◌∷◌, length, find, ◌==◌,
}
use jeeves_core.Prelude.Int.{pos, ◌+ℤ◌, ◌≤ℤ◌, add_i32, add_i64}
use jeeves_core.Prelude.Dict
use jeeves_core.Types.{Result, ok}
use jeeves_core.Workflow
use jeeves_core.Workflow.{Stage}
use jeeves_core.Workflow.Validity.{IsValid}
use jeeves_core.Workflow.Validity.Accepted.{validate_iff}
use jeeves_core.Run
use jeeves_core.Run.{
  Run, max_iterations_exceeded, user_cancelled, is_terminated, terminal_reason, terminate_with,
  check_bounds, clear_interrupt,
}
use jeeves_core.Kernel.Protocol.{RunSnapshot, Instruction, run_agent_with, default_context}
use jeeves_core.Kernel.Orchestrator.{
  Orchestrator, Orchestration, get_next_instruction, instruct, report_agent_result,
  get_agent_for_stage, find_stage, book, visits, visits_exhausted, advance, apply_routing_result,
  count_visit, routing_context, decide, route_from,
}
use jeeves_core.Kernel.Orchestrator.Session.{
  build_session_state, initialize_session, bind_workflow, new_session,
}
use jeeves_core.Kernel.Orchestrator.Instructions.{IsOver, IsBelow, run_agent_only_if}
use jeeves_core.Kernel.Orchestrator.Progress.{Report, work, work_terminates}
use jeeves_core.Kernel.Orchestrator.Limits.{WithinLimits}
use jeeves_core.Kernel.Orchestrator.History.{IsSound, Reach, start, ask, report, Reach-IsSound}
use jeeves_core.Kernel.Routing.{evaluate_routing_with_reason}
use jeeves_core.Tests.{
  fresh, workflow-Fits, workflow, fresh_run, no_orchestrator, run_value, response_value, metrics,
}

validate_iff_example : (Workflow.validate workflow ≡ ok tt) ↔ IsValid workflow
validate_iff_example = validate_iff workflow

abbrev started : Result RunSnapshot × Run × Orchestrator
started = initialize_session run_value (pos 0) "r1" workflow fresh_run false no_orchestrator

abbrev session : Orchestration
session = new_session (pos 0) "r1" workflow

starts : started.0 ≡ ok (build_session_state run_value session (bind_workflow workflow fresh_run))
unfolding initialize_session Run.new bind_workflow Workflow.validate Dict.get Dict.insert
starts = refl

started_reach : Reach response_value run_value "r1" started.1 started.2
started_reach = start (pos 0) workflow fresh_run false no_orchestrator fresh workflow-Fits starts

-- The writer answers, and then the critic fails: the run goes back to the draft.
abbrev asked : Result Instruction × Run × Orchestrator
asked = get_next_instruction (pos 1) "r1" started.1 started.2

abbrev drafted : Result (Unit {0}) × Run × Orchestrator
drafted = report_agent_result response_value (pos 2) "r1" metrics asked.1 false false asked.2

abbrev sent_back : Result (Unit {0}) × Run × Orchestrator
sent_back = report_agent_result response_value (pos 3) "r1" metrics drafted.1 true false drafted.2

sent_back_to : sent_back.1.current_stage ≡ "draft"
unfolding initialize_session Run.new bind_workflow Workflow.validate Dict.get Dict.insert
    get_next_instruction instruct check_bounds get_agent_for_stage find_stage find
    report_agent_result book ◌+ℤ◌ visits visits_exhausted advance apply_routing_result count_visit
    routing_context decide route_from evaluate_routing_with_reason add_i32 add_i64
sent_back_to = refl

asked_open : asked.1.termination ≡ none
unfolding initialize_session Run.new bind_workflow Workflow.validate Dict.get Dict.insert
    get_next_instruction instruct check_bounds get_agent_for_stage find_stage find
asked_open = refl

drafted_open : drafted.1.termination ≡ none
unfolding initialize_session Run.new bind_workflow Workflow.validate Dict.get Dict.insert
    get_next_instruction instruct check_bounds get_agent_for_stage find_stage find
    report_agent_result book ◌+ℤ◌ visits visits_exhausted advance apply_routing_result count_visit
    routing_context decide route_from evaluate_routing_with_reason add_i32 add_i64
drafted_open = refl

sent_back_reach : Reach response_value run_value "r1" sent_back.1 sent_back.2
sent_back_reach =
    report (pos 3) metrics true false drafted_open
      (report (pos 2) metrics false false asked_open (ask (pos 1) started_reach))

Reach-IsSound_example : IsSound "r1" sent_back.1 sent_back.2
Reach-IsSound_example = Reach-IsSound response_value run_value "r1" sent_back_reach

abbrev turn : Bool → Report
turn failed = record { now = pos 5; metrics = metrics; agent_failed = failed; break_loop = false }

abbrev turns : List Report
turns = turn false ∷ turn true ∷ turn false ∷ []

started_known : Dict.get started.2.sessions "r1" ≡ some session
unfolding initialize_session Run.new bind_workflow Workflow.validate Dict.get Dict.insert
started_known = refl

started_limits : WithinLimits started.1
started_limits = (Reach-IsSound response_value run_value "r1" started_reach).limits

turns_enough : started.1.max_iterations ≤ℤ started.1.iteration +ℤ pos (length turns)
unfolding initialize_session Run.new bind_workflow Workflow.validate Dict.get Dict.insert ◌+ℤ◌
turns_enough = omega arith

work_terminates_example :
    is_terminated (work response_value "r1" turns started.1 started.2).0 ≡ true
work_terminates_example =
    work_terminates response_value "r1" turns started.1 started.2 started_known started_limits
      turns_enough

writes :
    (get_next_instruction (pos 1) "r1" started.1 started.2).0
    ≡ ok (run_agent_with "writer" default_context)
unfolding initialize_session Run.new bind_workflow Workflow.validate Dict.get Dict.insert
    get_next_instruction instruct check_bounds get_agent_for_stage find_stage find
writes = refl

run_agent_only_if_example :
    (s : Orchestration) × (Dict.get started.2.sessions "r1" ≡ some s)
    × (started.1.termination ≡ none)
    × IsOver (pos 1) started.1.interrupts.interrupt
    × IsBelow started.1
    × ((stage : Stage) × (find (λ s. s.name == started.1.current_stage) s.workflow.stages
          ≡ some stage)
        × (stage.agent ≡ "writer"))
    × ((get_next_instruction (pos 1) "r1" started.1 started.2).1
        ≡ record started.1 { interrupts = record { interrupt = none } })
run_agent_only_if_example = run_agent_only_if (pos 1) "r1" started.1 started.2 writes
