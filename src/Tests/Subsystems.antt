-- ===== src/Tests/Subsystems.antt =====
-- The routes of a stage, quotas, interrupts and the registry of runs.
use jeeves_core.Prelude.{◌≡◌, ◌≢◌, ◌↔◌, refl, none, some, true, false, ◌==◌, [], find, List, ◌∷◌}
use jeeves_core.Prelude.Int.{pos}
use jeeves_core.Prelude.Dict
use jeeves_core.Types.{RoutingFnName}
use jeeves_core.Workflow.{Workflow, Stage, contains, replace, append, merge_dict}
use jeeves_core.Workflow.Validity.{IsValid}
use jeeves_core.Workflow.Validity.Accepted.{validate_iff}
use jeeves_core.Kernel.Routing.{
  RoutingContext, error_route, routing_fn, new_registry, evaluate_routing_with_reason,
}
use jeeves_core.Kernel.Routing.Priority.{Routes, evaluate_routing_with_reason-Routes}
use jeeves_core.Kernel.Interrupts
use jeeves_core.Kernel.Interrupts.{
  register_flow_interrupt, resolve, get_response, get_pending, resolved_once,
}
use jeeves_core.Kernel.Lifecycle
use jeeves_core.Kernel.Lifecycle.{
  RunRegistry, RunRecord, ready, running, terminated, create, run, terminate, get, start,
  new_record, same_status, count, count_by_state,
}
use jeeves_core.Kernel.Lifecycle.Refinement.{
  Call, create_call, run_call, terminate_call, make_calls, steps, status_of, make_calls_refines,
}
use jeeves_core.Tests.{workflow, review_stage, question, answer}

abbrev failed_context : RoutingContext
failed_context = record {
  current_stage = "review";
  agent_name = "critic";
  agent_failed = true;
  outputs = [];
  metadata = [];
  interrupt_response = none;
  state = [];
}

evaluate_routing_with_reason-Routes_example :
    Routes review_stage new_registry failed_context (some "draft") error_route ↔ (
      ((evaluate_routing_with_reason review_stage new_registry failed_context "review").target
        ≡ some "draft")
      × ((evaluate_routing_with_reason review_stage new_registry failed_context "review").reason
          ≡ error_route))
evaluate_routing_with_reason-Routes_example =
    evaluate_routing_with_reason-Routes review_stage new_registry failed_context "review"
      (some "draft") error_route

workflow-IsValid : IsValid workflow
unfolding jeeves_core.Workflow.validate
workflow-IsValid = (validate_iff workflow).0 refl

review_found : find (λ s. s.name == "review") workflow.stages ≡ some review_stage
unfolding find
review_found = refl

sends_back :
    (evaluate_routing_with_reason review_stage new_registry failed_context "review").target
    ≡ some "draft"
unfolding evaluate_routing_with_reason
sends_back = refl

by_no_fn :
    (f : RoutingFnName)
    → (evaluate_routing_with_reason review_stage new_registry failed_context "review").reason
      ≢ routing_fn f
unfolding evaluate_routing_with_reason
by_no_fn f h = cc

resolved_once_example :
    let registered =
      register_flow_interrupt
        (pos 1)
        question
        "req_1"
        "user_1"
        "session_1"
        "env_1"
        Interrupts.new in
    let answered = resolve "int_1" (answer true) registered in
    (answered.0 ≡ true)
    × (get_response "int_1" answered.1 ≡ some (answer true))
    × (get_pending "int_1" answered.1 ≡ none)
    × (resolve "int_1" (answer false) answered.1 ≡ (false, answered.1))
resolved_once_example =
    resolved_once (pos 1) question "req_1" "user_1" "session_1" "env_1" (answer true) (answer false)
      Interrupts.new

abbrev registry : RunRegistry
registry = Lifecycle.new_registry none

abbrev one_run : RunRegistry
one_run = (create (pos 1) "r1" "req_1" "user_1" "session_1" none registry).1

abbrev first_record : RunRecord
first_record = new_record (pos 1) "r1" "req_1" "user_1" "session_1"

one_run_known : get "r1" one_run ≡ some first_record
unfolding create Dict.get Dict.insert
one_run_known = refl

abbrev calls : List Call
calls =
    create_call (pos 1) "r1" "req_1" "user_1" "session_1" none
    ∷ run_call (pos 2) "r1"
    ∷ run_call (pos 3) "r1"
    ∷ terminate_call (pos 4) "r1"
    ∷ run_call (pos 5) "r1"
    ∷ []

-- A second start is refused, and so is the start of a run that is gone.
calls_answered : (steps calls (λ _. none)).0 ≡ true ∷ true ∷ false ∷ true ∷ false ∷ []
unfolding steps
calls_answered = refl

make_calls_refines_example :
    ((make_calls calls registry).0 ≡ (steps calls (status_of registry)).0)
    × (status_of (make_calls calls registry).1 ≡ (steps calls (status_of registry)).1)
make_calls_refines_example = make_calls_refines calls registry
