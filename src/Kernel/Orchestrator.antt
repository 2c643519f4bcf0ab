-- ===== src/Kernel/Orchestrator.antt =====
-- The orchestrator (src/kernel: orchestrator.rs, orchestrator_session.rs,
-- orchestrator_queries.rs). A method on `&mut self` with a `&mut Run` returns its result beside the
-- new run and the new orchestrator; what was written before an error stays written. `now` is the
-- clock as the call reads it.
pub mod Session
pub mod Queries
pub mod Instructions
pub mod Reporting
pub mod Limits
pub mod Progress
pub mod Visits
pub mod History
use jeeves_core.Prelude.{
  ℕ, String, Bool, true, false, not, ◌&&◌, ◌||◌, Option, none, some, is_some, unwrap_or, map_option,
  and_then, List, [], ◌∷◌, ◌++◌, find, length, filter, ◌==◌, if◌then◌else◌,
}
use jeeves_core.Prelude.Int.{ℤ, pos, ltb_ℤ, leb_ℤ, add_i32, add_i64, ◌-ℤ◌}
use jeeves_core.Prelude.Dict
use jeeves_core.Prelude.Dict.{Dict}
use jeeves_core.Json.{Value}
use jeeves_core.Types.{
  RunId, StageName, AgentName, RoutingFnName, is_empty, Timestamp, Message, text, int, plain,
  validation, not_found, state_transition, Result, ok, err, ◌>>=◌, ok_or,
}
use jeeves_core.Workflow
use jeeves_core.Workflow.{Stage, StateField, Workflow, get_stage_order}
use jeeves_core.Run.{
  Run, FlowInterrupt, InterruptResponse, TerminalReason, max_stage_visits_exceeded, break_requested,
  check_bounds, is_terminated, terminal_reason, terminate_with, clear_interrupt,
}
use jeeves_core.Kernel.Routing.{
  RoutingFn, RoutingRegistry, RoutingContext, RoutingDecision, register, new_registry,
  evaluate_routing_with_reason,
}
use jeeves_core.Kernel.Protocol.{
  Instruction, terminate, run_agent, wait_interrupt, RunSnapshot, AgentExecutionMetrics,
}

pub record Orchestration : Type 0 where
  pub run_id : RunId
  pub workflow : Workflow
  pub stage_visits : Dict ℤ
  pub created_at : Timestamp
  pub last_activity_at : Timestamp
  pub last_routing_decision : Option RoutingDecision

pub record Orchestrator : Type 0 where
  pub sessions : Dict Orchestration
  pub routing_registry : RoutingRegistry

abbrev pub new : Orchestrator
new = record { sessions = []; routing_registry = new_registry }

abbrev pub register_routing_fn : RoutingFnName → RoutingFn → Orchestrator → Orchestrator
register_routing_fn name f o = record o { routing_registry = register o.routing_registry name f }

-- Write back a session that was borrowed mutably.
abbrev pub put_session : RunId → Orchestration → Orchestrator → Orchestrator
put_session id session o = record o { sessions = Dict.insert o.sessions id session }

-- `stages.iter().find(|s| s.name == name)`.
unfoldable pub find_stage : Workflow → StageName → Option Stage
find_stage w name = find (λ s. s.name == name) w.stages

unfoldable pub get_agent_for_stage : Workflow → StageName → Result AgentName
get_agent_for_stage w name =
    ok_or (map_option (λ s. s.agent) (find_stage w name))
      (not_found (text "Stage not found in workflow: " ∷ text name ∷ []))

-- `{:?}` of a reason.
abbrev pub debug : TerminalReason → String
debug TerminalReason.completed = "Completed"
debug TerminalReason.max_iterations_exceeded = "MaxIterationsExceeded"
debug TerminalReason.max_llm_calls_exceeded = "MaxLlmCallsExceeded"
debug TerminalReason.max_agent_hops_exceeded = "MaxAgentHopsExceeded"
debug TerminalReason.max_stage_visits_exceeded = "MaxStageVisitsExceeded"
debug TerminalReason.user_cancelled = "UserCancelled"
debug TerminalReason.tool_failed_fatally = "ToolFailedFatally"
debug TerminalReason.llm_failed_fatally = "LlmFailedFatally"
debug TerminalReason.policy_violation = "PolicyViolation"
debug TerminalReason.break_requested = "BreakRequested"

-- `get_next_instruction` behind the interrupt gate: the bounds, then the stage's agent.
dispatch : Workflow → Run → Result Instruction × Run
dispatch w run = elim (check_bounds run) [
  | some reason ↦ (
    ok (terminate reason (text "Bounds exceeded: " ∷ text (debug reason) ∷ [])),
    terminate_with reason none run,
  )
  | none ↦
      if is_empty run.current_stage
      then (err (state_transition (plain "No current stage set")), run)
      else (get_agent_for_stage w run.current_stage >>= λ agent. ok (run_agent agent), run)
]

-- `i.expires_at.map(|exp| Utc::now() > exp).unwrap_or(false)`.
unfoldable pub expired : Timestamp → FlowInterrupt → Bool
expired now i = unwrap_or false (map_option (λ exp. ltb_ℤ exp now) i.expires_at)

-- `get_next_instruction` behind the look-up of the session.
unfoldable pub instruct : Workflow → Timestamp → Run → Result Instruction × Run
unfolding dispatch expired
instruct w now run =
    if is_terminated run
    then (
      ok (
          terminate (unwrap_or TerminalReason.completed (terminal_reason run))
            (plain "Session already terminated")),
      run,
    )
    else elim run.interrupts.interrupt [
      | some i ↦
          if expired now i
          then dispatch w (clear_interrupt run)
          else (ok (wait_interrupt (some i)), run)
      | none ↦ dispatch w run
    ]

abbrev unknown_process : RunId → Message
unknown_process id = text "Unknown process: " ∷ text id ∷ []

unfoldable pub get_next_instruction :
    Timestamp → RunId → Run → Orchestrator → Result Instruction × Run × Orchestrator
get_next_instruction now id run o = elim (Dict.get o.sessions id) [
  | none ↦ (err (not_found (unknown_process id)), run, o)
  | some session ↦
      let (r, run') = instruct session.workflow now run in
      (r, run', put_session id (record session { last_activity_at = now }) o)
]

-- `if let Some(tokens) = metrics.tokens { total += tokens }`.
abbrev add_tokens : ℤ → Option ℤ → ℤ
add_tokens total none = total
add_tokens total (some n) = add_i64 total n

-- The bookkeeping at the head of `report_agent_result`.
unfoldable pub book : AgentExecutionMetrics → Run → Run
book m run = record run {
  metrics = record run.metrics {
    llm_calls = add_i32 run.metrics.llm_calls m.llm_calls;
    tool_calls = add_i32 run.metrics.tool_calls m.tool_calls;
    tokens_in = add_tokens run.metrics.tokens_in m.tokens_in;
    tokens_out = add_tokens run.metrics.tokens_out m.tokens_out;
  };
  iteration = add_i32 run.iteration (pos 1);
}

-- `stage_visits.get(name).copied().unwrap_or(0)`.
unfoldable pub visits : Dict ℤ → StageName → ℤ
visits v name = unwrap_or (pos 0) (Dict.get v name)

-- `target_stage.max_visits` is reached.
unfoldable pub visits_exhausted : Orchestration → StageName → Option ℤ
unfolding find_stage visits
visits_exhausted session target = elim (find_stage session.workflow target) [
  | none ↦ none
  | some stage ↦ elim stage.max_visits [
    | none ↦ none
    | some max_visits ↦
        if leb_ℤ max_visits (visits session.stage_visits target) then some max_visits else none
  ]
]

-- `apply_routing_result` on the session it borrows.
unfoldable pub advance : Orchestration → Option StageName → Run → Run
unfolding visits_exhausted
advance session none run = terminate_with TerminalReason.completed none run
advance session (some target) run = elim (visits_exhausted session target) [
  | some max_visits ↦
      terminate_with max_stage_visits_exceeded
        (some (
          text "Stage '"
          ∷ text target
          ∷ text "' exceeded max_visits limit of "
          ∷ int max_visits
          ∷ []))
        run
  | none ↦ record run {
    metrics = record run.metrics { agent_hops = add_i32 run.metrics.agent_hops (pos 1) };
    current_stage = target;
  }
]

unfoldable pub apply_routing_result :
    Timestamp
    → RunId
    → Option StageName
    → Run
    → Orchestrator
    → Result (Unit {0}) × Run × Orchestrator
apply_routing_result now id target run o = elim (Dict.get o.sessions id) [
  | none ↦ (err (not_found (unknown_process id)), run, o)
  | some session ↦ (
    ok tt,
    advance session target run,
    put_session id (record session { last_activity_at = now }) o,
  )
]

-- The visit of the current stage is counted, and the decision is kept for the next instruction.
unfoldable pub count_visit : Orchestration → StageName → RoutingDecision → Orchestration
unfolding visits
count_visit session stage decision = record session {
  stage_visits =
      Dict.insert session.stage_visits stage (add_i32 (visits session.stage_visits stage) (pos 1));
  last_routing_decision = some decision;
}

-- The context of a routing function. `response_value` serialises an interrupt's response.
module _ (response_value : InterruptResponse → Value) where
  unfoldable pub routing_context : Stage → Bool → Run → RoutingContext
  routing_context stage agent_failed run = record {
    current_stage = run.current_stage;
    agent_name = stage.agent;
    agent_failed = agent_failed;
    outputs = run.outputs;
    metadata = run.audit.metadata;
    interrupt_response =
        and_then run.interrupts.interrupt (λ i. map_option response_value i.response);
    state = run.state;
  }

  unfoldable pub decide : Stage → Bool → Run → RoutingRegistry → RoutingDecision
  unfolding routing_context
  decide stage agent_failed run registry =
      evaluate_routing_with_reason stage registry (routing_context stage agent_failed run)
        run.current_stage

  -- `report_agent_result` once the current stage is found in the workflow.
  unfoldable pub route_from :
      Timestamp
      → RunId
      → Orchestration
      → Stage
      → Bool
      → Run
      → Orchestrator
      → Result (Unit {0}) × Run × Orchestrator
  route_from now id session stage agent_failed run o =
      let decision = decide stage agent_failed run o.routing_registry in
      apply_routing_result now id decision.target run
        (put_session id (count_visit session run.current_stage decision) o)

  unfoldable pub report_agent_result :
      Timestamp
      → RunId
      → AgentExecutionMetrics
      → Run
      → Bool
      → Bool
      → Orchestrator
      → Result (Unit {0}) × Run × Orchestrator
  report_agent_result now id metrics run agent_failed break_loop o = elim (Dict.get o.sessions id) [
    | none ↦ (err (not_found (unknown_process id)), run, o)
    | some session ↦
        let booked = book metrics run in
        elim (check_bounds booked) [
          | some reason ↦ (ok tt, terminate_with reason none booked, o)
          | none ↦
              if break_loop
              then (
                ok tt,
                terminate_with break_requested none booked,
                put_session id (record session { last_activity_at = now }) o,
              )
              else elim (find_stage session.workflow booked.current_stage) [
                | none ↦ (
                  err (
                      state_transition (
                        text "Current stage '"
                        ∷ text booked.current_stage
                        ∷ text "' not found in workflow"
                        ∷ [])),
                  booked,
                  o,
                )
                | some stage ↦ route_from now id session stage agent_failed booked o
              ]
        ]
  ]
