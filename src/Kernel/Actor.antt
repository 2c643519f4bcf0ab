-- ===== src/Kernel/Actor.antt =====
-- The kernel actor (src/kernel/actor.rs, and src/kernel/handle.rs for its commands). The actor
-- takes one command after the other from its channel; a command comes here with the clock as the
-- actor reads it. Replies stand for what is sent on the channel of a command, and a health report
-- for its JSON. The cancellation and the closing of the channel end the list of commands.
pub mod Apart
pub mod Gone
pub mod Keeps
pub mod Paired
pub mod Recorded
pub mod Sound
use jeeves_core.Prelude.{String, Bool, true, false, Option, none, some, is_some, List, [], ◌∷◌}
use jeeves_core.Prelude.Dict.{Dict}
use jeeves_core.Json.{Value}
use jeeves_core.Types.{
  RunId, RequestId, UserId, SessionId, InterruptId, RoutingFnName, Timestamp, Result, ok, err,
}
use jeeves_core.Workflow.{Workflow}
use jeeves_core.Run.{Run, FlowInterrupt, InterruptResponse}
use jeeves_core.Kernel.Routing.{RoutingFn}
use jeeves_core.Kernel.Protocol.{
  Instruction, run_agent_with, terminate_with_context, wait_interrupt, AgentExecutionMetrics,
  RunSnapshot,
}
use jeeves_core.Kernel.Lifecycle
use jeeves_core.Kernel.Lifecycle.{RunRecord}
use jeeves_core.Kernel.Orchestrator
use jeeves_core.Kernel.Dispatch.{Kernel, get_next_instruction, process_agent_result}
use jeeves_core.Kernel.Dispatch.Runs.{
  SystemStatus, initialize_orchestration, get_orchestration_state, create_run, terminate_run,
  get_system_status, resolve_run_interrupt, set_run_interrupt,
}
use jeeves_core.Tools.Health.Reports.{
  Floats, ToolHealthReport, SystemHealthReport, check_tool_health, check_system_health,
}

pub data KernelCommand : Type 0 where
  initialize_session : RunId → Workflow → Run → Bool → KernelCommand
  next_instruction : RunId → KernelCommand
  agent_result :
      RunId
      → String
      → Value
      → Option (Dict Value)
      → AgentExecutionMetrics
      → Bool
      → String
      → Bool
      → KernelCommand
  session_state : RunId → KernelCommand
  new_run : RunId → RequestId → UserId → SessionId → KernelCommand
  end_run : RunId → KernelCommand
  system_status : KernelCommand
  resolve_interrupt : RunId → InterruptId → InterruptResponse → KernelCommand
  set_interrupt : RunId → FlowInterrupt → KernelCommand
  tool_health : Option String → KernelCommand
  routing_fn : RoutingFnName → RoutingFn → KernelCommand

pub data Reply : Type 0 where
  snapshot : Result RunSnapshot → Reply
  instruction : Result Instruction → Reply
  done : Result (Unit {0}) → Reply
  created : Result RunRecord → Reply
  status : SystemStatus → Reply
  tool_report : ToolHealthReport → Reply
  system_report : SystemHealthReport → Reply

-- `matches!(instr, Instruction::Terminate { .. })` on an instruction that was given.
abbrev pub terminates : Result Instruction → Bool
terminates (err e) = false
terminates (ok (run_agent_with agent context)) = false
terminates (ok (terminate_with_context reason message context)) = true
terminates (ok (wait_interrupt i)) = false

-- The run record that `InitializeSession` makes where there is none.
unfoldable pub ensure_record : Timestamp → RunId → Run → Kernel → Kernel
unfolding create_run
ensure_record now id run k = elim (Lifecycle.get id k.lifecycle) [
  | some r ↦ k
  | none ↦
      (create_run now id run.identity.request_id run.identity.user_id run.identity.session_id none
        k).1
]

-- The arm of `GetNextInstruction`: a run that is told to terminate is terminated.
unfoldable pub dispatch_next : Timestamp → RunId → Kernel → Result Instruction × Kernel
unfolding get_next_instruction terminate_run
dispatch_next now id k =
    let (r, k') = get_next_instruction now id k in
    (r, elim (terminates r) [ true ↦ (terminate_run now id k').1 | false ↦ k' ])

module _ (run_value : Run → Value) (response_value : InterruptResponse → Value) (floats : Floats)
    (sort : List String → List String) where
  unfoldable pub dispatch : Timestamp → KernelCommand → Kernel → Reply × Kernel
  unfolding ensure_record dispatch_next initialize_orchestration process_agent_result create_run
      terminate_run resolve_run_interrupt set_run_interrupt
  dispatch now (initialize_session id w run force) k =
      let (r, k') =
        initialize_orchestration run_value now id w run force (ensure_record now id run k) in
      (snapshot r, k')
  dispatch now (next_instruction id) k = let (r, k') = dispatch_next now id k in (instruction r, k')
  dispatch now (agent_result id agent output updates metrics success message broke) k =
      let (r, k') =
        process_agent_result response_value now id agent output updates metrics success message
          broke k in
      (done r, k')
  dispatch now (session_state id) k = (snapshot (get_orchestration_state run_value id k), k)
  dispatch now (new_run id request user session) k =
      let (r, k') = create_run now id request user session none k in (created r, k')
  dispatch now (end_run id) k = let (r, k') = terminate_run now id k in (done r, k')
  dispatch now system_status k = (status (get_system_status k), k)
  dispatch now (resolve_interrupt id interrupt response) k =
      let (r, k') = resolve_run_interrupt response_value id interrupt response k in (done r, k')
  dispatch now (set_interrupt id i) k = let (r, k') = set_run_interrupt now id i k in (done r, k')
  dispatch now (tool_health (some name)) k =
      (tool_report (check_tool_health floats now name k.health), k)
  dispatch now (tool_health none) k =
      (system_report (check_system_health floats sort now k.health), k)
  dispatch now (routing_fn name f) k = (
    done (ok tt),
    record k { orchestrator = Orchestrator.register_routing_fn name f k.orchestrator },
  )

  -- The loop of `run_kernel_actor`: the kernel after the commands, and the replies in their order.
  unfoldable pub run_kernel_actor : List (Timestamp × KernelCommand) → Kernel → List Reply × Kernel
  unfolding dispatch
  run_kernel_actor [] k = ([], k)
  run_kernel_actor ((now, command) ∷ commands) k =
      let (r, k') = dispatch now command k in
      let (rs, k'') = run_kernel_actor commands k' in (r ∷ rs, k'')
