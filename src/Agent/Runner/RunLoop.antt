-- ===== src/Agent/Runner/RunLoop.antt =====
-- The loop that drives a run (src/kernel/runner.rs). It talks to the actor through the handle, so
-- that other clients may act between two of its commands. `between` is what their commands make of
-- the kernel in the meantime, which is any change at all. A round is one turn of the loop; where the
-- rounds or the polls that are given run out, the loop has not ended. What is sent while an agent
-- executes is given with the round. A channel that is closed is not modelled.
pub mod Ends
pub mod Drivable
pub mod Returns
pub mod Whole
pub mod Context
use mathlib.Core.List.{◌++◌ as append}
use jeeves_core.Prelude.{
  ℕ, String, Bool, true, false, Option, none, some, is_some, unwrap_or, map_option, and_then, List,
  [], ◌∷◌, if◌then◌else◌,
}
use jeeves_core.Prelude.Int.{pos}
use jeeves_core.Prelude.Dict.{Dict}
use jeeves_core.Json.{Value, null, boolean, integer, fraction, string, array, object, get_field}
use jeeves_core.Types.{RunId, Timestamp, Result, ok, err}
use jeeves_core.Workflow.{Workflow}
use jeeves_core.Run.{Run, InterruptResponse, Termination, TerminalReason, FlowInterrupt}
use jeeves_core.Run.Events.{
  RunEvent, stage_started, stage_completed, done, interrupt_pending, routing_decision, StageMetrics,
  AggregateMetrics,
}
use jeeves_core.Kernel.Routing.{RoutingDecision}
use jeeves_core.Kernel.Protocol.{
  Instruction, run_agent_with, terminate_with_context, wait_interrupt, AgentDispatchContext,
}
use jeeves_core.Kernel.Orchestrator.{debug}
use jeeves_core.Kernel.AgentContext.{outputs_fields}
use jeeves_core.Kernel.Dispatch.{Kernel, process_agent_result}
use jeeves_core.Kernel.Dispatch.Runs.{set_run_interrupt, initialize_orchestration}
use jeeves_core.Kernel.Actor.{ensure_record, dispatch_next}
use jeeves_core.Agent.{AgentOutput, AgentContext, Process, AgentRegistry, Texts}
use jeeves_core.Agent.Runner.{execute_agent, execute_agent_with_timeout, execute_agent_with_policy}

pub record WorkerResult : Type 0 where
  pub run_id : RunId
  pub termination : Option Termination
  pub outputs : Dict (Dict Value)
  pub aggregate_metrics : Option AggregateMetrics

abbrev pub terminated : WorkerResult → Bool
terminated w = is_some w.termination

abbrev pub terminal_reason : WorkerResult → Option TerminalReason
terminal_reason w = map_option (λ t. t.reason) w.termination

-- `serde_json::from_value` at the types that the loop reads.
pub record Decoders : Type 0 where
  pub outputs : Value → Option (Dict (Dict Value))
  pub entries : Value → Option (Dict Value)
  pub aggregate : Value → Option AggregateMetrics

-- `Value::get` with a key.
unfoldable pub get_key : String → Value → Option Value
get_key k (object fs) = get_field fs k
get_key k null = none
get_key k (boolean b) = none
get_key k (integer n) = none
get_key k (fraction s) = none
get_key k (string s) = none
get_key k (array vs) = none

-- `Value::as_str`.
unfoldable pub as_str : Value → Option String
as_str (string s) = some s
as_str null = none
as_str (boolean b) = none
as_str (integer n) = none
as_str (fraction s) = none
as_str (array vs) = none
as_str (object fs) = none

abbrev pub read {ℓ} : {A : Type ℓ} → AgentDispatchContext → String → (Value → Option A) → Option A
read context key decode = and_then (and_then context.agent_context (get_key key)) decode

-- The actor serves a command: what others did before it, and the clock.
pub record Turn : Type 0 where
  pub between : Kernel → Kernel
  pub now : Timestamp

pub record Round : Type 0 where
  pub asked : Turn
  pub replied : Turn
  pub polls : List Turn
  pub agents : ℕ → AgentRegistry Process
  pub in_time : ℕ → Bool
  pub sent : List RunEvent

-- How a round ends: the loop returns, it panics, it goes on, or it still polls.
pub data Step : Type 0 where
  returns : Result WorkerResult → Step
  panics again polling : Step

-- The `?` on a reply, after which the loop goes on.
unfoldable pub step_of : Result (Unit {0}) → Step
step_of (ok u) = again
step_of (err e) = returns (err e)

abbrev pub waits : Instruction → Bool
waits (run_agent_with agent context) = false
waits (terminate_with_context reason message context) = false
waits (wait_interrupt i) = true

unfoldable pub stage_metrics : AgentOutput → StageMetrics
stage_metrics o = record {
  duration_ms = o.metrics.duration_ms;
  llm_calls = o.metrics.llm_calls;
  tool_calls = o.metrics.tool_calls;
  tokens_in = unwrap_or (pos 0) o.metrics.tokens_in;
  tokens_out = unwrap_or (pos 0) o.metrics.tokens_out;
  tool_results = o.metrics.tool_results;
  success = o.success;
}

-- What the loop is called with, and the library functions that it uses; `streaming` says whether
-- there is a channel for events.
pub record LoopArgs : Type 0 where
  pub run_id : RunId
  pub streaming : Bool
  pub workflow_name : String
  pub texts : Texts
  pub decoders : Decoders
  pub response_value : InterruptResponse → Value

module _ (c : LoopArgs) where
  open c use {run_id, streaming, workflow_name, texts, decoders, response_value}

  abbrev pub sends : RunEvent → List RunEvent
  sends event = if streaming then event ∷ [] else []

  unfoldable pub routing_event : Option RoutingDecision → List RunEvent
  routing_event none = []
  routing_event (some d) = sends (routing_decision d.from_stage d.target d.reason workflow_name)

  unfoldable pub build_agent_context : AgentDispatchContext → Option String → AgentContext
  unfolding get_key as_str
  build_agent_context context stage_name = record {
    raw_input = unwrap_or "" (read context "raw_input" as_str);
    outputs = unwrap_or [] (read context "outputs" decoders.outputs);
    state = unwrap_or [] (read context "state" decoders.entries);
    metadata = unwrap_or [] (read context "metadata" decoders.entries);
    streaming = c.streaming;
    stage_name = stage_name;
    workflow_name = c.workflow_name;
    max_context_tokens = context.max_context_tokens;
    context_overflow = context.context_overflow;
    interrupt_response = context.interrupt_response;
    response_format = context.response_format;
  }

  -- The execution of an agent in a round; `none` is the panic behind its retries.
  unfoldable pub executed : Round → String → AgentDispatchContext → Option AgentOutput
  unfolding build_agent_context execute_agent execute_agent_with_timeout execute_agent_with_policy
  executed r agent context =
      let ctx = build_agent_context context (some agent) in
      let attempt : ℕ → AgentOutput = λ n.
        let awaited = execute_agent texts agent ctx (r.agents n) in
        execute_agent_with_timeout texts context.timeout_seconds n awaited
          (if r.in_time n then some awaited else none) in
      execute_agent_with_policy (r.agents 0) ctx attempt context.retry_policy

  -- What follows the execution: a request to wait is handed to the kernel, and else the result.
  unfoldable pub after_agent :
      Turn → String → Option AgentOutput → Kernel → Step × Kernel × List RunEvent
  unfolding step_of stage_metrics set_run_interrupt process_agent_result
  after_agent t agent none k = (panics, k, [])
  after_agent t agent (some o) k = elim o.interrupt_request [
    | some i ↦ let (r, k') = set_run_interrupt t.now run_id i (t.between k) in (step_of r, k', [])
    | none ↦
        let (r, k') =
          process_agent_result response_value t.now run_id agent o.output none o.metrics o.success
            o.error_message false (t.between k) in
        (step_of r, k', sends (stage_completed agent workflow_name (some (stage_metrics o))))
  ]

  -- The inner loop of a streaming run that waits.
  unfoldable pub poll : List Turn → Kernel → Step × Kernel
  unfolding dispatch_next
  poll [] k = (polling, k)
  poll (t ∷ ts) k =
      let (r, k') = dispatch_next t.now run_id (t.between k) in
      elim r [
        | err e ↦ (returns (err e), k')
        | ok i ↦ elim (waits i) [ true ↦ poll ts k' | false ↦ (again, k') ]
      ]

  unfoldable pub pending_event : Option FlowInterrupt → RunEvent
  pending_event i =
      interrupt_pending run_id (unwrap_or "" (map_option (λ i. i.id) i)) ""
        (and_then i (λ i. i.question)) (and_then i (λ i. i.message)) workflow_name

  -- The result of a run that was told to terminate, and the event that ends its stream.
  unfoldable pub terminated_result : Termination → AgentDispatchContext → WorkerResult
  unfolding get_key
  terminated_result t context = record {
    run_id = c.run_id;
    termination = some t;
    outputs = unwrap_or [] (read context "outputs" decoders.outputs);
    aggregate_metrics = read context "aggregate_metrics" decoders.aggregate;
  }

  unfoldable pub done_event : Termination → WorkerResult → RunEvent
  unfolding outputs_fields
  done_event t w =
      done run_id true (some (debug t.reason)) (some (object (outputs_fields w.outputs)))
        workflow_name w.aggregate_metrics

  -- The result of a buffered run that waits.
  abbrev pub waiting_result : WorkerResult
  waiting_result = record {
    run_id = c.run_id;
    termination = none;
    outputs = [];
    aggregate_metrics = none;
  }

  -- The match on the instruction.
  unfoldable pub follow : Round → Result Instruction → Kernel → Step × Kernel × List RunEvent
  unfolding routing_event executed after_agent poll pending_event terminated_result done_event
  follow r (err e) k = (returns (err e), k, [])
  follow r (ok (terminate_with_context reason message context)) k =
      let t : Termination = record { reason = reason; message = message } in
      let w = terminated_result t context in
      (
        returns (ok w),
        k,
        append (routing_event context.last_routing_decision) (sends (done_event t w)),
      )
  follow r (ok (run_agent_with agent context)) k =
      let (s, k', es) = after_agent r.replied agent (executed r agent context) k in
      (
        s,
        k',
        append (routing_event context.last_routing_decision) (
            append (sends (stage_started agent workflow_name))
              (append (if streaming then r.sent else []) es)),
      )
  follow r (ok (wait_interrupt i)) k =
      let (s, k') = poll r.polls k in
      if streaming then (s, k', pending_event i ∷ []) else (returns (ok waiting_result), k, [])

  unfoldable pub round : Round → Kernel → Step × Kernel × List RunEvent
  round r k = let (i, k') = dispatch_next r.asked.now run_id (r.asked.between k) in follow r i k'

  unfoldable pub run_loop : List Round → Kernel → Step × Kernel × List RunEvent
  run_loop [] k = (again, k, [])
  run_loop (r ∷ rs) k =
      let (s, k', es) = round r k in
      elim s [
        | returns w ↦ (returns w, k', es)
        | panics ↦ (panics, k', es)
        | polling ↦ (polling, k', es)
        | again ↦ let (s', k'', es') = run_loop rs k' in (s', k'', append es es')
      ]

-- The session first, and then the loop.
unfoldable pub run_session :
    LoopArgs
    → (Run → Value)
    → Turn
    → Workflow
    → Run
    → List Round
    → Kernel
    → Step × Kernel × List RunEvent
run_session c run_value t w started rounds k =
    let (r, k') =
      initialize_orchestration run_value t.now c.run_id w started false
        (ensure_record t.now c.run_id started (t.between k)) in
    elim r [ err e ↦ (returns (err e), k', []) | ok snapshot ↦ run_loop c rounds k' ]

-- The arguments of the loop for a workflow, with a channel or without.
abbrev pub args_for : Bool → Workflow → LoopArgs → LoopArgs
args_for streaming w c = record c { streaming = streaming; workflow_name = w.name }

unfoldable pub run :
    LoopArgs
    → (Run → Value)
    → Turn
    → Workflow
    → Run
    → List Round
    → Kernel
    → Step × Kernel × List RunEvent
unfolding run_session
run c run_value t w = run_session (args_for false w c) run_value t w

-- `run_streaming`, with what the task that it spawns returns.
unfoldable pub run_streaming :
    LoopArgs
    → (Run → Value)
    → Turn
    → Workflow
    → Run
    → List Round
    → Kernel
    → Step × Kernel × List RunEvent
unfolding run_session
run_streaming c run_value t w = run_session (args_for true w c) run_value t w
