-- ===== src/Kernel/Dispatch.antt =====
-- The kernel and the dispatch of instructions and results (src/kernel: dispatch.rs, and mod.rs for
-- the kernel's state). `now` is the clock as the call reads it. `response_value` is
-- `serde_json::to_value` on an interrupt's response.
pub mod Runs
pub mod Delivery
pub mod Waiting
pub mod Usage
pub mod Records
pub mod Outputs
pub mod Apart
pub mod Keys
pub mod Sound
pub mod Results
use Prim.Native.String.{◌++◌}
use jeeves_core.Prelude.{
  ℕ, suc, ◌+◌, ◌/◌, String, Bool, true, false, not, Option, none, some, is_some, unwrap_or,
  map_option, and_then, List, [], ◌∷◌, find, ◌==◌, if◌then◌else◌,
}
use jeeves_core.Prelude.Int.{ℤ, pos, negsuc, ◌-ℤ◌, ◌*ℤ◌, to_i32}
use jeeves_core.Prelude.Dict
use jeeves_core.Prelude.Dict.{Dict}
use jeeves_core.Json.{
  Value, Values, boolean, integer, string, array, object, nil, cons, Fields, end, field,
  insert_field, from_dict,
}
use jeeves_core.Types.{
  RunId, UserId, Timestamp, is_empty, text, not_found, Result, ok, err, StageName,
}
use jeeves_core.Workflow.{ContextOverflow, StateField}
use jeeves_core.Run
use jeeves_core.Run.{
  Run, InterruptResponse, ProcessingRecord, ProcessingStatus, insert_all, add_processing_record,
}
use jeeves_core.Kernel.MergeState.{merge_state_field}
use jeeves_core.Kernel.Routing.{RoutingDecision}
use jeeves_core.Kernel.Protocol.{
  Instruction, run_agent_with, terminate_with_context, wait_interrupt, AgentDispatchContext,
  AgentExecutionMetrics, ToolCallResult,
}
use jeeves_core.Kernel.Orchestrator
use jeeves_core.Kernel.Orchestrator.{Orchestrator, report_agent_result}
use jeeves_core.Kernel.Orchestrator.Queries.{
  get_stage_config, get_stage_response_format, get_state_schema, get_stage_output_key,
  take_last_routing_decision,
}
use jeeves_core.Kernel.Lifecycle
use jeeves_core.Kernel.Lifecycle.{RunRegistry}
use jeeves_core.Kernel.Quota.{ResourceQuota}
use jeeves_core.Kernel.Resources
use jeeves_core.Kernel.Resources.{ResourceTracker, record_usage}
use jeeves_core.Kernel.AgentContext.{num_milliseconds, agent_context, final_context}
use jeeves_core.Kernel.AgentOutput.{
  agent_output, note_failure, merge_output, update_metadata, take_output, processing_record,
}
use jeeves_core.Kernel.Interrupts
use jeeves_core.Kernel.Interrupts.{InterruptService}
use jeeves_core.Tools.Health
use jeeves_core.Tools.Health.{
  HealthConfig, ToolHealthTracker, record_execution, get_circuit_broken_tools,
}

-- The field `tools.health` of the source is `health`.
pub record Kernel : Type 0 where
  pub lifecycle : RunRegistry
  pub resources : ResourceTracker
  pub interrupts : InterruptService
  pub orchestrator : Orchestrator
  pub runs : Dict Run
  pub health : ToolHealthTracker

abbrev pub with_quota : HealthConfig → Option ResourceQuota → Kernel
with_quota health_config default_quota = record {
  lifecycle = Lifecycle.new_registry default_quota;
  resources = Resources.new;
  interrupts = Interrupts.new;
  orchestrator = Orchestrator.new;
  runs = [];
  health = Health.new health_config;
}

abbrev pub put_run : RunId → Run → Kernel → Kernel
put_run id run k = record k { runs = Dict.insert k.runs id run }

-- `build_enrichment_context` on a run that is known.
unfoldable pub build_enrichment_context :
    Timestamp → RunId → Run → Kernel → Value × Option ℤ × Option ContextOverflow
build_enrichment_context now id run k =
    let config = get_stage_config id run.current_stage k.orchestrator in
    (
      agent_context (get_circuit_broken_tools now k.health) run,
      and_then config (λ s. s.max_context_tokens),
      and_then config (λ s. if is_some s.max_context_tokens then some s.context_overflow else none),
    )

abbrev pub response_key : String
response_key = "_interrupt_response"

-- The context of a `RunAgent`, filled in from the run and from its stage.
unfoldable pub enrich_agent :
    Timestamp → RunId → Run → Kernel → AgentDispatchContext → AgentDispatchContext
unfolding build_enrichment_context
enrich_agent now id run k context =
    let e = build_enrichment_context now id run k in
    let config = get_stage_config id run.current_stage k.orchestrator in
    record context {
      agent_context = some e.0;
      max_context_tokens = e.1;
      context_overflow = e.2;
      interrupt_response = Dict.get run.audit.metadata response_key;
      timeout_seconds = elim config [ some s ↦ s.timeout_seconds | none ↦ context.timeout_seconds ];
      retry_policy = elim config [ some s ↦ s.retry_policy | none ↦ context.retry_policy ];
      response_format = get_stage_response_format id run.current_stage k.orchestrator;
    }

-- `metadata.remove("_interrupt_response")`.
abbrev pub forget_response : Run → Run
forget_response run = record run {
  audit = record run.audit { metadata = Dict.remove run.audit.metadata response_key };
}

-- The match on the instruction: what it becomes, and what the run becomes.
unfoldable pub enrich : Timestamp → RunId → Run → Kernel → Instruction → Instruction × Run
unfolding enrich_agent final_context
enrich now id run k (run_agent_with agent context) =
    (run_agent_with agent (enrich_agent now id run k context), forget_response run)
enrich now id run k (terminate_with_context reason message context) = (
  terminate_with_context reason message
      (record context { agent_context = some (final_context now run) }),
  run,
)
enrich now id run k (wait_interrupt i) = (wait_interrupt i, run)

abbrev pub attach_decision : Option RoutingDecision → Instruction → Instruction
attach_decision none i = i
attach_decision (some d) (run_agent_with agent context) =
    run_agent_with agent (record context { last_routing_decision = some d })
attach_decision (some d) (terminate_with_context reason message context) =
    terminate_with_context reason message (record context { last_routing_decision = some d })
attach_decision (some d) (wait_interrupt i) = wait_interrupt i

-- `get_next_instruction` from the orchestrator's answer on.
unfoldable pub deliver :
    Timestamp → RunId → Run → Kernel → Result Instruction → Result Instruction × Kernel
unfolding enrich take_last_routing_decision
deliver now id run k (err e) = (err e, put_run id run k)
deliver now id run k (ok i) =
    let (i', run') = enrich now id run k i in
    let (decision, o) = take_last_routing_decision id k.orchestrator in
    (ok (attach_decision decision i'), record (put_run id run' k) { orchestrator = o })

unfoldable pub get_next_instruction : Timestamp → RunId → Kernel → Result Instruction × Kernel
unfolding deliver
get_next_instruction now id k = elim (Dict.get k.runs id) [
  | none ↦ (err (not_found (text "Run not found for run_id: " ∷ text id ∷ [])), k)
  | some run ↦
      let (r, run', o) = Orchestrator.get_next_instruction now id run k.orchestrator in
      deliver now id run' (record k { orchestrator = o }) r
]

-- The loop over `metrics.tool_results`.
pub record_tools : Timestamp → List ToolCallResult → ToolHealthTracker → ToolHealthTracker
record_tools now [] h = h
record_tools now (t ∷ ts) h =
    record_tools now ts (record_execution now t.name t.success t.latency_ms t.error_type h)

unfoldable pub record_user_usage : UserId → ℤ → ℤ → ℤ → ℤ → Kernel → Kernel
unfolding record_usage
record_user_usage user llm_calls tool_calls tokens_in tokens_out k = record k {
  resources = record_usage user llm_calls tool_calls tokens_in tokens_out k.resources;
}

-- The end of `process_agent_result`: the user of the run's record is charged.
unfoldable pub charge_user : RunId → AgentExecutionMetrics → Kernel → Kernel
charge_user id metrics k = elim (Lifecycle.get id k.lifecycle) [
  | none ↦ k
  | some r ↦
      record_user_usage r.user_id metrics.llm_calls metrics.tool_calls
        (unwrap_or (pos 0) metrics.tokens_in) (unwrap_or (pos 0) metrics.tokens_out) k
]

-- `process_agent_result` once the orchestrator has taken the report: an error ends it, and else the
-- processing record is added and the user is charged.
unfoldable pub finish_report :
    Timestamp
    → RunId
    → String
    → AgentExecutionMetrics
    → Bool
    → String
    → Run
    → Kernel
    → Result (Unit {0})
    → Result (Unit {0}) × Kernel
unfolding processing_record charge_user
finish_report now id agent metrics success error_message run k (err e) = (err e, put_run id run k)
finish_report now id agent metrics success error_message run k (ok _) =
    let done =
      add_processing_record (processing_record now agent metrics success error_message run) run in
    (ok tt, charge_user id metrics (put_run id done k))

module _ (response_value : InterruptResponse → Value) where
  -- `process_agent_result` on a run that is known.
  unfoldable pub process_known :
      Timestamp
      → RunId
      → Run
      → String
      → Value
      → Option (Dict Value)
      → AgentExecutionMetrics
      → Bool
      → String
      → Bool
      → Kernel
      → Result (Unit {0}) × Kernel
  unfolding take_output finish_report
  process_known now id run agent output updates metrics success error_message break_loop k =
      let schema = unwrap_or [] (get_state_schema id k.orchestrator) in
      let output_key = unwrap_or agent (get_stage_output_key id agent k.orchestrator) in
      let taken = take_output schema output_key agent output updates success error_message run in
      let (r, run', o) =
        report_agent_result response_value now id metrics taken (not success) break_loop
          k.orchestrator in
      finish_report now id agent metrics success error_message run' (record k { orchestrator = o })
        r

  unfoldable pub process_agent_result :
      Timestamp
      → RunId
      → String
      → Value
      → Option (Dict Value)
      → AgentExecutionMetrics
      → Bool
      → String
      → Bool
      → Kernel
      → Result (Unit {0}) × Kernel
  unfolding process_known record_tools
  process_agent_result now id agent output updates metrics success error_message break_loop k =
      let k' = record k { health = record_tools now metrics.tool_results k.health } in
      elim (Dict.get k'.runs id) [
        | none ↦ (err (not_found (text "Run not found: " ∷ text id ∷ [])), k')
        | some run ↦
            process_known now id run agent output updates metrics success error_message break_loop
              k'
      ]
