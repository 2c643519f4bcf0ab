-- ===== src/Kernel/Protocol.antt =====
-- The instructions that the kernel hands to a worker (src/kernel/protocol.rs, and
-- src/agent/metrics.rs for what a worker reports back).
use jeeves_core.Prelude.{ℕ, String, Bool, Option, none, some, List}
use jeeves_core.Prelude.Int.{ℤ}
use jeeves_core.Json.{Value}
use jeeves_core.Types.{RunId, StageName, Message}
use jeeves_core.Workflow.{ContextOverflow, RetryPolicy}
use jeeves_core.Run.{FlowInterrupt, TerminalReason}
use jeeves_core.Kernel.Routing.{RoutingDecision}

pub record AgentDispatchContext : Type 0 where
  pub agent_context : Option Value
  pub response_format : Option Value
  pub max_context_tokens : Option ℤ
  pub context_overflow : Option ContextOverflow
  pub interrupt_response : Option Value
  pub timeout_seconds : Option ℕ
  pub retry_policy : Option RetryPolicy
  pub last_routing_decision : Option RoutingDecision

-- `AgentDispatchContext::default()`.
abbrev pub default_context : AgentDispatchContext
default_context = record {
  agent_context = none;
  response_format = none;
  max_context_tokens = none;
  context_overflow = none;
  interrupt_response = none;
  timeout_seconds = none;
  retry_policy = none;
  last_routing_decision = none;
}

pub data Instruction : Type 0 where
  run_agent_with : String → AgentDispatchContext → Instruction
  terminate_with_context : TerminalReason → Option Message → AgentDispatchContext → Instruction
  wait_interrupt : Option FlowInterrupt → Instruction

abbrev pub terminate : TerminalReason → Message → Instruction
terminate reason message = terminate_with_context reason (some message) default_context

abbrev pub terminate_completed : Instruction
terminate_completed = terminate_with_context TerminalReason.completed none default_context

abbrev pub run_agent : String → Instruction
run_agent name = run_agent_with name default_context

pub record RunSnapshot : Type 0 where
  pub run_id : RunId
  pub current_stage : StageName
  pub stage_order : List StageName
  pub run : Value
  pub terminated : Bool
  pub terminal_reason : Option TerminalReason

pub record ToolCallResult : Type 0 where
  pub name : String
  pub success : Bool
  pub latency_ms : ℕ
  pub error_type : Option String

pub record AgentExecutionMetrics : Type 0 where
  pub llm_calls : ℤ
  pub tool_calls : ℤ
  pub tokens_in : Option ℤ
  pub tokens_out : Option ℤ
  pub duration_ms : ℤ
  pub tool_results : List ToolCallResult
