-- ===== src/Run/Events.antt =====
-- The events that a run streams to its consumer (src/run/events.rs). A pipeline's name is a text.
use jeeves_core.Prelude.{String, Bool, Option, List}
use jeeves_core.Prelude.Int.{ℤ}
use jeeves_core.Json.{Value}
use jeeves_core.Kernel.Routing.{RoutingReason}
use jeeves_core.Kernel.Protocol.{ToolCallResult}

pub record StageMetrics : Type 0 where
  pub duration_ms : ℤ
  pub llm_calls : ℤ
  pub tool_calls : ℤ
  pub tokens_in : ℤ
  pub tokens_out : ℤ
  pub tool_results : List ToolCallResult
  pub success : Bool

pub record AggregateMetrics : Type 0 where
  pub total_duration_ms : ℤ
  pub total_llm_calls : ℤ
  pub total_tool_calls : ℤ
  pub total_tokens_in : ℤ
  pub total_tokens_out : ℤ
  pub stages_executed : List String

-- The fields of each event stand in the order of the source; the last is the pipeline, but for
-- `stage_completed` and `done`, which end with their metrics.
pub data RunEvent : Type 0 where
  stage_started : String → String → RunEvent
  delta : String → Option String → String → RunEvent
  tool_call_start : String → String → Option String → String → RunEvent
  tool_result : String → String → Option String → String → RunEvent
  stage_completed : String → String → Option StageMetrics → RunEvent
  done : String → Bool → Option String → Option Value → String → Option AggregateMetrics → RunEvent
  interrupt_pending : String → String → String → Option String → Option String → String → RunEvent
  failure : String → Option String → String → RunEvent
  routing_decision : String → Option String → RoutingReason → String → RunEvent

unfoldable pub event_type : RunEvent → String
event_type (stage_started s p) = "stage_started"
event_type (delta c s p) = "delta"
event_type (tool_call_start i n s p) = "tool_call_start"
event_type (tool_result i c s p) = "tool_result"
event_type (stage_completed s p m) = "stage_completed"
event_type (done r t w o p m) = "done"
event_type (interrupt_pending r i k q m p) = "interrupt_pending"
event_type (failure m s p) = "error"
event_type (routing_decision f t r p) = "routing_decision"
