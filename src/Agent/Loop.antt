-- ===== src/Agent/Loop.antt =====
-- The state of the tool loop and what it does about a long conversation (src/agent/mod.rs,
-- `LlmAgent::process`). The provider, the resolver of content, the clock and the identifiers are the
-- environment: `chat_stream n` is the provider's answer in round n, and `moment n` what the clock
-- gives at tool call n.
use Prim.Native.String.{◌++◌}
use mathlib.Core.List.{◌++◌ as append}
use jeeves_core.Prelude.{
  ℕ, String, false, Option, none, some, unwrap_or, List, [], ◌∷◌, if◌then◌else◌,
}
use jeeves_core.Prelude.Int.{ℤ, pos, ltb_ℤ}
use jeeves_core.Json.{string, integer, object, end, field}
use jeeves_core.Types.{F64, AgentName, Result}
use jeeves_core.Workflow.{ContextOverflow}
use jeeves_core.Run.Events.{RunEvent}
use jeeves_core.Kernel.Protocol.{AgentExecutionMetrics, ToolCallResult}
use jeeves_core.Tools.Registry.{ToolRegistry}
use jeeves_core.Agent.{AgentOutput, AgentContext, Texts, LlmAgentHook, Moment}
use jeeves_core.Agent.Messages.{ChatMessage, ChatRequest, ChatResponse, StreamChunk}
use jeeves_core.Agent.Messages.Window.{estimate, truncate_oldest}

pub record LlmAgent : Type 0 where
  pub agent_name : AgentName
  pub temperature : Option F64
  pub max_tokens : Option ℤ
  pub model : Option String
  pub max_tool_rounds : ℕ
  pub hooks : List LlmAgentHook

pub record Environment : Type 0 where
  pub chat_stream : ℕ → ChatRequest → Result (List (Result StreamChunk))
  pub resolver : Option (String → String → Option (List ℕ))
  pub moment : ℕ → Moment
  pub duration_ms : ℤ
  pub texts : Texts

-- The variables of the loop, with the registry that the calls change and the events that are sent.
pub record Loop : Type 0 where
  pub messages : List ChatMessage
  pub llm_calls : ℤ
  pub tool_calls : ℤ
  pub tokens_in : ℤ
  pub tokens_out : ℤ
  pub last_response : Option ChatResponse
  pub tool_results : List ToolCallResult
  pub tools : ToolRegistry
  pub events : List RunEvent

-- How a part of the loop's body ends: it goes on, breaks the loop, or returns from `process`.
pub data Flow : Type 0 where
  next : Loop → Flow
  leave : Loop → Flow
  return : AgentOutput → Loop → Flow

-- What follows where the loop's body goes on.
abbrev pub and_next : Flow → (Loop → Flow) → Flow
and_next (next s) rest = rest s
and_next (leave s) rest = leave s
and_next (return o s) rest = return o s

abbrev pub push_message : ChatMessage → Loop → Loop
push_message m s = record s { messages = append s.messages (m ∷ []) }

abbrev pub send : List RunEvent → Loop → Loop
send es s = record s { events = append s.events es }

-- The metrics as they stand when `process` returns.
abbrev pub metrics_of : Environment → Loop → AgentExecutionMetrics
metrics_of env s = record {
  llm_calls = s.llm_calls;
  tool_calls = s.tool_calls;
  tokens_in = some s.tokens_in;
  tokens_out = some s.tokens_out;
  duration_ms = env.duration_ms;
  tool_results = s.tool_results;
}

unfoldable pub overflow_output : Environment → ℤ → Loop → AgentOutput
overflow_output env limit s =
    let size = pos (estimate s.messages) in
    record {
      output = object (
          field "error" (string "context_overflow") (
            field "estimated_tokens" (integer size)
              (field "max_context_tokens" (integer limit) end)));
      metrics = metrics_of env s;
      success = false;
      error_message =
          "Context overflow: estimated "
          ++ env.texts.decimal size
          ++ " tokens exceeds limit of "
          ++ env.texts.decimal limit;
      interrupt_request = none;
    }

-- What is done about a conversation that is too long.
unfoldable pub overflow : Environment → ContextOverflow → ℤ → Loop → Flow
unfolding overflow_output truncate_oldest
overflow env ContextOverflow.truncate_oldest limit s =
    next (record s { messages = truncate_oldest limit s.messages })
overflow env ContextOverflow.fail limit s = return (overflow_output env limit s) s

-- The check at the top of a round.
unfoldable pub check_window : Environment → AgentContext → Loop → Flow
unfolding overflow
check_window env ctx s = elim ctx.max_context_tokens [
  | none ↦ next s
  | some limit ↦
      if ltb_ℤ limit (pos (estimate s.messages))
      then overflow env (unwrap_or ContextOverflow.fail ctx.context_overflow) limit s
      else next s
]
