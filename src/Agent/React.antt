-- ===== src/Agent/React.antt =====
-- The rounds of the tool loop of an agent with a language model (src/agent/mod.rs,
-- `LlmAgent::process`). The prompt's text is an argument.
pub mod Rounds
pub mod Answers
use Prim.Native.String.{◌++◌}
use mathlib.Core.List.{◌++◌ as append}
use jeeves_core.Prelude.{
  ℕ, zero, suc, String, Bool, true, false, Option, none, some, is_some, unwrap_or, map_option, List,
  [], ◌∷◌, map, length, if◌then◌else◌,
}
use jeeves_core.Prelude.Int.{ℤ, pos, ltb_ℤ, add_i32, add_i64}
use jeeves_core.Json.{Value, string, integer, object, end, field}
use jeeves_core.Types.{F64, AgentName, Error, Result, ok, err}
use jeeves_core.Workflow.{ContextOverflow}
use jeeves_core.Run.Events.{RunEvent}
use jeeves_core.Kernel.Protocol.{AgentExecutionMetrics, ToolCallResult}
use jeeves_core.Tools.Executor
use jeeves_core.Tools.Executor.{ContentPart, ToolOutput, ConfirmationRequest}
use jeeves_core.Tools.Registry.{ToolRegistry, execute_for}
use jeeves_core.Agent.{
  AgentOutput, AgentContext, Texts, HookDecision, continue, replace, block, LlmAgentHook, Moment,
  deterministic, asks, emit, confirmation_interrupt, build_tool_defs, build_output_value,
  make_error_output,
}
use jeeves_core.Agent.Messages
use jeeves_core.Agent.Messages.{
  MessageContent, ToolCall, ChatMessage, ChatRequest, ChatResponse, StreamChunk, collect_stream,
  deltas,
}
use jeeves_core.Agent.Messages.Window.{estimate, truncate_oldest}
use jeeves_core.Agent.Loop.{
  LlmAgent, Environment, Loop, Flow, and_next, push_message, send, metrics_of, overflow_output,
  overflow, check_window, next, leave, return,
}
use jeeves_core.Agent.Calls.{
  before_tool, after_tool, resolve_content_parts, answer_content, Outcome, outcome_ok, outcome_of,
  perform, settle, awaiting, turn, call_tool, call_tools,
}

unfoldable pub before_llm : List LlmAgentHook → List ChatMessage → List ChatMessage
before_llm [] ms = ms
before_llm (h ∷ hs) ms = before_llm hs (h.before_llm_call ms)

after_llm : List LlmAgentHook → ChatResponse → ChatResponse
after_llm [] r = r
after_llm (h ∷ hs) r = after_llm hs (h.after_llm_call r)

-- The request of a round.
unfoldable pub request_of : LlmAgent → AgentContext → List Value → List ChatMessage → ChatRequest
request_of a ctx tool_defs messages = record {
  messages = messages;
  temperature = a.temperature;
  max_tokens = a.max_tokens;
  model = a.model;
  tools = elim tool_defs [ [] ↦ none | d ∷ ds ↦ some (d ∷ ds) ];
  response_format = ctx.response_format;
}

-- The end of a round: without calls the loop is left, else they are made.
unfoldable pub take_calls :
    Environment → LlmAgent → AgentContext → ChatResponse → List ToolCall → Loop → Flow
unfolding call_tools
take_calls env a ctx resp [] s = leave (record s { last_response = some resp })
take_calls env a ctx resp (tc ∷ tcs) s =
    and_next
      (call_tools env a ctx (tc ∷ tcs) (
        push_message
          (Messages.assistant (MessageContent.text (unwrap_or "" resp.content)) (some (tc ∷ tcs)))
          s))
      (λ s'. next (record s' { last_response = some resp }))

-- The rest of a round, once the model has answered.
unfoldable pub take_response : Environment → LlmAgent → AgentContext → ChatResponse → Loop → Flow
unfolding take_calls
take_response env a ctx resp s = take_calls env a ctx resp resp.tool_calls (record s {
  llm_calls = add_i32 s.llm_calls (pos 1);
  tokens_in = add_i64 s.tokens_in resp.usage.prompt_tokens;
  tokens_out = add_i64 s.tokens_out resp.usage.completion_tokens;
})

-- `return Ok(make_error_output(e, start, total_llm_calls + 1))`.
unfoldable pub fail_model : Environment → Error → Loop → Flow
unfolding make_error_output
fail_model env e s =
    return (make_error_output env.texts e env.duration_ms (add_i32 s.llm_calls (pos 1))) s

-- What the stream gives.
unfoldable pub take_stream :
    Environment → LlmAgent → AgentContext → Result ChatResponse → Loop → Flow
unfolding after_llm take_response fail_model
take_stream env a ctx (err e) s = fail_model env e s
take_stream env a ctx (ok resp) s = take_response env a ctx (after_llm a.hooks resp) s

unfoldable pub open_stream :
    Environment → LlmAgent → AgentContext → Result (List (Result StreamChunk)) → Loop → Flow
unfolding take_stream fail_model collect_stream deltas
open_stream env a ctx (err e) s = fail_model env e s
open_stream env a ctx (ok chunks) s =
    take_stream env a ctx (collect_stream chunks)
      (send (if ctx.streaming then deltas ctx.stage_name ctx.workflow_name chunks else []) s)

-- The call of the model, and what follows.
unfoldable pub ask_model : Environment → LlmAgent → AgentContext → List Value → ℕ → Loop → Flow
unfolding before_llm request_of open_stream
ask_model env a ctx tool_defs n s =
    let messages = before_llm a.hooks s.messages in
    open_stream env a ctx (env.chat_stream n (request_of a ctx tool_defs messages))
      (record s { messages = messages })

-- One round.
unfoldable pub round : Environment → LlmAgent → AgentContext → List Value → ℕ → Loop → Flow
unfolding check_window ask_model
round env a ctx tool_defs n s =
    and_next (check_window env ctx s) (λ s'. ask_model env a ctx tool_defs n s')

-- What `process` returns after the loop.
unfoldable pub finish : Environment → Loop → AgentOutput
unfolding build_output_value
finish env s = record {
  output = elim s.last_response [
    | some resp ↦ build_output_value env.texts resp.content resp.tool_calls
    | none ↦ object end
  ];
  metrics = metrics_of env s;
  success = true;
  error_message = "";
  interrupt_request = none;
}

-- What a round that does not go on gives back.
abbrev pub ended : Environment → Flow → (Loop → AgentOutput × Loop) → AgentOutput × Loop
ended env (next s) rest = rest s
ended env (leave s) rest = (finish env s, s)
ended env (return o s) rest = (o, s)

-- The loop `for _round in 0..max_tool_rounds`, with `left` rounds to go from round n.
unfoldable pub rounds :
    Environment → LlmAgent → AgentContext → List Value → ℕ → ℕ → Loop → AgentOutput × Loop
unfolding round finish
rounds env a ctx tool_defs zero n s = (finish env s, s)
rounds env a ctx tool_defs (suc left) n s =
    ended env (round env a ctx tool_defs n s) (λ s'. rounds env a ctx tool_defs left (suc n) s')

abbrev pub start_loop : String → AgentContext → ToolRegistry → Loop
start_loop prompt_text ctx tools = record {
  messages =
      Messages.system (MessageContent.text prompt_text)
      ∷ Messages.user (MessageContent.text ctx.raw_input)
      ∷ [];
  llm_calls = pos 0;
  tool_calls = pos 0;
  tokens_in = pos 0;
  tokens_out = pos 0;
  last_response = none;
  tool_results = [];
  tools = tools;
  events = [];
}

unfoldable pub process :
    Environment → String → LlmAgent → ToolRegistry → AgentContext → AgentOutput × Loop
unfolding build_tool_defs rounds
process env prompt_text a tools ctx =
    rounds env a ctx (build_tool_defs tools) a.max_tool_rounds 0 (start_loop prompt_text ctx tools)
