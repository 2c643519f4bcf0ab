-- ===== src/Agent/Calls.antt =====
-- The calls of tools in a round of the tool loop (src/agent/mod.rs, `LlmAgent::process`).
use Prim.Native.String.{◌++◌}
use mathlib.Core.List.{◌++◌ as append}
use jeeves_core.Prelude.{ℕ, String, true, false, Option, none, some, List, [], ◌∷◌, map, length}
use jeeves_core.Prelude.Int.{pos, add_i32}
use jeeves_core.Json.{Value, string, object, end, field}
use jeeves_core.Types.{Result, ok, err}
use jeeves_core.Run.Events.{RunEvent}
use jeeves_core.Kernel.Protocol.{ToolCallResult}
use jeeves_core.Tools.Executor
use jeeves_core.Tools.Executor.{ContentPart, ToolOutput, ConfirmationRequest}
use jeeves_core.Tools.Registry.{ToolRegistry, execute_for}
use jeeves_core.Agent.{
  AgentOutput, AgentContext, HookDecision, continue, replace, block, LlmAgentHook, Moment, asks,
  emit, confirmation_interrupt,
}
use jeeves_core.Agent.Messages
use jeeves_core.Agent.Messages.{
  MessageContent, ToolCall, ChatMessage, ChatRequest, ChatResponse, StreamChunk, collect_stream,
  deltas,
}
use jeeves_core.Agent.Loop.{
  LlmAgent, Environment, Loop, Flow, and_next, push_message, send, metrics_of, next, return,
}

-- The first decision that is not `Continue`.
unfoldable pub before_tool : List LlmAgentHook → ToolCall → HookDecision
before_tool [] tc = continue
before_tool (h ∷ hs) tc =
    let rest = before_tool hs tc in
    elim (h.before_tool_call tc) [
      | continue ↦ rest
      | replace o ↦ replace o
      | block reason ↦ block reason
    ]

unfoldable pub after_tool : List LlmAgentHook → ToolCall → ToolOutput → ToolOutput
after_tool [] tc o = o
after_tool (h ∷ hs) tc o = after_tool hs tc (h.after_tool_call tc o)

resolve_part : Option (String → String → Option (List ℕ)) → ContentPart → ContentPart
resolve_part resolver (ContentPart.text s) = ContentPart.text s
resolve_part resolver (ContentPart.blob kind bytes) = ContentPart.blob kind bytes
resolve_part none (ContentPart.ref kind id) =
    ContentPart.text ("[content ref: " ++ id ++ " (" ++ kind ++ ")]")
resolve_part (some resolve) (ContentPart.ref kind id) = elim (resolve id kind) [
  | some bytes ↦ ContentPart.blob kind bytes
  | none ↦ ContentPart.text ("[content ref: " ++ id ++ " (" ++ kind ++ ")]")
]

-- `resolve_content_parts`.
unfoldable pub resolve_content_parts :
    Option (String → String → Option (List ℕ)) → List ContentPart → List ContentPart
unfolding resolve_part
resolve_content_parts resolver parts = map (resolve_part resolver) parts

-- The content of the message that answers a call: the text, and the parts if there are any.
unfoldable pub answer_content : Environment → ToolOutput → MessageContent
unfolding resolve_content_parts
answer_content env o = elim o.content [
  | [] ↦ MessageContent.text (env.texts.json o.data_value)
  | p ∷ ps ↦
      MessageContent.parts (
        ContentPart.text (env.texts.json o.data_value)
        ∷ resolve_content_parts env.resolver (p ∷ ps))
]

error_value : String → Value
error_value message = object (field "error" (string message) end)

-- The outcome of a call: the text of the result, the content of the message, and the error.
pub record Outcome : Type 0 where
  pub result_text : String
  pub content : MessageContent
  pub error_type : Option String

unfoldable pub outcome_ok : Environment → List LlmAgentHook → ToolCall → ToolOutput → Outcome
unfolding after_tool answer_content
outcome_ok env hooks tc o =
    let seen = after_tool hooks tc o in
    record {
      result_text = env.texts.json seen.data_value;
      content = answer_content env seen;
      error_type = none;
    }

unfoldable pub outcome_of : Environment → List LlmAgentHook → ToolCall → Result ToolOutput → Outcome
unfolding outcome_ok error_value
outcome_of env hooks tc (ok o) = outcome_ok env hooks tc o
outcome_of env hooks tc (err e) =
    let text = env.texts.json (error_value (env.texts.error e)) in
    record {
      result_text = text;
      content = MessageContent.text text;
      error_type = some (env.texts.error e);
    }

blocked : String → ToolOutput
blocked reason =
    Executor.json
      (object (field "error" (string "tool_call_blocked") (field "reason" (string reason) end)))

-- The call itself, or what a hook puts in its place.
unfoldable pub perform :
    Environment
    → LlmAgent
    → Moment
    → ToolCall
    → HookDecision
    → ToolRegistry
    → Outcome × ToolRegistry
unfolding outcome_of blocked execute_for
perform env a at tc (replace o) tools = (outcome_ok env a.hooks tc o, tools)
perform env a at tc (block reason) tools = (outcome_ok env a.hooks tc (blocked reason), tools)
perform env a at tc continue tools =
    let (result, tools') =
      execute_for at.now at.finished at.elapsed_ms a.agent_name tc.name tc.arguments tools in
    (outcome_of env a.hooks tc result, tools')

-- The end of a call's turn: its result, its event and its message.
unfoldable pub settle : AgentContext → Moment → ToolCall → Outcome → Loop → Loop
settle ctx at tc o s =
    let result : ToolCallResult = record {
      name = tc.name;
      success = elim o.error_type [ none ↦ true | some e ↦ false ];
      latency_ms = at.elapsed_ms;
      error_type = o.error_type;
    } in
    push_message (Messages.tool_result tc.id o.content) (
      send (emit ctx (RunEvent.tool_result tc.id o.result_text ctx.stage_name ctx.workflow_name))
        (record s { tool_results = append s.tool_results (result ∷ []) }))

-- The output that suspends the agent until a call is confirmed.
unfoldable pub awaiting : Environment → Moment → ToolCall → ConfirmationRequest → Loop → AgentOutput
unfolding confirmation_interrupt
awaiting env at tc c s = record {
  output = object (
      field "status" (string "awaiting_confirmation")
        (field "message" (string c.message) (field "tool" (string tc.name) end)));
  metrics = metrics_of env s;
  success = true;
  error_message = "";
  interrupt_request = some (confirmation_interrupt at.interrupt_id at.now c);
}

-- The turn of one call, given the question that stands in its way.
unfoldable pub turn :
    Environment
    → LlmAgent
    → AgentContext
    → ToolCall
    → Moment
    → Loop
    → Option ConfirmationRequest
    → Flow
unfolding awaiting before_tool perform settle
turn env a ctx tc at s (some c) = return (awaiting env at tc c s) s
turn env a ctx tc at s none =
    let started =
      send (emit ctx (RunEvent.tool_call_start tc.id tc.name ctx.stage_name ctx.workflow_name)) s in
    let (o, tools) = perform env a at tc (before_tool a.hooks tc) started.tools in
    next (settle ctx at tc o (record started { tools = tools }))

unfoldable pub call_tool : Environment → LlmAgent → AgentContext → ToolCall → Loop → Flow
unfolding asks turn
call_tool env a ctx tc s =
    turn env a ctx tc (env.moment (length s.tool_results))
      (record s { tool_calls = add_i32 s.tool_calls (pos 1) })
      (asks ctx s.tools tc.name tc.arguments)

unfoldable pub call_tools : Environment → LlmAgent → AgentContext → List ToolCall → Loop → Flow
unfolding call_tool
call_tools env a ctx [] s = next s
call_tools env a ctx (tc ∷ tcs) s =
    and_next (call_tool env a ctx tc s) (λ s'. call_tools env a ctx tcs s')
