-- ===== src/Agent/Providers/Building.antt =====
-- The requests to the genai crate (src/agent/llm/genai_provider.rs, `build_options` and
-- `build_request`).
use Prim.Native.Nat.{◌%◌}
use mathlib.Core.List.{◌++◌ as append}
use jeeves_core.Prelude.{
  ℕ, ◌-◌, ◌^◌, String, true, false, Option, none, some, unwrap_or, and_then, List, [], ◌∷◌, map,
  ◌==◌, if◌then◌else◌,
}
use jeeves_core.Prelude.Int.{ℤ, pos, negsuc}
use jeeves_core.Json.{Value, get_field}
use jeeves_core.Agent.Messages.{ToolCall, ChatMessage, ChatRequest, as_text_lossy, is_empty_content}
use jeeves_core.Agent.Providers.{GenaiToolCall, Crate}

-- The struct that `build_request` makes of a tool call.
unfoldable pub to_genai_call : ToolCall → GenaiToolCall
to_genai_call tc = record {
  call_id = tc.id;
  fn_name = tc.name;
  fn_arguments = tc.arguments;
  thought_signatures = none;
}

-- `max as u32`, which wraps.
unfoldable pub as_u32 : ℤ → ℕ
as_u32 (pos n) = n % 2 ^ 32
as_u32 (negsuc n) = (2 ^ 32 - 1) - n % 2 ^ 32

-- `Value::get` and `Value::as_str`.
abbrev pub field_of : String → Value → Option Value
field_of k (Value.object fs) = get_field fs k
field_of k v = none

abbrev pub as_str : Value → Option String
as_str (Value.string s) = some s
as_str v = none

module _ {Message Tool Options Request : Type 0} (g : Crate Message Tool Options Request) where
  unfoldable pub build_options : ChatRequest → Options
  unfolding as_u32
  build_options req =
      let captured =
        g.with_capture_tool_calls true
          (g.with_capture_content true (g.with_capture_usage true g.default_options)) in
      let tempered : Options = elim req.temperature [
        | none ↦ captured
        | some temp ↦ g.with_temperature temp captured
      ] in
      let bounded : Options = elim req.max_tokens [
        | none ↦ tempered
        | some max ↦ g.with_max_tokens (as_u32 max) tempered
      ] in
      elim req.response_format [
        | none ↦ bounded
        | some schema ↦ g.with_json_spec "agent_output" schema bounded
      ]

  -- The branch of an assistant's message.
  unfoldable pub assistant_message : ChatMessage → Message
  unfolding to_genai_call as_text_lossy is_empty_content
  assistant_message msg = elim msg.tool_calls [
    | none ↦ g.assistant (as_text_lossy msg.content)
    | some tcs ↦
        let m = g.assistant_tool_calls_with_thoughts (map to_genai_call tcs) [] in
        if is_empty_content msg.content then m else g.prepend_text (as_text_lossy msg.content) m
  ]

  -- The branches that push a message, by its role.
  unfoldable pub to_message : ChatMessage → Message
  unfolding assistant_message
  to_message msg =
      if msg.role == "user"
      then g.user (as_text_lossy msg.content)
      else if msg.role == "assistant"
      then assistant_message msg
      else if msg.role == "tool"
      then g.tool_response (unwrap_or "" msg.tool_call_id) (as_text_lossy msg.content)
      else g.user (as_text_lossy msg.content)

  -- The loop over the messages, with the system's text and the messages so far.
  unfoldable pub add_messages :
      List ChatMessage → Option String → List Message → Option String × List Message
  unfolding to_message
  add_messages [] system_msg messages = (system_msg, messages)
  add_messages (msg ∷ msgs) system_msg messages = elim (msg.role == "system") [
    | true ↦ add_messages msgs (some (as_text_lossy msg.content)) messages
    | false ↦ add_messages msgs system_msg (append messages (to_message msg ∷ []))
  ]

  unfoldable pub to_tool : Value → Option Tool
  to_tool t = and_then (field_of "function" t) (λ func.
      and_then (and_then (field_of "name" func) as_str) (λ name.
        let tool = g.new_tool name in
        let described : Tool = elim (and_then (field_of "description" func) as_str) [
          | none ↦ tool
          | some desc ↦ g.with_description desc tool
        ] in
        elim (field_of "parameters" func) [
          | none ↦ some described
          | some params ↦ some (g.with_schema params described)
        ]))

  unfoldable pub to_tools : List Value → List Tool
  unfolding to_tool
  to_tools [] = []
  to_tools (t ∷ ts) = elim (to_tool t) [ none ↦ to_tools ts | some tool ↦ tool ∷ to_tools ts ]

  unfoldable pub add_tools : List Tool → Request → Request
  add_tools [] r = r
  add_tools (t ∷ ts) r = g.with_tools (t ∷ ts) r

  unfoldable pub build_request : ChatRequest → Request
  unfolding add_messages to_tools add_tools
  build_request req =
      let (system_msg, messages) = add_messages req.messages none [] in
      let plain_req = g.from_messages messages in
      let genai_req : Request = elim system_msg [
        | none ↦ plain_req
        | some sys ↦ g.with_system sys plain_req
      ] in
      elim req.tools [ none ↦ genai_req | some tools ↦ add_tools (to_tools tools) genai_req ]
