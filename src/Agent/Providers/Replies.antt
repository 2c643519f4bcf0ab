-- ===== src/Agent/Providers/Replies.antt =====
-- What is made of the replies of the genai crate (src/agent/llm/genai_provider.rs).
use jeeves_core.Prelude.{Option, none, some, map_option, unwrap_or, List, [], ◌∷◌, map}
use jeeves_core.Prelude.Int.{pos}
use jeeves_core.Types.{Result, Error, Piece, ok, err}
use jeeves_core.Agent.Messages.{ToolCall, ChatResponse, StreamChunk, TokenUsage}
use jeeves_core.Agent.Providers.{
  GenaiToolCall, GenaiUsage, GenaiReply, GenaiError, GenaiResult, ChatStreamEvent, display,
  answered, failed, chunk, tool_call_chunk, finished, other_event,
}

unfoldable pub convert_usage : GenaiUsage → TokenUsage
convert_usage usage = record {
  prompt_tokens = unwrap_or (pos 0) usage.prompt_tokens;
  completion_tokens = unwrap_or (pos 0) usage.completion_tokens;
  total_tokens = unwrap_or (pos 0) usage.total_tokens;
}

unfoldable pub convert_tool_call : GenaiToolCall → ToolCall
convert_tool_call tc = record { id = tc.call_id; name = tc.fn_name; arguments = tc.fn_arguments }

-- What is returned of a reply.
unfoldable pub convert_reply : GenaiReply → ChatResponse
unfolding convert_usage convert_tool_call
convert_reply resp = record {
  content = resp.first_text;
  tool_calls = map convert_tool_call resp.tool_calls;
  usage = convert_usage resp.usage;
  model = resp.model_name;
}

abbrev pub llm_stream_error : GenaiError → Error
llm_stream_error e = Error.internal (Piece.text "LLM stream error: " ∷ Piece.text (display e) ∷ [])

-- The closure of `chat_stream` on an event.
unfoldable pub map_event : GenaiResult ChatStreamEvent → Option (Result StreamChunk)
unfolding convert_usage convert_tool_call
map_event (answered (chunk s)) =
    some (ok (record { delta_content = some s; tool_calls = []; usage = none }))
map_event (answered (tool_call_chunk tc)) =
    some
      (ok (record { delta_content = none; tool_calls = convert_tool_call tc ∷ []; usage = none }))
map_event (answered (finished captured)) = some (
    ok
      (record { delta_content = none; tool_calls = []; usage = map_option convert_usage captured }))
map_event (answered other_event) = none
map_event (failed e) =
    some (err (Error.internal (Piece.text "LLM stream error: " ∷ Piece.text (display e) ∷ [])))

unfoldable pub map_events : List (GenaiResult ChatStreamEvent) → List (Result StreamChunk)
unfolding map_event
map_events [] = []
map_events (e ∷ es) = elim (map_event e) [ none ↦ map_events es | some c ↦ c ∷ map_events es ]
