-- ===== src/Agent/Providers/Streams.antt =====
-- What is gathered of a provider's stream (src/agent/llm/genai_provider.rs for the chunks,
-- src/agent/llm/mod.rs for gathering them).
use Prim.Native.String.{◌++◌}
use text.Mathlib.TextLemmas.{append_assoc, append-nil, nil-append}
use jeeves_core.Prelude.{
  String, ◌≡◌, refl, sym, ap, ◌∙◌, Option, none, some, unwrap_or, List, [], ◌∷◌, if◌then◌else◌,
}
use jeeves_core.Prelude.Int.{pos}
use jeeves_core.Types.{Result, Error, Piece, ok, err, is_empty}
use jeeves_core.Agent.Messages.{
  ToolCall, ChatResponse, TokenUsage, Gathered, no_usage, gather_chunk, merge_tool_call_deltas,
  collect, collect_stream,
}
use jeeves_core.Agent.Messages.Merging.{Merged, merge-Merged}
use jeeves_core.Agent.Providers.{
  GenaiResult, GenaiError, GenaiUsage, display, ChatStreamEvent, answered, failed, chunk,
  tool_call_chunk, finished, other_event,
}
use jeeves_core.Agent.Providers.Replies.{convert_usage, convert_tool_call, map_event, map_events}

abbrev pub Events : Type 0
Events = List (GenaiResult ChatStreamEvent)

-- The first failure of a stream.
abbrev pub first_failure : Events → Option GenaiError
first_failure [] = none
first_failure (failed e ∷ es) = some e
first_failure (answered event ∷ es) = first_failure es

-- The texts of a stream, joined.
abbrev pub texts : Events → String
texts [] = ""
texts (answered (chunk s) ∷ es) = s ++ texts es
texts (event ∷ es) = texts es

-- The parts of tool calls in a stream.
abbrev pub calls : Events → List ToolCall
calls [] = []
calls (answered (tool_call_chunk tc) ∷ es) =
    record { id = tc.call_id; name = tc.fn_name; arguments = tc.fn_arguments } ∷ calls es
calls (event ∷ es) = calls es

-- The counts of a usage, with nothing counted where nothing is reported.
abbrev pub counted : GenaiUsage → TokenUsage
counted u = record {
  prompt_tokens = unwrap_or (pos 0) u.prompt_tokens;
  completion_tokens = unwrap_or (pos 0) u.completion_tokens;
  total_tokens = unwrap_or (pos 0) u.total_tokens;
}

-- The usage that was reported last, and before the stream.
abbrev pub last_usage : TokenUsage → Events → TokenUsage
last_usage u [] = u
last_usage u (answered (finished (some usage)) ∷ es) = last_usage (counted usage) es
last_usage u (event ∷ es) = last_usage u es

abbrev gathered : Gathered → Events → Gathered
gathered g es = record {
  content = g.content ++ texts es;
  tool_calls = merge_tool_call_deltas g.tool_calls (calls es);
  usage = last_usage g.usage es;
}

-- The response to what was gathered.
abbrev pub response : Gathered → ChatResponse
response g = record {
  content = if is_empty g.content then none else some g.content;
  tool_calls = g.tool_calls;
  usage = g.usage;
  model = "";
}

-- The first failure, or the response.
abbrev pub answer : Gathered → Option GenaiError → Result ChatResponse
answer g (some e) =
    err (Error.internal (Piece.text "LLM stream error: " ∷ Piece.text (display e) ∷ []))
answer g none = ok (response g)

collect-map_events :
    (es : Events) (g : Gathered)
    → collect (map_events es) g ≡ answer (gathered g es) (first_failure es)
unfolding collect gather_chunk map_events map_event merge_tool_call_deltas convert_usage
    convert_tool_call
collect-map_events [] g =
    ap (λ c. ok (response (record g { content = c }))) (sym (append-nil g.content))
collect-map_events (failed e ∷ es) g = refl
collect-map_events (answered (chunk s) ∷ es) g =
    let full = gathered g (answered (chunk s) ∷ es) in
    collect-map_events es (record g { content = g.content ++ s })
    ∙ ap (λ c. answer (record full { content = c }) (first_failure es))
        (append_assoc g.content s (texts es))
collect-map_events (answered (tool_call_chunk tc) ∷ es) g =
    collect-map_events es
      (record g { tool_calls = merge_tool_call_deltas g.tool_calls (convert_tool_call tc ∷ []) })
collect-map_events (answered (finished none) ∷ es) g = collect-map_events es g
collect-map_events (answered (finished (some usage)) ∷ es) g =
    collect-map_events es (record g { usage = convert_usage usage })
collect-map_events (answered other_event ∷ es) g = collect-map_events es g

-- What is gathered of a stream of the client is its first failure, as an error with its message, or
-- a response with the texts of all its chunks in their order and with the usage that was reported
-- last. Its tool calls are the parts in the stream, merged by their identifiers: each identifier has
-- one call, at the place of its first part, with the first name that is not empty and with the
-- arguments joined where they are texts, and replaced else; a part without an identifier is a call
-- of its own.
pub collect_stream-map_events :
    (es : Events)
    → (merged : List ToolCall) × Merged (calls es) merged
      × (collect_stream (map_events es)
          ≡ answer
              (record {
                content = texts es;
                tool_calls = merged;
                usage =
                    last_usage
                      (record {
                        prompt_tokens = pos 0;
                        completion_tokens = pos 0;
                        total_tokens = pos 0;
                      })
                      es;
              })
              (first_failure es))
unfolding collect_stream
collect_stream-map_events es =
    let g : Gathered = record { content = ""; tool_calls = []; usage = no_usage } in
    (
      merge_tool_call_deltas [] (calls es),
      merge-Merged (calls es),
      collect-map_events es g
          ∙ ap (λ c. answer (record (gathered g es) { content = c }) (first_failure es))
              (nil-append (texts es)),
    )
