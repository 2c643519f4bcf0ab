-- ===== src/Agent/Providers/Mocks.antt =====
-- The providers for tests (src/agent/llm/mock.rs).
use jeeves_core.Prelude.{String, some, List, [], ◌∷◌}
use jeeves_core.Prelude.Int.{pos}
use jeeves_core.Types.{Result, Error, ok, err, plain}
use jeeves_core.Agent.Messages.{ChatRequest, ChatResponse, StreamChunk}

pub record MockLlmProvider : Type 0 where
  pub response_content : String

abbrev pub new : String → MockLlmProvider
new content = record { response_content = content }

abbrev pub default_mock : MockLlmProvider
default_mock = new "{}"

unfoldable pub chat : MockLlmProvider → ChatRequest → Result ChatResponse
chat p req = ok (record {
  content = some p.response_content;
  tool_calls = [];
  usage = record { prompt_tokens = pos 10; completion_tokens = pos 5; total_tokens = pos 15 };
  model = "mock";
})

-- The chunk that both providers make of a response.
unfoldable pub chunk_of : ChatResponse → StreamChunk
chunk_of resp = record {
  delta_content = resp.content;
  tool_calls = resp.tool_calls;
  usage = some resp.usage;
}

-- A stream of one chunk.
unfoldable pub stream_once : Result ChatResponse → Result (List (Result StreamChunk))
unfolding chunk_of
stream_once (err e) = err e
stream_once (ok resp) = ok (ok (chunk_of resp) ∷ [])

unfoldable pub chat_stream : MockLlmProvider → ChatRequest → Result (List (Result StreamChunk))
unfolding chat stream_once
chat_stream p req = stream_once (chat p req)

-- The responses of a `SequentialMockLlmProvider` that are left.
pub record SequentialMockLlmProvider : Type 0 where
  pub responses : List ChatResponse

unfoldable pub next_response :
    SequentialMockLlmProvider → Result ChatResponse × SequentialMockLlmProvider
next_response p = elim p.responses [
  | [] ↦ (err (Error.internal (plain "SequentialMockLlmProvider: no more responses")), p)
  | resp ∷ rest ↦ (ok resp, record { responses = rest })
]

unfoldable pub chat_next :
    ChatRequest → SequentialMockLlmProvider → Result ChatResponse × SequentialMockLlmProvider
unfolding next_response
chat_next req p = next_response p

unfoldable pub stream_next :
    ChatRequest
    → SequentialMockLlmProvider
    → Result (List (Result StreamChunk)) × SequentialMockLlmProvider
unfolding next_response stream_once
stream_next req p = let (resp, after) = next_response p in (stream_once resp, after)
