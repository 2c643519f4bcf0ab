-- ===== src/Agent/Providers/Calls.antt =====
-- The calls of the client, with their retries (src/agent/llm/genai_provider.rs, `chat` and
-- `chat_stream`).
use jeeves_core.Prelude.{
  ℕ, zero, suc, ◌+◌, ◌*◌, ◌^◌, String, Bool, true, false, ◌&&◌, ◌||◌, Option, none, some,
  map_option, unwrap_or, List, [], ◌∷◌, is_eq, ltb, if◌then◌else◌,
}
use jeeves_core.Prelude.Int.{pos}
use jeeves_core.Types.{Result, Error, Piece, ok, err, plain}
use jeeves_core.Agent.Messages.{ChatRequest, ChatResponse, StreamChunk}
use jeeves_core.Agent.Providers.{
  GenaiReply, GenaiError, GenaiResult, ChatStreamEvent, Crate, GenaiProvider, display,
  resolve_model, answered, failed, http_error, web_adapter_call, web_model_call, web_stream,
  other_error,
}
use jeeves_core.Agent.Providers.Building.{build_options, build_request}
use jeeves_core.Agent.Providers.Replies.{convert_reply, llm_stream_error, map_events}

abbrev pub max_retries : ℕ
max_retries = 3

abbrev pub initial_backoff_ms : ℕ
initial_backoff_ms = 500

-- The delays of the attempts that were followed by another, and what was returned.
pub record Attempted (T : Type 0) : Type 0 where
  pub slept : List ℕ
  pub outcome : Result T

abbrev pub backoff : ℕ → ℕ
backoff attempt = initial_backoff_ms * 2 ^ attempt

abbrev pub llm_error : GenaiError → Error
llm_error e = Error.internal (Piece.text "LLM error: " ∷ Piece.text (display e) ∷ [])

abbrev pub retries_error : Option GenaiError → Error
retries_error last_err = Error.internal (
    Piece.text "LLM error after "
    ∷ Piece.int (pos max_retries)
    ∷ Piece.text " retries: "
    ∷ Piece.text (unwrap_or "" (map_option display last_err))
    ∷ [])

module _ {Message Tool Options Request : Type 0} (g : Crate Message Tool Options Request) where
  unfoldable pub is_transient : GenaiError → Bool
  is_transient (http_error status s) = is_eq status 429 || g.is_server_error status
  is_transient (web_adapter_call s) = true
  is_transient (web_model_call s) = true
  is_transient (web_stream s) = true
  is_transient (other_error s) = false

  -- The loop of `chat`: how many attempts are left, the number of this one, the last error.
  unfoldable pub chat_attempts :
      (ℕ → GenaiResult GenaiReply) → ℕ → ℕ → Option GenaiError → Attempted ChatResponse
  unfolding is_transient convert_reply
  chat_attempts run zero attempt last_err = record {
    slept = [];
    outcome = err (retries_error last_err);
  }
  chat_attempts run (suc left) attempt last_err = elim (run attempt) [
    | answered resp ↦ record { slept = []; outcome = ok (convert_reply resp) }
    | failed e ↦
        let rest = chat_attempts run left (suc attempt) (some e) in
        if is_transient e && ltb (attempt + 1) max_retries
        then record { slept = backoff attempt ∷ rest.slept; outcome = rest.outcome }
        else record { slept = []; outcome = err (llm_error e) }
  ]

  unfoldable pub chat :
      (String → Request → Options → ℕ → GenaiResult GenaiReply)
      → GenaiProvider
      → ChatRequest
      → Attempted ChatResponse
  unfolding chat_attempts resolve_model build_options build_request
  chat exec_chat p req =
      chat_attempts (exec_chat (resolve_model g p req) (build_request g req) (build_options g req))
        max_retries 0 none

  -- The loop of `chat_stream`; `none` where it ends without a stream.
  unfoldable pub stream_attempts :
      (ℕ → GenaiResult (List (GenaiResult ChatStreamEvent)))
      → ℕ
      → ℕ
      → Attempted (Option (List (GenaiResult ChatStreamEvent)))
  unfolding is_transient
  stream_attempts run zero attempt = record { slept = []; outcome = ok none }
  stream_attempts run (suc left) attempt = elim (run attempt) [
    | answered resp ↦ record { slept = []; outcome = ok (some resp) }
    | failed e ↦
        let rest = stream_attempts run left (suc attempt) in
        if is_transient e && ltb (attempt + 1) max_retries
        then record { slept = backoff attempt ∷ rest.slept; outcome = rest.outcome }
        else record { slept = []; outcome = err (llm_stream_error e) }
  ]

  -- What follows the loop.
  unfoldable pub open_stream :
      Result (Option (List (GenaiResult ChatStreamEvent))) → Result (List (Result StreamChunk))
  unfolding map_events
  open_stream (err e) = err e
  open_stream (ok none) = err (Error.internal (plain "LLM stream failed after retries"))
  open_stream (ok (some events)) = ok (map_events events)

  unfoldable pub chat_stream :
      (String → Request → Options → ℕ → GenaiResult (List (GenaiResult ChatStreamEvent)))
      → GenaiProvider
      → ChatRequest
      → Attempted (List (Result StreamChunk))
  unfolding stream_attempts resolve_model build_options build_request open_stream
  chat_stream exec_chat_stream p req =
      let tried =
        stream_attempts
          (exec_chat_stream (resolve_model g p req) (build_request g req) (build_options g req))
          max_retries 0 in
      record { slept = tried.slept; outcome = open_stream tried.outcome }
