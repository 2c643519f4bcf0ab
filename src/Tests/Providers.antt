-- ===== src/Tests/Providers.antt =====
-- A provider whose client is busy twice, and a stream of a few chunks.
use Prim.Native.String.{◌++◌}
use jeeves_core.Prelude.{
  map_option, ℕ, zero, suc, ◌<◌, String, ◌≡◌, refl, ◌⊎◌, ◌&&◌, none, some, [], ◌∷◌, leb, List,
}
use jeeves_core.Prelude.Int.{pos, negsuc}
use jeeves_core.Prelude.Dict.{Dict, get, insert}
use jeeves_core.Json.{Value}
use jeeves_core.Types.{ok}
use jeeves_core.Agent.Messages
use jeeves_core.Agent.Messages.{
  ChatRequest, ChatMessage, MessageContent, ToolCall, TokenUsage, no_usage, collect_stream,
  merge_tool_call_deltas, merge_delta, merge_call,
}
use jeeves_core.Agent.Providers.{
  target_of, Crate, GenaiReply, GenaiResult, GenaiProvider, answered, failed, chunk,
  tool_call_chunk, finished, other_event, http_error, new, resolve_model,
}
use jeeves_core.Agent.Providers.Building.{build_request, build_options, as_u32}
use jeeves_core.Agent.Providers.Calls.{chat}
use jeeves_core.Agent.Providers.Replies.{convert_reply, map_events}
use jeeves_core.Agent.Providers.Attempts.{reply, delays, IsPassing, chat_lem}
use jeeves_core.Agent.Messages.Merging.{Merged}
use jeeves_core.Agent.Providers.Streams.{
  Events, answer, texts, calls, last_usage, first_failure, collect_stream-map_events,
}

-- Messages, tools, options and requests as texts.
abbrev crate_texts : Crate String String String String
crate_texts = record {
  is_server_error = λ status. leb 500 status && leb status 599;
  to_lowercase = λ s. s;
  user = λ s. "user: " ++ s;
  assistant = λ s. "assistant: " ++ s;
  assistant_tool_calls_with_thoughts = λ tcs sigs. "calls";
  prepend_text = λ s m. s ++ m;
  tool_response = λ id s. id ++ s;
  new_tool = λ s. s;
  with_description = λ d t. t ++ d;
  with_schema = λ v t. t;
  default_options = "";
  with_capture_usage = λ b o. o;
  with_capture_content = λ b o. o;
  with_capture_tool_calls = λ b o. o;
  with_temperature = λ t o. o;
  with_max_tokens = λ n o. o;
  with_json_spec = λ name v o. o ++ name;
  from_messages = λ ms. "request";
  with_system = λ s r. r ++ s;
  with_tools = λ ts r. r;
}

abbrev hello : ChatRequest
hello = record {
  messages =
      Messages.system (MessageContent.text "Be brief.")
      ∷ Messages.user (MessageContent.text "Hello")
      ∷ [];
  temperature = none;
  max_tokens = none;
  model = some "FAST";
  tools = none;
  response_format = none;
}

abbrev environment : Dict String
environment = ("LLM_API_BASE", "http://host/v1") ∷ ("MODEL_FAST", "gpt-4o-mini") ∷ []

abbrev provider : GenaiProvider
provider = new crate_texts environment "gpt-4o"

provider_made : provider ≡ record {
  client = some "http://host/v1/";
  default_model = "gpt-4o";
  model_roles = ("FAST", "gpt-4o-mini") ∷ [];
}
unfolding new get insert
provider_made = refl

-- Every model goes to the endpoint that is set, with a slash at its end.
routed : map_option (λ t. t.endpoint) (target_of provider "claude") ≡ some "http://host/v1/"
unfolding new get target_of
routed = refl

abbrev hi : GenaiReply
hi = record {
  usage = record { prompt_tokens = some (pos 7); completion_tokens = none; total_tokens = none };
  tool_calls = [];
  first_text = some "Hi";
  model_name = "gpt-4o-mini";
}

-- A rate limit, an error of the server, and then an answer.
abbrev busy_twice : String → String → String → ℕ → GenaiResult GenaiReply
busy_twice model request options zero = failed (http_error 429 "rate limit")
busy_twice model request options (suc zero) = failed (http_error 503 "unavailable")
busy_twice model request options (suc (suc n)) = answered hi

busy_twice_answered :
    chat crate_texts busy_twice provider hello
    ≡ record { slept = 500 ∷ 1000 ∷ []; outcome = ok (convert_reply hi) }
unfolding chat
busy_twice_answered = refl

chat_lem_example :
    (n : ℕ) × (n < 3)
    × ((chat crate_texts busy_twice provider hello).outcome
        ≡ reply (busy_twice "gpt-4o-mini" "requestBe brief." "" n))
    × ((chat crate_texts busy_twice provider hello).slept ≡ delays n)
    × ((i : ℕ) → i < n → IsPassing crate_texts (busy_twice "gpt-4o-mini" "requestBe brief." "" i))
    × ((¬ IsPassing crate_texts (busy_twice "gpt-4o-mini" "requestBe brief." "" n)) ⊎ (suc n ≡ 3))
unfolding resolve_model new build_request build_options
chat_lem_example = chat_lem crate_texts busy_twice provider hello

-- The conversion wraps a negative limit round.
no_limit : as_u32 (negsuc 0) ≡ 4294967295
unfolding as_u32
no_limit = refl

abbrev few : Events
few =
    answered other_event
    ∷ answered (chunk "Hel")
    ∷ answered (chunk "lo")
    ∷ answered (
        tool_call_chunk (record {
          call_id = "c1";
          fn_name = "search";
          fn_arguments = Value.string "{}";
          thought_signatures = none;
        }))
    ∷ answered (finished (some hi.usage))
    ∷ []

collect_stream-map_events_example :
    (merged : List ToolCall) × Merged (calls few) merged
    × (collect_stream (map_events few)
        ≡ answer
            (record { content = texts few; tool_calls = merged; usage = last_usage no_usage few })
            (first_failure few))
collect_stream-map_events_example = collect_stream-map_events few
