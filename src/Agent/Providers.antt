-- ===== src/Agent/Providers.antt =====
-- The language model providers (src/agent/llm/genai_provider.rs and mock.rs). The genai crate is a
-- parameter: its messages, tools, options and requests are types of which `Crate` has the
-- operations, and `exec_chat model request options n` is what the client answers on call n. The
-- records of its replies have what the code reads of them.
pub mod Mocks
pub mod Building
pub mod Replies
pub mod Calls
pub mod Attempts
pub mod Requests
pub mod Streams
use Prim.Native.Char.{code}
use Prim.Native.Nat.{◌%◌}
use Prim.Native.String.{◌++◌}
use mathlib.Core.List.{◌++◌ as append}
use jeeves_core.Prelude.{
  ℕ, zero, suc, ◌+◌, ◌-◌, ◌*◌, ◌^◌, String, Bool, true, false, ◌&&◌, ◌||◌, Option, none, some,
  map_option, unwrap_or, and_then, List, [], ◌∷◌, map, is_eq, ltb, ◌==◌, if◌then◌else◌,
}
use jeeves_core.Prelude.Int.{ℤ, pos, negsuc}
use jeeves_core.Prelude.Dict
use jeeves_core.Prelude.Dict.{Dict}
use jeeves_core.Json.{Value, get_field}
use jeeves_core.Types.{F64, Result, Error, Piece, ok, err, plain}
use jeeves_core.Agent.Prompts.{is_char}
use jeeves_core.Agent.Messages.{
  ToolCall, ChatMessage, ChatRequest, ChatResponse, StreamChunk, TokenUsage, as_text_lossy,
  is_empty_content,
}

-- The struct of a tool call in the crate, all fields.
pub record GenaiToolCall : Type 0 where
  pub call_id : String
  pub fn_name : String
  pub fn_arguments : Value
  pub thought_signatures : Option (List String)

pub record GenaiUsage : Type 0 where
  pub prompt_tokens : Option ℤ
  pub completion_tokens : Option ℤ
  pub total_tokens : Option ℤ

-- What is read of a reply: the tool calls and the first text of its content, and the model's name.
pub record GenaiReply : Type 0 where
  pub usage : GenaiUsage
  pub tool_calls : List GenaiToolCall
  pub first_text : Option String
  pub model_name : String

-- An error of the crate with the text that it displays.
pub data GenaiError : Type 0 where
  http_error : ℕ → String → GenaiError
  web_adapter_call web_model_call web_stream other_error : String → GenaiError

pub data GenaiResult {ℓ} (T : Type ℓ) : Type ℓ where
  answered : T → GenaiResult T
  failed : GenaiError → GenaiResult T

pub data ChatStreamEvent : Type 0 where
  chunk : String → ChatStreamEvent
  tool_call_chunk : GenaiToolCall → ChatStreamEvent
  finished : Option GenaiUsage → ChatStreamEvent
  other_event : ChatStreamEvent

pub record Crate (Message Tool Options Request : Type 0) : Type 0 where
  pub is_server_error : ℕ → Bool
  pub to_lowercase : String → String
  pub user : String → Message
  pub assistant : String → Message
  pub assistant_tool_calls_with_thoughts : List GenaiToolCall → List String → Message
  pub prepend_text : String → Message → Message
  pub tool_response : String → String → Message
  pub new_tool : String → Tool
  pub with_description : String → Tool → Tool
  pub with_schema : Value → Tool → Tool
  pub default_options : Options
  pub with_capture_usage : Bool → Options → Options
  pub with_capture_content : Bool → Options → Options
  pub with_capture_tool_calls : Bool → Options → Options
  pub with_temperature : F64 → Options → Options
  pub with_max_tokens : ℕ → Options → Options
  pub with_json_spec : String → Value → Options → Options
  pub from_messages : List Message → Request
  pub with_system : String → Request → Request
  pub with_tools : List Tool → Request → Request

-- The provider; `client` is the endpoint that all models are routed to, where one is set.
pub record GenaiProvider : Type 0 where
  pub client : Option String
  pub default_model : String
  pub model_roles : Dict String

abbrev pub display : GenaiError → String
display (http_error status s) = s
display (web_adapter_call s) = s
display (web_model_call s) = s
display (web_stream s) = s
display (other_error s) = s

-- `str::strip_prefix`.
unfoldable pub strip_prefix : String → String → Option String
strip_prefix String.[] s = some s
strip_prefix (String.◌∷◌ c p) String.[] = none
strip_prefix (String.◌∷◌ c p) (String.◌∷◌ d s) =
    let rest = strip_prefix p s in if is_eq (code c) (code d) then rest else none

-- `ends_with('/')`.
unfoldable pub ends_with_slash : String → Bool
ends_with_slash String.[] = false
ends_with_slash (String.◌∷◌ c String.[]) = is_char b'/' c
ends_with_slash (String.◌∷◌ c (String.◌∷◌ d s)) = ends_with_slash (String.◌∷◌ d s)

unfoldable pub endpoint_url : String → String
unfolding ends_with_slash
endpoint_url base_url = if ends_with_slash base_url then base_url else base_url ++ "/"

-- The kind of adapter that the resolver of a custom endpoint chooses.
pub data AdapterKind : Type 0 where
  open_ai : AdapterKind

pub record ServiceTarget : Type 0 where
  pub endpoint : String
  pub auth : String
  pub adapter : AdapterKind
  pub model_name : String

-- The closure that resolves a model's name at a custom endpoint.
unfoldable pub resolve_target : String → String → ServiceTarget
resolve_target url name = record {
  endpoint = url;
  auth = "not-needed";
  adapter = open_ai;
  model_name = name;
}

-- What the provider's client makes of a model's name, where it has a custom endpoint.
unfoldable pub target_of : GenaiProvider → String → Option ServiceTarget
unfolding resolve_target
target_of p name = map_option (λ url. resolve_target url name) p.client

module _ {Message Tool Options Request : Type 0} (g : Crate Message Tool Options Request) where
  -- The loop over the environment's variables.
  unfoldable pub read_roles : Dict String → Dict String → Dict String
  unfolding strip_prefix
  read_roles [] roles = roles
  read_roles ((key, value) ∷ env) roles = elim (strip_prefix "MODEL_" key) [
    | none ↦ read_roles env roles
    | some role ↦ read_roles env (Dict.insert roles (g.to_lowercase role) value)
  ]

  unfoldable pub new : Dict String → String → GenaiProvider
  unfolding read_roles endpoint_url
  new env default_model = record {
    client = map_option endpoint_url (Dict.get env "LLM_API_BASE");
    default_model = default_model;
    model_roles = read_roles env [];
  }

  abbrev pub with_client : Option String → String → GenaiProvider
  with_client client default_model = record {
    client = client;
    default_model = default_model;
    model_roles = [];
  }

  unfoldable pub with_model_role : String → String → GenaiProvider → GenaiProvider
  with_model_role role model p = record p {
    model_roles = Dict.insert p.model_roles (g.to_lowercase role) model;
  }

  unfoldable pub resolve_model : GenaiProvider → ChatRequest → String
  resolve_model p req = elim req.model [
    | none ↦ p.default_model
    | some role ↦ unwrap_or role (Dict.get p.model_roles (g.to_lowercase role))
  ]
