-- ===== src/Agent/Messages.antt =====
-- The messages of a conversation with a language model, and a provider's stream of chunks
-- (src/agent/llm/mod.rs).
pub mod Merging
pub mod Window
use Prim.Native.String.{len, ◌++◌}
use jeeves_core.Prelude.{
  ℕ, ◌+◌, ◌/◌, String, Bool, true, false, not, ◌&&◌, Option, none, some, unwrap_or, is_some, List,
  [], ◌∷◌, ◌==◌, if◌then◌else◌,
}
use jeeves_core.Prelude.Int.{ℤ, pos}
use jeeves_core.Json.{Value}
use jeeves_core.Types.{F64, Result, ok, err, is_empty}
use jeeves_core.Tools.Executor.{ContentPart}
use jeeves_core.Run.Events.{RunEvent}

pub data MessageContent : Type 0 where
  text : String → MessageContent
  parts : List ContentPart → MessageContent

unfoldable pub is_empty_content : MessageContent → Bool
is_empty_content (text s) = is_empty s
is_empty_content (parts []) = true
is_empty_content (parts (p ∷ ps)) = false

part_len : ContentPart → ℕ
part_len (ContentPart.text s) = len s
part_len (ContentPart.ref content_type ref_id) = len ref_id + 30
part_len (ContentPart.blob content_type bytes) = count_bytes bytes
  where
    count_bytes : List ℕ → ℕ
    count_bytes [] = 0
    count_bytes (b ∷ bs) = 1 + count_bytes bs

parts_len : List ContentPart → ℕ
unfolding part_len
parts_len [] = 0
parts_len (p ∷ ps) = part_len p + parts_len ps

-- `MessageContent::len`.
unfoldable pub content_len : MessageContent → ℕ
unfolding parts_len
content_len (text s) = len s
content_len (parts ps) = parts_len ps

unfoldable pub as_text : MessageContent → Option String
as_text (text s) = some s
as_text (parts ps) = none

-- The text parts, joined.
unfoldable pub parts_text : List ContentPart → String
parts_text [] = ""
parts_text (ContentPart.text s ∷ ps) = s ++ parts_text ps
parts_text (p ∷ ps) = parts_text ps

unfoldable pub as_text_lossy : MessageContent → String
unfolding parts_text
as_text_lossy (text s) = s
as_text_lossy (parts ps) = parts_text ps

pub record ToolCall : Type 0 where
  pub id : String
  pub name : String
  pub arguments : Value

pub record ChatMessage : Type 0 where
  pub role : String
  pub content : MessageContent
  pub tool_call_id : Option String
  pub tool_calls : Option (List ToolCall)

abbrev pub system : MessageContent → ChatMessage
system c = record { role = "system"; content = c; tool_call_id = none; tool_calls = none }

abbrev pub user : MessageContent → ChatMessage
user c = record { role = "user"; content = c; tool_call_id = none; tool_calls = none }

abbrev pub assistant : MessageContent → Option (List ToolCall) → ChatMessage
assistant c calls = record {
  role = "assistant";
  content = c;
  tool_call_id = none;
  tool_calls = calls;
}

abbrev pub tool_result : String → MessageContent → ChatMessage
tool_result id c = record { role = "tool"; content = c; tool_call_id = some id; tool_calls = none }

pub record ChatRequest : Type 0 where
  pub messages : List ChatMessage
  pub temperature : Option F64
  pub max_tokens : Option ℤ
  pub model : Option String
  pub tools : Option (List Value)
  pub response_format : Option Value

pub record TokenUsage : Type 0 where
  pub prompt_tokens : ℤ
  pub completion_tokens : ℤ
  pub total_tokens : ℤ

abbrev pub no_usage : TokenUsage
no_usage = record { prompt_tokens = pos 0; completion_tokens = pos 0; total_tokens = pos 0 }

pub record ChatResponse : Type 0 where
  pub content : Option String
  pub tool_calls : List ToolCall
  pub usage : TokenUsage
  pub model : String

pub record StreamChunk : Type 0 where
  pub delta_content : Option String
  pub tool_calls : List ToolCall
  pub usage : Option TokenUsage

-- What a delta makes of the arguments that have been gathered.
abbrev pub merge_arguments : Value → Value → Value
merge_arguments (Value.string a) (Value.string b) = Value.string (a ++ b)
merge_arguments a b = b

unfoldable pub merge_call : ToolCall → ToolCall → ToolCall
merge_call existing change = record existing {
  arguments = merge_arguments existing.arguments change.arguments;
  name =
      if is_empty existing.name && not (is_empty change.name) then change.name else existing.name;
}

-- The body of the loop of `merge_tool_call_deltas`: the first call of that id is merged, and a new
-- one is added at the end.
unfoldable pub merge_delta : List ToolCall → ToolCall → List ToolCall
unfolding merge_call
merge_delta [] change = change ∷ []
merge_delta (tc ∷ tcs) change =
    let rest = merge_delta tcs change in
    if tc.id == change.id && not (is_empty change.id) then merge_call tc change ∷ tcs else tc ∷ rest

unfoldable pub merge_tool_call_deltas : List ToolCall → List ToolCall → List ToolCall
unfolding merge_delta
merge_tool_call_deltas acc [] = acc
merge_tool_call_deltas acc (d ∷ ds) = merge_tool_call_deltas (merge_delta acc d) ds

-- What has been gathered of a response.
pub record Gathered : Type 0 where
  pub content : String
  pub tool_calls : List ToolCall
  pub usage : TokenUsage

unfoldable pub gather_chunk : StreamChunk → Gathered → Gathered
unfolding merge_tool_call_deltas
gather_chunk chunk g = record {
  content = elim chunk.delta_content [ none ↦ g.content | some d ↦ g.content ++ d ];
  tool_calls = merge_tool_call_deltas g.tool_calls chunk.tool_calls;
  usage = unwrap_or g.usage chunk.usage;
}

-- `collect_stream` on the chunks of a stream: the response, or the first error of the stream.
unfoldable pub collect : List (Result StreamChunk) → Gathered → Result ChatResponse
unfolding gather_chunk
collect [] g = ok (record {
  content = if is_empty g.content then none else some g.content;
  tool_calls = g.tool_calls;
  usage = g.usage;
  model = "";
})
collect (err e ∷ chunks) g = err e
collect (ok chunk ∷ chunks) g = collect chunks (gather_chunk chunk g)

-- The deltas that it forwards, up to the first error.
unfoldable pub deltas : Option String → String → List (Result StreamChunk) → List RunEvent
deltas stage pipeline [] = []
deltas stage pipeline (err e ∷ chunks) = []
deltas stage pipeline (ok chunk ∷ chunks) =
    let rest = deltas stage pipeline chunks in
    elim chunk.delta_content [ none ↦ rest | some d ↦ RunEvent.delta d stage pipeline ∷ rest ]

unfoldable pub collect_stream : List (Result StreamChunk) → Result ChatResponse
unfolding collect
collect_stream chunks = collect chunks (record { content = ""; tool_calls = []; usage = no_usage })
