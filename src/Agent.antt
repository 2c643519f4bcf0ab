-- ===== src/Agent.antt =====
-- Agents (src/agent/mod.rs, and src/agent/hooks.rs for the hooks): what an agent gets and returns,
-- the agents without a language model, and the registry. A run that streams sends its events to a
-- channel, here a list; `streaming` says whether there is one.
pub mod Messages
pub mod Loop
pub mod Calls
pub mod React
pub mod Runner
pub mod Factory
pub mod Prompts
pub mod Providers
use Prim.Native.String.{◌++◌}
use mathlib.Core.List.{◌++◌ as append}
use jeeves_core.Prelude.{
  ℕ, String, Bool, true, false, Option, none, some, is_some, List, [], ◌∷◌, map, if◌then◌else◌,
}
use jeeves_core.Prelude.Int.{ℤ, pos}
use jeeves_core.Prelude.Dict
use jeeves_core.Prelude.Dict.{Dict, keys}
use jeeves_core.Json.{
  Value, Values, null, string, object, array, nil, cons, Fields, end, field, insert_field,
  insert_fields, from_dict,
}
use jeeves_core.Types.{
  AgentName, ToolName, InterruptId, Timestamp, Error, Result, ok, err, is_empty,
}
use jeeves_core.Workflow.{ContextOverflow}
use jeeves_core.Run.{FlowInterrupt}
use jeeves_core.Run.Suspension
use jeeves_core.Run.Events.{RunEvent, tool_call_start, tool_result, failure}
use jeeves_core.Kernel.Protocol.{AgentExecutionMetrics, ToolCallResult}
use jeeves_core.Tools.Executor.{ContentPart, ToolInfo, ToolOutput, ConfirmationRequest}
use jeeves_core.Tools.Registry
use jeeves_core.Tools.Registry.{ToolRegistry, list_all_tools, execute_for}
use jeeves_core.Agent.Messages.{ToolCall, ChatMessage, ChatResponse}

pub record AgentOutput : Type 0 where
  pub output : Value
  pub metrics : AgentExecutionMetrics
  pub success : Bool
  pub error_message : String
  pub interrupt_request : Option FlowInterrupt

pub record AgentContext : Type 0 where
  pub raw_input : String
  pub outputs : Dict (Dict Value)
  pub state : Dict Value
  pub metadata : Dict Value
  pub streaming : Bool
  pub stage_name : Option String
  pub workflow_name : String
  pub max_context_tokens : Option ℤ
  pub context_overflow : Option ContextOverflow
  pub interrupt_response : Option Value
  pub response_format : Option Value

-- What is rendered to text and read from it: `Value::to_string`, `serde_json::from_str`,
-- `Error::to_string` and the decimal form of a number.
pub record Texts : Type 0 where
  pub json : Value → String
  pub parse : String → Option Value
  pub error : Error → String
  pub decimal : ℤ → String

-- `AgentExecutionMetrics::default()`.
abbrev pub no_metrics : AgentExecutionMetrics
no_metrics = record {
  llm_calls = pos 0;
  tool_calls = pos 0;
  tokens_in = none;
  tokens_out = none;
  duration_ms = pos 0;
  tool_results = [];
}

pub data HookDecision : Type 0 where
  continue : HookDecision
  replace : ToolOutput → HookDecision
  block : String → HookDecision

-- The trait, with what each method makes of what it is given.
pub record LlmAgentHook : Type 0 where
  pub before_llm_call : List ChatMessage → List ChatMessage
  pub after_llm_call : ChatResponse → ChatResponse
  pub before_tool_call : ToolCall → HookDecision
  pub after_tool_call : ToolCall → ToolOutput → ToolOutput

pub record AgentHook : Type 0 where
  pub after_agent : AgentContext → AgentOutput → AgentOutput

-- `if let Some(tx) = ctx.event_tx { tx.send(event) }`.
abbrev pub emit : AgentContext → RunEvent → List RunEvent
emit ctx event = if ctx.streaming then event ∷ [] else []

-- The interrupt that asks for a confirmation.
unfoldable pub confirmation_interrupt :
    InterruptId → Timestamp → ConfirmationRequest → FlowInterrupt
confirmation_interrupt id now c =
    let asked = Suspension.with_message c.message (Suspension.new id now) in
    elim c.action_data [
      | none ↦ asked
      | some d ↦ Suspension.with_data (("action_data", d) ∷ []) asked
    ]

-- `build_tool_defs`.
unfoldable pub tool_def : ToolInfo → Value
tool_def t = object (
    field "type" (string "function") (
      field "function"
        (object (
          field "name" (string t.name)
            (field "description" (string t.description) (field "parameters" t.parameters end))))
        end))

unfoldable pub build_tool_defs : ToolRegistry → List Value
unfolding tool_def
build_tool_defs r = map tool_def (list_all_tools r)

tool_call_values : List ToolCall → Values
tool_call_values [] = nil
tool_call_values (tc ∷ tcs) =
    cons
      (object (
        field "id" (string tc.id)
          (field "name" (string tc.name) (field "arguments" tc.arguments end))))
      (tool_call_values tcs)

-- The entries that the content gives.
content_fields : Texts → Option String → Fields
content_fields t none = end
content_fields t (some content) = elim (t.parse content) [
  | some (object fs) ↦ insert_fields end fs
  | some null ↦ field "response" (string content) end
  | some (Value.boolean b) ↦ field "response" (string content) end
  | some (Value.integer n) ↦ field "response" (string content) end
  | some (Value.fraction s) ↦ field "response" (string content) end
  | some (Value.string s) ↦ field "response" (string content) end
  | some (Value.array vs) ↦ field "response" (string content) end
  | none ↦ field "response" (string content) end
]

unfoldable pub build_output_value : Texts → Option String → List ToolCall → Value
unfolding content_fields tool_call_values
build_output_value t content [] = object (content_fields t content)
build_output_value t content (tc ∷ tcs) =
    object
      (insert_field (content_fields t content) "tool_calls" (array (tool_call_values (tc ∷ tcs))))

unfoldable pub make_error_output : Texts → Error → ℤ → ℤ → AgentOutput
make_error_output t e duration_ms llm_calls = record {
  output = object (field "error" (string (t.error e)) end);
  metrics = record no_metrics { llm_calls = llm_calls; duration_ms = duration_ms };
  success = false;
  error_message = t.error e;
  interrupt_request = none;
}

-- `DeterministicAgent`.
abbrev pub deterministic : AgentOutput
deterministic = record {
  output = object end;
  metrics = no_metrics;
  success = true;
  error_message = "";
  interrupt_request = none;
}

pub record ToolDelegatingAgent : Type 0 where
  pub agent_name : AgentName
  pub tool_name : ToolName
  pub tools : ToolRegistry

-- What the clock and the identifiers give while a tool is called.
pub record Moment : Type 0 where
  pub now : Timestamp
  pub finished : Timestamp
  pub elapsed_ms : ℕ
  pub interrupt_id : InterruptId

outputs_value : Dict (Dict Value) → Fields
unfolding from_dict
outputs_value [] = end
outputs_value ((agent, output) ∷ rest) =
    field agent (object (from_dict output)) (outputs_value rest)

unfoldable pub delegate_params : AgentContext → Value
unfolding outputs_value from_dict
delegate_params ctx = object (
    field "raw_input" (string ctx.raw_input) (
      field "outputs" (object (outputs_value ctx.outputs)) (
        field "state" (object (from_dict ctx.state))
          (field "metadata" (object (from_dict ctx.metadata)) end))))

-- The question that stands in the way of a call, unless an interrupt has been answered.
unfoldable pub asks : AgentContext → ToolRegistry → ToolName → Value → Option ConfirmationRequest
asks ctx tools name params = elim ctx.interrupt_response [
  | some answer ↦ none
  | none ↦ Registry.requires_confirmation name params tools
]

-- The output of the call that was made; `duration_ms` is `start.elapsed()`.
unfoldable pub delegated : Texts → ToolName → ℕ → Result ToolOutput → AgentOutput
delegated t name duration_ms result =
    let finish : Value → Bool → String → AgentOutput = λ value success error_message. record {
      output = value;
      metrics = record no_metrics {
        tool_calls = pos 1;
        duration_ms = pos duration_ms;
        tool_results =
            (record {
              name = name;
              success = success;
              latency_ms = duration_ms;
              error_type = if is_empty error_message then none else some error_message;
            })
            ∷ [];
      };
      success = success;
      error_message = error_message;
      interrupt_request = none;
    } in
    elim result [
      | ok o ↦ finish o.data_value true ""
      | err e ↦ finish (object (field "error" (string (t.error e)) end)) false (t.error e)
    ]

-- `ToolDelegatingAgent::process`: the output and the registry, with the health that it records.
unfoldable pub delegate :
    Texts → Moment → ToolDelegatingAgent → AgentContext → AgentOutput × ToolRegistry
unfolding confirmation_interrupt delegate_params asks delegated execute_for
delegate t at a ctx =
    let params = delegate_params ctx in
    elim (asks ctx a.tools a.tool_name params) [
      | some c ↦ (
        record deterministic {
          output = object (
              field "status" (string "awaiting_confirmation")
                (field "message" (string c.message) end));
          interrupt_request = some (confirmation_interrupt at.interrupt_id at.now c);
        },
        a.tools,
      )
      | none ↦
          let (result, tools) =
            execute_for at.now at.finished at.elapsed_ms a.agent_name a.tool_name params a.tools in
          (delegated t a.tool_name at.elapsed_ms result, tools)
    ]

-- The events that `process` sends on its way.
unfoldable pub delegate_events : Texts → Moment → ToolDelegatingAgent → AgentContext → List RunEvent
unfolding delegate_params asks delegated execute_for
delegate_events t at a ctx =
    let params = delegate_params ctx in
    let call_id = "mcp_" ++ a.tool_name in
    let started = emit ctx (tool_call_start call_id a.tool_name ctx.stage_name ctx.workflow_name) in
    elim (asks ctx a.tools a.tool_name params) [
      | some c ↦ started
      | none ↦
          let result =
            (execute_for at.now at.finished at.elapsed_ms a.agent_name a.tool_name params
              a.tools).0 in
          let failed : List RunEvent = elim result [
            | ok o ↦ []
            | err e ↦ emit ctx (failure (t.error e) ctx.stage_name ctx.workflow_name)
          ] in
          let content = t.json (delegated t a.tool_name at.elapsed_ms result).output in
          append started (
            append failed (emit ctx (tool_result call_id content ctx.stage_name ctx.workflow_name)))
    ]

-- The agents of a registry are given by a type A: what their `process` returns on a context for the
-- runner, and the agents as the factory builds them.
abbrev pub Process : Type 0
Process = AgentContext → Result AgentOutput

pub record AgentRegistry (A : Type 0) : Type 0 where
  pub agents : Dict A
  pub agent_hooks : List AgentHook

module _ {A : Type 0} where
  abbrev pub new_registry : AgentRegistry A
  new_registry = record { agents = []; agent_hooks = [] }

  unfoldable pub register : AgentName → A → AgentRegistry A → AgentRegistry A
  register name agent r = record r { agents = Dict.insert r.agents name agent }

  unfoldable pub register_agent_hook : AgentHook → AgentRegistry A → AgentRegistry A
  register_agent_hook hook r = record r { agent_hooks = append r.agent_hooks (hook ∷ []) }

  abbrev pub get : AgentName → AgentRegistry A → Option A
  get name r = Dict.get r.agents name

  abbrev pub list_names : AgentRegistry A → List AgentName
  list_names r = keys r.agents
