-- ===== src/Tests/Agents.antt =====
-- An agent with a model that calls a tool and then answers, its retries and its window.
use jeeves_core.Prelude.{
  ℕ, zero, suc, ◌≤◌, ◌<◌, ◌≡◌, ◌⊎◌, refl, none, some, List, [], ◌∷◌, true, false, arith,
}
use jeeves_core.Prelude.Int.{pos}
use jeeves_core.Prelude.Dict
use jeeves_core.Json.{null}
use jeeves_core.Types.{ok}
use jeeves_core.Workflow.{RetryPolicy}
use jeeves_core.Tools.Registry
use jeeves_core.Agent.{AgentOutput, AgentContext, Texts, Moment, deterministic}
use jeeves_core.Agent.Messages
use jeeves_core.Agent.Messages.{MessageContent, ChatMessage, ToolCall, StreamChunk}
use jeeves_core.Agent.Messages.Window.{tokens_of, truncate_oldest, Truncates, truncate_oldest_lem}
use jeeves_core.Agent.Runner.{execute_with_retry}
use jeeves_core.Agent.Runner.Retries.{settled, last_attempt, execute_with_retry_lem}
use jeeves_core.Agent.Loop.{LlmAgent, Environment, Loop, Flow, next, leave, return}
use jeeves_core.Agent.Calls.{call_tools}
use jeeves_core.Agent.React.{process, start_loop}
use jeeves_core.Agent.React.Rounds.{AtMost, process-AtMost}
use jeeves_core.Agent.React.Answers.{Answered, call_tools-Answered}

abbrev attempt : ℕ → AgentOutput
attempt zero = record deterministic { success = false; error_message = "busy" }
attempt (suc n) = deterministic

abbrev retry_policy : RetryPolicy
retry_policy = record {
  max_retries = 3;
  initial_backoff_ms = 100;
  max_backoff_ms = 1000;
  backoff_multiplier = record { bits = pos 2 };
}

execute_with_retry_lem_example :
    (n : ℕ) × (execute_with_retry attempt (some retry_policy) ≡ some (last_attempt attempt n))
    × (n ≤ 3)
    × ((i : ℕ) → i < n → settled (attempt i) ≡ false)
    × ((settled (attempt n) ≡ true) ⊎ (n ≡ 3))
execute_with_retry_lem_example = execute_with_retry_lem attempt (some retry_policy) (omega arith)

abbrev system_message : ChatMessage
system_message = Messages.system (MessageContent.text "You are a careful writer.")

abbrev old_message : ChatMessage
old_message = Messages.user (MessageContent.text "Here is a long question.")

abbrev new_message : ChatMessage
new_message = Messages.user (MessageContent.text "Short one.")

truncate_oldest_lem_example :
    (kept : List ChatMessage) × (truncate_oldest
        (pos 9)
        (system_message ∷ old_message ∷ new_message ∷ [])
      ≡ system_message ∷ kept)
    × Truncates (pos 9) (tokens_of system_message) (old_message ∷ new_message ∷ []) kept
truncate_oldest_lem_example =
    truncate_oldest_lem (pos 9) system_message (old_message ∷ new_message ∷ [])

abbrev pub texts : Texts
texts = record { json = λ v. "{}"; parse = λ s. none; error = λ e. "error"; decimal = λ n. "1" }

abbrev calls : List ToolCall
calls =
    record { id = "a"; name = "search"; arguments = null }
    ∷ record { id = "b"; name = "fetch"; arguments = null }
    ∷ []

-- The first answer calls two tools and the later ones are final.
abbrev chunks : ℕ → StreamChunk
chunks zero = record { delta_content = none; tool_calls = calls; usage = none }
chunks (suc n) = record { delta_content = some "Done."; tool_calls = []; usage = none }

abbrev moment : Moment
moment = record { now = pos 1; finished = pos 2; elapsed_ms = 3; interrupt_id = "int_1" }

abbrev environment : Environment
environment = record {
  chat_stream = λ n request. ok (ok (chunks n) ∷ []);
  resolver = none;
  moment = λ n. moment;
  duration_ms = pos 40;
  texts = texts;
}

abbrev agent : LlmAgent
agent = record {
  agent_name = "writer";
  temperature = none;
  max_tokens = none;
  model = none;
  max_tool_rounds = 10;
  hooks = [];
}

abbrev context : AgentContext
context = record {
  raw_input = "Write.";
  outputs = [];
  state = [];
  metadata = [];
  streaming = true;
  stage_name = some "draft";
  workflow_name = "drafting";
  max_context_tokens = none;
  context_overflow = none;
  interrupt_response = none;
  response_format = none;
}

process-AtMost_example : AtMost 10 (process environment "Be brief." agent Registry.new context).0
process-AtMost_example =
    process-AtMost environment "Be brief." agent Registry.new context (omega arith)

abbrev before : Loop
before = start_loop "Be brief." context Registry.new

abbrev loop_of : Flow → Loop
loop_of (next s) = s
loop_of (leave s) = s
loop_of (return o s) = s

abbrev after : Loop
after = loop_of (call_tools environment agent context calls before)

goes_on : call_tools environment agent context calls before ≡ next after
unfolding call_tools Registry.requires_confirmation Dict.get
goes_on = refl

call_tools-Answered_example : Answered calls before after
call_tools-Answered_example =
    call_tools-Answered environment agent context calls before after goes_on
