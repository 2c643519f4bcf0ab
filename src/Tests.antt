-- ===== src/Tests.antt =====
-- Concrete workflows, runs and reports, and a run of each theorem on them.
pub mod Sessions
pub mod Subsystems
pub mod Storage
pub mod Dispatching
pub mod Tooling
pub mod Agents
pub mod Commands
pub mod Factories
pub mod Templates
pub mod Inputs
pub mod Configuring
pub mod Providers
pub mod Running
use jeeves_core.Prelude.{
  String, ◌≡◌, refl, arith, Option, none, some, unwrap_or, Bool, true, false, List, [], ◌∷◌,
}
use jeeves_core.Prelude.Int.{ℤ, pos}
use jeeves_core.Json.{Value, null, boolean}
use jeeves_core.Workflow.{Stage, default_stage, StateField, replace, append, Workflow}
use jeeves_core.Run
use jeeves_core.Run.{Run, FlowInterrupt, InterruptResponse}
use jeeves_core.Kernel.Protocol.{AgentExecutionMetrics}
use jeeves_core.Kernel.Quota.{ResourceUsage, no_usage}
use jeeves_core.Kernel.Orchestrator.{Orchestrator}
use jeeves_core.Kernel.Orchestrator.History.{IsFresh, Fits}

-- A stage that drafts and a stage that reviews, and sends a draft that failed back once.
abbrev pub draft_stage : Stage
draft_stage = record default_stage {
  name = "draft";
  agent = "writer";
  default_next = some "review";
  max_visits = some (pos 2);
  output_key = some "text";
}

abbrev pub review_stage : Stage
review_stage = record default_stage { name = "review"; agent = "critic"; error_next = some "draft" }

abbrev pub workflow : Workflow
workflow = record {
  name = "drafting";
  stages = draft_stage ∷ review_stage ∷ [];
  max_iterations = pos 3;
  max_llm_calls = pos 9;
  max_agent_hops = pos 5;
  state_schema =
      record { key = "text"; merge = replace } ∷ record { key = "log"; merge = append } ∷ [];
}

abbrev pub fresh_run : Run
fresh_run = Run.new (pos 0) "env_1" "req_1" "user_1" "session_1" "Write." none

abbrev pub no_orchestrator : Orchestrator
no_orchestrator = jeeves_core.Kernel.Orchestrator.new

abbrev pub response_value : InterruptResponse → Value
response_value r = boolean (unwrap_or false r.approved)

abbrev pub run_value : Run → Value
run_value r = null

abbrev pub metrics : AgentExecutionMetrics
metrics = record {
  llm_calls = pos 1;
  tool_calls = pos 0;
  tokens_in = some (pos 10);
  tokens_out = none;
  duration_ms = pos 7;
  tool_results = [];
}

abbrev pub question : FlowInterrupt
question = record {
  id = "int_1";
  question = some "Proceed?";
  message = none;
  content = none;
  response = none;
  created_at = pos 1;
  expires_at = some (pos 90);
}

abbrev pub answer : Bool → InterruptResponse
answer agreed = record {
  text = none;
  approved = some agreed;
  decision = none;
  content = none;
  received_at = pos 2;
}

pub fresh : IsFresh fresh_run
unfolding Run.new
fresh = record { not_terminated = refl; no_iteration = refl; no_hop = refl }

pub workflow-Fits : Fits workflow
workflow-Fits = record {
  iterations_fit = (omega arith, omega arith);
  hops_fit = (omega arith, omega arith);
  visits_fit = ((omega arith, omega arith), (tt, tt));
}

abbrev pub small_usage : ResourceUsage
small_usage = record no_usage { llm_calls = pos 101 }
