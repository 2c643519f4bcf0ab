-- ===== src/Agent/Runner.antt =====
-- The execution of an agent with retries and a timeout (src/kernel/runner.rs). An attempt is what
-- the future of `execute_agent` gives: its output, or none where `tokio::time::timeout` elapses.
-- The waiting between attempts and the events are not modelled.
pub mod Retries
pub mod RunLoop
use Prim.Native.String.{◌++◌}
use jeeves_core.Prelude.{
  ℕ, zero, suc, ◌+◌, String, Bool, true, false, not, ◌||◌, Option, none, some, is_some, unwrap_or,
  map_option, List, [], ◌∷◌, leb, if◌then◌else◌,
}
use Prim.Native.Nat.{◌%◌}
use mathlib.Core.List.{◌++◌ as append}
use jeeves_core.Prelude.Int.{ℤ, pos, add_i32, add_i64}
use jeeves_core.Json.{string, object, end, field}
use jeeves_core.Types.{Error, Result, ok, err, AgentName}
use jeeves_core.Workflow.{RetryPolicy}
use jeeves_core.Kernel.Protocol.{AgentExecutionMetrics}
use jeeves_core.Agent
use jeeves_core.Agent.{
  AgentOutput, AgentContext, AgentHook, Process, AgentRegistry, Texts, no_metrics, deterministic,
}

-- The match on what `process` returns.
unfoldable pub output_of : Texts → Result AgentOutput → AgentOutput
output_of t (ok output) = output
output_of t (err e) = record {
  output = object (field "error" (string (t.error e)) end);
  metrics = no_metrics;
  success = false;
  error_message = t.error e;
  interrupt_request = none;
}

-- `execute_agent`.
unfoldable pub execute_agent :
    Texts → AgentName → AgentContext → AgentRegistry Process → AgentOutput
unfolding output_of
execute_agent t name ctx agents =
    output_of t
      (elim (Agent.get name agents) [ some process ↦ process ctx | none ↦ ok deterministic ])

-- The output of an attempt that timed out.
unfoldable pub timed_out : Texts → ℕ → ℕ → AgentOutput
timed_out t secs attempt =
    let msg =
      "Stage timeout after "
      ++ t.decimal (pos secs)
      ++ "s (attempt "
      ++ t.decimal (pos attempt)
      ++ ")" in
    record {
      output = object (field "error" (string msg) end);
      metrics = no_metrics;
      success = false;
      error_message = msg;
      interrupt_request = none;
    }

-- `execute_agent_with_timeout`: without a timeout the attempt is awaited, and `awaited` is its
-- output; with one, `within` is the output that comes in time, if one does.
unfoldable pub execute_agent_with_timeout :
    Texts → Option ℕ → ℕ → AgentOutput → Option AgentOutput → AgentOutput
unfolding timed_out
execute_agent_with_timeout t none attempt awaited within = awaited
execute_agent_with_timeout t (some secs) attempt awaited none = timed_out t secs attempt
execute_agent_with_timeout t (some secs) attempt awaited (some output) = output

-- What an attempt adds to the metrics.
unfoldable pub accumulate : AgentExecutionMetrics → AgentExecutionMetrics → AgentExecutionMetrics
accumulate acc m = record {
  llm_calls = add_i32 acc.llm_calls m.llm_calls;
  tool_calls = add_i32 acc.tool_calls m.tool_calls;
  tokens_in = some (add_i64 (unwrap_or (pos 0) acc.tokens_in) (unwrap_or (pos 0) m.tokens_in));
  tokens_out = some (add_i64 (unwrap_or (pos 0) acc.tokens_out) (unwrap_or (pos 0) m.tokens_out));
  duration_ms = add_i64 acc.duration_ms m.duration_ms;
  tool_results = append acc.tool_results m.tool_results;
}

-- The loop `for attempt in 0..max_attempts`, with `left` attempts to go. Past it stands
-- `unreachable!`, the panic that `none` is.
unfoldable pub attempts : (ℕ → AgentOutput) → ℕ → ℕ → AgentExecutionMetrics → Option AgentOutput
unfolding accumulate
attempts run zero attempt acc = none
attempts run (suc left) attempt acc =
    let output = run attempt in
    let acc' = accumulate acc output.metrics in
    let rest = attempts run left (suc attempt) acc' in
    if (output.success || is_some output.interrupt_request) || leb left 0
    then some (record output { metrics = acc' })
    else rest

abbrev pub u32_bound : ℕ
u32_bound = 4294967296

-- `retry_policy.map(|r| r.max_retries + 1).unwrap_or(1)`, on `u32` in a release build.
unfoldable pub max_attempts : Option RetryPolicy → ℕ
max_attempts none = 1
max_attempts (some p) = (p.max_retries + 1) % u32_bound

-- `execute_with_retry`: `run` gives the output of each attempt.
unfoldable pub execute_with_retry : (ℕ → AgentOutput) → Option RetryPolicy → Option AgentOutput
unfolding attempts max_attempts
execute_with_retry run policy = attempts run (max_attempts policy) 0 no_metrics

-- The hooks fired after the execution, in the order of their registration.
unfoldable pub after_hooks : List AgentHook → AgentContext → AgentOutput → AgentOutput
after_hooks [] ctx output = output
after_hooks (h ∷ hs) ctx output = after_hooks hs ctx (h.after_agent ctx output)

-- `execute_agent_with_policy`: the hooks that only observe are left out.
unfoldable pub execute_agent_with_policy :
    AgentRegistry Process
    → AgentContext
    → (ℕ → AgentOutput)
    → Option RetryPolicy
    → Option AgentOutput
unfolding execute_with_retry after_hooks
execute_agent_with_policy agents ctx run policy =
    map_option (after_hooks agents.agent_hooks ctx) (execute_with_retry run policy)
