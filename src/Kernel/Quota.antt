-- ===== src/Kernel/Quota.antt =====
-- Quotas and usage of a run (src/kernel/types.rs). The elapsed time is an `f64` of seconds in the
-- source, `milliseconds / 1000.0`; here it is the milliseconds, and it is compared with a thousand
-- times the timeout. For an `i32` of seconds the two comparisons agree.
pub mod Within
use jeeves_core.Prelude.{Option, none, some, Bool, ◌&&◌, if◌then◌else◌}
use jeeves_core.Prelude.Int.{ℤ, pos, ltb_ℤ, ◌*ℤ◌}

pub record ResourceQuota : Type 0 where
  pub max_input_tokens : ℤ
  pub max_output_tokens : ℤ
  pub max_context_tokens : ℤ
  pub max_llm_calls : ℤ
  pub max_tool_calls : ℤ
  pub max_agent_hops : ℤ
  pub max_iterations : ℤ
  pub timeout_seconds : ℤ

abbrev pub default_quota : ResourceQuota
default_quota = record {
  max_input_tokens = pos 100_000;
  max_output_tokens = pos 50_000;
  max_context_tokens = pos 150_000;
  max_llm_calls = pos 100;
  max_tool_calls = pos 50;
  max_agent_hops = pos 10;
  max_iterations = pos 20;
  timeout_seconds = pos 300;
}

pub record ResourceUsage : Type 0 where
  pub llm_calls : ℤ
  pub tool_calls : ℤ
  pub agent_hops : ℤ
  pub iterations : ℤ
  pub tokens_in : ℤ
  pub tokens_out : ℤ
  pub elapsed_ms : ℤ

abbrev pub no_usage : ResourceUsage
no_usage = record {
  llm_calls = pos 0;
  tool_calls = pos 0;
  agent_hops = pos 0;
  iterations = pos 0;
  tokens_in = pos 0;
  tokens_out = pos 0;
  elapsed_ms = pos 0;
}

-- Each with what was used and the limit; the timeout in milliseconds and in seconds.
pub data QuotaViolation : Type 0 where
  llm_calls tool_calls agent_hops iterations tokens_in tokens_out timeout : ℤ → ℤ → QuotaViolation

-- A number of seconds in milliseconds.
abbrev pub in_ms : ℤ → ℤ
in_ms s = s *ℤ pos 1000

unfoldable pub exceeds_quota : ResourceUsage → ResourceQuota → Option QuotaViolation
exceeds_quota u q =
    if ltb_ℤ q.max_llm_calls u.llm_calls
    then some (QuotaViolation.llm_calls u.llm_calls q.max_llm_calls)
    else if ltb_ℤ q.max_tool_calls u.tool_calls
    then some (QuotaViolation.tool_calls u.tool_calls q.max_tool_calls)
    else if ltb_ℤ q.max_agent_hops u.agent_hops
    then some (QuotaViolation.agent_hops u.agent_hops q.max_agent_hops)
    else if ltb_ℤ q.max_iterations u.iterations
    then some (QuotaViolation.iterations u.iterations q.max_iterations)
    else if ltb_ℤ q.max_input_tokens u.tokens_in
    then some (QuotaViolation.tokens_in u.tokens_in q.max_input_tokens)
    else if ltb_ℤ q.max_output_tokens u.tokens_out
    then some (QuotaViolation.tokens_out u.tokens_out q.max_output_tokens)
    else if ltb_ℤ (pos 0) q.timeout_seconds && ltb_ℤ (in_ms q.timeout_seconds) u.elapsed_ms
    then some (QuotaViolation.timeout u.elapsed_ms q.timeout_seconds)
    else none
