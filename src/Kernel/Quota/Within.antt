-- ===== src/Kernel/Quota/Within.antt =====
-- When a quota is exceeded (src/kernel/types.rs).
use jeeves_core.Prelude.{◌≡◌, ◌↔◌, none, arith}
use jeeves_core.Prelude.Int.{pos, ◌≤ℤ◌, ◌<ℤ◌}
use jeeves_core.Kernel.Quota.{ResourceQuota, ResourceUsage, in_ms, exceeds_quota}

-- Nothing that is used is above its limit; a timeout of zero or less is no limit.
pub record IsWithin (u : ResourceUsage) (q : ResourceQuota) : Type 0 where
  pub llm_calls_within : u.llm_calls ≤ℤ q.max_llm_calls
  pub tool_calls_within : u.tool_calls ≤ℤ q.max_tool_calls
  pub agent_hops_within : u.agent_hops ≤ℤ q.max_agent_hops
  pub iterations_within : u.iterations ≤ℤ q.max_iterations
  pub tokens_in_within : u.tokens_in ≤ℤ q.max_input_tokens
  pub tokens_out_within : u.tokens_out ≤ℤ q.max_output_tokens
  pub in_time : pos 0 <ℤ q.timeout_seconds → u.elapsed_ms ≤ℤ in_ms q.timeout_seconds

-- No violation is reported exactly when the usage is within the quota in every dimension.
pub exceeds_quota-none :
    (u : ResourceUsage) (q : ResourceQuota) → (exceeds_quota u q ≡ none) ↔ IsWithin u q
unfolding exceeds_quota
exceeds_quota-none u q = (λ h. ground arith, λ h. ground arith)
