-- ===== src/Kernel/Dispatch/Usage.antt =====
-- What a run has used of its quota (src/kernel/dispatch.rs).
use jeeves_core.Prelude.{◌≡◌, ◌↔◌, refl, ap, Option, none, some, inl, inr, Option-cases}
use jeeves_core.Prelude.Int.{ℤ, pos, ◌-ℤ◌}
use jeeves_core.Prelude.Dict
use jeeves_core.Prelude.Dict.{Dict}
use jeeves_core.Types.{RunId, Timestamp, ok}
use jeeves_core.Run.{Run}
use jeeves_core.Kernel.Quota.Within.{IsWithin, exceeds_quota-none}
use jeeves_core.Kernel.Quota.{ResourceUsage, exceeds_quota}
use jeeves_core.Kernel.Lifecycle
use jeeves_core.Kernel.Lifecycle.{RunRecord}
use jeeves_core.Kernel.Dispatch.{Kernel}
use jeeves_core.Kernel.AgentContext.{num_milliseconds}
use jeeves_core.Kernel.Dispatch.Runs.{elapsed_ms, usage_from_run, check_quota}

-- The milliseconds since a run was started: to its completion, or up to now.
abbrev pub waited : Timestamp → Option Timestamp → Option Timestamp → ℤ
waited now none completed = pos 0
waited now (some started) none = num_milliseconds (now -ℤ started)
waited now (some started) (some completed) = num_milliseconds (completed -ℤ started)

-- What a run has used by its own counters, and nothing where the kernel holds no state of it.
abbrev pub used : ℤ → Option Run → ResourceUsage
used elapsed none = record {
  llm_calls = pos 0;
  tool_calls = pos 0;
  agent_hops = pos 0;
  iterations = pos 0;
  tokens_in = pos 0;
  tokens_out = pos 0;
  elapsed_ms = elapsed;
}
used elapsed (some run) = record {
  llm_calls = run.metrics.llm_calls;
  tool_calls = run.metrics.tool_calls;
  agent_hops = run.metrics.agent_hops;
  iterations = run.iteration;
  tokens_in = run.metrics.tokens_in;
  tokens_out = run.metrics.tokens_out;
  elapsed_ms = elapsed;
}

elapsed-waited :
    (now : Timestamp) (r : RunRecord) → elapsed_ms now r ≡ waited now r.started_at r.completed_at
unfolding elapsed_ms
elapsed-waited now r = elim (Option-cases r.started_at) [
  | inl s ↦ rw (s, elapsed_ms) refl
  | inr (started, s) ↦ elim (Option-cases r.completed_at) [
    | inl c ↦ rw (s, c, elapsed_ms) refl
    | inr (completed, c) ↦ rw (s, c, elapsed_ms) refl
  ]
]

pub usage-used :
    (now : Timestamp) (id : RunId) (r : RunRecord) (k : Kernel)
    → usage_from_run now id r k ≡ used (waited now r.started_at r.completed_at) (Dict.get k.runs id)
unfolding usage_from_run
usage-used now id r k = elim (Option-cases (Dict.get k.runs id)) [
  | inl e ↦ rw (e, usage_from_run) (ap (λ t. used t none) (elapsed-waited now r))
  | inr (run, e) ↦ rw (e, usage_from_run) (ap (λ t. used t (some run)) (elapsed-waited now r))
]

pub check_quota-usage :
    (now : Timestamp) (id : RunId) (k : Kernel) {r : RunRecord}
    → Lifecycle.get id k.lifecycle ≡ some r
    → (check_quota now id k ≡ ok tt) ↔ IsWithin (usage_from_run now id r k) r.quota
unfolding check_quota
check_quota-usage now id k {r} e = (
  λ h. (exceeds_quota-none (usage_from_run now id r k) r.quota).0 (no_violation h),
  λ w.
      let n = (exceeds_quota-none (usage_from_run now id r k) r.quota).1 w in
      rw (e, check_quota, n) refl,
)
  where
    no_violation :
        check_quota now id k ≡ ok tt → exceeds_quota (usage_from_run now id r k) r.quota ≡ none
    no_violation h = elim (Option-cases (exceeds_quota (usage_from_run now id r k) r.quota)) [
      | inl n ↦ n
      | inr (v, n) ↦ absurd (let p = (rw (e, check_quota, n) at h) in cc)
    ]
