-- ===== src/Kernel/Dispatch/Runs.antt =====
-- The kernel's operations on runs, besides the dispatch (src/kernel/dispatch.rs: creation, quotas,
-- interrupts, termination, cleanup and status). Elapsed times are in milliseconds.
use jeeves_core.Prelude.{
  ℕ, Bool, Option, none, some, unwrap_or, map_option, List, [], ◌∷◌, length, if◌then◌else◌,
}
use jeeves_core.Prelude.Int.{ℤ, pos, ltb_ℤ, ◌-ℤ◌, sub_i32, sub_i64}
use jeeves_core.Prelude.Dict
use jeeves_core.Prelude.Dict.{Dict}
use jeeves_core.Json.{Value}
use jeeves_core.Types.{
  RunId, RequestId, UserId, SessionId, InterruptId, Timestamp, Message, text, int, not_found,
  quota_exceeded, Result, ok, err,
}
use jeeves_core.Workflow.{Workflow}
use jeeves_core.Run
use jeeves_core.Run.{Run, FlowInterrupt, InterruptResponse, set_interrupt, clear_interrupt}
use jeeves_core.Kernel.Protocol.{RunSnapshot}
use jeeves_core.Kernel.Quota.{ResourceQuota, ResourceUsage, QuotaViolation, in_ms, exceeds_quota}
use jeeves_core.Kernel.Interrupts.{register_flow_interrupt, resolve}
use jeeves_core.Kernel.Lifecycle
use jeeves_core.Kernel.Lifecycle.{
  RunRecord, RunStatus, ready, running, terminated, get_active_user_ids, count_by_state,
}
use jeeves_core.Kernel.Resources
use jeeves_core.Kernel.Orchestrator.Session
use jeeves_core.Kernel.Orchestrator.Session.{initialize_session, cleanup_session}
use jeeves_core.Kernel.Orchestrator.Queries.{get_session_count, get_session_state}
use jeeves_core.Kernel.Dispatch.{Kernel, put_run, response_key}
use jeeves_core.Kernel.AgentContext.{num_milliseconds}

-- `run_value` is `serde_json::to_value` on a run.
module _ (run_value : Run → Value) where
  -- On an error the run, which the call owns, is dropped.
  unfoldable pub initialize_orchestration :
      Timestamp → RunId → Workflow → Run → Bool → Kernel → Result RunSnapshot × Kernel
  unfolding initialize_session
  initialize_orchestration now id w run force k =
      let (r, run', o) = initialize_session run_value now id w run force k.orchestrator in
      let k' = record k { orchestrator = o } in
      elim r [ err e ↦ (err e, k') | ok state ↦ (ok state, put_run id run' k') ]

  unfoldable pub get_orchestration_state : RunId → Kernel → Result RunSnapshot
  unfolding get_session_state
  get_orchestration_state id k = elim (Dict.get k.runs id) [
    | none ↦ err (not_found (text "Run not found: " ∷ text id ∷ []))
    | some run ↦ get_session_state run_value id run k.orchestrator
  ]

unfoldable pub create_run :
    Timestamp
    → RunId
    → RequestId
    → UserId
    → SessionId
    → Option ResourceQuota
    → Kernel
    → Result RunRecord × Kernel
create_run now id request user session quota k =
    let (r, g) = Lifecycle.create now id request user session quota k.lifecycle in
    (r, record k { lifecycle = g })

-- `RunRecord::elapsed_seconds`, in milliseconds.
unfoldable pub elapsed_ms : Timestamp → RunRecord → ℤ
unfolding num_milliseconds ◌-ℤ◌
elapsed_ms now r = elim r.started_at [
  | none ↦ pos 0
  | some started ↦ num_milliseconds (unwrap_or now r.completed_at -ℤ started)
]

unfoldable pub usage_from_run : Timestamp → RunId → RunRecord → Kernel → ResourceUsage
unfolding elapsed_ms
usage_from_run now id r k =
    let run = Dict.get k.runs id in
    record {
      llm_calls = unwrap_or (pos 0) (map_option (λ r. r.metrics.llm_calls) run);
      tool_calls = unwrap_or (pos 0) (map_option (λ r. r.metrics.tool_calls) run);
      agent_hops = unwrap_or (pos 0) (map_option (λ r. r.metrics.agent_hops) run);
      iterations = unwrap_or (pos 0) (map_option (λ r. r.iteration) run);
      tokens_in = unwrap_or (pos 0) (map_option (λ r. r.metrics.tokens_in) run);
      tokens_out = unwrap_or (pos 0) (map_option (λ r. r.metrics.tokens_out) run);
      elapsed_ms = elapsed_ms now r;
    }

-- `Display` of a violation; the two times are in milliseconds and in seconds here.
abbrev violation_message : QuotaViolation → Message
violation_message (QuotaViolation.llm_calls used limit) =
    text "llm_calls " ∷ int used ∷ text " > " ∷ int limit ∷ []
violation_message (QuotaViolation.tool_calls used limit) =
    text "tool_calls " ∷ int used ∷ text " > " ∷ int limit ∷ []
violation_message (QuotaViolation.agent_hops used limit) =
    text "agent_hops " ∷ int used ∷ text " > " ∷ int limit ∷ []
violation_message (QuotaViolation.iterations used limit) =
    text "iterations " ∷ int used ∷ text " > " ∷ int limit ∷ []
violation_message (QuotaViolation.tokens_in used limit) =
    text "tokens_in " ∷ int used ∷ text " > " ∷ int limit ∷ []
violation_message (QuotaViolation.tokens_out used limit) =
    text "tokens_out " ∷ int used ∷ text " > " ∷ int limit ∷ []
violation_message (QuotaViolation.timeout elapsed limit) =
    text "elapsed_seconds " ∷ int elapsed ∷ text " > " ∷ int limit ∷ []

unfoldable pub check_quota : Timestamp → RunId → Kernel → Result (Unit {0})
unfolding usage_from_run
check_quota now id k = elim (Lifecycle.get id k.lifecycle) [
  | none ↦ err (not_found (text "Run " ∷ text id ∷ text " not found" ∷ []))
  | some r ↦ elim (exceeds_quota (usage_from_run now id r k) r.quota) [
    | none ↦ ok tt
    | some v ↦
        err
          (quota_exceeded (text "Run " ∷ text id ∷ text " quota exceeded: " ∷ violation_message v))
  ]
]

-- `if let Some(record) = self.lifecycle.get_mut(run_id)`.
abbrev pub set_pending : RunId → Option InterruptId → Kernel → Kernel
set_pending id pending k = elim (Lifecycle.get id k.lifecycle) [
  | none ↦ k
  | some r ↦ record k {
    lifecycle = record k.lifecycle {
      records = Dict.insert k.lifecycle.records id (record r { pending_interrupt = pending });
    };
  }
]

unfoldable pub set_run_interrupt :
    Timestamp → RunId → FlowInterrupt → Kernel → Result (Unit {0}) × Kernel
unfolding register_flow_interrupt
set_run_interrupt now id i k = elim (Dict.get k.runs id) [
  | none ↦ (err (not_found (text "Run not found: " ∷ text id ∷ [])), set_pending id (some i.id) k)
  | some run ↦
      let registered = record k {
        interrupts =
            register_flow_interrupt now i run.identity.request_id run.identity.user_id
              run.identity.session_id run.identity.envelope_id k.interrupts;
      } in
      (ok tt, put_run id (set_interrupt i run) (set_pending id (some i.id) registered))
]

-- The response is kept for the next agent, and the interrupt is gone.
unfoldable pub answer_run : Value → Run → Run
answer_run response run = clear_interrupt (record run {
  audit = record run.audit { metadata = Dict.insert run.audit.metadata response_key response };
})

module _ (response_value : InterruptResponse → Value) where
  unfoldable pub resolve_run_interrupt :
      RunId → InterruptId → InterruptResponse → Kernel → Result (Unit {0}) × Kernel
  unfolding answer_run
  resolve_run_interrupt id interrupt_id response k =
      let (known, s) = resolve interrupt_id response k.interrupts in
      let k' = record k { interrupts = s } in
      if known
      then (
        ok tt,
        set_pending id none (elim (Dict.get k'.runs id) [
          | none ↦ k'
          | some run ↦ put_run id (answer_run (response_value response) run) k'
        ]),
      )
      else (err (not_found (text "Interrupt " ∷ text interrupt_id ∷ text " not found" ∷ [])), k')

-- `run.complete("Run terminated")` on the run that is then removed.
unfoldable pub complete_run : Timestamp → RunId → Dict Run → Dict Run
complete_run now id runs = elim (Dict.get runs id) [
  | none ↦ runs
  | some run ↦ Dict.insert runs id (Run.complete now "Run terminated" run)
]

unfoldable pub terminate_run : Timestamp → RunId → Kernel → Result (Unit {0}) × Kernel
unfolding complete_run
terminate_run now id k =
    let (r, g) = Lifecycle.terminate now id k.lifecycle in
    let k' = record k { lifecycle = g } in
    elim r [
      | err e ↦ (err e, k')
      | ok _ ↦ (
        ok tt,
        record k' {
          runs = Dict.remove (complete_run now id k.runs) id;
          orchestrator = (cleanup_session id k.orchestrator).1;
        },
      )
    ]

remove_runs : List RunId → Dict Run → Dict Run
remove_runs [] runs = runs
remove_runs (id ∷ ids) runs = remove_runs ids (Dict.remove runs id)

unfoldable pub cleanup_stale_sessions : Timestamp → ℤ → Kernel → ℕ × Kernel
unfolding remove_runs
cleanup_stale_sessions now max_age_seconds k =
    let (removed, o) = Session.cleanup_stale_sessions now max_age_seconds k.orchestrator in
    (length removed, record k { orchestrator = o; runs = remove_runs removed k.runs })

unfoldable pub cleanup_stale_user_usage : ℕ → Kernel → ℕ × Kernel
unfolding get_active_user_ids
cleanup_stale_user_usage max_entries k =
    let (n, r) =
      Resources.cleanup_stale_users (get_active_user_ids k.lifecycle) max_entries k.resources in
    (n, record k { resources = r })

-- The map `runs_by_state` has exactly the three states as its keys.
pub record SystemStatus : Type 0 where
  pub runs_total : ℕ
  pub runs_by_state : RunStatus → ℕ
  pub active_orchestration_sessions : ℕ

unfoldable pub get_system_status : Kernel → SystemStatus
get_system_status k = record {
  runs_total = Lifecycle.count k.lifecycle;
  runs_by_state = λ s. count_by_state s k.lifecycle;
  active_orchestration_sessions = get_session_count k.orchestrator;
}

-- No time limit is `f64::MAX` in the source and `none` here.
pub record RemainingBudget : Type 0 where
  pub llm_calls_remaining : ℤ
  pub iterations_remaining : ℤ
  pub agent_hops_remaining : ℤ
  pub tokens_in_remaining : ℤ
  pub tokens_out_remaining : ℤ
  pub time_remaining_ms : Option ℤ

-- `z.max(0)`.
abbrev at_least_zero : ℤ → ℤ
at_least_zero z = if ltb_ℤ z (pos 0) then pos 0 else z

unfoldable pub get_remaining_budget : Timestamp → RunId → Kernel → Option RemainingBudget
unfolding usage_from_run sub_i32 sub_i64 ◌-ℤ◌
get_remaining_budget now id k =
    map_option
      (λ r.
        let u = usage_from_run now id r k in
        record {
          llm_calls_remaining = at_least_zero (sub_i32 r.quota.max_llm_calls u.llm_calls);
          iterations_remaining = at_least_zero (sub_i32 r.quota.max_iterations u.iterations);
          agent_hops_remaining = at_least_zero (sub_i32 r.quota.max_agent_hops u.agent_hops);
          tokens_in_remaining = at_least_zero (sub_i64 r.quota.max_input_tokens u.tokens_in);
          tokens_out_remaining = at_least_zero (sub_i64 r.quota.max_output_tokens u.tokens_out);
          time_remaining_ms =
              if ltb_ℤ (pos 0) r.quota.timeout_seconds
              then some (at_least_zero (in_ms r.quota.timeout_seconds -ℤ u.elapsed_ms))
              else none;
        })
      (Lifecycle.get id k.lifecycle)
