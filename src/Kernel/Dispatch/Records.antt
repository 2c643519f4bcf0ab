-- ===== src/Kernel/Dispatch/Records.antt =====
-- What the kernel's operations do to the records it keeps of a run (src/kernel/dispatch.rs).
use jeeves_core.Prelude.{
  String, ◌≡◌, ◌↔◌, refl, sym, ap, subst, ◌∙◌, Bool, true, false, not, Option, none, some,
  unwrap_or, inl, inr, List, [], ◌==◌, Option-cases, if◌then◌else◌,
}
use jeeves_core.Prelude.Dict
use jeeves_core.Prelude.Dict.{Dict}
use jeeves_core.Json.{Value}
use jeeves_core.Types.{RunId, Timestamp, Result, ok, err, Result-cases}
use jeeves_core.Run
use jeeves_core.Run.{Run, InterruptResponse, add_processing_record}
use jeeves_core.Kernel.Protocol.{RunSnapshot, AgentExecutionMetrics}
use jeeves_core.Kernel.Quota.Within.{IsWithin}
use jeeves_core.Kernel.Orchestrator.{report_agent_result}
use jeeves_core.Kernel.Orchestrator.Queries.{get_state_schema, get_stage_output_key}
use jeeves_core.Kernel.Orchestrator.Session.{initialize_session, cleanup_session}
use jeeves_core.Kernel.Orchestrator.History.{
  IsFresh, Fits, start-IsSound, IsSound, report-IsSound, host-IsSound,
}
use jeeves_core.Kernel.Lifecycle
use jeeves_core.Kernel.Lifecycle.{RunRecord}
use jeeves_core.Kernel.Lifecycle.Machine.{terminate_effect}
use jeeves_core.Workflow.{Workflow, StateField}
use jeeves_core.Kernel.Dispatch.{
  put_run, finish_report, charge_user, record_user_usage, Kernel, process_agent_result,
  process_known,
}
use jeeves_core.Kernel.Dispatch.Usage.{used, waited, usage-used, check_quota-usage}
use jeeves_core.Kernel.AgentOutput.{processing_record, note_failure, update_metadata, take_output}
use jeeves_core.Kernel.Dispatch.Runs.{
  initialize_orchestration, terminate_run, complete_run, check_quota,
}

-- The quota check of a run with a record passes exactly when each counter of the run's state is
-- within the limit of that name in the record's quota, and the milliseconds since the record was
-- started, up to its completion or to now, are within the timeout, where there is one. A run that
-- the kernel holds no state of has counters of zero.
pub check_quota_iff :
    (now : Timestamp) (id : RunId) (k : Kernel) {r : RunRecord}
    → Lifecycle.get id k.lifecycle ≡ some r
    → (check_quota now id k ≡ ok tt)
      ↔ IsWithin (used (waited now r.started_at r.completed_at) (Dict.get k.runs id)) r.quota
check_quota_iff now id k {r} e =
    subst (λ u. (check_quota now id k ≡ ok tt) ↔ IsWithin u r.quota) (usage-used now id r k)
      (check_quota-usage now id k e)

-- The completion of a run that is removed leaves no trace.
get-complete_run :
    (now : Timestamp) (id other : RunId) (runs : Dict Run)
    → Dict.get (Dict.remove (complete_run now id runs) id) other
      ≡ (if id == other then none else Dict.get runs other)
unfolding complete_run
get-complete_run now id other runs = elim (Option-cases (Dict.get runs id)) [
  | inl e ↦ rw (e, complete_run) (Dict.get-remove runs id other)
  | inr (run, e) ↦
      rw (e, complete_run)
        (ap (λ d. Dict.get d other)
            (Dict.remove-insert_self runs id (Run.complete now "Run terminated" run))
          ∙ Dict.get-remove runs id other)
]

-- `terminate_run` succeeds, and the run has no record, no state and no session afterwards; those
-- of all other runs stay.
pub terminate_run_removes :
    (now : Timestamp) (id other : RunId) (k : Kernel)
    → let k' = (terminate_run now id k).1 in
      ((terminate_run now id k).0 ≡ ok tt)
      × (Lifecycle.get other k'.lifecycle
          ≡ (if id == other then none else Lifecycle.get other k.lifecycle))
      × (Dict.get k'.runs other ≡ (if id == other then none else Dict.get k.runs other))
      × (Dict.get k'.orchestrator.sessions other
          ≡ (if id == other then none else Dict.get k.orchestrator.sessions other))
unfolding terminate_run cleanup_session
terminate_run_removes now id other k =
    let t = terminate_effect now id k.lifecycle other in
    rw (t.0, terminate_run)
      (
        refl,
        t.1,
        get-complete_run now id other k.runs,
        Dict.get-remove k.orchestrator.sessions id other,
      )

-- What `process_agent_result` writes before it reports, as the changes of four fields.
pub taken_fields :
    (schema : List StateField) (output_key agent : String) (output : Value)
    (updates : Option (Dict Value)) (success : Bool) (error_message : String) (run : Run)
    → let taken = take_output schema output_key agent output updates success error_message run in
      taken ≡ record run {
        outputs = taken.outputs;
        state = taken.state;
        interrupts = run.interrupts;
        audit = taken.audit;
      }
unfolding take_output note_failure update_metadata
taken_fields schema output_key agent output none true error_message run = refl
taken_fields schema output_key agent output none false error_message run = refl
taken_fields schema output_key agent output (some u) true error_message run = refl
taken_fields schema output_key agent output (some u) false error_message run = refl

pub charged :
    (id : RunId) (metrics : AgentExecutionMetrics) (k : Kernel)
    → ((charge_user id metrics k).runs ≡ k.runs)
      × ((charge_user id metrics k).orchestrator ≡ k.orchestrator)
      × ((charge_user id metrics k).lifecycle ≡ k.lifecycle)
unfolding charge_user record_user_usage
charged id metrics k = elim (Option-cases (Lifecycle.get id k.lifecycle)) [
  | inl e ↦ rw (e, charge_user) (refl, refl, refl)
  | inr (r, e) ↦ rw (e, charge_user) (refl, refl, refl)
]

-- Kernel and orchestrator hold a run that is within its limits.
pub record HoldsSound (id : RunId) (k : Kernel) : Type 0 where
  pub run : Run
  pub held : Dict.get k.runs id ≡ some run
  pub sound : IsSound id run k.orchestrator

finish_report-HoldsSound :
    (now : Timestamp) (id : RunId) (agent : String) (metrics : AgentExecutionMetrics)
    (success : Bool) (error_message : String) (run : Run) (k : Kernel) (r : Result (Unit {0}))
    → IsSound id run k.orchestrator
    → HoldsSound id (finish_report now id agent metrics success error_message run k r).1
unfolding finish_report add_processing_record
finish_report-HoldsSound now id agent metrics success error_message run k (err e) s = record {
  run = run;
  held = Dict.get-insert_self k.runs id run;
  sound = s;
}
finish_report-HoldsSound now id agent metrics success error_message run k (ok u) s =
    let done =
      add_processing_record (processing_record now agent metrics success error_message run) run in
    let c = charged id metrics (put_run id done k) in
    record {
      run = done;
      held = ap (λ d. Dict.get d id) c.0 ∙ Dict.get-insert_self k.runs id done;
      sound =
          rw c.1
            (host-IsSound id run k.orchestrator run.outputs run.state run.interrupts done.audit s);
    }

process_known-HoldsSound :
    (value : InterruptResponse → Value) (now : Timestamp) (id : RunId) (run : Run) (agent : String)
    (output : Value) (updates : Option (Dict Value)) (metrics : AgentExecutionMetrics)
    (success : Bool) (error_message : String) (break_loop : Bool) (k : Kernel)
    → run.termination ≡ none
    → IsSound id run k.orchestrator
    → HoldsSound id
        (process_known value now id run agent output updates metrics success error_message
          break_loop k).1
unfolding process_known
process_known-HoldsSound value now id run agent output updates metrics success error_message broke k
      t s =
    let schema = unwrap_or [] (get_state_schema id k.orchestrator) in
    let output_key = unwrap_or agent (get_stage_output_key id agent k.orchestrator) in
    let taken = take_output schema output_key agent output updates success error_message run in
    let f = taken_fields schema output_key agent output updates success error_message run in
    let h =
      host-IsSound id run k.orchestrator taken.outputs taken.state run.interrupts taken.audit s in
    let not_ended = ap (λ x. x.termination) f ∙ t in
    let sound = subst (λ x. IsSound id x k.orchestrator) (sym f) h in
    let reported =
      report_agent_result value now id metrics taken (not success) broke k.orchestrator in
    finish_report-HoldsSound now id agent metrics success error_message reported.1
      (record k { orchestrator = reported.2 }) reported.0
      (report-IsSound value now id metrics taken (not success) broke k.orchestrator not_ended sound)

-- Taking an agent's result keeps the run of a session within its limits, whatever the result is:
-- for a run that is not terminated and is sound, the kernel holds a sound run afterwards, also
-- where the call ends in an error.
pub process-HoldsSound :
    (value : InterruptResponse → Value) (now : Timestamp) (id : RunId) (agent : String)
    (output : Value) (updates : Option (Dict Value)) (metrics : AgentExecutionMetrics)
    (success : Bool) (error_message : String) (break_loop : Bool) (k : Kernel) (h : HoldsSound id k)
    → h.run.termination ≡ none
    → HoldsSound id
        (process_agent_result value now id agent output updates metrics success error_message
          break_loop k).1
unfolding process_agent_result
process-HoldsSound value now id agent output updates metrics success error_message broke k h t =
    rw (h.held, process_agent_result)
      (process_known-HoldsSound value now id h.run agent output updates metrics success
        error_message broke _ t h.sound)

-- An orchestration that is initialised with a fresh run and a workflow of `i32` bounds, and
-- without an error, leaves the kernel with a run and a session within their limits.
pub initialize-HoldsSound :
    (run_value : Run → Value) (now : Timestamp) (id : RunId) (w : Workflow) (run : Run)
    (force : Bool) (k : Kernel) {snapshot : RunSnapshot}
    → IsFresh run
    → Fits w
    → (initialize_orchestration run_value now id w run force k).0 ≡ ok snapshot
    → HoldsSound id (initialize_orchestration run_value now id w run force k).1
unfolding initialize_orchestration
initialize-HoldsSound run_value now id w run force k f g h =
    let i = initialize_session run_value now id w run force k.orchestrator in
    elim (Result-cases i.0) [
      | inr (x, e) ↦ absurd (let p = (rw (e, initialize_orchestration) at h) in cc)
      | inl (s, e) ↦
          rw (e, initialize_orchestration)
            (record {
              run = i.1;
              held = Dict.get-insert_self k.runs id i.1;
              sound = start-IsSound run_value now id w run force k.orchestrator f g e;
            })
    ]
