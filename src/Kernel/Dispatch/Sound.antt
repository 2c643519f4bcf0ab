-- ===== src/Kernel/Dispatch/Sound.antt =====
-- The runs that go on stay within their limits, whichever method of the kernel is called
-- (src/kernel/dispatch.rs).
pub mod Asked
pub mod Taken
use jeeves_core.Prelude.{
  String, ◌≡◌, refl, sym, ap, subst, ◌∙◌, Bool, true, false, not, Option, none, some, unwrap_or,
  inl, inr, [], arith, ◌==◌, eq_iff, eq_refl, Bool-cases, Option-cases,
}
use jeeves_core.Prelude.Dict
use jeeves_core.Prelude.Dict.{Dict}
use jeeves_core.Json.{Value}
use jeeves_core.Types.{
  RunId, InterruptId, StageName, Timestamp, Error, Result, ok, err, Result-cases,
}
use jeeves_core.Workflow
use jeeves_core.Workflow.{Workflow}
use jeeves_core.Run.{Run, FlowInterrupt, InterruptResponse, add_processing_record}
use jeeves_core.Kernel.Protocol.{
  Instruction, run_agent_with, terminate_with_context, wait_interrupt, AgentExecutionMetrics,
}
use jeeves_core.Kernel.Interrupts.{register_flow_interrupt, resolve}
use jeeves_core.Kernel.Lifecycle
use jeeves_core.Kernel.Orchestrator
use jeeves_core.Kernel.Orchestrator.{
  Orchestration, Orchestrator, advance, book, report_agent_result,
}
use jeeves_core.Kernel.Orchestrator.Reporting.{
  Reported, bounded, broken, lost, routed, report-cases,
}
use jeeves_core.Kernel.Orchestrator.Session.{new_session, initialize_session}
use jeeves_core.Kernel.Orchestrator.Queries.{
  get_state_schema, get_stage_output_key, take_last_routing_decision,
}
use jeeves_core.Kernel.Orchestrator.Visits.{carry}
use jeeves_core.Kernel.Orchestrator.History.{
  IsFresh, Fits, IsSound, ask-IsSound, host-IsSound, instruct_keeps,
}
use jeeves_core.Kernel.Dispatch.{
  Kernel, put_run, enrich, deliver, get_next_instruction, finish_report, process_known,
  process_agent_result,
}
use jeeves_core.Kernel.Dispatch.Runs.{
  initialize_orchestration, terminate_run, set_pending, set_run_interrupt, answer_run,
  resolve_run_interrupt,
}
use jeeves_core.Kernel.Dispatch.Records.{
  taken_fields, charged, HoldsSound, process-HoldsSound, initialize-HoldsSound,
  terminate_run_removes,
}
use jeeves_core.Kernel.AgentOutput.{processing_record, take_output}
use jeeves_core.Kernel.Dispatch.Results.{other_kept, result_isolated}

-- Each run that the kernel holds and that is not terminated is within its limits.
pub record AllSound (k : Kernel) : Type 0 where
  pub apply :
      (id : RunId) (run : Run)
      → Dict.get k.runs id ≡ some run
      → run.termination ≡ none
      → IsSound id run k.orchestrator

IsSound-sessions :
    (id : RunId) (run : Run) (o o' : Orchestrator)
    → Dict.get o'.sessions id ≡ Dict.get o.sessions id
    → IsSound id run o
    → IsSound id run o'
IsSound-sessions id run o o' e s = record {
  session = s.session;
  known = e ∙ s.known;
  valid = s.valid;
  fits = s.fits;
  limits = s.limits;
  visited = s.visited;
}

-- A method that concerns one run, and leaves that run sound.
pub AllSound-at :
    (id : RunId) (k k' : Kernel)
    → ((other : RunId)
        → (id == other) ≡ false
        → (Dict.get k'.runs other ≡ Dict.get k.runs other)
          × (Dict.get k'.orchestrator.sessions other ≡ Dict.get k.orchestrator.sessions other))
    → ((run : Run)
        → Dict.get k'.runs id ≡ some run
        → run.termination ≡ none
        → IsSound id run k'.orchestrator)
    → AllSound k
    → AllSound k'
AllSound-at id k k' apart here h = record {
  apply = λ other run e t. elim (Bool-cases (id == other)) [
    | inl q ↦
        let same = (eq_iff id other).0 q in
        subst (λ j. IsSound j run k'.orchestrator) same
          (here run (subst (λ j. Dict.get k'.runs j ≡ some run) (sym same) e) t)
    | inr q ↦
        let (r, s) = apart other q in
        IsSound-sessions other run k.orchestrator k'.orchestrator s
          (h.apply other run (sym r ∙ e) t)
  ];
}

pub AllSound-same :
    (k k' : Kernel)
    → k'.runs ≡ k.runs
    → k'.orchestrator.sessions ≡ k.orchestrator.sessions
    → AllSound k
    → AllSound k'
AllSound-same k k' r s h = record {
  apply = λ id run e t.
      IsSound-sessions id run k.orchestrator k'.orchestrator (ap (λ d. Dict.get d id) s)
        (h.apply id run (ap (λ d. Dict.get d id) (sym r) ∙ e) t);
}

-- The run that is held is the one that was stored.
pub stored :
    (id : RunId) (x : Run) (k : Kernel)
    → Dict.get k.runs id ≡ some x
    → (x.termination ≡ none → IsSound id x k.orchestrator)
    → (run : Run) → Dict.get k.runs id ≡ some run
    → run.termination ≡ none
    → IsSound id run k.orchestrator
stored id x k e s run f t =
    let same : x ≡ run = cc in
    subst (λ y. IsSound id y k.orchestrator) same (s (ap (λ y. y.termination) same ∙ t))

AllSound-put_run :
    (id : RunId) (x : Run) (k : Kernel)
    → (x.termination ≡ none → IsSound id x k.orchestrator)
    → AllSound k
    → AllSound (put_run id x k)
AllSound-put_run id x k s =
    AllSound-at id k (put_run id x k) (λ other q. (other_kept k.runs id other x q, refl))
      (stored id x (put_run id x k) (Dict.get-insert_self k.runs id x) s)

pub terminate-AllSound :
    (now : Timestamp) (id : RunId) (k : Kernel) → AllSound k → AllSound (terminate_run now id k).1
terminate-AllSound now id k =
    AllSound-at id k (terminate_run now id k).1
      (λ other q. let (_, _, r, s) = terminate_run_removes now id other k in (rw q at r, rw q at s))
      (λ run e t.
        let (_, _, r, _) = terminate_run_removes now id id k in
        absurd (ground (arith, e, r, eq_refl id)))

pub set_pending_fields :
    (id : RunId) (p : Option InterruptId) (k : Kernel)
    → ((set_pending id p k).runs ≡ k.runs) × ((set_pending id p k).orchestrator ≡ k.orchestrator)
set_pending_fields id p k = elim (Option-cases (Lifecycle.get id k.lifecycle)) [
  | inl e ↦ rw (set_pending, e) (refl, refl)
  | inr (r, e) ↦ rw (set_pending, e) (refl, refl)
]

pub set-AllSound :
    (now : Timestamp) (id : RunId) (i : FlowInterrupt) (k : Kernel)
    → AllSound k
    → AllSound (set_run_interrupt now id i k).1
unfolding set_run_interrupt
set-AllSound now id i k h = elim (Option-cases (Dict.get k.runs id)) [
  | inl e ↦
      let p = set_pending_fields id (some i.id) k in
      rw (set_run_interrupt, e) (AllSound-same k _ p.0 (ap (λ o. o.sessions) p.1) h)
  | inr (run, e) ↦
      let registered = record k {
        interrupts =
            register_flow_interrupt now i run.identity.request_id run.identity.user_id
              run.identity.session_id run.identity.envelope_id k.interrupts;
      } in
      let pending = set_pending id (some i.id) registered in
      let p = set_pending_fields id (some i.id) registered in
      rw (set_run_interrupt, e)
        (AllSound-put_run id _ pending
          (λ t. subst (IsSound id _) (sym p.1) (
            host-IsSound id run k.orchestrator run.outputs run.state (record { interrupt = some i })
              run.audit (h.apply id run e t)))
          (AllSound-same k pending p.0 (ap (λ o. o.sessions) p.1) h))
]

pub resolve-AllSound :
    (value : InterruptResponse → Value) (id : RunId) (interrupt : InterruptId)
    (response : InterruptResponse) (k : Kernel)
    → AllSound k
    → AllSound (resolve_run_interrupt value id interrupt response k).1
unfolding resolve_run_interrupt
resolve-AllSound value id interrupt response k h =
    let (known, s) = resolve interrupt response k.interrupts in
    let k' : Kernel = record k { interrupts = s } in
    let h' = AllSound-same k k' refl refl h in
    elim (Bool-cases known) [
      | inr q ↦ rw (resolve_run_interrupt, q) h'
      | inl q ↦ elim (Option-cases (Dict.get k.runs id)) [
        | inl e ↦
            let p = set_pending_fields id none k' in
            rw (resolve_run_interrupt, q, e) (AllSound-same k' _ p.0 (ap (λ o. o.sessions) p.1) h')
        | inr (run, e) ↦
            let x = answer_run (value response) run in
            let p = set_pending_fields id none (put_run id x k') in
            rw (resolve_run_interrupt, q, e)
              (AllSound-same (put_run id x k') _ p.0 (ap (λ o. o.sessions) p.1) (
                AllSound-put_run id x k'
                  (λ t.
                    host-IsSound id run k.orchestrator run.outputs run.state x.interrupts x.audit
                      (h.apply id run e t))
                  h'))
      ]
    ]
