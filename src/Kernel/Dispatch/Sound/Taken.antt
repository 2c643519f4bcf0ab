-- ===== src/Kernel/Dispatch/Sound/Taken.antt =====
-- Taking a result, and initialising an orchestration, keep the runs that go on within their limits
-- (src/kernel/dispatch.rs).
use jeeves_core.Prelude.{
  String, ◌≡◌, refl, sym, ap, ◌∙◌, Bool, false, not, Option, none, some, unwrap_or, inl, inr, [],
  arith, ◌==◌, Option-cases,
}
use jeeves_core.Prelude.Dict
use jeeves_core.Prelude.Dict.{Dict}
use jeeves_core.Json.{Value}
use jeeves_core.Types.{RunId, StageName, Timestamp, Error, Result, ok, err, Result-cases}
use jeeves_core.Workflow.{Workflow}
use jeeves_core.Run.{Run, InterruptResponse, add_processing_record}
use jeeves_core.Kernel.Protocol.{AgentExecutionMetrics}
use jeeves_core.Kernel.Orchestrator.{
  Orchestration, Orchestrator, advance, book, report_agent_result,
}
use jeeves_core.Kernel.Orchestrator.Reporting.{
  Reported, bounded, broken, lost, routed, report-cases,
}
use jeeves_core.Kernel.Orchestrator.Session.{new_session, initialize_session}
use jeeves_core.Kernel.Orchestrator.Queries.{get_state_schema, get_stage_output_key}
use jeeves_core.Kernel.Orchestrator.History.{IsFresh, Fits}
use jeeves_core.Kernel.Dispatch.{
  Kernel, put_run, finish_report, process_known, process_agent_result,
}
use jeeves_core.Kernel.Dispatch.Runs.{initialize_orchestration}
use jeeves_core.Kernel.Dispatch.Records.{
  taken_fields, charged, HoldsSound, process-HoldsSound, initialize-HoldsSound,
}
use jeeves_core.Kernel.AgentOutput.{processing_record, take_output}
use jeeves_core.Kernel.Dispatch.Results.{other_kept, result_isolated}
use jeeves_core.Kernel.Dispatch.Sound.{AllSound, AllSound-at, AllSound-same, stored}

-- A report never opens a run that was terminated.
advance_keeps :
    (session : Orchestration) (target : Option StageName) (run : Run)
    → (advance session target run).termination ≡ none
    → run.termination ≡ none
unfolding advance
advance_keeps session none run h = cc
advance_keeps session (some t) run h = ground (arith, h)

reported-open :
    (value : InterruptResponse → Value) (now : Timestamp) (id : RunId)
    (metrics : AgentExecutionMetrics) (run : Run) (failed broke : Bool) (o : Orchestrator)
    → (report_agent_result value now id metrics run failed broke o).1.termination ≡ none
    → run.termination ≡ none
unfolding report_agent_result book
reported-open value now id metrics run failed broke o h =
    elim (Option-cases (Dict.get o.sessions id)) [
      | inl e ↦ rw (e, report_agent_result) at h
      | inr (session, e) ↦
          go session (report-cases value now id metrics run failed broke o session e)
    ]
  where
    go :
        (session : Orchestration)
        → Reported value now id metrics run failed broke o session
        → run.termination ≡ none
    go session (bounded reason b p q r) = let ended = ap (λ x. x.termination) q in absurd (cc)
    go session (broken b k p q r) = let ended = ap (λ x. x.termination) q in absurd (cc)
    go session (lost b k f p q r) = ap (λ x. x.termination) (sym q) ∙ h
    go session (routed stage decision b k f d p q r) =
        advance_keeps _ decision.target (book metrics run) (ap (λ x. x.termination) (sym q) ∙ h)

finished-open :
    (now : Timestamp) (id : RunId) (agent : String) (metrics : AgentExecutionMetrics)
    (success : Bool) (message : String) (run : Run) (k : Kernel) (r : Result (Unit {0})) (x : Run)
    → Dict.get (finish_report now id agent metrics success message run k r).1.runs id ≡ some x
    → x.termination ≡ none
    → run.termination ≡ none
unfolding finish_report add_processing_record
finished-open now id agent metrics success message run k (err e) x h t =
    let same : run ≡ x = cc (sym (Dict.get-insert_self k.runs id run) ∙ h) in
    ap (λ y. y.termination) same ∙ t
finished-open now id agent metrics success message run k (ok u) x h t =
    let done =
      add_processing_record (processing_record now agent metrics success message run) run in
    let c = ap (λ d. Dict.get d id) (charged id metrics (put_run id done k)).0 in
    let same : done ≡ x = cc (sym (c ∙ Dict.get-insert_self k.runs id done) ∙ h) in
    ap (λ y. y.termination) same ∙ t

processed-open :
    (value : InterruptResponse → Value) (now : Timestamp) (id : RunId) (run : Run) (agent : String)
    (output : Value) (updates : Option (Dict Value)) (metrics : AgentExecutionMetrics)
    (success : Bool) (message : String) (broke : Bool) (k : Kernel) (x : Run)
    → Dict.get
        (process_known value now id run agent output updates metrics success message broke k).1.runs
        id
      ≡ some x
    → x.termination ≡ none
    → run.termination ≡ none
unfolding process_known
processed-open value now id run agent output updates metrics success message broke k x h t =
    let schema = unwrap_or [] (get_state_schema id k.orchestrator) in
    let output_key = unwrap_or agent (get_stage_output_key id agent k.orchestrator) in
    let taken = take_output schema output_key agent output updates success message run in
    let f = taken_fields schema output_key agent output updates success message run in
    let reported =
      report_agent_result value now id metrics taken (not success) broke k.orchestrator in
    let open_report =
      finished-open now id agent metrics success message reported.1
        (record k { orchestrator = reported.2 }) reported.0 x h t in
    ap (λ y. y.termination) (sym f)
    ∙ reported-open value now id metrics taken (not success) broke k.orchestrator open_report

pub process-AllSound :
    (value : InterruptResponse → Value) (now : Timestamp) (id : RunId) (agent : String)
    (output : Value) (updates : Option (Dict Value)) (metrics : AgentExecutionMetrics)
    (success : Bool) (message : String) (broke : Bool) (k : Kernel)
    → AllSound k
    → AllSound
        (process_agent_result value now id agent output updates metrics success message broke k).1
unfolding process_agent_result
process-AllSound value now id agent output updates metrics success message broke k h =
    let k' =
      (process_agent_result value now id agent output updates metrics success message broke k).1 in
    elim (Option-cases (Dict.get k.runs id)) [
      | inl e ↦ rw (process_agent_result, e) (AllSound-same k _ refl refl h)
      | inr (run, e) ↦
          AllSound-at id k k'
            (λ other q.
              let (r, s, _) =
                result_isolated value now id other agent output updates metrics success message
                  broke k q in
              (r, s))
            (λ x f t.
              let f' = rw (process_agent_result, e) at f in
              let open_run =
                processed-open value now id run agent output updates metrics success message broke _
                  x f' t in
              let holds : HoldsSound id k = record {
                run = run;
                held = e;
                sound = h.apply id run e open_run;
              } in
              let after =
                process-HoldsSound value now id agent output updates metrics success message broke k
                  holds open_run in
              stored id after.run k' after.held (λ u. after.sound) x f t)
            h
    ]

-- An initialisation that fails leaves the orchestrator as it was.
pub init_failed :
    (run_value : Run → Value) (now : Timestamp) (id : RunId) (w : Workflow) (run : Run)
    (force : Bool) (o : Orchestrator) {x : Error}
    → (initialize_session run_value now id w run force o).0 ≡ err x
    → (initialize_session run_value now id w run force o).2 ≡ o
unfolding initialize_session
init_failed run_value now id w run force o h = ground (arith, h)

pub init-other :
    (run_value : Run → Value) (now : Timestamp) (id other : RunId) (w : Workflow) (run : Run)
    (force : Bool) (o : Orchestrator)
    → (id == other) ≡ false
    → Dict.get (initialize_session run_value now id w run force o).2.sessions other
      ≡ Dict.get o.sessions other
unfolding initialize_session
init-other run_value now id other w run force o q =
    ground (arith, q, other_kept o.sessions id other (new_session now id w) q)

pub initialize-AllSound :
    (run_value : Run → Value) (now : Timestamp) (id : RunId) (w : Workflow) (run : Run)
    (force : Bool) (k : Kernel)
    → IsFresh run
    → Fits w
    → AllSound k
    → AllSound (initialize_orchestration run_value now id w run force k).1
unfolding initialize_orchestration
initialize-AllSound run_value now id w run force k f g h =
    let i = initialize_session run_value now id w run force k.orchestrator in
    let k' = (initialize_orchestration run_value now id w run force k).1 in
    elim (Result-cases i.0) [
      | inr (x, e) ↦
          let same = init_failed run_value now id w run force k.orchestrator e in
          rw (initialize_orchestration, e) (AllSound-same k _ refl (ap (λ o. o.sessions) same) h)
      | inl (s, e) ↦
          let started : (initialize_orchestration run_value now id w run force k).0 ≡ ok s =
            rw (initialize_orchestration, e) refl in
          let holds = initialize-HoldsSound run_value now id w run force k f g started in
          AllSound-at id k k'
            (λ other q.
              rw (initialize_orchestration, e)
                (
                  other_kept k.runs id other i.1 q,
                  init-other run_value now id other w run force k.orchestrator q,
                ))
            (stored id holds.run k' holds.held (λ u. holds.sound)) h
    ]
