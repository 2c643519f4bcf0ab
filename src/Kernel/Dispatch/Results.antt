-- ===== src/Kernel/Dispatch/Results.antt =====
-- What an agent's result leaves in its run (src/kernel/dispatch.rs, `process_agent_result`).
use jeeves_core.Prelude.{
  String, ◌≡◌, refl, ap, ◌∙◌, Bool, true, false, not, Option, none, some, unwrap_or, inl, inr, List,
  [], ◌∷◌, ◌++◌, arith, ◌==◌, Bool-cases, Option-cases,
}
use jeeves_core.Prelude.Dict
use jeeves_core.Prelude.Dict.{Dict}
use jeeves_core.Json.{Value}
use jeeves_core.Types.{RunId, StageName, Timestamp, Result, ok, err}
use jeeves_core.Workflow.{StateField}
use jeeves_core.Run.{Run, check_bounds, InterruptResponse, ProcessingRecord, add_processing_record}
use jeeves_core.Kernel.Protocol.{AgentExecutionMetrics}
use jeeves_core.Kernel.Orchestrator.{
  Orchestration, Orchestrator, book, advance, find_stage, apply_routing_result, route_from,
  report_agent_result,
}
use jeeves_core.Kernel.Orchestrator.Queries.{get_state_schema, get_stage_output_key}
use jeeves_core.Kernel.Orchestrator.Reporting.{bounded, broken, lost, routed, report-cases}
use jeeves_core.Kernel.AgentOutput.{
  agent_output, note_failure, update_metadata, take_output, processing_record,
}
use jeeves_core.Kernel.Dispatch.{
  Kernel, record_tools, put_run, finish_report, process_known, process_agent_result,
}
use jeeves_core.Kernel.Dispatch.Records.{charged}
use jeeves_core.Kernel.Dispatch.Outputs.{kept_value, get-agent_output}

pub other_kept {ℓ} :
    {V : Type ℓ} (d : Dict V) (id other : String) (v : V)
    → (id == other) ≡ false
    → Dict.get (Dict.insert d id v) other ≡ Dict.get d other
other_kept d id other v h = rw (Dict.get-insert d id other v, h) refl

-- Where a run goes leaves its outputs and its audit trail alone.
advance_keeps :
    (session : Orchestration) (target : Option StageName) (run : Run)
    → ((advance session target run).outputs ≡ run.outputs)
      × ((advance session target run).audit ≡ run.audit)
unfolding advance
advance_keeps session target run = ground arith

report_keeps :
    (value : InterruptResponse → Value) (now : Timestamp) (id : RunId)
    (metrics : AgentExecutionMetrics) (run : Run) (failed broke : Bool) (o : Orchestrator)
    → let run' = (report_agent_result value now id metrics run failed broke o).1 in
      (run'.outputs ≡ run.outputs) × (run'.audit ≡ run.audit)
unfolding report_agent_result book
report_keeps value now id metrics run failed broke o =
    elim (Option-cases (Dict.get o.sessions id)) [
      | inl e ↦ rw (e, report_agent_result) (refl, refl)
      | inr (session, e) ↦ elim (report-cases value now id metrics run failed broke o session e) [
        | bounded reason b p q r ↦ rw q (refl, refl)
        | broken b k p q r ↦ rw q (refl, refl)
        | lost b k f p q r ↦ rw q (refl, refl)
        | routed stage decision b k f d p q r ↦ rw q (advance_keeps _ decision.target _)
      ]
    ]

-- The outputs after a result, and the history, which the result's metadata leave alone.
take_output_writes :
    (schema : List StateField) (output_key agent : String) (output : Value)
    (updates : Option (Dict Value)) (success : Bool) (error_message : String) (run : Run)
    → let taken = take_output schema output_key agent output updates success error_message run in
      (taken.outputs ≡ Dict.insert run.outputs agent (agent_output output success error_message))
      × (taken.audit.processing_history ≡ run.audit.processing_history)
unfolding take_output note_failure update_metadata
take_output_writes schema output_key agent output none true error_message run = (refl, refl)
take_output_writes schema output_key agent output none false error_message run = (refl, refl)
take_output_writes schema output_key agent output (some u) true error_message run = (refl, refl)
take_output_writes schema output_key agent output (some u) false error_message run = (refl, refl)

finish_report-ok :
    (now : Timestamp) (id : RunId) (agent : String) (metrics : AgentExecutionMetrics)
    (success : Bool) (error_message : String) (run : Run) (k : Kernel) (r : Result (Unit {0}))
    → (finish_report now id agent metrics success error_message run k r).0 ≡ ok tt
    → Dict.get (finish_report now id agent metrics success error_message run k r).1.runs id
      ≡ some (
          add_processing_record (processing_record now agent metrics success error_message run) run)
unfolding finish_report
finish_report-ok now id agent metrics success error_message run k (err e) h = cc
finish_report-ok now id agent metrics success error_message run k (ok u) h =
    let done =
      add_processing_record (processing_record now agent metrics success error_message run) run in
    ap (λ d. Dict.get d id) (charged id metrics (put_run id done k)).0
    ∙ Dict.get-insert_self k.runs id done

-- A result that is taken without an error leaves the agent's output in the outputs of the run, in
-- place of an earlier output of the agent, and the outputs of all other agents as they were: under
-- each key stands the last value that the output, when it is an object, has for it, but a failure is
-- marked by `false` under "success" and, if there is one, its message under "error". The history
-- has exactly one more record, at its end, which names the agent.
pub result_recorded :
    (value : InterruptResponse → Value) (now : Timestamp) (id : RunId) (agent : String)
    (output : Value) (updates : Option (Dict Value)) (metrics : AgentExecutionMetrics)
    (success : Bool) (error_message : String) (break_loop : Bool) (k : Kernel) {run : Run}
    → Dict.get k.runs id ≡ some run
    → (process_agent_result value now id agent output updates metrics success error_message
        break_loop k).0
      ≡ ok tt
    → (run' : Run) × (Dict.get
          (process_agent_result value now id agent output updates metrics success error_message
            break_loop k).1.runs
          id
        ≡ some run')
      × ((written : Dict Value) × (run'.outputs ≡ Dict.insert run.outputs agent written)
          × ((key : String) → Dict.get written key ≡ kept_value output success error_message key))
      × (r : ProcessingRecord) × (r.agent ≡ agent)
      × (run'.audit.processing_history ≡ run.audit.processing_history ++ r ∷ [])
unfolding process_agent_result process_known add_processing_record processing_record
result_recorded value now id agent output updates metrics success error_message broke k {run} e h =
    let k1 = record k { health = record_tools now metrics.tool_results k.health } in
    let schema = unwrap_or [] (get_state_schema id k.orchestrator) in
    let output_key = unwrap_or agent (get_stage_output_key id agent k.orchestrator) in
    let taken = take_output schema output_key agent output updates success error_message run in
    let reported =
      report_agent_result value now id metrics taken (not success) broke k.orchestrator in
    let last = processing_record now agent metrics success error_message reported.1 in
    let f =
      finish_report-ok now id agent metrics success error_message reported.1
        (record k1 { orchestrator = reported.2 }) reported.0 (rw (e, process_agent_result) at h) in
    let w = take_output_writes schema output_key agent output updates success error_message run in
    let r = report_keeps value now id metrics taken (not success) broke k.orchestrator in
    (
      add_processing_record last reported.1,
      rw (e, process_agent_result) f,
      (
        agent_output output success error_message,
        r.0 ∙ w.0,
        λ key. get-agent_output output success error_message key,
      ),
      last,
      refl,
      ap (λ h. h ++ last ∷ []) (ap (λ a. a.processing_history) r.1 ∙ w.1),
    )

apply-other :
    (now : Timestamp) (id other : RunId) (target : Option StageName) (run : Run) (o : Orchestrator)
    → (id == other) ≡ false
    → Dict.get (apply_routing_result now id target run o).2.sessions other
      ≡ Dict.get o.sessions other
unfolding apply_routing_result
apply-other now id other target run o h = elim (Option-cases (Dict.get o.sessions id)) [
  | inl e ↦ rw (e, apply_routing_result) refl
  | inr (session, e) ↦ rw (e, apply_routing_result) (other_kept o.sessions id other _ h)
]

-- A report touches the session of its run alone.
report-other :
    (value : InterruptResponse → Value) (now : Timestamp) (id other : RunId)
    (metrics : AgentExecutionMetrics) (run : Run) (failed broke : Bool) (o : Orchestrator)
    → (id == other) ≡ false
    → Dict.get (report_agent_result value now id metrics run failed broke o).2.sessions other
      ≡ Dict.get o.sessions other
unfolding report_agent_result route_from
report-other value now id other metrics run failed broke o h =
    let booked = book metrics run in
    elim (Option-cases (Dict.get o.sessions id)) [
      | inl e ↦ rw (e, report_agent_result) refl
      | inr (session, e) ↦ elim (Option-cases (check_bounds booked)) [
        | inr (reason, b) ↦ rw (e, report_agent_result, b) refl
        | inl b ↦ elim (Bool-cases broke) [
          | inl q ↦ rw (e, report_agent_result, b, q) (other_kept o.sessions id other _ h)
          | inr q ↦ elim (Option-cases (find_stage session.workflow booked.current_stage)) [
            | inl f ↦ rw (e, report_agent_result, b, q, f) refl
            | inr (stage, f) ↦
                rw (e, report_agent_result, b, q, f)
                  (apply-other now id other _ booked _ h ∙ other_kept o.sessions id other _ h)
          ]
        ]
      ]
    ]

finish_report-other :
    (now : Timestamp) (id other : RunId) (agent : String) (metrics : AgentExecutionMetrics)
    (success : Bool) (error_message : String) (run : Run) (k : Kernel) (r : Result (Unit {0}))
    → (id == other) ≡ false
    → let k' = (finish_report now id agent metrics success error_message run k r).1 in
      (Dict.get k'.runs other ≡ Dict.get k.runs other)
      × (k'.orchestrator ≡ k.orchestrator)
      × (k'.lifecycle ≡ k.lifecycle)
unfolding finish_report
finish_report-other now id other agent metrics success error_message run k (err e) h =
    (other_kept k.runs id other run h, refl, refl)
finish_report-other now id other agent metrics success error_message run k (ok u) h =
    let done =
      add_processing_record (processing_record now agent metrics success error_message run) run in
    let c = charged id metrics (put_run id done k) in
    (ap (λ d. Dict.get d other) c.0 ∙ other_kept k.runs id other done h, c.1, c.2)

-- A result for one run, whether it is taken or ends in an error, leaves the state and the session
-- of every other run as they were, and all run records.
pub result_isolated :
    (value : InterruptResponse → Value) (now : Timestamp) (id other : RunId) (agent : String)
    (output : Value) (updates : Option (Dict Value)) (metrics : AgentExecutionMetrics)
    (success : Bool) (error_message : String) (break_loop : Bool) (k : Kernel)
    → (id == other) ≡ false
    → let k' =
        (process_agent_result value now id agent output updates metrics success error_message
          break_loop k).1 in
      (Dict.get k'.runs other ≡ Dict.get k.runs other)
      × (Dict.get k'.orchestrator.sessions other ≡ Dict.get k.orchestrator.sessions other)
      × (k'.lifecycle ≡ k.lifecycle)
unfolding process_agent_result process_known
result_isolated value now id other agent output updates metrics success error_message broke k h =
    elim (Option-cases (Dict.get k.runs id)) [
      | inl e ↦ rw (e, process_agent_result) (refl, refl, refl)
      | inr (run, e) ↦
          let k1 = record k { health = record_tools now metrics.tool_results k.health } in
          let schema = unwrap_or [] (get_state_schema id k.orchestrator) in
          let output_key = unwrap_or agent (get_stage_output_key id agent k.orchestrator) in
          let taken =
            take_output schema output_key agent output updates success error_message run in
          let reported =
            report_agent_result value now id metrics taken (not success) broke k.orchestrator in
          let f =
            finish_report-other now id other agent metrics success error_message reported.1
              (record k1 { orchestrator = reported.2 }) reported.0 h in
          rw (e, process_agent_result)
            (
              f.0,
              ap (λ o. Dict.get o.sessions other) f.1
                  ∙ report-other value now id other metrics taken (not success) broke k.orchestrator
                      h,
              f.2,
            )
    ]
