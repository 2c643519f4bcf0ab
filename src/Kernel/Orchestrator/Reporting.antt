-- ===== src/Kernel/Orchestrator/Reporting.antt =====
-- What one `report_agent_result` does to the run and to the session (src/kernel/orchestrator.rs).
use jeeves_core.Prelude.{
  ◌≡◌, refl, inl, inr, Bool, true, false, Option, none, some, [], ◌∷◌, ap, ◌∙◌, Option-cases,
  Bool-cases,
}
use jeeves_core.Prelude.Dict
use jeeves_core.Prelude.Dict.{dict_laws}
use jeeves_core.Json.{Value}
use jeeves_core.Types.{RunId, StageName, Timestamp, text, state_transition, Result, ok, err}
use jeeves_core.Workflow.{Stage}
use jeeves_core.Run.{
  Run, InterruptResponse, TerminalReason, break_requested, check_bounds, terminate_with,
}
use jeeves_core.Kernel.Routing.{RoutingDecision}
use jeeves_core.Kernel.Protocol.{AgentExecutionMetrics}
use jeeves_core.Kernel.Orchestrator.{
  Orchestration, Orchestrator, put_session, find_stage, book, advance, apply_routing_result,
  count_visit, decide, route_from, report_agent_result,
}

-- The session after a report, when the stage's visit is counted and the run moves on.
abbrev pub moved : Timestamp → Orchestration → Run → RoutingDecision → Orchestration
moved now session run decision = record (count_visit session run.current_stage decision) {
  last_activity_at = now;
}

module _ (response_value : InterruptResponse → Value) (now : Timestamp) (id : RunId)
    (metrics : AgentExecutionMetrics) (run : Run) (agent_failed break_loop : Bool)
    (o : Orchestrator) where
  abbrev pub booked : Run
  booked = book metrics run

  abbrev pub reported : Result (Unit {0}) × Run × Orchestrator
  reported = report_agent_result response_value now id metrics run agent_failed break_loop o

  -- The ways a report on a known session ends.
  pub data Reported (session : Orchestration) : Type 0 where
    bounded :
        (reason : TerminalReason)
        → check_bounds booked ≡ some reason
        → reported.0 ≡ ok tt
        → reported.1 ≡ terminate_with reason none booked
        → Dict.get reported.2.sessions id ≡ some session
        → Reported session
    broken :
        check_bounds booked ≡ none
        → break_loop ≡ true
        → reported.0 ≡ ok tt
        → reported.1 ≡ terminate_with break_requested none booked
        → Dict.get reported.2.sessions id ≡ some (record session { last_activity_at = now })
        → Reported session
    lost :
        check_bounds booked ≡ none
        → break_loop ≡ false
        → find_stage session.workflow booked.current_stage ≡ none
        → reported.0
          ≡ err (
              state_transition (
                text "Current stage '"
                ∷ text booked.current_stage
                ∷ text "' not found in workflow"
                ∷ []))
        → reported.1 ≡ booked
        → Dict.get reported.2.sessions id ≡ some session
        → Reported session
    routed :
        (stage : Stage) (decision : RoutingDecision)
        → check_bounds booked ≡ none
        → break_loop ≡ false
        → find_stage session.workflow booked.current_stage ≡ some stage
        → decision ≡ decide response_value stage agent_failed booked o.routing_registry
        → reported.0 ≡ ok tt
        → reported.1
          ≡ advance (count_visit session booked.current_stage decision) decision.target booked
        → Dict.get reported.2.sessions id ≡ some (moved now session booked decision)
        → Reported session

  apply-known :
      (session : Orchestration) (target : Option StageName) (r : Run) (p : Orchestrator)
      → Dict.get p.sessions id ≡ some session
      → apply_routing_result now id target r p ≡ (
        ok tt,
        advance session target r,
        put_session id (record session { last_activity_at = now }) p,
      )
  unfolding apply_routing_result
  apply-known session target r p e = rw (e, apply_routing_result) refl

  route_from-eq :
      (session : Orchestration) (stage : Stage) (r : Run)
      → let decision = decide response_value stage agent_failed r o.routing_registry in
        let counted = count_visit session r.current_stage decision in
        route_from response_value now id session stage agent_failed r o ≡ (
          ok tt,
          advance counted decision.target r,
          put_session id (record counted { last_activity_at = now }) (put_session id counted o),
        )
  unfolding route_from
  route_from-eq session stage r =
      let decision = decide response_value stage agent_failed r o.routing_registry in
      let counted = count_visit session r.current_stage decision in
      apply-known counted decision.target r (put_session id counted o)
        (Dict.get-insert_self o.sessions id counted)

  -- A report on a known session ends in one of four ways. With a bound reached after the
  -- bookkeeping, or with `break_loop`, the run is terminated for that reason. With a current stage
  -- that the workflow does not have, there is an error, and the bookkeeping stays. Else the visit
  -- is counted and the run goes where the decision of its stage leads, or ends.
  pub report-cases :
      (session : Orchestration) → Dict.get o.sessions id ≡ some session → Reported session
  unfolding report_agent_result
  report-cases session e = elim (Option-cases (check_bounds booked)) [
    | inr (reason, b) ↦
        ended (ok tt, terminate_with reason none booked, o) (rw (e, report_agent_result, b) refl)
          (λ p q r. bounded reason b p q (r ∙ e))
    | inl b ↦ elim (Bool-cases break_loop) [
      | inl k ↦
          ended
            (
              ok tt,
              terminate_with break_requested none booked,
              put_session id (record session { last_activity_at = now }) o,
            )
            (rw (e, report_agent_result, b, k) refl)
            (λ p q r. broken b k p q (r ∙ Dict.get-insert_self o.sessions id _))
      | inr k ↦ elim (Option-cases (find_stage session.workflow booked.current_stage)) [
        | inl f ↦
            ended
              (
                err (
                    state_transition (
                      text "Current stage '"
                      ∷ text booked.current_stage
                      ∷ text "' not found in workflow"
                      ∷ [])),
                booked,
                o,
              )
              (rw (e, report_agent_result, b, k, f) refl) (λ p q r. lost b k f p q (r ∙ e))
        | inr (stage, f) ↦
            let decision = decide response_value stage agent_failed booked o.routing_registry in
            let counted = count_visit session booked.current_stage decision in
            ended
              (
                ok tt,
                advance counted decision.target booked,
                put_session id (moved now session booked decision) (put_session id counted o),
              )
              (rw (e, report_agent_result, b, k, f) (route_from-eq session stage booked))
              (λ p q r. routed stage decision b k f refl p q (r ∙ Dict.get-insert_self _ id _))
      ]
    ]
  ]
    where
      ended :
          (t : Result (Unit {0}) × Run × Orchestrator)
          → reported ≡ t
          → (reported.0 ≡ t.0
              → reported.1 ≡ t.1
              → Dict.get reported.2.sessions id ≡ Dict.get t.2.sessions id
              → Reported session)
          → Reported session
      ended t p k = k (ap (λ x. x.0) p) (ap (λ x. x.1) p) (ap (λ x. Dict.get x.2.sessions id) p)
