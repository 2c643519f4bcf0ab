-- ===== src/Kernel/Orchestrator/Progress.antt =====
-- A worker that goes on reporting (src/kernel/orchestrator.rs, as driven by src/kernel/runner.rs):
-- the iterations bound its reports.
use jeeves_core.Prelude.{
  ℕ, suc, ◌≡◌, refl, ap, inl, inr, Bool, true, some, List, [], ◌∷◌, length, is_some, arith,
  Option-cases, if◌then◌else◌,
}
use jeeves_core.Prelude.Int.{pos, ◌+ℤ◌, ◌≤ℤ◌, ◌<ℤ◌}
use jeeves_core.Prelude.Dict
use jeeves_core.Json.{Value}
use jeeves_core.Types.{RunId, Timestamp}
use jeeves_core.Run.{Run, InterruptResponse, is_terminated}
use jeeves_core.Kernel.Protocol.{AgentExecutionMetrics}
use jeeves_core.Kernel.Orchestrator.{Orchestration, Orchestrator, report_agent_result}
use jeeves_core.Kernel.Orchestrator.Limits.{
  WithinLimits, iteration-report, max_iterations-report, report-WithinLimits,
}
use jeeves_core.Kernel.Orchestrator.Reporting.{bounded, broken, lost, routed, report-cases}

-- One turn of a worker on a run: it reports the outcome of an agent.
pub record Report : Type 0 where
  pub now : Timestamp
  pub metrics : AgentExecutionMetrics
  pub agent_failed : Bool
  pub break_loop : Bool

-- A worker reports until the run is terminated or its reports end.
unfoldable pub work :
    (InterruptResponse → Value) → RunId → List Report → Run → Orchestrator → Run × Orchestrator
work value id [] run o = (run, o)
work value id (r ∷ rs) run o =
    let step = report_agent_result value r.now id r.metrics run r.agent_failed r.break_loop o in
    let rest = work value id rs step.1 step.2 in if is_terminated run then (run, o) else rest

-- After a report on a known session the session is still known.
pub known-report :
    (value : InterruptResponse → Value) (r : Report) (id : RunId) (run : Run) (o : Orchestrator)
    (session : Orchestration)
    → Dict.get o.sessions id ≡ some session
    → (session' : Orchestration) × (Dict.get
          (report_agent_result value r.now id r.metrics run r.agent_failed r.break_loop
            o).2.sessions
          id
        ≡ some session')
known-report value rep id run o session e =
    elim (report-cases value rep.now id rep.metrics run rep.agent_failed rep.break_loop o session
      e) [
        | bounded reason b p q r ↦ (_, r)
        | broken b k p q r ↦ (_, r)
        | lost b k f p q r ↦ (_, r)
        | routed stage decision b k f d p q r ↦ (_, r)
      ]

no_iteration_left :
    (run : Run)
    → run.iteration <ℤ run.max_iterations
    → run.max_iterations ≤ℤ run.iteration +ℤ pos 0
    → ⊥
unfolding ◌+ℤ◌
no_iteration_left run k h = ground arith

one_more :
    (run : Run) (n : ℕ)
    → run.max_iterations ≤ℤ run.iteration +ℤ pos (suc n)
    → run.max_iterations ≤ℤ run.iteration +ℤ pos 1 +ℤ pos n
unfolding ◌+ℤ◌
one_more run n h = ground arith

-- On a known session, with a run within its limits, a worker that has at least as many reports as
-- the run has iterations left ends with the run terminated, whatever the agents report and
-- wherever the routing functions lead.
pub work_terminates :
    (value : InterruptResponse → Value) (id : RunId) (reports : List Report) (run : Run)
    (o : Orchestrator) {session : Orchestration}
    → Dict.get o.sessions id ≡ some session
    → WithinLimits run
    → run.max_iterations ≤ℤ run.iteration +ℤ pos (length reports)
    → is_terminated (work value id reports run o).0 ≡ true
unfolding work
work_terminates value id [] run o {session} e w h = elim (Option-cases run.termination) [
  | inl t ↦ absurd (no_iteration_left run (w.iteration_left t) h)
  | inr (t, q) ↦ rw q refl
]
work_terminates value id (r ∷ rs) run o {session} e w h = elim (Option-cases run.termination) [
  | inr (t, q) ↦ simp (ap is_some q)
  | inl t ↦
      let step = report_agent_result value r.now id r.metrics run r.agent_failed r.break_loop o in
      let i =
        iteration-report value r.now id r.metrics run r.agent_failed r.break_loop o session e t w in
      let m =
        max_iterations-report value r.now id r.metrics run r.agent_failed r.break_loop o session e t
          w in
      let w' =
        report-WithinLimits value r.now id r.metrics run r.agent_failed r.break_loop o session e t
          w in
      let k = known-report value r id run o session e in
      simp (ap is_some t)
        (work_terminates value id rs step.1 step.2 k.1 w' (rw (i, m) (one_more run (length rs) h)))
]
