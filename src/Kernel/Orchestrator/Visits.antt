-- ===== src/Kernel/Orchestrator/Visits.antt =====
-- The visits of the stages against `max_visits` (src/kernel/orchestrator.rs).
use jeeves_core.Prelude.{
  ◌≡◌, refl, sym, ap, subst, inl, inr, Bool, Option, none, some, ◌==◌, eq_iff, arith, All, All-find,
  Bool-cases, if◌then◌else◌,
}
use jeeves_core.Prelude.Int.{ℤ, pos, ◌+ℤ◌, ◌≤ℤ◌, ◌<ℤ◌, IsI32}
use jeeves_core.Prelude.Dict
use jeeves_core.Prelude.Dict.{Dict}
use jeeves_core.Json.{Value}
use jeeves_core.Types.{RunId, StageName, Timestamp, Result}
use jeeves_core.Workflow.{Stage, Workflow}
use jeeves_core.Workflow.Validity.{OnSome}
use jeeves_core.Run.{Run, InterruptResponse}
use jeeves_core.Kernel.Routing.{RoutingDecision}
use jeeves_core.Kernel.Protocol.{AgentExecutionMetrics}
use jeeves_core.Kernel.Orchestrator.{
  Orchestration, Orchestrator, find_stage, visits, visits_exhausted, advance, book, count_visit,
}
use jeeves_core.Kernel.Orchestrator.Reporting.{
  bounded, broken, lost, routed, report-cases, reported, moved,
}
use jeeves_core.Kernel.Orchestrator.Limits.{add_i32-one}

-- Every limit on visits is an `i32`, as its field is in the source.
abbrev pub VisitsFit : Workflow → Type 0
VisitsFit w = All (λ s. OnSome IsI32 s.max_visits) w.stages

-- The stage of that name has that limit on its visits.
abbrev pub HasLimit : Workflow → StageName → Stage → ℤ → Type 0
HasLimit w name stage m = (find_stage w name ≡ some stage) × (stage.max_visits ≡ some m)

-- No stage was visited more often than its limit allows, and the stage that a run which is not
-- terminated stands at may be visited once more.
pub record VisitsHeld (session : Orchestration) (run : Run) : Type 0 where
  pub held :
      (name : StageName) (stage : Stage) (m : ℤ)
      → HasLimit session.workflow name stage m
      → (pos 0 ≤ℤ visits session.stage_visits name) × (visits session.stage_visits name ≤ℤ m)
  pub one_left :
      run.termination ≡ none
      → (stage : Stage) (m : ℤ) → HasLimit session.workflow run.current_stage stage m
      → visits session.stage_visits run.current_stage <ℤ m

limit_fits :
    (w : Workflow)
    → VisitsFit w
    → (name : StageName) (stage : Stage) (m : ℤ) → HasLimit w name stage m
    → IsI32 m
unfolding find_stage
limit_fits w fit name stage m h =
    let p =
      All-find (λ (s : Stage). OnSome IsI32 s.max_visits) (λ s. s.name == name) w.stages fit h.0 in
    subst (OnSome IsI32) h.1 p

visits-insert :
    (v : Dict ℤ) (k j : StageName) (n : ℤ)
    → visits (Dict.insert v k n) j ≡ (if k == j then n else visits v j)
unfolding visits
visits-insert v k j n = rw Dict.get-insert (ground (arith, eq_iff k j))

exhausted-none :
    (session : Orchestration) (t : StageName) (stage : Stage) (m : ℤ)
    → visits_exhausted session t ≡ none
    → HasLimit session.workflow t stage m
    → visits session.stage_visits t <ℤ m
unfolding visits_exhausted
exhausted-none session t stage m e h = ground arith

-- A run that goes on after a transition stands at the target, which may be visited once more.
advance-open :
    (session : Orchestration) (target : Option StageName) (r : Run)
    → (advance session target r).termination ≡ none
    → (t : StageName) × (target ≡ some t)
      × (visits_exhausted session t ≡ none)
      × ((advance session target r).current_stage ≡ t)
unfolding advance
advance-open session none r h = cc
advance-open session (some t) r h = (t, refl, ground arith, ground arith)

-- Neither the session's visits and workflow nor the run's place and termination change.
pub carry :
    (s s' : Orchestration) (r r' : Run)
    → VisitsHeld s r
    → s'.workflow ≡ s.workflow
    → s'.stage_visits ≡ s.stage_visits
    → r'.current_stage ≡ r.current_stage
    → (r'.termination ≡ none → r.termination ≡ none)
    → VisitsHeld s' r'
carry s s' r r' h w v c t = record {
  held = λ name stage m p. rw v (h.held name stage m (rw w at p));
  one_left = λ o stage m p. rw (v, c) (h.one_left (t o) stage m (rw (w, c) at p));
}

module _ (s : Orchestration) (r : Run) (fit : VisitsFit s.workflow) (h : VisitsHeld s r)
    (open_run : r.termination ≡ none) where
  -- Counting the visit of the current stage keeps every stage within its limit.
  count-held :
      (d : RoutingDecision) (name : StageName) (stage : Stage) (m : ℤ)
      → HasLimit s.workflow name stage m
      → (pos 0 ≤ℤ visits (count_visit s r.current_stage d).stage_visits name)
        × (visits (count_visit s r.current_stage d).stage_visits name ≤ℤ m)
  unfolding count_visit ◌+ℤ◌
  count-held d name stage m p = elim (Bool-cases (r.current_stage == name)) [
    | inr e ↦ rw (visits-insert s.stage_visits r.current_stage name _, e) (h.held name stage m p)
    | inl e ↦
        let q = (eq_iff r.current_stage name).0 e in
        let p' = subst (λ n. HasLimit s.workflow n stage m) (sym q) p in
        let old = h.held r.current_stage stage m p' in
        let new = h.one_left open_run stage m p' in
        let f = limit_fits s.workflow fit name stage m p in
        rw
          (
            visits-insert s.stage_visits r.current_stage name _,
            e,
            add_i32-one (visits s.stage_visits r.current_stage) m old.0 new f,
          )
          (ground (arith, old, new))
  ]

-- The routed case: the visit is counted, and the run moves on where the target may be visited.
moved-VisitsHeld :
    (now : Timestamp) (s : Orchestration) (r : Run) (d : RoutingDecision)
    → VisitsFit s.workflow
    → VisitsHeld s r
    → r.termination ≡ none
    → VisitsHeld (moved now s r d) (advance (count_visit s r.current_stage d) d.target r)
unfolding count_visit
moved-VisitsHeld now s r d fit h t = record {
  held = count-held s r fit h t d;
  one_left = λ o stage m p.
      let counted = count_visit s r.current_stage d in
      let a = advance-open counted d.target r o in
      rw a.3 (exhausted-none counted a.0 stage m a.2 (rw a.3 at p));
}

module _ (response_value : InterruptResponse → Value) (now : Timestamp) (id : RunId)
    (metrics : AgentExecutionMetrics) (run : Run) (agent_failed break_loop : Bool)
    (o : Orchestrator) (session : Orchestration) (known : Dict.get o.sessions id ≡ some session)
    (open_run : run.termination ≡ none) (fit : VisitsFit session.workflow)
    (h : VisitsHeld session run) where
  abbrev after : Result (Unit {0}) × Run × Orchestrator
  after = reported response_value now id metrics run agent_failed break_loop o

  -- After a report on a run that is not terminated the session is known with the same workflow,
  -- and the visits are within their limits again.
  pub report-VisitsHeld :
      (session' : Orchestration) × (Dict.get after.2.sessions id ≡ some session')
      × (session'.workflow ≡ session.workflow)
      × VisitsHeld session' after.1
  unfolding book count_visit
  report-VisitsHeld =
      elim (report-cases response_value now id metrics run agent_failed break_loop o session
        known) [
          | bounded reason b p q r ↦ (
            session,
            r,
            refl,
            carry session session run after.1 h refl refl (ap (λ x. x.current_stage) q)
                (λ t. open_run),
          )
          | broken b k p q r ↦ (
            _,
            r,
            refl,
            carry session (record session { last_activity_at = now }) run after.1 h refl refl
                (ap (λ x. x.current_stage) q) (λ t. open_run),
          )
          | lost b k f p q r ↦ (
            session,
            r,
            refl,
            carry session session run after.1 h refl refl (ap (λ x. x.current_stage) q)
                (λ t. open_run),
          )
          | routed stage decision b k f d p q r ↦
              let booked = book metrics run in
              (
                moved now session booked decision,
                r,
                refl,
                rw q (
                    moved-VisitsHeld now session booked decision fit
                      (carry session session run booked h refl refl refl (λ t. t)) open_run),
              )
        ]
