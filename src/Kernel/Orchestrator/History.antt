-- ===== src/Kernel/Orchestrator/History.antt =====
-- The states that a session goes through from `initialize_session` on, as long as results are
-- reported on a run that is not terminated, and what holds in all of them (src/kernel: orchestrator.rs, orchestrator_session.rs).
use jeeves_core.Prelude.{◌≡◌, refl, sym, subst, Bool, none, some, arith, All-find, ◌==◌}
use jeeves_core.Prelude.Int.{ℤ, pos, ◌<ℤ◌, IsI32}
use jeeves_core.Prelude.Dict
use jeeves_core.Prelude.Dict.{Dict}
use jeeves_core.Json.{Value}
use jeeves_core.Types.{RunId, StageName, Timestamp, ok}
use jeeves_core.Workflow
use jeeves_core.Workflow.{Stage, Workflow}
use jeeves_core.Workflow.Validity.{OnSome, IsValid, StageIsValid, names}
use jeeves_core.Workflow.Validity.Accepted.{validate_iff}
use jeeves_core.Run.{Run, InterruptResponse, InterruptState, Audit, check_bounds}
use jeeves_core.Kernel.Protocol.{AgentExecutionMetrics, RunSnapshot}
use jeeves_core.Kernel.Orchestrator.{
  Orchestration, Orchestrator, find_stage, visits, instruct, get_next_instruction,
  report_agent_result,
}
use jeeves_core.Kernel.Orchestrator.Session.{bind_workflow, new_session, initialize_session}
use jeeves_core.Kernel.Orchestrator.Limits.{WithinLimits, report-WithinLimits}
use jeeves_core.Kernel.Orchestrator.Visits.{
  VisitsFit, HasLimit, VisitsHeld, carry, report-VisitsHeld,
}

-- The bounds of a workflow are `i32`, as their fields are in the source.
pub record Fits (w : Workflow) : Type 0 where
  pub iterations_fit : IsI32 w.max_iterations
  pub hops_fit : IsI32 w.max_agent_hops
  pub visits_fit : VisitsFit w

-- A run that nothing has happened to yet, as `Run::new` makes it.
pub record IsFresh (r : Run) : Type 0 where
  pub not_terminated : r.termination ≡ none
  pub no_iteration : r.iteration ≡ pos 0
  pub no_hop : r.metrics.agent_hops ≡ pos 0

-- The run of a session is within its limits, and its stages within theirs.
pub record IsSound (id : RunId) (run : Run) (o : Orchestrator) : Type 0 where
  pub session : Orchestration
  pub known : Dict.get o.sessions id ≡ some session
  pub valid : IsValid session.workflow
  pub fits : Fits session.workflow
  pub limits : WithinLimits run
  pub visited : VisitsHeld session run

module _ (response_value : InterruptResponse → Value) (run_value : Run → Value) (id : RunId) where
  -- The states of a session: it is initialised with a fresh run; the worker asks for instructions
  -- and reports on the run while it is not terminated; and the kernel writes outputs, state,
  -- interrupts and the audit trail in between.
  pub data Reach : Run → Orchestrator → Type 0 where
    start :
        (now : Timestamp) (w : Workflow) (run : Run) (force : Bool) (o : Orchestrator)
        {snapshot : RunSnapshot}
        → IsFresh run
        → Fits w
        → (initialize_session run_value now id w run force o).0 ≡ ok snapshot
        → Reach
            (initialize_session run_value now id w run force o).1
            (initialize_session run_value now id w run force o).2
    ask :
        {run : Run} {o : Orchestrator} (now : Timestamp)
        → Reach run o
        → Reach (get_next_instruction now id run o).1 (get_next_instruction now id run o).2
    report :
        {run : Run} {o : Orchestrator} (now : Timestamp) (metrics : AgentExecutionMetrics)
        (agent_failed break_loop : Bool)
        → run.termination ≡ none
        → Reach run o
        → Reach
            (report_agent_result response_value now id metrics run agent_failed break_loop o).1
            (report_agent_result response_value now id metrics run agent_failed break_loop o).2
    host :
        {run : Run} {o : Orchestrator} (outputs : Dict (Dict Value)) (state : Dict Value)
        (interrupts : InterruptState) (audit : Audit)
        → Reach run o
        → Reach
            (record run {
              outputs = outputs;
              state = state;
              interrupts = interrupts;
              audit = audit;
            })
            o

-- An initialisation that succeeds had a workflow that `validate` accepts, binds it to the run and
-- stores a session with no visits.
pub init_ok :
    (run_value : Run → Value) (now : Timestamp) (id : RunId) (w : Workflow) (run : Run)
    (force : Bool) (o : Orchestrator) {snapshot : RunSnapshot}
    → (initialize_session run_value now id w run force o).0 ≡ ok snapshot
    → (Workflow.validate w ≡ ok tt)
      × ((initialize_session run_value now id w run force o).1 ≡ bind_workflow w run)
      × (Dict.get (initialize_session run_value now id w run force o).2.sessions id
          ≡ some (new_session now id w))
unfolding initialize_session
init_ok run_value now id w run force o h =
    ground (arith, Dict.get-insert_self o.sessions id (new_session now id w))

-- A workflow that validates leaves its first stage at least one visit.
fresh-VisitsHeld :
    (now : Timestamp) (id : RunId) (w : Workflow) (run : Run)
    → IsValid w
    → VisitsHeld (new_session now id w) run
unfolding visits find_stage Dict.get
fresh-VisitsHeld now id w run v = record {
  held = λ name stage m p. let q = positive name stage m p in (omega arith, omega (arith, q));
  one_left = λ o stage m p. positive run.current_stage stage m p;
}
  where
    positive : (name : StageName) (stage : Stage) (m : ℤ) → HasLimit w name stage m → pos 0 <ℤ m
    positive name stage m p =
        let s =
          All-find (StageIsValid (names w.stages)) (λ s. s.name == name) w.stages v.stages_valid
            p.0 in
        subst (OnSome (λ k. pos 0 <ℤ k)) p.1 s.visits_positive

pub bind-WithinLimits :
    (w : Workflow) (run : Run)
    → IsValid w
    → Fits w
    → IsFresh run
    → WithinLimits (bind_workflow w run)
unfolding bind_workflow
bind-WithinLimits w run v f h =
    let i = v.iterations_positive in
    let k = v.agent_hops_positive in
    record {
      iteration_nonneg = rw h.no_iteration (omega arith);
      iteration_capped = rw h.no_iteration (omega (arith, i));
      iteration_left = λ t. rw h.no_iteration i;
      hops_nonneg = rw h.no_hop (omega arith);
      hops_capped = rw h.no_hop (omega (arith, k));
      max_iterations_i32 = f.iterations_fit;
      max_hops_i32 = f.hops_fit;
    }

-- An answer leaves the place, the counters and the limits of the run alone, and no run that was
-- terminated is open behind it.
pub instruct_keeps :
    (w : Workflow) (now : Timestamp) (run : Run)
    → ((instruct w now run).1.current_stage ≡ run.current_stage)
      × ((instruct w now run).1.iteration ≡ run.iteration)
      × ((instruct w now run).1.max_iterations ≡ run.max_iterations)
      × ((instruct w now run).1.limits ≡ run.limits)
      × ((instruct w now run).1.metrics ≡ run.metrics)
      × ((instruct w now run).1.termination ≡ none → run.termination ≡ none)
unfolding instruct check_bounds
instruct_keeps w now run = ground arith

WithinLimits-same :
    (r x : Run)
    → WithinLimits r
    → x.iteration ≡ r.iteration
    → x.max_iterations ≡ r.max_iterations
    → x.limits ≡ r.limits
    → x.metrics ≡ r.metrics
    → (x.termination ≡ none → r.termination ≡ none)
    → WithinLimits x
WithinLimits-same r x w i m l h t = record {
  iteration_nonneg = rw i w.iteration_nonneg;
  iteration_capped = rw (i, m) w.iteration_capped;
  iteration_left = λ o. rw (i, m) (w.iteration_left (t o));
  hops_nonneg = rw h w.hops_nonneg;
  hops_capped = rw (h, l) w.hops_capped;
  max_iterations_i32 = rw m w.max_iterations_i32;
  max_hops_i32 = rw l w.max_hops_i32;
}

pub start-IsSound :
    (run_value : Run → Value) (now : Timestamp) (id : RunId) (w : Workflow) (run : Run)
    (force : Bool) (o : Orchestrator) {snapshot : RunSnapshot}
    → IsFresh run
    → Fits w
    → (initialize_session run_value now id w run force o).0 ≡ ok snapshot
    → IsSound id
        (initialize_session run_value now id w run force o).1
        (initialize_session run_value now id w run force o).2
start-IsSound run_value now id w run force o h f e =
    let p = init_ok run_value now id w run force o e in
    let v = (validate_iff w).0 p.0 in
    record {
      session = new_session now id w;
      known = p.2;
      valid = v;
      fits = f;
      limits = rw p.1 (bind-WithinLimits w run v f h);
      visited = rw p.1 (fresh-VisitsHeld now id w (bind_workflow w run) v);
    }

pub ask-IsSound :
    (now : Timestamp) (id : RunId) (run : Run) (o : Orchestrator)
    → IsSound id run o
    → IsSound id (get_next_instruction now id run o).1 (get_next_instruction now id run o).2
unfolding get_next_instruction
ask-IsSound now id run o s =
    let session = s.session in
    let run' = (instruct session.workflow now run).1 in
    let k = instruct_keeps session.workflow now run in
    let session' = record session { last_activity_at = now } in
    rw (s.known, get_next_instruction)
      (record {
        session = session';
        known = Dict.get-insert_self o.sessions id session';
        valid = s.valid;
        fits = s.fits;
        limits = WithinLimits-same run run' s.limits k.1 k.2 k.3 k.4 k.5;
        visited = carry session session' run run' s.visited refl refl k.0 k.5;
      })

pub report-IsSound :
    (response_value : InterruptResponse → Value) (now : Timestamp) (id : RunId)
    (metrics : AgentExecutionMetrics) (run : Run) (agent_failed break_loop : Bool)
    (o : Orchestrator)
    → run.termination ≡ none
    → IsSound id run o
    → IsSound id
        (report_agent_result response_value now id metrics run agent_failed break_loop o).1
        (report_agent_result response_value now id metrics run agent_failed break_loop o).2
report-IsSound value now id metrics run failed broke o t s =
    let v =
      report-VisitsHeld value now id metrics run failed broke o s.session s.known t
        s.fits.visits_fit s.visited in
    record {
      session = v.0;
      known = v.1;
      valid = subst IsValid (sym v.2) s.valid;
      fits = subst Fits (sym v.2) s.fits;
      limits =
          report-WithinLimits value now id metrics run failed broke o s.session s.known t s.limits;
      visited = v.3;
    }

-- What the kernel writes in between leaves the counters, the limits and the place alone.
pub host-IsSound :
    (id : RunId) (run : Run) (o : Orchestrator) (outputs : Dict (Dict Value)) (state : Dict Value)
    (interrupts : InterruptState) (audit : Audit)
    → IsSound id run o
    → IsSound id
        (record run { outputs = outputs; state = state; interrupts = interrupts; audit = audit })
        o
host-IsSound id run o outputs state interrupts audit s =
    let run' = record run {
      outputs = outputs;
      state = state;
      interrupts = interrupts;
      audit = audit;
    } in
    record {
      session = s.session;
      known = s.known;
      valid = s.valid;
      fits = s.fits;
      limits = WithinLimits-same run run' s.limits refl refl refl refl (λ t. t);
      visited = carry s.session s.session run run' s.visited refl refl refl (λ t. t);
    }

-- Every state that a session reaches from an initialisation with a fresh run and a workflow of
-- `i32` limits, by asking for instructions, by reports that come while the run is not terminated,
-- and by what the kernel writes in between, is sound: its workflow is valid, the iterations and hops
-- of the run are within their limits, no stage was visited more than `max_visits` times, and while
-- the run is not terminated the stage it stands at may be visited once more. A report on a run that
-- is terminated already is not among these steps.
pub Reach-IsSound :
    (response_value : InterruptResponse → Value) (run_value : Run → Value) (id : RunId) {run : Run}
    {o : Orchestrator}
    → Reach response_value run_value id run o
    → IsSound id run o
Reach-IsSound rv sv id (start now w run force o h f e) = start-IsSound sv now id w run force o h f e
Reach-IsSound rv sv id (ask {run = run} {o = o} now r) =
    ask-IsSound now id run o (Reach-IsSound rv sv id r)
Reach-IsSound rv sv id (report {run = run} {o = o} now metrics failed broke t r) =
    report-IsSound rv now id metrics run failed broke o t (Reach-IsSound rv sv id r)
Reach-IsSound rv sv id (host {run = run} {o = o} outputs state interrupts audit r) =
    host-IsSound id run o outputs state interrupts audit (Reach-IsSound rv sv id r)
