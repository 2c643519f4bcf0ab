-- ===== src/Kernel/Orchestrator/Instructions.antt =====
-- What `get_next_instruction` answers (src/kernel/orchestrator.rs).
use jeeves_core.Prelude.{
  String, ◌≡◌, inl, inr, true, Option, none, some, [], ◌∷◌, find, ◌==◌, arith, Option-cases,
}
use jeeves_core.Prelude.Int.{◌<ℤ◌}
use jeeves_core.Prelude.Dict
use jeeves_core.Types.{RunId, StageName, AgentName, Timestamp, Message, text, plain, ok}
use jeeves_core.Workflow.{Stage, Workflow}
use jeeves_core.Run.{
  Run, TerminalReason, Termination, FlowInterrupt, check_bounds, terminal_reason, clear_interrupt,
}
use jeeves_core.Kernel.Protocol.{
  AgentDispatchContext, run_agent_with, terminate_with_context, terminate,
}
use jeeves_core.Kernel.Orchestrator.{
  Orchestration, Orchestrator, find_stage, get_agent_for_stage, instruct, expired,
  get_next_instruction, debug,
}

-- No interrupt holds the run back: there is none, or it has run out by now.
abbrev pub IsFree : Timestamp → Option FlowInterrupt → Type 0
IsFree now none = Unit
IsFree now (some i) = expired now i ≡ true

instruct-run_agent :
    (w : Workflow) (now : Timestamp) (run : Run) {agent : String} {c : AgentDispatchContext}
    → (instruct w now run).0 ≡ ok (run_agent_with agent c)
    → (run.termination ≡ none)
      × IsFree now run.interrupts.interrupt
      × (check_bounds run ≡ none)
      × (get_agent_for_stage w run.current_stage ≡ ok agent)
      × ((instruct w now run).1 ≡ clear_interrupt run)
unfolding instruct check_bounds
instruct-run_agent w now run h = ground arith

-- No interrupt holds the run back: there is none, or the time that it had is over.
abbrev pub IsOver : Timestamp → Option FlowInterrupt → Type 0
IsOver now none = Unit
IsOver now (some i) = (end : Timestamp) × (i.expires_at ≡ some end) × (end <ℤ now)

IsFree-IsOver : (now : Timestamp) (i : Option FlowInterrupt) → IsFree now i → IsOver now i
unfolding expired
IsFree-IsOver now none h = tt
IsFree-IsOver now (some i) h = elim (Option-cases i.expires_at) [
  | inl e ↦ absurd (let p = (rw (expired, e) at h) in cc)
  | inr (end, e) ↦ (end, e, ground (arith, rw (expired, e) at h))
]

-- The first stage of that name has the agent.
abbrev HasAgent : Workflow → StageName → AgentName → Type 0
HasAgent w name agent =
    (stage : Stage) × (find (λ s. s.name == name) w.stages ≡ some stage) × (stage.agent ≡ agent)

agent-HasAgent :
    (w : Workflow) (name : StageName) {agent : AgentName}
    → get_agent_for_stage w name ≡ ok agent
    → HasAgent w name agent
unfolding get_agent_for_stage find_stage
agent-HasAgent w name h = elim (Option-cases (find (λ s. s.name == name) w.stages)) [
  | inl e ↦ absurd (let p = (rw (e, get_agent_for_stage, find_stage) at h) in cc)
  | inr (stage, e) ↦ (stage, e, let p = (rw (e, get_agent_for_stage, find_stage) at h) in cc)
]

-- Each counter is below its limit.
abbrev pub IsBelow : Run → Type 0
IsBelow run =
    (run.metrics.llm_calls <ℤ run.limits.max_llm_calls)
    × (run.iteration <ℤ run.max_iterations)
    × (run.metrics.agent_hops <ℤ run.limits.max_agent_hops)

bounds-IsBelow : (run : Run) → check_bounds run ≡ none → IsBelow run
unfolding check_bounds
bounds-IsBelow run h = ground arith

pub run_agent-asked :
    (now : Timestamp) (id : RunId) (run : Run) (o : Orchestrator) {agent : String}
    {c : AgentDispatchContext}
    → (get_next_instruction now id run o).0 ≡ ok (run_agent_with agent c)
    → (session : Orchestration) × (Dict.get o.sessions id ≡ some session)
      × (run.termination ≡ none)
      × IsFree now run.interrupts.interrupt
      × (check_bounds run ≡ none)
      × (get_agent_for_stage session.workflow run.current_stage ≡ ok agent)
      × ((get_next_instruction now id run o).1 ≡ clear_interrupt run)
unfolding get_next_instruction
run_agent-asked now id run o h = elim (Option-cases (Dict.get o.sessions id)) [
  | inl e ↦ absurd (let p = (rw (e, get_next_instruction) at h) in cc)
  | inr (session, e) ↦
      let p = instruct-run_agent session.workflow now run (rw (e, get_next_instruction) at h) in
      (session, e, p.0, p.1, p.2, p.3, rw (e, get_next_instruction) p.4)
]

-- A `RunAgent` answer names the agent of the first stage in the session's workflow with the name of
-- the run's current stage. It is given only to a run that is not terminated, that has no interrupt
-- or one whose time is over, and whose calls of the model, iterations and hops are below their
-- limits; the run is returned with no interrupt and otherwise unchanged.
pub run_agent_only_if :
    (now : Timestamp) (id : RunId) (run : Run) (o : Orchestrator) {agent : String}
    {c : AgentDispatchContext}
    → (get_next_instruction now id run o).0 ≡ ok (run_agent_with agent c)
    → (session : Orchestration) × (Dict.get o.sessions id ≡ some session)
      × (run.termination ≡ none)
      × IsOver now run.interrupts.interrupt
      × IsBelow run
      × ((stage : Stage) × (find (λ s. s.name == run.current_stage) session.workflow.stages
            ≡ some stage)
          × (stage.agent ≡ agent))
      × ((get_next_instruction now id run o).1
          ≡ record run { interrupts = record { interrupt = none } })
run_agent_only_if now id run o h =
    let (session, e, t, free, below, agent, after) = run_agent-asked now id run o h in
    (
      session,
      e,
      t,
      IsFree-IsOver now run.interrupts.interrupt free,
      bounds-IsBelow run below,
      agent-HasAgent session.workflow run.current_stage agent,
      after,
    )

instruct-terminate :
    (w : Workflow) (now : Timestamp) (run : Run) {reason : TerminalReason} {m : Option Message}
    {c : AgentDispatchContext}
    → (instruct w now run).0 ≡ ok (terminate_with_context reason m c)
    → terminal_reason (instruct w now run).1 ≡ some reason
unfolding instruct check_bounds get_agent_for_stage
instruct-terminate w now run h = ground arith

-- A `Terminate` answer leaves the run terminated with the reason that the answer gives.
pub terminate_recorded :
    (now : Timestamp) (id : RunId) (run : Run) (o : Orchestrator) {reason : TerminalReason}
    {m : Option Message} {c : AgentDispatchContext}
    → (get_next_instruction now id run o).0 ≡ ok (terminate_with_context reason m c)
    → terminal_reason (get_next_instruction now id run o).1 ≡ some reason
unfolding get_next_instruction
terminate_recorded now id run o h = elim (Option-cases (Dict.get o.sessions id)) [
  | inl e ↦ absurd (let p = (rw (e, get_next_instruction) at h) in cc)
  | inr (session, e) ↦
      rw (e, get_next_instruction)
        (instruct-terminate session.workflow now run (rw (e, get_next_instruction) at h))
]

-- A terminated run of a known session is answered with `Terminate` and the reason of its
-- termination, whatever the clock, its bounds and its interrupts are, and it stays as it is.
pub terminated_stays :
    (now : Timestamp) (id : RunId) (run : Run) (o : Orchestrator) {session : Orchestration}
    {t : Termination}
    → Dict.get o.sessions id ≡ some session
    → run.termination ≡ some t
    → ((get_next_instruction now id run o).0
        ≡ ok (terminate t.reason (plain "Session already terminated")))
      × ((get_next_instruction now id run o).1 ≡ run)
unfolding get_next_instruction instruct
terminated_stays now id run o e h = ground arith

-- A run of a known session that is not terminated, that no interrupt holds back and that has
-- reached a bound is terminated with the bound it has reached: the calls of the model are looked
-- at first, the iterations next and the hops last.
pub bound_terminates :
    (now : Timestamp) (id : RunId) (run : Run) (o : Orchestrator) {session : Orchestration}
    {reason : TerminalReason}
    → Dict.get o.sessions id ≡ some session
    → run.termination ≡ none
    → IsFree now run.interrupts.interrupt
    → check_bounds run ≡ some reason
    → ((get_next_instruction now id run o).0
        ≡ ok (terminate reason (text "Bounds exceeded: " ∷ text (debug reason) ∷ [])))
      × (terminal_reason (get_next_instruction now id run o).1 ≡ some reason)
unfolding get_next_instruction instruct check_bounds
bound_terminates now id run o e h f b = ground arith
