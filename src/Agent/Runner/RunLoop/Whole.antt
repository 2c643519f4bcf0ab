-- ===== src/Agent/Runner/RunLoop/Whole.antt =====
-- A run from its first command to its end (src/kernel/runner.rs, `run`).
use jeeves_core.Prelude.{
  ℕ, ◌<◌, ◌≡◌, refl, ap, ◌∙◌, false, some, List, All, length, arith, inl, inr,
}
use jeeves_core.Prelude.Int.{pos, ◌+ℤ◌, ◌≤ℤ◌}
use jeeves_core.Prelude.Dict
use jeeves_core.Json.{Value}
use jeeves_core.Types.{RunId, Timestamp, ok, Result-cases}
use jeeves_core.Workflow.{Workflow}
use jeeves_core.Workflow.Validity.Accepted.{validate_iff}
use jeeves_core.Run.{Run}
use jeeves_core.Kernel.Protocol.{RunSnapshot}
use jeeves_core.Kernel.Orchestrator.Session.{bind_workflow, new_session, initialize_session}
use jeeves_core.Kernel.Orchestrator.History.{IsFresh, Fits, bind-WithinLimits, init_ok}
use jeeves_core.Kernel.Dispatch.{Kernel}
use jeeves_core.Kernel.Dispatch.Runs.{initialize_orchestration}
use jeeves_core.Kernel.Actor.{ensure_record}
use jeeves_core.Agent.Runner.RunLoop.{LoopArgs, Turn, Round, args_for, run, run_session}
use jeeves_core.Agent.Runner.RunLoop.Drivable.{Drivable, going}
use jeeves_core.Agent.Runner.RunLoop.Returns.{HasEnded, IsCalm, run_loop-HasEnded}

no_more : (w : Workflow) (n : ℕ) → w.max_iterations ≤ℤ pos n → w.max_iterations ≤ℤ pos 0 +ℤ pos n
unfolding ◌+ℤ◌
no_more w n h = ground arith

initialize-Drivable :
    (run_value : Run → Value) (now : Timestamp) (id : RunId) (w : Workflow) (fresh : Run)
    (k : Kernel) (n : ℕ) {snapshot : RunSnapshot}
    → IsFresh fresh
    → Fits w
    → w.max_iterations ≤ℤ pos n
    → (initialize_orchestration run_value now id w fresh false k).0 ≡ ok snapshot
    → Drivable id n (initialize_orchestration run_value now id w fresh false k).1
unfolding initialize_orchestration bind_workflow
initialize-Drivable run_value now id w fresh k n f g b h =
    let i = initialize_session run_value now id w fresh false k.orchestrator in
    elim (Result-cases i.0) [
      | inr (x, e) ↦ absurd (let p = (rw (e, initialize_orchestration) at h) in cc)
      | inl (s, e) ↦
          let p = init_ok run_value now id w fresh false k.orchestrator e in
          let v = (validate_iff w).0 p.0 in
          rw (e, initialize_orchestration)
            (record {
              run = bind_workflow w fresh;
              session = new_session now id w;
              held = Dict.get-insert_self k.runs id i.1 ∙ ap some p.1;
              known = p.2;
              stands =
                  going f.not_terminated (bind-WithinLimits w fresh v g f)
                    (rw f.no_iteration (no_more w n b));
            })
    ]

-- `run` comes to its end: for a fresh run and a workflow of `i32` bounds, more rounds than
-- the workflow's `max_iterations` are enough, whatever the agents answer and the routing functions
-- decide, when other clients leave the run alone and the interrupts that the agents ask for have no
-- expiry. The kernel may be in any state before.
pub run-HasEnded :
    (c : LoopArgs) (run_value : Run → Value) (t : Turn) (w : Workflow) (fresh : Run)
    (rounds : List Round) (k : Kernel) (n : ℕ)
    → IsFresh fresh
    → Fits w
    → w.max_iterations ≤ℤ pos n
    → n < length rounds
    → All (IsCalm (args_for false w c)) rounds
    → HasEnded (run c run_value t w fresh rounds k).0
unfolding run run_session
run-HasEnded c run_value t w fresh rounds k n f g b l calm =
    let before = ensure_record t.now c.run_id fresh (t.between k) in
    let started = initialize_orchestration run_value t.now c.run_id w fresh false before in
    elim (Result-cases started.0) [
      | inr (x, e) ↦ rw (e, run_session) tt
      | inl (s, e) ↦
          rw (e, run_session)
            (run_loop-HasEnded (args_for false w c) n rounds started.1 l refl calm
              (initialize-Drivable run_value t.now c.run_id w fresh before n f g b e))
    ]
