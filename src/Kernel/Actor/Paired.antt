-- ===== src/Kernel/Actor/Paired.antt =====
-- The runs and the sessions that the kernel holds, whatever commands come (src/kernel/actor.rs).
use jeeves_core.Prelude.{
  String, ◌≡◌, refl, sym, ap, ◌∙◌, Bool, none, some, is_some, inl, inr, List, [], ◌∷◌, arith,
  Bool-cases, Option-cases,
}
use jeeves_core.Prelude.Dict
use jeeves_core.Json.{Value}
use jeeves_core.Types.{RunId, Timestamp, ok, Result-cases}
use jeeves_core.Workflow.{Workflow}
use jeeves_core.Run.{Run, InterruptResponse}
use jeeves_core.Kernel.Protocol.{RunSnapshot}
use jeeves_core.Kernel.Lifecycle
use jeeves_core.Kernel.Orchestrator.{Orchestrator}
use jeeves_core.Kernel.Orchestrator.Session.{new_session, initialize_session}
use jeeves_core.Kernel.Dispatch.{Kernel, get_next_instruction}
use jeeves_core.Kernel.Dispatch.Runs.{initialize_orchestration, create_run, terminate_run}
use jeeves_core.Kernel.Dispatch.Records.{terminate_run_removes}
use jeeves_core.Kernel.Dispatch.Sound.Taken.{init_failed}
use jeeves_core.Kernel.Dispatch.Keys.Methods.{
  Replaces, Replaces-equal, next-Replaces, set-Replaces, resolve-Replaces, process-Replaces,
}
use jeeves_core.Tools.Health.Reports.{Floats}
use jeeves_core.Kernel.Actor
use jeeves_core.Kernel.Actor.{
  KernelCommand, next_instruction, agent_result, session_state, new_run, end_run, system_status,
  resolve_interrupt, set_interrupt, tool_health, routing_fn, terminates, ensure_record,
  dispatch_next, dispatch, run_kernel_actor,
}

-- A run is held exactly where it has a session.
pub record IsPaired (k : Kernel) : Type 0 where
  pub apply :
      (id : RunId) → is_some (Dict.get k.runs id) ≡ is_some (Dict.get k.orchestrator.sessions id)

IsPaired-Replaces : {k k' : Kernel} → IsPaired k → Replaces k k' → IsPaired k'
IsPaired-Replaces h p = record { apply = λ id. p.runs.at id ∙ h.apply id ∙ sym (p.sessions.at id) }

ensure-IsPaired :
    (now : Timestamp) (id : RunId) (run : Run) (k : Kernel)
    → IsPaired k
    → IsPaired (ensure_record now id run k)
unfolding ensure_record create_run
ensure-IsPaired now id run k h = elim (Option-cases (Lifecycle.get id k.lifecycle)) [
  | inr (r, e) ↦ rw (ensure_record, e) h
  | inl e ↦ rw (ensure_record, e) (IsPaired-Replaces h (Replaces-equal k _ refl refl))
]

started-sessions :
    (value : Run → Value) (now : Timestamp) (id : RunId) (w : Workflow) (run : Run) (force : Bool)
    (o : Orchestrator) {s : RunSnapshot}
    → (initialize_session value now id w run force o).0 ≡ ok s
    → (initialize_session value now id w run force o).2.sessions
      ≡ Dict.insert o.sessions id (new_session now id w)
unfolding initialize_session
started-sessions value now id w run force o h = ground (arith, h)

initialize-IsPaired :
    (value : Run → Value) (now : Timestamp) (id : RunId) (w : Workflow) (run : Run) (force : Bool)
    (k : Kernel)
    → IsPaired k
    → IsPaired (initialize_orchestration value now id w run force k).1
unfolding initialize_orchestration
initialize-IsPaired value now id w run force k h =
    let i = initialize_session value now id w run force k.orchestrator in
    elim (Result-cases i.0) [
      | inr (x, e) ↦
          let same = init_failed value now id w run force k.orchestrator e in
          rw (initialize_orchestration, e)
            (IsPaired-Replaces h (Replaces-equal k _ refl (ap (λ o. o.sessions) same)))
      | inl (s, e) ↦
          let started = started-sessions value now id w run force k.orchestrator e in
          rw (initialize_orchestration, e)
            (record {
              apply = λ j. ground (
                arith,
                h.apply j,
                Dict.get-insert k.runs id j i.1,
                ap (λ d. Dict.get d j) started,
                Dict.get-insert k.orchestrator.sessions id j (new_session now id w),
              );
            })
    ]

terminate-IsPaired :
    (now : Timestamp) (id : RunId) (k : Kernel) → IsPaired k → IsPaired (terminate_run now id k).1
terminate-IsPaired now id k h = record {
  apply =
      λ j. let (_, _, r, s) = terminate_run_removes now id j k in ground (arith, r, s, h.apply j);
}

next-IsPaired :
    (now : Timestamp) (id : RunId) (k : Kernel) → IsPaired k → IsPaired (dispatch_next now id k).1
unfolding dispatch_next
next-IsPaired now id k h =
    let g = get_next_instruction now id k in
    let h' = IsPaired-Replaces h (next-Replaces now id k) in
    elim (Bool-cases (terminates g.0)) [
      | inl e ↦ rw (dispatch_next, e) (terminate-IsPaired now id g.1 h')
      | inr e ↦ rw (dispatch_next, e) h'
    ]

module _ (run_value : Run → Value) (response_value : InterruptResponse → Value) (floats : Floats)
    (sort : List String → List String) where
  dispatch-IsPaired :
      (now : Timestamp) (c : KernelCommand) (k : Kernel)
      → IsPaired k
      → IsPaired (dispatch run_value response_value floats sort now c k).1
  unfolding dispatch
  dispatch-IsPaired now (Actor.initialize_session id w run force) k h =
      initialize-IsPaired run_value now id w run force (ensure_record now id run k)
        (ensure-IsPaired now id run k h)
  dispatch-IsPaired now (next_instruction id) k h = next-IsPaired now id k h
  dispatch-IsPaired now (agent_result id agent output updates metrics success message broke) k h =
      IsPaired-Replaces h (
        process-Replaces response_value now id agent output updates metrics success message broke k)
  dispatch-IsPaired now (session_state id) k h = h
  dispatch-IsPaired now (new_run id request user session) k h =
      IsPaired-Replaces h (Replaces-equal k _ refl refl)
  dispatch-IsPaired now (end_run id) k h = terminate-IsPaired now id k h
  dispatch-IsPaired now system_status k h = h
  dispatch-IsPaired now (resolve_interrupt id interrupt response) k h =
      IsPaired-Replaces h (resolve-Replaces response_value id interrupt response k)
  dispatch-IsPaired now (set_interrupt id i) k h = IsPaired-Replaces h (set-Replaces now id i k)
  dispatch-IsPaired now (tool_health (some name)) k h = h
  dispatch-IsPaired now (tool_health none) k h = h
  dispatch-IsPaired now (routing_fn name f) k h = IsPaired-Replaces h (Replaces-equal k _ refl refl)

  -- Whatever commands the actor takes, in whatever order, and whether they succeed or end in
  -- errors: when the kernel holds a state of exactly the runs that have a session, it does so after
  -- the commands, too. No command leaves a run without a session, or a session without a run.
  pub run_kernel_actor-IsPaired :
      (commands : List (Timestamp × KernelCommand)) (k : Kernel)
      → IsPaired k
      → IsPaired (run_kernel_actor run_value response_value floats sort commands k).1
  unfolding run_kernel_actor
  run_kernel_actor-IsPaired [] k h = h
  run_kernel_actor-IsPaired ((now, c) ∷ commands) k h =
      run_kernel_actor-IsPaired commands _ (dispatch-IsPaired now c k h)
