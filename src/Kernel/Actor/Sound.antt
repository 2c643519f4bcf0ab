-- ===== src/Kernel/Actor/Sound.antt =====
-- The runs that go on stay within their limits, whatever commands come (src/kernel/actor.rs).
use jeeves_core.Prelude.{
  String, refl, none, some, inl, inr, List, [], ◌∷◌, All, Bool-cases, Option-cases,
}
use jeeves_core.Json.{Value}
use jeeves_core.Types.{RunId, Timestamp}
use jeeves_core.Run.{Run, InterruptResponse}
use jeeves_core.Kernel.Lifecycle
use jeeves_core.Kernel.Orchestrator.History.{IsFresh, Fits}
use jeeves_core.Kernel.Dispatch.{Kernel, get_next_instruction}
use jeeves_core.Kernel.Dispatch.Runs.{create_run}
use jeeves_core.Kernel.Dispatch.Sound.{
  AllSound, AllSound-same, terminate-AllSound, set-AllSound, resolve-AllSound,
}
use jeeves_core.Kernel.Dispatch.Sound.Asked.{next-AllSound}
use jeeves_core.Kernel.Dispatch.Sound.Taken.{process-AllSound, initialize-AllSound}
use jeeves_core.Tools.Health.Reports.{Floats}
use jeeves_core.Kernel.Actor.{
  KernelCommand, initialize_session, next_instruction, agent_result, session_state, new_run,
  end_run, system_status, resolve_interrupt, set_interrupt, tool_health, routing_fn, terminates,
  ensure_record, dispatch_next, dispatch, run_kernel_actor,
}

-- A session is started with a fresh run and a workflow whose bounds are `i32`.
abbrev pub StartsFresh : Timestamp × KernelCommand → Type 0
StartsFresh (now, initialize_session id w run force) = IsFresh run × Fits w
StartsFresh (now, _) = Unit

ensure-AllSound :
    (now : Timestamp) (id : RunId) (run : Run) (k : Kernel)
    → AllSound k
    → AllSound (ensure_record now id run k)
unfolding ensure_record create_run
ensure-AllSound now id run k h = elim (Option-cases (Lifecycle.get id k.lifecycle)) [
  | inr (r, e) ↦ rw (ensure_record, e) h
  | inl e ↦ rw (ensure_record, e) (AllSound-same k _ refl refl h)
]

dispatch_next-AllSound :
    (now : Timestamp) (id : RunId) (k : Kernel) → AllSound k → AllSound (dispatch_next now id k).1
unfolding dispatch_next
dispatch_next-AllSound now id k h =
    let g = get_next_instruction now id k in
    let h' = next-AllSound now id k h in
    elim (Bool-cases (terminates g.0)) [
      | inl e ↦ rw (dispatch_next, e) (terminate-AllSound now id g.1 h')
      | inr e ↦ rw (dispatch_next, e) h'
    ]

module _ (run_value : Run → Value) (response_value : InterruptResponse → Value) (floats : Floats)
    (sort : List String → List String) where
  dispatch-AllSound :
      (now : Timestamp) (c : KernelCommand) (k : Kernel)
      → StartsFresh (now, c)
      → AllSound k
      → AllSound (dispatch run_value response_value floats sort now c k).1
  unfolding dispatch
  dispatch-AllSound now (initialize_session id w run force) k f h =
      initialize-AllSound run_value now id w run force (ensure_record now id run k) f.0 f.1
        (ensure-AllSound now id run k h)
  dispatch-AllSound now (next_instruction id) k f h = dispatch_next-AllSound now id k h
  dispatch-AllSound now (agent_result id agent output updates metrics success message broke) k f h =
      process-AllSound response_value now id agent output updates metrics success message broke k h
  dispatch-AllSound now (session_state id) k f h = h
  dispatch-AllSound now (new_run id request user session) k f h = AllSound-same k _ refl refl h
  dispatch-AllSound now (end_run id) k f h = terminate-AllSound now id k h
  dispatch-AllSound now system_status k f h = h
  dispatch-AllSound now (resolve_interrupt id interrupt response) k f h =
      resolve-AllSound response_value id interrupt response k h
  dispatch-AllSound now (set_interrupt id i) k f h = set-AllSound now id i k h
  dispatch-AllSound now (tool_health (some name)) k f h = h
  dispatch-AllSound now (tool_health none) k f h = h
  dispatch-AllSound now (routing_fn name fn) k f h = AllSound-same k _ refl refl h

  -- Whatever commands the actor takes, in whatever order and for however many runs, when each
  -- session is started with a fresh run and a workflow of `i32` bounds: each run that the kernel
  -- holds afterwards and that is not terminated has a session with a valid workflow, its iterations
  -- and hops are within their limits, no stage was visited more than `max_visits` times, and the
  -- stage it stands at may be visited once more.
  pub run_kernel_actor-AllSound :
      (commands : List (Timestamp × KernelCommand)) (k : Kernel)
      → All StartsFresh commands
      → AllSound k
      → AllSound (run_kernel_actor run_value response_value floats sort commands k).1
  unfolding run_kernel_actor
  run_kernel_actor-AllSound [] k f h = h
  run_kernel_actor-AllSound ((now, c) ∷ commands) k f h =
      run_kernel_actor-AllSound commands _ f.1 (dispatch-AllSound now c k f.0 h)
