-- ===== src/Kernel/Actor/Apart.antt =====
-- The commands for other runs (src/kernel/actor.rs).
use jeeves_core.Prelude.{
  String, ◌≡◌, refl, ap, Bool, false, none, some, inl, inr, List, [], ◌∷◌, All, ◌==◌, Bool-cases,
  Option-cases,
}
use jeeves_core.Json.{Value}
use jeeves_core.Types.{RunId, Timestamp}
use jeeves_core.Run.{Run, InterruptResponse}
use jeeves_core.Kernel.Lifecycle
use jeeves_core.Kernel.Lifecycle.{new_record}
use jeeves_core.Kernel.Dispatch.{Kernel, get_next_instruction}
use jeeves_core.Kernel.Dispatch.Results.{result_isolated}
use jeeves_core.Tools.Health.Reports.{Floats}
use jeeves_core.Kernel.Dispatch.Apart.{
  Untouched, untouched, Untouched-trans, create-Untouched, initialize-Untouched,
  terminate-Untouched, next-Untouched, set-Untouched, resolve-Untouched,
}
use jeeves_core.Kernel.Actor
use jeeves_core.Kernel.Actor.{
  KernelCommand, next_instruction, agent_result, session_state, new_run, end_run, system_status,
  resolve_interrupt, set_interrupt, tool_health, routing_fn, terminates, ensure_record,
  dispatch_next, dispatch, run_kernel_actor,
}

-- The command is for the run.
abbrev pub concerns : RunId → KernelCommand → Bool
concerns id (Actor.initialize_session j w run force) = j == id
concerns id (next_instruction j) = j == id
concerns id (agent_result j agent output updates metrics success message broke) = j == id
concerns id (new_run j request user session) = j == id
concerns id (end_run j) = j == id
concerns id (resolve_interrupt j interrupt response) = j == id
concerns id (set_interrupt j i) = j == id
concerns id (session_state j) = j == id
concerns id system_status = false
concerns id (tool_health name) = false
concerns id (routing_fn name f) = false

module _ (j id : RunId) (apart : (j == id) ≡ false) where
  ensure-Untouched :
      (now : Timestamp) (run : Run) (k : Kernel) → Untouched id k (ensure_record now j run k)
  unfolding ensure_record
  ensure-Untouched now run k = elim (Option-cases (Lifecycle.get j k.lifecycle)) [
    | inr (r, e) ↦ rw (ensure_record, e) (untouched id k)
    | inl e ↦ rw (ensure_record, e) (create-Untouched j id apart now _ _ _ k)
  ]

  dispatch_next-Untouched :
      (now : Timestamp) (k : Kernel) → Untouched id k (dispatch_next now j k).1
  unfolding dispatch_next
  dispatch_next-Untouched now k =
      let g = get_next_instruction now j k in
      let p = next-Untouched j id apart now k in
      elim (Bool-cases (terminates g.0)) [
        | inl e ↦ rw (dispatch_next, e) (Untouched-trans p (terminate-Untouched j id apart now g.1))
        | inr e ↦ rw (dispatch_next, e) p
      ]

module _ (run_value : Run → Value) (response_value : InterruptResponse → Value) (floats : Floats)
    (sort : List String → List String) (id : RunId) where
  dispatch-Untouched :
      (now : Timestamp) (c : KernelCommand) (k : Kernel)
      → concerns id c ≡ false
      → Untouched id k (dispatch run_value response_value floats sort now c k).1
  unfolding dispatch
  dispatch-Untouched now (Actor.initialize_session j w run force) k q =
      Untouched-trans (ensure-Untouched j id q now run k)
        (initialize-Untouched j id q run_value now w run force (ensure_record now j run k))
  dispatch-Untouched now (next_instruction j) k q = dispatch_next-Untouched j id q now k
  dispatch-Untouched now (agent_result j agent output updates metrics success message broke) k q =
      let (r, s, l) =
        result_isolated response_value now j id agent output updates metrics success message broke k
          q in
      record { same_state = r; same_session = s; same_record = ap (Lifecycle.get id) l }
  dispatch-Untouched now (session_state j) k q = untouched id k
  dispatch-Untouched now (new_run j request user session) k q =
      create-Untouched j id q now request user session k
  dispatch-Untouched now (end_run j) k q = terminate-Untouched j id q now k
  dispatch-Untouched now system_status k q = untouched id k
  dispatch-Untouched now (resolve_interrupt j interrupt response) k q =
      resolve-Untouched j id q response_value interrupt response k
  dispatch-Untouched now (set_interrupt j i) k q = set-Untouched j id q now i k
  dispatch-Untouched now (tool_health (some name)) k q = untouched id k
  dispatch-Untouched now (tool_health none) k q = untouched id k
  dispatch-Untouched now (routing_fn name f) k q = record {
    same_state = refl;
    same_session = refl;
    same_record = refl;
  }

  -- Whatever commands the actor takes, as long as none is for a run: the run's state, its session
  -- and its record stay exactly as they were, whether the commands succeed or end in errors.
  pub run_kernel_actor-Untouched :
      (commands : List (Timestamp × KernelCommand)) (k : Kernel)
      → All (λ c. concerns id c.1 ≡ false) commands
      → Untouched id k (run_kernel_actor run_value response_value floats sort commands k).1
  unfolding run_kernel_actor
  run_kernel_actor-Untouched [] k q = untouched id k
  run_kernel_actor-Untouched ((now, c) ∷ commands) k q =
      Untouched-trans (dispatch-Untouched now c k q.0) (run_kernel_actor-Untouched commands _ q.1)
