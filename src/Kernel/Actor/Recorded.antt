-- ===== src/Kernel/Actor/Recorded.antt =====
-- Every run that the kernel holds has a record (src/kernel/actor.rs).
use jeeves_core.Prelude.{
  String, ◌≡◌, refl, ap, Bool, true, none, some, is_some, inl, inr, List, [], ◌∷◌, arith, eq_iff,
  Bool-cases, Option-cases,
}
use jeeves_core.Prelude.Dict
use jeeves_core.Prelude.Dict.{Dict}
use jeeves_core.Json.{Value}
use jeeves_core.Types.{RunId, Timestamp, Result-cases}
use jeeves_core.Workflow.{Workflow}
use jeeves_core.Run.{Run, InterruptResponse}
use jeeves_core.Kernel.Lifecycle
use jeeves_core.Kernel.Lifecycle.{RunRecord, new_record}
use jeeves_core.Kernel.Dispatch.{Kernel, put_run, get_next_instruction}
use jeeves_core.Kernel.Orchestrator.Session
use jeeves_core.Kernel.Dispatch.Runs.{initialize_orchestration, create_run, terminate_run}
use jeeves_core.Kernel.Dispatch.Records.{terminate_run_removes}
use jeeves_core.Tools.Health.Reports.{Floats}
use jeeves_core.Kernel.Actor.{
  KernelCommand, initialize_session, next_instruction, agent_result, session_state, new_run,
  end_run, system_status, resolve_interrupt, set_interrupt, tool_health, routing_fn, terminates,
  ensure_record, dispatch_next, dispatch, run_kernel_actor,
}
use jeeves_core.Kernel.Actor.Keeps.{
  holds, records, Keeps, Keeps-refl, Keeps-same, process-Keeps, next-Keeps, create-Keeps, set-Keeps,
  resolve-Keeps,
}

-- Each run that is held has a record.
pub record Recorded (k : Kernel) : Type 0 where
  pub apply :
      (id : RunId)
      → is_some (Dict.get k.runs id) ≡ true
      → is_some (Lifecycle.get id k.lifecycle) ≡ true

Recorded-Keeps : {k k' : Kernel} → Recorded k → Keeps k k' → Recorded k'
Recorded-Keeps h p = record { apply = λ id e. p.kept id (h.apply id (p.held id e)) }

Recorded-terminate :
    (now : Timestamp) (id : RunId) (k : Kernel) → Recorded k → Recorded (terminate_run now id k).1
Recorded-terminate now id k h = record { apply = λ j e. after j e }
  where
    after :
        (j : RunId)
        → holds j (terminate_run now id k).1 ≡ true
        → records j (terminate_run now id k).1 ≡ true
    after j e =
        let (_, l, r, _) = terminate_run_removes now id j k in
        ground (arith, e, l, r, eq_iff id j, h.apply j)

-- The record of a run is there once it has been ensured.
ensured :
    (now : Timestamp) (id : RunId) (run : Run) (k : Kernel)
    → records id (ensure_record now id run k) ≡ true
unfolding ensure_record create_run Lifecycle.create
ensured now id run k = elim (Option-cases (Dict.get k.lifecycle.records id)) [
  | inr (r, e) ↦ rw (ensure_record, e) (ap is_some e)
  | inl e ↦
      rw (ensure_record, e)
        (rw (create_run, Lifecycle.create, e)
          (ap is_some (Dict.get-insert_self k.lifecycle.records id _)))
]

pub ensure-Keeps :
    (now : Timestamp) (id : RunId) (run : Run) (k : Kernel) → Keeps k (ensure_record now id run k)
unfolding ensure_record
ensure-Keeps now id run k = elim (Option-cases (Lifecycle.get id k.lifecycle)) [
  | inr (r, e) ↦ rw (ensure_record, e) (Keeps-refl k)
  | inl e ↦ rw (ensure_record, e) (create-Keeps now id _ _ _ k)
]

Recorded-put_run :
    (id : RunId) (run : Run) (k : Kernel)
    → Recorded k
    → records id k ≡ true
    → Recorded (put_run id run k)
Recorded-put_run id run k h r = record { apply = λ j e. after j e }
  where
    after : (j : RunId) → holds j (put_run id run k) ≡ true → records j k ≡ true
    after j e = ground (arith, e, r, Dict.get-insert k.runs id j run, eq_iff id j, h.apply j)

Recorded-initialize :
    (value : Run → Value) (now : Timestamp) (id : RunId) (w : Workflow) (run : Run) (force : Bool)
    (k : Kernel)
    → Recorded k
    → records id k ≡ true
    → Recorded (initialize_orchestration value now id w run force k).1
unfolding initialize_orchestration
Recorded-initialize value now id w run force k h r =
    let i = Session.initialize_session value now id w run force k.orchestrator in
    let k' : Kernel = record k { orchestrator = i.2 } in
    let h' = Recorded-Keeps h (Keeps-same k k' refl refl) in
    elim (Result-cases i.0) [
      | inr (x, e) ↦ rw (initialize_orchestration, e) h'
      | inl (s, e) ↦ rw (initialize_orchestration, e) (Recorded-put_run id i.1 k' h' r)
    ]

Recorded-next :
    (now : Timestamp) (id : RunId) (k : Kernel) → Recorded k → Recorded (dispatch_next now id k).1
unfolding dispatch_next
Recorded-next now id k h =
    let g = get_next_instruction now id k in
    let h' = Recorded-Keeps h (next-Keeps now id k) in
    elim (Bool-cases (terminates g.0)) [
      | inl e ↦ rw (dispatch_next, e) (Recorded-terminate now id g.1 h')
      | inr e ↦ rw (dispatch_next, e) h'
    ]

module _ (run_value : Run → Value) (response_value : InterruptResponse → Value) (floats : Floats)
    (sort : List String → List String) where
  dispatch-Recorded :
      (now : Timestamp) (c : KernelCommand) (k : Kernel)
      → Recorded k
      → Recorded (dispatch run_value response_value floats sort now c k).1
  unfolding dispatch
  dispatch-Recorded now (initialize_session id w run force) k h =
      Recorded-initialize run_value now id w run force (ensure_record now id run k)
        (Recorded-Keeps h (ensure-Keeps now id run k)) (ensured now id run k)
  dispatch-Recorded now (next_instruction id) k h = Recorded-next now id k h
  dispatch-Recorded now (agent_result id agent output updates metrics success message broke) k h =
      Recorded-Keeps h
        (process-Keeps response_value now id agent output updates metrics success message broke k)
  dispatch-Recorded now (session_state id) k h = h
  dispatch-Recorded now (new_run id request user session) k h =
      Recorded-Keeps h (create-Keeps now id request user session k)
  dispatch-Recorded now (end_run id) k h = Recorded-terminate now id k h
  dispatch-Recorded now system_status k h = h
  dispatch-Recorded now (resolve_interrupt id interrupt response) k h =
      Recorded-Keeps h (resolve-Keeps response_value id interrupt response k)
  dispatch-Recorded now (set_interrupt id i) k h = Recorded-Keeps h (set-Keeps now id i k)
  dispatch-Recorded now (tool_health (some name)) k h = h
  dispatch-Recorded now (tool_health none) k h = h
  dispatch-Recorded now (routing_fn name f) k h = Recorded-Keeps h (Keeps-same k _ refl refl)

  -- Whatever commands the actor takes, in whatever order: when each run that the kernel holds has
  -- a record, so has each run that it holds after the commands. A run is therefore never left
  -- without the record that its quota and its user are read from.
  pub run_kernel_actor-Recorded :
      (commands : List (Timestamp × KernelCommand)) (k : Kernel)
      → Recorded k
      → Recorded (run_kernel_actor run_value response_value floats sort commands k).1
  unfolding run_kernel_actor
  run_kernel_actor-Recorded [] k h = h
  run_kernel_actor-Recorded ((now, c) ∷ commands) k h =
      run_kernel_actor-Recorded commands _ (dispatch-Recorded now c k h)
