-- ===== src/Kernel/Actor/Gone.antt =====
-- A run that was terminated does not come back (src/kernel/actor.rs).
use jeeves_core.Prelude.{
  String, ◌≡◌, refl, sym, ap, subst, ◌∙◌, Bool, true, false, ◌&&◌, none, some, is_some, inl, inr,
  List, [], ◌∷◌, All, arith, ◌==◌, eq_iff, Bool-cases, Option-cases,
}
use jeeves_core.Prelude.Dict
use jeeves_core.Json.{Value}
use jeeves_core.Types.{RunId, Timestamp, Result, ok, err, Result-cases}
use jeeves_core.Workflow.{Workflow}
use jeeves_core.Run.{Run, InterruptResponse}
use jeeves_core.Kernel.Orchestrator.Session
use jeeves_core.Kernel.Dispatch.{Kernel, get_next_instruction, process_agent_result}
use jeeves_core.Kernel.Dispatch.Runs.{
  initialize_orchestration, get_orchestration_state, terminate_run, set_run_interrupt,
}
use jeeves_core.Kernel.Dispatch.Records.{terminate_run_removes}
use jeeves_core.Tools.Health.Reports.{Floats}
use jeeves_core.Kernel.Actor.{
  KernelCommand, initialize_session, next_instruction, agent_result, session_state, new_run,
  end_run, system_status, resolve_interrupt, set_interrupt, tool_health, routing_fn, Reply,
  snapshot, instruction, done, created, status, tool_report, system_report, terminates,
  ensure_record, dispatch_next, dispatch, run_kernel_actor,
}
use jeeves_core.Kernel.Actor.Keeps.{
  holds, Keeps, process-Keeps, next-Keeps, create-Keeps, set-Keeps, resolve-Keeps,
}
use jeeves_core.Kernel.Actor.Recorded.{ensure-Keeps}

-- The command starts the run's session.
abbrev pub starts : RunId → KernelCommand → Bool
starts id (initialize_session j w run force) = j == id
starts id _ = false

-- The command works on the state of the run.
abbrev pub needs : RunId → KernelCommand → Bool
needs id (next_instruction j) = j == id
needs id (agent_result j agent output updates metrics success message broke) = j == id
needs id (session_state j) = j == id
needs id (set_interrupt j i) = j == id
needs id _ = false

-- The command and its reply tell that the run was terminated: by the client, or by the kernel.
abbrev pub ends : RunId → KernelCommand → Reply → Bool
ends id (end_run j) r = j == id
ends id (next_instruction j) (instruction r) = (j == id) && terminates r
ends id _ _ = false

abbrev pub is_err {ℓ} : {A : Type ℓ} → Result A → Bool
is_err (ok x) = false
is_err (err e) = true

abbrev pub is_refusal : Reply → Bool
is_refusal (snapshot r) = is_err r
is_refusal (instruction r) = is_err r
is_refusal (done r) = is_err r
is_refusal (created r) = is_err r
is_refusal (status s) = false
is_refusal (tool_report r) = false
is_refusal (system_report r) = false

module _ (id : RunId) where
  kept_away : (k k' : Kernel) → Keeps k k' → holds id k ≡ false → holds id k' ≡ false
  kept_away k k' p h = elim (Bool-cases (holds id k')) [
    | inl q ↦ let r = p.held id q in cc
    | inr q ↦ q
  ]

  terminated_away :
      (now : Timestamp) (j : RunId) (k : Kernel)
      → holds id k ≡ false
      → holds id (terminate_run now j k).1 ≡ false
  terminated_away now j k h =
      let (_, _, r, _) = terminate_run_removes now j id k in ground (arith, h, r, eq_iff j id)

  removed : (now : Timestamp) (k : Kernel) → holds id (terminate_run now id k).1 ≡ false
  removed now k =
      let (_, _, r, _) = terminate_run_removes now id id k in ground (arith, r, eq_iff id id)

  initialized_away :
      (value : Run → Value) (now : Timestamp) (j : RunId) (w : Workflow) (run : Run) (force : Bool)
      (k : Kernel)
      → (j == id) ≡ false
      → holds id k ≡ false
      → holds id (initialize_orchestration value now j w run force k).1 ≡ false
  unfolding initialize_orchestration
  initialized_away value now j w run force k q h =
      let i = Session.initialize_session value now j w run force k.orchestrator in
      elim (Result-cases i.0) [
        | inr (x, e) ↦ rw (initialize_orchestration, e) h
        | inl (s, e) ↦
            rw (initialize_orchestration, e)
              (let g = Dict.get-insert k.runs j id i.1 in ground (arith, h, q, g))
      ]

  next_away :
      (now : Timestamp) (j : RunId) (k : Kernel)
      → holds id k ≡ false
      → holds id (dispatch_next now j k).1 ≡ false
  unfolding dispatch_next
  next_away now j k h =
      let g = get_next_instruction now j k in
      let h' = kept_away k g.1 (next-Keeps now j k) h in
      elim (Bool-cases (terminates g.0)) [
        | inl e ↦ rw (dispatch_next, e) (terminated_away now j g.1 h')
        | inr e ↦ rw (dispatch_next, e) h'
      ]

next_removed :
    (now : Timestamp) (id : RunId) (k : Kernel)
    → terminates (get_next_instruction now id k).0 ≡ true
    → holds id (dispatch_next now id k).1 ≡ false
unfolding dispatch_next
next_removed now id k e = rw (dispatch_next, e) (removed id now (get_next_instruction now id k).1)

both : (p q : Bool) → (p && q) ≡ true → (p ≡ true) × (q ≡ true)
both true q h = (refl, h)
both false q h = cc

not_held :
    {id : RunId} (j : RunId) (k : Kernel) → j ≡ id → holds id k ≡ false → Dict.get k.runs j ≡ none
not_held {id} j k e h = elim (Option-cases (Dict.get k.runs j)) [
  | inl q ↦ q
  | inr (run, q) ↦
      let r : holds id k ≡ true = ap (λ i. holds i k) (sym e) ∙ ap is_some q in absurd (cc)
]

module _ (run_value : Run → Value) (response_value : InterruptResponse → Value) (floats : Floats)
    (sort : List String → List String) where
  abbrev pub step : Timestamp → KernelCommand → Kernel → Reply × Kernel
  step now c k = dispatch run_value response_value floats sort now c k

  abbrev pub later : List (Timestamp × KernelCommand) → Kernel → Kernel
  later commands k = (run_kernel_actor run_value response_value floats sort commands k).1

  module _ (id : RunId) where
    -- A run that the kernel does not hold is held after a start only.
    dispatch_away :
        (now : Timestamp) (c : KernelCommand) (k : Kernel)
        → starts id c ≡ false
        → holds id k ≡ false
        → holds id (dispatch run_value response_value floats sort now c k).1 ≡ false
    unfolding dispatch
    dispatch_away now (initialize_session j w run force) k q h =
        let k' = ensure_record now j run k in
        initialized_away id run_value now j w run force k' q
          (kept_away id k k' (ensure-Keeps now j run k) h)
    dispatch_away now (next_instruction j) k q h = next_away id now j k h
    dispatch_away now (agent_result j agent output updates metrics success message broke) k q h =
        kept_away id k _
          (process-Keeps response_value now j agent output updates metrics success message broke k)
          h
    dispatch_away now (session_state j) k q h = h
    dispatch_away now (new_run j request user session) k q h =
        kept_away id k _ (create-Keeps now j request user session k) h
    dispatch_away now (end_run j) k q h = terminated_away id now j k h
    dispatch_away now system_status k q h = h
    dispatch_away now (resolve_interrupt j interrupt response) k q h =
        kept_away id k _ (resolve-Keeps response_value j interrupt response k) h
    dispatch_away now (set_interrupt j i) k q h = kept_away id k _ (set-Keeps now j i k) h
    dispatch_away now (tool_health (some name)) k q h = h
    dispatch_away now (tool_health none) k q h = h
    dispatch_away now (routing_fn name f) k q h = h

    actor_away :
        (commands : List (Timestamp × KernelCommand)) (k : Kernel)
        → All (λ c. starts id c.1 ≡ false) commands
        → holds id k ≡ false
        → holds id (run_kernel_actor run_value response_value floats sort commands k).1 ≡ false
    unfolding run_kernel_actor
    actor_away [] k q h = h
    actor_away ((now, c) ∷ commands) k q h = actor_away commands _ q.1 (dispatch_away now c k q.0 h)

    -- A run that is told to be over is not held from then on.
    dispatch-ends :
        (now : Timestamp) (c : KernelCommand) (k : Kernel)
        → ends id c (dispatch run_value response_value floats sort now c k).0 ≡ true
        → holds id (dispatch run_value response_value floats sort now c k).1 ≡ false
    unfolding dispatch dispatch_next
    dispatch-ends now (initialize_session j w run force) k h = cc
    dispatch-ends now (next_instruction j) k h =
        let (same, over) = both (j == id) (terminates (get_next_instruction now j k).0) h in
        subst (λ i. holds i (dispatch_next now j k).1 ≡ false) ((eq_iff j id).0 same)
          (next_removed now j k over)
    dispatch-ends now (agent_result j agent output updates metrics success message broke) k h = cc
    dispatch-ends now (session_state j) k h = cc
    dispatch-ends now (new_run j request user session) k h = cc
    dispatch-ends now (end_run j) k h =
        subst (λ i. holds i (terminate_run now j k).1 ≡ false) ((eq_iff j id).0 h) (removed j now k)
    dispatch-ends now system_status k h = cc
    dispatch-ends now (resolve_interrupt j interrupt response) k h = cc
    dispatch-ends now (set_interrupt j i) k h = cc
    dispatch-ends now (tool_health (some name)) k h = cc
    dispatch-ends now (tool_health none) k h = cc
    dispatch-ends now (routing_fn name f) k h = cc

    dispatch-needs :
        (now : Timestamp) (c : KernelCommand) (k : Kernel)
        → needs id c ≡ true
        → holds id k ≡ false
        → is_refusal (dispatch run_value response_value floats sort now c k).0 ≡ true
    unfolding dispatch dispatch_next get_next_instruction process_agent_result set_run_interrupt
        get_orchestration_state
    dispatch-needs now (initialize_session j w run force) k n h = cc
    dispatch-needs now (next_instruction j) k n h =
        rw (get_next_instruction, not_held j k ((eq_iff j id).0 n) h) refl
    dispatch-needs now (agent_result j agent output updates metrics success message broke) k n h =
        rw (not_held j k ((eq_iff j id).0 n) h, process_agent_result) refl
    dispatch-needs now (session_state j) k n h =
        rw (not_held j k ((eq_iff j id).0 n) h, get_orchestration_state) refl
    dispatch-needs now (new_run j request user session) k n h = cc
    dispatch-needs now (end_run j) k n h = cc
    dispatch-needs now system_status k n h = cc
    dispatch-needs now (resolve_interrupt j interrupt response) k n h = cc
    dispatch-needs now (set_interrupt j i) k n h =
        rw (not_held j k ((eq_iff j id).0 n) h, set_run_interrupt) refl
    dispatch-needs now (tool_health (some name)) k n h = cc
    dispatch-needs now (tool_health none) k n h = cc
    dispatch-needs now (routing_fn name f) k n h = cc

    -- Once a command has ended a run, be it the client's `TerminateRun` or a `GetNextInstruction`
    -- that is answered with a termination, the run does not come back: whatever commands follow,
    -- for this run and for others, as long as none starts the run's session again, each later
    -- command that asks for the next instruction of the run or for its state, or that reports a
    -- result or sets an interrupt for it, is answered with an error.
    pub ended_run_refused :
        (before after : Timestamp) (ending asked : KernelCommand)
        (commands : List (Timestamp × KernelCommand)) (k : Kernel)
        → ends id ending (step before ending k).0 ≡ true
        → All (λ c. starts id c.1 ≡ false) commands
        → needs id asked ≡ true
        → is_refusal (step after asked (later commands (step before ending k).1)).0 ≡ true
    ended_run_refused before after ending asked commands k e q n =
        dispatch-needs after asked _ n (actor_away commands _ q (dispatch-ends before ending k e))
