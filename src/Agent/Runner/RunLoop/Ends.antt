-- ===== src/Agent/Runner/RunLoop/Ends.antt =====
-- How the loop ends when it returns a result (src/kernel/runner.rs).
use mathlib.Core.List.{◌++◌ as append, append_assoc}
use jeeves_core.Prelude.{
  String, ◌≡◌, refl, sym, ap, subst, ◌∙◌, inl, inr, Bool, true, false, Option, none, some, is_some,
  List, [], ◌∷◌, eq_refl, Bool-cases, Option-cases, if◌then◌else◌,
}
use jeeves_core.Prelude.Dict
use jeeves_core.Types.{RunId, Timestamp, Result, ok, err, Result-cases}
use jeeves_core.Run.{Run, Termination, FlowInterrupt}
use jeeves_core.Run.Events.{RunEvent}
use jeeves_core.Kernel.Protocol.{
  Instruction, run_agent_with, terminate_with_context, wait_interrupt,
}
use jeeves_core.Kernel.Lifecycle
use jeeves_core.Kernel.Dispatch.{Kernel, get_next_instruction, deliver}
use jeeves_core.Kernel.Dispatch.Runs.{terminate_run}
use jeeves_core.Kernel.Dispatch.Records.{terminate_run_removes}
use jeeves_core.Kernel.Dispatch.Delivery.{next_known}
use jeeves_core.Kernel.Actor.{terminates, dispatch_next}
use jeeves_core.Agent.{AgentOutput}
use jeeves_core.Agent.Runner.RunLoop.{
  WorkerResult, LoopArgs, Turn, Round, Step, returns, panics, again, polling, step_of, sends,
  routing_event, executed, after_agent, poll, terminated_result, done_event, follow, round,
  run_loop, waits, waiting_result,
}

-- The kernel holds nothing of the run.
pub record IsGone (id : RunId) (k : Kernel) : Type 0 where
  pub no_state : Dict.get k.runs id ≡ none
  pub no_session : Dict.get k.orchestrator.sessions id ≡ none
  pub no_record : Lifecycle.get id k.lifecycle ≡ none

terminate-IsGone :
    (now : Timestamp) (id : RunId) (k : Kernel) → IsGone id (terminate_run now id k).1
terminate-IsGone now id k =
    let t = terminate_run_removes now id id k in
    let same = eq_refl id in
    record {
      no_state = t.2 ∙ rw same refl;
      no_session = t.3 ∙ rw same refl;
      no_record = t.1 ∙ rw same refl;
    }

-- The kernel after an instruction: the run is terminated where it is told to terminate.
pub next-ends :
    (now : Timestamp) (id : RunId) (k : Kernel)
    → terminates (get_next_instruction now id k).0 ≡ true
    → (dispatch_next now id k).1 ≡ (terminate_run now id (get_next_instruction now id k).1).1
unfolding dispatch_next
next-ends now id k h = rw (h, dispatch_next) refl

pub next-goes_on :
    (now : Timestamp) (id : RunId) (k : Kernel)
    → terminates (get_next_instruction now id k).0 ≡ false
    → (dispatch_next now id k).1 ≡ (get_next_instruction now id k).1
unfolding dispatch_next
next-goes_on now id k h = rw (h, dispatch_next) refl

pub next-instruction :
    (now : Timestamp) (id : RunId) (k : Kernel)
    → (dispatch_next now id k).0 ≡ (get_next_instruction now id k).0
unfolding dispatch_next
next-instruction now id k = refl

-- A run that is told to terminate is gone.
next-IsGone :
    (now : Timestamp) (id : RunId) (k : Kernel)
    → terminates (get_next_instruction now id k).0 ≡ true
    → IsGone id (dispatch_next now id k).1
next-IsGone now id k h =
    subst (IsGone id) (sym (next-ends now id k h))
      (terminate-IsGone now id (get_next_instruction now id k).1)

deliver-held :
    (now : Timestamp) (id : RunId) (run : Run) (k : Kernel) (r : Result Instruction)
    → is_some (Dict.get (deliver now id run k r).1.runs id) ≡ true
unfolding deliver
deliver-held now id run k (err e) = ap is_some (Dict.get-insert_self k.runs id run)
deliver-held now id run k (ok i) = ap is_some (Dict.get-insert_self k.runs id _)

-- A run that is told to wait is still held.
next-held :
    (now : Timestamp) (id : RunId) (k : Kernel) {i : Option FlowInterrupt}
    → (get_next_instruction now id k).0 ≡ ok (wait_interrupt i)
    → is_some (Dict.get (dispatch_next now id k).1.runs id) ≡ true
unfolding get_next_instruction
next-held now id k h =
    ap (λ (x : Kernel). is_some (Dict.get x.runs id)) (next-goes_on now id k (ap terminates h))
    ∙ held
  where
    held : is_some (Dict.get (get_next_instruction now id k).1.runs id) ≡ true
    held = elim (Option-cases (Dict.get k.runs id)) [
      | inl e ↦ absurd (let p = (rw (e, get_next_instruction) at h) in cc)
      | inr (run, e) ↦
          ap (λ x. is_some (Dict.get x.1.runs id)) (next_known now id k e)
          ∙ deliver-held now id _ _ _
    ]

module _ (c : LoopArgs) where
  -- The stream ends with the event of the termination.
  abbrev pub IsDone : Termination → WorkerResult → List RunEvent → Type 0
  IsDone t w es = (before : List RunEvent) × (es ≡ append before (sends c (done_event c t w)))

  -- The two ways for the loop to end with a result.
  pub data Ended (w : WorkerResult) (k : Kernel) (es : List RunEvent) : Type 0 where
    terminated :
        (t : Termination)
        → w.termination ≡ some t
        → IsGone c.run_id k
        → IsDone t w es
        → Ended w k es
    suspended :
        w.termination ≡ none
        → c.streaming ≡ false
        → is_some (Dict.get k.runs c.run_id) ≡ true
        → Ended w k es

  step_of-ne-ok : (r : Result (Unit {0})) {w : WorkerResult} → step_of r ≡ returns (ok w) → ⊥
  unfolding step_of
  step_of-ne-ok (ok u) h = cc
  step_of-ne-ok (err e) h = cc

  after_agent-ne-ok :
      (t : Turn) (agent : String) (o : Option AgentOutput) (k : Kernel) {w : WorkerResult}
      → (after_agent c t agent o k).0 ≡ returns (ok w)
      → ⊥
  unfolding after_agent
  after_agent-ne-ok t agent none k h = cc
  after_agent-ne-ok t agent (some o) k h = elim (Option-cases o.interrupt_request) [
    | inl e ↦ step_of-ne-ok _ (rw (e, after_agent) at h)
    | inr (i, e) ↦ step_of-ne-ok _ (rw (e, after_agent) at h)
  ]

  poll-ne-ok :
      (ts : List Turn) (k : Kernel) {w : WorkerResult} → (poll c ts k).0 ≡ returns (ok w) → ⊥
  unfolding poll
  poll-ne-ok [] k h = cc
  poll-ne-ok (t ∷ ts) k h = elim (Result-cases (dispatch_next t.now c.run_id (t.between k)).0) [
    | inr (x, e) ↦ let p = (rw (e, poll) at h) in cc
    | inl (i, e) ↦ elim (Bool-cases (waits i)) [
      | inl w ↦ poll-ne-ok ts (dispatch_next t.now c.run_id (t.between k)).1 (rw (e, w, poll) at h)
      | inr w ↦ let p = (rw (e, w, poll) at h) in cc
    ]
  ]

  buffered :
      {w : WorkerResult} (b : Bool) (x y : Step × Kernel × List RunEvent)
      → b ≡ false
      → Ended w y.1 y.2
      → Ended w (if b then x else y).1 (if b then x else y).2
  buffered true x y e h = absurd (let q = e in cc)
  buffered false x y e h = h

  follow-Ended :
      (r : Round) (i : Result Instruction) (k : Kernel) {w : WorkerResult}
      → (terminates i ≡ true → IsGone c.run_id k)
      → ((f : Option FlowInterrupt)
          → i ≡ ok (wait_interrupt f)
          → is_some (Dict.get k.runs c.run_id) ≡ true)
      → (follow c r i k).0 ≡ returns (ok w)
      → Ended w (follow c r i k).1 (follow c r i k).2
  unfolding follow
  follow-Ended r (err e) k gone held h = cc
  follow-Ended r (ok (run_agent_with agent context)) k gone held h =
      absurd (after_agent-ne-ok r.replied agent (executed c r agent context) k h)
  follow-Ended r (ok (terminate_with_context reason message context)) k {w} gone held h =
      let t : Termination = record { reason = reason; message = message } in
      let same : terminated_result c t context ≡ w = cc in
      terminated t (ap (λ x. x.termination) (sym same)) (gone refl) (
        routing_event c context.last_routing_decision,
        ap
            (λ x.
              append (routing_event c context.last_routing_decision) (sends c (done_event c t x)))
            same,
      )
  follow-Ended r (ok (wait_interrupt f)) k {w} gone held h = elim (Bool-cases c.streaming) [
    | inl e ↦ absurd (poll-ne-ok r.polls k (rw (e, follow) at h))
    | inr e ↦
        let q : returns (ok (waiting_result c)) ≡ returns (ok w) = rw (e, follow) at h in
        let same : waiting_result c ≡ w = cc in
        buffered c.streaming _ (returns (ok (waiting_result c)), k, []) e
          (suspended (ap (λ x. x.termination) (sym same)) e (held f refl))
  ]

  round-Ended :
      (r : Round) (k : Kernel) {w : WorkerResult}
      → (round c r k).0 ≡ returns (ok w)
      → Ended w (round c r k).1 (round c r k).2
  unfolding round
  round-Ended r k h =
      let before = r.asked.between k in
      let i = next-instruction r.asked.now c.run_id before in
      follow-Ended r (dispatch_next r.asked.now c.run_id before).0
        (dispatch_next r.asked.now c.run_id before).1
        (λ t. next-IsGone r.asked.now c.run_id before (ap terminates (sym i) ∙ t))
        (λ f e. next-held r.asked.now c.run_id before (sym i ∙ e)) h

  prepend-Ended :
      (es : List RunEvent) (w : WorkerResult) (k : Kernel) (es' : List RunEvent)
      → Ended w k es'
      → Ended w k (append es es')
  prepend-Ended es w k es' (terminated t e g (before, q)) =
      terminated t e g (append es before, ap (append es) q ∙ sym (append_assoc es before _))
  prepend-Ended es w k es' (suspended e s g) = suspended e s g

  -- A round that ends the loop ends it as the loop does, and else the other rounds follow.
  abbrev pub continued : List Round → Step × Kernel × List RunEvent → Step × Kernel × List RunEvent
  continued rs (s, k', es) = elim s [
    | returns w ↦ (returns w, k', es)
    | panics ↦ (panics, k', es)
    | polling ↦ (polling, k', es)
    | again ↦ let rest = run_loop c rs k' in (rest.0, rest.1, append es rest.2)
  ]

  continued-Ended :
      (rs : List Round) (x : Step × Kernel × List RunEvent) {w : WorkerResult}
      → (x.0 ≡ returns (ok w) → Ended w x.1 x.2)
      → ((run_loop c rs x.1).0 ≡ returns (ok w)
          → Ended w (run_loop c rs x.1).1 (run_loop c rs x.1).2)
      → (continued rs x).0 ≡ returns (ok w)
      → Ended w (continued rs x).1 (continued rs x).2
  continued-Ended rs (returns v, k, es) here there h = here h
  continued-Ended rs (panics, k, es) here there h = cc
  continued-Ended rs (polling, k, es) here there h = cc
  continued-Ended rs (again, k, es) {w} here there h =
      prepend-Ended es w (run_loop c rs k).1 (run_loop c rs k).2 (there h)

  -- Whatever the agents answer, and whatever other clients do in between: when the loop returns a
  -- result, either the run is terminated, the kernel holds no state, no session and no record of it,
  -- and a stream has ended with the event of this termination; or the result has no termination, the
  -- run is not streamed, and the kernel still holds it.
  pub run_loop-Ended :
      (rounds : List Round) (k : Kernel) {w : WorkerResult}
      → (run_loop c rounds k).0 ≡ returns (ok w)
      → Ended w (run_loop c rounds k).1 (run_loop c rounds k).2
  unfolding run_loop
  run_loop-Ended [] k h = cc
  run_loop-Ended (r ∷ rs) k h =
      continued-Ended rs (round c r k) (round-Ended r k) (run_loop-Ended rs (round c r k).1) h
