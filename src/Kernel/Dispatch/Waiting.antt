-- ===== src/Kernel/Dispatch/Waiting.antt =====
-- A run that waits for the answer to an interrupt (src/kernel/dispatch.rs).
use jeeves_core.Prelude.{
  ◌≡◌, refl, ap, ◌∙◌, Bool, true, false, Option, none, some, is_some, inl, inr, Option-cases,
}
use jeeves_core.Prelude.Int.{ltb_ℤ}
use jeeves_core.Prelude.Dict
use jeeves_core.Types.{RunId, InterruptId, Timestamp, Result, ok}
use jeeves_core.Run.{Run, FlowInterrupt, Termination, set_interrupt}
use jeeves_core.Kernel.Routing.{RoutingDecision}
use jeeves_core.Kernel.Protocol.{Instruction, wait_interrupt}
use jeeves_core.Kernel.Orchestrator
use jeeves_core.Kernel.Orchestrator.{Orchestration, instruct, expired}
use jeeves_core.Kernel.Interrupts.{PendingInterrupt, register_flow_interrupt, get_pending}
use jeeves_core.Kernel.Lifecycle
use jeeves_core.Kernel.Dispatch.{Kernel, enrich, attach_decision, deliver, get_next_instruction}
use jeeves_core.Kernel.Dispatch.Runs.{set_pending, set_run_interrupt}
use jeeves_core.Kernel.Dispatch.Delivery.{next_known, runs-set_pending, interrupts-set_pending}

attach-wait :
    (d : Option RoutingDecision) (i : Option FlowInterrupt)
    → attach_decision d (wait_interrupt i) ≡ wait_interrupt i
attach-wait none i = refl
attach-wait (some d) i = refl

orchestrator_waits :
    (now : Timestamp) (id : RunId) (i : FlowInterrupt) (run : Run) (o : Orchestrator.Orchestrator)
    {session : Orchestration}
    → Dict.get o.sessions id ≡ some session
    → run.termination ≡ none
    → expired now i ≡ false
    → ((Orchestrator.get_next_instruction now id (set_interrupt i run) o).0
        ≡ ok (wait_interrupt (some i)))
      × ((Orchestrator.get_next_instruction now id (set_interrupt i run) o).1 ≡ set_interrupt i run)
unfolding Orchestrator.get_next_instruction instruct
orchestrator_waits now id i run o s t x =
    rw (s, Orchestrator.get_next_instruction) (simp (ap is_some t, x) (refl, refl))

next_waits :
    (now : Timestamp) (id : RunId) (i : FlowInterrupt) (run : Run) (k : Kernel)
    {session : Orchestration}
    → Dict.get k.runs id ≡ some (set_interrupt i run)
    → Dict.get k.orchestrator.sessions id ≡ some session
    → run.termination ≡ none
    → expired now i ≡ false
    → ((get_next_instruction now id k).0 ≡ ok (wait_interrupt (some i)))
      × (Dict.get (get_next_instruction now id k).1.runs id ≡ some (set_interrupt i run))
unfolding deliver enrich
next_waits now id i run k e s t x =
    let o = orchestrator_waits now id i run k.orchestrator s t x in
    rw (next_known now id k e) (
      rw (o.0, o.1)
        (ap ok (attach-wait _ (some i)), Dict.get-insert_self k.runs id (set_interrupt i run)))

orchestrator-set_pending :
    (id : RunId) (pending : Option InterruptId) (k : Kernel)
    → (set_pending id pending k).orchestrator ≡ k.orchestrator
orchestrator-set_pending id pending k = elim (Option-cases (Lifecycle.get id k.lifecycle)) [
  | inl e ↦ rw (e, set_pending) refl
  | inr (r, e) ↦ rw (e, set_pending) refl
]

-- The interrupt as the service keeps it: as it was given, with the run that asks.
abbrev pub asked_of : Timestamp → FlowInterrupt → Run → PendingInterrupt
asked_of now i run = record {
  interrupt = i;
  request_id = run.identity.request_id;
  user_id = run.identity.user_id;
  session_id = run.identity.session_id;
  envelope_id = run.identity.envelope_id;
  registered_at = now;
}

pub set-known :
    (now : Timestamp) (id : RunId) (i : FlowInterrupt) (k : Kernel) {run : Run}
    → Dict.get k.runs id ≡ some run
    → let set = set_run_interrupt now id i k in
      (set.0 ≡ ok tt)
      × (Dict.get set.1.runs id ≡ some (set_interrupt i run))
      × (Dict.get set.1.orchestrator.sessions id ≡ Dict.get k.orchestrator.sessions id)
      × (get_pending i.id set.1.interrupts ≡ some (asked_of now i run))
unfolding set_run_interrupt register_flow_interrupt
set-known now id i k {run} e =
    rw (e, set_run_interrupt)
      (
        refl,
        ap (λ runs. Dict.get runs id)
              (ap (λ runs. Dict.insert runs id (set_interrupt i run)) (runs-set_pending id _ _))
            ∙ Dict.get-insert_self k.runs id (set_interrupt i run),
        ap (λ o. Dict.get o.sessions id) (orchestrator-set_pending id _ _),
        ap (get_pending i.id) (interrupts-set_pending id _ _)
            ∙ Dict.get-insert_self k.interrupts.pending i.id _,
      )

-- The time is past the end of the interrupt.
abbrev pub passed : Timestamp → Option Timestamp → Bool
passed now none = false
passed now (some end) = ltb_ℤ end now

expired-passed : (now : Timestamp) (i : FlowInterrupt) → expired now i ≡ passed now i.expires_at
unfolding expired
expired-passed now i = elim (Option-cases i.expires_at) [
  | inl e ↦ rw (e, expired) refl
  | inr (end, e) ↦ rw (e, expired) refl
]

-- With a session, for a run that is not terminated, and as long as the interrupt lasts, the
-- instruction is to wait for it, and the run keeps it.
abbrev pub Awaited :
    FlowInterrupt
    → Run
    → Option Orchestration
    → Option Termination
    → Bool
    → Result Instruction
    → Option Run
    → Type 0
Awaited i run none t over next held = Unit
Awaited i run (some session) (some t) over next held = Unit
Awaited i run (some session) none true next held = Unit
Awaited i run (some session) none false next held =
    (next ≡ ok (wait_interrupt (some i)))
    × (held ≡ some (record run { interrupts = record { interrupt = some i } }))

-- Setting an interrupt on a known run succeeds, whatever state the run is in, and the service then
-- keeps the interrupt as it was given, with the request, the user and the session of the run. If
-- the run is not terminated, its session is known and the interrupt has not expired, the next
-- instruction is to wait for it, and the run keeps it.
pub interrupt_waits :
    (now later : Timestamp) (id : RunId) (i : FlowInterrupt) (k : Kernel) {run : Run}
    → Dict.get k.runs id ≡ some run
    → let k' = (set_run_interrupt now id i k).1 in
      ((set_run_interrupt now id i k).0 ≡ ok tt)
      × (get_pending i.id k'.interrupts ≡ some (asked_of now i run))
      × Awaited i run
          (Dict.get k.orchestrator.sessions id)
          run.termination
          (passed later i.expires_at)
          (get_next_instruction later id k').0
          (Dict.get (get_next_instruction later id k').1.runs id)
interrupt_waits now later id i k {run} e =
    let q = set-known now id i k e in (q.0, q.3, settled _ _ _ refl refl refl)
  where
    k' : Kernel
    k' = (set_run_interrupt now id i k).1

    settled :
        (s : Option Orchestration) (t : Option Termination) (over : Bool)
        → Dict.get k.orchestrator.sessions id ≡ s
        → run.termination ≡ t
        → passed later i.expires_at ≡ over
        → Awaited i run s t over
            (get_next_instruction later id k').0
            (Dict.get (get_next_instruction later id k').1.runs id)
    settled none t over a b c = tt
    settled (some session) (some t) over a b c = tt
    settled (some session) none true a b c = tt
    settled (some session) none false a b c =
        let q = set-known now id i k e in
        next_waits later id i run k' q.1 (q.2 ∙ a) b (expired-passed later i ∙ c)
