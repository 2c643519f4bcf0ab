-- ===== src/Kernel/Dispatch/Delivery.antt =====
-- How an interrupt and its answer travel through the kernel (src/kernel/dispatch.rs).
use jeeves_core.Prelude.{
  String, ◌≡◌, refl, sym, ap, ◌∙◌, Option, none, some, inl, inr, arith, Option-cases,
}
use jeeves_core.Prelude.Dict
use jeeves_core.Json.{Value}
use jeeves_core.Types.{RunId, InterruptId, Timestamp, Result, ok, err}
use jeeves_core.Run.{Run, InterruptResponse, check_bounds}
use jeeves_core.Kernel.Routing.{RoutingDecision}
use jeeves_core.Kernel.Protocol.{
  Instruction, AgentDispatchContext, run_agent_with, terminate_with_context, wait_interrupt,
}
use jeeves_core.Kernel.Orchestrator
use jeeves_core.Kernel.Orchestrator.{Orchestration, instruct, expired}
use jeeves_core.Kernel.Orchestrator.Queries.{take_last_routing_decision}
use jeeves_core.Kernel.Interrupts.{PendingInterrupt, get_pending, resolve-known}
use jeeves_core.Kernel.Lifecycle
use jeeves_core.Kernel.Dispatch.{
  Kernel, response_key, forget_response, enrich, enrich_agent, attach_decision, deliver,
  get_next_instruction,
}
use jeeves_core.Kernel.Dispatch.Runs.{set_pending, resolve_run_interrupt, answer_run}

pub attach-run_agent :
    (d : Option RoutingDecision) (i : Instruction) {agent : String} {c : AgentDispatchContext}
    → attach_decision d i ≡ run_agent_with agent c
    → (context : AgentDispatchContext) × (i ≡ run_agent_with agent context)
      × (context.interrupt_response ≡ c.interrupt_response)
attach-run_agent none i {c = c} h = (c, h, refl)
attach-run_agent (some d) (run_agent_with a x) h = (x, cc, let e = h in cc)
attach-run_agent (some d) (terminate_with_context a b x) h = cc
attach-run_agent (some d) (wait_interrupt a) h = cc

-- What the run of a `RunAgent` answer holds afterwards, and what the answer holds of the run.
deliver-run_agent :
    (now : Timestamp) (id : RunId) (run : Run) (k : Kernel) (r : Result Instruction)
    {agent : String} {c : AgentDispatchContext}
    → (deliver now id run k r).0 ≡ ok (run_agent_with agent c)
    → (c.interrupt_response ≡ Dict.get run.audit.metadata response_key)
      × (Dict.get (deliver now id run k r).1.runs id ≡ some (forget_response run))
unfolding deliver enrich enrich_agent
deliver-run_agent now id run k (err e) h = cc
deliver-run_agent now id run k (ok (run_agent_with a x)) {agent} {c} h =
    let d = (take_last_routing_decision id k.orchestrator).0 in
    let e : attach_decision d (run_agent_with a (enrich_agent now id run k x))
        ≡ run_agent_with agent c =
      cc in
    let p = attach-run_agent d (run_agent_with a (enrich_agent now id run k x)) e in
    let q : p.0 ≡ enrich_agent now id run k x = let same = p.1 in cc in
    (sym p.2 ∙ ap (λ y. y.interrupt_response) q, Dict.get-insert_self k.runs id _)
deliver-run_agent now id run k (ok (terminate_with_context a b x)) {agent} {c} h =
    let d = (take_last_routing_decision id k.orchestrator).0 in
    let i = enrich now id run k (terminate_with_context a b x) in
    let e : attach_decision d i.0 ≡ run_agent_with agent c = cc in
    let p = (attach-run_agent d i.0 e).1 in absurd (cc)
deliver-run_agent now id run k (ok (wait_interrupt a)) {agent} {c} h =
    let d = (take_last_routing_decision id k.orchestrator).0 in
    let e : attach_decision d (wait_interrupt a) ≡ run_agent_with agent c = cc in
    let p = (attach-run_agent d (wait_interrupt a) e).1 in absurd (cc)

pub next_known :
    (now : Timestamp) (id : RunId) (k : Kernel) {run : Run}
    → Dict.get k.runs id ≡ some run
    → let asked = Orchestrator.get_next_instruction now id run k.orchestrator in
      get_next_instruction now id k
      ≡ deliver now id asked.1 (record k { orchestrator = asked.2 }) asked.0
unfolding get_next_instruction
next_known now id k e = rw (e, get_next_instruction) refl

-- The orchestrator keeps the metadata of a run.
metadata-next :
    (now : Timestamp) (id : RunId) (run : Run) (o : Orchestrator.Orchestrator)
    → (Orchestrator.get_next_instruction now id run o).1.audit ≡ run.audit
unfolding Orchestrator.get_next_instruction instruct check_bounds
metadata-next now id run o = ground arith

pub next-run_agent :
    (now : Timestamp) (id : RunId) (k : Kernel) {run : Run} {agent : String}
    {c : AgentDispatchContext}
    → Dict.get k.runs id ≡ some run
    → (get_next_instruction now id k).0 ≡ ok (run_agent_with agent c)
    → (c.interrupt_response ≡ Dict.get run.audit.metadata response_key)
      × (Dict.get (get_next_instruction now id k).1.runs id
          ≡ some (forget_response (Orchestrator.get_next_instruction now id run k.orchestrator).1))
next-run_agent now id k {run} e h =
    let asked = Orchestrator.get_next_instruction now id run k.orchestrator in
    let k' = record k { orchestrator = asked.2 } in
    let n = next_known now id k e in
    let d = deliver-run_agent now id asked.1 k' asked.0 (sym (ap (λ x. x.0) n) ∙ h) in
    (
      d.0 ∙ ap (λ a. Dict.get a.metadata response_key) (metadata-next now id run k.orchestrator),
      ap (λ x. Dict.get x.1.runs id) n ∙ d.1,
    )

-- When two instructions for a known run, asked one directly after the other, are both `RunAgent`,
-- the first carries the answer that the run's metadata holds, if any, and the second carries none.
pub answer_delivered_once :
    (now later : Timestamp) (id : RunId) (k : Kernel) {run : Run} {agent agent' : String}
    {c c' : AgentDispatchContext}
    → Dict.get k.runs id ≡ some run
    → (get_next_instruction now id k).0 ≡ ok (run_agent_with agent c)
    → (get_next_instruction later id (get_next_instruction now id k).1).0
      ≡ ok (run_agent_with agent' c')
    → (c.interrupt_response ≡ Dict.get run.audit.metadata response_key)
      × (c'.interrupt_response ≡ none)
answer_delivered_once now later id k {run} e h h' =
    let first = next-run_agent now id k e h in
    let second = next-run_agent later id (get_next_instruction now id k).1 first.1 h' in
    (first.0, second.0 ∙ Dict.get-remove_self _ response_key)

pub runs-set_pending :
    (id : RunId) (pending : Option InterruptId) (k : Kernel)
    → (set_pending id pending k).runs ≡ k.runs
runs-set_pending id pending k = elim (Option-cases (Lifecycle.get id k.lifecycle)) [
  | inl e ↦ rw (e, set_pending) refl
  | inr (r, e) ↦ rw (e, set_pending) refl
]

-- The answer to a pending interrupt is accepted, and the run that it is given to then holds it and
-- has no interrupt.
resolve_run-known :
    (value : InterruptResponse → Value) (id : RunId) (interrupt_id : InterruptId)
    (response : InterruptResponse) (k : Kernel) {run : Run} {p : PendingInterrupt}
    → get_pending interrupt_id k.interrupts ≡ some p
    → Dict.get k.runs id ≡ some run
    → ((resolve_run_interrupt value id interrupt_id response k).0 ≡ ok tt)
      × (Dict.get (resolve_run_interrupt value id interrupt_id response k).1.runs id
          ≡ some (answer_run (value response) run))
unfolding resolve_run_interrupt
resolve_run-known value id interrupt_id response k {run} p e =
    let r = resolve-known interrupt_id response k.interrupts p in
    rw (r, e, resolve_run_interrupt)
      (
        refl,
        ap (λ runs. Dict.get runs id) (runs-set_pending id none _)
            ∙ Dict.get-insert_self k.runs id (answer_run (value response) run),
      )

pub interrupts-set_pending :
    (id : RunId) (pending : Option InterruptId) (k : Kernel)
    → (set_pending id pending k).interrupts ≡ k.interrupts
interrupts-set_pending id pending k = elim (Option-cases (Lifecycle.get id k.lifecycle)) [
  | inl e ↦ rw (e, set_pending) refl
  | inr (r, e) ↦ rw (e, set_pending) refl
]

not_pending-resolve_run :
    (value : InterruptResponse → Value) (id : RunId) (interrupt_id : InterruptId)
    (response : InterruptResponse) (k : Kernel) {p : PendingInterrupt}
    → get_pending interrupt_id k.interrupts ≡ some p
    → get_pending interrupt_id (resolve_run_interrupt value id interrupt_id response k).1.interrupts
      ≡ none
unfolding resolve_run_interrupt
not_pending-resolve_run value id interrupt_id response k p =
    let r = resolve-known interrupt_id response k.interrupts p in
    let gone =
      ap (λ x. get_pending interrupt_id x.1) r
      ∙ Dict.get-remove_self k.interrupts.pending interrupt_id in
    elim (Option-cases (Dict.get k.runs id)) [
      | inl e ↦
          rw (r, e, resolve_run_interrupt)
            (ap (λ s. get_pending interrupt_id s) (interrupts-set_pending id none _) ∙ gone)
      | inr (run, e) ↦
          rw (r, e, resolve_run_interrupt)
            (ap (λ s. get_pending interrupt_id s) (interrupts-set_pending id none _) ∙ gone)
    ]

-- A `RunAgent` carries the response; what else is answered is not restricted.
abbrev pub Carries : Value → Result Instruction → Type 0
Carries v (ok (run_agent_with agent c)) = c.interrupt_response ≡ some v
Carries v (ok (terminate_with_context reason message c)) = Unit
Carries v (ok (wait_interrupt i)) = Unit
Carries v (err e) = Unit

-- The answer to a pending interrupt, given to a known run, is accepted whatever state the run is in,
-- the interrupt is then no longer pending, and if the next instruction for the run is a `RunAgent`,
-- it carries this answer.
pub resolved_answer_delivered :
    (value : InterruptResponse → Value) (now : Timestamp) (id : RunId) (interrupt_id : InterruptId)
    (response : InterruptResponse) (k : Kernel) {run : Run} {p : PendingInterrupt}
    → get_pending interrupt_id k.interrupts ≡ some p
    → Dict.get k.runs id ≡ some run
    → let k' = (resolve_run_interrupt value id interrupt_id response k).1 in
      ((resolve_run_interrupt value id interrupt_id response k).0 ≡ ok tt)
      × (get_pending interrupt_id k'.interrupts ≡ none)
      × Carries (value response) (get_next_instruction now id k').0
unfolding answer_run
resolved_answer_delivered value now id interrupt_id response k {run} p e = (
  (resolve_run-known value id interrupt_id response k p e).0,
  not_pending-resolve_run value id interrupt_id response k p,
  carried _ refl,
)
  where
    k' : Kernel
    k' = (resolve_run_interrupt value id interrupt_id response k).1

    carried :
        (next : Result Instruction)
        → (get_next_instruction now id k').0 ≡ next
        → Carries (value response) next
    carried (ok (run_agent_with agent c)) h =
        (next-run_agent now id k' (resolve_run-known value id interrupt_id response k p e).1 h).0
        ∙ Dict.get-insert_self run.audit.metadata response_key (value response)
    carried (ok (terminate_with_context reason message c)) h = tt
    carried (ok (wait_interrupt i)) h = tt
    carried (err x) h = tt
