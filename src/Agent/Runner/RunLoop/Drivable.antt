-- ===== src/Agent/Runner/RunLoop/Drivable.antt =====
-- What the commands of the loop leave in the kernel (src/kernel/runner.rs, dispatch.rs): a run that
-- can be driven on, with a bound on the reports that it still takes.
use jeeves_core.Prelude.{
  ℕ, suc, String, ◌≡◌, refl, sym, ap, subst, ◌∙◌, inl, inr, Bool, not, Option, none, some, [],
  arith, Option-cases, unwrap_or,
}
use jeeves_core.Prelude.Int.{pos, ◌+ℤ◌, ◌≤ℤ◌}
use jeeves_core.Prelude.Dict
use jeeves_core.Prelude.Dict.{Dict}
use jeeves_core.Json.{Value}
use jeeves_core.Types.{RunId, Timestamp, Result, ok, err}
use jeeves_core.Run.{
  Run, Termination, FlowInterrupt, InterruptResponse, InterruptState, Audit, set_interrupt,
  clear_interrupt, add_processing_record,
}
use jeeves_core.Kernel.Protocol.{
  Instruction, AgentDispatchContext, run_agent_with, terminate_with_context, wait_interrupt,
  AgentExecutionMetrics,
}
use jeeves_core.Kernel.Orchestrator
use jeeves_core.Kernel.Orchestrator.{Orchestration, expired, report_agent_result}
use jeeves_core.Kernel.Orchestrator.Limits.{
  WithinLimits, iteration-report, max_iterations-report, report-WithinLimits,
}
use jeeves_core.Kernel.Orchestrator.Instructions.{IsFree, run_agent-asked}
use jeeves_core.Kernel.Orchestrator.Progress.{known-report}
use jeeves_core.Kernel.Orchestrator.Queries.{
  get_state_schema, get_stage_output_key, take_last_routing_decision,
}
use jeeves_core.Kernel.AgentOutput.{take_output, processing_record}
use jeeves_core.Kernel.Dispatch.{
  Kernel, put_run, forget_response, get_next_instruction, deliver, enrich, attach_decision,
  finish_report, process_known, process_agent_result,
}
use jeeves_core.Kernel.Dispatch.Runs.{set_run_interrupt}
use jeeves_core.Kernel.Dispatch.Delivery.{attach-run_agent, next_known, next-run_agent}
use jeeves_core.Kernel.Dispatch.Waiting.{set-known}
use jeeves_core.Kernel.Dispatch.Records.{taken_fields, charged}

-- Where a run stands that the loop drives. A run that goes on takes at most n more reports.
pub data Stands (run : Run) (n : ℕ) : Type 0 where
  closed : (t : Termination) → run.termination ≡ some t → Stands run n
  held_back :
      (i : FlowInterrupt)
      → run.termination ≡ none
      → run.interrupts.interrupt ≡ some i
      → i.expires_at ≡ none
      → Stands run n
  going :
      run.termination ≡ none
      → WithinLimits run
      → run.max_iterations ≤ℤ run.iteration +ℤ pos n
      → Stands run n

-- The kernel holds the run and its session.
pub record Drivable (id : RunId) (n : ℕ) (k : Kernel) : Type 0 where
  pub run : Run
  pub session : Orchestration
  pub held : Dict.get k.runs id ≡ some run
  pub known : Dict.get k.orchestrator.sessions id ≡ some session
  pub stands : Stands run n

-- What is left alone keeps the limits.
host-WithinLimits :
    (run x : Run) {outputs : Dict (Dict Value)} {state : Dict Value} {interrupts : InterruptState}
    {audit : Audit}
    → x ≡ record run { outputs = outputs; state = state; interrupts = interrupts; audit = audit }
    → WithinLimits run
    → WithinLimits x
host-WithinLimits run x e w = subst WithinLimits (sym e) (record {
  iteration_nonneg = w.iteration_nonneg;
  iteration_capped = w.iteration_capped;
  iteration_left = w.iteration_left;
  hops_nonneg = w.hops_nonneg;
  hops_capped = w.hops_capped;
  max_iterations_i32 = w.max_iterations_i32;
  max_hops_i32 = w.max_hops_i32;
})

session-take :
    (id : RunId) (o : Orchestrator.Orchestrator) {s : Orchestration}
    → Dict.get o.sessions id ≡ some s
    → (s' : Orchestration) × (Dict.get (take_last_routing_decision id o).1.sessions id ≡ some s')
unfolding take_last_routing_decision
session-take id o {s} e =
    rw (e, take_last_routing_decision) (_, Dict.get-insert_self o.sessions id _)

session-asked :
    (now : Timestamp) (id : RunId) (run : Run) (o : Orchestrator.Orchestrator) {s : Orchestration}
    → Dict.get o.sessions id ≡ some s
    → (s' : Orchestration) × (Dict.get
          (Orchestrator.get_next_instruction now id run o).2.sessions
          id
        ≡ some s')
unfolding Orchestrator.get_next_instruction
session-asked now id run o {s} e =
    rw (e, Orchestrator.get_next_instruction) (_, Dict.get-insert_self o.sessions id _)

session-deliver :
    (now : Timestamp) (id : RunId) (run : Run) (k : Kernel) (r : Result Instruction)
    {s : Orchestration}
    → Dict.get k.orchestrator.sessions id ≡ some s
    → (s' : Orchestration) × (Dict.get (deliver now id run k r).1.orchestrator.sessions id
        ≡ some s')
unfolding deliver
session-deliver now id run k (err e) {s} h = (s, h)
session-deliver now id run k (ok i) h = session-take id k.orchestrator h

-- An answer that is delivered as `RunAgent` came from the orchestrator as one.
pub asked-run_agent :
    (now : Timestamp) (id : RunId) (run : Run) (k : Kernel) (r : Result Instruction)
    {agent : String} {c : AgentDispatchContext}
    → (deliver now id run k r).0 ≡ ok (run_agent_with agent c)
    → (a : String) × (x : AgentDispatchContext) × (r ≡ ok (run_agent_with a x))
unfolding deliver enrich
asked-run_agent now id run k (err e) h = cc
asked-run_agent now id run k (ok (run_agent_with a x)) h = (a, x, refl)
asked-run_agent now id run k (ok (terminate_with_context a b x)) {agent} {c} h =
    let d = (take_last_routing_decision id k.orchestrator).0 in
    let i = enrich now id run k (terminate_with_context a b x) in
    let e : attach_decision d i.0 ≡ run_agent_with agent c = cc in
    let p = (attach-run_agent d i.0 e).1 in absurd (cc)
asked-run_agent now id run k (ok (wait_interrupt a)) {agent} {c} h =
    let d = (take_last_routing_decision id k.orchestrator).0 in
    let e : attach_decision d (wait_interrupt a) ≡ run_agent_with agent c = cc in
    let p = (attach-run_agent d (wait_interrupt a) e).1 in absurd (cc)

-- An interrupt that never expires holds its run back.
held_back-not-free :
    (now : Timestamp) (o : Option FlowInterrupt) (i : FlowInterrupt)
    → o ≡ some i
    → i.expires_at ≡ none
    → IsFree now o
    → ⊥
unfolding expired
held_back-not-free now none i e x f = cc
held_back-not-free now (some j) i e x f =
    let same : j.expires_at ≡ none =
      ap (λ (o : Option FlowInterrupt). elim o [ none ↦ none | some z ↦ z.expires_at ]) e ∙ x in
    let q = (rw (same, expired) at f) in cc

-- A run that was told to run an agent goes on, and nothing of its limits has changed.
pub record Goes (id : RunId) (n : ℕ) (k : Kernel) : Type 0 where
  pub run : Run
  pub session : Orchestration
  pub held : Dict.get k.runs id ≡ some run
  pub known : Dict.get k.orchestrator.sessions id ≡ some session
  pub open_run : run.termination ≡ none
  pub limits : WithinLimits run
  pub left : run.max_iterations ≤ℤ run.iteration +ℤ pos n

pub next-Goes :
    (now : Timestamp) (id : RunId) (n : ℕ) (k : Kernel) {agent : String} {c : AgentDispatchContext}
    → Drivable id n k
    → (get_next_instruction now id k).0 ≡ ok (run_agent_with agent c)
    → Goes id n (get_next_instruction now id k).1
next-Goes now id n k {agent} {c} d h =
    let asked = Orchestrator.get_next_instruction now id d.run k.orchestrator in
    let k' = record k { orchestrator = asked.2 } in
    let e = next_known now id k d.held in
    let (a, x, q) = asked-run_agent now id asked.1 k' asked.0 (ap (λ y. y.0) (sym e) ∙ h) in
    let (s, known, t, free, bounds, named, same) = run_agent-asked now id d.run k.orchestrator q in
    let (s', known') = session-asked now id d.run k.orchestrator d.known in
    let (s'', known'') = session-deliver now id asked.1 k' asked.0 known' in
    elim d.stands [
      | closed u p ↦ absurd (let z = sym t ∙ p in cc)
      | held_back i u p y ↦ absurd (held_back-not-free now d.run.interrupts.interrupt i p y free)
      | going u w b ↦ record {
        run = forget_response (clear_interrupt d.run);
        session = s'';
        held = (next-run_agent now id k d.held h).1 ∙ ap (λ z. some (forget_response z)) same;
        known = ap (λ y. Dict.get y.1.orchestrator.sessions id) e ∙ known'';
        open_run = t;
        limits = host-WithinLimits d.run (forget_response (clear_interrupt d.run)) refl w;
        left = b;
      }
    ]

-- A request to wait that never expires holds the run back.
pub interrupt-Drivable :
    (now : Timestamp) (id : RunId) (n m : ℕ) (i : FlowInterrupt) (k : Kernel)
    → Goes id n k
    → i.expires_at ≡ none
    → Drivable id m (set_run_interrupt now id i k).1
interrupt-Drivable now id n m i k g x =
    let q = set-known now id i k g.held in
    record {
      run = set_interrupt i g.run;
      session = g.session;
      held = q.1;
      known = q.2 ∙ g.known;
      stands = held_back i g.open_run refl x;
    }

-- Where a run stands after a report that used up one of its iterations.
after_report :
    (run x : Run) (n : ℕ)
    → WithinLimits x
    → run.max_iterations ≤ℤ run.iteration +ℤ pos (suc n)
    → x.iteration ≡ run.iteration +ℤ pos 1
    → x.max_iterations ≡ run.max_iterations
    → Stands x n
unfolding ◌+ℤ◌
after_report run x n w b i m = elim (Option-cases x.termination) [
  | inl e ↦ going e w (rw (i, m) (ground arith))
  | inr (t, e) ↦ closed t e
]

-- The end of a report keeps where the run stands.
finish-Drivable :
    (now : Timestamp) (id : RunId) (n : ℕ) (agent : String) (metrics : AgentExecutionMetrics)
    (success : Bool) (error_message : String) (run : Run) (k : Kernel) (r : Result (Unit {0}))
    {s : Orchestration}
    → Dict.get k.orchestrator.sessions id ≡ some s
    → Stands run n
    → Drivable id n (finish_report now id agent metrics success error_message run k r).1
unfolding finish_report add_processing_record
finish-Drivable now id n agent metrics success error_message run k (err e) {s} h st = record {
  run = run;
  session = s;
  held = Dict.get-insert_self k.runs id run;
  known = h;
  stands = st;
}
finish-Drivable now id n agent metrics success error_message run k (ok u) {s} h st =
    let done =
      add_processing_record (processing_record now agent metrics success error_message run) run in
    let c = charged id metrics (put_run id done k) in
    record {
      run = done;
      session = s;
      held = ap (λ d. Dict.get d id) c.0 ∙ Dict.get-insert_self k.runs id done;
      known = ap (λ o. Dict.get o.sessions id) c.1 ∙ h;
      stands = elim st [
        | closed t e ↦ closed t e
        | held_back i t e x ↦ held_back i t e x
        | going t w b ↦ going t (host-WithinLimits run done refl w) b
      ];
    }

module _ (value : InterruptResponse → Value) (now : Timestamp) (id : RunId) (n : ℕ) (agent : String)
    (output : Value) (updates : Option (Dict Value)) (metrics : AgentExecutionMetrics)
    (success : Bool) (error_message : String) (broke : Bool) where
  process_known-Drivable :
      (k : Kernel) (g : Goes id (suc n) k)
      → Drivable id n
          (process_known value now id g.run agent output updates metrics success error_message broke
            k).1
  unfolding process_known
  process_known-Drivable k g =
      let run = g.run in
      let schema = unwrap_or [] (get_state_schema id k.orchestrator) in
      let output_key = unwrap_or agent (get_stage_output_key id agent k.orchestrator) in
      let taken = take_output schema output_key agent output updates success error_message run in
      let f = taken_fields schema output_key agent output updates success error_message run in
      let w = host-WithinLimits run taken f g.limits in
      let t = ap (λ x. x.termination) f ∙ g.open_run in
      let o = k.orchestrator in
      let i =
        iteration-report value now id metrics taken (not success) broke o g.session g.known t w in
      let m =
        max_iterations-report value now id metrics taken (not success) broke o g.session g.known t
          w in
      let w' =
        report-WithinLimits value now id metrics taken (not success) broke o g.session g.known t
          w in
      let reported = report_agent_result value now id metrics taken (not success) broke o in
      let (s, known) =
        known-report value
          (record { now = now; metrics = metrics; agent_failed = not success; break_loop = broke })
          id taken o g.session g.known in
      finish-Drivable now id n agent metrics success error_message reported.1
        (record k { orchestrator = reported.2 }) reported.0 known
        (after_report run reported.1 n w' g.left (i ∙ ap (λ x. x.iteration +ℤ pos 1) f)
          (m ∙ ap (λ x. x.max_iterations) f))

  -- A result uses up one of the iterations that are left, also where it ends in an error.
  pub process-Drivable :
      (k : Kernel)
      → Goes id (suc n) k
      → Drivable id n
          (process_agent_result value now id agent output updates metrics success error_message
            broke k).1
  unfolding process_agent_result
  process-Drivable k g =
      rw (g.held, process_agent_result)
        (process_known-Drivable _ (record {
          run = g.run;
          session = g.session;
          held = g.held;
          known = g.known;
          open_run = g.open_run;
          limits = g.limits;
          left = g.left;
        }))

-- A run without an iteration left does not go on.
pub Goes-zero : (id : RunId) (k : Kernel) → Goes id 0 k → ⊥
unfolding ◌+ℤ◌
Goes-zero id k g = let l = g.limits.iteration_left g.open_run in let b = g.left in ground arith
