-- ===== src/Agent/Runner/RunLoop/Returns.antt =====
-- The loop comes to its end (src/kernel/runner.rs).
use jeeves_core.Prelude.{
  ℕ, zero, suc, ◌<◌, String, ◌≡◌, refl, sym, ap, subst, ◌∙◌, inl, inr, Bool, true, false, Option,
  none, some, List, [], ◌∷◌, All, length, arith, Option-cases, if◌then◌else◌,
}
use jeeves_core.Prelude.Dict
use jeeves_core.Types.{RunId, Result, ok, err}
use jeeves_core.Run.{FlowInterrupt}
use jeeves_core.Run.Events.{RunEvent}
use jeeves_core.Kernel.Protocol.{
  Instruction, AgentDispatchContext, run_agent_with, terminate_with_context, wait_interrupt,
}
use jeeves_core.Kernel.Dispatch.{Kernel}
use jeeves_core.Kernel.Actor.{terminates, dispatch_next}
use jeeves_core.Agent.{AgentOutput}
use jeeves_core.Agent.Runner.RunLoop.{
  LoopArgs, Turn, Round, Step, returns, panics, again, polling, step_of, executed, after_agent,
  waiting_result, follow, round, run_loop,
}
use jeeves_core.Agent.Runner.RunLoop.Ends.{next-goes_on, next-instruction, continued}
use jeeves_core.Agent.Runner.RunLoop.Drivable.{
  Drivable, Goes, next-Goes, interrupt-Drivable, process-Drivable, Goes-zero,
}

-- Other clients leave the run and its session alone.
pub record IsUndisturbed (id : RunId) (t : Turn) : Type 0 where
  pub same_run : (k : Kernel) → Dict.get (t.between k).runs id ≡ Dict.get k.runs id
  pub same_session :
      (k : Kernel)
      → Dict.get (t.between k).orchestrator.sessions id ≡ Dict.get k.orchestrator.sessions id

-- The loop has returned, or it has panicked behind the retries of an agent.
abbrev pub HasEnded : Step → Type 0
HasEnded (returns w) = Unit
HasEnded panics = Unit
HasEnded again = ⊥
HasEnded polling = ⊥

between-Drivable :
    (id : RunId) (n : ℕ) (t : Turn) (k : Kernel)
    → IsUndisturbed id t
    → Drivable id n k
    → Drivable id n (t.between k)
between-Drivable id n t k u d = record {
  run = d.run;
  session = d.session;
  held = u.same_run k ∙ d.held;
  known = u.same_session k ∙ d.known;
  stands = d.stands;
}

between-Goes :
    (id : RunId) (n : ℕ) (t : Turn) (k : Kernel)
    → IsUndisturbed id t
    → Goes id n k
    → Goes id n (t.between k)
between-Goes id n t k u g = record {
  run = g.run;
  session = g.session;
  held = u.same_run k ∙ g.held;
  known = u.same_session k ∙ g.known;
  open_run = g.open_run;
  limits = g.limits;
  left = g.left;
}

module _ (c : LoopArgs) where
  -- A round in which others leave the run alone, and its agent asks for no interrupt that expires.
  pub record IsCalm (r : Round) : Type 0 where
    pub asked : IsUndisturbed c.run_id r.asked
    pub replied : IsUndisturbed c.run_id r.replied
    pub lasting :
        (agent : String) (context : AgentDispatchContext) (o : AgentOutput) (i : FlowInterrupt)
        → executed c r agent context ≡ some o
        → o.interrupt_request ≡ some i
        → i.expires_at ≡ none

  -- A round ends the loop, or leaves a run that takes one report less.
  data Turns (n : ℕ) (s : Step) (k : Kernel) : Type 0 where
    ends : HasEnded s → Turns n s k
    goes : (m : ℕ) → n ≡ suc m → s ≡ again → Drivable c.run_id m k → Turns n s k

  step-Turns :
      (n : ℕ) (r : Result (Unit {0})) (k : Kernel)
      → Drivable c.run_id n k
      → Turns (suc n) (step_of r) k
  unfolding step_of
  step-Turns n (ok u) k d = goes n refl refl d
  step-Turns n (err e) k d = ends tt

  after-Turns :
      (n : ℕ) (t : Turn) (agent : String) (o : Option AgentOutput) (k : Kernel)
      → IsUndisturbed c.run_id t
      → ((x : AgentOutput) (i : FlowInterrupt)
          → o ≡ some x
          → x.interrupt_request ≡ some i
          → i.expires_at ≡ none)
      → Goes c.run_id (suc n) k
      → Turns (suc n) (after_agent c t agent o k).0 (after_agent c t agent o k).1
  unfolding after_agent
  after-Turns n t agent none k u lasting g = ends tt
  after-Turns n t agent (some o) k u lasting g =
      let g' = between-Goes c.run_id (suc n) t k u g in
      elim (Option-cases o.interrupt_request) [
        | inl e ↦
            rw (e, after_agent)
              (step-Turns n _ _ (
                process-Drivable c.response_value t.now c.run_id n agent o.output none o.metrics
                  o.success o.error_message false (t.between k) g'))
        | inr (i, e) ↦
            rw (e, after_agent)
              (step-Turns n _ _ (
                interrupt-Drivable t.now c.run_id (suc n) n i (t.between k) g'
                  (lasting o i refl e)))
      ]

  follow-Turns :
      (n : ℕ) (r : Round) (i : Result Instruction) (k : Kernel)
      → IsCalm r
      → c.streaming ≡ false
      → ((agent : String) (context : AgentDispatchContext)
          → i ≡ ok (run_agent_with agent context)
          → Goes c.run_id n k)
      → Turns n (follow c r i k).0 (follow c r i k).1
  unfolding follow
  follow-Turns n r (err e) k calm quiet goes_on = ends tt
  follow-Turns n r (ok (terminate_with_context reason message context)) k calm quiet goes_on =
      ends tt
  follow-Turns n r (ok (wait_interrupt i)) k calm quiet goes_on =
      ends (ends_quietly c.streaming _ quiet)
    where
      ends_quietly :
          (b : Bool) (x : Step × Kernel × List RunEvent)
          → b ≡ false
          → HasEnded (if b then x else (returns (ok (waiting_result c)), k, [])).0
      ends_quietly true x e = absurd (let q = e in cc)
      ends_quietly false x e = tt
  follow-Turns zero r (ok (run_agent_with agent context)) k calm quiet goes_on =
      absurd (Goes-zero c.run_id k (goes_on agent context refl))
  follow-Turns (suc n) r (ok (run_agent_with agent context)) k calm quiet goes_on =
      after-Turns n r.replied agent (executed c r agent context) k calm.replied
        (calm.lasting agent context) (goes_on agent context refl)

  round-Turns :
      (n : ℕ) (r : Round) (k : Kernel)
      → IsCalm r
      → c.streaming ≡ false
      → Drivable c.run_id n k
      → Turns n (round c r k).0 (round c r k).1
  unfolding round
  round-Turns n r k calm quiet d =
      let before = r.asked.between k in
      let now = r.asked.now in
      let d' = between-Drivable c.run_id n r.asked k calm.asked d in
      follow-Turns n r (dispatch_next now c.run_id before).0 (dispatch_next now c.run_id before).1
        calm quiet
        (λ agent context e.
          let q = sym (next-instruction now c.run_id before) ∙ e in
          subst (Goes c.run_id n) (sym (next-goes_on now c.run_id before (ap terminates q)))
            (next-Goes now c.run_id n before d' q))

  continued-ends :
      (rs : List Round) (x : Step × Kernel × List RunEvent)
      → HasEnded x.0
      → HasEnded (continued c rs x).0
  continued-ends rs (returns w, k, es) h = tt
  continued-ends rs (panics, k, es) h = tt
  continued-ends rs (polling, k, es) h = absurd h
  continued-ends rs (again, k, es) h = absurd h

  continued-goes :
      (rs : List Round) (x : Step × Kernel × List RunEvent)
      → x.0 ≡ again
      → HasEnded (run_loop c rs x.1).0
      → HasEnded (continued c rs x).0
  continued-goes rs (again, k, es) e h = h
  continued-goes rs (returns w, k, es) e h = tt
  continued-goes rs (panics, k, es) e h = tt
  continued-goes rs (polling, k, es) e h = absurd (let q = e in cc)

  -- A buffered loop comes to its end: on a run that the kernel holds with its session, that is
  -- terminated, held back by an interrupt without expiry or within its limits with at most n
  -- iterations left, more than n rounds are enough, whatever the agents answer and the routing
  -- functions decide, when other clients leave the run alone and the interrupts that the agents ask
  -- for have no expiry.
  pub run_loop-HasEnded :
      (n : ℕ) (rounds : List Round) (k : Kernel)
      → n < length rounds
      → c.streaming ≡ false
      → All IsCalm rounds
      → Drivable c.run_id n k
      → HasEnded (run_loop c rounds k).0
  unfolding run_loop
  run_loop-HasEnded n [] k l quiet calm d = absurd (omega arith)
  run_loop-HasEnded n (r ∷ rs) k l quiet calm d = elim (round-Turns n r k calm.0 quiet d) [
    | ends h ↦ continued-ends rs (round c r k) h
    | goes m e s d' ↦
        continued-goes rs (round c r k) s
          (run_loop-HasEnded m rs (round c r k).1 (omega arith) quiet calm.1 d')
  ]
