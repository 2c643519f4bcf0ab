-- ===== src/Kernel/Orchestrator/Limits.antt =====
-- The counters of a run against its limits, over `report_agent_result` and
-- `get_next_instruction` (src/kernel/orchestrator.rs, src/run/mod.rs).
use jeeves_core.Prelude.{◌≡◌, refl, ap, ◌∙◌, ◌⊎◌, inl, inr, Bool, Option, none, some, arith}
use jeeves_core.Prelude.Int.{ℤ, pos, ◌+ℤ◌, ◌≤ℤ◌, ◌<ℤ◌, IsI32, add_i32, add_i32-eq_add}
use jeeves_core.Prelude.Dict
use jeeves_core.Json.{Value}
use jeeves_core.Types.{RunId, StageName, Timestamp}
use jeeves_core.Run.{Run, InterruptResponse, check_bounds}
use jeeves_core.Kernel.Protocol.{AgentExecutionMetrics}
use jeeves_core.Kernel.Orchestrator.{Orchestration, Orchestrator, book, advance, count_visit}
use jeeves_core.Kernel.Orchestrator.Reporting.{
  Reported, bounded, broken, lost, routed, report-cases, reported,
}

-- The iterations and the hops lie between 0 and their limits, which are `i32`; a run that is not
-- terminated has an iteration left.
pub record WithinLimits (r : Run) : Type 0 where
  pub iteration_nonneg : pos 0 ≤ℤ r.iteration
  pub iteration_capped : r.iteration ≤ℤ r.max_iterations
  pub iteration_left : r.termination ≡ none → r.iteration <ℤ r.max_iterations
  pub hops_nonneg : pos 0 ≤ℤ r.metrics.agent_hops
  pub hops_capped : r.metrics.agent_hops ≤ℤ r.limits.max_agent_hops
  pub max_iterations_i32 : IsI32 r.max_iterations
  pub max_hops_i32 : IsI32 r.limits.max_agent_hops

-- One more on a counter below an `i32` limit does not wrap.
pub add_i32-one :
    (n limit : ℤ) → pos 0 ≤ℤ n → n <ℤ limit → IsI32 limit → add_i32 n (pos 1) ≡ n +ℤ pos 1
unfolding ◌+ℤ◌
add_i32-one n limit h k l = add_i32-eq_add n (pos 1) (ground arith, ground arith)

within_bounds :
    (r : Run)
    → check_bounds r ≡ none
    → (r.iteration <ℤ r.max_iterations) × (r.metrics.agent_hops <ℤ r.limits.max_agent_hops)
unfolding check_bounds
within_bounds r h = ground arith

-- The bookkeeping adds one to the iteration of a run that has one left.
iteration-book :
    (m : AgentExecutionMetrics) (r : Run)
    → r.termination ≡ none
    → WithinLimits r
    → (book m r).iteration ≡ r.iteration +ℤ pos 1
unfolding book
iteration-book m r t w =
    add_i32-one r.iteration r.max_iterations w.iteration_nonneg (w.iteration_left t)
      w.max_iterations_i32

-- What a transition does to the counters: the hops grow by one, or the run is terminated.
advance_counters :
    (session : Orchestration) (target : Option StageName) (r : Run)
    → ((advance session target r).iteration ≡ r.iteration)
      × ((advance session target r).max_iterations ≡ r.max_iterations)
      × ((advance session target r).limits ≡ r.limits)
      × (((advance session target r).metrics ≡ r.metrics)
          ⊎ ((advance session target r).metrics.agent_hops ≡ add_i32 r.metrics.agent_hops (pos 1)))
unfolding advance
advance_counters session target r = ground arith

-- A successor of a run within its limits is within them too: one more iteration, at most one
-- more hop where a hop is left, and an iteration left unless it is terminated.
next-WithinLimits :
    (r x : Run)
    → WithinLimits r
    → r.termination ≡ none
    → x.iteration ≡ r.iteration +ℤ pos 1
    → x.max_iterations ≡ r.max_iterations
    → x.limits ≡ r.limits
    → ((x.metrics.agent_hops ≡ r.metrics.agent_hops)
        ⊎ ((x.metrics.agent_hops ≡ r.metrics.agent_hops +ℤ pos 1)
            × (r.metrics.agent_hops <ℤ r.limits.max_agent_hops)))
    → (x.termination ≡ none → x.iteration <ℤ x.max_iterations)
    → WithinLimits x
unfolding ◌+ℤ◌
next-WithinLimits r x w t i m l h k =
    let left = w.iteration_left t in
    let hops : x.limits.max_agent_hops ≡ r.limits.max_agent_hops = ap (λ y. y.max_agent_hops) l in
    record {
      iteration_nonneg = rw i (ground (arith, w.iteration_nonneg));
      iteration_capped = rw (i, m) (ground (arith, w.iteration_nonneg, left));
      iteration_left = k;
      hops_nonneg = elim h [
        | inl e ↦ rw e w.hops_nonneg
        | inr (e, b) ↦ rw e (ground (arith, w.hops_nonneg))
      ];
      hops_capped = elim h [
        | inl e ↦ rw (e, hops) w.hops_capped
        | inr (e, b) ↦ rw (e, hops) (ground (arith, w.hops_nonneg, b))
      ];
      max_iterations_i32 = rw m w.max_iterations_i32;
      max_hops_i32 = rw hops w.max_hops_i32;
    }

module _ (response_value : InterruptResponse → Value) (now : Timestamp) (id : RunId)
    (metrics : AgentExecutionMetrics) (run : Run) (agent_failed break_loop : Bool)
    (o : Orchestrator) (session : Orchestration) (known : Dict.get o.sessions id ≡ some session)
    (open_run : run.termination ≡ none) (w : WithinLimits run) where
  abbrev after : Run
  after = (reported response_value now id metrics run agent_failed break_loop o).1

  -- A report on a run that is not terminated adds one to its iteration, on every branch.
  pub iteration-report : after.iteration ≡ run.iteration +ℤ pos 1
  iteration-report =
      go (report-cases response_value now id metrics run agent_failed break_loop o session known)
    where
      one : (book metrics run).iteration ≡ run.iteration +ℤ pos 1
      one = iteration-book metrics run open_run w

      go :
          Reported response_value now id metrics run agent_failed break_loop o session
          → after.iteration ≡ run.iteration +ℤ pos 1
      go (bounded reason b p q r) = ap (λ x. x.iteration) q ∙ one
      go (broken b k p q r) = ap (λ x. x.iteration) q ∙ one
      go (lost b k f p q r) = ap (λ x. x.iteration) q ∙ one
      go (routed stage decision b k f d p q r) =
          ap (λ x. x.iteration) q ∙ (advance_counters _ _ _).0 ∙ one

  pub max_iterations-report : after.max_iterations ≡ run.max_iterations
  unfolding book
  max_iterations-report =
      go (report-cases response_value now id metrics run agent_failed break_loop o session known)
    where
      go :
          Reported response_value now id metrics run agent_failed break_loop o session
          → after.max_iterations ≡ run.max_iterations
      go (bounded reason b p q r) = ap (λ x. x.max_iterations) q
      go (broken b k p q r) = ap (λ x. x.max_iterations) q
      go (lost b k f p q r) = ap (λ x. x.max_iterations) q
      go (routed stage decision b k f d p q r) =
          ap (λ x. x.max_iterations) q ∙ (advance_counters _ _ _).1

  -- A report on a run that is not terminated keeps it within its limits.
  pub report-WithinLimits : WithinLimits after
  unfolding book
  report-WithinLimits =
      go (report-cases response_value now id metrics run agent_failed break_loop o session known)
    where
      b₀ : Run
      b₀ = book metrics run

      closed :
          (x : Run)
          → after ≡ x
          → x.max_iterations ≡ run.max_iterations
          → x.limits ≡ run.limits
          → x.metrics.agent_hops ≡ run.metrics.agent_hops
          → (x.termination ≡ none → x.iteration <ℤ x.max_iterations)
          → WithinLimits after
      closed x e m l h k =
          next-WithinLimits run after w open_run iteration-report (ap (λ y. y.max_iterations) e ∙ m)
            (ap (λ y. y.limits) e ∙ l) (inl (ap (λ y. y.metrics.agent_hops) e ∙ h)) (rw e k)

      go :
          Reported response_value now id metrics run agent_failed break_loop o session
          → WithinLimits after
      go (bounded reason b p q r) = closed _ q refl refl refl (λ t. cc)
      go (broken b k p q r) = closed _ q refl refl refl (λ t. cc)
      go (lost b k f p q r) = closed _ q refl refl refl (λ t. (within_bounds b₀ b).0)
      go (routed stage decision b k f d p q r) =
          let counted = count_visit session b₀.current_stage decision in
          let c = advance_counters counted decision.target b₀ in
          let bounds = within_bounds b₀ b in
          next-WithinLimits run after w open_run iteration-report
            (ap (λ y. y.max_iterations) q ∙ c.1) (ap (λ y. y.limits) q ∙ c.2)
            (elim c.3 [
              | inl e ↦ inl (ap (λ y. y.metrics.agent_hops) q ∙ ap (λ y. y.agent_hops) e)
              | inr e ↦ inr (
                ap (λ y. y.metrics.agent_hops) q
                    ∙ e
                    ∙ add_i32-one run.metrics.agent_hops run.limits.max_agent_hops w.hops_nonneg
                        bounds.1 w.max_hops_i32,
                bounds.1,
              )
            ])
            (λ t. rw (ap (λ y. y.iteration) q ∙ c.0, ap (λ y. y.max_iterations) q ∙ c.1) bounds.0)
