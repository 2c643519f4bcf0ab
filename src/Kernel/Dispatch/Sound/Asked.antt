-- ===== src/Kernel/Dispatch/Sound/Asked.antt =====
-- Giving an instruction keeps the runs that go on within their limits (src/kernel/dispatch.rs).
use jeeves_core.Prelude.{◌≡◌, refl, sym, ap, subst, ◌∙◌, false, none, inl, inr, ◌==◌, Option-cases}
use jeeves_core.Prelude.Dict
use jeeves_core.Prelude.Dict.{Dict}
use jeeves_core.Types.{RunId, Timestamp, Result, ok, err}
use jeeves_core.Run.{Run}
use jeeves_core.Kernel.Protocol.{
  Instruction, run_agent_with, terminate_with_context, wait_interrupt,
}
use jeeves_core.Kernel.Orchestrator
use jeeves_core.Kernel.Orchestrator.{
  Orchestration, Orchestrator, advance, book, report_agent_result,
}
use jeeves_core.Kernel.Orchestrator.Queries.{take_last_routing_decision}
use jeeves_core.Kernel.Orchestrator.Visits.{carry}
use jeeves_core.Kernel.Orchestrator.History.{IsSound, ask-IsSound, host-IsSound, instruct_keeps}
use jeeves_core.Kernel.Dispatch.{Kernel, put_run, enrich, deliver, get_next_instruction}
use jeeves_core.Kernel.Dispatch.Results.{other_kept}
use jeeves_core.Kernel.Dispatch.Sound.{AllSound, AllSound-at, stored}

-- An instruction of the orchestrator touches the session of its run and no other.
pub asked-other :
    (now : Timestamp) (id other : RunId) (run : Run) (o : Orchestrator)
    → (id == other) ≡ false
    → Dict.get (Orchestrator.get_next_instruction now id run o).2.sessions other
      ≡ Dict.get o.sessions other
unfolding Orchestrator.get_next_instruction
asked-other now id other run o q = elim (Option-cases (Dict.get o.sessions id)) [
  | inl e ↦ rw (e, Orchestrator.get_next_instruction) refl
  | inr (s, e) ↦ rw (e, Orchestrator.get_next_instruction) (other_kept o.sessions id other _ q)
]

pub taken-other :
    (id other : RunId) (o : Orchestrator)
    → (id == other) ≡ false
    → Dict.get (take_last_routing_decision id o).1.sessions other ≡ Dict.get o.sessions other
unfolding take_last_routing_decision
taken-other id other o q = elim (Option-cases (Dict.get o.sessions id)) [
  | inl e ↦ rw (e, take_last_routing_decision) refl
  | inr (s, e) ↦ rw (e, take_last_routing_decision) (other_kept o.sessions id other _ q)
]

-- A run that goes on behind an instruction went on before it.
asked-open :
    (now : Timestamp) (id : RunId) (run : Run) (o : Orchestrator)
    → (Orchestrator.get_next_instruction now id run o).1.termination ≡ none
    → run.termination ≡ none
unfolding Orchestrator.get_next_instruction
asked-open now id run o h = elim (Option-cases (Dict.get o.sessions id)) [
  | inl e ↦ rw (e, Orchestrator.get_next_instruction) at h
  | inr (s, e) ↦
      (instruct_keeps s.workflow now run).5 (rw (e, Orchestrator.get_next_instruction) at h)
]

taken-IsSound :
    (id : RunId) (run : Run) (o : Orchestrator)
    → IsSound id run o
    → IsSound id run (take_last_routing_decision id o).1
unfolding take_last_routing_decision
taken-IsSound id run o s =
    let session' = record s.session { last_routing_decision = none } in
    rw (s.known, take_last_routing_decision)
      (record {
        session = session';
        known = Dict.get-insert_self o.sessions id session';
        valid = s.valid;
        fits = s.fits;
        limits = s.limits;
        visited = carry s.session session' run run s.visited refl refl refl (λ t. t);
      })

-- What the enrichment writes into the run.
enriched_fields :
    (now : Timestamp) (id : RunId) (run : Run) (k : Kernel) (i : Instruction)
    → (enrich now id run k i).1 ≡ record run { audit = (enrich now id run k i).1.audit }
unfolding enrich
enriched_fields now id run k (run_agent_with agent context) = refl
enriched_fields now id run k (terminate_with_context reason message context) = refl
enriched_fields now id run k (wait_interrupt i) = refl

deliver-AllSound :
    (now : Timestamp) (id : RunId) (run : Run) (k k₀ : Kernel) (r : Result Instruction)
    → ((other : RunId)
        → (id == other) ≡ false
        → (Dict.get k.runs other ≡ Dict.get k₀.runs other)
          × (Dict.get k.orchestrator.sessions other ≡ Dict.get k₀.orchestrator.sessions other))
    → (run.termination ≡ none → IsSound id run k.orchestrator)
    → AllSound k₀
    → AllSound (deliver now id run k r).1
unfolding deliver
deliver-AllSound now id run k k₀ (err e) apart s =
    AllSound-at id k₀ (put_run id run k)
      (λ other q. (other_kept k.runs id other run q ∙ (apart other q).0, (apart other q).1))
      (stored id run (put_run id run k) (Dict.get-insert_self k.runs id run) s)
deliver-AllSound now id run k k₀ (ok i) apart s =
    let x = (enrich now id run k i).1 in
    let o = (take_last_routing_decision id k.orchestrator).1 in
    let k' : Kernel = record (put_run id x k) { orchestrator = o } in
    let f = enriched_fields now id run k i in
    AllSound-at id k₀ k'
      (λ other q. (
        other_kept k.runs id other x q ∙ (apart other q).0,
        taken-other id other k.orchestrator q ∙ (apart other q).1,
      ))
      (stored id x k' (Dict.get-insert_self k.runs id x) (λ t.
        let open_run = ap (λ y. y.termination) (sym f) ∙ t in
        let h = taken-IsSound id run k.orchestrator (s open_run) in
        subst (λ y. IsSound id y o) (sym f)
          (host-IsSound id run o run.outputs run.state run.interrupts x.audit h)))

pub next-AllSound :
    (now : Timestamp) (id : RunId) (k : Kernel)
    → AllSound k
    → AllSound (get_next_instruction now id k).1
unfolding get_next_instruction
next-AllSound now id k h = elim (Option-cases (Dict.get k.runs id)) [
  | inl e ↦ rw (get_next_instruction, e) h
  | inr (run, e) ↦
      let (r, run', o) = Orchestrator.get_next_instruction now id run k.orchestrator in
      rw (get_next_instruction, e)
        (deliver-AllSound now id run' (record k { orchestrator = o }) k r
          (λ other q. (refl, asked-other now id other run k.orchestrator q))
          (λ t.
            ask-IsSound now id run k.orchestrator
              (h.apply id run e (asked-open now id run k.orchestrator t)))
          h)
]
