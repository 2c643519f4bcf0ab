-- ===== src/Kernel/Dispatch/Apart.antt =====
-- The methods of the kernel for one run, and what they leave alone (src/kernel/dispatch.rs).
use jeeves_core.Prelude.{
  ◌≡◌, refl, ap, ◌∙◌, Bool, false, Option, none, some, inl, inr, ◌==◌, Bool-cases, Option-cases,
}
use jeeves_core.Prelude.Dict
use jeeves_core.Json.{Value}
use jeeves_core.Types.{
  RunId, RequestId, UserId, SessionId, InterruptId, Timestamp, Result, ok, err, Result-cases,
}
use jeeves_core.Workflow.{Workflow}
use jeeves_core.Run.{Run, FlowInterrupt, InterruptResponse}
use jeeves_core.Kernel.Protocol.{Instruction}
use jeeves_core.Kernel.Interrupts.{register_flow_interrupt, resolve}
use jeeves_core.Kernel.Lifecycle
use jeeves_core.Kernel.Lifecycle.{new_record}
use jeeves_core.Kernel.Orchestrator
use jeeves_core.Kernel.Orchestrator.{Orchestrator}
use jeeves_core.Kernel.Orchestrator.Session.{initialize_session}
use jeeves_core.Kernel.Dispatch.{Kernel, put_run, deliver, get_next_instruction}
use jeeves_core.Kernel.Dispatch.Runs.{
  initialize_orchestration, create_run, terminate_run, set_pending, set_run_interrupt,
  resolve_run_interrupt,
}
use jeeves_core.Kernel.Dispatch.Records.{terminate_run_removes}
use jeeves_core.Kernel.Dispatch.Results.{other_kept}
use jeeves_core.Kernel.Dispatch.Sound.Asked.{asked-other, taken-other}
use jeeves_core.Kernel.Dispatch.Sound.Taken.{init-other}

-- What the kernel holds of a run is the same: its state, its session and its record.
pub record Untouched (id : RunId) (k k' : Kernel) : Type 0 where
  pub same_state : Dict.get k'.runs id ≡ Dict.get k.runs id
  pub same_session : Dict.get k'.orchestrator.sessions id ≡ Dict.get k.orchestrator.sessions id
  pub same_record : Lifecycle.get id k'.lifecycle ≡ Lifecycle.get id k.lifecycle

pub Untouched-same :
    {id : RunId} (k k' : Kernel)
    → k'.runs ≡ k.runs
    → k'.orchestrator ≡ k.orchestrator
    → k'.lifecycle ≡ k.lifecycle
    → Untouched id k k'
Untouched-same {id} k k' r o l = record {
  same_state = ap (λ d. Dict.get d id) r;
  same_session = ap (λ (x : Orchestrator). Dict.get x.sessions id) o;
  same_record = ap (Lifecycle.get id) l;
}

pub untouched : (id : RunId) (k : Kernel) → Untouched id k k
untouched id k = record { same_state = refl; same_session = refl; same_record = refl }

pub Untouched-trans :
    {id : RunId} {k l m : Kernel} → Untouched id k l → Untouched id l m → Untouched id k m
Untouched-trans p q = record {
  same_state = q.same_state ∙ p.same_state;
  same_session = q.same_session ∙ p.same_session;
  same_record = q.same_record ∙ p.same_record;
}

module _ (j id : RunId) (apart : (j == id) ≡ false) where
  put_run-Untouched : (run : Run) (k : Kernel) → Untouched id k (put_run j run k)
  put_run-Untouched run k = record {
    same_state = other_kept k.runs j id run apart;
    same_session = refl;
    same_record = refl;
  }

  set_pending-Untouched : (p : Option InterruptId) (k : Kernel) → Untouched id k (set_pending j p k)
  set_pending-Untouched p k = elim (Option-cases (Lifecycle.get j k.lifecycle)) [
    | inl e ↦ rw (set_pending, e) (untouched id k)
    | inr (r, e) ↦
        rw (set_pending, e)
          (record {
            same_state = refl;
            same_session = refl;
            same_record = other_kept k.lifecycle.records j id _ apart;
          })
  ]

  pub create-Untouched :
      (now : Timestamp) (request : RequestId) (user : UserId) (session : SessionId) (k : Kernel)
      → Untouched id k (create_run now j request user session none k).1
  unfolding create_run Lifecycle.create
  create-Untouched now request user session k =
      elim (Option-cases (Dict.get k.lifecycle.records j)) [
        | inr (r, e) ↦ rw (create_run, Lifecycle.create, e) (untouched id k)
        | inl e ↦
            rw (create_run, Lifecycle.create, e)
              (record {
                same_state = refl;
                same_session = refl;
                same_record = other_kept k.lifecycle.records j id _ apart;
              })
      ]

  pub initialize-Untouched :
      (value : Run → Value) (now : Timestamp) (w : Workflow) (run : Run) (force : Bool) (k : Kernel)
      → Untouched id k (initialize_orchestration value now j w run force k).1
  unfolding initialize_orchestration
  initialize-Untouched value now w run force k =
      let i = initialize_session value now j w run force k.orchestrator in
      let k' : Kernel = record k { orchestrator = i.2 } in
      let started : Untouched id k k' = record {
        same_state = refl;
        same_session = init-other value now j id w run force k.orchestrator apart;
        same_record = refl;
      } in
      elim (Result-cases i.0) [
        | inr (x, e) ↦ rw (initialize_orchestration, e) started
        | inl (s, e) ↦
            rw (initialize_orchestration, e) (Untouched-trans started (put_run-Untouched i.1 k'))
      ]

  pub terminate-Untouched :
      (now : Timestamp) (k : Kernel) → Untouched id k (terminate_run now j k).1
  terminate-Untouched now k =
      let (_, l, r, s) = terminate_run_removes now j id k in
      record {
        same_state = rw apart at r;
        same_session = rw apart at s;
        same_record = rw apart at l;
      }

  deliver-Untouched :
      (now : Timestamp) (run : Run) (k : Kernel) (r : Result Instruction)
      → Untouched id k (deliver now j run k r).1
  unfolding deliver
  deliver-Untouched now run k (err e) = put_run-Untouched run k
  deliver-Untouched now run k (ok i) = record {
    same_state = other_kept k.runs j id _ apart;
    same_session = taken-other j id k.orchestrator apart;
    same_record = refl;
  }

  pub next-Untouched :
      (now : Timestamp) (k : Kernel) → Untouched id k (get_next_instruction now j k).1
  unfolding get_next_instruction
  next-Untouched now k = elim (Option-cases (Dict.get k.runs j)) [
    | inl e ↦ rw (get_next_instruction, e) (untouched id k)
    | inr (run, e) ↦
        let (r, run', o) = Orchestrator.get_next_instruction now j run k.orchestrator in
        let k' : Kernel = record k { orchestrator = o } in
        let answered : Untouched id k k' = record {
          same_state = refl;
          same_session = asked-other now j id run k.orchestrator apart;
          same_record = refl;
        } in
        rw (get_next_instruction, e) (Untouched-trans answered (deliver-Untouched now run' k' r))
  ]

  pub set-Untouched :
      (now : Timestamp) (i : FlowInterrupt) (k : Kernel)
      → Untouched id k (set_run_interrupt now j i k).1
  unfolding set_run_interrupt
  set-Untouched now i k = elim (Option-cases (Dict.get k.runs j)) [
    | inl e ↦ rw (set_run_interrupt, e) (set_pending-Untouched (some i.id) k)
    | inr (run, e) ↦
        let registered : Kernel = record k {
          interrupts =
              register_flow_interrupt now i run.identity.request_id run.identity.user_id
                run.identity.session_id run.identity.envelope_id k.interrupts;
        } in
        let known = Untouched-same k registered refl refl refl in
        rw (set_run_interrupt, e)
          (Untouched-trans known (
            Untouched-trans (set_pending-Untouched (some i.id) registered) (put_run-Untouched _ _)))
  ]

  pub resolve-Untouched :
      (value : InterruptResponse → Value) (interrupt : InterruptId) (response : InterruptResponse)
      (k : Kernel)
      → Untouched id k (resolve_run_interrupt value j interrupt response k).1
  unfolding resolve_run_interrupt
  resolve-Untouched value interrupt response k =
      let (known, s) = resolve interrupt response k.interrupts in
      let k' : Kernel = record k { interrupts = s } in
      let resolved = Untouched-same k k' refl refl refl in
      elim (Bool-cases known) [
        | inr q ↦ rw (resolve_run_interrupt, q) resolved
        | inl q ↦ elim (Option-cases (Dict.get k.runs j)) [
          | inl e ↦
              rw (resolve_run_interrupt, q, e)
                (Untouched-trans resolved (set_pending-Untouched none k'))
          | inr (run, e) ↦
              rw (resolve_run_interrupt, q, e)
                (Untouched-trans resolved
                  (Untouched-trans (put_run-Untouched _ k') (set_pending-Untouched none _)))
        ]
      ]
