-- ===== src/Kernel/Actor/Keeps.antt =====
-- What the commands keep of the runs and the records (src/kernel/actor.rs).
use jeeves_core.Prelude.{
  String, ◌≡◌, refl, sym, ap, subst, ◌∙◌, Bool, true, not, Option, none, some, is_some, unwrap_or,
  inl, inr, [], arith, eq_iff, Bool-cases, Option-cases,
}
use jeeves_core.Prelude.Dict
use jeeves_core.Prelude.Dict.{Dict}
use jeeves_core.Json.{Value}
use jeeves_core.Types.{RunId, RequestId, UserId, SessionId, InterruptId, Timestamp, Result, ok, err}
use jeeves_core.Run.{Run, FlowInterrupt, InterruptResponse, add_processing_record}
use jeeves_core.Kernel.Protocol.{Instruction, AgentExecutionMetrics}
use jeeves_core.Kernel.Lifecycle
use jeeves_core.Kernel.Lifecycle.{RunRecord, new_record}
use jeeves_core.Kernel.Dispatch.{
  Kernel, put_run, enrich, deliver, get_next_instruction, finish_report, process_known,
  process_agent_result, record_tools,
}
use jeeves_core.Kernel.AgentOutput.{processing_record, take_output}
use jeeves_core.Kernel.Interrupts.{register_flow_interrupt, resolve}
use jeeves_core.Kernel.Orchestrator
use jeeves_core.Kernel.Orchestrator.{report_agent_result}
use jeeves_core.Kernel.Orchestrator.Queries.{get_state_schema, get_stage_output_key}
use jeeves_core.Kernel.Dispatch.Runs.{
  create_run, set_pending, set_run_interrupt, resolve_run_interrupt,
}
use jeeves_core.Kernel.Dispatch.Records.{charged}

abbrev pub holds : RunId → Kernel → Bool
holds id k = is_some (Dict.get k.runs id)

abbrev pub records : RunId → Kernel → Bool
records id k = is_some (Lifecycle.get id k.lifecycle)

-- No run is held that was not held before, and no record is lost.
pub record Keeps (k k' : Kernel) : Type 0 where
  pub held : (id : RunId) → holds id k' ≡ true → holds id k ≡ true
  pub kept : (id : RunId) → records id k ≡ true → records id k' ≡ true

pub Keeps-refl : (k : Kernel) → Keeps k k
Keeps-refl k = record { held = λ id h. h; kept = λ id h. h }

Keeps-trans : {k l m : Kernel} → Keeps k l → Keeps l m → Keeps k m
Keeps-trans p q = record {
  held = λ id h. p.held id (q.held id h);
  kept = λ id h. q.kept id (p.kept id h);
}

pub Keeps-same : (k k' : Kernel) → k'.runs ≡ k.runs → k'.lifecycle ≡ k.lifecycle → Keeps k k'
Keeps-same k k' r l = record {
  held = λ id h. subst (λ d. is_some (Dict.get d id) ≡ true) r h;
  kept = λ id h. subst (λ g. is_some (Lifecycle.get id g) ≡ true) (sym l) h;
}

Keeps-put_run :
    (id : RunId) (run : Run) (k : Kernel) → holds id k ≡ true → Keeps k (put_run id run k)
Keeps-put_run id run k h = record { held = λ j e. before j e; kept = λ j e. e }
  where
    before : (j : RunId) → holds j (put_run id run k) ≡ true → holds j k ≡ true
    before j e = ground (arith, h, e, Dict.get-insert k.runs id j run, eq_iff id j)

is_some-insert {ℓ} :
    {V : Type ℓ} (d : Dict V) (k j : String) (v : V)
    → is_some (Dict.get d j) ≡ true
    → is_some (Dict.get (Dict.insert d k v) j) ≡ true
is_some-insert d k j v h = ground (arith, h, Dict.get-insert d k j v)

Keeps-set_pending :
    (id : RunId) (p : Option InterruptId) (k : Kernel) → Keeps k (set_pending id p k)
Keeps-set_pending id p k = elim (Option-cases (Lifecycle.get id k.lifecycle)) [
  | inl e ↦ rw (set_pending, e) (Keeps-refl k)
  | inr (r, e) ↦
      rw (set_pending, e)
        (record { held = λ j h. h; kept = λ j h. is_some-insert k.lifecycle.records id j _ h })
]

finish_report-Keeps :
    (now : Timestamp) (id : RunId) (agent : String) (metrics : AgentExecutionMetrics)
    (success : Bool) (message : String) (run : Run) (k : Kernel) (r : Result (Unit {0}))
    → holds id k ≡ true
    → Keeps k (finish_report now id agent metrics success message run k r).1
unfolding finish_report
finish_report-Keeps now id agent metrics success message run k (err e) h = Keeps-put_run id run k h
finish_report-Keeps now id agent metrics success message run k (ok u) h =
    let done =
      add_processing_record (processing_record now agent metrics success message run) run in
    let c = charged id metrics (put_run id done k) in
    Keeps-trans (Keeps-put_run id done k h) (Keeps-same (put_run id done k) _ c.0 c.2)

process_known-Keeps :
    (value : InterruptResponse → Value) (now : Timestamp) (id : RunId) (run : Run) (agent : String)
    (output : Value) (updates : Option (Dict Value)) (metrics : AgentExecutionMetrics)
    (success : Bool) (message : String) (broke : Bool) (k : Kernel)
    → holds id k ≡ true
    → Keeps k
        (process_known value now id run agent output updates metrics success message broke k).1
unfolding process_known
process_known-Keeps value now id run agent output updates metrics success message broke k h =
    let schema = unwrap_or [] (get_state_schema id k.orchestrator) in
    let output_key = unwrap_or agent (get_stage_output_key id agent k.orchestrator) in
    let taken = take_output schema output_key agent output updates success message run in
    let reported =
      report_agent_result value now id metrics taken (not success) broke k.orchestrator in
    let k' : Kernel = record k { orchestrator = reported.2 } in
    Keeps-trans (Keeps-same k k' refl refl)
      (finish_report-Keeps now id agent metrics success message reported.1 k' reported.0 h)

pub process-Keeps :
    (value : InterruptResponse → Value) (now : Timestamp) (id : RunId) (agent : String)
    (output : Value) (updates : Option (Dict Value)) (metrics : AgentExecutionMetrics)
    (success : Bool) (message : String) (broke : Bool) (k : Kernel)
    → Keeps k
        (process_agent_result value now id agent output updates metrics success message broke k).1
unfolding process_agent_result
process-Keeps value now id agent output updates metrics success message broke k =
    let k' : Kernel = record k { health = record_tools now metrics.tool_results k.health } in
    let same : Keeps k k' = Keeps-same k k' refl refl in
    elim (Option-cases (Dict.get k.runs id)) [
      | inl e ↦ rw (process_agent_result, e) same
      | inr (run, e) ↦
          let held : holds id k' ≡ true = ap is_some e in
          rw (process_agent_result, e)
            (Keeps-trans same (
              process_known-Keeps value now id run agent output updates metrics success message
                broke k' held))
    ]

deliver-Keeps :
    (now : Timestamp) (id : RunId) (run : Run) (k : Kernel) (r : Result Instruction)
    → holds id k ≡ true
    → Keeps k (deliver now id run k r).1
unfolding deliver
deliver-Keeps now id run k (err e) h = Keeps-put_run id run k h
deliver-Keeps now id run k (ok i) h =
    let run' = (enrich now id run k i).1 in
    Keeps-trans (Keeps-put_run id run' k h) (Keeps-same (put_run id run' k) _ refl refl)

pub next-Keeps :
    (now : Timestamp) (id : RunId) (k : Kernel) → Keeps k (get_next_instruction now id k).1
unfolding get_next_instruction
next-Keeps now id k = elim (Option-cases (Dict.get k.runs id)) [
  | inl e ↦ rw (get_next_instruction, e) (Keeps-refl k)
  | inr (run, e) ↦
      let (r, run', o) = Orchestrator.get_next_instruction now id run k.orchestrator in
      let k' : Kernel = record k { orchestrator = o } in
      let held : holds id k' ≡ true = ap is_some e in
      rw (get_next_instruction, e)
        (Keeps-trans (Keeps-same k k' refl refl) (deliver-Keeps now id run' k' r held))
]

pub create-Keeps :
    (now : Timestamp) (id : RunId) (request : RequestId) (user : UserId) (session : SessionId)
    (k : Kernel)
    → Keeps k (create_run now id request user session none k).1
unfolding create_run Lifecycle.create
create-Keeps now id request user session k = elim (Option-cases (Dict.get k.lifecycle.records id)) [
  | inr (r, e) ↦ rw (create_run, Lifecycle.create, e) (Keeps-refl k)
  | inl e ↦
      rw (create_run, Lifecycle.create, e)
        (record { held = λ j h. h; kept = λ j h. is_some-insert k.lifecycle.records id j _ h })
]

runs-set_pending :
    (id : RunId) (p : Option InterruptId) (k : Kernel) → (set_pending id p k).runs ≡ k.runs
runs-set_pending id p k = elim (Option-cases (Lifecycle.get id k.lifecycle)) [
  | inl e ↦ rw (set_pending, e) refl
  | inr (r, e) ↦ rw (set_pending, e) refl
]

pub set-Keeps :
    (now : Timestamp) (id : RunId) (i : FlowInterrupt) (k : Kernel)
    → Keeps k (set_run_interrupt now id i k).1
unfolding set_run_interrupt
set-Keeps now id i k = elim (Option-cases (Dict.get k.runs id)) [
  | inl e ↦ rw (set_run_interrupt, e) (Keeps-set_pending id (some i.id) k)
  | inr (run, e) ↦
      let registered : Kernel = record k {
        interrupts =
            register_flow_interrupt now i run.identity.request_id run.identity.user_id
              run.identity.session_id run.identity.envelope_id k.interrupts;
      } in
      let pending = set_pending id (some i.id) registered in
      let held : holds id pending ≡ true =
        ap (λ d. is_some (Dict.get d id)) (runs-set_pending id (some i.id) registered)
        ∙ ap is_some e in
      rw (set_run_interrupt, e)
        (Keeps-trans (Keeps-same k registered refl refl) (
          Keeps-trans (Keeps-set_pending id (some i.id) registered)
            (Keeps-put_run id _ pending held)))
]

pub resolve-Keeps :
    (value : InterruptResponse → Value) (id : RunId) (interrupt : InterruptId)
    (response : InterruptResponse) (k : Kernel)
    → Keeps k (resolve_run_interrupt value id interrupt response k).1
unfolding resolve_run_interrupt
resolve-Keeps value id interrupt response k =
    let (known, s) = resolve interrupt response k.interrupts in
    let k' : Kernel = record k { interrupts = s } in
    let same : Keeps k k' = Keeps-same k k' refl refl in
    elim (Bool-cases known) [
      | inr q ↦ rw (resolve_run_interrupt, q) same
      | inl q ↦ elim (Option-cases (Dict.get k.runs id)) [
        | inl e ↦ rw (resolve_run_interrupt, q, e) (Keeps-trans same (Keeps-set_pending id none k'))
        | inr (run, e) ↦
            let held : holds id k' ≡ true = ap is_some e in
            rw (resolve_run_interrupt, q, e)
              (Keeps-trans same
                (Keeps-trans (Keeps-put_run id _ k' held) (Keeps-set_pending id none _)))
      ]
    ]
