-- ===== src/Kernel/Dispatch/Keys/Methods.antt =====
-- The methods of the kernel that neither add nor remove a run or a session (src/kernel/dispatch.rs).
use jeeves_core.Prelude.{
  String, ◌≡◌, refl, ap, ◌∙◌, Bool, true, not, Option, none, some, is_some, unwrap_or, inl, inr, [],
  Bool-cases, Option-cases,
}
use jeeves_core.Prelude.Dict
use jeeves_core.Prelude.Dict.{Dict}
use jeeves_core.Json.{Value}
use jeeves_core.Types.{RunId, InterruptId, Timestamp, Result, ok, err}
use jeeves_core.Run.{Run, FlowInterrupt, InterruptResponse, add_processing_record}
use jeeves_core.Kernel.Protocol.{Instruction, AgentExecutionMetrics}
use jeeves_core.Kernel.Interrupts.{register_flow_interrupt, resolve}
use jeeves_core.Kernel.Orchestrator
use jeeves_core.Kernel.Orchestrator.{
  Orchestrator, book, find_stage, apply_routing_result, route_from, report_agent_result,
}
use jeeves_core.Kernel.Orchestrator.Queries.{get_state_schema, get_stage_output_key}
use jeeves_core.Kernel.AgentOutput.{processing_record, take_output}
use jeeves_core.Kernel.Dispatch.{
  Kernel, put_run, record_tools, deliver, get_next_instruction, finish_report, process_known,
  process_agent_result,
}
use jeeves_core.Kernel.Dispatch.Runs.{set_pending, set_run_interrupt, resolve_run_interrupt}
use jeeves_core.Kernel.Dispatch.Records.{charged}
use jeeves_core.Kernel.Dispatch.Sound.{set_pending_fields}
use jeeves_core.Kernel.Dispatch.Keys.{
  SameKeys, SameKeys-equal, SameKeys-trans, SameKeys-insert, asked-keys, taken-keys, reported-keys,
}

-- A method that neither adds nor removes a run or a session.
pub record Replaces (k k' : Kernel) : Type 0 where
  pub runs : SameKeys k.runs k'.runs
  pub sessions : SameKeys k.orchestrator.sessions k'.orchestrator.sessions

pub Replaces-equal :
    (k k' : Kernel)
    → k'.runs ≡ k.runs
    → k'.orchestrator.sessions ≡ k.orchestrator.sessions
    → Replaces k k'
Replaces-equal k k' r o = record {
  runs = SameKeys-equal k.runs k'.runs r;
  sessions = SameKeys-equal k.orchestrator.sessions k'.orchestrator.sessions o;
}

pub Replaces-trans : {k l m : Kernel} → Replaces k l → Replaces l m → Replaces k m
Replaces-trans p q = record {
  runs = SameKeys-trans p.runs q.runs;
  sessions = SameKeys-trans p.sessions q.sessions;
}

put_run-Replaces :
    (id : RunId) (run : Run) (k : Kernel)
    → is_some (Dict.get k.runs id) ≡ true
    → Replaces k (put_run id run k)
put_run-Replaces id run k h = record {
  runs = SameKeys-insert k.runs id run h;
  sessions = SameKeys-equal _ _ refl;
}

set_pending-Replaces :
    (id : RunId) (p : Option InterruptId) (k : Kernel) → Replaces k (set_pending id p k)
set_pending-Replaces id p k =
    let f = set_pending_fields id p k in Replaces-equal k _ f.0 (ap (λ o. o.sessions) f.1)

deliver-Replaces :
    (now : Timestamp) (id : RunId) (run : Run) (k : Kernel) (r : Result Instruction)
    → is_some (Dict.get k.runs id) ≡ true
    → Replaces k (deliver now id run k r).1
unfolding deliver
deliver-Replaces now id run k (err e) h = put_run-Replaces id run k h
deliver-Replaces now id run k (ok i) h = record {
  runs = SameKeys-insert k.runs id _ h;
  sessions = taken-keys id k.orchestrator;
}

pub next-Replaces :
    (now : Timestamp) (id : RunId) (k : Kernel) → Replaces k (get_next_instruction now id k).1
unfolding get_next_instruction
next-Replaces now id k = elim (Option-cases (Dict.get k.runs id)) [
  | inl e ↦ rw (get_next_instruction, e) (Replaces-equal k k refl refl)
  | inr (run, e) ↦
      let (r, run', o) = Orchestrator.get_next_instruction now id run k.orchestrator in
      let k' : Kernel = record k { orchestrator = o } in
      let asked : Replaces k k' = record {
        runs = SameKeys-equal k.runs k.runs refl;
        sessions = asked-keys now id run k.orchestrator;
      } in
      rw (get_next_instruction, e)
        (Replaces-trans asked (deliver-Replaces now id run' k' r (ap is_some e)))
]

pub set-Replaces :
    (now : Timestamp) (id : RunId) (i : FlowInterrupt) (k : Kernel)
    → Replaces k (set_run_interrupt now id i k).1
unfolding set_run_interrupt
set-Replaces now id i k = elim (Option-cases (Dict.get k.runs id)) [
  | inl e ↦ rw (set_run_interrupt, e) (set_pending-Replaces id (some i.id) k)
  | inr (run, e) ↦
      let registered : Kernel = record k {
        interrupts =
            register_flow_interrupt now i run.identity.request_id run.identity.user_id
              run.identity.session_id run.identity.envelope_id k.interrupts;
      } in
      let pending = set_pending-Replaces id (some i.id) registered in
      rw (set_run_interrupt, e)
        (Replaces-trans (Replaces-equal k registered refl refl)
          (Replaces-trans pending (put_run-Replaces id _ _ (pending.runs.at id ∙ ap is_some e))))
]

pub resolve-Replaces :
    (value : InterruptResponse → Value) (id : RunId) (interrupt : InterruptId)
    (response : InterruptResponse) (k : Kernel)
    → Replaces k (resolve_run_interrupt value id interrupt response k).1
unfolding resolve_run_interrupt
resolve-Replaces value id interrupt response k =
    let (known, s) = resolve interrupt response k.interrupts in
    let k' : Kernel = record k { interrupts = s } in
    let resolved = Replaces-equal k k' refl refl in
    elim (Bool-cases known) [
      | inr q ↦ rw (resolve_run_interrupt, q) resolved
      | inl q ↦ elim (Option-cases (Dict.get k.runs id)) [
        | inl e ↦
            rw (resolve_run_interrupt, q, e)
              (Replaces-trans resolved (set_pending-Replaces id none k'))
        | inr (run, e) ↦
            rw (resolve_run_interrupt, q, e)
              (Replaces-trans resolved (
                Replaces-trans (put_run-Replaces id _ k' (ap is_some e))
                  (set_pending-Replaces id none _)))
      ]
    ]

finish_report-Replaces :
    (now : Timestamp) (id : RunId) (agent : String) (metrics : AgentExecutionMetrics)
    (success : Bool) (message : String) (run : Run) (k : Kernel) (r : Result (Unit {0}))
    → is_some (Dict.get k.runs id) ≡ true
    → Replaces k (finish_report now id agent metrics success message run k r).1
unfolding finish_report
finish_report-Replaces now id agent metrics success message run k (err e) h =
    put_run-Replaces id run k h
finish_report-Replaces now id agent metrics success message run k (ok u) h =
    let done =
      add_processing_record (processing_record now agent metrics success message run) run in
    let c = charged id metrics (put_run id done k) in
    Replaces-trans (put_run-Replaces id done k h)
      (Replaces-equal (put_run id done k) _ c.0 (ap (λ o. o.sessions) c.1))

process_known-Replaces :
    (value : InterruptResponse → Value) (now : Timestamp) (id : RunId) (run : Run) (agent : String)
    (output : Value) (updates : Option (Dict Value)) (metrics : AgentExecutionMetrics)
    (success : Bool) (message : String) (broke : Bool) (k : Kernel)
    → is_some (Dict.get k.runs id) ≡ true
    → Replaces k
        (process_known value now id run agent output updates metrics success message broke k).1
unfolding process_known
process_known-Replaces value now id run agent output updates metrics success message broke k h =
    let schema = unwrap_or [] (get_state_schema id k.orchestrator) in
    let output_key = unwrap_or agent (get_stage_output_key id agent k.orchestrator) in
    let taken = take_output schema output_key agent output updates success message run in
    let reported =
      report_agent_result value now id metrics taken (not success) broke k.orchestrator in
    let k' : Kernel = record k { orchestrator = reported.2 } in
    let booked : Replaces k k' = record {
      runs = SameKeys-equal k.runs k.runs refl;
      sessions = reported-keys value now id metrics taken (not success) broke k.orchestrator;
    } in
    Replaces-trans booked
      (finish_report-Replaces now id agent metrics success message reported.1 k' reported.0 h)

pub process-Replaces :
    (value : InterruptResponse → Value) (now : Timestamp) (id : RunId) (agent : String)
    (output : Value) (updates : Option (Dict Value)) (metrics : AgentExecutionMetrics)
    (success : Bool) (message : String) (broke : Bool) (k : Kernel)
    → Replaces k
        (process_agent_result value now id agent output updates metrics success message broke k).1
unfolding process_agent_result
process-Replaces value now id agent output updates metrics success message broke k =
    let k' : Kernel = record k { health = record_tools now metrics.tool_results k.health } in
    let recorded = Replaces-equal k k' refl refl in
    elim (Option-cases (Dict.get k.runs id)) [
      | inl e ↦ rw (process_agent_result, e) recorded
      | inr (run, e) ↦
          rw (process_agent_result, e)
            (Replaces-trans recorded (
              process_known-Replaces value now id run agent output updates metrics success message
                broke k' (ap is_some e)))
    ]
