-- ===== src/Kernel/Dispatch/Keys.antt =====
-- The keys of the maps that the orchestrator and the kernel keep (src/kernel/orchestrator.rs).
pub mod Methods
use jeeves_core.Prelude.{
  String, ◌≡◌, refl, sym, ap, ◌∙◌, Bool, true, not, Option, none, some, is_some, unwrap_or, inl,
  inr, [], arith, eq_iff, Bool-cases, Option-cases,
}
use jeeves_core.Prelude.Dict
use jeeves_core.Prelude.Dict.{Dict}
use jeeves_core.Json.{Value}
use jeeves_core.Types.{RunId, InterruptId, StageName, Timestamp, Result, ok, err}
use jeeves_core.Run.{Run, FlowInterrupt, InterruptResponse, check_bounds, add_processing_record}
use jeeves_core.Kernel.Protocol.{Instruction, AgentExecutionMetrics}
use jeeves_core.Kernel.Interrupts.{register_flow_interrupt, resolve}
use jeeves_core.Kernel.Orchestrator
use jeeves_core.Kernel.Orchestrator.{
  Orchestrator, book, find_stage, apply_routing_result, route_from, report_agent_result,
}
use jeeves_core.Kernel.Orchestrator.Queries.{
  get_state_schema, get_stage_output_key, take_last_routing_decision,
}

-- Two maps have the same keys.
pub record SameKeys {ℓ} {V : Type ℓ} (d e : Dict V) : Type ℓ where
  pub at : (id : String) → is_some (Dict.get e id) ≡ is_some (Dict.get d id)

pub SameKeys-equal {ℓ} : {V : Type ℓ} (d e : Dict V) → e ≡ d → SameKeys d e
SameKeys-equal d e h = record { at = λ id. ap (λ x. is_some (Dict.get x id)) h }

pub SameKeys-trans {ℓ} : {V : Type ℓ} {d e f : Dict V} → SameKeys d e → SameKeys e f → SameKeys d f
SameKeys-trans p q = record { at = λ id. q.at id ∙ p.at id }

-- A value is replaced.
pub SameKeys-insert {ℓ} :
    {V : Type ℓ} (d : Dict V) (k : String) (v : V)
    → is_some (Dict.get d k) ≡ true
    → SameKeys d (Dict.insert d k v)
SameKeys-insert d k v h = record {
  at = λ id. ground (arith, h, Dict.get-insert d k id v, eq_iff k id);
}

pub asked-keys :
    (now : Timestamp) (id : RunId) (run : Run) (o : Orchestrator)
    → SameKeys o.sessions (Orchestrator.get_next_instruction now id run o).2.sessions
unfolding Orchestrator.get_next_instruction
asked-keys now id run o = elim (Option-cases (Dict.get o.sessions id)) [
  | inl e ↦ rw (e, Orchestrator.get_next_instruction) (SameKeys-equal _ _ refl)
  | inr (s, e) ↦
      rw (e, Orchestrator.get_next_instruction) (SameKeys-insert o.sessions id _ (ap is_some e))
]

pub taken-keys :
    (id : RunId) (o : Orchestrator)
    → SameKeys o.sessions (take_last_routing_decision id o).1.sessions
unfolding take_last_routing_decision
taken-keys id o = elim (Option-cases (Dict.get o.sessions id)) [
  | inl e ↦ rw (e, take_last_routing_decision) (SameKeys-equal _ _ refl)
  | inr (s, e) ↦ rw (e, take_last_routing_decision) (SameKeys-insert o.sessions id _ (ap is_some e))
]

applied-keys :
    (now : Timestamp) (id : RunId) (target : Option StageName) (run : Run) (o : Orchestrator)
    → SameKeys o.sessions (apply_routing_result now id target run o).2.sessions
unfolding apply_routing_result
applied-keys now id target run o = elim (Option-cases (Dict.get o.sessions id)) [
  | inl e ↦ rw (e, apply_routing_result) (SameKeys-equal _ _ refl)
  | inr (s, e) ↦ rw (e, apply_routing_result) (SameKeys-insert o.sessions id _ (ap is_some e))
]

pub reported-keys :
    (value : InterruptResponse → Value) (now : Timestamp) (id : RunId)
    (metrics : AgentExecutionMetrics) (run : Run) (failed broke : Bool) (o : Orchestrator)
    → SameKeys o.sessions (report_agent_result value now id metrics run failed broke o).2.sessions
unfolding report_agent_result route_from
reported-keys value now id metrics run failed broke o =
    let booked = book metrics run in
    elim (Option-cases (Dict.get o.sessions id)) [
      | inl e ↦ rw (e, report_agent_result) (SameKeys-equal _ _ refl)
      | inr (session, e) ↦ elim (Option-cases (check_bounds booked)) [
        | inr (reason, b) ↦ rw (e, report_agent_result, b) (SameKeys-equal _ _ refl)
        | inl b ↦ elim (Bool-cases broke) [
          | inl q ↦
              rw (e, report_agent_result, b, q) (SameKeys-insert o.sessions id _ (ap is_some e))
          | inr q ↦ elim (Option-cases (find_stage session.workflow booked.current_stage)) [
            | inl f ↦ rw (e, report_agent_result, b, q, f) (SameKeys-equal _ _ refl)
            | inr (stage, f) ↦
                rw (e, report_agent_result, b, q, f)
                  (SameKeys-trans (SameKeys-insert o.sessions id _ (ap is_some e))
                    (applied-keys now id _ booked _))
          ]
        ]
      ]
    ]
