-- ===== src/Kernel/Orchestrator/Queries.antt =====
-- Read-only questions to the orchestrator (src/kernel/orchestrator_queries.rs).
use jeeves_core.Prelude.{
  ℕ, String, Option, none, some, unwrap_or, map_option, and_then, List, [], ◌∷◌, length,
}
use jeeves_core.Prelude.Dict
use jeeves_core.Json.{Value}
use jeeves_core.Types.{RunId, text, not_found, Result, ok, err}
use jeeves_core.Workflow.{Stage, StateField}
use jeeves_core.Run.{Run}
use jeeves_core.Kernel.Routing.{RoutingDecision}
use jeeves_core.Kernel.Protocol.{RunSnapshot}
use jeeves_core.Kernel.Orchestrator.{Orchestration, Orchestrator, put_session, find_stage}
use jeeves_core.Kernel.Orchestrator.Session.{build_session_state}

abbrev pub get_session : RunId → Orchestrator → Option Orchestration
get_session id o = Dict.get o.sessions id

unfoldable pub get_session_state : (Run → Value) → RunId → Run → Orchestrator → Result RunSnapshot
get_session_state run_value id run o = elim (Dict.get o.sessions id) [
  | none ↦ err (not_found (text "Unknown run: " ∷ text id ∷ []))
  | some session ↦ ok (build_session_state run_value session run)
]

unfoldable pub get_stage_config : RunId → String → Orchestrator → Option Stage
get_stage_config id name o = and_then (Dict.get o.sessions id) (λ s. find_stage s.workflow name)

unfoldable pub get_stage_response_format : RunId → String → Orchestrator → Option Value
unfolding get_stage_config
get_stage_response_format id name o = and_then (get_stage_config id name o) (λ s. s.response_format)

unfoldable pub get_state_schema : RunId → Orchestrator → Option (List StateField)
get_state_schema id o = map_option (λ s. s.workflow.state_schema) (Dict.get o.sessions id)

unfoldable pub get_stage_output_key : RunId → String → Orchestrator → Option String
unfolding get_stage_config
get_stage_output_key id name o =
    map_option (λ s. unwrap_or s.name s.output_key) (get_stage_config id name o)

abbrev pub get_session_count : Orchestrator → ℕ
get_session_count o = length o.sessions

-- `session.last_routing_decision.take()`.
unfoldable pub take_last_routing_decision :
    RunId → Orchestrator → Option RoutingDecision × Orchestrator
take_last_routing_decision id o = elim (Dict.get o.sessions id) [
  | none ↦ (none, o)
  | some session ↦ (
    session.last_routing_decision,
    put_session id (record session { last_routing_decision = none }) o,
  )
]
