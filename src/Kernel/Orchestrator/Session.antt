-- ===== src/Kernel/Orchestrator/Session.antt =====
-- Sessions of the orchestrator (src/kernel/orchestrator_session.rs). `run_value` is
-- `serde_json::to_value` on a run.
use jeeves_core.Prelude.{Bool, not, ◌&&◌, none, List, [], ◌∷◌, if◌then◌else◌}
use jeeves_core.Prelude.Int.{ℤ, pos, ltb_ℤ, ◌-ℤ◌, ◌*ℤ◌}
use jeeves_core.Prelude.Dict
use jeeves_core.Prelude.Dict.{Dict}
use jeeves_core.Json.{Value}
use jeeves_core.Types.{RunId, StageName, is_empty, Timestamp, text, validation, Result, ok, err}
use jeeves_core.Workflow
use jeeves_core.Workflow.{Workflow, get_stage_order}
use jeeves_core.Run.{Run, is_terminated, terminal_reason}
use jeeves_core.Kernel.Protocol.{RunSnapshot}
use jeeves_core.Kernel.Orchestrator.{Orchestration, Orchestrator, put_session}

-- `if current_stage.is_empty() && !stage_order.is_empty() { stage_order[0] }`.
abbrev first_stage : StageName → List StageName → StageName
first_stage current [] = current
first_stage current (first ∷ rest) = if is_empty current then first else current

-- The run with the workflow's bounds.
unfoldable pub bind_workflow : Workflow → Run → Run
unfolding get_stage_order
bind_workflow w run = record run {
  max_iterations = w.max_iterations;
  limits = record { max_llm_calls = w.max_llm_calls; max_agent_hops = w.max_agent_hops };
  stage_order = get_stage_order w;
  current_stage = first_stage run.current_stage (get_stage_order w);
}

abbrev pub new_session : Timestamp → RunId → Workflow → Orchestration
new_session now id w = record {
  run_id = id;
  workflow = w;
  stage_visits = [];
  created_at = now;
  last_activity_at = now;
  last_routing_decision = none;
}

module _ (run_value : Run → Value) where
  unfoldable pub build_session_state : Orchestration → Run → RunSnapshot
  build_session_state session run = record {
    run_id = session.run_id;
    current_stage = run.current_stage;
    stage_order = run.stage_order;
    run = run_value run;
    terminated = is_terminated run;
    terminal_reason = terminal_reason run;
  }

  unfoldable pub initialize_session :
      Timestamp
      → RunId
      → Workflow
      → Run
      → Bool
      → Orchestrator
      → Result RunSnapshot × Run × Orchestrator
  initialize_session now id w run force o =
      if Dict.contains_key o.sessions id && not force
      then (
        err (
            validation (
              text "Session already exists for run: "
              ∷ text id
              ∷ text " (use force=true to replace)"
              ∷ [])),
        run,
        o,
      )
      else elim (Workflow.validate w) [
        | err e ↦ (err e, run, o)
        | ok _ ↦
            let run' = bind_workflow w run in
            let session = new_session now id w in
            (ok (build_session_state session run'), run', put_session id session o)
      ]

abbrev pub has_session : RunId → Orchestrator → Bool
has_session id o = Dict.contains_key o.sessions id

unfoldable pub cleanup_session : RunId → Orchestrator → Bool × Orchestrator
cleanup_session id o =
    (Dict.contains_key o.sessions id, record o { sessions = Dict.remove o.sessions id })

-- The first loop of `cleanup_stale_sessions`: the sessions not active since the cutoff.
unfoldable pub stale : Timestamp → Dict Orchestration → List RunId
stale cutoff [] = []
stale cutoff ((id, session) ∷ d) =
    let rest = stale cutoff d in if ltb_ℤ session.last_activity_at cutoff then id ∷ rest else rest

-- The second loop, `for run_id in &to_remove { sessions.remove(run_id) }`.
unfoldable pub remove_all {ℓ} : {V : Type ℓ} → List RunId → Dict V → Dict V
remove_all [] d = d
remove_all (id ∷ ids) d = remove_all ids (Dict.remove d id)

-- `TimeDelta::seconds` is the seconds in nanoseconds.
unfoldable pub cleanup_stale_sessions : Timestamp → ℤ → Orchestrator → List RunId × Orchestrator
unfolding stale remove_all ◌-ℤ◌ ◌*ℤ◌
cleanup_stale_sessions now max_age_seconds o =
    let to_remove = stale (now -ℤ max_age_seconds *ℤ pos 1_000_000_000) o.sessions in
    (to_remove, record o { sessions = remove_all to_remove o.sessions })
