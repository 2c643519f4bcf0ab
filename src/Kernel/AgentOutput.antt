-- ===== src/Kernel/AgentOutput.antt =====
-- What an agent's result writes into its run (src/kernel/dispatch.rs, `process_agent_result`).
use jeeves_core.Prelude.{
  ℕ, suc, String, Bool, false, Option, none, some, unwrap_or, List, [], ◌∷◌, find, ◌==◌,
  if◌then◌else◌,
}
use jeeves_core.Prelude.Int.{ℤ, pos, ◌-ℤ◌, ◌*ℤ◌, to_i32}
use jeeves_core.Prelude.Dict
use jeeves_core.Prelude.Dict.{Dict}
use jeeves_core.Json.{Value, boolean, string, object, end, field, from_dict}
use jeeves_core.Types.{Timestamp, is_empty, StageName}
use jeeves_core.Workflow.{StateField}
use jeeves_core.Run.{Run, ProcessingRecord, ProcessingStatus, insert_all}
use jeeves_core.Kernel.MergeState.{merge_state_field}
use jeeves_core.Kernel.Protocol.{AgentExecutionMetrics}

unfoldable pub object_entries : Value → Dict Value
object_entries (object fs) = insert_all [] fs
object_entries _ = []

-- The output of an agent: the entries of an object, with the marks of a failure.
unfoldable pub agent_output : Value → Bool → String → Dict Value
unfolding object_entries
agent_output output success error_message =
    let entries = object_entries output in
    if success
    then entries
    else let failed = Dict.insert entries "success" (boolean false) in
      if is_empty error_message then failed else Dict.insert failed "error" (string error_message)

unfoldable pub note_failure : String → Bool → String → Run → Run
note_failure agent success error_message run = if success then run else record run {
  audit = record run.audit {
    metadata =
        Dict.insert run.audit.metadata "last_agent_failure"
          (object (field "agent_name" (string agent) (field "error" (string error_message) end)));
  };
}

-- The loop over the state schema: the first field of that key is merged into the state.
unfoldable pub merge_output : List StateField → String → Dict Value → Dict Value → Dict Value
merge_output schema output_key output state = elim (find (λ f. f.key == output_key) schema) [
  | some f ↦ merge_state_field state f.key (object (from_dict output)) f.merge
  | none ↦ state
]

unfoldable pub update_metadata : Option (Dict Value) → Run → Run
update_metadata none run = run
update_metadata (some updates) run = record run {
  audit = record run.audit { metadata = Dict.extend run.audit.metadata updates };
}

-- What `process_agent_result` writes into the run before it reports.
unfoldable pub take_output :
    List StateField → String → String → Value → Option (Dict Value) → Bool → String → Run → Run
unfolding agent_output note_failure merge_output update_metadata
take_output schema output_key agent output updates success error_message run =
    let entries = agent_output output success error_message in
    let noted = note_failure agent success error_message run in
    update_metadata updates (record noted {
      outputs = Dict.insert noted.outputs agent entries;
      state = merge_output schema output_key entries noted.state;
    })

-- `position(..).map(|p| (p + 1) as i32).unwrap_or(0)`. The lists are shorter than 2^31.
stage_position : List StageName → StageName → ℕ → ℤ
stage_position [] s n = pos 0
stage_position (x ∷ xs) s n =
    let rest = stage_position xs s (suc n) in if x == s then pos (suc n) else rest

unfoldable pub processing_record :
    Timestamp → String → AgentExecutionMetrics → Bool → String → Run → ProcessingRecord
unfolding stage_position ◌-ℤ◌ ◌*ℤ◌ to_i32
processing_record now agent metrics success error_message run = record {
  agent = agent;
  stage_order = stage_position run.stage_order run.current_stage 0;
  started_at = now -ℤ metrics.duration_ms *ℤ pos 1_000_000;
  completed_at = some now;
  duration_ms = to_i32 metrics.duration_ms;
  status = if success then ProcessingStatus.success else ProcessingStatus.error;
  error_text = if is_empty error_message then none else some error_message;
  llm_calls = metrics.llm_calls;
  tool_calls = metrics.tool_calls;
  tokens_in = unwrap_or (pos 0) metrics.tokens_in;
  tokens_out = unwrap_or (pos 0) metrics.tokens_out;
}
