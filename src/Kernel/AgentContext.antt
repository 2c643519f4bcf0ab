-- ===== src/Kernel/AgentContext.antt =====
-- The JSON contexts that the kernel puts into an instruction (src/kernel/dispatch.rs).
use Prim.Native.String.{◌++◌}
use jeeves_core.Prelude.{suc, ◌/◌, String, List, [], ◌∷◌}
use jeeves_core.Prelude.Int.{ℤ, pos, negsuc, ◌-ℤ◌}
use jeeves_core.Prelude.Dict.{Dict}
use jeeves_core.Json.{
  Value, Values, integer, string, array, object, nil, cons, Fields, end, field, insert_field,
  from_dict,
}
use jeeves_core.Types.{Timestamp}
use jeeves_core.Run.{Run}

-- `Duration::num_milliseconds` of nanoseconds, towards zero.
unfoldable pub num_milliseconds : ℤ → ℤ
unfolding ◌-ℤ◌
num_milliseconds (pos n) = pos (n / 1_000_000)
num_milliseconds (negsuc n) = pos 0 -ℤ pos (suc n / 1_000_000)

string_values : List String → Values
string_values [] = nil
string_values (s ∷ ss) = cons (string s) (string_values ss)

unfoldable pub outputs_fields : Dict (Dict Value) → Fields
unfolding from_dict
outputs_fields [] = end
outputs_fields ((agent, output) ∷ rest) =
    field agent (object (from_dict output)) (outputs_fields rest)

-- The two loops that fill `template_vars`.
output_vars : String → Dict Value → Fields → Fields
output_vars agent [] vars = vars
output_vars agent ((key, value) ∷ output) vars =
    output_vars agent output (insert_field vars (agent ++ ("_" ++ key)) value)

outputs_vars : Dict (Dict Value) → Fields → Fields
unfolding output_vars
outputs_vars [] vars = vars
outputs_vars ((agent, output) ∷ rest) vars = outputs_vars rest (output_vars agent output vars)

metadata_vars : Dict Value → Fields → Fields
metadata_vars [] vars = vars
metadata_vars ((key, value) ∷ rest) vars = metadata_vars rest (insert_field vars key value)

unfoldable pub agent_context : List String → Run → Value
unfolding string_values outputs_fields outputs_vars metadata_vars from_dict
agent_context broken run = object (
    field "envelope_id" (string run.identity.envelope_id) (
      field "request_id" (string run.identity.request_id) (
        field "user_id" (string run.identity.user_id) (
          field "session_id" (string run.identity.session_id) (
            field "raw_input" (string run.raw_input) (
              field "outputs" (object (outputs_fields run.outputs)) (
                field "state" (object (from_dict run.state)) (
                  field "metadata" (object (from_dict run.audit.metadata)) (
                    field "template_vars"
                      (object (metadata_vars run.audit.metadata (outputs_vars run.outputs end)))
                      (field "llm_call_count" (integer run.metrics.llm_calls) (
                        field "agent_hop_count" (integer run.metrics.agent_hops) (
                          field "tokens_in" (integer run.metrics.tokens_in) (
                            field "tokens_out" (integer run.metrics.tokens_out) (
                              field "circuit_broken_tools" (array (string_values broken))
                                end))))))))))))))

unfoldable pub final_context : Timestamp → Run → Value
unfolding string_values outputs_fields num_milliseconds ◌-ℤ◌
final_context now run = object (
    field "outputs" (object (outputs_fields run.outputs)) (
      field "aggregate_metrics"
        (object (
          field "total_duration_ms" (integer (num_milliseconds (now -ℤ run.audit.created_at))) (
            field "total_llm_calls" (integer run.metrics.llm_calls) (
              field "total_tool_calls" (integer run.metrics.tool_calls) (
                field "total_tokens_in" (integer run.metrics.tokens_in) (
                  field "total_tokens_out" (integer run.metrics.tokens_out)
                    (field "stages_executed" (array (string_values run.stage_order)) end)))))))
        end))
