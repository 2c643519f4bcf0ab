-- ===== src/Tools/Health.antt =====
-- Tool health: the sliding window of executions and the circuit breaker (src/tools/health.rs).
-- `now` is the clock as the call reads it. The thresholds on rates and latencies, which are
-- compared as `f64`, and the reports built from them are not modelled.
pub mod Window
pub mod Breaker
pub mod Reports
pub mod Summaries
use jeeves_core.Prelude.{
  ℕ, String, Bool, true, false, not, ◌&&◌, Option, none, some, unwrap_or, map_option, List, [], ◌∷◌,
  ◌++◌, length, filter, ◌==◌, leb, if◌then◌else◌,
}
use jeeves_core.Prelude.Int.{ℤ, pos, leb_ℤ, ◌-ℤ◌}
use jeeves_core.Prelude.Dict
use jeeves_core.Prelude.Dict.{Dict, keys}
use jeeves_core.Types.{Timestamp, F64}

pub data HealthStatus : Type 0 where
  healthy degraded unhealthy unknown : HealthStatus

pub record HealthConfig : Type 0 where
  pub success_rate_healthy : F64
  pub success_rate_degraded : F64
  pub latency_healthy_ms : ℕ
  pub latency_degraded_ms : ℕ
  pub min_calls_for_assessment : ℕ
  pub circuit_break_error_threshold : ℕ
  pub circuit_break_window : ℤ
  pub window_size : ℕ

pub record ExecutionRecord : Type 0 where
  pub success : Bool
  pub latency_ms : ℕ
  pub timestamp : Timestamp
  pub error_type : Option String

pub record ToolMetrics : Type 0 where
  pub records : List ExecutionRecord
  pub window_size : ℕ

abbrev pub new_metrics : ℕ → ToolMetrics
new_metrics window_size = record { records = []; window_size = window_size }

-- `VecDeque::pop_front`.
abbrev pub pop_front : List ExecutionRecord → List ExecutionRecord
pop_front [] = []
pop_front (r ∷ rs) = rs

unfoldable pub record_in : Timestamp → Bool → ℕ → Option String → ToolMetrics → ToolMetrics
record_in now success latency_ms error_type m =
    let kept = if leb m.window_size (length m.records) then pop_front m.records else m.records in
    let execution : ExecutionRecord = record {
      success = success;
      latency_ms = latency_ms;
      timestamp = now;
      error_type = error_type;
    } in
    record m { records = kept ++ execution ∷ [] }

abbrev pub total_calls : ToolMetrics → ℕ
total_calls m = length m.records

unfoldable pub success_count : ToolMetrics → ℕ
unfolding filter
success_count m = length (filter (λ r. r.success) m.records)

unfoldable pub error_count : ToolMetrics → ℕ
unfolding filter
error_count m = length (filter (λ r. not r.success) m.records)

unfoldable pub recent_errors_in_window : Timestamp → ℤ → ToolMetrics → ℕ
unfolding filter ◌-ℤ◌
recent_errors_in_window now window m =
    length (filter (λ r. not r.success && leb_ℤ (now -ℤ window) r.timestamp) m.records)

pub record ToolHealthTracker : Type 0 where
  pub config : HealthConfig
  pub metrics : Dict ToolMetrics
  pub registered_tools : List String

abbrev pub new : HealthConfig → ToolHealthTracker
new config = record { config = config; metrics = []; registered_tools = [] }

unfoldable pub record_execution :
    Timestamp → String → Bool → ℕ → Option String → ToolHealthTracker → ToolHealthTracker
unfolding record_in
record_execution now tool success latency_ms error_type t = record t {
  metrics = Dict.insert t.metrics tool (
      record_in now success latency_ms error_type
        (unwrap_or (new_metrics t.config.window_size) (Dict.get t.metrics tool)));
}

unfoldable pub should_circuit_break : Timestamp → String → ToolHealthTracker → Bool
should_circuit_break now tool t = unwrap_or false (
    map_option
      (λ m.
        leb t.config.circuit_break_error_threshold
          (recent_errors_in_window now t.config.circuit_break_window m))
      (Dict.get t.metrics tool))

unfoldable pub get_circuit_broken_tools : Timestamp → ToolHealthTracker → List String
get_circuit_broken_tools now t = filter (λ name. should_circuit_break now name t) (keys t.metrics)
