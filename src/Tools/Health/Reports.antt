-- ===== src/Tools/Health/Reports.antt =====
-- The reports built from the metrics (src/tools/health.rs). The arithmetic of `f64` and the
-- rendering of numbers are an argument (`Floats`), and so is the order in which `sort` puts names
-- and error patterns.
use jeeves_core.Prelude.{
  ℕ, zero, suc, ◌+◌, String, Bool, false, Option, none, some, unwrap_or, map_option, List, [], ◌∷◌,
  ◌++◌, map, ltb, leb, if◌then◌else◌,
}
use jeeves_core.Prelude.Int.{pos}
use jeeves_core.Prelude.Dict
use jeeves_core.Prelude.Dict.{Dict, keys}
use jeeves_core.Types.{Timestamp, F64, Message, Piece, plain}
use jeeves_core.Workflow.{contains}
use jeeves_core.Tools.Health.{
  HealthStatus, healthy, degraded, unhealthy, unknown, HealthConfig, ExecutionRecord, ToolMetrics,
  total_calls, success_count, error_count, recent_errors_in_window, ToolHealthTracker,
}

-- What the reports use of `f64`: zero, `a as f64 / b as f64`, `a as f64`, `>=`, and the texts of
-- a percentage and of a rounded number. `as_secs` stands with the rendering.
pub record Floats : Type 0 where
  pub zero_f64 : F64
  pub ratio : ℕ → ℕ → F64
  pub of_nat : ℕ → F64
  pub at_least : F64 → F64 → Bool
  pub below : F64 → F64 → Bool
  pub percent : F64 → String
  pub rounded : F64 → String
  pub seconds : HealthConfig → String

-- A quotient, and zero where there was no call.
abbrev ratio_or_zero : Floats → ℕ → ℕ → F64
ratio_or_zero f part zero = f.zero_f64
ratio_or_zero f part (suc n) = f.ratio part (suc n)

unfoldable pub success_rate : Floats → ToolMetrics → F64
unfolding success_count
success_rate f m = ratio_or_zero f (success_count m) (total_calls m)

-- The sum of the latencies, unbounded where the source adds in `u64`.
abbrev total_latency : List ExecutionRecord → ℕ
total_latency [] = 0
total_latency (r ∷ rs) = r.latency_ms + total_latency rs

unfoldable pub avg_latency_ms : Floats → ToolMetrics → F64
avg_latency_ms f m = ratio_or_zero f (total_latency m.records) (total_calls m)

pub record ToolHealthReport : Type 0 where
  pub tool_name : String
  pub status : HealthStatus
  pub success_rate : F64
  pub avg_latency_ms : F64
  pub total_calls : ℕ
  pub recent_errors : ℕ
  pub issues : List Message
  pub circuit_broken : Bool

abbrev rank : HealthStatus → ℕ
rank healthy = 0
rank degraded = 1
rank unhealthy = 2
rank unknown = 3

unfoldable pub worse_status : HealthStatus → HealthStatus → HealthStatus
worse_status a b = if leb (rank b) (rank a) then a else b

unfoldable pub rate_status : Floats → HealthConfig → F64 → HealthStatus
rate_status f c rate =
    if f.at_least rate c.success_rate_healthy
    then healthy
    else if f.at_least rate c.success_rate_degraded
    then degraded
    else unhealthy

unfoldable pub latency_status : Floats → HealthConfig → F64 → HealthStatus
latency_status f c latency =
    if f.at_least (f.of_nat c.latency_healthy_ms) latency
    then healthy
    else if f.at_least (f.of_nat c.latency_degraded_ms) latency
    then degraded
    else unhealthy

-- `if test { issues.push(issue) }`.
abbrev push_if : Bool → Message → List Message → List Message
push_if test issue issues = if test then issues ++ issue ∷ [] else issues

unfoldable pub issues_of : Floats → HealthConfig → F64 → F64 → ℕ → Bool → List Message
issues_of f c rate latency recent_errors circuit_broken =
    push_if circuit_broken
      (Piece.text "Circuit breaker open: "
        ∷ Piece.int (pos recent_errors)
        ∷ Piece.text " errors in last "
        ∷ Piece.text (f.seconds c)
        ∷ plain "s")
      (push_if (f.below (f.of_nat c.latency_healthy_ms) latency)
        (Piece.text "Avg latency "
          ∷ Piece.text (f.rounded latency)
          ∷ Piece.text "ms exceeds "
          ∷ Piece.int (pos c.latency_healthy_ms)
          ∷ plain "ms threshold")
        (push_if (f.below rate c.success_rate_healthy)
          (Piece.text "Success rate "
            ∷ Piece.text (f.percent rate)
            ∷ Piece.text "% below "
            ∷ Piece.text (f.percent c.success_rate_healthy)
            ∷ plain "% threshold")
          []))

-- The report of a tool with enough calls.
unfoldable pub assess : Floats → Timestamp → String → HealthConfig → ToolMetrics → ToolHealthReport
unfolding recent_errors_in_window success_rate avg_latency_ms worse_status rate_status
    latency_status issues_of
assess f now tool c m =
    let rate = success_rate f m in
    let latency = avg_latency_ms f m in
    let recent_errors = recent_errors_in_window now c.circuit_break_window m in
    let circuit_broken = leb c.circuit_break_error_threshold recent_errors in
    record {
      tool_name = tool;
      status = worse_status (rate_status f c rate) (latency_status f c latency);
      success_rate = rate;
      avg_latency_ms = latency;
      total_calls = total_calls m;
      recent_errors = recent_errors;
      issues = issues_of f c rate latency recent_errors circuit_broken;
      circuit_broken = circuit_broken;
    }

-- The report of a tool with fewer calls than an assessment needs.
unfoldable pub unassessed : Floats → String → HealthConfig → ToolMetrics → ToolHealthReport
unfolding success_rate avg_latency_ms error_count
unassessed f tool c m = record {
  tool_name = tool;
  status = unknown;
  success_rate = success_rate f m;
  avg_latency_ms = avg_latency_ms f m;
  total_calls = total_calls m;
  recent_errors = error_count m;
  issues =
      (Piece.text "Insufficient data ("
        ∷ Piece.int (pos (total_calls m))
        ∷ Piece.text "/"
        ∷ Piece.int (pos c.min_calls_for_assessment)
        ∷ plain ")")
      ∷ [];
  circuit_broken = false;
}

-- The report, given the metrics that are found.
unfoldable pub report_of :
    Floats → Timestamp → String → HealthConfig → Option ToolMetrics → ToolHealthReport
unfolding assess unassessed
report_of f now tool c none = record {
  tool_name = tool;
  status = unknown;
  success_rate = f.zero_f64;
  avg_latency_ms = f.zero_f64;
  total_calls = 0;
  recent_errors = 0;
  issues = plain "No execution history" ∷ [];
  circuit_broken = false;
}
report_of f now tool c (some m) =
    if ltb (total_calls m) c.min_calls_for_assessment
    then unassessed f tool c m
    else assess f now tool c m

unfoldable pub check_tool_health :
    Floats → Timestamp → String → ToolHealthTracker → ToolHealthReport
unfolding report_of
check_tool_health f now tool t = report_of f now tool t.config (Dict.get t.metrics tool)

pub record HealthSummary : Type 0 where
  pub healthy : ℕ
  pub degraded : ℕ
  pub unhealthy : ℕ
  pub unknown : ℕ

pub record SystemHealthReport : Type 0 where
  pub status : HealthStatus
  pub tool_reports : List ToolHealthReport
  pub summary : HealthSummary

-- The loop over the names with metrics.
unfoldable pub merge_names : List String → List String → List String
unfolding contains
merge_names all [] = all
merge_names all (name ∷ names) =
    merge_names (if contains all name then all else all ++ name ∷ []) names

abbrev pub no_reports : HealthSummary
no_reports = record { healthy = 0; degraded = 0; unhealthy = 0; unknown = 0 }

-- The body of the loop over the reports.
abbrev pub add_status : HealthStatus → HealthSummary → HealthSummary
add_status healthy s = record s { healthy = s.healthy + 1 }
add_status degraded s = record s { degraded = s.degraded + 1 }
add_status unhealthy s = record s { unhealthy = s.unhealthy + 1 }
add_status unknown s = record s { unknown = s.unknown + 1 }

unfoldable pub summarize : List ToolHealthReport → HealthSummary → HealthSummary
summarize [] s = s
summarize (r ∷ rs) s = summarize rs (add_status r.status s)

abbrev pub overall_status : HealthSummary → HealthStatus
overall_status s =
    if ltb 0 s.unhealthy
    then unhealthy
    else if ltb 0 s.degraded
    then degraded
    else if ltb 0 s.healthy
    then healthy
    else unknown

unfoldable pub check_system_health :
    Floats → (List String → List String) → Timestamp → ToolHealthTracker → SystemHealthReport
unfolding check_tool_health summarize merge_names
check_system_health f sort now t =
    let all_tools = sort (merge_names t.registered_tools (keys t.metrics)) in
    let tool_reports = map (λ name. check_tool_health f now name t) all_tools in
    let summary = summarize tool_reports no_reports in
    record { status = overall_status summary; tool_reports = tool_reports; summary = summary }

-- The loop of `error_patterns`: `*counts.entry(error_type).or_default() += 1`.
unfoldable pub count_errors : List ExecutionRecord → Dict ℕ → Dict ℕ
count_errors [] counts = counts
count_errors (r ∷ rs) counts =
    let key = unwrap_or "unknown" r.error_type in
    count_errors rs
      (if r.success then counts else Dict.insert counts key (unwrap_or 0 (Dict.get counts key) + 1))

-- `sort` is `sort_by_key` on the counts, descending, and the names.
unfoldable pub error_patterns : (Dict ℕ → Dict ℕ) → ToolMetrics → Dict ℕ
unfolding count_errors
error_patterns sort m = sort (count_errors m.records [])

unfoldable pub get_error_patterns : (Dict ℕ → Dict ℕ) → String → ToolHealthTracker → Dict ℕ
unfolding error_patterns
get_error_patterns sort tool t =
    unwrap_or [] (map_option (error_patterns sort) (Dict.get t.metrics tool))
