-- ===== src/Tools/Health/Summaries.antt =====
-- What the reports say of the metrics (src/tools/health.rs).
use jeeves_core.Prelude.{
  ℕ, ◌+◌, ◌≡◌, refl, String, Bool, true, false, not, ◌&&◌, Option, none, some, unwrap_or,
  map_option, List, [], ◌∷◌, length, filter, arith, ◌==◌, eq_iff, ltb, leb, if◌then◌else◌,
  Bool-cases, inl, inr,
}
use jeeves_core.Prelude.Dict
use jeeves_core.Prelude.Dict.{Dict}
use jeeves_core.Types.{Timestamp}
use jeeves_core.Tools.Health.{
  HealthStatus, healthy, degraded, unhealthy, unknown, HealthConfig, ExecutionRecord, ToolMetrics,
  total_calls, ToolHealthTracker, should_circuit_break, recent_errors_in_window,
}
use jeeves_core.Tools.Health.Reports.{
  Floats, ToolHealthReport, report_of, check_tool_health, assess, unassessed, HealthSummary,
  add_status, summarize, check_system_health, no_reports, count_errors,
}

-- The metrics hold enough calls for an assessment.
abbrev pub assessed : HealthConfig → Option ToolMetrics → Bool
assessed c none = false
assessed c (some m) = not (ltb (total_calls m) c.min_calls_for_assessment)

-- The report of a tool says that its circuit is broken exactly when the circuit breaker refuses
-- the tool and the window holds enough calls for an assessment.
pub circuit_broken_exact :
    (f : Floats) (now : Timestamp) (tool : String) (t : ToolHealthTracker)
    → (check_tool_health f now tool t).circuit_broken
      ≡ (assessed t.config (Dict.get t.metrics tool) && should_circuit_break now tool t)
unfolding check_tool_health should_circuit_break
circuit_broken_exact f now tool t = found (Dict.get t.metrics tool)
  where
    enough :
        (m : ToolMetrics) (few : Bool)
        → (if few
            then unassessed f tool t.config m
            else assess f now tool t.config m).circuit_broken
          ≡ (not few
              && leb t.config.circuit_break_error_threshold
                  (recent_errors_in_window now t.config.circuit_break_window m))
    enough m true = refl
    enough m false = refl

    found :
        (o : Option ToolMetrics)
        → (report_of f now tool t.config o).circuit_broken ≡ (
            assessed t.config o
            && unwrap_or false (
                map_option
                  (λ m.
                    leb t.config.circuit_break_error_threshold
                      (recent_errors_in_window now t.config.circuit_break_window m))
                  o))
    found none = refl
    found (some m) = enough m (ltb (total_calls m) t.config.min_calls_for_assessment)

abbrev is_status : HealthStatus → HealthStatus → Bool
is_status healthy healthy = true
is_status degraded degraded = true
is_status unhealthy unhealthy = true
is_status unknown unknown = true
is_status _ _ = false

-- The number of reports with a status.
abbrev pub count_status : HealthStatus → List ToolHealthReport → ℕ
count_status s [] = 0
count_status s (r ∷ rs) = (if is_status s r.status then 1 else 0) + count_status s rs

abbrev has_status : HealthStatus → List ToolHealthReport → Bool
has_status s rs = ltb 0 (count_status s rs)

-- The counts of a summary after the reports.
abbrev Counted : List ToolHealthReport → HealthSummary → HealthSummary → Type 0
Counted rs s t =
    (t.healthy ≡ s.healthy + count_status healthy rs)
    × (t.degraded ≡ s.degraded + count_status degraded rs)
    × (t.unhealthy ≡ s.unhealthy + count_status unhealthy rs)
    × (t.unknown ≡ s.unknown + count_status unknown rs)

Counted-add_status :
    (r : ToolHealthReport) (rs : List ToolHealthReport) (s t : HealthSummary)
    → Counted rs (add_status r.status s) t
    → Counted (r ∷ rs) s t
Counted-add_status r rs s t h = by_status r.status h
  where
    by_status :
        (st : HealthStatus)
        → Counted rs (add_status st s) t
        → (t.healthy
            ≡ s.healthy + ((if is_status healthy st then 1 else 0) + count_status healthy rs))
          × (t.degraded
              ≡ s.degraded + ((if is_status degraded st then 1 else 0) + count_status degraded rs))
          × (t.unhealthy
              ≡ s.unhealthy
                + ((if is_status unhealthy st then 1 else 0) + count_status unhealthy rs))
          × (t.unknown
              ≡ s.unknown + ((if is_status unknown st then 1 else 0) + count_status unknown rs))
    by_status healthy h = (omega arith, omega arith, omega arith, omega arith)
    by_status degraded h = (omega arith, omega arith, omega arith, omega arith)
    by_status unhealthy h = (omega arith, omega arith, omega arith, omega arith)
    by_status unknown h = (omega arith, omega arith, omega arith, omega arith)

summarize-Counted : (rs : List ToolHealthReport) (s : HealthSummary) → Counted rs s (summarize rs s)
unfolding summarize
summarize-Counted [] s = (omega arith, omega arith, omega arith, omega arith)
summarize-Counted (r ∷ rs) s =
    Counted-add_status r rs s _ (summarize-Counted rs (add_status r.status s))

summarize-Counted_all :
    (rs : List ToolHealthReport)
    → ((summarize rs no_reports).healthy ≡ count_status healthy rs)
      × ((summarize rs no_reports).degraded ≡ count_status degraded rs)
      × ((summarize rs no_reports).unhealthy ≡ count_status unhealthy rs)
      × ((summarize rs no_reports).unknown ≡ count_status unknown rs)
summarize-Counted_all rs =
    let (h, d, u, n) = summarize-Counted rs no_reports in
    (omega (arith, h), omega (arith, d), omega (arith, u), omega (arith, n))

-- The worst status among the reports; unknown only where no tool is assessed.
abbrev pub worst : List ToolHealthReport → HealthStatus
worst rs =
    if ltb 0 (count_status unhealthy rs)
    then unhealthy
    else if ltb 0 (count_status degraded rs)
    then degraded
    else if ltb 0 (count_status healthy rs)
    then healthy
    else unknown

-- The status of the system is unhealthy if some tool's report is, else degraded if some is, else
-- healthy if some is, else unknown, and its summary counts the reports of each status.
pub check_system_health-worst :
    (f : Floats) (sort : List String → List String) (now : Timestamp) (t : ToolHealthTracker)
    → let report = check_system_health f sort now t in
      (report.status ≡ worst report.tool_reports)
      × (report.summary.healthy ≡ count_status healthy report.tool_reports)
      × (report.summary.degraded ≡ count_status degraded report.tool_reports)
      × (report.summary.unhealthy ≡ count_status unhealthy report.tool_reports)
      × (report.summary.unknown ≡ count_status unknown report.tool_reports)
unfolding check_system_health
check_system_health-worst f sort now t =
    let rs = (check_system_health f sort now t).tool_reports in
    let (h, d, u, n) = summarize-Counted_all rs in (rw (h, d, u) refl, h, d, u, n)

-- The failures of one kind.
abbrev pub failed_with : String → ExecutionRecord → Bool
failed_with kind r = not r.success && (unwrap_or "unknown" r.error_type == kind)

count_errors_from :
    (rs : List ExecutionRecord) (counts : Dict ℕ) (kind : String)
    → unwrap_or 0 (Dict.get (count_errors rs counts) kind)
      ≡ unwrap_or 0 (Dict.get counts kind) + length (filter (failed_with kind) rs)
unfolding count_errors filter
count_errors_from [] counts kind = omega arith
count_errors_from (r ∷ rs) counts kind =
    let key = unwrap_or "unknown" r.error_type in
    let n = unwrap_or 0 (Dict.get counts key) + 1 in
    elim (Bool-cases r.success) [
      | inl e ↦ ground (arith, e, count_errors_from rs counts kind)
      | inr e ↦ ground (
        arith,
        e,
        eq_iff key kind,
        Dict.get-insert counts key kind n,
        count_errors_from rs (Dict.insert counts key n) kind,
      )
    ]

-- The errors of a tool are counted by kind: the count under a kind is the number of failed
-- executions in the window that have that kind, where a failure without one has the kind
-- "unknown".
pub count_errors_exact :
    (rs : List ExecutionRecord) (kind : String)
    → unwrap_or 0 (Dict.get (count_errors rs []) kind) ≡ length (filter (failed_with kind) rs)
unfolding Dict.get
count_errors_exact rs kind = omega (arith, count_errors_from rs [] kind)
