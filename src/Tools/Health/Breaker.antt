-- ===== src/Tools/Health/Breaker.antt =====
-- When a tool's circuit is open, after any executions of any tools (src/tools/health.rs).
use jeeves_core.Prelude.{
  ℕ, suc, ◌-◌, ◌≤◌, ◌≡◌, refl, ap, ◌∙◌, String, Bool, true, false, not, ◌&&◌, Option, none, some,
  unwrap_or, map_option, List, [], ◌∷◌, ◌++◌, length, length-append, filter, All, arith, ◌==◌,
  eq_iff, leb, if◌then◌else◌, Bool-cases, inl, inr,
}
use jeeves_core.Prelude.Int.{ℤ, leb_ℤ, ◌-ℤ◌}
use jeeves_core.Prelude.Dict
use jeeves_core.Types.{Timestamp}
use jeeves_core.Tools.Health.{
  HealthConfig, ExecutionRecord, ToolMetrics, new_metrics, record_in, recent_errors_in_window,
  ToolHealthTracker, new, record_execution, should_circuit_break,
}
use jeeves_core.Tools.Health.Window.{drop-append, last, capacity, record_all, window_exact}

-- An execution of a tool, and the executions of several tools in their order.
abbrev pub Trace : Type 0
Trace = List (String × ExecutionRecord)

unfoldable pub record_trace : Trace → ToolHealthTracker → ToolHealthTracker
record_trace [] t = t
record_trace ((tool, e) ∷ trace) t =
    record_trace trace (record_execution e.timestamp tool e.success e.latency_ms e.error_type t)

-- The executions of one tool.
unfoldable pub only : String → Trace → List ExecutionRecord
only tool [] = []
only tool ((name, e) ∷ trace) =
    let rest = only tool trace in if name == tool then e ∷ rest else rest

-- A failure that still counts.
abbrev pub counts_at : Timestamp → ℤ → ExecutionRecord → Bool
counts_at now span r = not r.success && leb_ℤ (now -ℤ span) r.timestamp

-- The metrics of a tool after executions of its own.
abbrev after : ℕ → List ExecutionRecord → Option ToolMetrics → Option ToolMetrics
after w [] o = o
after w (e ∷ es) o = some (record_all (e ∷ es) (unwrap_or (new_metrics w) o))

get-record_execution :
    (now : Timestamp) (tool name : String) (ok : Bool) (ms : ℕ) (kind : Option String)
    (t : ToolHealthTracker)
    → Dict.get (record_execution now tool ok ms kind t).metrics name ≡ (
        if tool == name
        then some (
            record_in now ok ms kind
              (unwrap_or (new_metrics t.config.window_size) (Dict.get t.metrics tool)))
        else Dict.get t.metrics name)
unfolding record_execution
get-record_execution now tool name ok ms kind t = Dict.get-insert t.metrics tool name _

after-step :
    (w : ℕ) (e : ExecutionRecord) (es : List ExecutionRecord) (o : Option ToolMetrics)
    → after w es (
        some
          (record_in e.timestamp e.success e.latency_ms e.error_type (unwrap_or (new_metrics w) o)))
      ≡ after w (e ∷ es) o
unfolding record_all
after-step w e [] o = refl
after-step w e (f ∷ es) o = refl

-- The executions of other tools do not matter.
get-record_trace :
    (trace : Trace) (t : ToolHealthTracker) (tool : String)
    → Dict.get (record_trace trace t).metrics tool
      ≡ after t.config.window_size (only tool trace) (Dict.get t.metrics tool)
unfolding record_trace only record_execution
get-record_trace [] t tool = refl
get-record_trace ((name, e) ∷ trace) t tool =
    let w = t.config.window_size in
    let next = record_execution e.timestamp name e.success e.latency_ms e.error_type t in
    let written =
      get-record_execution e.timestamp name tool e.success e.latency_ms e.error_type t in
    let rest = get-record_trace trace next tool in
    elim (Bool-cases (name == tool)) [
      | inr q ↦
          let kept : Dict.get next.metrics tool ≡ Dict.get t.metrics tool =
            ground (arith, q, written) in
          rw q (rest ∙ ap (after w (only tool trace)) kept)
      | inl q ↦
          let added : Dict.get next.metrics tool
              ≡ some (
                  record_in e.timestamp e.success e.latency_ms e.error_type
                    (unwrap_or (new_metrics w) (Dict.get t.metrics tool))) =
            ground (arith, q, written, eq_iff name tool) in
          rw q (
            rest
            ∙ ap (after w (only tool trace)) added
            ∙ after-step w e (only tool trace) (Dict.get t.metrics tool))
    ]

config-record_trace :
    (trace : Trace) (t : ToolHealthTracker) → (record_trace trace t).config ≡ t.config
unfolding record_trace record_execution
config-record_trace [] t = refl
config-record_trace (e ∷ trace) t = config-record_trace trace _

-- The failures that count among the executions that the window keeps.
abbrev pub recent_failures : Timestamp → HealthConfig → List ExecutionRecord → ℕ
recent_failures now c es =
    length (filter (counts_at now c.circuit_break_window) (last (capacity c.window_size) es))

-- Some execution has been recorded and the failures that count reach the threshold.
abbrev pub breaks : Timestamp → HealthConfig → List ExecutionRecord → Bool
breaks now c [] = false
breaks now c (e ∷ es) = leb c.circuit_break_error_threshold (recent_failures now c (e ∷ es))

-- After any executions of any tools, the circuit of a tool is open exactly when the tool has been
-- executed and, among its own latest executions, as many as the window holds, the failures not
-- older than the time window reach the threshold.
pub should_circuit_break_exact :
    (now : Timestamp) (tool : String) (trace : Trace) (c : HealthConfig)
    → should_circuit_break now tool (record_trace trace (new c)) ≡ breaks now c (only tool trace)
unfolding should_circuit_break recent_errors_in_window Dict.get
should_circuit_break_exact now tool trace c =
    rw (get-record_trace trace (new c) tool, config-record_trace trace (new c))
      (cases (only tool trace))
  where
    cases :
        (es : List ExecutionRecord)
        → unwrap_or false (
            map_option
              (λ (m : ToolMetrics).
                leb c.circuit_break_error_threshold
                  (recent_errors_in_window now c.circuit_break_window m))
              (after c.window_size es none))
          ≡ breaks now c es
    cases [] = refl
    cases (e ∷ es) =
        ap
          (λ rs.
            leb c.circuit_break_error_threshold
              (length (filter (counts_at now c.circuit_break_window) rs)))
          (window_exact c.window_size (e ∷ es))

length-filter_append {ℓ} :
    {A : Type ℓ} (p : A → Bool) (xs ys : List A)
    → length (filter p ys) ≤ length (filter p (xs ++ ys))
unfolding filter
length-filter_append p [] ys = omega arith
length-filter_append p (x ∷ xs) ys = ground (arith, length-filter_append p xs ys)

length-filter-All {ℓ} :
    {A : Type ℓ} (p : A → Bool) (xs : List A)
    → All (λ x. p x ≡ true) xs
    → length (filter p xs) ≡ length xs
unfolding filter
length-filter-All p [] h = refl
length-filter-All p (x ∷ xs) h = rw h.0 (ap suc (length-filter-All p xs h.1))

-- Failures at the end of what the window can hold count in full.
recent_failures-suffix :
    (now : Timestamp) (c : HealthConfig) (before es : List ExecutionRecord)
    → length es ≤ capacity c.window_size
    → All (λ r. counts_at now c.circuit_break_window r ≡ true) es
    → length es ≤ recent_failures now c (before ++ es)
recent_failures-suffix now c before es fits h =
    let n = length-append before es in
    let short : length (before ++ es) - capacity c.window_size ≤ length before = omega arith in
    let kept = drop-append (length (before ++ es) - capacity c.window_size) before es short in
    rw kept (
      rw (← length-filter-All (counts_at now c.circuit_break_window) es h)
        (length-filter_append (counts_at now c.circuit_break_window) _ es))

-- When the latest executions of a tool all failed within the time window, there are as many as
-- the threshold asks for and at least one, and the window can hold them, the tool's circuit is
-- open, whatever else was executed before or in between.
pub should_circuit_break-after_failures :
    (now : Timestamp) (tool : String) (trace : Trace) (c : HealthConfig)
    (before : List ExecutionRecord) (e : ExecutionRecord) (es : List ExecutionRecord)
    → only tool trace ≡ before ++ e ∷ es
    → All (λ r. counts_at now c.circuit_break_window r ≡ true) (e ∷ es)
    → c.circuit_break_error_threshold ≤ length (e ∷ es)
    → length (e ∷ es) ≤ capacity c.window_size
    → should_circuit_break now tool (record_trace trace (new c)) ≡ true
should_circuit_break-after_failures now tool trace c before e es o h reached fits =
    should_circuit_break_exact now tool trace c ∙ rw o (open_circuit before enough)
  where
    enough : c.circuit_break_error_threshold ≤ recent_failures now c (before ++ e ∷ es)
    enough = omega (arith, recent_failures-suffix now c before (e ∷ es) fits h)

    open_circuit :
        (before : List ExecutionRecord)
        → c.circuit_break_error_threshold ≤ recent_failures now c (before ++ e ∷ es)
        → breaks now c (before ++ e ∷ es) ≡ true
    open_circuit [] m = ground arith
    open_circuit (b ∷ bs) m = ground arith
