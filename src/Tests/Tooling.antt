-- ===== src/Tests/Tooling.antt =====
-- A catalog with one tool, a registry with every gate, and the health of two tools.
use jeeves_core.Prelude.{◌≡◌, ◌↔◌, refl, subst, none, some, [], ◌∷◌, true, false}
use jeeves_core.Prelude.Int.{pos}
use jeeves_core.Prelude.Dict
use jeeves_core.Json.{Value, null, integer, object, end, field, get_field}
use jeeves_core.Types.{Timestamp, ok}
use jeeves_core.Tools.Access
use jeeves_core.Tools.Access.{ToolAccessPolicy, grant}
use jeeves_core.Tools.Catalog.{
  ParamType, ParamDef, ToolEntry, ToolCatalog, RiskSemantic, RiskSeverity, ToolCategory, valid,
  validate, validate_params, fill_defaults, get,
}
use jeeves_core.Tools.Catalog.Typing.{HasType, validate-HasType}
use jeeves_core.Tools.Catalog.Calls.{Accepts, validate_params_iff}
use jeeves_core.Tools.Catalog.Defaults.{DefaultsFit, fill_defaults-Accepts}
use jeeves_core.Tools.Executor
use jeeves_core.Tools.Executor.{ToolInfo, ToolExecutor, no_confirmation}
use jeeves_core.Tools.Registry.{ToolRegistry, admit}
use jeeves_core.Tools.Registry.Gates.{Admitted, admit_iff}
use jeeves_core.Tools.Registry.Ledger.{
  Invocation, AllAgree, execute_all, tracking, enter_all, execute_all_refines,
}
use jeeves_core.Tools.Health
use jeeves_core.Tools.Health.{
  HealthConfig, ExecutionRecord, ToolHealthTracker, record_execution, should_circuit_break,
}
use jeeves_core.Tools.Health.Breaker.{Trace, record_trace, only, breaks, should_circuit_break_exact}
use jeeves_core.Tools.Health.Reports.{Floats, check_system_health}
use jeeves_core.Tools.Health.Summaries.{worst, count_status, check_system_health-worst}

abbrev mode_type : ParamType
mode_type = ParamType.optional (ParamType.enum ("fast" ∷ "deep" ∷ []))

abbrev query_def : ParamDef
query_def = record {
  name = "query";
  param_type = ParamType.string;
  description = "";
  default = none;
}

abbrev limit_def : ParamDef
limit_def = record {
  name = "limit";
  param_type = ParamType.int;
  description = "";
  default = some (integer (pos 10));
}

abbrev mode_def : ParamDef
mode_def = record { name = "mode"; param_type = mode_type; description = ""; default = none }

abbrev search_entry : ToolEntry
search_entry = record {
  id = "search";
  description = "Search the web";
  parameters = query_def ∷ limit_def ∷ mode_def ∷ [];
  category = ToolCategory.read;
  risk_semantic = RiskSemantic.read_only;
  risk_severity = RiskSeverity.low;
}

abbrev tool_catalog : ToolCatalog
tool_catalog = record { entries = ("search", search_entry) ∷ [] }

abbrev search_call : Value
search_call = object (field "query" (Value.string "antt") (field "mode" null end))

validate-HasType_example :
    (validate mode_type (Value.string "deep") ≡ valid) ↔ HasType mode_type (Value.string "deep")
validate-HasType_example = validate-HasType mode_type (Value.string "deep")

validate_params_iff_example :
    (validate_params "search" search_call tool_catalog ≡ ok [])
    ↔ Accepts tool_catalog "search" search_call
validate_params_iff_example = validate_params_iff tool_catalog "search" search_call

search_defaults : DefaultsFit search_entry.parameters search_entry.parameters
search_defaults = (
  λ v h. cc,
  (
    λ v h.
        let e : integer (pos 10) ≡ v = cc in
        (limit_def, refl, subst (HasType ParamType.int) e HasType.int),
    (λ v h. cc, tt),
  ),
)

catalog_defaults :
    (entry : ToolEntry)
    → get "search" tool_catalog ≡ some entry
    → DefaultsFit entry.parameters entry.parameters
unfolding Dict.get
catalog_defaults entry h =
    let e : search_entry ≡ entry = cc in
    subst (λ (x : ToolEntry). DefaultsFit x.parameters x.parameters) e search_defaults

search_call_ok : validate_params "search" search_call tool_catalog ≡ ok []
unfolding validate_params Dict.get Dict.insert get_field
search_call_ok = refl

fill_defaults-Accepts_example :
    (filled : Value) × (fill_defaults "search" search_call tool_catalog ≡ ok filled)
    × (validate_params "search" filled tool_catalog ≡ ok [])
fill_defaults-Accepts_example =
    fill_defaults-Accepts tool_catalog "search" search_call catalog_defaults search_call_ok

abbrev pub config : HealthConfig
config = record {
  success_rate_healthy = record { bits = pos 95 };
  success_rate_degraded = record { bits = pos 80 };
  latency_healthy_ms = 2000;
  latency_degraded_ms = 5000;
  min_calls_for_assessment = 2;
  circuit_break_error_threshold = 2;
  circuit_break_window = pos 300;
  window_size = 3;
}

abbrev pub search_executor : ToolExecutor
search_executor = record {
  execute = λ name params. ok (Executor.json params);
  list_tools = record { name = "search"; description = "Search the web"; parameters = null } ∷ [];
  requires_confirmation = no_confirmation;
}

abbrev pub policy : ToolAccessPolicy
policy = grant "writer" "search" Access.new

abbrev pub registry : ToolRegistry
registry = record {
  executors = ("search", search_executor) ∷ [];
  access_policy = some policy;
  catalog = some tool_catalog;
  health = some (Health.new config);
}

admit_iff_example :
    (admit (pos 1) "writer" "search" search_call registry ≡ ok search_executor)
    ↔ Admitted (pos 1) "writer" "search" search_call registry search_executor
admit_iff_example = admit_iff (pos 1) "writer" "search" search_call registry search_executor

abbrev failed_at : Timestamp → ExecutionRecord
failed_at t = record { success = false; latency_ms = 5; timestamp = t; error_type = some "TIMEOUT" }

abbrev done_at : Timestamp → ExecutionRecord
done_at t = record { success = true; latency_ms = 5; timestamp = t; error_type = none }

abbrev trace : Trace
trace =
    ("search", done_at (pos 1))
    ∷ ("search", failed_at (pos 2))
    ∷ ("fetch", done_at (pos 3))
    ∷ ("search", failed_at (pos 4))
    ∷ []

-- The circuit of "search" opens after its second failure in the window.
abbrev search_at : Timestamp → Invocation
search_at t = record {
  now = t;
  finished = t;
  elapsed_ms = 7;
  agent = "writer";
  name = "search";
  params = search_call;
}

execute_all_refines_example :
    AllAgree
      (execute_all
        (search_at (pos 4) ∷ search_at (pos 900) ∷ [])
        (tracking config trace registry)).0
      (enter_all config registry (search_at (pos 4) ∷ search_at (pos 900) ∷ []) trace).0
    × ((execute_all
          (search_at (pos 4) ∷ search_at (pos 900) ∷ [])
          (tracking config trace registry)).1
        ≡ tracking config
            (enter_all config registry (search_at (pos 4) ∷ search_at (pos 900) ∷ []) trace).1
            registry)
execute_all_refines_example =
    execute_all_refines config registry (search_at (pos 4) ∷ search_at (pos 900) ∷ []) trace

should_circuit_break_exact_example :
    should_circuit_break (pos 9) "search" (record_trace trace (Health.new config))
    ≡ breaks (pos 9) config (only "search" trace)
should_circuit_break_exact_example = should_circuit_break_exact (pos 9) "search" trace config

only_search : only "search" trace ≡ done_at (pos 1) ∷ failed_at (pos 2) ∷ failed_at (pos 4) ∷ []
unfolding only
only_search = refl

abbrev pub floats : Floats
floats = record {
  zero_f64 = record { bits = pos 0 };
  ratio = λ a b. record { bits = pos a };
  of_nat = λ a. record { bits = pos a };
  at_least = λ a b. true;
  below = λ a b. false;
  percent = λ a. "";
  rounded = λ a. "";
  seconds = λ c. "300";
}

abbrev tracker : ToolHealthTracker
tracker = record_trace trace (Health.new config)

check_system_health-worst_example :
    let report = check_system_health floats (λ names. names) (pos 9) tracker in
    (report.status ≡ worst report.tool_reports)
    × (report.summary.healthy ≡ count_status Health.healthy report.tool_reports)
    × (report.summary.degraded ≡ count_status Health.degraded report.tool_reports)
    × (report.summary.unhealthy ≡ count_status Health.unhealthy report.tool_reports)
    × (report.summary.unknown ≡ count_status Health.unknown report.tool_reports)
check_system_health-worst_example =
    check_system_health-worst floats (λ names. names) (pos 9) tracker
