-- ===== src/Tools/Registry.antt =====
-- The tool registry and its builder (src/tools/registry.rs, and `wrap_registry` of
-- src/tools/executor.rs). `now` is the clock when the circuit is looked at, `finished` when the
-- outcome is recorded and `elapsed_ms` the time between. A poisoned lock of the health tracker is
-- not modelled.
pub mod Gates
pub mod Ledger
pub mod Wrapping
use jeeves_core.Prelude.{
  ℕ, String, Bool, true, false, Option, none, some, map_option, unwrap_or, and_then, List, [], ◌∷◌,
  ◌++◌, if◌then◌else◌,
}
use jeeves_core.Json.{Value}
use jeeves_core.Prelude.Dict
use jeeves_core.Prelude.Dict.{Dict, values}
use jeeves_core.Types.{
  AgentName, ToolName, Timestamp, Message, Piece, plain, policy_violation, not_found, validation,
  to_error_code, Result, ok, err, reject_if, ok_or, ◌>>=◌, ◌>>◌,
}
use jeeves_core.Workflow.{contains}
use jeeves_core.Tools.Access.{ToolAccessPolicy, check_access}
use jeeves_core.Tools.Catalog.{ToolCatalog, has_tool, validate_params}
use jeeves_core.Tools.Health.{ToolHealthTracker, should_circuit_break, record_execution}
use jeeves_core.Tools.Executor.{ToolInfo, ToolOutput, ConfirmationRequest, ToolExecutor}

pub record ToolRegistry : Type 0 where
  pub executors : Dict ToolExecutor
  pub access_policy : Option ToolAccessPolicy
  pub catalog : Option ToolCatalog
  pub health : Option ToolHealthTracker

abbrev pub new : ToolRegistry
new = record { executors = []; access_policy = none; catalog = none; health = none }

unfoldable pub register : ToolName → ToolExecutor → ToolRegistry → ToolRegistry
register name executor r = record r { executors = Dict.insert r.executors name executor }

abbrev pub get : ToolName → ToolRegistry → Option ToolExecutor
get name r = Dict.get r.executors name

-- The three gates of `execute_for`, in its order.
unfoldable pub check_policy : Option ToolAccessPolicy → AgentName → ToolName → Result (Unit {0})
check_policy none agent name = ok tt
check_policy (some policy) agent name =
    if check_access agent name policy
    then ok tt
    else err (
        policy_violation (
          Piece.text "Agent '"
          ∷ Piece.text agent
          ∷ Piece.text "' is not granted tool '"
          ∷ Piece.text name
          ∷ plain "'"))

-- `errors.join("; ")`.
unfoldable pub join_errors : List Message → Message
join_errors [] = []
join_errors (e ∷ []) = e
join_errors (e ∷ f ∷ es) = e ++ Piece.text "; " ∷ join_errors (f ∷ es)

abbrev pub reject_errors : ToolName → List Message → Result (Unit {0})
reject_errors name [] = ok tt
reject_errors name (e ∷ es) = err (
    validation (
      Piece.text "Invalid params for tool '"
      ∷ Piece.text name
      ∷ Piece.text "': "
      ∷ join_errors (e ∷ es)))

unfoldable pub check_catalog : Option ToolCatalog → ToolName → Value → Result (Unit {0})
unfolding validate_params
check_catalog none name params = ok tt
check_catalog (some c) name params =
    if has_tool name c then validate_params name params c >>= reject_errors name else ok tt

unfoldable pub check_circuit : Timestamp → Option ToolHealthTracker → ToolName → Result (Unit {0})
unfolding should_circuit_break
check_circuit now none name = ok tt
check_circuit now (some h) name = reject_if (should_circuit_break now name h) (
    policy_violation
      (Piece.text "Tool '" ∷ Piece.text name ∷ plain "' circuit-broken (too many recent failures)"))

-- What `execute_for` does before the call: the executor, or the error it returns.
unfoldable pub admit : Timestamp → AgentName → ToolName → Value → ToolRegistry → Result ToolExecutor
unfolding check_policy check_catalog check_circuit
admit now agent name params r =
    check_policy r.access_policy agent name
    >> (check_catalog r.catalog name params
        >> (check_circuit now r.health name
            >> ok_or (get name r) (not_found (Piece.text "Tool not found: " ∷ plain name))))

-- The outcome as it is recorded.
abbrev pub is_ok : Result ToolOutput → Bool
is_ok (ok t) = true
is_ok (err e) = false

abbrev pub error_type : Result ToolOutput → Option String
error_type (ok t) = none
error_type (err e) = some (to_error_code e)

unfoldable pub record_outcome :
    Timestamp → ℕ → ToolName → Result ToolOutput → ToolRegistry → ToolRegistry
unfolding record_execution to_error_code
record_outcome finished elapsed_ms name result r = record r {
  health =
      map_option (record_execution finished name (is_ok result) elapsed_ms (error_type result))
        r.health;
}

unfoldable pub execute_for :
    Timestamp
    → Timestamp
    → ℕ
    → AgentName
    → ToolName
    → Value
    → ToolRegistry
    → Result ToolOutput × ToolRegistry
unfolding admit record_outcome
execute_for now finished elapsed_ms agent name params r = elim (admit now agent name params r) [
  | err e ↦ (err e, r)
  | ok executor ↦
      let result = executor.execute name params in
      (result, record_outcome finished elapsed_ms name result r)
]

unfoldable pub list_of : List ToolExecutor → List ToolInfo
list_of [] = []
list_of (e ∷ es) = e.list_tools ++ list_of es

abbrev pub list_all_tools : ToolRegistry → List ToolInfo
list_all_tools r = list_of (values r.executors)

unfoldable pub requires_confirmation : ToolName → Value → ToolRegistry → Option ConfirmationRequest
requires_confirmation name params r =
    and_then (get name r) (λ (e : ToolExecutor). e.requires_confirmation name params)

-- The loop of `wrap_registry` over the tools that the registry lists.
unfoldable pub filter_tools :
    List ToolName → ToolRegistry → List ToolInfo → ToolRegistry → ToolRegistry
unfolding contains register
filter_tools allowed r [] filtered = filtered
filter_tools allowed r (t ∷ ts) filtered = filter_tools allowed r ts (
    if contains allowed t.name
    then elim (get t.name r) [ none ↦ filtered | some e ↦ register t.name e filtered ]
    else filtered)

-- `AclToolExecutor::wrap_registry`.
unfoldable pub wrap_registry : ToolRegistry → List ToolName → ToolRegistry
unfolding filter_tools list_of
wrap_registry r [] = new
wrap_registry r (a ∷ allowed) = filter_tools (a ∷ allowed) r (list_all_tools r) new

pub record ToolRegistryBuilder : Type 0 where
  pub executors : List (ToolName × ToolExecutor)
  pub access_policy : Option ToolAccessPolicy
  pub catalog : Option ToolCatalog
  pub health : Option ToolHealthTracker

abbrev pub new_builder : ToolRegistryBuilder
new_builder = record { executors = []; access_policy = none; catalog = none; health = none }

-- The loop of `add_executor`.
unfoldable pub listed : ToolExecutor → List ToolInfo → List (ToolName × ToolExecutor)
listed e [] = []
listed e (t ∷ ts) = (t.name, e) ∷ listed e ts

unfoldable pub add_executor : ToolExecutor → ToolRegistryBuilder → ToolRegistryBuilder
unfolding listed
add_executor e b = record b { executors = b.executors ++ listed e e.list_tools }

unfoldable pub add_tool : ToolName → ToolExecutor → ToolRegistryBuilder → ToolRegistryBuilder
add_tool name e b = record b { executors = b.executors ++ (name, e) ∷ [] }

abbrev pub with_access_policy : ToolAccessPolicy → ToolRegistryBuilder → ToolRegistryBuilder
with_access_policy p b = record b { access_policy = some p }

abbrev pub with_catalog : ToolCatalog → ToolRegistryBuilder → ToolRegistryBuilder
with_catalog c b = record b { catalog = some c }

abbrev pub with_health_tracker : ToolHealthTracker → ToolRegistryBuilder → ToolRegistryBuilder
with_health_tracker h b = record b { health = some h }

unfoldable pub register_all : List (ToolName × ToolExecutor) → ToolRegistry → ToolRegistry
unfolding register
register_all [] r = r
register_all ((name, e) ∷ es) r = register_all es (register name e r)

unfoldable pub build : ToolRegistryBuilder → ToolRegistry
unfolding register_all
build b = record (register_all b.executors new) {
  access_policy = b.access_policy;
  catalog = b.catalog;
  health = b.health;
}
