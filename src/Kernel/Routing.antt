-- ===== src/Kernel/Routing.antt =====
-- Routing between stages (src/kernel/routing.rs). A routing function is the consumer's code, so
-- the registry maps its name to any function on the context. Tracing calls are left out.
pub mod Priority
use jeeves_core.Prelude.{String, Bool, true, false, Option, none, some, is_some, []}
use jeeves_core.Prelude.Dict
use jeeves_core.Prelude.Dict.{Dict}
use jeeves_core.Json.{Value}
use jeeves_core.Types.{RoutingFnName, StageName}
use jeeves_core.Workflow.{Stage}

pub record RoutingContext : Type 0 where
  pub current_stage : String
  pub agent_name : String
  pub agent_failed : Bool
  pub outputs : Dict (Dict Value)
  pub metadata : Dict Value
  pub interrupt_response : Option Value
  pub state : Dict Value

pub data RoutingResult : Type 0 where
  next : String → RoutingResult
  terminate : RoutingResult

abbrev pub RoutingFn : Type 0
RoutingFn = RoutingContext → RoutingResult

pub record RoutingRegistry : Type 0 where
  pub fns : Dict RoutingFn

abbrev pub new_registry : RoutingRegistry
new_registry = record { fns = [] }

abbrev pub register : RoutingRegistry → RoutingFnName → RoutingFn → RoutingRegistry
register r name f = record { fns = Dict.insert r.fns name f }

abbrev pub get_fn : RoutingRegistry → String → Option RoutingFn
get_fn r name = Dict.get r.fns name

abbrev pub has_fn : RoutingRegistry → String → Bool
has_fn r name = is_some (Dict.get r.fns name)

pub data RoutingReason : Type 0 where
  error_route : RoutingReason
  routing_fn : RoutingFnName → RoutingReason
  default_route : RoutingReason
  no_match : RoutingReason

pub record RoutingDecision : Type 0 where
  pub from_stage : StageName
  pub target : Option StageName
  pub reason : RoutingReason

-- `match result { Next(t) => Some(t), Terminate => None }`. The conversion of `t` into a
-- `StageName` panics on an empty text, which is not modelled.
abbrev result_target : RoutingResult → Option StageName
result_target (next t) = some t
result_target terminate = none

-- The last part of the evaluation: `default_next`, or no match.
default_decision : Stage → String → RoutingDecision
default_decision stage from_stage = elim stage.default_next [
  | some target ↦ record { from_stage = from_stage; target = some target; reason = default_route }
  | none ↦ record { from_stage = from_stage; target = none; reason = no_match }
]

-- The middle part: the stage's routing function, where the registry has it.
fn_decision : Stage → RoutingRegistry → RoutingContext → String → RoutingDecision
unfolding default_decision
fn_decision stage registry ctx from_stage = elim stage.routing_fn [
  | some fn_name ↦ elim (get_fn registry fn_name) [
    | some f ↦ record {
      from_stage = from_stage;
      target = result_target (f ctx);
      reason = routing_fn fn_name;
    }
    | none ↦ default_decision stage from_stage
  ]
  | none ↦ default_decision stage from_stage
]

error_target : Bool → Option StageName → Option StageName
error_target true error_next = error_next
error_target false error_next = none

unfoldable pub evaluate_routing_with_reason :
    Stage → RoutingRegistry → RoutingContext → String → RoutingDecision
unfolding error_target fn_decision
evaluate_routing_with_reason stage registry ctx from_stage =
    elim (error_target ctx.agent_failed stage.error_next) [
      | some error_next ↦ record {
        from_stage = from_stage;
        target = some error_next;
        reason = error_route;
      }
      | none ↦ fn_decision stage registry ctx from_stage
    ]
