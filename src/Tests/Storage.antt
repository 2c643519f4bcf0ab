-- ===== src/Tests/Storage.antt =====
-- Merged state, usage and tools.
use jeeves_core.Prelude.{
  ℕ, String, ◌≡◌, ◌≢◌, refl, arith, none, some, false, ◌≤◌, [], ◌∷◌, length, if◌then◌else◌,
}
use jeeves_core.Prelude.Int.{pos}
use jeeves_core.Prelude.Dict
use jeeves_core.Json.{Value, integer, object, field, end}
use jeeves_core.Workflow.{contains}
use jeeves_core.Kernel.Quota.{no_usage}
use jeeves_core.Kernel.Resources.{ResourceTracker, get_user_usage, retain, cleanup_stale_users}
use jeeves_core.Kernel.Resources.Cleanup.{cleanup_exact}
use jeeves_core.Tools.Access.{ToolAccessPolicy}
use jeeves_core.Tools.Health.{ExecutionRecord}
use jeeves_core.Tests.{small_usage}

abbrev state : Dict.Dict Value
state = ("facts", object (field "a" (integer (pos 1)) end)) ∷ []

log-facts : ◌≢◌ {A = String} "log" "facts"
log-facts h = cc

facts_known : Dict.get state "facts" ≡ some (object (field "a" (integer (pos 1)) end))
unfolding Dict.get
facts_known = refl

no_log : Dict.get state "log" ≡ none
unfolding Dict.get
no_log = refl

abbrev tracker : ResourceTracker
tracker = record { user_usage = ("user_1", small_usage) ∷ ("user_2", no_usage) ∷ [] }

survives :
    get_user_usage "user_1" (cleanup_stale_users ("user_1" ∷ []) 5 tracker).1 ≡ some small_usage
unfolding cleanup_stale_users retain contains Dict.get
survives = refl

one_active : length (retain ("user_1" ∷ []) tracker.user_usage) ≤ 5
unfolding retain contains
one_active = omega arith

cleanup_exact_example :
    get_user_usage "user_2" (cleanup_stale_users ("user_1" ∷ []) 5 tracker).1
    ≡ (if contains ("user_1" ∷ []) "user_2" then get_user_usage "user_2" tracker else none)
cleanup_exact_example = cleanup_exact ("user_1" ∷ []) 5 tracker "user_2" one_active

abbrev policy : ToolAccessPolicy
policy = record { grants = ("writer", ("search", tt) ∷ []) ∷ [] }

abbrev execution : ℕ → ExecutionRecord
execution t = record { success = false; latency_ms = 1; timestamp = pos t; error_type = none }
