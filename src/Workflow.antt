-- ===== src/Workflow.antt =====
-- Workflow definitions and their validation (src/workflow: mod.rs, stage.rs, policy.rs,
-- state_schema.rs; src/agent/policy.rs for the overflow strategy).
pub mod Validity
use jeeves_core.Prelude.{
  ℕ, String, Bool, true, false, not, ◌&&◌, Option, none, some, is_some, List, [], ◌∷◌, map, any,
  ◌==◌, if◌then◌else◌,
}
use jeeves_core.Prelude.Int.{ℤ, pos, leb_ℤ}
use jeeves_core.Json.{Value}
use jeeves_core.Types.{
  AgentName, StageName, OutputKey, PromptKey, RoutingFnName, is_empty, F64, Message, text, int,
  plain, Error, validation, Result, ok, err, ◌>>=◌, ◌>>◌, reject_if,
}

pub data ContextOverflow : Type 0 where
  fail truncate_oldest : ContextOverflow

-- Milliseconds and retries are unsigned in the source.
pub record RetryPolicy : Type 0 where
  pub max_retries : ℕ
  pub initial_backoff_ms : ℕ
  pub max_backoff_ms : ℕ
  pub backoff_multiplier : F64

pub record AgentConfig : Type 0 where
  pub prompt_key : Option PromptKey
  pub has_llm : Bool
  pub temperature : Option F64
  pub max_tokens : Option ℤ
  pub model_role : Option String

pub record Stage : Type 0 where
  pub name : StageName
  pub agent : AgentName
  pub routing_fn : Option RoutingFnName
  pub default_next : Option StageName
  pub error_next : Option StageName
  pub max_visits : Option ℤ
  pub response_format : Option Value
  pub output_key : Option OutputKey
  pub max_context_tokens : Option ℤ
  pub context_overflow : ContextOverflow
  pub timeout_seconds : Option ℕ
  pub retry_policy : Option RetryPolicy
  pub agent_config : AgentConfig

-- `Stage::default()`.
abbrev pub default_stage : Stage
default_stage = record {
  name = "";
  agent = "";
  routing_fn = none;
  default_next = none;
  error_next = none;
  max_visits = none;
  response_format = none;
  output_key = none;
  max_context_tokens = none;
  context_overflow = fail;
  timeout_seconds = none;
  retry_policy = none;
  agent_config = record {
    prompt_key = none;
    has_llm = false;
    temperature = none;
    max_tokens = none;
    model_role = none;
  };
}

pub data MergeStrategy : Type 0 where
  replace append merge_dict : MergeStrategy

pub record StateField : Type 0 where
  pub key : String
  pub merge : MergeStrategy

pub record Workflow : Type 0 where
  pub name : String
  pub stages : List Stage
  pub max_iterations : ℤ
  pub max_llm_calls : ℤ
  pub max_agent_hops : ℤ
  pub state_schema : List StateField

unfoldable pub get_stage_order : Workflow → List StageName
get_stage_order w = map (λ s. s.name) w.stages

-- `HashSet::contains` on the names gathered so far.
unfoldable pub contains : List String → String → Bool
contains [] a = false
contains (x ∷ xs) a = if x == a then true else contains xs a

pub not_positive : ℤ → Bool
not_positive z = leb_ℤ z (pos 0)

-- `if let Some(ref ok) = stage.output_key { if !output_keys.insert(ok) { return Err } }`.
pub add_output_key : StageName → Option OutputKey → List String → Result (List String)
unfolding contains
add_output_key stage none seen = ok seen
add_output_key stage (some k) seen =
    if contains seen k
    then err (
        validation (
          text "Duplicate output_key '"
          ∷ text k
          ∷ text "' on stage '"
          ∷ text stage
          ∷ text "'"
          ∷ []))
    else ok (k ∷ seen)

-- The first loop over the stages, with the two sets it fills. It yields `stage_names`.
pub collect_names : List Stage → List String → List String → Result (List String)
collect_names [] names output_keys = ok names
collect_names (s ∷ rest) names output_keys = do
  reject_if (is_empty s.name) (validation (plain "Stage name must not be empty"))
  reject_if (contains names s.name)
      (validation (text "Duplicate stage name '" ∷ text s.name ∷ text "'" ∷ []))
  output_keys' ← add_output_key s.name s.output_key output_keys
  collect_names rest (s.name ∷ names) output_keys'

stage_message : StageName → List String → Message
stage_message name rest = text "Stage '" ∷ text name ∷ map text rest

pub check_self_loop : Stage → Option StageName → Result (Unit {0})
check_self_loop s none = ok tt
check_self_loop s (some dn) = reject_if (dn == s.name && not (is_some s.max_visits)) (
    validation (
      stage_message s.name
        ("' has default_next pointing to itself without max_visits (infinite loop)" ∷ [])))

pub check_target : StageName → String → List String → Option StageName → Result (Unit {0})
check_target name what names none = ok tt
check_target name what names (some t) = reject_if (not (contains names t)) (
    validation
      (stage_message name ("' has " ∷ what ∷ " '" ∷ t ∷ "' which does not exist in workflow" ∷ [])))

pub check_positive : StageName → String → Option ℤ → Result (Unit {0})
check_positive name what none = ok tt
check_positive name what (some v) = reject_if (not_positive v) (
    validation (
      text "Stage '"
      ∷ text name
      ∷ text "' has "
      ∷ text what
      ∷ int v
      ∷ text " which must be positive"
      ∷ []))

-- The body of the second loop over the stages.
pub validate_stage : List String → Stage → Result (Unit {0})
unfolding check_self_loop check_target check_positive
validate_stage names s = do
  reject_if (is_empty s.agent)
      (validation (stage_message s.name ("' must have a non-empty agent field" ∷ [])))
  check_self_loop s s.default_next
  check_target s.name "default_next" names s.default_next
  check_target s.name "error_next" names s.error_next
  check_positive s.name "max_visits " s.max_visits
  check_positive s.name "max_context_tokens " s.max_context_tokens

pub validate_stages : List String → List Stage → Result (Unit {0})
validate_stages names [] = ok tt
validate_stages names (s ∷ rest) = do validate_stage names s; validate_stages names rest

-- The loop over the state schema, with the set `state_keys`.
pub validate_schema : List StateField → List String → Result (Unit {0})
validate_schema [] state_keys = ok tt
validate_schema (f ∷ rest) state_keys = do
  reject_if (contains state_keys f.key)
      (validation (text "Duplicate state_schema key '" ∷ text f.key ∷ text "'" ∷ []))
  validate_schema rest (f.key ∷ state_keys)

bound_message : String → ℤ → Error
bound_message what v = validation (text what ∷ text " must be > 0, got " ∷ int v ∷ [])

pub is_nil {ℓ} : {A : Type ℓ} → List A → Bool
is_nil [] = true
is_nil (x ∷ xs) = false

unfoldable pub validate : Workflow → Result (Unit {0})
unfolding is_nil not_positive bound_message collect_names add_output_key validate_stages
    validate_stage stage_message validate_schema
validate w = do
  reject_if (is_empty w.name) (validation (plain "Pipeline name is required"))
  reject_if (is_nil w.stages) (validation (plain "Pipeline must have at least one stage"))
  reject_if (not_positive w.max_iterations) (bound_message "max_iterations" w.max_iterations)
  reject_if (not_positive w.max_llm_calls) (bound_message "max_llm_calls" w.max_llm_calls)
  reject_if (not_positive w.max_agent_hops) (bound_message "max_agent_hops" w.max_agent_hops)
  names ← collect_names w.stages [] []
  validate_stages names w.stages
  validate_schema w.state_schema []
