-- ===== src/Types/Config.antt =====
-- The configuration (src/types/config.rs). `parse` is `str::parse` at `i32` and `same_letters` is
-- `eq_ignore_ascii_case`. The environment is a dictionary of the variables that are set. Durations
-- are nanoseconds.
use jeeves_core.Prelude.{String, Bool, false, Option, none, some}
use jeeves_core.Prelude.Int.{ℤ, pos}
use jeeves_core.Prelude.Dict
use jeeves_core.Prelude.Dict.{Dict}
use jeeves_core.Types.{F64, PromptKey, Timestamp}

pub record ServerConfig : Type 0 where
  pub listen_addr : String
  pub metrics_addr : String

pub record ObservabilityConfig : Type 0 where
  pub log_level : String
  pub json_logs : Bool
  pub otlp_endpoint : Option String

pub record DefaultLimits : Type 0 where
  pub max_llm_calls : ℤ
  pub max_tool_calls : ℤ
  pub max_agent_hops : ℤ
  pub max_iterations : ℤ
  pub process_timeout : Timestamp

pub record Config : Type 0 where
  pub server : ServerConfig
  pub observability : ObservabilityConfig
  pub defaults : DefaultLimits

pub record AgentDefinition : Type 0 where
  pub name : String
  pub agent_type : String
  pub prompt_key : Option PromptKey
  pub temperature : Option F64
  pub max_tokens : Option ℤ
  pub model : Option String
  pub tool_name : Option String

abbrev pub default_server : ServerConfig
default_server = record { listen_addr = "0.0.0.0:8080"; metrics_addr = "127.0.0.1:9090" }

abbrev pub default_observability : ObservabilityConfig
default_observability = record { log_level = "info"; json_logs = false; otlp_endpoint = none }

abbrev pub default_limits : DefaultLimits
default_limits = record {
  max_llm_calls = pos 100;
  max_tool_calls = pos 50;
  max_agent_hops = pos 10;
  max_iterations = pos 20;
  process_timeout = pos 300000000000;
}

abbrev pub default_config : Config
default_config = record {
  server = default_server;
  observability = default_observability;
  defaults = default_limits;
}

-- A field that a variable sets, and one that it sets where its text can be read.
abbrev pub set_by {ℓ} : {A : Type ℓ} → Option String → (String → A) → A → A
set_by none read field = field
set_by (some s) read field = read s

abbrev pub parsed_by {ℓ} : {A : Type ℓ} → Option String → (String → Option A) → A → A
parsed_by none read field = field
parsed_by (some s) read field = elim (read s) [ none ↦ field | some a ↦ a ]

module _ (same_letters : String → String → Bool) (parse : String → Option ℤ) where
  unfoldable pub server_from : Dict String → ServerConfig → ServerConfig
  server_from env c = record {
    listen_addr = set_by (Dict.get env "JEEVES_HTTP_ADDR") (λ s. s) c.listen_addr;
    metrics_addr = set_by (Dict.get env "JEEVES_METRICS_ADDR") (λ s. s) c.metrics_addr;
  }

  unfoldable pub observability_from : Dict String → ObservabilityConfig → ObservabilityConfig
  observability_from env c = record {
    log_level = set_by (Dict.get env "RUST_LOG") (λ s. s) c.log_level;
    json_logs = set_by (Dict.get env "JEEVES_LOG_FORMAT") (λ s. same_letters s "json") c.json_logs;
    otlp_endpoint =
        set_by (Dict.get env "OTEL_EXPORTER_OTLP_ENDPOINT") (λ s. some s) c.otlp_endpoint;
  }

  unfoldable pub limits_from : Dict String → DefaultLimits → DefaultLimits
  limits_from env c = record c {
    max_llm_calls = parsed_by (Dict.get env "CORE_MAX_LLM_CALLS") parse c.max_llm_calls;
    max_iterations = parsed_by (Dict.get env "CORE_MAX_ITERATIONS") parse c.max_iterations;
    max_agent_hops = parsed_by (Dict.get env "CORE_MAX_AGENT_HOPS") parse c.max_agent_hops;
  }

  unfoldable pub from_env : Dict String → Config
  unfolding server_from observability_from limits_from
  from_env env = record {
    server = server_from env default_config.server;
    observability = observability_from env default_config.observability;
    defaults = limits_from env default_config.defaults;
  }
