-- ===== src/Tests/Configuring.antt =====
-- A configuration with one variable that is set and one that cannot be read.
use jeeves_core.Prelude.{String, ◌≡◌, refl, Bool, ◌==◌, Option, none, some, [], ◌∷◌, if◌then◌else◌}
use jeeves_core.Prelude.Int.{ℤ, pos}
use jeeves_core.Prelude.Dict.{Dict, get}
use jeeves_core.Types.Config.{default_config, default_limits, from_env}

abbrev parse_seven : String → Option ℤ
parse_seven s = if s == "7" then some (pos 7) else none

abbrev same_text : String → String → Bool
same_text a b = a == b

abbrev seven_hops : Dict String
seven_hops =
    ("CORE_MAX_AGENT_HOPS", "7")
    ∷ ("CORE_MAX_ITERATIONS", "many")
    ∷ ("JEEVES_LOG_FORMAT", "json")
    ∷ []

unset : from_env same_text parse_seven [] ≡ default_config
unfolding from_env get
unset = refl

set :
    (from_env same_text parse_seven seven_hops).defaults
    ≡ record default_limits { max_agent_hops = pos 7 }
unfolding from_env get
set = refl
