-- ===== src/Tools/Access.antt =====
-- Which agents may use which tools (src/tools/access.rs). A `HashSet` of tools is a dictionary
-- with the element as the key; the order of `tools_for_agent` is given by an argument.
pub mod Grants
use jeeves_core.Prelude.{
  String, Bool, true, false, Option, none, some, is_some, unwrap_or, map_option, List, [], ◌∷◌,
  ◌==◌, if◌then◌else◌,
}
use jeeves_core.Prelude.Dict
use jeeves_core.Prelude.Dict.{Dict, keys}
use jeeves_core.Types.{AgentName, ToolName}

abbrev pub ToolSet : Type 0
ToolSet = Dict (Unit {0})

abbrev pub has_tool : ToolSet → ToolName → Bool
has_tool set tool = Dict.contains_key set tool

pub record ToolAccessPolicy : Type 0 where
  pub grants : Dict ToolSet

abbrev pub new : ToolAccessPolicy
new = record { grants = [] }

unfoldable pub grant : AgentName → ToolName → ToolAccessPolicy → ToolAccessPolicy
grant agent tool p = record {
  grants =
      Dict.insert p.grants agent (Dict.insert (unwrap_or [] (Dict.get p.grants agent)) tool tt);
}

-- The loop of `grant_many`.
unfoldable pub insert_tools : List ToolName → ToolSet → ToolSet
insert_tools [] set = set
insert_tools (tool ∷ tools) set = insert_tools tools (Dict.insert set tool tt)

unfoldable pub grant_many : AgentName → List ToolName → ToolAccessPolicy → ToolAccessPolicy
unfolding insert_tools
grant_many agent tools p = record {
  grants = Dict.insert p.grants agent (insert_tools tools (unwrap_or [] (Dict.get p.grants agent)));
}

unfoldable pub revoke : AgentName → ToolName → ToolAccessPolicy → ToolAccessPolicy
revoke agent tool p = elim (Dict.get p.grants agent) [
  | none ↦ p
  | some set ↦ record { grants = Dict.insert p.grants agent (Dict.remove set tool) }
]

-- `is_some_and`.
unfoldable pub check_access : AgentName → ToolName → ToolAccessPolicy → Bool
check_access agent tool p = elim (Dict.get p.grants agent) [
  | none ↦ false
  | some set ↦ has_tool set tool
]

-- `sort` is `sort_by` on the names.
unfoldable pub tools_for_agent :
    (List ToolName → List ToolName) → AgentName → ToolAccessPolicy → List ToolName
tools_for_agent sort agent p =
    unwrap_or [] (map_option (λ set. sort (keys set)) (Dict.get p.grants agent))

unfoldable pub clear_agent : AgentName → ToolAccessPolicy → ToolAccessPolicy
clear_agent agent p = record { grants = Dict.remove p.grants agent }
