-- ===== src/Tools/Access/Grants.antt =====
-- What the operations on a policy change (src/tools/access.rs).
use jeeves_core.Prelude.{
  ◌≡◌, refl, ◌∙◌, ◌&&◌, ◌||◌, not, List, [], ◌∷◌, arith, ◌==◌, eq_iff, Option-cases, inl, inr,
}
use jeeves_core.Prelude.Dict
use jeeves_core.Types.{AgentName, ToolName}
use jeeves_core.Workflow.{contains}
use jeeves_core.Tools.Access.{
  ToolSet, has_tool, ToolAccessPolicy, grant, insert_tools, grant_many, revoke, check_access,
  clear_agent,
}

-- A grant gives its agent its tool and changes no other permission.
pub check_access-grant :
    (agent agent' : AgentName) (tool tool' : ToolName) (p : ToolAccessPolicy)
    → check_access agent' tool' (grant agent tool p)
      ≡ ((agent == agent' && tool == tool') || check_access agent' tool' p)
unfolding check_access grant Dict.get
check_access-grant agent agent' tool tool' p =
    let here = λ (set : ToolSet). Dict.get-insert p.grants agent agent' (Dict.insert set tool tt) in
    elim (Option-cases (Dict.get p.grants agent)) [
      | inl e ↦ ground (
        arith,
        e,
        here [],
        Dict.get-insert {V = Unit {0}} [] tool tool' tt,
        eq_iff agent agent',
        eq_iff tool tool',
      )
      | inr (set, e) ↦ ground (
        arith,
        e,
        here set,
        Dict.get-insert set tool tool' tt,
        eq_iff agent agent',
        eq_iff tool tool',
      )
    ]

-- A revocation takes the tool from the agent and changes no other permission.
pub check_access-revoke :
    (agent agent' : AgentName) (tool tool' : ToolName) (p : ToolAccessPolicy)
    → check_access agent' tool' (revoke agent tool p)
      ≡ (not (agent == agent' && tool == tool') && check_access agent' tool' p)
unfolding check_access revoke
check_access-revoke agent agent' tool tool' p = elim (Option-cases (Dict.get p.grants agent)) [
  | inl e ↦ ground (arith, e, eq_iff agent agent', eq_iff tool tool')
  | inr (set, e) ↦ ground (
    arith,
    e,
    Dict.get-insert p.grants agent agent' (Dict.remove set tool),
    Dict.get-remove set tool tool',
    eq_iff agent agent',
    eq_iff tool tool',
  )
]

has_tool-insert_tools :
    (tools : List ToolName) (set : ToolSet) (tool : ToolName)
    → has_tool (insert_tools tools set) tool ≡ (contains tools tool || has_tool set tool)
unfolding insert_tools contains
has_tool-insert_tools [] set tool = refl
has_tool-insert_tools (t ∷ ts) set tool =
    has_tool-insert_tools ts (Dict.insert set t tt) tool
    ∙ ground (arith, Dict.get-insert set t tool tt, eq_iff t tool)

-- A grant of many tools gives its agent exactly those tools besides what it had, and changes no
-- other agent's permissions.
pub check_access-grant_many :
    (agent agent' : AgentName) (tools : List ToolName) (tool : ToolName) (p : ToolAccessPolicy)
    → check_access agent' tool (grant_many agent tools p)
      ≡ ((agent == agent' && contains tools tool) || check_access agent' tool p)
unfolding check_access grant_many Dict.get
check_access-grant_many agent agent' tools tool p =
    let here = λ (set : ToolSet). Dict.get-insert p.grants agent agent' (insert_tools tools set) in
    elim (Option-cases (Dict.get p.grants agent)) [
      | inl e ↦ ground (arith, e, here [], has_tool-insert_tools tools [] tool, eq_iff agent agent')
      | inr (set, e) ↦
          ground (arith, e, here set, has_tool-insert_tools tools set tool, eq_iff agent agent')
    ]

-- Clearing an agent leaves it no tool and changes no other agent's permissions.
pub check_access-clear_agent :
    (agent agent' : AgentName) (tool : ToolName) (p : ToolAccessPolicy)
    → check_access agent' tool (clear_agent agent p)
      ≡ (not (agent == agent') && check_access agent' tool p)
unfolding check_access clear_agent
check_access-clear_agent agent agent' tool p =
    ground (arith, Dict.get-remove p.grants agent agent', eq_iff agent agent')
