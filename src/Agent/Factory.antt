-- ===== src/Agent/Factory.antt =====
-- The factory of agents (src/agent/factory.rs). The provider, the prompts and the resolver of content
-- that all agents share are no part of the model, and an agent keeps its tools and the key of its
-- prompt beside its other fields. `sort` is the sorting of tool names in `tools_for_agent`.
pub mod First
pub mod Permissions
use mathlib.Core.List.{◌++◌ as append}
use jeeves_core.Prelude.{
  ℕ, String, Bool, ◌||◌, Option, none, some, is_some, unwrap_or, map_option, List, [], ◌∷◌,
  if◌then◌else◌,
}
use jeeves_core.Prelude.Dict
use jeeves_core.Prelude.Dict.{Dict, values}
use jeeves_core.Types.{AgentName, ToolName, PromptKey, is_empty}
use jeeves_core.Workflow.{Stage, Workflow}
use jeeves_core.Tools.Access.{ToolAccessPolicy, tools_for_agent}
use jeeves_core.Tools.Registry
use jeeves_core.Tools.Registry.{ToolRegistry, wrap_registry}
use jeeves_core.Agent
use jeeves_core.Agent.{
  AgentHook, LlmAgentHook, AgentRegistry, ToolDelegatingAgent, new_registry, register,
  register_agent_hook,
}
use jeeves_core.Agent.Loop.{LlmAgent}

pub record AgentFactoryBuilder : Type 0 where
  pub tools : ToolRegistry
  pub workflows : Dict Workflow
  pub hooks : List LlmAgentHook
  pub agent_hooks : List AgentHook

abbrev pub new : ToolRegistry → AgentFactoryBuilder
new tools = record { tools = tools; workflows = []; hooks = []; agent_hooks = [] }

abbrev pub with_hook : LlmAgentHook → AgentFactoryBuilder → AgentFactoryBuilder
with_hook hook b = record b { hooks = append b.hooks (hook ∷ []) }

abbrev pub with_agent_hook : AgentHook → AgentFactoryBuilder → AgentFactoryBuilder
with_agent_hook hook b = record b { agent_hooks = append b.agent_hooks (hook ∷ []) }

unfoldable pub add_workflow : Workflow → AgentFactoryBuilder → AgentFactoryBuilder
add_workflow w b = record b { workflows = Dict.insert b.workflows w.name w }

unfoldable pub add_workflows : List Workflow → AgentFactoryBuilder → AgentFactoryBuilder
unfolding add_workflow
add_workflows [] b = b
add_workflows (w ∷ ws) b = add_workflows ws (add_workflow w b)

-- The three kinds of agent behind `Arc<dyn Agent>`.
pub data BuiltAgent : Type 0 where
  llm_agent : LlmAgent → PromptKey → ToolRegistry → BuiltAgent
  delegating_agent : ToolDelegatingAgent → BuiltAgent
  deterministic_agent : BuiltAgent

-- `DEFAULT_MAX_TOOL_ROUNDS`.
abbrev pub default_max_tool_rounds : ℕ
default_max_tool_rounds = 10

module _ (sort : List ToolName → List ToolName) where
  -- The allow list of an agent: without a policy it is empty.
  unfoldable pub allowed : AgentName → Option ToolAccessPolicy → List ToolName
  unfolding tools_for_agent
  allowed name policy = unwrap_or [] (map_option (tools_for_agent sort name) policy)

  unfoldable pub stage_tools : AgentName → ToolRegistry → ToolRegistry
  unfolding wrap_registry allowed
  stage_tools name tools = wrap_registry tools (allowed name tools.access_policy)

  -- The agent that a stage asks for.
  unfoldable pub agent_of : AgentFactoryBuilder → Stage → BuiltAgent
  unfolding stage_tools
  agent_of ctx stage =
      if stage.agent_config.has_llm
      then llm_agent
          (record {
            agent_name = stage.agent;
            temperature = stage.agent_config.temperature;
            max_tokens = stage.agent_config.max_tokens;
            model = stage.agent_config.model_role;
            max_tool_rounds = default_max_tool_rounds;
            hooks = ctx.hooks;
          })
          (unwrap_or stage.agent stage.agent_config.prompt_key) (stage_tools stage.agent ctx.tools)
      else if is_some (Registry.get stage.agent ctx.tools)
      then delegating_agent (record {
        agent_name = stage.agent;
        tool_name = stage.agent;
        tools = stage_tools stage.agent ctx.tools;
      })
      else deterministic_agent

  -- The loop of `merge_agents`.
  unfoldable pub merge_stages :
      AgentFactoryBuilder → List Stage → AgentRegistry BuiltAgent → AgentRegistry BuiltAgent
  unfolding agent_of
  merge_stages ctx [] r = r
  merge_stages ctx (s ∷ ss) r = merge_stages ctx ss (
      if is_empty s.agent || is_some (Agent.get s.agent r)
      then r
      else register s.agent (agent_of ctx s) r)

  abbrev pub merge_agents :
      AgentFactoryBuilder → Workflow → AgentRegistry BuiltAgent → AgentRegistry BuiltAgent
  merge_agents ctx w r = merge_stages ctx w.stages r

  -- The loop of `build` over the workflows, in the order in which their map gives them.
  unfoldable pub merge_workflows :
      AgentFactoryBuilder → List Workflow → AgentRegistry BuiltAgent → AgentRegistry BuiltAgent
  unfolding merge_stages
  merge_workflows ctx [] r = r
  merge_workflows ctx (w ∷ ws) r = merge_workflows ctx ws (merge_agents ctx w r)

-- The loop of `build` over the hooks.
unfoldable pub register_hooks : List AgentHook → AgentRegistry BuiltAgent → AgentRegistry BuiltAgent
unfolding register_agent_hook
register_hooks [] r = r
register_hooks (h ∷ hs) r = register_hooks hs (register_agent_hook h r)

unfoldable pub build :
    (List ToolName → List ToolName) → AgentFactoryBuilder → AgentRegistry BuiltAgent
unfolding merge_workflows register_hooks
build sort b =
    register_hooks b.agent_hooks (merge_workflows sort b (values b.workflows) new_registry)
