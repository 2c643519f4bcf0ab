-- ===== src/Agent/Factory/Permissions.antt =====
-- The tools that a built agent reaches (src/agent/factory.rs): the default is to deny.
use jeeves_core.Prelude.{
  ◌≡◌, refl, sym, ap, subst, ◌∙◌, ◌↔◌, inl, inr, true, Option, none, some, is_some, map_option,
  List, [], ◌∷◌, find, arith, eq_iff, Bool-cases, Option-cases,
}
use jeeves_core.Prelude.Dict
use jeeves_core.Prelude.Dict.{values, keys}
use jeeves_core.Json.{Value}
use jeeves_core.Types.{AgentName, ToolName, Timestamp, ok}
use jeeves_core.Workflow.{Stage, contains}
use jeeves_core.Workflow.Validity.Checks.{iff_trans}
use jeeves_core.Tools.Access.{ToolSet, has_tool, ToolAccessPolicy, check_access, tools_for_agent}
use jeeves_core.Tools.Executor.{ToolExecutor}
use jeeves_core.Tools.Registry
use jeeves_core.Tools.Registry.{ToolRegistry, admit, list_all_tools, wrap_registry}
use jeeves_core.Tools.Registry.Wrapping.{lists, Offers, wrap_registry-admit_iff}
use jeeves_core.Agent
use jeeves_core.Agent.Factory.{
  AgentFactoryBuilder, BuiltAgent, llm_agent, delegating_agent, deterministic_agent, stage_tools,
  allowed, agent_of, build,
}
use jeeves_core.Agent.Factory.First.{asks_for, stages_of, get-build}

-- A sorting loses no name and makes none up.
abbrev pub KeepsNames : (List ToolName → List ToolName) → Type 0
KeepsNames sort =
    (names : List ToolName) (t : ToolName) → contains (sort names) t ≡ contains names t

-- A policy is attached that grants the tool to the agent, the tool is listed, and its executor is x.
abbrev pub IsGranted : AgentName → ToolName → ToolExecutor → ToolRegistry → Type 0
IsGranted name tool x r =
    (p : ToolAccessPolicy) × (r.access_policy ≡ some p)
    × (check_access name tool p ≡ true)
    × (lists tool (list_all_tools r) ≡ true)
    × (Registry.get tool r ≡ some x)

-- The registry that an agent calls its tools through.
abbrev pub tools_of : BuiltAgent → Option ToolRegistry
tools_of (llm_agent a key tools) = some tools
tools_of (delegating_agent a) = some a.tools
tools_of deterministic_agent = none

contains-keys : (set : ToolSet) (t : ToolName) → contains (keys set) t ≡ has_tool set t
unfolding contains Dict.get
contains-keys [] t = refl
contains-keys ((k, v) ∷ set) t = ground (arith, contains-keys set t)

contains-tools_for_agent :
    (sort : List ToolName → List ToolName)
    → KeepsNames sort
    → (name : AgentName) (t : ToolName) (p : ToolAccessPolicy)
    → contains (tools_for_agent sort name p) t ≡ check_access name t p
unfolding tools_for_agent check_access contains
contains-tools_for_agent sort keep name t p = elim (Option-cases (Dict.get p.grants name)) [
  | inl e ↦ rw (e, tools_for_agent, check_access) refl
  | inr (set, e) ↦ rw (e, tools_for_agent, check_access) (keep (keys set) t ∙ contains-keys set t)
]

contains-allowed_iff :
    (sort : List ToolName → List ToolName)
    → KeepsNames sort
    → (name : AgentName) (t : ToolName) (policy : Option ToolAccessPolicy)
    → (contains (allowed sort name policy) t ≡ true)
      ↔ ((p : ToolAccessPolicy) × (policy ≡ some p) × (check_access name t p ≡ true))
unfolding allowed contains
contains-allowed_iff sort keep name t none = (λ h. cc, λ g. absurd (let q = g.1 in cc))
contains-allowed_iff sort keep name t (some p) =
    let e = contains-tools_for_agent sort keep name t p in
    (λ h. (p, refl, sym e ∙ h), λ g. e ∙ granted (g.0) g.1 g.2)
  where
    granted :
        (q : ToolAccessPolicy)
        → some p ≡ some q
        → check_access name t q ≡ true
        → check_access name t p ≡ true
    granted q i c = subst (λ (z : ToolAccessPolicy). check_access name t z ≡ true) (cc) c

Offers-IsGranted :
    (sort : List ToolName → List ToolName)
    → KeepsNames sort
    → (name : AgentName) (tool : ToolName) (r : ToolRegistry) (x : ToolExecutor)
    → Offers r (allowed sort name r.access_policy) tool x ↔ IsGranted name tool x r
Offers-IsGranted sort keep name tool r x =
    let (there, back) = contains-allowed_iff sort keep name tool r.access_policy in
    (λ o. let (p, e, c) = there o.0 in (p, e, c, o.1, o.2), λ g. (back (g.0, g.1, g.2), g.3, g.4))

-- An agent's registry keeps its name and its tools.
stage-agent :
    (sort : List ToolName → List ToolName) (b : AgentFactoryBuilder) (s : Stage) {r : ToolRegistry}
    → tools_of (agent_of sort b s) ≡ some r
    → r ≡ stage_tools sort s.agent b.tools
unfolding agent_of
stage-agent sort b s {r} h = elim (Bool-cases s.agent_config.has_llm) [
  | inl e ↦ let q = (rw (e, agent_of) at h) in cc
  | inr e ↦ elim (Bool-cases (is_some (Registry.get s.agent b.tools))) [
    | inl g ↦ let q = (rw (e, g, agent_of) at h) in cc
    | inr g ↦ absurd (let q = (rw (e, g, agent_of) at h) in cc)
  ]
]

find-asks_for :
    (name : AgentName) (ss : List Stage) {s : Stage}
    → find (asks_for name) ss ≡ some s
    → s.agent ≡ name
unfolding find
find-asks_for name [] h = cc
find-asks_for name (x ∷ ss) {s} h = elim (Bool-cases (asks_for name x)) [
  | inl e ↦
      let q : some x ≡ some s = rw (e, find) at h in
      let n : x.agent ≡ name = ground (arith, e, eq_iff x.agent name) in
      let same : x ≡ s = cc in subst (λ (z : Stage). z.agent ≡ name) same n
  | inr e ↦ find-asks_for name ss (rw (e, find) at h)
]

map_option-eq-some :
    (f : Stage → BuiltAgent) (o : Option Stage) {a : BuiltAgent}
    → map_option f o ≡ some a
    → (s : Stage) × (o ≡ some s) × (f s ≡ a)
map_option-eq-some f none h = cc
map_option-eq-some f (some s) h = (s, refl, cc)

-- The tools of an agent of the built registry.
tools-build :
    (sort : List ToolName → List ToolName) (b : AgentFactoryBuilder) (name : AgentName)
    {a : BuiltAgent} {r : ToolRegistry}
    → Agent.get name (build sort b) ≡ some a
    → tools_of a ≡ some r
    → r ≡ stage_tools sort name b.tools
tools-build sort b name {a} {r} h t =
    let ss = stages_of (values b.workflows) in
    let (s, f, e) =
      map_option-eq-some (agent_of sort b) (find (asks_for name) ss)
        (sym (get-build sort b name) ∙ h) in
    stage-agent sort b s (ap tools_of e ∙ t)
    ∙ ap (λ n. stage_tools sort n b.tools) (find-asks_for name ss f)

-- An agent of the built registry that has tools, as an agent with a model and one that delegates to a
-- tool have, reaches the executor x under a tool's name exactly when a policy is attached to the
-- shared registry, the policy grants the tool to the agent's name, an executor of the shared registry
-- lists the tool, and x is the executor registered under the name. Without a policy, no such agent
-- reaches any tool. The sorting of names is assumed to keep them.
pub build-admit_iff :
    (sort : List ToolName → List ToolName) (b : AgentFactoryBuilder) (name : AgentName)
    {a : BuiltAgent} {r : ToolRegistry}
    → KeepsNames sort
    → Agent.get name (build sort b) ≡ some a
    → tools_of a ≡ some r
    → (now : Timestamp) (tool : ToolName) (params : Value) (x : ToolExecutor)
    → (admit now name tool params r ≡ ok x) ↔ IsGranted name tool x b.tools
unfolding stage_tools
build-admit_iff sort b name {a} {r} keep h t now tool params x =
    subst
      (λ (z : ToolRegistry). (admit now name tool params z ≡ ok x) ↔ IsGranted name tool x b.tools)
      (sym (tools-build sort b name h t))
      (iff_trans
        (wrap_registry-admit_iff now name tool params b.tools
          (allowed sort name b.tools.access_policy) x)
        (Offers-IsGranted sort keep name tool b.tools x))
