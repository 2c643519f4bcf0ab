-- ===== src/Agent/Factory/First.antt =====
-- Which stage an agent of the built registry comes from (src/agent/factory.rs).
use mathlib.Core.List.{◌++◌ as append}
use jeeves_core.Prelude.{
  ◌≡◌, refl, sym, ap, ◌∙◌, Bool, not, ◌&&◌, ◌||◌, Option, none, some, is_some, map_option, List, [],
  ◌∷◌, find, arith, ◌==◌, eq_iff, if◌then◌else◌, Bool-cases, Option-cases, inl, inr,
}
use jeeves_core.Prelude.Dict
use jeeves_core.Prelude.Dict.{values}
use jeeves_core.Types.{AgentName, ToolName, is_empty}
use jeeves_core.Workflow.{Stage, Workflow}
use jeeves_core.Agent
use jeeves_core.Agent.{AgentHook, AgentRegistry, new_registry, register, register_agent_hook}
use jeeves_core.Agent.Factory.{
  AgentFactoryBuilder, BuiltAgent, agent_of, merge_stages, merge_workflows, register_hooks, build,
}

-- A stage that asks for an agent of the name; an empty name is asked for by none.
abbrev pub asks_for : AgentName → Stage → Bool
asks_for name s = not (is_empty s.agent) && s.agent == name

-- All stages of the workflows.
abbrev pub stages_of : List Workflow → List Stage
stages_of [] = []
stages_of (w ∷ ws) = append w.stages (stages_of ws)

-- The first of two that is there.
abbrev or_else : Option BuiltAgent → Option BuiltAgent → Option BuiltAgent
or_else none p = p
or_else (some a) p = some a

or_else_assoc : (o p q : Option BuiltAgent) → or_else (or_else o p) q ≡ or_else o (or_else p q)
or_else_assoc none p q = refl
or_else_assoc (some a) p q = refl

or_else-none : (o : Option BuiltAgent) → or_else o none ≡ o
or_else-none none = refl
or_else-none (some a) = refl

module _ (sort : List ToolName → List ToolName) (b : AgentFactoryBuilder) where
  -- What the first of the stages that asks for the name makes of it.
  abbrev wanted : AgentName → List Stage → Option BuiltAgent
  wanted name ss = map_option (agent_of sort b) (find (asks_for name) ss)

  abbrev merged : Stage → AgentRegistry BuiltAgent → AgentRegistry BuiltAgent
  merged s r =
      if is_empty s.agent || is_some (Agent.get s.agent r)
      then r
      else register s.agent (agent_of sort b s) r

  get-merged :
      (name : AgentName) (s : Stage) (r : AgentRegistry BuiltAgent)
      → Agent.get name (merged s r)
        ≡ or_else (Agent.get name r) (if asks_for name s then some (agent_of sort b s) else none)
  unfolding register
  get-merged name s r = elim (Option-cases (Agent.get s.agent r)) [
    | inl e ↦
        ground
          (arith, e, eq_iff s.agent name, Dict.get-insert r.agents s.agent name (agent_of sort b s))
    | inr (a, e) ↦ elim (Option-cases (Agent.get name r)) [
      | inl n ↦ ground (arith, e, n, eq_iff s.agent name)
      | inr (c, n) ↦ ground (arith, e, n)
    ]
  ]

  wanted-cons :
      (name : AgentName) (s : Stage) (ss : List Stage)
      → wanted name (s ∷ ss)
        ≡ or_else (if asks_for name s then some (agent_of sort b s) else none) (wanted name ss)
  unfolding find
  wanted-cons name s ss = elim (Bool-cases (asks_for name s)) [
    | inl e ↦ rw e refl
    | inr e ↦ rw e refl
  ]

  get-merge_stages :
      (name : AgentName) (ss : List Stage) (r : AgentRegistry BuiltAgent)
      → Agent.get name (merge_stages sort b ss r) ≡ or_else (Agent.get name r) (wanted name ss)
  unfolding merge_stages find
  get-merge_stages name [] r = sym (or_else-none (Agent.get name r))
  get-merge_stages name (s ∷ ss) r =
      get-merge_stages name ss (merged s r)
      ∙ ap (λ o. or_else o (wanted name ss)) (get-merged name s r)
      ∙ or_else_assoc (Agent.get name r) _ (wanted name ss)
      ∙ ap (or_else (Agent.get name r)) (sym (wanted-cons name s ss))

  wanted-append :
      (name : AgentName) (ss ts : List Stage)
      → wanted name (append ss ts) ≡ or_else (wanted name ss) (wanted name ts)
  unfolding find
  wanted-append name [] ts = refl
  wanted-append name (s ∷ ss) ts =
      wanted-cons name s (append ss ts)
      ∙ ap (or_else _) (wanted-append name ss ts)
      ∙ sym (or_else_assoc _ (wanted name ss) (wanted name ts))
      ∙ ap (λ o. or_else o (wanted name ts)) (sym (wanted-cons name s ss))

  get-merge_workflows :
      (name : AgentName) (ws : List Workflow) (r : AgentRegistry BuiltAgent)
      → Agent.get name (merge_workflows sort b ws r)
        ≡ or_else (Agent.get name r) (wanted name (stages_of ws))
  unfolding merge_workflows find
  get-merge_workflows name [] r = sym (or_else-none (Agent.get name r))
  get-merge_workflows name (w ∷ ws) r =
      get-merge_workflows name ws (merge_stages sort b w.stages r)
      ∙ ap (λ o. or_else o (wanted name (stages_of ws))) (get-merge_stages name w.stages r)
      ∙ or_else_assoc (Agent.get name r) _ _
      ∙ ap (or_else (Agent.get name r)) (sym (wanted-append name w.stages (stages_of ws)))

get-register_hooks :
    (name : AgentName) (hs : List AgentHook) (r : AgentRegistry BuiltAgent)
    → Agent.get name (register_hooks hs r) ≡ Agent.get name r
unfolding register_hooks register_agent_hook
get-register_hooks name [] r = refl
get-register_hooks name (h ∷ hs) r = get-register_hooks name hs (register_agent_hook h r)

-- The built registry has an agent under a name exactly when some stage of the workflows asks for
-- the name, which is then not empty, and the agent is the one that the first such stage describes:
-- the workflows are taken in the order of their map, and the stages of each in their order.
pub get-build :
    (sort : List ToolName → List ToolName) (b : AgentFactoryBuilder) (name : AgentName)
    → Agent.get name (build sort b)
      ≡ map_option (agent_of sort b) (find (asks_for name) (stages_of (values b.workflows)))
unfolding build Dict.get
get-build sort b name =
    get-register_hooks name b.agent_hooks _
    ∙ get-merge_workflows sort b name (values b.workflows) new_registry
