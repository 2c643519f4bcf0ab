-- ===== src/Tests/Factories.antt =====
-- The agents that are built for the drafting workflow.
use jeeves_core.Prelude.{◌≡◌, ◌↔◌, refl, some, map_option, find, [], ◌∷◌, true}
use jeeves_core.Prelude.Int.{pos}
use jeeves_core.Prelude.Dict
use jeeves_core.Prelude.Dict.{values}
use jeeves_core.Json.{null}
use jeeves_core.Types.{ok}
use jeeves_core.Workflow.{Stage}
use jeeves_core.Tools.Registry.{admit}
use jeeves_core.Agent
use jeeves_core.Agent.Factory
use jeeves_core.Agent.Factory.{AgentFactoryBuilder, agent_of, stage_tools, build}
use jeeves_core.Agent.Factory.First.{asks_for, stages_of, get-build}
use jeeves_core.Agent.Factory.Permissions.{IsGranted, build-admit_iff}
use jeeves_core.Tests.{draft_stage, review_stage, workflow}
use jeeves_core.Tests.Tooling.{search_executor, registry}

-- The writer has a model; the critic has none.
abbrev writing_stage : Stage
writing_stage = record draft_stage {
  agent_config = record draft_stage.agent_config { has_llm = true };
}

abbrev builder : AgentFactoryBuilder
builder = record (Factory.new registry) {
  workflows =
      ("drafting", record workflow { stages = writing_stage ∷ review_stage ∷ [] })
      ∷ ("again", workflow)
      ∷ [];
}

get-build_example :
    Agent.get "writer" (build (λ names. names) builder)
    ≡ map_option
        (agent_of (λ names. names) builder)
        (find (asks_for "writer") (stages_of (values builder.workflows)))
get-build_example = get-build (λ names. names) builder "writer"

writer_built :
    Agent.get "writer" (build (λ names. names) builder)
    ≡ some (agent_of (λ names. names) builder writing_stage)
unfolding build Agent.register Dict.get Dict.insert
writer_built = refl

build-admit_iff_example :
    (admit (pos 1) "writer" "search" null (stage_tools (λ names. names) "writer" registry)
      ≡ ok search_executor)
    ↔ IsGranted "writer" "search" search_executor registry
unfolding agent_of
build-admit_iff_example =
    build-admit_iff (λ names. names) builder "writer" (λ names t. refl) writer_built refl (pos 1)
      "search" null search_executor
