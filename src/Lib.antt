-- ===== src/Lib.antt =====
-- The kernel of Jeeves Core: workflows of agents, run under limits.
--
-- A `Workflow` is a list of stages, each with an agent, an optional routing function and static
-- targets. A `Run` is the state of one request. The `Kernel` owns every run, the registry of run
-- records, the usage of each user, the interrupts and the `Orchestrator`, which keeps a session
-- for each run: the workflow, the visits of its stages and the last routing decision. A worker
-- asks the kernel for an instruction, lets the agent do its work, and reports the outcome; the
-- orchestrator books it, checks the bounds and routes the run to its next stage or to its end.
--
-- Files and the code they model (paths from the repository's root):
--   Types, Json         src/types/ids.rs, src/types/errors.rs; the data of `serde_json::Value`.
--   Types/Config        src/types/config.rs.
--   Workflow            src/workflow, src/agent/policy.rs: the definitions and `validate`.
--     Validity          what `validate` accepts, stated without its loops: Validity/Checks for
--                       the checks on a stage, Names for the sets it fills, Accepted for the whole.
--   Run                 src/run: `Run::new`, `check_bounds`, `validate` and others; Run/Updates:
--                       `merge_updates`, Run/Validity: what `validate` accepts.
--   Kernel/Routing      src/kernel/routing.rs; Routing/Priority is the order of the routes.
--   Kernel/Protocol     src/kernel/protocol.rs, src/agent/metrics.rs.
--   Kernel/Orchestrator src/kernel/orchestrator.rs, with Session for orchestrator_session.rs and
--                       Queries for orchestrator_queries.rs. Instructions is about
--                       `get_next_instruction`, Reporting about `report_agent_result`, Limits and
--                       Visits about what a report keeps, Progress about a worker that goes on
--                       reporting, and History about the states of a session.
--   Kernel/MergeState   `merge_state_field` of src/kernel/mod.rs.
--   Kernel/Quota        `ResourceQuota` and `ResourceUsage` of src/kernel/types.rs.
--   Kernel/Lifecycle    `RunRecord` of src/kernel/types.rs, src/kernel/lifecycle.rs; Refinement is
--                       about the registry as a machine with one status for each run.
--   Kernel/Interrupts   src/kernel/interrupts.rs.
--   Kernel/Resources    src/kernel/resources.rs; Resources/Cleanup is about its cleanup.
--   Kernel/Dispatch     src/kernel/dispatch.rs and the `Kernel` of src/kernel/mod.rs, with
--                       AgentContext for the JSON in an instruction, AgentOutput for what a
--                       result writes into its run, and Dispatch/Runs for the methods besides the
--                       dispatch. Delivery and Waiting are about interrupts and their answers,
--                       Records with Usage about what the kernel holds and its quotas, Results
--                       with Outputs about what a result leaves,
--                       Apart about what a method leaves of other runs, Keys with Keys/Methods
--                       about the runs and sessions that are held, Sound with Asked and Taken
--                       about the limits of all runs.
--   Kernel/Actor        src/kernel/actor.rs and the commands of src/kernel/handle.rs; Actor/Keeps and
--                       Actor/Recorded are about the records of the runs, Actor/Paired about their
--                       sessions, Actor/Sound about their limits, Actor/Gone about what follows the
--                       end of a run, Actor/Apart about the commands for other runs.
--   Tools/Health        src/tools/health.rs: Window for the executions that are kept, Breaker for
--                       the circuit breaker, Reports for the reports and Summaries for what they say.
--   Tools/Access        src/tools/access.rs.
--   Tools/Catalog       src/tools/catalog.rs, with Prompt for the prompt; Typing is about the types
--                       of parameters, Calls about the calls that pass, Defaults about defaults.
--   Tools/Executor      src/tools/executor.rs: the trait as a record, and its wrappers.
--   Tools/Registry      src/tools/registry.rs and `wrap_registry` of src/tools/executor.rs; Gates is
--                       about `execute_for`, Ledger about calls over time, Wrapping about the registry
--                       of one agent.
--   Run/Events          src/run/events.rs; Run/Suspension: the builders of `FlowInterrupt`.
--   Agent               src/agent/mod.rs and src/agent/hooks.rs but for the tool loop.
--   Agent/Messages      src/agent/llm/mod.rs; Messages/Window is the truncation of src/agent/mod.rs,
--                       Messages/Merging about the parts of tool calls.
--   Agent/Loop, Calls, React
--                       the tool loop of src/agent/mod.rs: its state, the calls of a round and the
--                       rounds. React/Rounds is about the bound on the rounds, React/Answers about
--                       the answers to the model's calls.
--   Agent/Prompts       src/agent/prompts.rs and the variables of a prompt in src/agent/mod.rs; Parts
--                       is about templates of text and placeholders.
--   Agent/Providers     src/agent/llm/genai_provider.rs, with Mocks for mock.rs: Building for the
--                       requests, Calls for the calls with their retries, Replies for what is
--                       made of them. Attempts is about the retries, Requests about what a
--                       request carries, Streams about what is gathered of a stream.
--   Agent/Factory       src/agent/factory.rs; First is about the stage that an agent comes from,
--                       Permissions about the tools that it reaches.
--   Agent/Runner        the execution of an agent in src/kernel/runner.rs; Runner/Retries is about
--                       its retries. Runner/RunLoop is the loop that drives a run: Drivable is about
--                       its commands, Returns and Whole about its end, Ends about what it returns,
--                       Context about what an agent sees of the run.
--   Prelude             lists, integers, dictionaries and tests that the others share.
--   Tests               concrete workflows, runs and kernels, and the theorems applied to them.
--
-- State and errors. A method on `&mut self` is a function that returns its result beside the new
-- state; what the source has written before it returns an error stays written. A `Result` is ok or
-- err with the error's constructor and the pieces of its message. The clock is the argument `now`,
-- in nanoseconds; where one call reads the clock twice, both readings are `now`.
--
-- Numbers. `i32` and `i64` are integers, and sums of counters wrap round as they do in a release
-- build; `usize` and `u64` are natural numbers. Limits that are `i32` in the source are assumed to
-- be in its range where a property needs it (`Fits`). A `HashMap` is an association list, whose
-- order stands for the order in which the map is iterated: theorems hold for any list. Times of
-- quotas are milliseconds.
--
-- Loops are structural recursion on lists and on the number of rounds or attempts that are left. The
-- loop that drives a run recurses on a list of rounds, which give what the world does in each turn:
-- the clock, the commands of other clients, the agents' answers. More rounds than the workflow has
-- iterations are enough. The worker of Progress recurses on the list of its reports.
--
-- Parameters. `serde_json::to_value` on a response and on a run, `serde_json::from_value` on
-- outputs, state and metadata, and the sorting of tool names are arguments of the definitions
-- that use them. A routing function is any function of its context. A tool executor and a hook
-- are records of what their methods return; the language model, the clock and drawn identifiers
-- are an `Environment`; the rendering of JSON, errors and numbers is a record of functions
-- (`Texts`), and so is the arithmetic of `f64` that the health reports use (`Floats`). The genai
-- crate is a record of operations (`Crate`) with a function that answers each call; its three
-- attempts are the fuel of the loop that makes them.
--
-- Not modelled: the channels between the actor and its handle (src/kernel/actor.rs, handle.rs),
-- logging and test support; in the files that are modelled, serialisation, random identifiers,
-- panics on empty identifiers, log messages, the tables of Unicode and the waiting between
-- attempts and between polls.
pub mod Prelude
pub mod Types
pub mod Json
pub mod Workflow
pub mod Run
pub mod Kernel
pub mod Tools
pub mod Agent
pub mod Tests
