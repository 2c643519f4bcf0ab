-- ===== src/Tools/Executor.antt =====
-- Tool executors (src/tools/executor.rs). An executor is the repository's user's code behind the
-- trait `ToolExecutor`: a record of what its three methods return. `execute` stands for the
-- outcome of the call that is made. The rendering of a set in a message is left out, and the
-- base64 form of a blob on the wire is not modelled.
use jeeves_core.Prelude.{ℕ, String, Option, none, List, [], ◌∷◌, filter, if◌then◌else◌}
use jeeves_core.Json.{Value}
use jeeves_core.Types.{ToolName, Piece, plain, policy_violation, not_found, Result, err}
use jeeves_core.Workflow.{contains}

pub record ToolInfo : Type 0 where
  pub name : ToolName
  pub description : String
  pub parameters : Value

pub data ContentPart : Type 0 where
  text : String → ContentPart
  ref : String → String → ContentPart
  blob : String → List ℕ → ContentPart

pub record ToolOutput : Type 0 where
  pub data_value : Value
  pub content : List ContentPart

abbrev pub json : Value → ToolOutput
json v = record { data_value = v; content = [] }

abbrev pub with_content : Value → List ContentPart → ToolOutput
with_content v parts = record { data_value = v; content = parts }

pub record ConfirmationRequest : Type 0 where
  pub message : String
  pub action_data : Option Value

-- The trait.
pub record ToolExecutor : Type 0 where
  pub execute : ToolName → Value → Result ToolOutput
  pub list_tools : List ToolInfo
  pub requires_confirmation : ToolName → Value → Option ConfirmationRequest

-- The trait's default for `requires_confirmation`.
abbrev pub no_confirmation : ToolName → Value → Option ConfirmationRequest
no_confirmation name params = none

pub record AclToolExecutor : Type 0 where
  pub inner : ToolExecutor
  pub allowed : List ToolName

abbrev pub new : ToolExecutor → List ToolName → AclToolExecutor
new inner allowed = record { inner = inner; allowed = allowed }

-- `execute`, `list_tools` and `requires_confirmation` of the wrapper.
unfoldable pub acl_execute : AclToolExecutor → ToolName → Value → Result ToolOutput
acl_execute a name params =
    if contains a.allowed name
    then a.inner.execute name params
    else err (
        policy_violation (Piece.text "Tool '" ∷ Piece.text name ∷ plain "' not in allowed_tools: "))

unfoldable pub acl_list_tools : AclToolExecutor → List ToolInfo
unfolding filter
acl_list_tools a = filter (λ t. contains a.allowed t.name) a.inner.list_tools

unfoldable pub acl_requires_confirmation :
    AclToolExecutor → ToolName → Value → Option ConfirmationRequest
acl_requires_confirmation a name params =
    if contains a.allowed name then a.inner.requires_confirmation name params else none

-- The wrapper as an executor.
abbrev pub acl_executor : AclToolExecutor → ToolExecutor
acl_executor a = record {
  execute = acl_execute a;
  list_tools = acl_list_tools a;
  requires_confirmation = acl_requires_confirmation a;
}

-- `NoopToolExecutor`.
abbrev pub noop_executor : ToolExecutor
noop_executor = record {
  execute =
      λ name params. err (not_found (Piece.text "No tool executor registered for: " ∷ plain name));
  list_tools = [];
  requires_confirmation = no_confirmation;
}
