-- ===== src/Run/Suspension.antt =====
-- The builders of a flow interrupt (src/run/types.rs). The identifier that `new` draws and the
-- instants it reads are arguments.
use jeeves_core.Prelude.{String, none, some}
use jeeves_core.Prelude.Int.{ℤ, ◌+ℤ◌}
use jeeves_core.Prelude.Dict.{Dict}
use jeeves_core.Json.{Value}
use jeeves_core.Types.{InterruptId, Timestamp}
use jeeves_core.Run.{FlowInterrupt}

abbrev pub new : InterruptId → Timestamp → FlowInterrupt
new id now = record {
  id = id;
  question = none;
  message = none;
  content = none;
  response = none;
  created_at = now;
  expires_at = none;
}

abbrev pub with_question : String → FlowInterrupt → FlowInterrupt
with_question q i = record i { question = some q }

abbrev pub with_message : String → FlowInterrupt → FlowInterrupt
with_message m i = record i { message = some m }

abbrev pub with_data : Dict Value → FlowInterrupt → FlowInterrupt
with_data d i = record i { content = some d }

-- The duration is one that `chrono` can hold.
unfoldable pub with_expiry : Timestamp → ℤ → FlowInterrupt → FlowInterrupt
with_expiry now duration i = record i { expires_at = some (now +ℤ duration) }
