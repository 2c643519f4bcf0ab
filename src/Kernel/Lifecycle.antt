-- ===== src/Kernel/Lifecycle.antt =====
-- Run records and their registry (src/kernel: types.rs for `RunStatus` and `RunRecord`,
-- lifecycle.rs). `now` is the clock as the call reads it.
pub mod Machine
pub mod Refinement
use jeeves_core.Prelude.{
  ℕ, String, ◌≡◌, Bool, true, false, not, ◌&&◌, Option, none, some, unwrap_or, List, [], ◌∷◌,
  length, filter, map, ◌==◌, if◌then◌else◌,
}
use jeeves_core.Prelude.Int.{ℤ, pos}
use jeeves_core.Prelude.Dict
use jeeves_core.Prelude.Dict.{Dict, values}
use jeeves_core.Types.{
  RunId, RequestId, UserId, SessionId, InterruptId, Timestamp, text, not_found, state_transition,
  Result, ok, err,
}
use jeeves_core.Kernel.Quota.{ResourceQuota}

pub data RunStatus : Type 0 where
  ready running terminated : RunStatus

abbrev pub is_terminal : RunStatus → Bool
is_terminal terminated = true
is_terminal _ = false

-- `==` of two states.
abbrev pub same_status : RunStatus → RunStatus → Bool
same_status ready ready = true
same_status running running = true
same_status terminated terminated = true
same_status _ _ = false

-- `{:?}` of a state.
abbrev status_name : RunStatus → String
status_name ready = "Ready"
status_name running = "Running"
status_name terminated = "Terminated"

pub record RunRecord : Type 0 where
  pub run_id : RunId
  pub request_id : RequestId
  pub user_id : UserId
  pub session_id : SessionId
  pub state : RunStatus
  pub quota : ResourceQuota
  pub created_at : Timestamp
  pub started_at : Option Timestamp
  pub completed_at : Option Timestamp
  pub pending_interrupt : Option InterruptId

abbrev pub new_record : Timestamp → RunId → RequestId → UserId → SessionId → RunRecord
new_record now run_id request_id user_id session_id = record {
  run_id = run_id;
  request_id = request_id;
  user_id = user_id;
  session_id = session_id;
  state = ready;
  quota = jeeves_core.Kernel.Quota.default_quota;
  created_at = now;
  started_at = none;
  completed_at = none;
  pending_interrupt = none;
}

abbrev pub start : Timestamp → RunRecord → RunRecord
start now r = record r { state = running; started_at = some now }

abbrev pub complete : Timestamp → RunRecord → RunRecord
complete now r = record r { state = terminated; completed_at = some now }

pub record RunRegistry : Type 0 where
  pub default_quota : ResourceQuota
  pub records : Dict RunRecord

abbrev pub new_registry : Option ResourceQuota → RunRegistry
new_registry quota = record {
  default_quota = unwrap_or jeeves_core.Kernel.Quota.default_quota quota;
  records = [];
}

unfoldable pub create :
    Timestamp
    → RunId
    → RequestId
    → UserId
    → SessionId
    → Option ResourceQuota
    → RunRegistry
    → Result RunRecord × RunRegistry
create now run_id request_id user_id session_id quota g = elim (Dict.get g.records run_id) [
  | some existing ↦ (ok existing, g)
  | none ↦
      let r = record (new_record now run_id request_id user_id session_id) {
        quota = unwrap_or g.default_quota quota;
      } in
      (ok r, record g { records = Dict.insert g.records run_id r })
]

unfoldable pub run : Timestamp → RunId → RunRegistry → Result (Unit {0}) × RunRegistry
run now run_id g = elim (Dict.get g.records run_id) [
  | none ↦ (err (not_found (text "unknown run_id: " ∷ text run_id ∷ [])), g)
  | some r ↦
      if not (same_status r.state ready)
      then (
        err (
            state_transition (
              text "cannot run "
              ∷ text run_id
              ∷ text ": state is "
              ∷ text (status_name r.state)
              ∷ text ", expected Ready"
              ∷ [])),
        g,
      )
      else (ok tt, record g { records = Dict.insert g.records run_id (start now r) })
]

-- `if !record.state.is_terminal() { record.complete() }`, on the record that is then removed.
complete_open : Timestamp → RunId → Dict RunRecord → Dict RunRecord
complete_open now run_id records = elim (Dict.get records run_id) [
  | none ↦ records
  | some r ↦
      if not (is_terminal r.state) then Dict.insert records run_id (complete now r) else records
]

unfoldable pub terminate : Timestamp → RunId → RunRegistry → Result (Unit {0}) × RunRegistry
unfolding complete_open
terminate now run_id g =
    (ok tt, record g { records = Dict.remove (complete_open now run_id g.records) run_id })

abbrev pub get : RunId → RunRegistry → Option RunRecord
get run_id g = Dict.get g.records run_id

abbrev pub list : RunRegistry → List RunRecord
list g = values g.records

abbrev pub count : RunRegistry → ℕ
count g = length g.records

unfoldable pub count_by_state : RunStatus → RunRegistry → ℕ
count_by_state s g = length (filter (λ r. same_status r.state s) (values g.records))

-- The set of users as the list of their names, with repetitions.
unfoldable pub get_active_user_ids : RunRegistry → List UserId
get_active_user_ids g =
    map (λ r. r.user_id) (filter (λ r. not (is_terminal r.state)) (values g.records))
