-- ===== src/Run.antt =====
-- The state of a request (src/run: mod.rs, types.rs, enums.rs).
-- The clock and the generator of identifiers are arguments; `none` in the place of a termination
-- message is the source's `None`. Serialisation attributes are not modelled.
pub mod Updates
pub mod Validity
pub mod Events
pub mod Suspension
use jeeves_core.Prelude.{
  String, Bool, true, false, not, ◌&&◌, Option, none, some, is_some, map_option, List, [], ◌∷◌,
  ◌++◌, ◌==◌, if◌then◌else◌,
}
use jeeves_core.Prelude.Int.{ℤ, pos, ltb_ℤ, leb_ℤ}
use jeeves_core.Prelude.Dict
use jeeves_core.Prelude.Dict.{Dict}
use jeeves_core.Json.{Value, Fields, string, object, field, end}
use jeeves_core.Types.{
  EnvelopeId, RequestId, UserId, SessionId, InterruptId, StageName, is_empty, Timestamp, Message,
  text, plain, validation, Result, ok, ◌>>◌, reject_if,
}

pub data TerminalReason : Type 0 where
  completed max_iterations_exceeded max_llm_calls_exceeded : TerminalReason
  max_agent_hops_exceeded max_stage_visits_exceeded user_cancelled : TerminalReason
  tool_failed_fatally llm_failed_fatally policy_violation break_requested : TerminalReason

unfoldable pub outcome : TerminalReason → String
outcome TerminalReason.completed = "completed"
outcome TerminalReason.break_requested = "completed"
outcome TerminalReason.max_iterations_exceeded = "bounds_exceeded"
outcome TerminalReason.max_llm_calls_exceeded = "bounds_exceeded"
outcome TerminalReason.max_agent_hops_exceeded = "bounds_exceeded"
outcome TerminalReason.max_stage_visits_exceeded = "bounds_exceeded"
outcome _ = "failed"

pub record InterruptResponse : Type 0 where
  pub text : Option String
  pub approved : Option Bool
  pub decision : Option String
  pub content : Option (Dict Value)
  pub received_at : Timestamp

-- The source's field `data` is `content` here and above.
pub record FlowInterrupt : Type 0 where
  pub id : InterruptId
  pub question : Option String
  pub message : Option String
  pub content : Option (Dict Value)
  pub response : Option InterruptResponse
  pub created_at : Timestamp
  pub expires_at : Option Timestamp

pub data ProcessingStatus : Type 0 where
  running success error skipped : ProcessingStatus

pub record ProcessingRecord : Type 0 where
  pub agent : String
  pub stage_order : ℤ
  pub started_at : Timestamp
  pub completed_at : Option Timestamp
  pub duration_ms : ℤ
  pub status : ProcessingStatus
  pub error_text : Option String
  pub llm_calls : ℤ
  pub tool_calls : ℤ
  pub tokens_in : ℤ
  pub tokens_out : ℤ

pub record Identity : Type 0 where
  pub envelope_id : EnvelopeId
  pub request_id : RequestId
  pub user_id : UserId
  pub session_id : SessionId

pub record Termination : Type 0 where
  pub reason : TerminalReason
  pub message : Option Message

pub record Limits : Type 0 where
  pub max_llm_calls : ℤ
  pub max_agent_hops : ℤ

pub record Metrics : Type 0 where
  pub llm_calls : ℤ
  pub tool_calls : ℤ
  pub agent_hops : ℤ
  pub tokens_in : ℤ
  pub tokens_out : ℤ

pub record InterruptState : Type 0 where
  pub interrupt : Option FlowInterrupt

abbrev pub is_pending : InterruptState → Bool
is_pending s = is_some s.interrupt

pub record Audit : Type 0 where
  pub processing_history : List ProcessingRecord
  pub created_at : Timestamp
  pub completed_at : Option Timestamp
  pub metadata : Dict Value

pub record Run : Type 0 where
  pub identity : Identity
  pub raw_input : String
  pub received_at : Timestamp
  pub outputs : Dict (Dict Value)
  pub state : Dict Value
  pub current_stage : StageName
  pub stage_order : List StageName
  pub iteration : ℤ
  pub max_iterations : ℤ
  pub limits : Limits
  pub metrics : Metrics
  pub termination : Option Termination
  pub interrupts : InterruptState
  pub audit : Audit

-- The entries of a JSON object, inserted one after the other.
unfoldable pub insert_all : Dict Value → Fields → Dict Value
insert_all d end = d
insert_all d (field k v fs) = insert_all (Dict.insert d k v) fs

initial_metadata : Option Value → Dict Value
initial_metadata (some (object fs)) = insert_all [] fs
initial_metadata _ = []

-- `Run::new`; the generated identifiers are the arguments `envelope_id` and `request_id`. The
-- panic of `UserId::must` on an empty text is not modelled.
unfoldable pub new :
    (now : Timestamp) (envelope_id : EnvelopeId) (request_id : RequestId)
    → UserId
    → SessionId
    → String
    → Option Value
    → Run
unfolding initial_metadata insert_all
new now envelope_id request_id user_id session_id raw_input metadata = record {
  identity = record {
    envelope_id = envelope_id;
    request_id = request_id;
    user_id = user_id;
    session_id = session_id;
  };
  raw_input = raw_input;
  received_at = now;
  outputs = [];
  state = [];
  current_stage = "";
  stage_order = [];
  iteration = pos 0;
  max_iterations = pos 100;
  limits = record { max_llm_calls = pos 100; max_agent_hops = pos 100 };
  metrics = record {
    llm_calls = pos 0;
    tool_calls = pos 0;
    agent_hops = pos 0;
    tokens_in = pos 0;
    tokens_out = pos 0;
  };
  termination = none;
  interrupts = record { interrupt = none };
  audit = record {
    processing_history = [];
    created_at = now;
    completed_at = none;
    metadata = initial_metadata metadata;
  };
}

unfoldable pub check_bounds : Run → Option TerminalReason
check_bounds r =
    if leb_ℤ r.limits.max_llm_calls r.metrics.llm_calls
    then some max_llm_calls_exceeded
    else if leb_ℤ r.max_iterations r.iteration
    then some max_iterations_exceeded
    else if leb_ℤ r.limits.max_agent_hops r.metrics.agent_hops
    then some max_agent_hops_exceeded
    else none

unfoldable pub at_limit : Run → Bool
unfolding check_bounds
at_limit r = is_some (check_bounds r)

abbrev pub is_terminated : Run → Bool
is_terminated r = is_some r.termination

abbrev pub terminal_reason : Run → Option TerminalReason
terminal_reason r = map_option (λ t. t.reason) r.termination

abbrev pub terminate_with : TerminalReason → Option Message → Run → Run
terminate_with reason message r = record r {
  termination = some (record { reason = reason; message = message });
}

unfoldable pub add_processing_record : ProcessingRecord → Run → Run
add_processing_record p r = record r {
  audit = record r.audit { processing_history = r.audit.processing_history ++ p ∷ [] };
}

unfoldable pub complete : Timestamp → String → Run → Run
complete now reason r =
    let t = terminate_with TerminalReason.completed (some (plain reason)) r in
    record t { audit = record t.audit { completed_at = some now } }

abbrev pub set_interrupt : FlowInterrupt → Run → Run
set_interrupt i r = record r { interrupts = record { interrupt = some i } }

abbrev pub clear_interrupt : Run → Run
clear_interrupt r = record r { interrupts = record { interrupt = none } }

unfoldable pub contains_stage : List StageName → StageName → Bool
contains_stage [] a = false
contains_stage (x ∷ xs) a = if x == a then true else contains_stage xs a

unfoldable pub has_stages : List StageName → Bool
has_stages [] = false
has_stages (x ∷ xs) = true

unfoldable pub negative : ℤ → Bool
negative z = ltb_ℤ z (pos 0)

unfoldable pub not_positive : ℤ → Bool
not_positive z = leb_ℤ z (pos 0)

unfoldable pub validate : Run → Result (Unit {0})
unfolding contains_stage has_stages negative not_positive
validate r = do
  reject_if (is_empty r.identity.envelope_id) (validation (plain "envelope_id must not be empty"))
  reject_if (is_empty r.identity.request_id) (validation (plain "request_id must not be empty"))
  reject_if (is_empty r.identity.user_id) (validation (plain "user_id must not be empty"))
  reject_if (is_empty r.identity.session_id) (validation (plain "session_id must not be empty"))
  reject_if (negative r.metrics.llm_calls)
      (validation (plain "bounds.llm_call_count must be non-negative"))
  reject_if (negative r.metrics.tool_calls)
      (validation (plain "bounds.tool_call_count must be non-negative"))
  reject_if (negative r.metrics.agent_hops)
      (validation (plain "bounds.agent_hop_count must be non-negative"))
  reject_if (not_positive r.limits.max_llm_calls)
      (validation (plain "bounds.max_llm_calls must be positive"))
  reject_if (not_positive r.limits.max_agent_hops)
      (validation (plain "bounds.max_agent_hops must be positive"))
  reject_if (has_stages r.stage_order && not (contains_stage r.stage_order r.current_stage)) (
      validation
        (text "workflow.current_stage '" ∷ text r.current_stage ∷ text "' not in stage_order" ∷ []))
  reject_if (not_positive r.max_iterations)
      (validation (plain "workflow.max_iterations must be positive"))
  ok tt
