-- ===== src/Kernel/Interrupts.antt =====
-- The interrupt service (src/kernel/interrupts.rs).
use jeeves_core.Prelude.{
  ℕ, ◌≡◌, refl, ap, ◌∙◌, Bool, true, false, Option, none, some, [], length, if◌then◌else◌,
}
use jeeves_core.Prelude.Dict
use jeeves_core.Prelude.Dict.{Dict}
use jeeves_core.Types.{RequestId, UserId, SessionId, EnvelopeId, InterruptId, Timestamp}
use jeeves_core.Run.{FlowInterrupt, InterruptResponse}

pub record PendingInterrupt : Type 0 where
  pub interrupt : FlowInterrupt
  pub request_id : RequestId
  pub user_id : UserId
  pub session_id : SessionId
  pub envelope_id : EnvelopeId
  pub registered_at : Timestamp

pub record InterruptService : Type 0 where
  pub pending : Dict PendingInterrupt
  pub resolved : Dict InterruptResponse

abbrev pub new : InterruptService
new = record { pending = []; resolved = [] }

unfoldable pub register_flow_interrupt :
    Timestamp
    → FlowInterrupt
    → RequestId
    → UserId
    → SessionId
    → EnvelopeId
    → InterruptService
    → InterruptService
register_flow_interrupt now i request_id user_id session_id envelope_id s = record s {
  pending = Dict.insert s.pending i.id (record {
    interrupt = i;
    request_id = request_id;
    user_id = user_id;
    session_id = session_id;
    envelope_id = envelope_id;
    registered_at = now;
  });
}

-- `InterruptId::must` cannot panic here: an identifier that is pending is not empty.
unfoldable pub resolve :
    InterruptId → InterruptResponse → InterruptService → Bool × InterruptService
resolve id response s =
    if Dict.contains_key s.pending id
    then (
      true,
      record { pending = Dict.remove s.pending id; resolved = Dict.insert s.resolved id response },
    )
    else (false, s)

abbrev pub get_pending : InterruptId → InterruptService → Option PendingInterrupt
get_pending id s = Dict.get s.pending id

abbrev pub get_response : InterruptId → InterruptService → Option InterruptResponse
get_response id s = Dict.get s.resolved id

abbrev pub pending_count : InterruptService → ℕ
pending_count s = length s.pending

pub resolve-known :
    (id : InterruptId) (response : InterruptResponse) (s : InterruptService) {p : PendingInterrupt}
    → get_pending id s ≡ some p
    → resolve id response s ≡ (
      true,
      record { pending = Dict.remove s.pending id; resolved = Dict.insert s.resolved id response },
    )
unfolding resolve
resolve-known id response s e = rw (e, resolve) refl

resolve-unknown :
    (id : InterruptId) (response : InterruptResponse) (s : InterruptService)
    → get_pending id s ≡ none
    → resolve id response s ≡ (false, s)
unfolding resolve
resolve-unknown id response s e = rw (e, resolve) refl

-- An interrupt that was registered is resolved once: the first answer is stored and is what
-- `get_response` yields, and a second answer to it is refused and changes nothing.
pub resolved_once :
    (now : Timestamp) (i : FlowInterrupt) (request : RequestId) (user : UserId)
    (session : SessionId) (envelope : EnvelopeId) (first second : InterruptResponse)
    (s : InterruptService)
    → let registered = register_flow_interrupt now i request user session envelope s in
      let answered = resolve i.id first registered in
      (answered.0 ≡ true)
      × (get_response i.id answered.1 ≡ some first)
      × (get_pending i.id answered.1 ≡ none)
      × (resolve i.id second answered.1 ≡ (false, answered.1))
unfolding register_flow_interrupt
resolved_once now i request user session envelope first second s =
    let registered = register_flow_interrupt now i request user session envelope s in
    let k = resolve-known i.id first registered (Dict.get-insert_self s.pending i.id _) in
    let gone = ap (λ x. get_pending i.id x.1) k ∙ Dict.get-remove_self registered.pending i.id in
    (
      ap (λ x. x.0) k,
      ap (λ x. get_response i.id x.1) k ∙ Dict.get-insert_self s.resolved i.id first,
      gone,
      resolve-unknown i.id second _ gone,
    )
