-- ===== src/Kernel/Lifecycle/Machine.antt =====
-- The state machine `Ready → Running → Terminated` of a run record (src/kernel/lifecycle.rs).
use jeeves_core.Prelude.{
  ◌+◌, ◌≡◌, refl, sym, ap, ◌∙◌, ◌≢◌, ◌↔◌, inl, inr, false, ◌&&◌, Option, none, some, unwrap_or,
  List, [], ◌∷◌, length, filter, arith, All, ◌==◌, eq_iff, Bool-cases, Option-cases, if◌then◌else◌,
}
use jeeves_core.Prelude.Dict
use jeeves_core.Prelude.Dict.{Dict, values, length-values, All-insert, All-remove, All-get}
use jeeves_core.Types.{RunId, RequestId, UserId, SessionId, Timestamp, ok}
use jeeves_core.Kernel.Quota.{ResourceQuota}
use jeeves_core.Kernel.Lifecycle.{
  RunStatus, ready, running, terminated, same_status, RunRecord, RunRegistry, start, complete,
  new_record, create, run, terminate, new_registry, complete_open, is_terminal, get, count,
  count_by_state,
}

pub create_known :
    (now : Timestamp) (id : RunId) (request : RequestId) (user : UserId) (session : SessionId)
    (quota : Option ResourceQuota) (g : RunRegistry) {r : RunRecord}
    → get id g ≡ some r
    → create now id request user session quota g ≡ (ok r, g)
unfolding create
create_known now id request user session quota g e = rw (e, create) refl

-- `create` returns the record that the registry has for the run afterwards.
get-create :
    (now : Timestamp) (id : RunId) (request : RequestId) (user : UserId) (session : SessionId)
    (quota : Option ResourceQuota) (g : RunRegistry)
    → (r : RunRecord) × ((create now id request user session quota g).0 ≡ ok r)
      × (get id (create now id request user session quota g).1 ≡ some r)
unfolding create
get-create now id request user session quota g = elim (Option-cases (get id g)) [
  | inr (r, e) ↦ (r, rw (e, create) refl, rw (e, create) e)
  | inl e ↦
      let r = record (new_record now id request user session) {
        quota = unwrap_or g.default_quota quota;
      } in
      (r, rw (e, create) refl, rw (e, create) (Dict.get-insert_self g.records id r))
]

-- A second `create` of a run returns the record of the first, whatever else it is given, and
-- changes nothing.
pub create_again :
    (now now' : Timestamp) (id : RunId) (request request' : RequestId) (user user' : UserId)
    (session session' : SessionId) (quota quota' : Option ResourceQuota) (g : RunRegistry)
    → let first = create now id request user session quota g in
      create now' id request' user' session' quota' first.1 ≡ (first.0, first.1)
create_again now now' id request request' user user' session session' quota quota' g =
    let first = create now id request user session quota g in
    let c = get-create now id request user session quota g in
    create_known now' id request' user' session' quota' first.1 c.2
    ∙ ap (λ x. (x, first.1)) (sym c.1)

-- On a run that has a record, `run` succeeds exactly when the record is in `Ready`.
pub run_ok_iff :
    (now : Timestamp) (id : RunId) (g : RunRegistry) {r : RunRecord}
    → get id g ≡ some r
    → ((run now id g).0 ≡ ok tt) ↔ (r.state ≡ ready)
unfolding run
run_ok_iff now id g e = (λ h. ground arith, λ h. ground arith)

-- On a run that has a record, a `run` that finds it in `Ready` puts it into `Running`, with the
-- time of its start, and leaves the records of all other runs alone; one that does not find it in
-- `Ready` changes no record.
pub run_effect :
    (now : Timestamp) (id : RunId) (g : RunRegistry) {r : RunRecord}
    → get id g ≡ some r
    → (other : RunId)
    → get other (run now id g).1
      ≡ (if same_status r.state ready && id == other then some (start now r) else get other g)
unfolding run
run_effect now id g {r} e other =
    ground (arith, Dict.get-insert g.records id other (start now r), eq_iff id other)

complete_open-other :
    (now : Timestamp) (id other : RunId) (records : Dict RunRecord)
    → (id == other) ≡ false
    → Dict.get (complete_open now id records) other ≡ Dict.get records other
unfolding complete_open
complete_open-other now id other records h = elim (Option-cases (Dict.get records id)) [
  | inl e ↦ rw (e, complete_open) refl
  | inr (r, e) ↦
      rw (e, complete_open) (ground (arith, Dict.get-insert records id other (complete now r)))
]

-- `terminate` succeeds on every run, whether it has a record or not, and removes the record of
-- that run and no other.
pub terminate_effect :
    (now : Timestamp) (id : RunId) (g : RunRegistry) (other : RunId)
    → ((terminate now id g).0 ≡ ok tt)
      × (get other (terminate now id g).1 ≡ (if id == other then none else get other g))
unfolding terminate
terminate_effect now id g other = (
  refl,
  rw (Dict.get-remove (complete_open now id g.records) id other) (elim (Bool-cases (id == other)) [
    | inl e ↦ rw e refl
    | inr e ↦ rw e (complete_open-other now id other g.records e)
  ]),
)

-- No record of the registry is in `Terminated`.
abbrev pub NoZombie : RunRegistry → Type 0
NoZombie g = All (λ r. r.state ≢ terminated) (values g.records)

create-NoZombie :
    (now : Timestamp) (id : RunId) (request : RequestId) (user : UserId) (session : SessionId)
    (quota : Option ResourceQuota) (g : RunRegistry)
    → NoZombie g
    → NoZombie (create now id request user session quota g).1
unfolding create
create-NoZombie now id request user session quota g h = elim (Option-cases (get id g)) [
  | inr (r, e) ↦ rw (e, create) h
  | inl e ↦
      rw (e, create)
        (All-insert (λ (r : RunRecord). r.state ≢ terminated) g.records id _ h (λ p. cc))
]

run-NoZombie :
    (now : Timestamp) (id : RunId) (g : RunRegistry) → NoZombie g → NoZombie (run now id g).1
unfolding run
run-NoZombie now id g h = elim (Option-cases (get id g)) [
  | inl e ↦ rw (e, run) h
  | inr (r, e) ↦ elim (Bool-cases (same_status r.state ready)) [
    | inr k ↦ rw (e, run, k) h
    | inl k ↦
        rw (e, run, k)
          (All-insert (λ (r : RunRecord). r.state ≢ terminated) g.records id (start now r) h
            (λ p. cc))
  ]
]

remove-complete_open :
    (now : Timestamp) (id : RunId) (records : Dict RunRecord)
    → Dict.remove (complete_open now id records) id ≡ Dict.remove records id
unfolding complete_open
remove-complete_open now id records = elim (Option-cases (Dict.get records id)) [
  | inl e ↦ rw (e, complete_open) refl
  | inr (r, e) ↦ elim (Bool-cases (is_terminal r.state)) [
    | inl k ↦ rw (e, complete_open, k) refl
    | inr k ↦ rw (e, complete_open, k) (Dict.remove-insert_self records id (complete now r))
  ]
]

terminate-NoZombie :
    (now : Timestamp) (id : RunId) (g : RunRegistry) → NoZombie g → NoZombie (terminate now id g).1
unfolding terminate
terminate-NoZombie now id g h =
    rw (remove-complete_open now id g.records)
      (All-remove (λ (r : RunRecord). r.state ≢ terminated) g.records id h)

-- The ways a registry comes about.
pub data History (quota : Option ResourceQuota) : RunRegistry → Type 0 where
  empty : History quota (new_registry quota)
  created :
      {g : RunRegistry} (now : Timestamp) (id : RunId) (request : RequestId) (user : UserId)
      (session : SessionId) (own : Option ResourceQuota)
      → History quota g
      → History quota (create now id request user session own g).1
  ran :
      {g : RunRegistry} (now : Timestamp) (id : RunId)
      → History quota g
      → History quota (run now id g).1
  ended :
      {g : RunRegistry} (now : Timestamp) (id : RunId)
      → History quota g
      → History quota (terminate now id g).1

History-NoZombie : {quota : Option ResourceQuota} {g : RunRegistry} → History quota g → NoZombie g
History-NoZombie empty = tt
History-NoZombie (created {g = g} now id request user session own h) =
    create-NoZombie now id request user session own g (History-NoZombie h)
History-NoZombie (ran {g = g} now id h) = run-NoZombie now id g (History-NoZombie h)
History-NoZombie (ended {g = g} now id h) = terminate-NoZombie now id g (History-NoZombie h)

none_terminated :
    (rs : List RunRecord)
    → All (λ r. r.state ≢ terminated) rs
    → length (filter (λ r. same_status r.state terminated) rs) ≡ 0
unfolding filter
none_terminated [] h = refl
none_terminated (r ∷ rs) h = rw (status r.state h.0) (none_terminated rs h.1)
  where
    status : (s : RunStatus) → s ≢ terminated → same_status s terminated ≡ false
    status ready k = refl
    status running k = refl
    status terminated k = absurd (k refl)

-- The states partition the records.
counts_add :
    (rs : List RunRecord)
    → length (filter (λ r. same_status r.state ready) rs)
        + length (filter (λ r. same_status r.state running) rs)
        + length (filter (λ r. same_status r.state terminated) rs)
      ≡ length rs
unfolding filter
counts_add [] = refl
counts_add (r ∷ rs) = ground (arith, counts_add rs)

-- However a registry comes about, it has no record in `Terminated`, and every record is in
-- `Ready` or in `Running`.
no_zombies :
    {quota : Option ResourceQuota} {g : RunRegistry}
    → History quota g
    → (count_by_state terminated g ≡ 0)
      × (count_by_state ready g + count_by_state running g ≡ count g)
unfolding count_by_state
no_zombies {g = g} h =
    let z = none_terminated (values g.records) (History-NoZombie h) in
    (z, omega (arith, z, counts_add (values g.records), length-values g.records))
