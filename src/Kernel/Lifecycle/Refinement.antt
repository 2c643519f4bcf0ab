-- ===== src/Kernel/Lifecycle/Refinement.antt =====
-- The registry of runs as a machine with one status for each run (src/kernel/lifecycle.rs). The
-- machine says what the registry promises; times, users, quotas and the map are not in it.
use mathlib.Core.Path.{fun_ext}
use jeeves_core.Prelude.{
  ◌≡◌, refl, sym, ap, ◌∙◌, inl, inr, Bool, true, false, not, Option, none, some, map_option,
  unwrap_or, List, [], ◌∷◌, arith, ◌==◌, eq_iff, Bool-cases, Option-cases, if◌then◌else◌,
}
use jeeves_core.Prelude.Dict
use jeeves_core.Types.{RunId, RequestId, UserId, SessionId, Timestamp, Result, ok, err}
use jeeves_core.Kernel.Quota.{ResourceQuota}
use jeeves_core.Kernel.Lifecycle.{
  RunStatus, ready, running, terminated, RunRecord, RunRegistry, start, create, run, terminate, get,
  same_status,
}
use jeeves_core.Kernel.Lifecycle.Machine.{create_known, terminate_effect}

-- The calls that change the registry.
pub data Call : Type 0 where
  create_call : Timestamp → RunId → RequestId → UserId → SessionId → Option ResourceQuota → Call
  run_call : Timestamp → RunId → Call
  terminate_call : Timestamp → RunId → Call

abbrev pub succeeded {ℓ} : {T : Type ℓ} → Result T → Bool
succeeded (ok t) = true
succeeded (err e) = false

-- Whether a call succeeds, and the registry after it.
unfoldable pub make_call : Call → RunRegistry → Bool × RunRegistry
make_call (create_call now id request user session quota) g =
    let r = create now id request user session quota g in (succeeded r.0, r.1)
make_call (run_call now id) g = let r = run now id g in (succeeded r.0, r.1)
make_call (terminate_call now id) g = let r = terminate now id g in (succeeded r.0, r.1)

unfoldable pub make_calls : List Call → RunRegistry → List Bool × RunRegistry
unfolding make_call
make_calls [] g = ([], g)
make_calls (c ∷ cs) g =
    let (b, g') = make_call c g in let (bs, g'') = make_calls cs g' in (b ∷ bs, g'')

-- The status of each run that there is.
abbrev pub Machine : Type 0
Machine = RunId → Option RunStatus

abbrev pub assign : RunId → Option RunStatus → Machine → Machine
assign id s m other = if id == other then s else m other

-- A run that is not ready cannot be started.
abbrev start_from : RunId → Option RunStatus → Machine → Bool × Machine
start_from id (some ready) m = (true, assign id (some running) m)
start_from id (some running) m = (false, m)
start_from id (some terminated) m = (false, m)
start_from id none m = (false, m)

-- A run is ready from its creation on, is running once it has been started, and is forgotten when
-- it is terminated.
unfoldable pub step : Call → Machine → Bool × Machine
step (create_call now id request user session quota) m =
    (true, assign id (some (unwrap_or ready (m id))) m)
step (run_call now id) m = start_from id (m id) m
step (terminate_call now id) m = (true, assign id none m)

unfoldable pub steps : List Call → Machine → List Bool × Machine
unfolding step
steps [] m = ([], m)
steps (c ∷ cs) m = let (b, m') = step c m in let (bs, m'') = steps cs m' in (b ∷ bs, m'')

-- The machine that a registry stands for.
abbrev pub status_of : RunRegistry → Machine
status_of g id = map_option (λ r. r.state) (get id g)

status_insert :
    (g : RunRegistry) (id : RunId) (r : RunRecord)
    → status_of (record g { records = Dict.insert g.records id r })
      ≡ assign id (some r.state) (status_of g)
status_insert g id r = fun_ext λ other. ground (arith, Dict.get-insert g.records id other r)

-- Assigning the status that a run has changes nothing.
assign_same :
    (g : RunRegistry) (id : RunId) (s : RunStatus)
    → status_of g id ≡ some s
    → status_of g ≡ assign id (some s) (status_of g)
assign_same g id s h = fun_ext λ other. elim (Bool-cases (id == other)) [
  | inl e ↦ rw e (ap (status_of g) (sym ((eq_iff id other).0 e)) ∙ h)
  | inr e ↦ rw e refl
]

create-step :
    (now : Timestamp) (id : RunId) (request : RequestId) (user : UserId) (session : SessionId)
    (quota : Option ResourceQuota) (g : RunRegistry)
    → let r = create now id request user session quota g in
      (succeeded r.0 ≡ true)
      × (status_of r.1 ≡ assign id (some (unwrap_or ready (status_of g id))) (status_of g))
unfolding create
create-step now id request user session quota g = elim (Option-cases (get id g)) [
  | inr (r, e) ↦
      rw (create_known now id request user session quota g e, e)
        (refl, assign_same g id r.state (ap (map_option (λ x. x.state)) e))
  | inl e ↦ rw (e, create) (refl, status_insert g id _)
]

-- The test on the state chooses as the machine does.
chosen :
    (id : RunId) (s : RunStatus) (m : Machine) (refused started : Result (Unit {0}) × RunRegistry)
    → (succeeded refused.0 ≡ false) × (status_of refused.1 ≡ m)
    → (succeeded started.0 ≡ true) × (status_of started.1 ≡ assign id (some running) m)
    → let r = if not (same_status s ready) then refused else started in
      (succeeded r.0 ≡ (start_from id (some s) m).0)
      × (status_of r.1 ≡ (start_from id (some s) m).1)
chosen id ready m refused started a b = b
chosen id running m refused started a b = a
chosen id terminated m refused started a b = a

run-step :
    (now : Timestamp) (id : RunId) (g : RunRegistry)
    → let r = run now id g in
      let s = start_from id (status_of g id) (status_of g) in
      (succeeded r.0 ≡ s.0) × (status_of r.1 ≡ s.1)
unfolding run
run-step now id g = elim (Option-cases (get id g)) [
  | inl e ↦ rw (e, run) (refl, refl)
  | inr (r, e) ↦
      rw (e, run)
        (chosen id r.state (status_of g) _ _ (refl, refl) (refl, status_insert g id (start now r)))
]

terminate-step :
    (now : Timestamp) (id : RunId) (g : RunRegistry)
    → (succeeded (terminate now id g).0 ≡ true)
      × (status_of (terminate now id g).1 ≡ assign id none (status_of g))
terminate-step now id g = (
  ap succeeded (terminate_effect now id g id).0,
  fun_ext λ other. elim (Bool-cases (id == other)) [
    | inl e ↦ rw e (ap (map_option (λ r. r.state)) (rw e at ((terminate_effect now id g other).1)))
    | inr e ↦ rw e (ap (map_option (λ r. r.state)) (rw e at ((terminate_effect now id g other).1)))
  ],
)

make_call-step :
    (c : Call) (g : RunRegistry)
    → ((make_call c g).0 ≡ (step c (status_of g)).0)
      × (status_of (make_call c g).1 ≡ (step c (status_of g)).1)
unfolding make_call step
make_call-step (create_call now id request user session quota) g =
    create-step now id request user session quota g
make_call-step (run_call now id) g = run-step now id g
make_call-step (terminate_call now id) g = terminate-step now id g

-- Any calls on a registry succeed and fail as they do on its machine, and leave a registry that
-- stands for the machine after the same calls: a run is created ready, once, is started only when
-- it is ready, and is gone when it is terminated.
pub make_calls_refines :
    (cs : List Call) (g : RunRegistry)
    → ((make_calls cs g).0 ≡ (steps cs (status_of g)).0)
      × (status_of (make_calls cs g).1 ≡ (steps cs (status_of g)).1)
unfolding make_calls steps
make_calls_refines [] g = (refl, refl)
make_calls_refines (c ∷ cs) g =
    let p = make_call-step c g in
    let (b, m) = make_calls_refines cs (make_call c g).1 in
    rw (← p.1, ← p.0) (ap (λ bs. (make_call c g).0 ∷ bs) b, m)
