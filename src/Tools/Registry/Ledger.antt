-- ===== src/Tools/Registry/Ledger.antt =====
-- The calls of tools over time (src/tools/registry.rs with src/tools/health.rs): the registry as a
-- ledger of all executions, of which its health tracker keeps a window.
use jeeves_core.Prelude.{
  ℕ, ◌≡◌, refl, sym, ap, ◌∙◌, inl, inr, true, false, Option, none, some, List, [], ◌∷◌, ◌++◌,
  Bool-cases, if◌then◌else◌,
}
use jeeves_core.Json.{Value}
use jeeves_core.Types.{
  AgentName, ToolName, Timestamp, Piece, plain, not_found, Error, Result, ok, err, ok_or, ◌>>◌,
  Result-cases,
}
use jeeves_core.Tools.Executor.{ToolOutput}
use jeeves_core.Tools.Health.{
  HealthConfig, ExecutionRecord, ToolHealthTracker, record_execution, should_circuit_break,
}
use jeeves_core.Tools.Health
use jeeves_core.Tools.Health.Breaker.{Trace, record_trace, only, breaks, should_circuit_break_exact}
use jeeves_core.Tools.Registry.{
  ToolRegistry, get, check_policy, check_catalog, check_circuit, admit, is_ok, error_type,
  record_outcome, execute_for,
}

-- A call, with the clock when it is admitted, when it has ended, and the time between.
pub record Invocation : Type 0 where
  pub now : Timestamp
  pub finished : Timestamp
  pub elapsed_ms : ℕ
  pub agent : AgentName
  pub name : ToolName
  pub params : Value

-- Calls that come one after the other.
unfoldable pub execute_all :
    List Invocation → ToolRegistry → List (Result ToolOutput) × ToolRegistry
unfolding execute_for
execute_all [] r = ([], r)
execute_all (i ∷ is) r =
    let (x, r') = execute_for i.now i.finished i.elapsed_ms i.agent i.name i.params r in
    let (xs, r'') = execute_all is r' in (x ∷ xs, r'')

-- The execution that a result is recorded as.
abbrev pub entry : Invocation → Result ToolOutput → ExecutionRecord
entry i x = record {
  success = is_ok x;
  latency_ms = i.elapsed_ms;
  timestamp = i.finished;
  error_type = error_type x;
}

-- The registry with a tracker that has seen a ledger's executions.
abbrev pub tracking : HealthConfig → Trace → ToolRegistry → ToolRegistry
tracking c ledger r = record r { health = some (record_trace ledger (Health.new c)) }

-- What a ledger promises: a call that policy, catalog and registration let through is executed and
-- written down, unless the executions of its tool so far break its circuit; `none` is a refusal.
unfoldable pub enter :
    HealthConfig → ToolRegistry → Invocation → Trace → Option (Result ToolOutput) × Trace
enter c r i ledger = elim (admit i.now i.agent i.name i.params (record r { health = none })) [
  | err e ↦ (none, ledger)
  | ok x ↦
      let result = x.execute i.name i.params in
      if breaks i.now c (only i.name ledger)
      then (none, ledger)
      else (some result, ledger ++ (i.name, entry i result) ∷ [])
]

unfoldable pub enter_all :
    HealthConfig
    → ToolRegistry
    → List Invocation
    → Trace
    → List (Option (Result ToolOutput)) × Trace
unfolding enter
enter_all c r [] ledger = ([], ledger)
enter_all c r (i ∷ is) ledger =
    let (x, ledger') = enter c r i ledger in
    let (xs, ledger'') = enter_all c r is ledger' in (x ∷ xs, ledger'')

-- A refusal is an error, and what is executed is returned.
abbrev pub Agrees : Result ToolOutput → Option (Result ToolOutput) → Type 0
Agrees x none = (e : Error) × (x ≡ err e)
Agrees x (some y) = x ≡ y

abbrev pub AllAgree : List (Result ToolOutput) → List (Option (Result ToolOutput)) → Type 0
AllAgree [] [] = Unit
AllAgree [] (y ∷ ys) = ⊥
AllAgree (x ∷ xs) [] = ⊥
AllAgree (x ∷ xs) (y ∷ ys) = Agrees x y × AllAgree xs ys

record_trace-append :
    (ledger : Trace) (name : ToolName) (e : ExecutionRecord) (t : ToolHealthTracker)
    → record_trace (ledger ++ (name, e) ∷ []) t
      ≡ record_execution e.timestamp name e.success e.latency_ms e.error_type
          (record_trace ledger t)
unfolding record_trace
record_trace-append [] name e t = refl
record_trace-append ((tool, f) ∷ ledger) name e t = record_trace-append ledger name e _

-- With an open circuit a chain of gates ends in an error, and with a closed one as without it.
chain_open :
    {T : Type 0} (policy catalog : Result (Unit {0})) (e : Error) (get : Result T)
    → (x : Error) × ((policy >> (catalog >> (err e >> get))) ≡ err x)
chain_open (err p) catalog e get = (p, refl)
chain_open (ok u) (err c) e get = (c, refl)
chain_open (ok u) (ok v) e get = (e, refl)

module _ (c : HealthConfig) (r : ToolRegistry) (i : Invocation) (ledger : Trace) where
  admit_open :
      breaks i.now c (only i.name ledger) ≡ true
      → (e : Error) × (admit i.now i.agent i.name i.params (tracking c ledger r) ≡ err e)
  unfolding admit check_circuit
  admit_open b =
      rw (should_circuit_break_exact i.now i.name ledger c, b)
        (chain_open (check_policy r.access_policy i.agent i.name)
          (check_catalog r.catalog i.name i.params) _
          (ok_or (get i.name r) (not_found (Piece.text "Tool not found: " ∷ plain i.name))))

  admit_closed :
      breaks i.now c (only i.name ledger) ≡ false
      → admit i.now i.agent i.name i.params (tracking c ledger r)
        ≡ admit i.now i.agent i.name i.params (record r { health = none })
  unfolding admit check_circuit
  admit_closed b = rw (should_circuit_break_exact i.now i.name ledger c, b) refl

  abbrev attempt : Result ToolOutput × ToolRegistry
  attempt = execute_for i.now i.finished i.elapsed_ms i.agent i.name i.params (tracking c ledger r)

  -- One call does what the ledger promises.
  execute_for-enter :
      Agrees attempt.0 (enter c r i ledger).0 × (attempt.1 ≡ tracking c (enter c r i ledger).1 r)
  unfolding execute_for record_outcome enter record_trace
  execute_for-enter =
      let gates = admit i.now i.agent i.name i.params (record r { health = none }) in
      elim (Bool-cases (breaks i.now c (only i.name ledger))) [
        | inl b ↦
            let (e, q) = admit_open b in
            elim (Result-cases gates) [
              | inr (f, a) ↦ rw (execute_for, q, enter, a) ((e, refl), refl)
              | inl (x, a) ↦ rw (execute_for, q, enter, a, b) ((e, refl), refl)
            ]
        | inr b ↦ elim (Result-cases gates) [
          | inr (f, a) ↦ rw (execute_for, admit_closed b ∙ a, enter, a) ((f, refl), refl)
          | inl (x, a) ↦
              let result = x.execute i.name i.params in
              let seen = record_trace-append ledger i.name (entry i result) (Health.new c) in
              rw (execute_for, admit_closed b ∙ a, enter, a, b)
                (refl, ap (λ t. record r { health = some t }) (sym seen))
        ]
      ]

-- Calls of tools, by any agents and one after the other, on a registry whose tracker has seen the
-- executions of a ledger: a call is executed exactly when policy, catalog and registration let it
-- through and the executions of its tool in the ledger do not break its circuit; else it returns an
-- error. The tracker keeps a window, and yet the registry behaves as if it had the whole ledger, and
-- the ledger has exactly one entry more for each call that was executed, with its outcome.
pub execute_all_refines :
    (c : HealthConfig) (r : ToolRegistry) (is : List Invocation) (ledger : Trace)
    → AllAgree (execute_all is (tracking c ledger r)).0 (enter_all c r is ledger).0
      × ((execute_all is (tracking c ledger r)).1 ≡ tracking c (enter_all c r is ledger).1 r)
unfolding execute_all enter_all
execute_all_refines c r [] ledger = (tt, refl)
execute_all_refines c r (i ∷ is) ledger =
    let (agree, next) = execute_for-enter c r i ledger in
    let (agrees, final) = execute_all_refines c r is (enter c r i ledger).1 in
    rw next ((agree, agrees), final)
