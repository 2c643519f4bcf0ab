-- ===== src/Tools/Registry/Gates.antt =====
-- The gates around the execution of a tool (src/tools/registry.rs).
use jeeves_core.Prelude.{
  ℕ, ◌≡◌, refl, sym, ap, ◌∙◌, ◌↔◌, ◌⊎◌, inl, inr, true, false, Option, none, some, map_option, List,
  [], ◌∷◌, Bool-cases,
}
use jeeves_core.Json.{Value}
use jeeves_core.Types.{
  AgentName, ToolName, Timestamp, Message, Error, Result, ok, err, ok_or, ok_or-ok, ◌>>=◌, ◌>>◌,
  >>-eq-ok, >>=-eq-ok, Result-cases,
}
use jeeves_core.Workflow.Validity.Checks.{iff_trans, and_iff, reject_if-ok}
use jeeves_core.Tools.Access.{ToolAccessPolicy, check_access}
use jeeves_core.Tools.Catalog.{ToolCatalog, has_tool, validate_params}
use jeeves_core.Tools.Catalog.Calls.{Accepts, validate_params_iff}
use jeeves_core.Tools.Health.{ToolHealthTracker, should_circuit_break, record_execution}
use jeeves_core.Tools.Executor.{ToolExecutor}
use jeeves_core.Tools.Registry.{
  ToolRegistry, get, check_policy, check_catalog, reject_errors, check_circuit, admit, is_ok,
  error_type, record_outcome, execute_for,
}

-- The policy grants the agent the tool; without a policy every agent has every tool.
abbrev pub Granted : Option ToolAccessPolicy → AgentName → ToolName → Type 0
Granted none agent name = Unit
Granted (some p) agent name = check_access agent name p ≡ true

-- A tool that stands in the catalog gets parameters that fit its definitions.
abbrev pub Fitting : Option ToolCatalog → ToolName → Value → Type 0
Fitting none name params = Unit
Fitting (some c) name params = has_tool name c ≡ true → Accepts c name params

abbrev pub Closed : Timestamp → Option ToolHealthTracker → ToolName → Type 0
Closed now none name = Unit
Closed now (some h) name = should_circuit_break now name h ≡ false

-- The gates let the call through to the executor x.
abbrev pub Admitted :
    Timestamp → AgentName → ToolName → Value → ToolRegistry → ToolExecutor → Type 0
Admitted now agent name params r x =
    Granted r.access_policy agent name
    × Fitting r.catalog name params
    × Closed now r.health name
    × (get name r ≡ some x)

check_policy_iff :
    (o : Option ToolAccessPolicy) (agent : AgentName) (name : ToolName)
    → (check_policy o agent name ≡ ok tt) ↔ Granted o agent name
unfolding check_policy
check_policy_iff none agent name = (λ h. tt, λ h. refl)
check_policy_iff (some p) agent name = elim (Bool-cases (check_access agent name p)) [
  | inl e ↦ rw e (λ h. refl, λ h. refl)
  | inr e ↦ rw e (λ h. cc, λ h. cc)
]

reject_errors_iff :
    (name : ToolName) (es : List Message) → (reject_errors name es ≡ ok tt) ↔ (es ≡ [])
reject_errors_iff name [] = (λ h. refl, λ h. refl)
reject_errors_iff name (e ∷ es) = (λ h. cc, λ h. cc)

check_catalog_iff :
    (o : Option ToolCatalog) (name : ToolName) (params : Value)
    → (check_catalog o name params ≡ ok tt) ↔ Fitting o name params
unfolding check_catalog
check_catalog_iff none name params = (λ h. tt, λ h. refl)
check_catalog_iff (some c) name params = elim (Bool-cases (has_tool name c)) [
  | inl e ↦ rw e (λ h _. (validate_params_iff c name params).0 (sound h), λ h. complete (h refl))
  | inr e ↦ rw e (λ h q. cc, λ h. refl)
]
  where
    sound :
        (validate_params name params c >>= reject_errors name) ≡ ok tt
        → validate_params name params c ≡ ok []
    sound h =
        let p = >>=-eq-ok (validate_params name params c) (reject_errors name) h in
        p.1 ∙ ap (λ es. ok es) ((reject_errors_iff name p.0).0 p.2)

    complete :
        Accepts c name params → (validate_params name params c >>= reject_errors name) ≡ ok tt
    complete h = rw ((validate_params_iff c name params).1 h) refl

check_circuit_iff :
    (now : Timestamp) (o : Option ToolHealthTracker) (name : ToolName)
    → (check_circuit now o name ≡ ok tt) ↔ Closed now o name
unfolding check_circuit
check_circuit_iff now none name = (λ h. tt, λ h. refl)
check_circuit_iff now (some h) name = reject_if-ok _ _

>>-iff {ℓ} :
    {T : Type ℓ} (m : Result (Unit {0})) (k : Result T) (t : T)
    → ((m >> k) ≡ ok t) ↔ ((m ≡ ok tt) × (k ≡ ok t))
>>-iff m k t = (>>-eq-ok m k, λ h. rw h.0 h.1)

ok_or_iff : {A : Type 0} (o : Option A) (e : Error) (a : A) → (ok_or o e ≡ ok a) ↔ (o ≡ some a)
ok_or_iff o e a = (ok_or-ok o e, λ h. rw h refl)

-- A call of a tool reaches an executor exactly when the access policy grants the tool to the
-- agent, the parameters fit the catalog's definition of the tool, the tool's circuit is closed and
-- the executor is registered under the name; a gate that is not attached lets every call pass, and
-- so does the catalog for a tool that it does not list.
pub admit_iff :
    (now : Timestamp) (agent : AgentName) (name : ToolName) (params : Value) (r : ToolRegistry)
    (x : ToolExecutor)
    → (admit now agent name params r ≡ ok x) ↔ Admitted now agent name params r x
unfolding admit
admit_iff now agent name params r x = iff_trans (>>-iff _ _ x) (
    iff_trans
      (and_iff (check_policy_iff r.access_policy agent name) (
        iff_trans (>>-iff _ _ x) (
          and_iff (check_catalog_iff r.catalog name params) (
            iff_trans (>>-iff _ _ x)
              (and_iff (check_circuit_iff now r.health name) (ok_or_iff (get name r) _ x))))))
      (λ h. (h.0, h.1.0, h.1.1.0, h.1.1.1), λ h. (h.0, (h.1, (h.2, h.3)))))

-- A call either reaches an executor that the gates admit, returns what the executor returns and
-- records in the health tracker one execution of the tool with its outcome, or the gates admit no
-- executor and the call returns an error and leaves the registry as it was.
execute_for_cases :
    (now finished : Timestamp) (elapsed_ms : ℕ) (agent : AgentName) (name : ToolName)
    (params : Value) (r : ToolRegistry)
    → ((x : ToolExecutor) × Admitted now agent name params r x
        × (execute_for now finished elapsed_ms agent name params r ≡ (
          x.execute name params,
          record r {
            health =
                map_option
                  (record_execution finished name
                    (is_ok (x.execute name params))
                    elapsed_ms
                    (error_type (x.execute name params)))
                  r.health;
          },
        )))
      ⊎ ((e : Error) × (¬ ((x : ToolExecutor) × Admitted now agent name params r x))
          × (execute_for now finished elapsed_ms agent name params r ≡ (err e, r)))
unfolding execute_for record_outcome
execute_for_cases now finished elapsed_ms agent name params r =
    elim (Result-cases (admit now agent name params r)) [
      | inl (x, e) ↦ inl (x, (admit_iff now agent name params r x).0 e, rw (execute_for, e) refl)
      | inr (f, e) ↦ inr (
        f,
        λ h. let q : err f ≡ ok h.0 = sym e ∙ (admit_iff now agent name params r h.0).1 h.1 in cc,
        rw (execute_for, e) refl,
      )
    ]
