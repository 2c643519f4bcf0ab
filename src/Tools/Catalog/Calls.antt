-- ===== src/Tools/Catalog/Calls.antt =====
-- When the parameters of a call pass, and what filling in the defaults does
-- (src/tools/catalog.rs).
use jeeves_core.Prelude.{
  String, Bool, true, false, ◌≡◌, refl, sym, ap, subst, ◌∙◌, ◌↔◌, inl, inr, Option, none, some,
  is_some, List, [], ◌∷◌, ◌++◌, All, ◌==◌, if◌then◌else◌, Bool-cases, Option-cases,
}
use jeeves_core.Prelude.Dict
use jeeves_core.Prelude.Dict.{Dict}
use jeeves_core.Json.{Value, object, Fields, end, field, get_field}
use jeeves_core.Types.{ToolName, ok, ok_or, >>=-eq-ok, ok_or-ok}
use jeeves_core.Workflow.Validity.Checks.{and_iff, iff_trans}
use jeeves_core.Tools.Catalog.{
  Verdict, valid, invalid, validate, ParamDef, is_required, ToolEntry, ToolCatalog, get,
  missing_params, known_names, type_errors, check_param, check_params, as_object, param_errors,
  validate_params,
}
use jeeves_core.Tools.Catalog.Typing.{HasType, validate-HasType}

-- The last definition of a name.
abbrev pub last_named : List ParamDef → String → Option ParamDef
last_named [] k = none
last_named (p ∷ ps) k = elim (last_named ps k) [
  | some q ↦ some q
  | none ↦ if p.name == k then some p else none
]

-- Every entry of an object satisfies the predicate.
abbrev pub AllFields : (String → Value → Type 0) → Fields → Type 0
AllFields P end = Unit
AllFields P (field k v fs) = P k v × AllFields P fs

-- The value of a parameter has the type of the last definition of its name.
abbrev pub Fits : List ParamDef → String → Value → Type 0
Fits ps k v = (p : ParamDef) × (last_named ps k ≡ some p) × HasType p.param_type v

abbrev pub Present : Fields → ParamDef → Type 0
Present fs p = is_required p ≡ true → is_some (get_field fs p.name) ≡ true

-- Every required parameter is given, and every given one is defined and of its type.
abbrev pub WellTyped : List ParamDef → Fields → Type 0
WellTyped ps fs = All (Present fs) ps × AllFields (Fits ps) fs

missing_params_iff :
    (ps : List ParamDef) (fs : Fields) → (missing_params ps fs ≡ []) ↔ All (Present fs) ps
unfolding missing_params
missing_params_iff [] fs = (λ h. tt, λ h. refl)
missing_params_iff (p ∷ ps) fs = elim (Bool-cases (is_required p)) [
  | inr r ↦ rw r (iff_trans (missing_params_iff ps fs) (λ h. (λ e. cc, h), λ h. h.1))
  | inl r ↦ elim (Bool-cases (is_some (get_field fs p.name))) [
    | inl e ↦ rw (r, e) (iff_trans (missing_params_iff ps fs) (λ h. (λ _. refl, h), λ h. h.1))
    | inr e ↦ rw (r, e) (λ h. cc, λ h. absurd (let q = h.0 refl in cc))
  ]
]

-- The names that the loop has gathered.
get-known_names :
    (ps : List ParamDef) (known : Dict ParamDef) (k : String)
    → Dict.get (known_names ps known) k
      ≡ elim (last_named ps k) [ some p ↦ some p | none ↦ Dict.get known k ]
unfolding known_names
get-known_names [] known k = refl
get-known_names (p ∷ ps) known k =
    get-known_names ps (Dict.insert known p.name p) k ∙ elim (Option-cases (last_named ps k)) [
      | inl e ↦ rw e (Dict.get-insert known p.name k p ∙ choose (p.name == k))
      | inr (q, e) ↦ rw e refl
    ]
  where
    choose :
        (b : Bool)
        → (if b then some p else Dict.get known k)
          ≡ elim (if b then some p else none) [ some p ↦ some p | none ↦ Dict.get known k ]
    choose true = refl
    choose false = refl

get-known_names_all :
    (ps : List ParamDef) (k : String) → Dict.get (known_names ps []) k ≡ last_named ps k
unfolding Dict.get
get-known_names_all ps k =
    get-known_names ps [] k
    ∙ elim (Option-cases (last_named ps k)) [ inl e ↦ rw e refl | inr (q, e) ↦ rw e refl ]

type_errors_iff : (k : String) (w : Verdict) → (type_errors k w ≡ []) ↔ (w ≡ valid)
type_errors_iff k valid = (λ h. refl, λ h. refl)
type_errors_iff k (invalid e) = (λ h. cc, λ h. cc)

check_param_iff :
    (ps : List ParamDef) (k : String) (v : Value)
    → (check_param (known_names ps []) k v ≡ []) ↔ Fits ps k v
unfolding check_param
check_param_iff ps k v = elim (Option-cases (last_named ps k)) [
  | inl e ↦
      rw (check_param, get-known_names_all ps k ∙ e, e) (λ h. cc, λ h. absurd (let q = h.1 in cc))
  | inr (p, e) ↦
      rw (check_param, get-known_names_all ps k ∙ e, e)
        (iff_trans (type_errors_iff k (validate p.param_type v))
          (iff_trans (validate-HasType p.param_type v) (only p)))
]
  where
    only :
        (p : ParamDef)
        → HasType p.param_type v ↔ ((q : ParamDef) × (some p ≡ some q) × HasType q.param_type v)
    only p = (
      λ h. (p, refl, h),
      λ h. let e : p ≡ h.0 = cc in subst (λ (q : ParamDef). HasType q.param_type v) (sym e) h.2,
    )

++-nil {ℓ} : {A : Type ℓ} (xs ys : List A) → (xs ++ ys ≡ []) ↔ ((xs ≡ []) × (ys ≡ []))
++-nil [] ys = (λ h. (refl, h), λ h. h.1)
++-nil (x ∷ xs) ys = (λ h. cc, λ h. absurd (let q = h.0 in cc))

check_params_iff :
    (ps : List ParamDef) (fs : Fields)
    → (check_params (known_names ps []) fs ≡ []) ↔ AllFields (Fits ps) fs
unfolding check_params
check_params_iff ps end = (λ h. tt, λ h. refl)
check_params_iff ps (field k v fs) =
    iff_trans (++-nil (check_param (known_names ps []) k v) _)
      (and_iff (check_param_iff ps k v) (check_params_iff ps fs))

-- No error is reported exactly for the parameters that are well typed.
param_errors_iff : (ps : List ParamDef) (fs : Fields) → (param_errors ps fs ≡ []) ↔ WellTyped ps fs
unfolding param_errors
param_errors_iff ps fs =
    iff_trans (++-nil (missing_params ps fs) _)
      (and_iff (missing_params_iff ps fs) (check_params_iff ps fs))

-- A call is accepted.
abbrev pub Accepts : ToolCatalog → ToolName → Value → Type 0
Accepts c name params =
    (entry : ToolEntry) × (fs : Fields) × (get name c ≡ some entry)
    × (params ≡ object fs)
    × WellTyped entry.parameters fs

as_object-some : (v : Value) {fs : Fields} → as_object v ≡ some fs → v ≡ object fs
as_object-some (object gs) h = cc
as_object-some v h = cc

-- The validation of a call reports no error exactly when the tool is in the catalog, the
-- parameters are an object, every required parameter is given, and every given parameter is
-- defined and has the type of the last definition of its name.
pub validate_params_iff :
    (c : ToolCatalog) (name : ToolName) (params : Value)
    → (validate_params name params c ≡ ok []) ↔ Accepts c name params
unfolding validate_params
validate_params_iff c name params = (sound, complete)
  where
    sound : validate_params name params c ≡ ok [] → Accepts c name params
    sound h =
        let p = >>=-eq-ok (ok_or (get name c) _) _ h in
        let q = >>=-eq-ok (ok_or (as_object params) _) _ p.2 in
        let e : param_errors p.0.parameters q.0 ≡ [] = let r = q.2 in cc in
        (
          p.0,
          q.0,
          ok_or-ok _ _ p.1,
          as_object-some params (ok_or-ok _ _ q.1),
          (param_errors_iff p.0.parameters q.0).0 e,
        )

    complete : Accepts c name params → validate_params name params c ≡ ok []
    complete h = rw (h.2, h.3) (ap (λ es. ok es) ((param_errors_iff h.0.parameters h.1).1 h.4))
