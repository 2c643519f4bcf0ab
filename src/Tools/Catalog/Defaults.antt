-- ===== src/Tools/Catalog/Defaults.antt =====
-- What filling in the defaults of a call does (src/tools/catalog.rs).
use jeeves_core.Prelude.{
  String, Bool, true, false, ◌≡◌, refl, ap, ◌∙◌, inl, inr, Option, none, some, is_some, List, [],
  ◌∷◌, All, arith, ◌==◌, eq_iff, if◌then◌else◌, Bool-cases, Option-cases,
}
use jeeves_core.Json.{
  Value, object, Fields, end, field, get_field, insert_field, get_field-insert_field,
}
use jeeves_core.Types.{ToolName, ok}
use jeeves_core.Tools.Catalog.{
  ParamDef, ToolEntry, ToolCatalog, get, fill_fields, validate_params, fill_defaults,
}
use jeeves_core.Tools.Catalog.Calls.{AllFields, Fits, Present, WellTyped, validate_params_iff}

-- The first default among the definitions of a name.
abbrev pub first_default : List ParamDef → String → Option Value
first_default [] k = none
first_default (p ∷ ps) k =
    if p.name == k
    then elim p.default [ some v ↦ some v | none ↦ first_default ps k ]
    else first_default ps k

-- The first value if there is one, else the second.
abbrev pub or_else {ℓ} : {A : Type ℓ} → Option A → Option A → Option A
or_else (some a) b = some a
or_else none b = b

-- One turn of the loop.
abbrev fill_step : ParamDef → Fields → Fields
fill_step p fs =
    if is_some (get_field fs p.name)
    then fs
    else elim p.default [ none ↦ fs | some v ↦ insert_field fs p.name v ]

get_field-fill_step :
    (p : ParamDef) (fs : Fields) (k : String)
    → get_field (fill_step p fs) k
      ≡ or_else (get_field fs k) (if p.name == k then p.default else none)
get_field-fill_step p fs k = elim (Option-cases (get_field fs p.name)) [
  | inr (w, g) ↦ ground (arith, g, eq_iff p.name k)
  | inl g ↦ elim (Option-cases p.default) [
    | inl e ↦ ground (arith, g, e, eq_iff p.name k)
    | inr (v, e) ↦ ground (arith, g, e, eq_iff p.name k, get_field-insert_field fs p.name k v)
  ]
]

-- After the loop, a parameter that was given keeps its value, and another has the first default
-- among the definitions of its name.
pub get_field-fill_fields :
    (ps : List ParamDef) (fs : Fields) (k : String)
    → get_field (fill_fields ps fs) k ≡ or_else (get_field fs k) (first_default ps k)
unfolding fill_fields
get_field-fill_fields [] fs k = elim (Option-cases (get_field fs k)) [
  | inl e ↦ rw e refl
  | inr (v, e) ↦ rw e refl
]
get_field-fill_fields (p ∷ ps) fs k =
    get_field-fill_fields ps (fill_step p fs) k
    ∙ ap (λ o. or_else o (first_default ps k)) (get_field-fill_step p fs k)
    ∙ regroup (get_field fs k) (p.name == k) p.default
  where
    regroup :
        (o : Option Value) (b : Bool) (d : Option Value)
        → or_else (or_else o (if b then d else none)) (first_default ps k)
          ≡ or_else o (
              if b
              then elim d [ some v ↦ some v | none ↦ first_default ps k ]
              else first_default ps k)
    regroup (some v) b d = refl
    regroup none true none = refl
    regroup none true (some v) = refl
    regroup none false d = refl

-- Every default has the type of the last definition of its name.
abbrev pub DefaultsFit : List ParamDef → List ParamDef → Type 0
DefaultsFit all ps = All (λ (p : ParamDef). (v : Value) → p.default ≡ some v → Fits all p.name v) ps

AllFields-insert_field :
    (P : String → Value → Type 0) (fs : Fields) (k : String) (v : Value)
    → AllFields P fs
    → P k v
    → AllFields P (insert_field fs k v)
unfolding insert_field
AllFields-insert_field P end k v h q = (q, tt)
AllFields-insert_field P (field j w fs) k v h q = elim (Bool-cases (j == k)) [
  | inl e ↦ rw e (q, h.1)
  | inr e ↦ rw e (h.0, AllFields-insert_field P fs k v h.1 q)
]

AllFields-fill_fields :
    (all ps : List ParamDef) (fs : Fields)
    → DefaultsFit all ps
    → AllFields (Fits all) fs
    → AllFields (Fits all) (fill_fields ps fs)
unfolding fill_fields
AllFields-fill_fields all [] fs d h = h
AllFields-fill_fields all (p ∷ ps) fs d h = AllFields-fill_fields all ps (fill_step p fs) d.1 step
  where
    step : AllFields (Fits all) (fill_step p fs)
    step = elim (Bool-cases (is_some (get_field fs p.name))) [
      | inl g ↦ rw g h
      | inr g ↦ elim (Option-cases p.default) [
        | inl e ↦ rw (g, e) h
        | inr (v, e) ↦ rw (g, e) (AllFields-insert_field (Fits all) fs p.name v h (d.0 v e))
      ]
    ]

is_some-or_else {ℓ} :
    {A : Type ℓ} (a b : Option A) → is_some a ≡ true → is_some (or_else a b) ≡ true
is_some-or_else none b h = cc
is_some-or_else (some a) b h = refl

Present-fill_fields :
    (all ps : List ParamDef) (fs : Fields)
    → All (Present fs) ps
    → All (Present (fill_fields all fs)) ps
Present-fill_fields all [] fs h = tt
Present-fill_fields all (p ∷ ps) fs h = (
  λ r.
      ap is_some (get_field-fill_fields all fs p.name)
      ∙ is_some-or_else (get_field fs p.name) _ (h.0 r),
  Present-fill_fields all ps fs h.1,
)

-- When every default has the type of the last definition of its name, a call whose parameters
-- are accepted is still accepted after the defaults have been filled in, and filling in does
-- not fail.
pub fill_defaults-Accepts :
    (c : ToolCatalog) (name : ToolName) (params : Value)
    → ((entry : ToolEntry)
        → get name c ≡ some entry
        → DefaultsFit entry.parameters entry.parameters)
    → validate_params name params c ≡ ok []
    → (filled : Value) × (fill_defaults name params c ≡ ok filled)
      × (validate_params name filled c ≡ ok [])
unfolding fill_defaults
fill_defaults-Accepts c name params d h =
    let (entry, fs, g, o, w) = (validate_params_iff c name params).0 h in
    let typed : WellTyped entry.parameters (fill_fields entry.parameters fs) = (
      Present-fill_fields entry.parameters entry.parameters fs w.0,
      AllFields-fill_fields entry.parameters entry.parameters fs (d entry g) w.1,
    ) in
    (
      object (fill_fields entry.parameters fs),
      rw (g, o) refl,
      (validate_params_iff c name _).1 (entry, fill_fields entry.parameters fs, g, refl, typed),
    )
