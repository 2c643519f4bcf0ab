-- ===== src/Tools/Catalog/Typing.antt =====
-- The values of each parameter type, and that validation accepts exactly those
-- (src/tools/catalog.rs).
use jeeves_core.Prelude.{ℕ, suc, String, Bool, ◌≡◌, refl, ◌↔◌, inl, inr, List, Bool-cases}
use jeeves_core.Prelude.Int.{ℤ}
use jeeves_core.Json.{Value, null, boolean, integer, fraction, array, Values}
use jeeves_core.Workflow.{contains}
use jeeves_core.Workflow.Validity.{In, contains→In, In→contains}
use jeeves_core.Tools.Catalog.{ParamType, optional, valid, validate_items, validate}

-- Every item is a text.
pub data Texts : Values → Type 0 where
  nil : Texts Values.nil
  cons : {s : String} {vs : Values} → Texts vs → Texts (Values.cons (Value.string s) vs)

-- The values of a type, given by rules.
pub data HasType : ParamType → Value → Type 0 where
  string : {s : String} → HasType ParamType.string (Value.string s)
  int : {n : ℤ} → HasType ParamType.int (integer n)
  whole : {n : ℤ} → HasType ParamType.float (integer n)
  float : {s : String} → HasType ParamType.float (fraction s)
  bool : {b : Bool} → HasType ParamType.bool (boolean b)
  string_list : {vs : Values} → Texts vs → HasType ParamType.string_list (array vs)
  enum :
      {variants : List String} {s : String}
      → In s variants
      → HasType (ParamType.enum variants) (Value.string s)
  absent : {t : ParamType} → HasType (optional t) null
  present : {t : ParamType} {v : Value} → HasType t v → HasType (optional t) v

texts_sound : (vs : Values) (i : ℕ) → validate_items vs i ≡ valid → Texts vs
unfolding validate_items
texts_sound Values.nil i h = Texts.nil
texts_sound (Values.cons (Value.string s) vs) i h = Texts.cons (texts_sound vs (suc i) h)
texts_sound (Values.cons v vs) i h = cc

texts_complete : {vs : Values} → Texts vs → (i : ℕ) → validate_items vs i ≡ valid
unfolding validate_items
texts_complete Texts.nil i = refl
texts_complete (Texts.cons t) i = texts_complete t (suc i)

enum_sound :
    (variants : List String) (s : String)
    → validate (ParamType.enum variants) (Value.string s) ≡ valid
    → In s variants
unfolding validate
enum_sound variants s h = elim (Bool-cases (contains variants s)) [
  | inl e ↦ contains→In variants s e
  | inr e ↦ absurd (let p = (rw e at h) in cc)
]

pub validate_sound : (t : ParamType) (v : Value) → validate t v ≡ valid → HasType t v
unfolding validate
validate_sound ParamType.string (Value.string s) h = HasType.string
validate_sound ParamType.string v h = cc
validate_sound ParamType.int (integer n) h = HasType.int
validate_sound ParamType.int v h = cc
validate_sound ParamType.float (integer n) h = HasType.whole
validate_sound ParamType.float (fraction s) h = HasType.float
validate_sound ParamType.float v h = cc
validate_sound ParamType.bool (boolean b) h = HasType.bool
validate_sound ParamType.bool v h = cc
validate_sound ParamType.string_list (array vs) h = HasType.string_list (texts_sound vs 0 h)
validate_sound ParamType.string_list v h = cc
validate_sound (ParamType.enum vs) (Value.string s) h = HasType.enum (enum_sound vs s h)
validate_sound (ParamType.enum vs) v h = cc
validate_sound (optional t) null h = HasType.absent
validate_sound (optional t) v h = HasType.present (validate_sound t v h)

-- A type that takes null besides what another takes.
validate-optional :
    (t : ParamType) (v : Value) → validate t v ≡ valid → validate (optional t) v ≡ valid
unfolding validate
validate-optional t null h = refl
validate-optional t v h = h

pub validate_complete : {t : ParamType} {v : Value} → HasType t v → validate t v ≡ valid
unfolding validate
validate_complete HasType.string = refl
validate_complete HasType.int = refl
validate_complete HasType.whole = refl
validate_complete HasType.float = refl
validate_complete HasType.bool = refl
validate_complete (HasType.string_list t) = texts_complete t 0
validate_complete (HasType.enum {variants} {s} i) = rw (In→contains variants s i) refl
validate_complete HasType.absent = refl
validate_complete (HasType.present {t} {v} h) = validate-optional t v (validate_complete h)

-- The validation of a parameter accepts a JSON value exactly when the value has the parameter's
-- type: the types are given by rules, an optional type has null besides the values of its inner
-- type, an enumeration has the texts it lists and a list of texts has the arrays of texts.
pub validate-HasType : (t : ParamType) (v : Value) → (validate t v ≡ valid) ↔ HasType t v
validate-HasType t v = (validate_sound t v, validate_complete)
