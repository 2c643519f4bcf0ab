-- ===== src/Tools/Catalog.antt =====
-- The tool catalog (src/tools/catalog.rs): the types of parameters, the validation of a call's
-- parameters and the filling in of defaults. A `HashMap` is a dictionary, and the order of
-- `list_ids` and `list_entries` is given by an argument.
pub mod Prompt
pub mod Typing
pub mod Calls
pub mod Defaults
use jeeves_core.Prelude.{
  ℕ, suc, String, Bool, true, false, not, ◌&&◌, Option, none, some, is_some, List, [], ◌∷◌, ◌++◌,
  length, ◌==◌, if◌then◌else◌,
}
use jeeves_core.Prelude.Int.{pos}
use jeeves_core.Prelude.Dict
use jeeves_core.Prelude.Dict.{Dict, keys, values}
use jeeves_core.Json.{
  Value, null, boolean, integer, fraction, array, object, Values, nil, cons, Fields, end, field,
  get_field, insert_field,
}
use jeeves_core.Types.{
  ToolName, Message, Piece, plain, validation, not_found, Result, ok, err, ok_or, is_empty, ◌>>=◌,
}
use jeeves_core.Workflow.{contains}

pub data RiskSemantic : Type 0 where
  read_only write destructive : RiskSemantic

pub data RiskSeverity : Type 0 where
  low medium high critical : RiskSeverity

unfoldable pub requires_confirmation : RiskSeverity → Bool
requires_confirmation low = false
requires_confirmation medium = false
requires_confirmation high = true
requires_confirmation critical = true

pub data ToolCategory : Type 0 where
  read write execute network system : ToolCategory
  unified composite resilient standalone internal : ToolCategory

pub data ParamType : Type 0 where
  string int float bool string_list : ParamType
  enum : List String → ParamType
  optional : ParamType → ParamType

abbrev pub value_type_name : Value → String
value_type_name null = "null"
value_type_name (boolean b) = "boolean"
value_type_name (integer n) = "number"
value_type_name (fraction s) = "number"
value_type_name (Value.string s) = "string"
value_type_name (array vs) = "array"
value_type_name (object fs) = "object"

-- `Result<(), String>`.
pub data Verdict : Type 0 where
  valid : Verdict
  invalid : Message → Verdict

-- `Err(format!("{}, got {}", expectation, value_type_name(value)))`.
abbrev pub mismatch : Message → Value → Verdict
mismatch expectation v = invalid (expectation ++ Piece.text ", got " ∷ plain (value_type_name v))

-- The loop over the items of a string list, from the index i.
unfoldable pub validate_items : Values → ℕ → Verdict
validate_items nil i = valid
validate_items (cons (Value.string s) vs) i = validate_items vs (suc i)
validate_items (cons v vs) i =
    mismatch (Piece.text "expected string at index " ∷ Piece.int (pos i) ∷ []) v

-- `variants.join(", ")`.
unfoldable pub join : String → List String → Message
join sep [] = []
join sep (x ∷ []) = plain x
join sep (x ∷ y ∷ xs) = Piece.text x ∷ Piece.text sep ∷ join sep (y ∷ xs)

-- `ParamType::validate`.
unfoldable pub validate : ParamType → Value → Verdict
unfolding validate_items join
validate string (Value.string s) = valid
validate string v = mismatch (plain "expected string") v
validate int (integer n) = valid
validate int v = mismatch (plain "expected integer") v
validate float (integer n) = valid
validate float (fraction s) = valid
validate float v = mismatch (plain "expected number") v
validate bool (boolean b) = valid
validate bool v = mismatch (plain "expected boolean") v
validate string_list (array vs) = validate_items vs 0
validate string_list v = mismatch (plain "expected array") v
validate (enum variants) (Value.string s) =
    if contains variants s
    then valid
    else invalid (
        Piece.text "invalid enum value '"
        ∷ Piece.text s
        ∷ Piece.text "', expected one of: "
        ∷ join ", " variants)
validate (enum variants) v = mismatch (plain "expected string for enum") v
validate (optional inner) null = valid
validate (optional inner) v = validate inner v

pub record ParamDef : Type 0 where
  pub name : String
  pub param_type : ParamType
  pub description : String
  pub default : Option Value

abbrev pub is_optional : ParamType → Bool
is_optional (optional t) = true
is_optional _ = false

abbrev pub is_required : ParamDef → Bool
is_required p = not (is_some p.default) && not (is_optional p.param_type)

pub record ToolEntry : Type 0 where
  pub id : ToolName
  pub description : String
  pub parameters : List ParamDef
  pub category : ToolCategory
  pub risk_semantic : RiskSemantic
  pub risk_severity : RiskSeverity

pub record ToolCatalog : Type 0 where
  pub entries : Dict ToolEntry

abbrev pub new : ToolCatalog
new = record { entries = [] }

unfoldable pub register : ToolEntry → ToolCatalog → Result ToolCatalog
register entry c =
    if is_empty entry.id
    then err (validation (plain "Tool id cannot be empty"))
    else ok (record { entries = Dict.insert c.entries entry.id entry })

abbrev pub get : ToolName → ToolCatalog → Option ToolEntry
get tool_id c = Dict.get c.entries tool_id

abbrev pub has_tool : ToolName → ToolCatalog → Bool
has_tool tool_id c = Dict.contains_key c.entries tool_id

-- `sort` is `sort` on the names.
unfoldable pub list_ids : (List ToolName → List ToolName) → ToolCatalog → List ToolName
list_ids sort c = sort (keys c.entries)

-- `sort` is `sort_by` on the ids of the entries.
unfoldable pub list_entries : (List ToolEntry → List ToolEntry) → ToolCatalog → List ToolEntry
list_entries sort c = sort (values c.entries)

-- The errors of the loop over the definitions: the required parameters that are missing.
unfoldable pub missing_params : List ParamDef → Fields → List Message
missing_params [] fs = []
missing_params (p ∷ ps) fs =
    let rest = missing_params ps fs in
    if is_required p && not (is_some (get_field fs p.name))
    then (Piece.text "Missing required parameter: " ∷ plain p.name) ∷ rest
    else rest

-- `known_names`: the definitions by name, a later one in place of an earlier one.
unfoldable pub known_names : List ParamDef → Dict ParamDef → Dict ParamDef
known_names [] known = known
known_names (p ∷ ps) known = known_names ps (Dict.insert known p.name p)

-- `if let Err(e) = … { errors.push(…) }`.
abbrev pub type_errors : String → Verdict → List Message
type_errors key valid = []
type_errors key (invalid e) =
    (Piece.text "Parameter '" ∷ Piece.text key ∷ Piece.text "': " ∷ e) ∷ []

-- The body of the loop over the provided parameters.
unfoldable pub check_param : Dict ParamDef → String → Value → List Message
unfolding validate
check_param known key value = elim (Dict.get known key) [
  | none ↦ (Piece.text "Unknown parameter: " ∷ plain key) ∷ []
  | some p ↦ type_errors key (validate p.param_type value)
]

unfoldable pub check_params : Dict ParamDef → Fields → List Message
unfolding check_param
check_params known end = []
check_params known (field k v fs) = check_param known k v ++ check_params known fs

-- `as_object`.
abbrev pub as_object : Value → Option Fields
as_object (object fs) = some fs
as_object _ = none

-- The errors of the parameters against the definitions.
unfoldable pub param_errors : List ParamDef → Fields → List Message
unfolding missing_params known_names check_params
param_errors ps fs = missing_params ps fs ++ check_params (known_names ps []) fs

unfoldable pub validate_params : ToolName → Value → ToolCatalog → Result (List Message)
unfolding param_errors
validate_params tool_id params c = do
  entry ← ok_or (get tool_id c) (not_found (Piece.text "Unknown tool: " ∷ plain tool_id))
  fs ← ok_or (as_object params) (validation (plain "Parameters must be a JSON object"))
  ok (param_errors entry.parameters fs)

-- The loop of `fill_defaults`.
unfoldable pub fill_fields : List ParamDef → Fields → Fields
fill_fields [] fs = fs
fill_fields (p ∷ ps) fs = fill_fields ps (
    if is_some (get_field fs p.name)
    then fs
    else elim p.default [ none ↦ fs | some v ↦ insert_field fs p.name v ])

-- The parameters that `fill_defaults` leaves behind.
unfoldable pub fill_defaults : ToolName → Value → ToolCatalog → Result Value
unfolding fill_fields
fill_defaults tool_id params c = do
  entry ← ok_or (get tool_id c) (not_found (Piece.text "Unknown tool: " ∷ plain tool_id))
  ok (elim params [ object fs ↦ object (fill_fields entry.parameters fs) | v ↦ v ])

abbrev pub len : ToolCatalog → ℕ
len c = length c.entries

abbrev pub is_empty_catalog : ToolCatalog → Bool
is_empty_catalog c = elim c.entries [ [] ↦ true | _ ↦ false ]
