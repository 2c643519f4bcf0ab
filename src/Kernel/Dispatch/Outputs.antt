-- ===== src/Kernel/Dispatch/Outputs.antt =====
-- The entries that are kept of what an agent put out (src/kernel/dispatch.rs).
use jeeves_core.Prelude.{
  String, ◌≡◌, refl, ◌∙◌, Bool, true, false, not, ◌&&◌, Option, none, some, is_some, [], arith,
  ◌==◌, eq_iff, if◌then◌else◌,
}
use jeeves_core.Prelude.Dict
use jeeves_core.Prelude.Dict.{Dict}
use jeeves_core.Json.{
  Value, null, boolean, integer, fraction, string, array, object, Fields, end, field,
}
use jeeves_core.Run.{insert_all}
use jeeves_core.Kernel.AgentOutput.{object_entries, agent_output}

-- The value that a field of an object has at last, where a name comes more than once.
abbrev pub last_value : Fields → String → Option Value
last_value end key = none
last_value (field name v fs) key =
    let rest = last_value fs key in
    if is_some rest then rest else if name == key then some v else none

-- The value of a field in what an agent put out; what is no object has no field.
abbrev pub output_value : Value → String → Option Value
output_value (object fs) key = last_value fs key
output_value null key = none
output_value (boolean b) key = none
output_value (integer n) key = none
output_value (fraction s) key = none
output_value (string s) key = none
output_value (array vs) key = none

-- The value that is kept under a key: that of the output, but a failure is marked under "success",
-- with its message, if it has one, under "error".
abbrev pub kept_value : Value → Bool → String → String → Option Value
kept_value output true message key = output_value output key
kept_value output false message key =
    if key == "error" && not (message == "")
    then some (string message)
    else if key == "success"
    then some (boolean false)
    else output_value output key

get-insert_all :
    (d : Dict Value) (fs : Fields) (key : String)
    → Dict.get (insert_all d fs) key
      ≡ (if is_some (last_value fs key) then last_value fs key else Dict.get d key)
unfolding insert_all
get-insert_all d end key = refl
get-insert_all d (field name v fs) key =
    get-insert_all (Dict.insert d name v) fs key ∙ ground (arith, Dict.get-insert d name key v)

get-object_entries :
    (output : Value) (key : String) → Dict.get (object_entries output) key ≡ output_value output key
unfolding object_entries Dict.get
get-object_entries (object fs) key = get-insert_all [] fs key ∙ ground arith
get-object_entries null key = refl
get-object_entries (boolean b) key = refl
get-object_entries (integer n) key = refl
get-object_entries (fraction s) key = refl
get-object_entries (string s) key = refl
get-object_entries (array vs) key = refl

pub get-agent_output :
    (output : Value) (success : Bool) (message key : String)
    → Dict.get (agent_output output success message) key ≡ kept_value output success message key
unfolding agent_output
get-agent_output output true message key = get-object_entries output key
get-agent_output output false message key =
    let entries = object_entries output in
    let failed = Dict.insert entries "success" (boolean false) in
    ground (
      arith,
      get-object_entries output key,
      Dict.get-insert entries "success" key (boolean false),
      Dict.get-insert failed "error" key (string message),
      eq_iff key "error",
      eq_iff "error" key,
      eq_iff key "success",
      eq_iff "success" key,
    )
