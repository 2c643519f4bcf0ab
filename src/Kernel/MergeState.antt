-- ===== src/Kernel/MergeState.antt =====
-- The accumulation of agent outputs in `run.state` (`merge_state_field` of src/kernel/mod.rs).
use jeeves_core.Prelude.{
  String, ◌≡◌, refl, ◌≢◌, Option, none, some, arith, ◌==◌, eq_iff, if◌then◌else◌,
}
use jeeves_core.Prelude.Dict
use jeeves_core.Prelude.Dict.{Dict, dict_laws}
use jeeves_core.Json.{
  Value, nil, cons, Fields, end, field, array, object, get_field, insert_field, insert_fields, push,
  get_field-insert_field,
}
use jeeves_core.Workflow.{MergeStrategy, replace, append, merge_dict}

-- `as_array_mut` and `push`; what is no array becomes the pair of the old and the new value.
append_value : Value → Value → Value
append_value (array vs) v = array (push vs v)
append_value old v = array (cons old (cons v nil))

-- `as_object_mut` and the loop of inserts; what is no object is replaced.
merge_object : Value → Fields → Value
merge_object (object fs) new = object (insert_fields fs new)
merge_object old new = object new

-- `state.entry(key).or_insert_with(|| initial)`.
abbrev entry_or : Value → Option Value → Value
entry_or initial none = initial
entry_or initial (some v) = v

merged : MergeStrategy → Option Value → Value → Value
unfolding append_value merge_object
merged replace old v = v
merged append old v = append_value (entry_or (array nil) old) v
merged merge_dict old (object new) = merge_object (entry_or (object end) old) new
merged merge_dict old v = v

unfoldable pub merge_state_field : Dict Value → String → Value → MergeStrategy → Dict Value
unfolding merged
merge_state_field state key v strategy =
    Dict.insert state key (merged strategy (Dict.get state key) v)

-- A merge touches the entry of its key alone, under every strategy.
pub merge_other :
    (state : Dict Value) (key other : String) (v : Value) (strategy : MergeStrategy)
    → key ≢ other
    → Dict.get (merge_state_field state key v strategy) other ≡ Dict.get state other
unfolding merge_state_field
merge_other state key other v strategy h = rw Dict.get-insert (ground (arith, eq_iff key other))

-- The last entry of the key in an object, which is the one that `insert` in order leaves.
abbrev pub last_field : Fields → String → Option Value → Option Value
last_field end k found = found
last_field (field j v fs) k found = last_field fs k (if j == k then some v else found)

get_field-insert_fields :
    (fs new : Fields) (k : String)
    → get_field (insert_fields fs new) k ≡ last_field new k (get_field fs k)
unfolding insert_fields
get_field-insert_fields fs end k = refl
get_field-insert_fields fs (field j v new) k =
    rw (get_field-insert_fields (insert_field fs j v) new k, get_field-insert_field fs j k v) refl

-- Merging an object into the object that the key holds gives an object there, in which a name that
-- the new object has stands for its last value in it, and every other name for what it was in the
-- old object.
pub merge_dict_fields :
    (state : Dict Value) (key k : String) (old new : Fields)
    → Dict.get state key ≡ some (object old)
    → (merged_fields : Fields) × (Dict.get (merge_state_field state key (object new) merge_dict) key
        ≡ some (object merged_fields))
      × (get_field merged_fields k ≡ last_field new k (get_field old k))
unfolding merge_state_field
merge_dict_fields state key k old new h = (
  insert_fields old new,
  rw (h, merged) (Dict.get-insert_self state key _),
  get_field-insert_fields old new k,
)

-- Appending two values to a key that the state does not have gives the array of both, in order.
pub append_twice :
    (state : Dict Value) (key : String) (a b : Value)
    → Dict.get state key ≡ none
    → Dict.get (merge_state_field (merge_state_field state key a append) key b append) key
      ≡ some (array (cons a (cons b nil)))
unfolding merge_state_field push
append_twice state key a b h =
    rw (h, merged)
      (rw (Dict.get-insert_self state key (array (cons a nil))) (Dict.get-insert_self _ key _))
