-- ===== src/Json.antt =====
-- The values of `serde_json::Value`: a declaration of the JSON data that the kernel stores and
-- merges. A fractional number is kept as its text, which no modelled code reads. An object keeps
-- its entries in the order of insertion.
use jeeves_core.Prelude.{
  String, ◌≡◌, refl, Bool, Option, none, some, arith, ◌==◌, eq_iff, if◌then◌else◌,
}
use jeeves_core.Prelude.Int.{ℤ}
use jeeves_core.Prelude.Dict.{Dict}
use mathlib.Core.List.{[], ◌∷◌}

mutual
  pub data Value : Type 0 where
    null : Value
    boolean : Bool → Value
    integer : ℤ → Value
    fraction : String → Value
    string : String → Value
    array : Values → Value
    object : Fields → Value

  pub data Values : Type 0 where
    nil : Values
    cons : Value → Values → Values

  pub data Fields : Type 0 where
    end : Fields
    field : String → Value → Fields → Fields

-- `Map::get`.
unfoldable pub get_field : Fields → String → Option Value
get_field end k = none
get_field (field j v fs) k = if j == k then some v else get_field fs k

-- `Map::insert`.
unfoldable pub insert_field : Fields → String → Value → Fields
insert_field end k v = field k v end
insert_field (field j w fs) k v =
    let rest = insert_field fs k v in if j == k then field k v fs else field j w rest

-- The loop `for (k, v) in new_map { map.insert(k, v) }`.
unfoldable pub insert_fields : Fields → Fields → Fields
insert_fields fs end = fs
insert_fields fs (field k v new) = insert_fields (insert_field fs k v) new

-- `Vec::push`.
unfoldable pub push : Values → Value → Values
push nil v = cons v nil
push (cons w vs) v = cons w (push vs v)

-- The map of an object's entries, and the object of a map's entries.
unfoldable pub from_dict : Dict Value → Fields
from_dict [] = end
from_dict ((k, v) ∷ d) = field k v (from_dict d)

pub get_field-insert_field :
    (fs : Fields) (k j : String) (v : Value)
    → get_field (insert_field fs k v) j ≡ (if k == j then some v else get_field fs j)
unfolding get_field insert_field
get_field-insert_field end k j v = refl
get_field-insert_field (field i w fs) k j v =
    ground (arith, eq_iff k j, eq_iff i k, eq_iff i j, get_field-insert_field fs k j v)
