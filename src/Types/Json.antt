-- ===== src/Types/Json.antt =====
-- JSON values (`Any` in the records, decoded by `jsonutil.loads`). A number with a fraction stands
-- as its printed form: the program passes such values on and never computes with them.
use keziah.Base.{String, Bool, Option, none, some, if◌then◌else◌, ◌==◌, string_eq}
use keziah.Base.Int.{ℤ}

mutual
  pub data Value : Type 0 where
    null : Value
    bool : Bool → Value
    num : ℤ → Value
    decimal : String → Value
    str : String → Value
    dict : Fields → Value
    list : Items → Value

  pub data Fields : Type 0 where
    end : Fields
    field : String → Value → Fields → Fields

  pub data Items : Type 0 where
    no_items : Items
    item : Value → Items → Items

-- `dict.get`.
unfoldable pub get : String → Fields → Option Value
get k end = none
get k (field j v r) = if j == k then some v else get k r
