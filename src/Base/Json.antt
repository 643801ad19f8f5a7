-- ===== src/Base/Json.antt =====
-- The values that `json.loads` and pydantic's dumps give: what an artifact's payload is made of.
-- Of numbers the program asks here only whether they are zero and whether they are equal, so a
-- number is a name for one: 0 for zero and 1 for one, and any other name for any other number, also a
-- negative one or a fraction; equal numbers, as 1 and 1.0, have the same name. NaN has none.
use Prim.Native.Nat.{ℕ}
use Prim.Native.String.{String}
use mathlib.Core.Bool.{Bool, true, false, not}
use mathlib.Core.Option.{Option, none, some}
use mathlib.Core.List.{List, [], ◌∷◌}
use wolves_ai.Base.Tests.{eqb, if◌then◌else◌}
use wolves_ai.Base.Keys.{◌==◌, string_eq}

mutual
  pub data Value : Type 0 where
    null : Value
    bool : Bool → Value
    num : ℕ → Value
    text : String → Value
    arr : Items → Value
    obj : Fields → Value

  -- what a list and a dict hold
  pub data Items : Type 0 where
    no_items : Items
    item : Value → Items → Items

  pub data Fields : Type 0 where
    no_fields : Fields
    field : (key : String) → (val : Value) → Fields → Fields

abbrev pub to_list : Items → List Value
to_list no_items = []
to_list (item v vs) = v ∷ to_list vs

abbrev pub get_field : String → Fields → Option Value
get_field k no_fields = none
get_field k (field j v fs) = if j == k then some v else get_field k fs

-- `isinstance(v, dict)` with `v.get(k)`
abbrev pub get : String → Value → Option Value
get k (obj fs) = get_field k fs
get k _ = none

-- `isinstance(v, list)` with its items
abbrev pub list_of : Option Value → Option (List Value)
list_of (some (arr vs)) = some (to_list vs)
list_of _ = none

abbrev pub is_dict : Value → Bool
is_dict (obj fs) = true
is_dict _ = false

-- `bool(v)`, with None for a missing key
abbrev pub truthy : Option Value → Bool
truthy none = false
truthy (some null) = false
truthy (some (bool b)) = b
truthy (some (num n)) = not (eqb n 0)
truthy (some (text s)) = not (s == "")
truthy (some (arr no_items)) = false
truthy (some (arr (item v vs))) = true
truthy (some (obj no_fields)) = false
truthy (some (obj (field k v fs))) = true

-- `{**d, k: v}`
abbrev pub set_field : String → Value → Fields → Fields
set_field k v no_fields = field k v no_fields
set_field k v (field j w fs) = if j == k then field j v fs else field j w (set_field k v fs)

abbrev pub with_field : String → Value → Value → Value
with_field k v (obj fs) = obj (set_field k v fs)
with_field k v w = w

-- `[str(x) for x in d.get(k) or []]` for a list of texts, which is what the writers put there;
-- what is no list counts as empty.
abbrev pub items_or_empty : Option (List Value) → List Value
items_or_empty none = []
items_or_empty (some vs) = vs
