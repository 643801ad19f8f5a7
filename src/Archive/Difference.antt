-- ===== src/Archive/Difference.antt =====
-- engine/wolves/archive/source.py: `_first_source_difference`, the first place at which a source holds
-- what its archived form lacks. The keys of a dict are different from each other.
use wolves_ai.Base.{
  ℕ, ◌+◌, Bool, true, false, not, String, Option, none, some, if◌then◌else◌, eqb, string_eq, ◌==◌,
  length,
}
use wolves_ai.Base.Decimal.{append, decimal}
use wolves_ai.Base.Json.{
  Value, Items, Fields, null, bool, num, text, arr, obj, item, no_fields, field, get_field, to_list,
}

-- `==` of two scalars: numbers are equal if their names are, and True and False are one and zero
abbrev pub same_scalar : Value → Value → Bool
same_scalar null null = true
same_scalar (text s) (text t) = s == t
same_scalar (num m) (num n) = eqb m n
same_scalar (bool b) (bool c) = if b then c else not c
same_scalar (bool b) (num n) = eqb n (if b then 1 else 0)
same_scalar (num m) (bool c) = eqb m (if c then 1 else 0)
same_scalar _ _ = false

-- `f"{path}.{key}"` and `f"{path}[{index}]"`
abbrev pub at_key : String → String → String
at_key path key = append path (append "." key)

abbrev pub at_index : String → ℕ → String
at_index path index = append path (append "[" (append (decimal index) "]"))

unfoldable mutual
  pub difference : Value → Value → String → Option String
  difference (obj fs) (obj gs) path = fields_difference fs gs path
  difference (obj fs) _ path = some path
  difference (arr vs) (arr ws) path =
      let rest = items_difference vs ws 0 path in
      if eqb (length (to_list vs)) (length (to_list ws)) then rest else some path
  difference (arr vs) _ path = some path
  difference v w path = if same_scalar v w then none else some path

  pub fields_difference : Fields → Fields → String → Option String
  fields_difference no_fields gs path = none
  fields_difference (field key v fs) gs path =
      let rest = fields_difference fs gs path in
      elim (get_field key gs) [
        | none ↦ some (at_key path key)
        | some w ↦ elim (difference v w (at_key path key)) [ none ↦ rest | some d ↦ some d ]
      ]

  -- The lists are as long as each other; `index` counts the items before these.
  pub items_difference : Items → Items → ℕ → String → Option String
  items_difference (item v vs) (item w ws) index path =
      let rest = items_difference vs ws (index + 1) path in
      elim (difference v w (at_index path index)) [ none ↦ rest | some d ↦ some d ]
  items_difference _ _ index path = none
