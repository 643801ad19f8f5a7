-- ===== src/Archive/Lossless.antt =====
-- engine/wolves/archive/source.py: a source without a difference can be read from its archived form.
use wolves_ai.Base.{
  ℕ, zero, suc, ◌+◌, ◌≡◌, refl, sym, ap, ◌∙◌, Bool, true, false, String, Option, none, some, List,
  [], ◌∷◌, eqb, eqb_iff, string_eq, ◌==◌, length, arith, inl, inr, Bool-cases, Option-cases,
  some-inj, eq_iff,
}
use wolves_ai.Base.Json.{
  Value, Items, Fields, arr, obj, no_items, item, no_fields, field, get_field, to_list,
}
use wolves_ai.Archive.Difference.{
  same_scalar, at_key, at_index, difference, fields_difference, items_difference,
}

-- A way to a part of a value: keys and positions.
pub data Step : Type 0 where
  key : String → Step
  position : ℕ → Step

abbrev pub nth : ℕ → Items → Option Value
nth n no_items = none
nth zero (item v vs) = some v
nth (suc n) (item v vs) = nth n vs

abbrev pub part : Step → Value → Option Value
part (key k) (obj fs) = get_field k fs
part (position n) (arr vs) = nth n vs
part _ _ = none

abbrev pub read : List Step → Value → Option Value
read [] v = some v
read (s ∷ ss) v = elim (part s v) [ none ↦ none | some w ↦ read ss w ]

abbrev pub is_scalar : Value → Bool
is_scalar (arr vs) = false
is_scalar (obj fs) = false
is_scalar _ = true

-- What a step finds in a source without a difference, it finds in the archived form, again without one.
field_kept :
    (fs gs : Fields) (path k : String) (v : Value)
    → fields_difference fs gs path ≡ none
    → get_field k fs ≡ some v
    → (w : Value) × (p : String) × (get_field k gs ≡ some w) × (difference v w p ≡ none)
unfolding fields_difference
field_kept no_fields gs path k v d g = absurd (ground (arith, g))
field_kept (field j u fs) gs path k v d g = elim (Option-cases (get_field j gs)) [
  | inl n ↦ absurd (ground (arith, d, n))
  | inr (w, f) ↦ elim (Option-cases (difference u w (at_key path j))) [
    | inr (p, e) ↦ absurd (ground (arith, d, f, e))
    | inl e ↦ elim (Bool-cases (j == k)) [
      | inl q ↦
          let same : u ≡ v = ground (arith, g, q) in
          (
            w,
            at_key path j,
            ap (λ c. get_field c gs) (sym ((eq_iff j k).0 q)) ∙ f,
            ap (λ x. difference x w (at_key path j)) (sym same) ∙ e,
          )
      | inr q ↦ field_kept fs gs path k v (ground (arith, d, f, e)) (ground (arith, g, q))
    ]
  ]
]

item_kept :
    (vs ws : Items) (index : ℕ) (path : String) (n : ℕ) (v : Value)
    → length (to_list vs) ≡ length (to_list ws)
    → items_difference vs ws index path ≡ none
    → nth n vs ≡ some v
    → (w : Value) × (p : String) × (nth n ws ≡ some w) × (difference v w p ≡ none)
unfolding items_difference
item_kept no_items ws index path n v l d g = absurd (ground (arith, g))
item_kept (item u vs) no_items index path n v l d g = absurd (omega (arith, l))
item_kept (item u vs) (item x ws) index path zero v l d g =
    elim (Option-cases (difference u x (at_index path index))) [
      | inr (p, e) ↦ absurd (ground (arith, d, e))
      | inl e ↦ (
        x,
        at_index path index,
        refl,
        ap (λ y. difference y x (at_index path index)) (sym (some-inj g)) ∙ e,
      )
    ]
item_kept (item u vs) (item x ws) index path (suc n) v l d g =
    elim (Option-cases (difference u x (at_index path index))) [
      | inr (p, e) ↦ absurd (ground (arith, d, e))
      | inl e ↦ item_kept vs ws (index + 1) path n v (omega (arith, l)) (ground (arith, d, e)) g
    ]

part_kept :
    (s : Step) (v w u : Value) (path : String)
    → difference v w path ≡ none
    → part s v ≡ some u
    → (x : Value) × (p : String) × (part s w ≡ some x) × (difference u x p ≡ none)
unfolding difference
part_kept (key k) (obj fs) (obj gs) u path d g = field_kept fs gs path k u d g
part_kept (position n) (arr vs) (arr ws) u path d g =
    elim (Bool-cases (eqb (length (to_list vs)) (length (to_list ws)))) [
      | inr q ↦ absurd (ground (arith, d, q))
      | inl q ↦ item_kept vs ws 0 path n u ((eqb_iff _ _).0 q) (ground (arith, d, q)) g
    ]
part_kept s v w u path d g = absurd (ground (arith, d, g))

scalar_kept :
    (v w : Value) (path : String)
    → difference v w path ≡ none
    → is_scalar v ≡ true
    → same_scalar v w ≡ true
unfolding difference
scalar_kept (obj fs) w path d h = absurd (ground (arith, h))
scalar_kept (arr vs) w path d h = absurd (ground (arith, h))
scalar_kept v w path d h = ground (arith, d)

-- Where a source has no difference from its archived form, every scalar that the source holds under some
-- keys and positions stands under the same ones in the archived form: nothing is lost.
pub difference-reads :
    (ss : List Step) (v w u : Value) (path : String)
    → difference v w path ≡ none
    → read ss v ≡ some u
    → is_scalar u ≡ true
    → (x : Value) × (read ss w ≡ some x) × (same_scalar u x ≡ true)
difference-reads [] v w u path d g h =
    (w, refl, scalar_kept u w path (ap (λ x. difference x w path) (sym (some-inj g)) ∙ d) h)
difference-reads (s ∷ ss) v w u path d g h = elim (Option-cases (part s v)) [
  | inl n ↦ absurd (ground (arith, g, n))
  | inr (t, n) ↦
      let (y, p, f, e) = part_kept s v w t path d n in
      let (x, r, k) = difference-reads ss t y u p e (ground (arith, g, n)) h in
      (x, ground (arith, f, r), k)
]
