-- ===== src/Base/Sorted.antt =====
-- Python's `sorted` of texts and by a number, as insertion sorts that keep equal items in order.
use Prim.Native.Nat.{Ordering}
use Prim.Native.String.{String, compare}
use mathlib.Core.Bool.{Bool, true, false, not}
use mathlib.Core.List.{List, [], ◌∷◌}
use mathlib.Core.Path.{◌≡◌, refl}
use native.Mathlib.Omega.{arith}
use wolves_ai.Base.Tests.{if◌then◌else◌}
use wolves_ai.Base.Lists.{any, select}
use wolves_ai.Base.Keys.{contains, string_eq}

module _ {ℓ} {A : Type ℓ} (before : A → A → Bool) where
  -- `before x y` says that x may stand before y.
  abbrev pub insert_by : A → List A → List A
  insert_by x [] = x ∷ []
  insert_by x (y ∷ ys) = if before x y then x ∷ y ∷ ys else y ∷ insert_by x ys

  abbrev pub sort_by : List A → List A
  sort_by [] = []
  sort_by (x ∷ xs) = insert_by x (sort_by xs)

abbrev pub text_le : String → String → Bool
text_le s t = elim (compare s t) [ Ordering.gt ↦ false | _ ↦ true ]

-- `sorted(texts)`
abbrev pub sort_texts : List String → List String
sort_texts = sort_by text_le

-- A set of texts as a list without repeats.
abbrev pub distinct_texts : List String → List String
distinct_texts [] = []
distinct_texts (t ∷ ts) =
    let others = distinct_texts ts in if contains t others then others else t ∷ others

-- `sorted(set(texts))`
abbrev pub sorted_set : List String → List String
sorted_set ts = sort_texts (distinct_texts ts)

-- `not xs`
abbrev pub is_empty {ℓ} : {A : Type ℓ} → List A → Bool
is_empty [] = true
is_empty (x ∷ xs) = false

module _ {ℓ} {A : Type ℓ} (before : A → A → Bool) where
  is_empty-insert_by : (x : A) (xs : List A) → is_empty (insert_by before x xs) ≡ false
  is_empty-insert_by x [] = refl
  is_empty-insert_by x (y ∷ ys) = ground arith

  pub is_empty-sort_by : (xs : List A) → is_empty (sort_by before xs) ≡ is_empty xs
  is_empty-sort_by [] = refl
  is_empty-sort_by (x ∷ xs) = is_empty-insert_by x (sort_by before xs)

module _ {ℓ} {A : Type ℓ} (before : A → A → Bool) (p : A → Bool) where
  any-insert_by : (x : A) (xs : List A) → any p (insert_by before x xs) ≡ any p (x ∷ xs)
  any-insert_by x [] = refl
  any-insert_by x (y ∷ ys) = ground (arith, any-insert_by x ys)

  pub any-sort_by : (xs : List A) → any p (sort_by before xs) ≡ any p xs
  any-sort_by [] = refl
  any-sort_by (x ∷ xs) = ground (arith, any-insert_by x (sort_by before xs), any-sort_by xs)

pub is_empty-select {ℓ} :
    {A : Type ℓ} (p : A → Bool) (xs : List A) → is_empty (select p xs) ≡ not (any p xs)
is_empty-select p [] = refl
is_empty-select p (x ∷ xs) = ground (arith, is_empty-select p xs)
