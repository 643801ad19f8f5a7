-- ===== src/Base/Dict.antt =====
-- Python's `dict` in insertion order, as an association list.
use mathlib.Core.Path.{◌≡◌, refl}
use mathlib.Core.Option.{Option, none, some}
use mathlib.Core.List.{List, [], ◌∷◌, ◌++◌, map}
use native.Mathlib.Omega.{arith}
use wolves_ai.Base.Tests.{if◌then◌else◌}
use wolves_ai.Base.Keys.{Key, ◌==◌}

abbrev pub Dict {ℓ κ} : Type ℓ → Type κ → Type (ℓ ⊔ κ)
Dict K V = List (K × V)

module _ {ℓ κ} {K : Type ℓ} {V : Type κ} ⦃e : Key K⦄ where
  -- `d.get(k)`
  abbrev pub lookup : K → Dict K V → Option V
  lookup k [] = none
  lookup k ((j, v) ∷ d) = if j == k then some v else lookup k d

  -- `d[k] = v`: an existing key keeps its place
  abbrev pub insert : K → V → Dict K V → Dict K V
  insert k v [] = (k, v) ∷ []
  insert k v ((j, w) ∷ d) = if j == k then (j, v) ∷ d else (j, w) ∷ insert k v d

  -- `d.values()`
  abbrev pub values : Dict K V → List V
  values = map λ p. p.1

  pub lookup-insert :
      (k j : K) (v : V) (d : Dict K V)
      → lookup j (insert k v d) ≡ (if k == j then some v else lookup j d)
  lookup-insert k j v [] = refl
  lookup-insert k j v ((i, w) ∷ d) =
      ground (arith, e.same_iff i k, e.same_iff i j, e.same_iff k j, lookup-insert k j v d)

  pub insert-fresh :
      (k : K) (v : V) (d : Dict K V) → lookup k d ≡ none → insert k v d ≡ d ++ (k, v) ∷ []
  insert-fresh k v [] h = refl
  insert-fresh k v ((i, w) ∷ d) h = ground (arith, insert-fresh k v d)

  pub values-insert_fresh :
      (k : K) (v : V) (d : Dict K V)
      → lookup k d ≡ none
      → values (insert k v d) ≡ values d ++ v ∷ []
  values-insert_fresh k v [] h = refl
  values-insert_fresh k v ((i, w) ∷ d) h = ground (arith, values-insert_fresh k v d)

  -- Every key stands once.
  abbrev pub Unique : Dict K V → Type κ
  Unique [] = Unit
  Unique ((k, v) ∷ d) = (lookup k d ≡ none) × Unique d

  pub insert-Unique : (k : K) (v : V) (d : Dict K V) → Unique d → Unique (insert k v d)
  insert-Unique k v [] u = (refl, tt)
  insert-Unique k v ((i, w) ∷ d) u =
      ground (arith, e.same_iff i k, e.same_iff k i, insert-Unique k v d, lookup-insert k i v d)

  pub lookup-append :
      (k j : K) (v : V) (d : Dict K V)
      → lookup k d ≡ none
      → lookup j (d ++ (k, v) ∷ []) ≡ (if k == j then some v else lookup j d)
  lookup-append k j v [] h = refl
  lookup-append k j v ((i, w) ∷ d) h =
      ground (arith, e.same_iff i k, e.same_iff i j, e.same_iff k j, lookup-append k j v d)

  pub append-Unique :
      (k : K) (v : V) (d : Dict K V) → lookup k d ≡ none → Unique d → Unique (d ++ (k, v) ∷ [])
  append-Unique k v [] h u = (refl, tt)
  append-Unique k v ((i, w) ∷ d) h u =
      ground (arith, e.same_iff i k, e.same_iff k i, append-Unique k v d, lookup-append k i v d)
