-- ===== src/Memory/History.antt =====
-- What engine/wolves/agent/source_memory.py and relevance_memory.py share: the history of each key,
-- and the last record of it that a reader of an earlier day may see.
use wolves_ai.Base.{
  ℕ, ◌≡◌, ◌≢◌, ◌<◌, refl, ap, Bool, false, ◌||◌, String, Option, none, some, List, [], ◌∷◌, ◌++◌,
  if◌then◌else◌, select, leb, string_eq, eq_iff, ◌==◌, arith,
}
use wolves_ai.Base.Dict.{Dict, lookup}

module _ {ℓ} {A : Type ℓ} where
  -- `xs[-1] if xs else None`
  abbrev pub last_of : List A → Option A
  last_of [] = none
  last_of (x ∷ []) = some x
  last_of (x ∷ y ∷ xs) = last_of (y ∷ xs)

  -- `d.get(k, [])`
  abbrev pub history_of : String → Dict String (List A) → List A
  history_of k d = elim (lookup k d) [ none ↦ [] | some xs ↦ xs ]

  -- `d.setdefault(k, []).append(x)`
  abbrev pub add_to : String → A → Dict String (List A) → Dict String (List A)
  add_to k x [] = (k, x ∷ []) ∷ []
  add_to k x ((j, xs) ∷ d) = if j == k then (j, xs ++ x ∷ []) ∷ d else (j, xs) ∷ add_to k x d

  pub history_of-add_to :
      (k j : String) (x : A) (d : Dict String (List A))
      → history_of j (add_to k x d) ≡ (if k == j then history_of j d ++ x ∷ [] else history_of j d)
  history_of-add_to k j x [] = ground (arith, eq_iff k j)
  history_of-add_to k j x ((i, xs) ∷ d) =
      ground (arith, history_of-add_to k j x d, eq_iff k j, eq_iff i k, eq_iff i j)

  pub last_of-snoc : (xs : List A) (x : A) → last_of (xs ++ x ∷ []) ≡ some x
  last_of-snoc [] x = refl
  last_of-snoc (y ∷ []) x = refl
  last_of-snoc (y ∷ z ∷ xs) x = last_of-snoc (z ∷ xs) x

  module _ (run_of when : A → String) (instant : String → ℕ) (end_of_day : String → Option ℕ) where
    -- The record is of the reader's own run, or not later than the day's end.
    abbrev pub visible : ℕ → Option String → A → Bool
    visible latest current x =
        (elim current [ none ↦ false | some run ↦ run_of x == run ])
        || leb (instant (when x)) latest

    -- `_latest_before`
    unfoldable pub latest_before : List A → String → Option String → Option A
    latest_before xs as_of current = elim (end_of_day as_of) [
      | none ↦ last_of xs
      | some latest ↦ last_of (select (visible latest current) xs)
    ]

    pub visible-hidden :
        (x : A) (latest : ℕ) (current : Option String)
        → latest < instant (when x)
        → current ≢ some (run_of x)
        → visible latest current x ≡ false
    visible-hidden x latest none late other = ground arith
    visible-hidden x latest (some run) late other = ground (arith, eq_iff (run_of x) run, other)

    select-hidden :
        (p : A → Bool) (xs : List A) (x : A) → p x ≡ false → select p (xs ++ x ∷ []) ≡ select p xs
    select-hidden p [] x h = ground (arith, h)
    select-hidden p (y ∷ xs) x h = ground (arith, select-hidden p xs x h)

    pub latest_before-hidden :
        (xs : List A) (x : A) (as_of : String) (current : Option String) (latest : ℕ)
        → end_of_day as_of ≡ some latest
        → visible latest current x ≡ false
        → latest_before (xs ++ x ∷ []) as_of current ≡ latest_before xs as_of current
    unfolding latest_before
    latest_before-hidden xs x as_of current latest e h =
        ground (arith, e, ap last_of (select-hidden (visible latest current) xs x h))

    pub latest_before-none :
        (x : A) (as_of : String) (current : Option String) (latest : ℕ)
        → end_of_day as_of ≡ some latest
        → visible latest current x ≡ false
        → latest_before (x ∷ []) as_of current ≡ none
    unfolding latest_before
    latest_before-none x as_of current latest e h = ground (arith, e, h)
