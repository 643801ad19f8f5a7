-- ===== src/Graph/Coverage/FollowUp.antt =====
-- engine/wolves/graph/branch_coverage.py: when a run needs a follow-up.
use wolves_ai.Base.{
  ℕ, ◌≡◌, refl, ap, ◌∙◌, Bool, true, false, not, ◌&&◌, ◌||◌, String, Option, none, some, List, [],
  ◌∷◌, map, any, select, contains, if◌then◌else◌, is_some, string_eq, ◌==◌, arith, eq_iff,
}
use wolves_ai.Base.Dict.{Dict, lookup, Unique}
use wolves_ai.Base.Json.{Value}
use wolves_ai.Base.Sorted.{sort_texts, any-sort_by, text_le}
use wolves_ai.Artifacts.{Artifact}
use wolves_ai.Ledger.{LedgerEntry}
use wolves_ai.Graph.Coverage.{
  is_empty, keys_where, audited_statuses, serious_branch, candidates_of, statuses_of, coverage_of,
  branch_coverage,
}
use wolves_ai.Graph.Coverage.Status.{statuses_of-Unique}

module _ {A B : Type 0} where
  any-map : (p : B → Bool) (f : A → B) (xs : List A) → any p (map f xs) ≡ any (λ x. p (f x)) xs
  any-map p f [] = refl
  any-map p f (x ∷ xs) = ap (λ b. p (f x) || b) (any-map p f xs)

module _ {A : Type 0} where
  any-select : (p q : A → Bool) (xs : List A) → any p (select q xs) ≡ any (λ x. q x && p x) xs
  any-select p q [] = refl
  any-select p q (x ∷ xs) = ground (arith, any-select p q xs)

  nonempty-any : (xs : List A) → not (is_empty xs) ≡ any (λ x. true) xs
  nonempty-any [] = refl
  nonempty-any (x ∷ xs) = refl

  any-ext : (p q : A → Bool) (xs : List A) → ((x : A) → p x ≡ q x) → any p xs ≡ any q xs
  any-ext p q [] h = refl
  any-ext p q (x ∷ xs) h = ground (arith, h x, any-ext p q xs h)

contains-any : (k : String) (ks : List String) → contains k ks ≡ any (λ j. k == j) ks
contains-any k [] = refl
contains-any k (j ∷ js) = ap (λ b. k == j || b) (contains-any k js)

abbrev found_with : {V : Type 0} → (V → Bool) → Option V → Bool
found_with p none = false
found_with p (some v) = p v

module _ {V : Type 0} (p : V → Bool) (k : String) where
  absent : (d : Dict String V) → lookup k d ≡ none → any (λ kv. p kv.1 && k == kv.0) d ≡ false
  absent [] h = refl
  absent ((j, v) ∷ d) h = ground (arith, eq_iff j k, eq_iff k j, absent d)

  present :
      (d : Dict String V) → Unique d → any (λ kv. p kv.1 && k == kv.0) d ≡ found_with p (lookup k d)
  present [] u = refl
  present ((j, v) ∷ d) u = ground (arith, eq_iff j k, eq_iff k j, present d, absent d)

  -- A key stands in the sorted list of keys exactly if its value passes.
  contains-keys_where :
      (d : Dict String V) → Unique d → contains k (keys_where p d) ≡ found_with p (lookup k d)
  contains-keys_where d u =
      contains-any k (keys_where p d)
      ∙ any-sort_by text_le (λ j. k == j) (map (λ kv. kv.0) (select (λ kv. p kv.1) d))
      ∙ any-map (λ j. k == j) (λ kv. kv.0) (select (λ kv. p kv.1) d)
      ∙ any-select (λ kv. k == kv.0) (λ kv. p kv.1) d
      ∙ present d u

given_if_not : (b : Bool) (r : String) → is_some (if b then none else some r) ≡ not b
given_if_not true r = refl
given_if_not false r = refl

-- The status of a key is one of an audit.
abbrev pub is_audited : Dict String String → String → Bool
is_audited statuses k = found_with (λ s. contains s audited_statuses) (lookup k statuses)

module _ (show : Value → String) (ledger : List LedgerEntry) where
  missing_any :
      (candidates : Dict String Value) (audited : String → Bool)
      → not (
          is_empty (
            sort_texts
              (select (λ k. not (audited k)) (keys_where (serious_branch show ledger) candidates))))
        ≡ any (λ kv. serious_branch show ledger kv.1 && not (audited kv.0)) candidates
  missing_any candidates audited =
      let serious = serious_branch show ledger in
      nonempty-any (sort_texts (select (λ k. not (audited k)) (keys_where serious candidates)))
      ∙ any-sort_by text_le (λ k. true)
          (select (λ k. not (audited k)) (keys_where serious candidates))
      ∙ any-select (λ k. true) (λ k. not (audited k)) (keys_where serious candidates)
      ∙ any-sort_by text_le (λ k. not (audited k) && true)
          (map (λ kv. kv.0) (select (λ kv. serious kv.1) candidates))
      ∙ any-map (λ k. not (audited k) && true) (λ kv. kv.0) (select (λ kv. serious kv.1) candidates)
      ∙ any-select (λ kv. not (audited kv.0) && true) (λ kv. serious kv.1) candidates
      ∙ any-ext (λ kv. serious kv.1 && (not (audited kv.0) && true))
          (λ kv. serious kv.1 && not (audited kv.0)) candidates (λ kv. ground arith)

-- A follow-up is needed exactly if some candidate branch is serious and no audit is recorded as the
-- status of its key; and exactly then there is a reason to give.
pub branch_coverage-follow_up :
    (show : Value → String) (ledger : List LedgerEntry) (tails : Option ℕ)
    (artifacts : List Artifact)
    → let candidates = candidates_of show tails artifacts [] in
      let statuses = statuses_of show candidates artifacts [] in
      let coverage = branch_coverage show ledger tails artifacts in
      (coverage.needs_follow_up
        ≡ any (λ kv. serious_branch show ledger kv.1 && not (is_audited statuses kv.0)) candidates)
      × (is_some coverage.reason ≡ coverage.needs_follow_up)
unfolding branch_coverage coverage_of
branch_coverage-follow_up show ledger tails artifacts =
    let candidates = candidates_of show tails artifacts [] in
    let statuses = statuses_of show candidates artifacts [] in
    let audits = λ (s : String). contains s audited_statuses in
    let audited = λ (k : String). contains k (keys_where audits statuses) in
    let serious = serious_branch show ledger in
    (
      missing_any show ledger candidates audited
          ∙ any-ext (λ kv. serious kv.1 && not (audited kv.0))
              (λ kv. serious kv.1 && not (is_audited statuses kv.0)) candidates
              (λ kv.
                ap (λ b. serious kv.1 && not b)
                  (contains-keys_where audits kv.0 statuses
                    (statuses_of-Unique show candidates artifacts [] tt))),
      given_if_not _ _,
    )
