-- ===== src/Sim/Store/Merge.antt =====
-- engine/wolves/sim/results_store.py: what a poll changes of the stored results.
use wolves_ai.Base.{
  ℕ, ◌≡◌, refl, sym, ◌∙◌, ap, Bool, true, String, Option, none, some, List, [], ◌∷◌, leb, eqb,
  nat_eq, Key, ◌||◌, all, any, arith, inl, inr, Option-cases, is_some,
}
use wolves_ai.Base.Dict.{Dict, lookup, insert, values, Unique, insert-Unique, lookup-insert}
use wolves_ai.Base.Sorted.{any-sort_by}
use wolves_ai.Sim.Overlay.{Fixture, PlayedResult}
use wolves_ai.Sim.Store.{
  Blob, Codec, union, by_id, merged_fixtures, load, merged_of, has, same_fixtures, record_results,
  has,
}

-- What stands in e, or else in d.
abbrev pub lookup_either {ℓ} : {V : Type ℓ} → ℕ → Dict ℕ V → Dict ℕ V → Option V
lookup_either k e d = elim (lookup k e) [ some v ↦ some v | none ↦ lookup k d ]

lookup-union {ℓ} :
    {V : Type ℓ} (k : ℕ) (d e : Dict ℕ V) → Unique e → lookup k (union d e) ≡ lookup_either k e d
lookup-union k d [] u = refl
lookup-union k d ((j, v) ∷ e) (fresh, u) =
    ground (arith, lookup-union k (insert j v d) e u, lookup-insert j k v d)

-- The fixtures of d stand under their ids.
abbrev pub Keyed : Dict ℕ Fixture → Type 0
Keyed [] = Unit
Keyed ((k, f) ∷ d) = (k ≡ f.fixture_id) × Keyed d

abbrev pub has_id : ℕ → List Fixture → Bool
has_id i fs = any (λ f. eqb f.fixture_id i) fs

insert-Keyed : (f : Fixture) (d : Dict ℕ Fixture) → Keyed d → Keyed (insert f.fixture_id f d)
insert-Keyed f [] u = (refl, tt)
insert-Keyed f ((k, g) ∷ d) u = ground (arith, insert-Keyed f d)

pub union-Keyed : (d e : Dict ℕ Fixture) → Keyed d → Keyed e → Keyed (union d e)
union-Keyed d [] u v = u
union-Keyed d ((k, f) ∷ e) u (same, v) =
    union-Keyed (insert k f d) e (rw (same) (insert-Keyed f d u)) v

pub by_id-Keyed : (fs : List Fixture) (d : Dict ℕ Fixture) → Keyed d → Keyed (by_id fs d)
by_id-Keyed [] d u = u
by_id-Keyed (f ∷ fs) d u = by_id-Keyed fs (insert f.fixture_id f d) (insert-Keyed f d u)

has_id-values : (i : ℕ) (d : Dict ℕ Fixture) → Keyed d → has_id i (values d) ≡ is_some (lookup i d)
has_id-values i [] u = refl
has_id-values i ((k, f) ∷ d) (same, u) = ground (arith, has_id-values i d u)

lookup-by_id :
    (i : ℕ) (fs : List Fixture) (d : Dict ℕ Fixture)
    → is_some (lookup i (by_id fs d)) ≡ (has_id i fs || is_some (lookup i d))
lookup-by_id i [] d = refl
lookup-by_id i (f ∷ fs) d =
    ground (arith, lookup-by_id i fs (insert f.fixture_id f d), lookup-insert f.fixture_id i f d)

pub by_id-Unique : (fs : List Fixture) (d : Dict ℕ Fixture) → Unique d → Unique (by_id fs d)
by_id-Unique [] d u = u
by_id-Unique (f ∷ fs) d u =
    by_id-Unique fs (insert f.fixture_id f d) (insert-Unique f.fixture_id f d u)

merged-has :
    (i : ℕ) (known fixtures : List Fixture)
    → has_id i (merged_fixtures known fixtures) ≡ (has_id i known || has_id i fixtures)
unfolding merged_fixtures
merged-has i known fixtures =
    let k = by_id known [] in
    let n = by_id fixtures [] in
    ground (
      arith,
      any-sort_by (λ f g. leb f.fixture_id g.fixture_id) (λ f. eqb f.fixture_id i)
          (values (union k n)),
      has_id-values i (union k n)
          (union-Keyed k n (by_id-Keyed known [] tt) (by_id-Keyed fixtures [] tt)),
      lookup-union i k n (by_id-Unique fixtures [] tt),
      lookup-by_id i known [],
      lookup-by_id i fixtures [],
    )

module _ ⦃result : Key PlayedResult⦄ ⦃fixture : Key Fixture⦄ where
  same_fixtures_equal : (fs gs : List Fixture) → same_fixtures fs gs ≡ true → fs ≡ gs
  same_fixtures_equal [] [] e = refl
  same_fixtures_equal [] (g ∷ gs) e = absurd (ground arith)
  same_fixtures_equal (f ∷ fs) [] e = absurd (ground arith)
  same_fixtures_equal (f ∷ fs) (g ∷ gs) e =
      ground (arith, fixture.same_iff f g, same_fixtures_equal fs gs)

  has-found :
      (j : ℕ) (s : PlayedResult) (e : Dict ℕ PlayedResult)
      → has e (j, s) ≡ true
      → lookup j e ≡ some s
  has-found j s e h = elim (Option-cases (lookup j e)) [
    | inl n ↦ absurd (ground arith)
    | inr (t, q) ↦ ground (arith, result.same_iff t s)
  ]

  has-lookup :
      (k : ℕ) (r : PlayedResult) (d e : Dict ℕ PlayedResult)
      → all (has e) d ≡ true
      → lookup k d ≡ some r
      → lookup k e ≡ some r
  has-lookup k r [] e h l = absurd (ground arith)
  has-lookup k r ((j, s) ∷ d) e h l = ground (arith, has-found j s e, has-lookup k r d e)

  -- A union that adds nothing says what is known.
  unchanged :
      (k : ℕ) (known results : Dict ℕ PlayedResult)
      → Unique results
      → all (has known) (union known results) ≡ true
      → lookup k known ≡ lookup_either k results known
  unchanged k known results u h =
      let found = lookup-union k known results u in
      elim (Option-cases (lookup k (union known results))) [
        | inl n ↦ ground (arith, found)
        | inr (r, e) ↦ ground (arith, found, has-lookup k r (union known results) known h e)
      ]

  unchanged-ids :
      (i : ℕ) (known fixtures : List Fixture)
      → same_fixtures (merged_fixtures known fixtures) known ≡ true
      → has_id i known ≡ (has_id i known || has_id i fixtures)
  unchanged-ids i known fixtures e =
      ap (has_id i) (sym (same_fixtures_equal (merged_fixtures known fixtures) known e))
      ∙ merged-has i known fixtures

  -- Whether the blob is written or not, the results afterwards have under each match the polled
  -- result, or else the one known before, and the fixtures have exactly the ids of the known and of
  -- the polled ones, where no match stands twice among the polled results; what is returned is
  -- what the next load finds.
  pub record_results-Merges :
      (codec : Codec) (results : Dict ℕ PlayedResult) (fixtures : List Fixture)
      (fetched_at : Option String) (now : String) (b : Blob codec) (k i : ℕ)
      → Unique results
      → let (s, b') = record_results codec results fixtures fetched_at now b in
        (lookup k s.results ≡ lookup_either k results (load codec b).results)
        × (has_id i s.fixtures ≡ (has_id i (load codec b).fixtures || has_id i fixtures))
        × (load codec b' ≡ s)
  unfolding record_results
  record_results-Merges codec results fixtures fetched_at now b k i u =
      let known = (load codec b).results in
      ground (
        arith,
        unchanged k known results u,
        lookup-union k known results u,
        merged-has i (load codec b).fixtures fixtures,
        unchanged-ids i (load codec b).fixtures fixtures,
        codec.validate-dump (
            merged_of fetched_at now (union (load codec b).results results)
              (merged_fixtures (load codec b).fixtures fixtures)),
      )
