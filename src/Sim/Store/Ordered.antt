-- ===== src/Sim/Store/Ordered.antt =====
-- engine/wolves/sim/results_store.py: the stored results stay in order.
use wolves_ai.Base.{
  ℕ, ◌≡◌, ◌≢◌, ◌<◌, Bool, String, Option, none, List, [], ◌∷◌, leb, nat_eq, Key, arith,
}
use wolves_ai.Base.Dict.{Dict, lookup, insert, values, Unique, insert-Unique}
use wolves_ai.Base.Sorted.{insert_by, sort_by}
use wolves_ai.Sim.Overlay.{Fixture, PlayedResult}
use wolves_ai.Sim.Store.{
  Blob, Codec, StoredResults, union, by_id, merged_fixtures, load, merged_of, record_results,
}
use wolves_ai.Sim.Store.Merge.{Keyed, by_id-Keyed, by_id-Unique, union-Keyed}
use wolves_ai.Sim.Store.Repeats.{Above, Increasing}

abbrev before : Fixture → Fixture → Bool
before f g = leb f.fixture_id g.fixture_id

-- No fixture of the list has the id.
abbrev Absent : ℕ → List Fixture → Type 0
Absent i [] = Unit
Absent i (f ∷ fs) = (f.fixture_id ≢ i) × Absent i fs

abbrev Distinct : List Fixture → Type 0
Distinct [] = Unit
Distinct (f ∷ fs) = Absent f.fixture_id fs × Distinct fs

union-Unique {ℓ} : {V : Type ℓ} (d e : Dict ℕ V) → Unique d → Unique (union d e)
union-Unique d [] u = u
union-Unique d ((k, v) ∷ e) u = union-Unique (insert k v d) e (insert-Unique k v d u)

values-Absent : (i : ℕ) (d : Dict ℕ Fixture) → Keyed d → lookup i d ≡ none → Absent i (values d)
values-Absent i [] u e = tt
values-Absent i ((k, f) ∷ d) (same, u) e = ground (arith, values-Absent i d u)

values-Distinct : (d : Dict ℕ Fixture) → Keyed d → Unique d → Distinct (values d)
values-Distinct [] u v = tt
values-Distinct ((k, f) ∷ d) (same, u) (fresh, v) =
    ground (arith, values-Absent k d u, values-Distinct d u v)

insert_by-Absent :
    (i : ℕ) (f : Fixture) (fs : List Fixture)
    → f.fixture_id ≢ i
    → Absent i fs
    → Absent i (insert_by before f fs)
insert_by-Absent i f [] ne a = (ne, tt)
insert_by-Absent i f (g ∷ fs) ne a = ground (arith, insert_by-Absent i f fs)

sort-Absent : (i : ℕ) (fs : List Fixture) → Absent i fs → Absent i (sort_by before fs)
sort-Absent i [] a = tt
sort-Absent i (f ∷ fs) (ne, a) = insert_by-Absent i f (sort_by before fs) ne (sort-Absent i fs a)

Above-trans : (i j : ℕ) (fs : List Fixture) → i < j → Above j fs → Above i fs
Above-trans i j [] h a = tt
Above-trans i j (f ∷ fs) h a = ground (arith, Above-trans i j fs)

insert_by-Above :
    (i : ℕ) (f : Fixture) (fs : List Fixture)
    → i < f.fixture_id
    → Above i fs
    → Above i (insert_by before f fs)
insert_by-Above i f [] h a = (h, tt)
insert_by-Above i f (g ∷ fs) h a = ground (arith, insert_by-Above i f fs)

insert_by-Increasing :
    (f : Fixture) (fs : List Fixture)
    → Absent f.fixture_id fs
    → Increasing fs
    → Increasing (insert_by before f fs)
insert_by-Increasing f [] n i = (tt, tt)
insert_by-Increasing f (g ∷ fs) (ne, n) (a, i) = ground (
  arith,
  insert_by-Increasing f fs,
  insert_by-Above g.fixture_id f fs,
  Above-trans f.fixture_id g.fixture_id fs,
)

sort-Increasing : (fs : List Fixture) → Distinct fs → Increasing (sort_by before fs)
sort-Increasing [] d = tt
sort-Increasing (f ∷ fs) (n, d) =
    insert_by-Increasing f (sort_by before fs) (sort-Absent f.fixture_id fs n)
      (sort-Increasing fs d)

merged-Increasing : (known fixtures : List Fixture) → Increasing (merged_fixtures known fixtures)
unfolding merged_fixtures
merged-Increasing known fixtures =
    let k = by_id known [] in
    let n = by_id fixtures [] in
    sort-Increasing (values (union k n)) (
      values-Distinct (union k n)
        (union-Keyed k n (by_id-Keyed known [] tt) (by_id-Keyed fixtures [] tt))
        (union-Unique k n (by_id-Unique known [] tt)))

-- No match has two results, and the fixtures are in the order of their ids, none twice.
abbrev pub InOrder : StoredResults → Type 0
InOrder s = Unique s.results × Increasing s.fixtures

module _ ⦃result : Key PlayedResult⦄ ⦃fixture : Key Fixture⦄ where
  -- Where no match has two of the stored results and the stored fixtures are in the order of their
  -- ids, none twice, the same is true of what the next load finds after any poll.
  pub record_results-InOrder :
      (codec : Codec) (results : Dict ℕ PlayedResult) (fixtures : List Fixture)
      (fetched_at : Option String) (now : String) (b : Blob codec)
      → InOrder (load codec b)
      → InOrder (load codec (record_results codec results fixtures fetched_at now b).1)
  unfolding record_results
  record_results-InOrder codec results fixtures fetched_at now b o = ground (
    arith,
    union-Unique (load codec b).results results o.0,
    merged-Increasing (load codec b).fixtures fixtures,
    codec.validate-dump (
        merged_of fetched_at now (union (load codec b).results results)
          (merged_fixtures (load codec b).fixtures fixtures)),
  )
