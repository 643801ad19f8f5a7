-- ===== src/Sim/Store/Repeats.antt =====
-- engine/wolves/sim/results_store.py: a poll that says what is known writes nothing.
use wolves_ai.Base.{
  append_nil, append_one, ℕ, ◌≡◌, ◌<◌, ◌++◌, refl, sym, ◌∙◌, ap, true, String, Option, none, some,
  List, [], ◌∷◌, leb, nat_eq, Key, all, arith,
}
use wolves_ai.Base.Dict.{Dict, lookup, insert, values, Unique, lookup-insert, values-insert_fresh}
use wolves_ai.Base.Sorted.{sort_by}
use wolves_ai.Sim.Overlay.{Fixture, PlayedResult}
use wolves_ai.Sim.Store.Merge.{by_id-Unique}
use wolves_ai.Sim.Store.{
  Blob, Codec, union, by_id, merged_fixtures, load, has, same_results, same_fixtures,
  record_results,
}

-- What d says, e says too.
abbrev pub Within {ℓ} : {V : Type ℓ} → Dict ℕ V → Dict ℕ V → Type ℓ
Within {V = V} d e = (k : ℕ) (v : V) → lookup k d ≡ some v → lookup k e ≡ some v

abbrev pub Above : ℕ → List Fixture → Type 0
Above i [] = Unit
Above i (f ∷ fs) = (i < f.fixture_id) × Above i fs

-- The ids of the fixtures increase.
abbrev pub Increasing : List Fixture → Type 0
Increasing [] = Unit
Increasing (f ∷ fs) = Above f.fixture_id fs × Increasing fs

abbrev Fresh : Dict ℕ Fixture → List Fixture → Type 0
Fresh d [] = Unit
Fresh d (f ∷ fs) = (lookup f.fixture_id d ≡ none) × Fresh d fs

insert-known {ℓ} :
    {V : Type ℓ} (k : ℕ) (v : V) (d : Dict ℕ V) → lookup k d ≡ some v → insert k v d ≡ d
insert-known k v [] e = absurd (ground arith)
insert-known k v ((j, w) ∷ d) e = ground (arith, insert-known k v d)

tail-Within {ℓ} :
    {V : Type ℓ} (k : ℕ) (v : V) (d e : Dict ℕ V)
    → Unique ((k, v) ∷ d)
    → Within ((k, v) ∷ d) e
    → Within d e
tail-Within k v d e (fresh, u) w j x q = ground (arith, w j x)

union-known {ℓ} : {V : Type ℓ} (d e : Dict ℕ V) → Unique e → Within e d → union d e ≡ d
union-known d [] u w = refl
union-known d ((k, v) ∷ e) (fresh, u) w =
    ap (λ d'. union d' e) (insert-known k v d (w k v (ground arith)))
    ∙ union-known d e u (tail-Within k v e d (fresh, u) w)

insert-Fresh :
    (f : Fixture) (d : Dict ℕ Fixture) (fs : List Fixture)
    → Above f.fixture_id fs
    → Fresh d fs
    → Fresh (insert f.fixture_id f d) fs
insert-Fresh f d [] a h = tt
insert-Fresh f d (g ∷ fs) a h =
    ground (arith, lookup-insert f.fixture_id g.fixture_id f d, insert-Fresh f d fs)

values-by_id :
    (fs : List Fixture) (d : Dict ℕ Fixture)
    → Increasing fs
    → Fresh d fs
    → values (by_id fs d) ≡ values d ++ fs
values-by_id [] d i h = sym (append_nil (values d))
values-by_id (f ∷ fs) d (a, i) (e, h) =
    values-by_id fs (insert f.fixture_id f d) i (insert-Fresh f d fs a h)
    ∙ ap (λ l. l ++ fs) (values-insert_fresh f.fixture_id f d e)
    ∙ append_one (values d) f fs

sort_sorted :
    (fs : List Fixture) → Increasing fs → sort_by (λ f g. leb f.fixture_id g.fixture_id) fs ≡ fs
sort_sorted [] i = refl
sort_sorted (f ∷ []) i = refl
sort_sorted (f ∷ g ∷ fs) ((a, _), i) = ground (arith, sort_sorted (g ∷ fs) i)

nothing-Fresh : (fs : List Fixture) → Fresh [] fs
nothing-Fresh [] = tt
nothing-Fresh (f ∷ fs) = (refl, nothing-Fresh fs)

merged-known :
    (known fixtures : List Fixture)
    → Increasing known
    → Within (by_id fixtures []) (by_id known [])
    → merged_fixtures known fixtures ≡ known
unfolding merged_fixtures
merged-known known fixtures i w =
    ap (λ d. sort_by (λ f g. leb f.fixture_id g.fixture_id) (values d))
      (union-known (by_id known []) (by_id fixtures []) (by_id-Unique fixtures [] tt) w)
    ∙ ap (sort_by (λ f g. leb f.fixture_id g.fixture_id))
        (values-by_id known [] i (nothing-Fresh known))
    ∙ sort_sorted known i

module _ ⦃result : Key PlayedResult⦄ ⦃fixture : Key Fixture⦄ where
  has-Within : (d e : Dict ℕ PlayedResult) → Unique d → Within d e → all (has e) d ≡ true
  has-Within [] e u w = refl
  has-Within ((k, r) ∷ d) e (fresh, u) w = ground (
    arith,
    w k r (ground arith),
    result.same_iff r r,
    has-Within d e u (tail-Within k r d e (fresh, u) w),
  )

  same_fixtures_refl : (fs : List Fixture) → same_fixtures fs fs ≡ true
  same_fixtures_refl [] = refl
  same_fixtures_refl (f ∷ fs) = ground (arith, fixture.same_iff f f, same_fixtures_refl fs)

  same_results_refl : (d : Dict ℕ PlayedResult) → Unique d → same_results d d ≡ true
  same_results_refl d u = ground (arith, has-Within d d u (λ k r e. e))

  -- Where no match stands twice among the known and among the polled results, the known fixtures are in
  -- the order of their ids, and every polled result and fixture is known as it is, the poll returns
  -- what is known and the blob is not written.
  pub record_results-repeats :
      (codec : Codec) (results : Dict ℕ PlayedResult) (fixtures : List Fixture)
      (fetched_at : Option String) (now : String) (b : Blob codec)
      → Unique (load codec b).results
      → Unique results
      → Increasing (load codec b).fixtures
      → Within results (load codec b).results
      → Within (by_id fixtures []) (by_id (load codec b).fixtures [])
      → record_results codec results fixtures fetched_at now b ≡ (load codec b, b)
  unfolding record_results
  record_results-repeats codec results fixtures fetched_at now b u u' i w w' =
      let known = (load codec b).results in
      ground (
        arith,
        union-known known results u' w,
        merged-known (load codec b).fixtures fixtures i w',
        same_results_refl known u,
        same_fixtures_refl (load codec b).fixtures,
      )
