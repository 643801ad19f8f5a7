-- ===== src/Sim/Store.antt =====
-- engine/wolves/sim/results_store.py: the stored results. The blob is a text, which pydantic writes
-- and reads; the equality of two results and of two fixtures is a parameter.
use wolves_ai.Base.{
  ◌≡◌, ℕ, suc, Bool, true, false, not, String, Option, none, some, List, [], ◌∷◌, length, leb, eqb,
  if◌then◌else◌, nat_eq, string_eq, Key, ◌==◌, ◌&&◌, all,
}
use wolves_ai.Base.Dict.{Dict, lookup, insert, values}
use wolves_ai.Base.Sorted.{sort_by}
use wolves_ai.Sim.Overlay.{Fixture, PlayedResult}
pub mod Merge
pub mod Repeats
pub mod Ordered
mod Tests

pub record StoredResults : Type 0 where
  pub fetched_at : String
  pub results : Dict ℕ PlayedResult
  pub fixtures : List Fixture

-- `model_dump_json` and `model_validate_json`, which reads what it has written. A text that does not
-- validate makes the load raise; no such text is considered.
pub record Codec : Type 1 where
  pub Text : Type 0
  pub model_dump_json : StoredResults → Text
  pub model_validate_json : Text → StoredResults
  pub validate-dump : (s : StoredResults) → model_validate_json (model_dump_json s) ≡ s

-- The blob, and how often it was written.
pub record Blob (codec : Codec) : Type 0 where
  pub stored : Option codec.Text
  pub writes : ℕ

-- `d | e`
abbrev pub union {ℓ κ} : {K : Type ℓ} {V : Type κ} ⦃key : Key K⦄ → Dict K V → Dict K V → Dict K V
union d [] = d
union d ((k, v) ∷ e) = union (insert k v d) e

-- `{f.fixture_id: f for f in fixtures}`, on top of d
abbrev pub by_id : List Fixture → Dict ℕ Fixture → Dict ℕ Fixture
by_id [] d = d
by_id (f ∷ fs) d = by_id fs (insert f.fixture_id f d)

unfoldable pub merged_fixtures : List Fixture → List Fixture → List Fixture
merged_fixtures known fixtures =
    sort_by (λ f g. leb f.fixture_id g.fixture_id)
      (values (union (by_id known []) (by_id fixtures [])))

module _ (codec : Codec) where
  abbrev pub load : Blob codec → StoredResults
  load b = elim b.stored [
    | none ↦ record { fetched_at = ""; results = []; fixtures = [] }
    | some body ↦ codec.model_validate_json body
  ]

module _ ⦃result : Key PlayedResult⦄ ⦃fixture : Key Fixture⦄ where
  -- The entry is one of d.
  abbrev pub has : Dict ℕ PlayedResult → ℕ × PlayedResult → Bool
  has d (k, r) = elim (lookup k d) [ none ↦ false | some s ↦ s == r ]

  -- `d == e` of dictionaries, whose order does not count
  abbrev pub same_results : Dict ℕ PlayedResult → Dict ℕ PlayedResult → Bool
  same_results d e = eqb (length d) (length e) && all (has e) d

  abbrev pub same_fixtures : List Fixture → List Fixture → Bool
  same_fixtures [] [] = true
  same_fixtures (f ∷ fs) (g ∷ gs) = f == g && same_fixtures fs gs
  same_fixtures _ _ = false

  -- `merged`; an empty `fetched_at` counts as none
  abbrev pub merged_of : Option String → String → Dict ℕ PlayedResult → List Fixture → StoredResults
  merged_of fetched_at now results fixtures = record {
    fetched_at = elim fetched_at [ none ↦ now | some t ↦ if t == "" then now else t ];
    results = results;
    fixtures = fixtures;
  }

  unfoldable pub record_results :
      (codec : Codec)
      → Dict ℕ PlayedResult
      → List Fixture
      → Option String
      → String
      → Blob codec
      → StoredResults × Blob codec
  record_results codec results fixtures fetched_at now b =
      let known = load codec b in
      let all_results = union known.results results in
      let all_fixtures = merged_fixtures known.fixtures fixtures in
      if same_results all_results known.results && same_fixtures all_fixtures known.fixtures
      then (known, b)
      else let merged = merged_of fetched_at now all_results all_fixtures in
        (merged, record { stored = some (codec.model_dump_json merged); writes = suc b.writes })
