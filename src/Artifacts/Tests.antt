-- ===== src/Artifacts/Tests.antt =====
-- The store's theorems at a run with one artifact, over a codec that keeps values as they are.
use wolves_ai.Base.{◌≡◌, refl, ◌≢◌, false, String, none, some, [], ◌∷◌, ◌++◌, string_eq}
use wolves_ai.Base.Decimal.{pad_three, decimal}
use wolves_ai.Base.Json.{obj, no_fields}
use wolves_ai.Artifacts.Ids.{evidence, quant, artifact_id}
use wolves_ai.Artifacts.{add, get, has, all_records, ok}
use wolves_ai.Artifacts.Plain.{plain, empty}
use wolves_ai.Artifacts.Fresh.{Inv, new_artifact}
use wolves_ai.Artifacts.Read.{add_lem}

empty-Inv : Inv plain empty
empty-Inv = record {
  named = λ i r h. cc;
  numbered = λ i r h. cc;
  backed = λ i r h. cc;
  known = λ i a h. cc;
}

artifact_id-runs : artifact_id quant 12 ≡ "quant-012"
unfolding artifact_id pad_three decimal
artifact_id-runs = refl

add_lem_example :
    let a = new_artifact plain evidence "n1" "found" (obj no_fields) none 0 empty in
    let (r, s') = add plain evidence "n1" "found" (obj no_fields) none 0 empty in
    (r ≡ ok a)
    × (has plain a.id empty ≡ false)
    × ((get plain a.id s').0 ≡ some a)
    × ((i : String) → i ≢ a.id → (get plain i s').0 ≡ (get plain i empty).0)
    × (all_records plain s' ≡ all_records plain empty ++ a.meta ∷ [])
    × Inv plain s'
add_lem_example = add_lem plain evidence "n1" "found" (obj no_fields) none 0 empty empty-Inv refl
