-- ===== src/Audit/Tests.antt =====
-- The factor audit at fixed inputs. Numbers are hundredths here, and weights are large from 15 on.
use wolves_ai.Base.{
  ℕ, ◌+◌, ◌≡◌, refl, Bool, true, false, String, List, [], ◌∷◌, any, leb, ltb, arith,
}
use wolves_ai.Base.Json.{Value, null, num, text, arr, obj, no_items, item, no_fields, field}
use wolves_ai.Audit.{
  Claims, issue, non_base_weights, required_keys, is_large_non_base, audit_check_status,
  intrinsic_missing_rows, advisory_missing_rows, check_factor_audit, branch_audit_contradictions,
}
use wolves_ai.Audit.Agree.{blames_quant, intrinsic-blamed}

abbrev show : Value → String
show null = "None"
show _ = "?"

abbrev total : List Value → ℕ
total [] = 0
total (num n ∷ vs) = n + total vs
total (_ ∷ vs) = total vs

abbrev heavy : List Value → Bool
heavy vs = leb 15 (total vs)

abbrev alive : Value → Bool
alive (num n) = ltb 0 n
alive _ = false

abbrev row : String → String → Value
row key status =
    obj (
      field "key" (text key) (field "status" (text status) (field "summary" (text "ok") no_fields)))

abbrev mixture : Value
mixture = obj (
    field "weights" (obj (field "model_base" (num 60) (field "heat" (num 40) no_fields))) (
      field "worlds" (obj (field "heat" (obj no_fields) no_fields)) (
        field "conditionals" (obj no_fields) (
          field "factor_audit"
            (obj (field "checks" (arr (item (row "mixture_spread" "missing") no_items)) no_fields))
            (field "branch_audit"
              (obj (
                field "checks"
                  (arr (
                    item
                      (obj (
                        field "key" (text "b1") (
                          field "status" (text "rejected")
                            (field "world_names" (arr (item (text "heat") no_items)) no_fields))))
                      no_items))
                  no_fields))
              no_fields)))))

abbrev claims : Claims
claims = record {
  market_justification = "Brazil";
  gap_teams = "bra" ∷ [];
  has_news_impacts = false;
}

rows_run :
    (intrinsic_missing_rows show heavy mixture ≡ "mixture_spread" ∷ [])
    × (advisory_missing_rows show heavy mixture ≡ "market_gap" ∷ [])
    × (check_factor_audit show heavy claims mixture false
        ≡ issue "factor_audit_missing_coverage" ("market_gap" ∷ [])
          ∷ issue "factor_audit_missing_coverage" ("mixture_spread" ∷ [])
          ∷ issue "market_audit_missing" []
          ∷ issue "market_audit_missing_team" ("bra" ∷ [])
          ∷ [])
    × (branch_audit_contradictions show alive mixture
        ≡ record { key = "b1"; status = "rejected"; survivors = "heat" ∷ [] } ∷ [])
unfolding intrinsic_missing_rows advisory_missing_rows check_factor_audit
    branch_audit_contradictions is_large_non_base non_base_weights required_keys audit_check_status
rows_run = (refl, refl, refl, refl)

intrinsic-blamed_example :
    any blames_quant (check_factor_audit show heavy claims mixture false) ≡ true
intrinsic-blamed_example =
    intrinsic-blamed show heavy claims mixture false refl refl (ground (arith, rows_run.0))
