-- ===== src/Audit.antt =====
-- engine/wolves/agent/audit_policy.py and the factor audit of agent/validator.py: which rows of its own
-- audit a mixture owes, when quant registers it and when a forecast submits it. `show` is `str` of a
-- value that is no text. `heavy` says whether weights add up to LARGE_NON_BASE_WEIGHT, and `alive`
-- whether one is above BRANCH_SURVIVAL_MIN_WEIGHT.
pub mod Agree
mod Tests
use wolves_ai.Base.{
  ℕ, Bool, true, false, not, ◌&&◌, ◌||◌, String, Option, none, some, List, [], ◌∷◌, ◌++◌, map, any,
  select, contains, if◌then◌else◌, is_some, string_eq, ◌==◌,
}
use wolves_ai.Base.Dict.{Dict, lookup, insert}
use wolves_ai.Base.Json.{
  Value, null, bool, num, obj, Fields, no_fields, field, get, get_field, list_of, is_dict, truthy,
}
use wolves_ai.Base.Sorted.{sort_texts, sorted_set, distinct_texts, is_empty}
use wolves_ai.Base.Text.{codes, is_blank}
use wolves_ai.Graph.Coverage.{str_of, text_field, counts}
use wolves_ai.Submission.{Severity, hard, copy, quant_owned_issue_codes}

abbrev pub base_worlds : List String
base_worlds = "baseline" ∷ "model_base" ∷ "market_base" ∷ []

abbrev pub valid_audit_statuses : List String
valid_audit_statuses = "checked" ∷ "not_material" ∷ "not_applicable" ∷ "missing" ∷ []

abbrev killed_branch_statuses : List String
killed_branch_statuses = "below_floor" ∷ "collapsed" ∷ "rejected" ∷ []

abbrev base_branch_statuses : List String
base_branch_statuses = "merged_into_base" ∷ []

-- `isinstance(v, int | float)`
abbrev is_number : Value → Bool
is_number (num n) = true
is_number (bool b) = true
is_number _ = false

-- The summands of `non_base_mass`.
unfoldable pub non_base_weights : Fields → List Value
non_base_weights no_fields = []
non_base_weights (field name weight fs) =
    let others = non_base_weights fs in
    if not (contains name base_worlds) && is_number weight then weight ∷ others else others

abbrev has_field : String → Fields → Bool
has_field k fs = is_some (get_field k fs)

-- `required_keys`, in the order in which it adds them
unfoldable pub required_keys : Fields → Bool → Bool → Bool → Bool → List String
required_keys weights large stance previous priced =
    if not large && not stance
    then []
    else (if large then "mixture_spread" ∷ [] else [])
      ++ ((if previous then "previous_continuity" ∷ [] else [])
          ++ ((if has_field "model_base" weights && has_field "market_base" weights
                then "bases" ∷ []
                else [])
              ++ ((if stance then "market_gap" ∷ [] else [])
                  ++ (if priced then "ledger_pricing" ∷ [] else []))))

abbrev pub dict_of : Option Value → Option Fields
dict_of (some (obj fs)) = some fs
dict_of _ = none

abbrev pub checks_in : Option Value → Option (List Value)
checks_in audit = elim audit [ none ↦ none | some a ↦ list_of (get "checks" a) ]

abbrev pub status_in : Dict String String → String → String
status_in rows key = elim (lookup key rows) [ none ↦ "missing" | some s ↦ s ]

pub record Contradiction : Type 0 where
  pub key : String
  pub status : String
  pub survivors : List String

-- What the factor audit of the validator reads of a submission.
pub record Claims : Type 0 where
  pub market_justification : String
  pub gap_teams : List String
  pub has_news_impacts : Bool

-- A validation issue, with the names that its message lists.
pub record AuditIssue : Type 0 where
  pub code : String
  pub severity : Severity
  pub names : List String

abbrev pub issue : String → List String → AuditIssue
issue code names = record { code = code; severity = hard; names = names }

-- `if names: issues.append(…)`
abbrev pub issue_if : String → List String → List AuditIssue
issue_if code names = if is_empty names then [] else issue code names ∷ []

abbrev pub has_market_stance : Claims → Bool
has_market_stance claims =
    not (is_blank (codes claims.market_justification)) || not (is_empty claims.gap_teams)

abbrev pub settled : String → Bool
settled status = contains status ("checked" ∷ "not_material" ∷ [])

-- `payload.get(k) is None`
abbrev is_none : Option Value → Bool
is_none none = true
is_none (some null) = true
is_none (some _) = false

abbrev pub is_computed : Value → Bool
is_computed payload = is_some (get "conditionals" payload) || is_some (get "noise_floor_pp" payload)

-- The rows that are there, against those that the submission owes.
abbrev pub coverage_issues : List String → Dict String String → List AuditIssue
coverage_issues required rows =
    issue_if "factor_audit_missing_coverage"
      (sort_texts (select (λ key. not (is_some (lookup key rows))) required))
    ++ issue_if "factor_audit_missing_coverage" (
        sort_texts (
          select (λ key. elim (lookup key rows) [ none ↦ false | some s ↦ s == "missing" ])
            required))

module _ (heavy : List Value → Bool) where
  unfoldable pub is_large_non_base : Fields → Bool
  is_large_non_base weights = heavy (non_base_weights weights)

module _ (show : Value → String) where
  -- `str(check.get(k))`
  abbrev str_get : String → Value → String
  str_get k v = elim (get k v) [ none ↦ show null | some w ↦ str_of show w ]

  abbrev pub rows_from : List Value → Dict String String → Dict String String
  rows_from [] rows = rows
  rows_from (c ∷ cs) rows =
      rows_from cs
        (if counts show c then insert (str_get "key" c) (str_get "status" c) rows else rows)

  abbrev pub rows_of : List Value → Dict String String
  rows_of checks = rows_from checks []

  unfoldable pub audit_check_status : Value → Dict String String
  audit_check_status payload = elim (checks_in (get "factor_audit" payload)) [
    | none ↦ []
    | some checks ↦ rows_of checks
  ]

  abbrev teams_in : List Value → List String
  teams_in [] = []
  teams_in (c ∷ cs) =
      let others = teams_in cs in
      if is_dict c && str_get "key" c == "market_gap" && settled (str_get "status" c)
      then (elim (list_of (get "teams" c)) [ none ↦ [] | some ts ↦ map (str_of show) ts ]) ++ others
      else others

  abbrev market_issues : Claims → List Value → Dict String String → List AuditIssue
  market_issues claims checks rows =
      (if has_market_stance claims
          && not (elim (lookup "market_gap" rows) [ none ↦ false | some s ↦ settled s ])
        then issue "market_audit_missing" [] ∷ []
        else [])
      ++ issue_if "market_audit_missing_team"
          (sorted_set (select (λ team. not (contains team (teams_in checks))) claims.gap_teams))

  abbrev malformed_rows : (Value → Bool) → List Value → List String
  malformed_rows bad checks =
      sorted_set (map (str_get "key") (select (λ c. is_dict c && bad c) checks))

  abbrev pub bad_row_issues : List Value → List AuditIssue
  bad_row_issues checks =
      issue_if "factor_audit_malformed"
        (malformed_rows (λ c. not (contains (str_get "status" c) valid_audit_statuses)) checks)
      ++ issue_if "factor_audit_malformed"
          (malformed_rows (λ c. is_blank (codes (text_field show "summary" c))) checks)

  abbrev pub stance_issues : Claims → List Value → Bool → List AuditIssue
  stance_issues claims checks large =
      market_issues claims checks (rows_of checks)
      ++ (if large && not (is_some (lookup "mixture_spread" (rows_of checks)))
          then record { code = "factor_audit_spread_missing"; severity = copy; names = [] } ∷ []
          else [])

  abbrev pub row_issues : Claims → List Value → List String → Bool → List AuditIssue
  row_issues claims checks required large =
      bad_row_issues checks
      ++ (coverage_issues required (rows_of checks) ++ stance_issues claims checks large)

module _ (show : Value → String) (heavy : List Value → Bool) where
  unfoldable pub intrinsic_missing_rows : Value → List String
  intrinsic_missing_rows payload = elim (dict_of (get "weights" payload)) [
    | none ↦ []
    | some weights ↦
        if not (truthy (get "worlds" payload))
        then []
        else let required =
            required_keys weights (is_large_non_base heavy weights) false false false in
          let status = audit_check_status show payload in
          if is_empty required
          then []
          else sort_texts (select (λ key. status_in status key == "missing") required)
  ]

  unfoldable pub advisory_missing_rows : Value → List String
  advisory_missing_rows payload = elim (dict_of (get "weights" payload)) [
    | none ↦ []
    | some weights ↦
        if not (truthy (get "worlds" payload)) || not (is_large_non_base heavy weights)
        then []
        else if contains (status_in (audit_check_status show payload) "market_gap")
            ("checked" ∷ "not_material" ∷ [])
        then []
        else "market_gap" ∷ []
  ]

  unfoldable pub check_factor_audit : Claims → Value → Bool → List AuditIssue
  check_factor_audit claims payload previous = elim (dict_of (get "weights" payload)) [
    | none ↦ []
    | some weights ↦
        let large = is_large_non_base heavy weights in
        let stance = has_market_stance claims in
        let priced = truthy (get "priced_items" payload) || claims.has_news_impacts in
        let audit = get "factor_audit" payload in
        if not (truthy (get "weights" payload))
          || not (truthy (get "worlds" payload))
          || not (is_computed payload)
        then []
        else if is_none audit
        then (if large || stance then issue "factor_audit_missing" [] ∷ [] else [])
        else elim (checks_in audit) [
          | none ↦ issue "factor_audit_malformed" [] ∷ []
          | some checks ↦
              row_issues show claims checks (required_keys weights large stance previous priced)
                large
        ]
  ]

module _ (show : Value → String) (alive : Value → Bool) where
  abbrev survives : Fields → String → Bool
  survives weights name =
      not (contains name base_worlds)
      && (elim (get_field name weights) [ none ↦ false | some weight ↦ alive weight ])

  abbrev contradiction_of : Fields → Value → Option Contradiction
  contradiction_of weights check =
      let status = text_field show "status" check in
      elim (list_of (get "world_names" check)) [
        | none ↦ none
        | some names ↦
            let survivors = sort_texts (select (survives weights) (map (str_of show) names)) in
            if not (is_dict check)
              || not (contains status (killed_branch_statuses ++ base_branch_statuses))
              || is_empty survivors
            then none
            else some
                (record { key = str_get show "key" check; status = status; survivors = survivors })
      ]

  abbrev contradictions_in : Fields → List Value → List Contradiction
  contradictions_in weights [] = []
  contradictions_in weights (c ∷ cs) =
      let others = contradictions_in weights cs in
      elim (contradiction_of weights c) [ none ↦ others | some d ↦ d ∷ others ]

  unfoldable pub branch_audit_contradictions : Value → List Contradiction
  branch_audit_contradictions payload = elim (checks_in (get "branch_audit" payload)) [
    | none ↦ []
    | some checks ↦ elim (dict_of (get "weights" payload)) [
      | none ↦ []
      | some weights ↦ contradictions_in weights checks
    ]
  ]

  -- What `_check_audit_consistency` says of them.
  unfoldable pub check_audit_consistency : Value → List AuditIssue
  check_audit_consistency payload =
      let found = branch_audit_contradictions payload in
      if is_empty found
      then []
      else issue "branch_audit_self_inconsistent" (map (λ d. d.key) found) ∷ []
