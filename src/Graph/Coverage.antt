-- ===== src/Graph/Coverage.antt =====
-- engine/wolves/graph/branch_coverage.py: which of the hypotheses that research and critique have
-- proposed still wait for quant. `show` is Python's `str` of a value that is no text. A field that
-- the writers fill with a list counts as empty where it holds no list.
pub mod Status
pub mod FollowUp
mod Tests
use wolves_ai.Base.{
  ℕ, Bool, true, false, not, ◌&&◌, ◌||◌, String, Option, none, some, List, [], ◌∷◌, ◌++◌, map, any,
  leb, select, contains, take, if◌then◌else◌, is_some, string_eq, ◌==◌, eqb,
}
use wolves_ai.Base.Decimal.{append}
use wolves_ai.Base.Dict.{Dict, lookup, insert}
use wolves_ai.Base.Int.{is_nonzero}
use wolves_ai.Base.Json.{
  Value, null, bool, num, text, arr, obj, get, list_of, is_dict, truthy, with_field, items_or_empty,
}
use wolves_ai.Base.Sorted.{sort_by, sort_texts}
use wolves_ai.Base.Text.{codes, lower, same_codes}
use wolves_ai.Artifacts.{Artifact}
use wolves_ai.Artifacts.Ids.{evidence, critique, kind_beq}
use wolves_ai.Ledger.{LedgerEntry, status_eq, confirmed, probable}

abbrev pub priced_statuses : List String
priced_statuses = "priced" ∷ "carried_forward" ∷ []

abbrev pub collapsed_statuses : List String
collapsed_statuses = "collapsed" ∷ "below_floor" ∷ "rejected" ∷ []

abbrev pub merged_statuses : List String
merged_statuses = "merged_into_base" ∷ []

abbrev pub audited_statuses : List String
audited_statuses =
    priced_statuses ++ (collapsed_statuses ++ (merged_statuses ++ "covered_by_child" ∷ []))

pub record BranchCoverage : Type 0 where
  pub candidate_keys : List String
  pub serious_keys : List String
  pub audited_keys : List String
  pub priced_keys : List String
  pub collapsed_keys : List String
  pub rejected_keys : List String
  pub merged_keys : List String
  pub missing_keys : List String
  pub material_unaudited_keys : List String
  pub all_survivors_merged_into_base : Bool
  pub needs_follow_up : Bool
  pub reason : Option String

abbrev pub is_empty {ℓ} : {A : Type ℓ} → List A → Bool
is_empty [] = true
is_empty (_ ∷ _) = false

unfoldable pub has_signal : BranchCoverage → Bool
has_signal c = not (is_empty c.candidate_keys) || not (is_empty c.audited_keys)

-- `d.setdefault(k, v)`
abbrev pub set_default {ℓ} : {V : Type ℓ} → String → V → Dict String V → Dict String V
set_default k v d = elim (lookup k d) [ none ↦ d ++ (k, v) ∷ [] | some _ ↦ d ]

-- `", ".join(texts)`
abbrev join : List String → String
join [] = ""
join (s ∷ []) = s
join (s ∷ t ∷ ts) = append s (append ", " (join (t ∷ ts)))

abbrev pub cover : List String → Dict String String → Dict String String
cover [] statuses = statuses
cover (p ∷ ps) statuses = cover ps (set_default p "covered_by_child" statuses)

-- The keys, sorted, whose value passes the test.
abbrev pub keys_where {ℓ} : {V : Type ℓ} → (V → Bool) → Dict String V → List String
keys_where p d = sort_texts (map (λ kv. kv.0) (select (λ kv. p kv.1) d))

abbrev pub credible : LedgerEntry → Bool
credible e = status_eq e.status confirmed || status_eq e.status probable

abbrev pub material : LedgerEntry → Bool
material e = credible e && is_nonzero e.proposed_delta

module _ (show : Value → String) where
  -- `str(v)`
  abbrev pub str_of : Value → String
  str_of (text s) = s
  str_of v = show v

  -- `str(d.get(k) or "")`
  abbrev pub text_field : String → Value → String
  text_field k v = if truthy (get k v) then elim (get k v) [ none ↦ "" | some w ↦ str_of w ] else ""

  -- `{str(x) for x in d.get(k) or []}`
  abbrev pub texts_of : String → Value → List String
  texts_of k v = map str_of (items_or_empty (list_of (get k v)))

  abbrev confidence_is : String → Value → Bool
  confidence_is word branch =
      same_codes (lower (codes (text_field "confidence" branch))) (codes word)

  unfoldable pub confidence_rank : Value → ℕ
  confidence_rank branch =
      if confidence_is "high" branch then 2 else if confidence_is "medium" branch then 1 else 0

  abbrev is_valid : Value → Bool
  is_valid branch = is_dict branch && truthy (get "branch_id" branch)

  abbrev ranked : List Value → List Value
  ranked = sort_by (λ a b. leb (confidence_rank b) (confidence_rank a))

  abbrev limited : Option ℕ → List Value → List Value
  limited none valid = valid
  limited (some limit) valid = take limit (ranked valid)

  abbrev add_candidates : Bool → List Value → Dict String Value → Dict String Value
  add_candidates analytical [] candidates = candidates
  add_candidates analytical (b ∷ bs) candidates = add_candidates analytical bs (
      set_default (text_field "branch_id" b)
        (if analytical then with_field "_analytical" (bool true) b else b) candidates)

  unfoldable pub collect_candidates :
      String → Bool → Option ℕ → Value → Dict String Value → Dict String Value
  unfolding confidence_rank
  collect_candidates key analytical limit payload candidates = elim (list_of (get key payload)) [
    | none ↦ candidates
    | some branches ↦
        add_candidates analytical (limited limit (select is_valid branches)) candidates
  ]

  -- `check`, if it counts: a dict with a key
  abbrev pub counts : Value → Bool
  counts check = is_dict check && truthy (get "key" check)

  abbrev declared_parents : Option Value → List String
  declared_parents none = []
  declared_parents (some candidate) = texts_of "parent_branch_ids" candidate

  abbrev pub covered_parents : Dict String Value → Value → List String
  covered_parents candidates check =
      select (λ p. contains p (texts_of "parent_branch_ids" check) && is_some (lookup p candidates))
        (declared_parents (lookup (text_field "key" check) candidates))

  -- One round of the loop over the checks.
  unfoldable pub audit_check : Dict String Value → Value → Dict String String → Dict String String
  audit_check candidates check statuses =
      let status = text_field "status" check in
      let set = insert (text_field "key" check) status statuses in
      if counts check
      then if contains status audited_statuses
        then cover (covered_parents candidates check) set
        else set
      else statuses

  unfoldable pub audit_checks :
      Dict String Value → List Value → Dict String String → Dict String String
  unfolding audit_check
  audit_checks candidates [] statuses = statuses
  audit_checks candidates (check ∷ checks) statuses =
      audit_checks candidates checks (audit_check candidates check statuses)

  -- The checks of a payload; none, if it has no audit with a list of them.
  abbrev pub checks_of : Value → List Value
  checks_of payload = elim (get "branch_audit" payload) [
    | none ↦ []
    | some audit ↦ items_or_empty (list_of (get "checks" audit))
  ]

  unfoldable pub collect_audit_statuses :
      Dict String Value → Value → Dict String String → Dict String String
  unfolding audit_checks
  collect_audit_statuses candidates payload statuses =
      audit_checks candidates (checks_of payload) statuses

  unfoldable pub serious_branch : List LedgerEntry → Value → Bool
  serious_branch ledger branch =
      let source_ids = texts_of "source_ids" branch in
      let cites = λ (p : LedgerEntry → Bool). any (λ e. p e && contains e.id source_ids) ledger in
      if is_empty source_ids
      then truthy (get "_analytical" branch)
      else cites material
        || (confidence_is "medium" branch || confidence_is "high" branch) && cites credible

  abbrev collect_from : Option ℕ → Artifact → Dict String Value → Dict String Value
  collect_from max_critic_tails a candidates = elim a.kind [
    | evidence ↦ collect_candidates "candidate_branches" false none a.payload candidates
    | critique ↦ collect_candidates "tail_branches" true max_critic_tails a.payload candidates
    | _ ↦ candidates
  ]

  unfoldable pub candidates_of : Option ℕ → List Artifact → Dict String Value → Dict String Value
  unfolding collect_candidates
  candidates_of tails [] candidates = candidates
  candidates_of tails (a ∷ rest) candidates =
      candidates_of tails rest (collect_from tails a candidates)

  unfoldable pub statuses_of :
      Dict String Value → List Artifact → Dict String String → Dict String String
  unfolding collect_audit_statuses
  statuses_of candidates [] statuses = statuses
  statuses_of candidates (a ∷ rest) statuses =
      statuses_of candidates rest (collect_audit_statuses candidates a.payload statuses)

  -- What the candidates and the statuses come to.
  unfoldable pub coverage_of :
      List LedgerEntry → Dict String Value → Dict String String → BranchCoverage
  coverage_of ledger candidates statuses =
      let serious = keys_where (serious_branch ledger) candidates in
      let audited = keys_where (λ s. contains s audited_statuses) statuses in
      let priced = keys_where (λ s. contains s priced_statuses) statuses in
      let merged = keys_where (λ s. contains s merged_statuses) statuses in
      let missing = sort_texts (select (λ k. not (contains k audited)) serious) in
      record {
        candidate_keys = sort_texts (map (λ kv. kv.0) candidates);
        serious_keys = serious;
        audited_keys = audited;
        priced_keys = priced;
        collapsed_keys = keys_where (λ s. contains s collapsed_statuses) statuses;
        rejected_keys = keys_where (λ s. s == "rejected") statuses;
        merged_keys = merged;
        missing_keys = missing;
        material_unaudited_keys = missing;
        all_survivors_merged_into_base =
            not (is_empty serious) && is_empty missing && not (is_empty merged) && is_empty priced;
        needs_follow_up = not (is_empty missing);
        reason =
            if is_empty missing
            then none
            else some (
                append "serious candidate branches need quant adjudication: "
                  (join (take 6 missing)));
      }

  -- `branch_coverage`, from the artifacts that the store gives of active creators
  unfoldable pub branch_coverage : List LedgerEntry → Option ℕ → List Artifact → BranchCoverage
  unfolding candidates_of statuses_of coverage_of
  branch_coverage ledger max_critic_tails artifacts =
      let candidates = candidates_of max_critic_tails artifacts [] in
      coverage_of ledger candidates (statuses_of candidates artifacts [])
