-- ===== src/Submission/Submit.antt =====
-- engine/wolves/agent/tools/submission/{submit_forecast, check_forecast, structural_repair,
-- normalise}.py: the two tools that move a forecast towards acceptance. Each call takes the
-- submission as normalised and the validator's report on it; the artifact store of a run is open for
-- writing. Texts that only tell the model what to do are left out of the results.
use wolves_ai.Base.{
  ℕ, ◌+◌, Bool, true, false, not, ◌&&◌, ◌||◌, String, Option, none, some, List, [], ◌∷◌, map, any,
  contains, leb, ltb, if◌then◌else◌, string_eq, ◌==◌,
}
use wolves_ai.Base.Decimal.{append}
use wolves_ai.Base.Dict.{Dict, lookup, insert}
use wolves_ai.Base.Json.{Value}
use wolves_ai.Base.Sorted.{sort_texts}
use wolves_ai.Base.Text.{codes, lower, occurs, is_blank, first_word, dash_to_space, prefix}
use wolves_ai.Artifacts.{Codec, Store, add}
use wolves_ai.Artifacts.Ids.{critique}
use wolves_ai.Submission.{
  Forecast, Issue, Report, is_ok, hard_issues, quant_repair_issues, SubmissionState, SubmitSettings,
  intervention_cap,
}
use wolves_ai.Submission.Referee.{
  RefereeReport, blocking_issues, needs_master_replan, terminal_infra_block, Answer, referee_review,
}

-- What a call of `submit_forecast` returns: its error's type, or whether it accepts.
pub data Verdict : Type 0 where
  accepted_forecast paused_for_steelman : Verdict
  artifact_superseded structural_repair copy_repair_loop validation_failed
        escalation_unsubstantiated :
      Verdict
  referee_replan referee_revision : Verdict

abbrev pub same_texts : List String → List String → Bool
same_texts [] [] = true
same_texts (s ∷ ss) (t ∷ ts) = s == t && same_texts ss ts
same_texts _ _ = false

abbrev pub same_signature : List String → Option (List String) → Bool
same_signature sig none = false
same_signature sig (some sig') = same_texts sig sig'

abbrev pub is_nil {ℓ} : {A : Type ℓ} → List A → Bool
is_nil [] = true
is_nil (_ ∷ _) = false

abbrev pub copy_signature : Report → List String
copy_signature r = sort_texts (map (λ i. append i.code (append ":" i.message)) r.issues)

abbrev pub clear_copy : SubmissionState → SubmissionState
clear_copy s = record s {
  copy_issue_signature = none;
  copy_issue_repeats = 0;
  copy_repair_blocked = false;
}

abbrev count_copy : List String → SubmissionState → SubmissionState
count_copy sig s =
    let repeats =
      if same_signature sig s.copy_issue_signature then s.copy_issue_repeats + 1 else 1 in
    record s {
      copy_issue_signature = some sig;
      copy_issue_repeats = repeats;
      copy_repair_blocked = s.copy_repair_blocked || leb 3 repeats;
    }

unfoldable pub note_copy_repair_state : Report → SubmissionState → SubmissionState
note_copy_repair_state r s =
    if is_ok r || not (is_nil (hard_issues r))
    then clear_copy s
    else count_copy (copy_signature r) s

abbrev count_codes : List Issue → Dict String ℕ → Dict String ℕ
count_codes [] counts = counts
count_codes (i ∷ is) counts =
    count_codes is
      (insert i.code (elim (lookup i.code counts) [ none ↦ 0 | some n ↦ n ] + 1) counts)

unfoldable pub note_validation_issues : Report → SubmissionState → SubmissionState
note_validation_issues r s = record s {
  validation_issue_counts = count_codes r.issues s.validation_issue_counts;
}

-- `_team_named`
abbrev team_named : List ℕ → String → Bool
team_named team text =
    let haystack = lower (codes text) in
    occurs (lower team) haystack || occurs (dash_to_space (lower team)) haystack

-- `_missing_escalation_teams`, of the escalations of the last clean submission, is not empty
unfoldable pub misses_escalation_team : Forecast → List String → Bool
misses_escalation_team args escalations =
    any (λ e. not (team_named (first_word (codes e)) args.change_justification)) escalations

abbrev pub is_grounded : Forecast → Bool
is_grounded f = not (is_nil f.evidence_ids) || not (is_blank (codes f.market_justification))

-- A resubmission past the escalation carries its steelman.
unfoldable pub has_substance : Forecast → List String → Bool
unfolding misses_escalation_team
has_substance f escalations =
    not (is_blank (codes f.change_justification))
    && is_grounded f
    && not (misses_escalation_team f escalations)

unfoldable pub is_publishable : String → SubmissionState → Bool
is_publishable id s = is_nil s.publishable_artifact_ids || contains id s.publishable_artifact_ids

module _ (settings : SubmitSettings) where
  abbrev repair_signature : String → Report → List String
  repair_signature artifact_id r =
      artifact_id ∷ sort_texts (map (λ i. i.code) (quant_repair_issues r))

  -- `structural_repair_result`: whether it asks for a repair, and the state
  unfoldable pub structural_repair_result :
      Report → String → SubmissionState → Bool × SubmissionState
  structural_repair_result r artifact_id s =
      let signature = repair_signature artifact_id r in
      if is_nil (quant_repair_issues r)
        || leb settings.agent_structural_repair_attempts s.structural_repair_attempts
        || same_signature signature s.structural_repair_signature
      then (false, s)
      else (
        true,
        record s {
          structural_repair_signature = some signature;
          structural_repair_required = true;
          structural_repair_attempts = s.structural_repair_attempts + 1;
          copy_repair_required = false;
        },
      )

  -- `_check_forecast`, on an artifact that may be published: `structural_repair_required` of its
  -- answer, and the state
  unfoldable pub check_clean : Forecast → Report → SubmissionState → Bool × SubmissionState
  check_clean checked r s =
      let s₁ = note_copy_repair_state r (note_validation_issues r s) in
      let s₂ : SubmissionState = record s₁ {
        checked_clean = if is_ok r then some checked else none;
        copy_repair_required = not (is_ok r) && is_nil (hard_issues r);
      } in
      if is_ok r then (false, s₂) else structural_repair_result r checked.artifact_id s₂

  unfoldable pub check_forecast :
      Forecast → Forecast → Report → SubmissionState → Bool × SubmissionState
  check_forecast args checked r s =
      if is_publishable args.artifact_id s then check_clean checked r s else (false, s)

  unfoldable pub accept_forecast : Forecast → Report → SubmissionState → SubmissionState
  accept_forecast checked r s = record s {
    checked_clean = none;
    copy_repair_required = false;
    referee_replan_required = false;
    structural_repair_required = false;
    structural_repair_signature = none;
    publication_blocked = false;
    public_surface_contradiction = false;
    accepted = some checked;
    escalations = r.escalations;
  }

  abbrev contradicts : Report → Bool
  contradicts r =
      any (λ i. i.code == "elimination_claim_conflicts_with_title_probability") (hard_issues r)

  abbrev noted_clean : Report → SubmissionState → SubmissionState
  noted_clean r s = record s {
    checked_clean = none;
    public_surface_contradiction = s.public_surface_contradiction || contradicts r;
  }

  -- The rest of a rejection that needs no structural repair: a hard issue spends a retry.
  abbrev spend_retry : Report → SubmissionState → SubmissionState
  spend_retry r s =
      if is_nil (hard_issues r)
      then record s { copy_repair_required = not s.copy_repair_blocked }
      else record s {
        copy_repair_required = false;
        validation_failures = s.validation_failures + 1;
      }

  unfoldable pub reject : Forecast → Report → SubmissionState → Verdict × SubmissionState
  reject checked r s =
      let (repair, s₁) = structural_repair_result r checked.artifact_id (noted_clean r s) in
      let s₂ = spend_retry r s₁ in
      if repair
      then (structural_repair, s₁)
      else ((if s₂.copy_repair_blocked then copy_repair_loop else validation_failed), s₂)

  unfoldable pub pause : Forecast → Report → SubmissionState → SubmissionState
  pause checked r s = record s {
    checked_clean = none;
    copy_repair_required = false;
    escalation_fired = true;
    last_clean = some checked;
    last_clean_escalations = r.escalations;
  }

  abbrev unsubstantiated : SubmissionState → SubmissionState
  unsubstantiated s = record s {
    copy_repair_required = false;
    validation_failures = s.validation_failures + 1;
  }

  abbrev block : RefereeReport → SubmissionState → SubmissionState
  block report s = record s {
    publication_blocked = true;
    referee_interventions = s.referee_interventions + 1;
    checked_clean = none;
    copy_repair_required = not (needs_master_replan report);
    referee_replan_required = needs_master_replan report;
  }

  -- What the referee's report comes to.
  unfoldable pub after_referee :
      Forecast → Report → RefereeReport → SubmissionState → Verdict × SubmissionState
  after_referee checked r report s =
      if is_nil (blocking_issues report)
      then (accepted_forecast, accept_forecast checked r s)
      else if terminal_infra_block report
      then (accepted_forecast, accept_forecast checked r s)
      else if ltb s.referee_interventions settings.graph_referee_max_interventions
      then (
        (if needs_master_replan report then referee_replan else referee_revision),
        block report s,
      )
      else (
        accepted_forecast,
        accept_forecast checked r
            (record s { referee_status = intervention_cap; referee_reason = report.summary }),
      )

  module _ (fingerprint : Forecast → String) where
    -- Past the validator, which has found nothing: the escalation pause, then the referee.
    unfoldable pub settle : Answer → Forecast → Report → SubmissionState → Verdict × SubmissionState
    settle answer checked r s =
        let (report, s') = referee_review fingerprint settings answer checked s in
        if not (is_nil r.escalations) && not s.escalation_fired
        then (paused_for_steelman, pause checked r s)
        else if s.escalation_fired && not (has_substance checked s.last_clean_escalations)
        then (escalation_unsubstantiated, unsubstantiated s)
        else after_referee checked r report s'

    -- `_submit_forecast`
    unfoldable pub submit_forecast :
        Answer → Forecast → Forecast → Report → SubmissionState → Verdict × SubmissionState
    submit_forecast answer args checked r s =
        let s₁ = note_copy_repair_state r (note_validation_issues r s) in
        if not (is_publishable args.artifact_id s)
        then (artifact_superseded, s)
        else if not (is_ok r)
        then reject checked r s₁
        else settle answer checked r s₁

    -- The referee's report that a call puts into the artifact store as a critique, if it has blocking
    -- issues: `record_referee_block`
    unfoldable pub referee_block :
        Answer → Forecast → Forecast → Report → SubmissionState → Option RefereeReport
    referee_block answer args checked r s =
        let s₁ = note_copy_repair_state r (note_validation_issues r s) in
        let report = (referee_review fingerprint settings answer checked s₁).0 in
        if is_publishable args.artifact_id s
          && is_ok r
          && (is_nil r.escalations || s₁.escalation_fired)
          && not (s₁.escalation_fired && not (has_substance checked s₁.last_clean_escalations))
          && not (is_nil (blocking_issues report))
        then some report
        else none

-- The critique of a block; `payload` renders the report.
unfoldable pub record_referee_block :
    (c : Codec) → (RefereeReport → Value) → ℕ → Option RefereeReport → Store c → Store c
record_referee_block c payload now none store = store
record_referee_block c payload now (some report) store =
    (add c critique "referee" (prefix 140 report.summary) (payload report) none now store).1
