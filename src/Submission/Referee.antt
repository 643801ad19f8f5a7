-- ===== src/Submission/Referee.antt =====
-- engine/wolves/agent/tools/submission/referee.py: the referee's review. What its model answers is an
-- argument; `fingerprint` is the hash of a submission.
use wolves_ai.Base.{
  Bool, true, false, not, String, List, [], ◌∷◌, any, select, contains, if◌then◌else◌, string_eq,
}
use wolves_ai.Base.Decimal.{append}
use wolves_ai.Submission.{
  Forecast, SubmissionState, SubmitSettings, disabled, bypassed_infrastructure, bypassed_budget,
  approved_status,
}

pub data Owner : Type 0 where
  forecast master research quant infra : Owner

pub data RefereeSeverity : Type 0 where
  blocker major minor : RefereeSeverity

pub record RefereeIssue : Type 0 where
  pub severity : RefereeSeverity
  pub owner : Owner
  pub message : String
  pub suggested_next_step : String

pub record RefereeReport : Type 0 where
  pub approved : Bool
  pub summary : String
  pub issues : List RefereeIssue
  pub suggested_master_brief : String

abbrev is_blocking : RefereeIssue → Bool
is_blocking i = elim i.severity [ blocker ↦ true | major ↦ true | minor ↦ false ]

unfoldable pub blocking_issues : RefereeReport → List RefereeIssue
blocking_issues r = select is_blocking r.issues

unfoldable pub needs_master_replan : RefereeReport → Bool
unfolding blocking_issues
needs_master_replan r =
    any
      (λ i. elim i.owner [
        | master ↦ true
        | research ↦ true
        | quant ↦ true
        | forecast ↦ false
        | infra ↦ false
      ])
      (blocking_issues r)

unfoldable pub terminal_infra_block : RefereeReport → Bool
unfolding blocking_issues
terminal_infra_block r =
    any
      (λ i. elim i.owner [
        | infra ↦ true
        | master ↦ false
        | research ↦ false
        | quant ↦ false
        | forecast ↦ false
      ])
      (blocking_issues r)

-- What the model gives: a report, or an exception with its text, caused by a cap or not.
pub data Answer : Type 0 where
  answered : RefereeReport → Answer
  raised : (by_cap : Bool) → (reason : String) → Answer

abbrev clean : String → RefereeReport
clean summary = record {
  approved = true;
  summary = summary;
  issues = [];
  suggested_master_brief = "";
}

abbrev unavailable : String → String → String → String → RefereeReport
unavailable summary message next brief = record {
  approved = false;
  summary = summary;
  issues =
      record { severity = blocker; owner = infra; message = message; suggested_next_step = next }
      ∷ [];
  suggested_master_brief = brief;
}

abbrev is_none {ℓ} : {A : Type ℓ} → List A → Bool
is_none [] = true
is_none (_ ∷ _) = false

module _ (fingerprint : Forecast → String) (settings : SubmitSettings) where
  abbrev add_once : String → List String → List String
  add_once s ss = if contains s ss then ss else s ∷ ss

  unfoldable pub referee_review :
      Answer → Forecast → SubmissionState → RefereeReport × SubmissionState
  unfolding blocking_issues
  referee_review answer args s =
      if not settings.graph_referee_enabled
      then (clean "referee disabled", record s { referee_status = disabled })
      else if not settings.referee_model
      then (
        unavailable "referee enabled but unavailable"
            "The final referee is enabled but no referee model is configured."
            "Fix the referee configuration before launching another forecast."
            "Referee infrastructure is unavailable; do not replan the forecast.",
        record s {
          referee_status = bypassed_infrastructure;
          referee_reason = "referee model is not configured";
        },
      )
      else if contains (fingerprint args) s.referee_approved
      then (clean "already approved", record s { referee_status = approved_status })
      else asked answer args s
    where
      asked : Answer → Forecast → SubmissionState → RefereeReport × SubmissionState
      asked (raised by_cap reason) args s = (
        unavailable (append "referee unavailable: " reason)
            "The final referee could not run, so the submission has not had the required final sweep."
            "Fix the referee client failure before launching another forecast."
            "Referee infrastructure failed; do not replan the forecast.",
        record s {
          referee_status = if by_cap then bypassed_budget else bypassed_infrastructure;
          referee_reason = reason;
        },
      )
      asked (answered report) args s =
          if is_none (blocking_issues report)
          then (
            record report { approved = true },
            record s {
              referee_status = approved_status;
              referee_reason = report.summary;
              referee_approved = add_once (fingerprint args) s.referee_approved;
            },
          )
          else (report, s)
