-- ===== src/Submission.antt =====
-- engine/wolves/agent/deps.py, agent/contracts.py, agent/validator.py and
-- agent/tools/submission: what a forecast's submission is made of.
pub mod Referee
pub mod Submit
pub mod Accept
pub mod Runs
mod Tests
use wolves_ai.Base.{
  ℕ, Bool, true, false, not, ◌&&◌, String, Option, none, some, List, [], ◌∷◌, map, any, select,
  contains, string_eq,
}
use wolves_ai.Base.Dict.{Dict}
use wolves_ai.Base.Sorted.{is_empty}

-- `ForecastSubmission`; `body` is what these tools only pass on (the narrative, weights and gaps).
pub record Forecast : Type 0 where
  pub artifact_id : String
  pub body : String
  pub evidence_ids : List String
  pub market_justification : String
  pub change_justification : String

pub data Severity : Type 0 where
  hard copy : Severity

pub record Issue : Type 0 where
  pub code : String
  pub message : String
  pub severity : Severity

-- `ValidationReport`; its field `ok` is `is_ok`.
pub record Report : Type 0 where
  pub issues : List Issue
  pub escalations : List String

-- The validator builds a report with `ok = not issues`.
abbrev pub is_ok : Report → Bool
is_ok r = is_empty r.issues

abbrev pub quant_owned_issue_codes : List String
quant_owned_issue_codes =
    "branch_audit_self_inconsistent" ∷ "factor_audit_missing" ∷ "factor_audit_missing_coverage"
    ∷ "factor_audit_malformed" ∷ "market_audit_missing" ∷ "market_audit_missing_team"
    ∷ "prob_out_of_range" ∷ "partition_incoherent" ∷ "probs_incoherent" ∷ "artifact_unpublishable"
    ∷ "weight_dilution" ∷ []

abbrev pub is_hard : Issue → Bool
is_hard i = elim i.severity [ hard ↦ true | copy ↦ false ]

unfoldable pub hard_issues : Report → List Issue
hard_issues r = select is_hard r.issues

unfoldable pub quant_repair_issues : Report → List Issue
unfolding hard_issues
quant_repair_issues r = select (λ i. contains i.code quant_owned_issue_codes) (hard_issues r)

pub data RefereeStatus : Type 0 where
  disabled bypassed_infrastructure bypassed_budget bypassed_interrupted approved_status :
      RefereeStatus
  intervention_cap : RefereeStatus

-- `SubmissionState`, less its caches of anchors and surfaces
pub record SubmissionState : Type 0 where
  pub accepted : Option Forecast
  pub validation_failures : ℕ
  pub referee_interventions : ℕ
  pub referee_approved : List String
  pub referee_replan_required : Bool
  pub structural_repair_required : Bool
  pub structural_repair_signature : Option (List String)
  pub structural_repair_attempts : ℕ
  pub publication_blocked : Bool
  pub public_surface_contradiction : Bool
  pub escalation_fired : Bool
  pub escalations : List String
  pub last_clean : Option Forecast
  pub last_clean_escalations : List String
  pub checked_clean : Option Forecast
  pub copy_repair_required : Bool
  pub copy_issue_signature : Option (List String)
  pub copy_issue_repeats : ℕ
  pub copy_repair_blocked : Bool
  pub revisions_used : ℕ
  pub last_accepted : Option Forecast
  pub counterfactual : Option Forecast
  pub premortem_seen : List String
  pub publishable_artifact_ids : List String
  pub validation_issue_counts : Dict String ℕ
  pub referee_status : RefereeStatus
  pub referee_reason : String

abbrev pub new_state : SubmissionState
new_state = record {
  accepted = none;
  validation_failures = 0;
  referee_interventions = 0;
  referee_approved = [];
  referee_replan_required = false;
  structural_repair_required = false;
  structural_repair_signature = none;
  structural_repair_attempts = 0;
  publication_blocked = false;
  public_surface_contradiction = false;
  escalation_fired = false;
  escalations = [];
  last_clean = none;
  last_clean_escalations = [];
  checked_clean = none;
  copy_repair_required = false;
  copy_issue_signature = none;
  copy_issue_repeats = 0;
  copy_repair_blocked = false;
  revisions_used = 0;
  last_accepted = none;
  counterfactual = none;
  premortem_seen = [];
  publishable_artifact_ids = [];
  validation_issue_counts = [];
  referee_status = disabled;
  referee_reason = "";
}

pub record SubmitSettings : Type 0 where
  pub agent_structural_repair_attempts : ℕ
  pub graph_referee_enabled : Bool
  pub graph_referee_max_interventions : ℕ
  -- a referee model is configured
  pub referee_model : Bool
