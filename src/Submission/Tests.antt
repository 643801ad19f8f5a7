-- ===== src/Submission/Tests.antt =====
-- A forecast that escalates, pauses, is blocked by the referee once and is accepted in the end.
use wolves_ai.Base.{◌≤◌, ◌≡◌, refl, true, false, String, none, some, List, [], ◌∷◌, string_eq}
use wolves_ai.Submission.{
  Forecast, Report, copy, hard_issues, quant_repair_issues, SubmitSettings, new_state,
}
use wolves_ai.Submission.Referee.{
  Answer, answered, major, quant, referee_review, blocking_issues, needs_master_replan,
  terminal_infra_block,
}
use wolves_ai.Submission.Submit.{
  submit_forecast, check_forecast, check_clean, settle, reject, pause, after_referee,
  accept_forecast, note_copy_repair_state, note_validation_issues, structural_repair_result,
  is_publishable, has_substance, misses_escalation_team,
}
use wolves_ai.Submission.Accept.{accepts, Earned, Standing, submit_forecast-Earned}
use wolves_ai.Submission.Runs.{
  Call, check, submit, Some, Validates, run, step, blocks_in, repairs_in, returned, run-limited,
  run-accepted,
}

abbrev settings : SubmitSettings
settings = record {
  agent_structural_repair_attempts = 2;
  graph_referee_enabled = true;
  graph_referee_max_interventions = 1;
  referee_model = true;
}

abbrev fingerprint : Forecast → String
fingerprint f = f.artifact_id

abbrev draft : String → Forecast
draft why = record {
  artifact_id = "mixture-001";
  body = "";
  evidence_ids = "led-0001" ∷ [];
  market_justification = "";
  change_justification = why;
}

abbrev moved : Report
moved = record { issues = []; escalations = "portugal +3.10pp" ∷ [] }

abbrev dashed : Report
dashed = record {
  issues = record { code = "em_dash"; message = "in the headline"; severity = copy } ∷ [];
  escalations = [];
}

abbrev doubt : Answer
doubt = answered (record {
  approved = false;
  summary = "the spread is missing";
  issues =
      record {
        severity = major;
        owner = quant;
        message = "spread";
        suggested_next_step = "price it";
      }
      ∷ [];
  suggested_master_brief = "price the spread";
})

abbrev calls : List Call
calls =
    check (draft "") (draft "") dashed
    ∷ submit doubt (draft "") (draft "") moved
    ∷ submit doubt (draft "Portugal lost its striker") (draft "Portugal lost its striker") moved
    ∷ submit doubt (draft "Portugal lost its striker") (draft "Portugal lost its striker") moved
    ∷ []

accepted_last :
    (run settings fingerprint new_state calls).accepted ≡ some (draft "Portugal lost its striker")
unfolding run step submit_forecast check_forecast check_clean settle reject pause after_referee
    accept_forecast note_copy_repair_state note_validation_issues structural_repair_result
    is_publishable has_substance misses_escalation_team referee_review blocking_issues
    needs_master_replan terminal_infra_block hard_issues quant_repair_issues
accepted_last = refl

run-accepted_example : Some (Validates (draft "Portugal lost its striker")) calls
run-accepted_example =
    run-accepted settings fingerprint calls (draft "Portugal lost its striker") accepted_last

run-limited_example :
    (returned settings fingerprint (blocks_in settings fingerprint) new_state calls ≤ 1)
    × (returned settings fingerprint (repairs_in settings fingerprint) new_state calls ≤ 2)
run-limited_example = run-limited settings fingerprint calls

submit_forecast-Earned_example :
    let (v, s') =
      submit_forecast settings fingerprint doubt (draft "") (draft "") moved new_state in
    (accepts v ≡ true
      → Earned settings fingerprint doubt (draft "") (draft "") moved new_state
        × Standing settings fingerprint (draft "") s')
    × (accepts v ≡ false → s'.accepted ≡ none)
submit_forecast-Earned_example =
    submit_forecast-Earned settings fingerprint doubt (draft "") (draft "") moved new_state
