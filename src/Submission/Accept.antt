-- ===== src/Submission/Accept.antt =====
-- engine/wolves/agent/tools/submission/submit_forecast.py: what an acceptance rests on, and what the
-- counters of a submission come to.
use wolves_ai.Base.{
  ℕ, ◌+◌, ◌<◌, ◌≡◌, Bool, true, false, not, ◌||◌, String, some, if◌then◌else◌, arith, leb,
}
use wolves_ai.Submission.{Forecast, Report, is_ok, hard_issues, SubmissionState, SubmitSettings}
use wolves_ai.Submission.Referee.{
  RefereeReport, Answer, referee_review, blocking_issues, terminal_infra_block,
}
use wolves_ai.Submission.Submit.{
  Verdict, accepted_forecast, validation_failed, escalation_unsubstantiated, referee_replan,
  referee_revision, structural_repair, artifact_superseded, note_copy_repair_state,
  note_validation_issues, has_substance, is_publishable, reject, pause, accept_forecast,
  after_referee, settle, submit_forecast, is_nil, structural_repair_result, check_forecast,
  check_clean,
}

abbrev pub accepts : Verdict → Bool
accepts accepted_forecast = true
accepts _ = false

-- The verdicts that the state counts.
abbrev pub spends : Verdict → Report → Bool
spends validation_failed r = not (is_nil (hard_issues r))
spends escalation_unsubstantiated r = true
spends _ r = false

abbrev pub blocks : Verdict → Bool
blocks referee_replan = true
blocks referee_revision = true
blocks _ = false

abbrev pub repairs : Verdict → Bool
repairs structural_repair = true
repairs _ = false

abbrev pub one_if : Bool → ℕ
one_if true = 1
one_if false = 0

module _ (settings : SubmitSettings) (fingerprint : Forecast → String) where
  -- The report of the referee lets the submission through: it has no blocking issue, or it says that
  -- the referee was not to be had, or the interventions are used up.
  abbrev pub let_through : RefereeReport → SubmissionState → Bool
  let_through report s =
      is_nil (blocking_issues report)
      || terminal_infra_block report
      || leb settings.graph_referee_max_interventions s.referee_interventions

  abbrev noted : Report → SubmissionState → SubmissionState
  noted r s = note_copy_repair_state r (note_validation_issues r s)

  -- The state after an acceptance.
  pub record Standing (checked : Forecast) (s' : SubmissionState) : Type 0 where
    pub recorded : s'.accepted ≡ some checked
    pub unblocked : s'.publication_blocked ≡ false
    pub no_repair : s'.structural_repair_required ≡ false
    pub no_replan : s'.referee_replan_required ≡ false

  -- What has held of a call that accepts, once the validator has found nothing.
  pub record Passed (checked : Forecast) (r : Report) (report : RefereeReport) (s : SubmissionState)
      : Type 0 where
    pub paused_before : is_nil r.escalations ≡ false → s.escalation_fired ≡ true
    pub steelman : s.escalation_fired ≡ true → has_substance checked s.last_clean_escalations ≡ true
    pub refereed : let_through report s ≡ true

  -- What has held of a call that accepts.
  pub record Earned (answer : Answer) (args checked : Forecast) (r : Report) (s : SubmissionState)
      : Type 0 where
    pub validated : is_ok r ≡ true
    pub publishable : is_publishable args.artifact_id s ≡ true
    pub passed :
        Passed checked r (referee_review fingerprint settings answer checked (noted r s)).0 s

  after_referee-Standing :
      (checked : Forecast) (r : Report) (report : RefereeReport) (s : SubmissionState)
      → let (v, s') = after_referee settings checked r report s in
        (accepts v ≡ true → (let_through report s ≡ true) × Standing checked s')
        × (accepts v ≡ false → s'.accepted ≡ s.accepted)
  unfolding after_referee accept_forecast
  after_referee-Standing checked r report s = ground arith

  review-keeps :
      (answer : Answer) (checked : Forecast) (s : SubmissionState)
      → let s' = (referee_review fingerprint settings answer checked s).1 in
        (s'.accepted ≡ s.accepted) × (s'.referee_interventions ≡ s.referee_interventions)
  unfolding referee_review
  review-keeps answer checked s = ground arith

  settle-Standing :
      (answer : Answer) (checked : Forecast) (r : Report) (s : SubmissionState)
      → let (v, s') = settle settings fingerprint answer checked r s in
        (accepts v ≡ true
          → Passed checked r (referee_review fingerprint settings answer checked s).0 s
            × Standing checked s')
        × (accepts v ≡ false → s'.accepted ≡ s.accepted)
  unfolding settle pause
  settle-Standing answer checked r s =
      let (report, s') = referee_review fingerprint settings answer checked s in
      ground (arith, after_referee-Standing checked r report s', review-keeps answer checked s)

  reject-keeps :
      (checked : Forecast) (r : Report) (s : SubmissionState)
      → let (v, s') = reject settings checked r s in
        (accepts v ≡ false) × (s'.accepted ≡ s.accepted)
  unfolding reject structural_repair_result
  reject-keeps checked r s = ground arith

  noted-keeps : (r : Report) (s : SubmissionState) → (noted r s).accepted ≡ s.accepted
  unfolding note_copy_repair_state note_validation_issues
  noted-keeps r s = ground arith

  noted-Passed :
      (checked : Forecast) (r : Report) (report : RefereeReport) (s : SubmissionState)
      → Passed checked r report (noted r s)
      → Passed checked r report s
  unfolding note_copy_repair_state note_validation_issues
  noted-Passed checked r report s h = ground arith

  -- A call of `submit_forecast` accepts only a submission whose artifact may be published, on which
  -- the validator has no issue, which carries its steelman if an escalation has fired and has paused
  -- for one if its own report escalates, and which the referee lets through; it then stands as the
  -- accepted one, with no block and no repair or replanning asked for. A call that does not accept
  -- leaves what was accepted before.
  pub submit_forecast-Earned :
      (answer : Answer) (args checked : Forecast) (r : Report) (s : SubmissionState)
      → let (v, s') = submit_forecast settings fingerprint answer args checked r s in
        (accepts v ≡ true → Earned answer args checked r s × Standing checked s')
        × (accepts v ≡ false → s'.accepted ≡ s.accepted)
  unfolding submit_forecast
  submit_forecast-Earned answer args checked r s =
      let t = noted r s in
      ground (
        arith,
        settle-Standing answer checked r t,
        reject-keeps checked r t,
        noted-keeps r s,
        noted-Passed checked r (referee_review fingerprint settings answer checked t).0 s,
      )

  -- What the counters come to in a call.
  pub record Counts (v : Verdict) (r : Report) (s s' : SubmissionState) : Type 0 where
    pub failures : s'.validation_failures ≡ s.validation_failures + one_if (spends v r)
    pub interventions : s'.referee_interventions ≡ s.referee_interventions + one_if (blocks v)
    pub attempts : s'.structural_repair_attempts ≡ s.structural_repair_attempts + one_if (repairs v)
    pub block_left :
        blocks v ≡ true → s.referee_interventions < settings.graph_referee_max_interventions
    pub attempt_left :
        repairs v ≡ true → s.structural_repair_attempts < settings.agent_structural_repair_attempts

  noted-same :
      (v : Verdict) (r : Report) (s s' : SubmissionState)
      → Counts v r (noted r s) s'
      → Counts v r s s'
  unfolding note_copy_repair_state note_validation_issues
  noted-same v r s s' h = ground arith

  noted-copy :
      (r : Report) (s : SubmissionState)
      → (noted r s).copy_repair_blocked ≡ true
      → is_nil (hard_issues r) ≡ true
  unfolding note_copy_repair_state note_validation_issues
  noted-copy r s h = ground arith

  reject-Counts :
      (checked : Forecast) (r : Report) (s : SubmissionState)
      → (s.copy_repair_blocked ≡ true → is_nil (hard_issues r) ≡ true)
      → let (v, s') = reject settings checked r s in Counts v r s s'
  unfolding reject structural_repair_result
  reject-Counts checked r s h = ground arith

  after_referee-Counts :
      (checked : Forecast) (r : Report) (report : RefereeReport) (s : SubmissionState)
      → let (v, s') = after_referee settings checked r report s in Counts v r s s'
  unfolding after_referee accept_forecast
  after_referee-Counts checked r report s = ground arith

  review-same :
      (answer : Answer) (checked : Forecast) (s : SubmissionState)
      → let s' = (referee_review fingerprint settings answer checked s).1 in
        (s'.validation_failures ≡ s.validation_failures)
        × (s'.referee_interventions ≡ s.referee_interventions)
        × (s'.structural_repair_attempts ≡ s.structural_repair_attempts)
  unfolding referee_review
  review-same answer checked s = ground arith

  settle-Counts :
      (answer : Answer) (checked : Forecast) (r : Report) (s : SubmissionState)
      → let (v, s') = settle settings fingerprint answer checked r s in Counts v r s s'
  unfolding settle pause
  settle-Counts answer checked r s =
      let (report, s') = referee_review fingerprint settings answer checked s in
      ground (arith, after_referee-Counts checked r report s', review-same answer checked s)

  branches :
      {x y : Verdict × SubmissionState} (a b : Bool) (r : Report) (s : SubmissionState)
      → Counts x.0 r s x.1
      → Counts y.0 r s y.1
      → let (v, s') = if not a then (artifact_superseded, s) else if not b then x else y in
        Counts v r s s'
  branches true true r s h g = g
  branches true false r s h g = h
  branches false b r s h g = ground arith

  -- A call counts a failure exactly if it is refused for a hard issue or for a steelman that is
  -- missing, an intervention exactly if the referee blocks it, which needs one to be left, and an
  -- attempt exactly if it asks for a structural repair, which needs one to be left.
  pub submit_forecast-Counts :
      (answer : Answer) (args checked : Forecast) (r : Report) (s : SubmissionState)
      → let (v, s') = submit_forecast settings fingerprint answer args checked r s in
        Counts v r s s'
  unfolding submit_forecast
  submit_forecast-Counts answer args checked r s =
      branches (is_publishable args.artifact_id s) (is_ok r) r s
        (noted-same _ r s _ (reject-Counts checked r (noted r s) (noted-copy r s)))
        (noted-same _ r s _ (settle-Counts answer checked r (noted r s)))

  -- What a preview asks for: a structural repair is counted, and needs one to be left.
  pub check_forecast-Counts :
      (args checked : Forecast) (r : Report) (s : SubmissionState)
      → let (repair, s') = check_forecast settings args checked r s in
        (s'.structural_repair_attempts ≡ s.structural_repair_attempts + one_if repair)
        × (repair ≡ true → s.structural_repair_attempts < settings.agent_structural_repair_attempts)
  unfolding check_forecast check_clean note_copy_repair_state note_validation_issues
      structural_repair_result
  check_forecast-Counts args checked r s = ground arith

  -- A preview neither accepts nor spends a retry nor fires the pause nor asks the referee.
  pub check_forecast-free :
      (args checked : Forecast) (r : Report) (s : SubmissionState)
      → let s' = (check_forecast settings args checked r s).1 in
        (s'.accepted ≡ s.accepted)
        × (s'.validation_failures ≡ s.validation_failures)
        × (s'.escalation_fired ≡ s.escalation_fired)
        × (s'.referee_interventions ≡ s.referee_interventions)
  unfolding check_forecast check_clean note_copy_repair_state note_validation_issues
      structural_repair_result
  check_forecast-free args checked r s = ground arith
