-- ===== src/Graph/Runner.antt =====
-- engine/wolves/graph/runner.py: the wave loop. What the master plans, what the workers of a wave do
-- to the store, the runtime and the submission, the published surface and the research receipt are
-- parameters; an exception that is no cap ends the run where it is raised and is left out. The
-- deterministic summary and the log are left out.
pub mod Keeps
pub mod Waves
pub mod Lineage
mod Tests
use wolves_ai.Base.{
  ℕ, zero, suc, ◌+◌, ◌-◌, ◌/◌, Bool, true, false, not, ◌&&◌, ◌||◌, String, Option, none, some, List,
  [], ◌∷◌, ◌++◌, map, any, select, contains, length, min, leb, ltb, eqb, if◌then◌else◌, is_some,
  string_eq,
}
use wolves_ai.Base.Json.{Value}
use wolves_ai.Artifacts.{ArtifactRecord, Codec, Store, all_records, find_record}
use wolves_ai.Artifacts.Ids.{mixture, critique, kind_beq as artifact_kind_beq}
use wolves_ai.Budget.{Runtime, can_fund_followup_call}
use wolves_ai.Budget.Reserves.{finalisation_reserves_micros, finalisation_reserve_calls}
use wolves_ai.Submission.{Forecast, Report, SubmissionState, SubmitSettings}
use wolves_ai.Submission.Referee.{RefereeReport, Answer}
use wolves_ai.Submission.Submit.{submit_forecast, referee_block, record_referee_block, is_nil}
use wolves_ai.Graph.Contracts.{
  NodeKind, research, quant, forecast, kind_beq, NodePatch, GraphPatch, NodeOutcome, GraphSettings,
}
use wolves_ai.Graph.Board.{Board, set_context, active_artifact_ids, publishable, can_fund_follow_up}
use wolves_ai.Graph.Admit.{admit}
use wolves_ai.Graph.Merge.{ResearchOutput, merge}

unfoldable pub budget_at_caps : Runtime → ℕ → ℕ → Bool
budget_at_caps rt reserve_micros reserve_calls =
    leb (rt.caps.max_llm_calls - reserve_calls) rt.budget.llm_calls
    || not (eqb rt.caps.max_cost_micros 0)
      && leb (rt.caps.max_cost_micros - reserve_micros) rt.budget.cost_micros

unfoldable pub can_seed_research : GraphSettings → Bool
can_seed_research s =
    ltb 0 s.graph_max_waves
    && ltb 0 s.graph_max_nodes
    && ltb 0 s.graph_max_research_nodes
    && ltb 0 s.graph_max_wave_workers

unfoldable pub reset_forecast_copy_state : SubmissionState → SubmissionState
reset_forecast_copy_state s = record s {
  copy_repair_required = false;
  copy_issue_signature = none;
  copy_issue_repeats = 0;
  copy_repair_blocked = false;
  publication_blocked = false;
}

abbrev pub cites_one_of : List String → Option Forecast → Bool
cites_one_of ids none = false
cites_one_of ids (some f) = contains f.artifact_id ids

unfoldable pub can_restore_prior_acceptance : SubmissionState → Bool
can_restore_prior_acceptance s =
    not (is_some s.accepted)
    && is_some s.last_accepted
    && not s.public_surface_contradiction
    && (is_nil s.publishable_artifact_ids
        || cites_one_of s.publishable_artifact_ids s.last_accepted)

abbrev drop_clean : List String → SubmissionState → SubmissionState
drop_clean active s =
    if is_some s.last_clean && not (cites_one_of active s.last_clean)
    then record s { last_clean = none; last_clean_escalations = [] }
    else s

abbrev drop_accepted : List String → SubmissionState → SubmissionState
drop_accepted active s =
    if is_some s.last_accepted && not (cites_one_of active s.last_accepted)
    then record s { last_accepted = none }
    else s

-- `_sync_publishable_artifacts`, with the ids that are active
unfoldable pub sync_publishable : List String → SubmissionState → SubmissionState
sync_publishable active s =
    let s' : SubmissionState = record s { publishable_artifact_ids = active } in
    if is_nil active then s' else drop_accepted active (drop_clean active s')

unfoldable pub has_registered_repair_mixture :
    (String → Option ArtifactRecord) → List NodeOutcome → Bool
has_registered_repair_mixture find outcomes =
    any
      (λ o.
        o.ok
        && kind_beq o.kind quant
        && any (λ id. elim (find id) [ none ↦ false | some r ↦ artifact_kind_beq r.kind mixture ])
            o.artifact_ids)
      outcomes

-- What a run changes.
pub record Run (c : Codec) (show : Value → String) : Type 0 where
  pub board : Board c show
  pub submission : SubmissionState
  pub budget_exhausted : Bool

pub data Planned : Type 0 where
  planned : GraphPatch → Planned
  -- the planning turn has met a cap
  capped : Planned

pub data Next (A : Type 0) : Type 0 where
  goes_on stops : A → Next A

-- What the workers give back: their outcomes, the store, the runtime and the submission.
pub record Worked (c : Codec) : Type 0 where
  pub outcomes : List NodeOutcome
  pub store : Store c
  pub runtime : Runtime
  pub submission : SubmissionState

-- The outside of a run.
pub record Outside (c : Codec) (show : Value → String) : Type 0 where
  -- what the planner gives, and the runtime after asking it
  pub plan : Run c show → Planned
  pub runtime_planned : Run c show → Runtime
  pub execute : List NodePatch → Run c show → Worked c
  -- the last forecast, which a cap may stop; what it has charged until then is left out
  pub execute_last : NodePatch → Run c show → Option (Worked c)
  -- the advisory research scan: whether it is due, its brief, and what its worker does
  pub should_seed : Bool
  pub seed_brief : String
  pub execute_seed : NodePatch → Run c show → Worked c
  -- the receipt that is added to the store, with its id
  pub receipt : Run c show → Store c × String
  pub published_surface : Board c show → String → Option String
  pub fetched : String → Bool
  pub validate_research : Value → ResearchOutput
  pub dump_research : ResearchOutput → Value
  pub fingerprint : Forecast → String
  -- what the referee answers to a submission of the runner's own, and the runtime after asking it
  pub answer : Run c show → Answer
  pub runtime_answered : Run c show → Runtime
  pub normalise : Run c show → Forecast → Forecast
  pub report : Run c show → Forecast → Report
  pub block_payload : RefereeReport → Value
  pub now : ℕ

module _ (c : Codec) (show : Value → String) (settings : GraphSettings)
    (submit_settings : SubmitSettings) (out : Outside c show) where
  -- `_submit_clean_preview`
  unfoldable pub submit_clean_preview : Run c show → Run c show
  submit_clean_preview r = elim r.submission.checked_clean [
    | none ↦ r
    | some checked ↦
        if is_some r.submission.accepted
        then r
        else let f = out.normalise r checked in
          let report = out.report r f in
          let s' =
            (submit_forecast submit_settings out.fingerprint (out.answer r) checked f report
              r.submission).1 in
          let block =
            referee_block submit_settings out.fingerprint (out.answer r) checked f report
              r.submission in
          record r {
            submission = s';
            board = record r.board {
              artifacts = record_referee_block c out.block_payload out.now block r.board.artifacts;
              runtime = out.runtime_answered r;
            };
          }
  ]

  unfoldable pub has_fresh_premortem : Run c show → Bool
  has_fresh_premortem r = elim r.submission.accepted [
    | none ↦ false
    | some f ↦
        not (contains f.artifact_id r.submission.premortem_seen)
        && any (λ a. artifact_kind_beq a.kind critique) (all_records c r.board.artifacts)
  ]

  abbrev revision_reserve : Runtime → ℕ
  revision_reserve rt =
      min
        (settings.graph_revision_reserve_micros
          + (finalisation_reserves_micros settings.reserves rt.caps).1)
        (rt.caps.max_cost_micros / 2)

  abbrev reserved_calls : Runtime → ℕ
  reserved_calls rt =
      let calls = finalisation_reserve_calls settings.reserves rt.caps in calls.0 + calls.1

  abbrev pub reopened : Forecast → SubmissionState → SubmissionState
  reopened f s = record (reset_forecast_copy_state s) {
    counterfactual = if is_some s.counterfactual then s.counterfactual else some f;
    last_accepted = some f;
    premortem_seen = f.artifact_id ∷ s.premortem_seen;
    accepted = none;
    checked_clean = none;
    escalation_fired = false;
    revisions_used = s.revisions_used + 1;
  }

  -- `_should_continue_after_acceptance`: whether the accepted submission is opened again
  unfoldable pub should_continue_after_acceptance : Run c show → Bool × Run c show
  should_continue_after_acceptance r = elim r.submission.accepted [
    | none ↦ (false, r)
    | some f ↦
        if leb settings.graph_max_revisions 0
          || leb settings.graph_max_revisions r.submission.revisions_used
          || budget_at_caps r.board.runtime (revision_reserve r.board.runtime)
              (reserved_calls r.board.runtime)
          || not (has_fresh_premortem r)
        then (false, r)
        else elim (out.published_surface r.board f.artifact_id) [
          | none ↦ (false, r)
          | some surface ↦ (
            true,
            record r {
              board = set_context c show "published_surface" surface r.board;
              submission = reopened f r.submission;
            },
          )
        ]
  ]

  -- `_sync_publishable_artifacts`
  unfoldable pub sync : Run c show → Run c show
  sync r = record r {
    submission =
        sync_publishable
          (active_artifact_ids publishable r.board.nodes (all_records c r.board.artifacts))
          r.submission;
  }

  abbrev pub with_worked : Worked c → Run c show → Run c show
  with_worked w r = record r {
    board = record r.board { artifacts = w.store; runtime = w.runtime };
    submission = w.submission;
  }

  -- The wave's outcomes, folded in and synced, and a clean preview submitted.
  unfoldable pub take_in : List NodePatch → Worked c → Run c show → Run c show
  take_in ops w r =
      let r' = with_worked w r in
      submit_clean_preview (
        sync (record r' {
          board =
              merge c show out.fetched out.validate_research out.dump_research true ops w.outcomes
                r'.board;
        }))

  -- The rest of a round, once no repair is outstanding.
  unfoldable pub end_of_wave : GraphPatch → Run c show → Next (Run c show)
  end_of_wave patch r =
      let (reopen, r') = should_continue_after_acceptance r in
      if patch.stop
      then stops r
      else if is_some r.submission.accepted
      then (if reopen then goes_on r' else stops r')
      else if ltb settings.agent_submit_retries r.submission.validation_failures
      then stops r
      else if not (can_fund_follow_up c show settings r.board)
      then stops (record r { budget_exhausted = true })
      else goes_on r

  abbrev pub structural_brief : String
  structural_brief =
      "The last submission was rejected for a structural defect only quant can fix. Brief a quant node to reuse the cited mixture's existing worlds and weights unchanged and recompute only the missing factor_audit rows (e.g. a mixture_spread row from wq.mixture_spread), then re-register; no new world simulation is needed."

  unfoldable pub after_structural :
      Bool → GraphPatch → List NodeOutcome → Run c show → Next (Run c show)
  after_structural had patch outcomes r =
      if not r.submission.structural_repair_required
      then end_of_wave patch r
      else if had
          && has_registered_repair_mixture (λ id. find_record c id r.board.artifacts) outcomes
      then end_of_wave patch (record r {
        submission = record r.submission { structural_repair_required = false };
        board = set_context c show "structural_repair" "" r.board;
      })
      else goes_on
          (record r { board = set_context c show "structural_repair" structural_brief r.board })

  abbrev pub followed_up : List NodeOutcome → Bool
  followed_up = any λ o. o.ok && (kind_beq o.kind research || kind_beq o.kind quant)

  unfoldable pub after_replan :
      Bool → Bool → GraphPatch → List NodeOutcome → Run c show → Next (Run c show)
  after_replan had_replan had_repair patch outcomes r =
      if r.submission.publication_blocked && not r.submission.referee_replan_required
      then stops r
      else if not r.submission.referee_replan_required
      then after_structural had_repair patch outcomes r
      else if had_replan && followed_up outcomes
      then after_structural had_repair patch outcomes
          (record r { submission = record r.submission { referee_replan_required = false } })
      else goes_on r

  abbrev pub forecast_reset : List NodePatch → SubmissionState → SubmissionState
  forecast_reset ops s =
      if any (λ op. kind_beq op.kind forecast) ops then reset_forecast_copy_state s else s

  -- One round with a plan.
  unfoldable pub wave_with : GraphPatch → Run c show → Next (Run c show)
  wave_with patch r =
      let (ops, drops, board) = admit c show settings patch r.board in
      let r₁ : Run c show = record r { board = record board { dropped = length drops } } in
      let r₂ : Run c show = record r₁ { submission = forecast_reset ops r₁.submission } in
      let w = out.execute ops r₂ in
      if is_nil ops
      then (if patch.stop || is_nil patch.ops then stops r₁ else goes_on r₁)
      else after_replan r₂.submission.referee_replan_required
          r₂.submission.structural_repair_required patch w.outcomes (take_in ops w r₂)

  -- The planner has been asked.
  abbrev pub after_plan : Run c show → Run c show
  after_plan r = record r { board = record r.board { runtime = out.runtime_planned r } }

  unfoldable pub wave : Run c show → Next (Run c show)
  wave r = elim (out.plan r) [
    | capped ↦ stops (record (after_plan r) { budget_exhausted = true })
    | planned patch ↦ wave_with patch (after_plan r)
  ]

  -- `for wave in range(settings.graph_max_waves)`
  unfoldable pub waves : ℕ → Run c show → Run c show
  waves zero r = r
  waves (suc n) r = elim (wave r) [ stops r' ↦ r' | goes_on r' ↦ waves n r' ]

  abbrev pub demand : Run c show → NodePatch
  demand r = record {
    node_id = "runner-demand-submit";
    kind = forecast;
    objective = "Submit the final forecast";
    brief =
        "Budget or wave limits are nearly exhausted. Stop researching and call submit_forecast now with your best current forecast; note the pressure in the justification text if it constrained you.";
    input_artifact_ids =
        map (λ a. a.id)
          (select
            (λ a. not (publishable a.kind) || contains a.id r.submission.publishable_artifact_ids)
            (all_records c r.board.artifacts));
    replaces = none;
  }

  unfoldable pub restore : Run c show → Run c show
  restore r =
      if can_restore_prior_acceptance r.submission
      then record r { submission = record r.submission { accepted = r.submission.last_accepted } }
      else r

  unfoldable pub demands_last : SubmissionState → Bool
  demands_last s =
      not (is_some s.accepted)
      && not s.publication_blocked
      && not s.referee_replan_required
      && not s.public_surface_contradiction

  unfoldable pub last_chance : Run c show → Run c show
  last_chance r =
      let r' : Run c show = record r { submission = reset_forecast_copy_state r.submission } in
      if demands_last r.submission
      then elim (out.execute_last (demand r) r') [
        | none ↦ r'
        | some w ↦ take_in (demand r ∷ []) w r'
      ]
      else r

  abbrev pub seed_op : NodePatch
  seed_op = record {
    node_id = "coverage-research";
    kind = research;
    objective = "Advisory coverage scan";
    brief = out.seed_brief;
    input_artifact_ids = [];
    replaces = none;
  }

  unfoldable pub seed : Run c show → Run c show
  seed r =
      let w = out.execute_seed seed_op r in
      let r' = with_worked w r in
      let b =
        merge c show out.fetched out.validate_research out.dump_research false (seed_op ∷ [])
          w.outcomes r'.board in
      if can_seed_research settings && out.should_seed then record r' { board = b } else r

  unfoldable pub add_receipt : Run c show → Run c show
  add_receipt r =
      let (store, id) = out.receipt r in
      record r {
        board =
            set_context c show "research_coverage_receipt" id
              (record r.board { artifacts = store });
      }

  -- `run_graph`
  unfoldable pub run_graph : Run c show → Run c show
  run_graph r = last_chance (restore (waves settings.graph_max_waves (add_receipt (seed (sync r)))))
