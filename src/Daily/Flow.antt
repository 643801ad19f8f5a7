-- ===== src/Daily/Flow.antt =====
-- engine/wolves/run_agent.py: `_run`, from the kill switch to the exit code. The graph is a function of
-- the outside that says which tools wrote what; the local file of scenarios is the registry's.
use wolves_ai.Base.{
  ℕ, Bool, true, false, not, ◌&&◌, ◌||◌, String, Option, none, some, List, [], ◌∷◌, if◌then◌else◌,
  is_some, contains, string_eq,
}
use wolves_ai.Base.Sorted.{is_empty}
use wolves_ai.Submission.{
  Forecast, SubmissionState, RefereeStatus, bypassed_infrastructure, bypassed_budget,
  bypassed_interrupted, approved_status, intervention_cap,
}
use wolves_ai.Scenarios.{
  ScenarioStatus, ScenarioEvent, ScenarioState, ScenarioRegistry, Result, returns, raises, load,
  open_scenario, update,
}
use wolves_ai.Daily.World.{
  Lesson, append_lessons, stage_lessons, Call, pull, score_yesterday, build_run, seed_mixture,
  live_attempt, started, cancelled, failed, degraded, complete, run_graph, fetch_market,
  record_failure, shut_down, close_clients, append_feedback, run_incomplete, push,
  generate_fallback, publish_fallback, build_snapshot, record_stream, publish, publish_fitted, Exn,
  s3_unavailable, cancelled_error, World, Reply, returned, Act, pure, raise, ◌>>=◌, ◌>>◌, handle,
  modify, when, perform, commit_agent_state, discard_agent_state,
}

-- `GraphRunResult`, less its counters
pub record GraphRunResult : Type 0 where
  pub submission : Option Forecast
  pub escalations : Option (List String)
  pub finalised_with_open_branches : Bool

-- What a tool writes while the graph runs.
pub data Write : Type 0 where
  opens : (name run_id : String) (weight : ℕ) (reason now : String) → Write
  updates : (i run_id : String) (status : ScenarioStatus) (weight : ℕ) (reason now : String) → Write
  stages : (lesson : String → Lesson) (text : String) → Write

abbrev pub kept : ScenarioRegistry → Result (ScenarioState × ScenarioRegistry) → ScenarioRegistry
kept r (returns (s, r')) = r'
kept r (raises e) = r

unfoldable pub apply_write : World → Write → World
apply_write w (opens name run_id weight reason now) = record w {
  registry = kept w.registry (open_scenario name run_id weight reason now w.registry);
}
apply_write w (updates i run_id status weight reason now) = record w {
  registry = kept w.registry (update i run_id status weight reason now w.registry);
}
apply_write w (stages lesson text) = record w { memory = stage_lessons lesson text w.memory }

unfoldable pub apply_writes : List Write → World → World
unfolding apply_write
apply_writes [] w = w
apply_writes (x ∷ xs) w = apply_writes xs (apply_write w x)

pub record Graphed : Type 0 where
  pub writes : List Write
  pub submission : SubmissionState
  pub reply : Reply GraphRunResult

pub record Args : Type 0 where
  pub live : Bool
  -- `settings.graph_referee_enabled`
  pub referee_enabled : Bool

-- The outside of a run; a call of it may raise.
pub record Outside : Type 0 where
  pub run_enabled : Bool
  -- `_live_attempt_blocker` gives a reason
  pub is_blocked : Bool
  -- there is a bucket, and what it holds
  pub has_state_store : Bool
  pub remote_scenarios : List ScenarioEvent
  pub remote_lessons : List Lesson
  -- the summary of `score_yesterday`, if there is one
  pub score_summary : Option String
  pub score_lesson : String → Lesson
  pub raises : Call → World → Option Exn
  pub graph : World → Graphed
  pub has_forecaster : Bool
  pub is_fitted : Bool
  -- a snapshot comes of the accepted forecast
  pub has_snapshot : Bool
  -- what the budget has charged
  pub spent : ℕ
  pub fingerprint : Forecast → String

unfoldable pub prefer_last_clean :
    (Forecast → String) → Bool → GraphRunResult → SubmissionState → GraphRunResult × SubmissionState
prefer_last_clean fingerprint referee_enabled result state = elim state.last_clean [
  | none ↦ (result, state)
  | some clean ↦
      if is_some result.submission || state.publication_blocked || state.referee_replan_required
      then (result, state)
      else (
        record result {
          submission = some clean;
          escalations =
              if is_empty state.last_clean_escalations
              then none
              else some state.last_clean_escalations;
        },
        if not referee_enabled
            then state
            else if contains (fingerprint clean) state.referee_approved
            then record state { referee_status = approved_status }
            else record state {
              referee_status = bypassed_interrupted;
              referee_reason = "steelman finalisation ended before referee review";
            },
      )
]

unfoldable pub should_publish_fallback : SubmissionState → Bool
should_publish_fallback state = not state.publication_blocked

abbrev pub is_bypassed : RefereeStatus → Bool
is_bypassed bypassed_infrastructure = true
is_bypassed bypassed_budget = true
is_bypassed bypassed_interrupted = true
is_bypassed _ = false

abbrev pub is_degraded : GraphRunResult → RefereeStatus → Bool
is_degraded result status =
    is_bypassed status
    || (elim status as (λ s. Bool) [ intervention_cap ↦ true | _ ↦ false ])
    || result.finalised_with_open_branches

abbrev pub is_s3_unavailable : Exn → Bool
is_s3_unavailable s3_unavailable = true
is_s3_unavailable _ = false

-- `except Exception` lets a cancellation through.
abbrev pub swallow : Exn → Act (Unit {0})
swallow cancelled_error = raise cancelled_error
swallow _ = pure tt

abbrev pub status_of : Exn → Call
status_of cancelled_error = live_attempt cancelled
status_of _ = live_attempt failed

module _ (args : Args) (out : Outside) where
  abbrev pub call : Call → Act (Unit {0})
  call = perform out.raises

  -- `run_graph`, which counts as done whichever way it ends
  unfoldable pub graph_turn : Act GraphRunResult
  graph_turn w =
      let g = out.graph w in
      let w' = apply_writes g.writes w in
      (g.reply, record w' { submission = g.submission; done = run_graph ∷ w'.done })

  unfoldable pub preferred : GraphRunResult → Act GraphRunResult
  preferred result w =
      let (chosen, s) =
        prefer_last_clean out.fingerprint args.referee_enabled result w.submission in
      (returned chosen, record w { submission = s })

  abbrev pub market : GraphRunResult → Act (Unit {0})
  market result =
      when (is_some result.submission && out.has_forecaster) (handle (call fetch_market) swallow)

  abbrev pub run_broken : Exn → Act GraphRunResult
  run_broken x = do
    modify discard_agent_state
    when args.live (call (status_of x))
    call (record_failure out.spent)
    call shut_down
    raise x

  -- `finally:` what closing raises takes the place of the rest
  abbrev pub closed {ℓ} : {A : Type ℓ} → Reply A → Act A
  closed r = do call close_clients; λ w. (r, w)

  abbrev pub closing {ℓ} : {A : Type ℓ} → Act A → Act A
  closing m w = closed (m w).0 (m w).1

  unfoldable pub graph_result : Act GraphRunResult
  graph_result = closing (
      handle (do result ← graph_turn; chosen ← preferred result; market chosen; pure chosen)
        run_broken)

  -- `_publish_fallback`, where `_should_publish_fallback` lets it
  unfoldable pub fallback : Act (Unit {0})
  fallback w =
      when (should_publish_fallback w.submission)
        (handle (do call generate_fallback; call publish_fallback) swallow) w

  unfoldable pub unpublished : Act ℕ
  unpublished = do
    when args.live (call (live_attempt failed))
    call shut_down
    when out.has_state_store (call push)
    call (record_failure out.spent)
    fallback
    pure 1

  abbrev pub verdict : GraphRunResult → Act (Unit {0})
  verdict result w =
      when args.live
        (call (
          live_attempt
            (if is_degraded result w.submission.referee_status then degraded else complete)))
        w

  unfoldable pub published : GraphRunResult → Act ℕ
  published result = do
    call record_stream
    call (publish out.spent)
    when (out.has_forecaster && out.is_fitted) (call publish_fitted)
    modify commit_agent_state
    verdict result
    call shut_down
    when out.has_state_store (call push)
    pure 0

  unfoldable pub after_graph : GraphRunResult → Act ℕ
  after_graph result = do
    call append_feedback
    elim result.submission [
      | none ↦ do modify discard_agent_state; call run_incomplete; unpublished
      | some forecast ↦ do
        call build_snapshot
        (if out.has_snapshot
            then published result
            else (do modify discard_agent_state; unpublished))
    ]

  -- `_run`, once the state of earlier runs is here
  unfoldable pub forecast_day : Act ℕ
  forecast_day = do
    call build_run
    call seed_mixture
    when args.live (call (live_attempt started))
    result ← graph_result
    after_graph result

  abbrev pub hydrate : World → World
  hydrate w = record w {
    registry = load out.remote_scenarios true;
    memory = record w.memory { lessons = out.remote_lessons };
  }

  abbrev pub score : World → World
  score w = elim out.score_summary [
    | none ↦ w
    | some summary ↦ record w { memory = append_lessons out.score_lesson summary w.memory }
  ]

  -- `state.pull()`, and whether the bucket was there
  abbrev pub pulled : Act Bool
  pulled =
      handle (do call pull; modify hydrate; pure true)
        (λ x. if is_s3_unavailable x then pure false else raise x)

  abbrev pub scored_day : Act ℕ
  scored_day = do call score_yesterday; modify score; forecast_day

  -- `_run`
  unfoldable pub run_day : Act ℕ
  run_day =
      if not out.run_enabled
      then pure 0
      else if args.live && out.is_blocked
      then pure 1
      else if not out.has_state_store
      then scored_day
      else (do here ← pulled; if here then scored_day else (do call (record_failure 0); pure 1))
