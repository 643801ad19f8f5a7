-- ===== src/Daily/Tests.antt =====
-- The run of a day at fixed inputs.
use wolves_ai.Base.{
  ◌<◌, ◌≡◌, ◌↔◌, refl, ap, true, false, String, Option, none, some, List, [], ◌∷◌, any, map,
  count_if, string_eq, ◌==◌, if◌then◌else◌,
}
use wolves_ai.Submission.{Forecast, new_state}
use wolves_ai.Scenarios.{ScenarioEvent, collapsed, open_status, load}
use wolves_ai.Scenarios.Staging.{load-IsMirrored}
use wolves_ai.Daily.World.{
  Lesson, build_run, seed_mixture, live_attempt, started, failed, complete, run_graph,
  append_feedback, run_incomplete, shut_down, push, pull, record_failure, generate_fallback,
  close_clients, build_snapshot, record_stream, publish, score_yesterday, publish_fallback, World,
  returned, perform, handle, ◌>>=◌, ◌>>◌, commit_agent_state, discard_agent_state,
  commit_staged_lessons, clear_staged_lessons, append_lessons, stage_lessons,
}
use wolves_ai.Daily.Flow.{
  GraphRunResult, Write, updates, stages, Args, Outside, forecast_day, run_day, graph_result,
  graph_turn, preferred, prefer_last_clean, after_graph, published, unpublished, fallback,
  should_publish_fallback, apply_writes, apply_write,
}
use wolves_ai.Daily.Saved.{is_published}
use wolves_ai.Daily.Ends.{Post}
use wolves_ai.Daily.Outcome.{Outcome, forecast_day-Outcome}
use wolves_ai.Daily.Publishes.{forecast_day-publishes}
use wolves_ai.Daily.Unpublished.{forecast_day-keeps}
use wolves_ai.Daily.Pull.{is_pull, is_push, run_day-pulls}
use wolves_ai.Daily.Attempts.{
  Event, EventFile, AttemptSettings, live_attempt_summary, live_attempt_blocker, live_events,
  run_event_cost,
}
use wolves_ai.Daily.Blocked.{
  is_active, has_failed, total_cost, live_attempt_summary-counts, live_attempt_blocker-Clear,
}

abbrev forecast : Forecast
forecast = record {
  artifact_id = "mixture-001";
  body = "Brazil";
  evidence_ids = [];
  market_justification = "";
  change_justification = "";
}

abbrev lesson : String → Lesson
lesson text = record { date = "2026-06-12"; run_id = "agent-1"; scope = "general"; text = text }

abbrev old : ScenarioEvent
old = record {
  scenario_id = "scn-007";
  name = "Injury";
  run_id = "agent-0";
  status = open_status;
  weight = 20;
  reason = "news";
  at_time = "t0";
}

abbrev world : World
world = record {
  registry = load (old ∷ []) true;
  memory = record { lessons = lesson "be brief" ∷ []; staged_lessons = [] };
  submission = new_state;
  done = [];
}

abbrev writes : List Write
writes = updates "scn-007" "agent-1" collapsed 0 "recovered" "t1" ∷ stages lesson "look twice" ∷ []

abbrev graphed : GraphRunResult
graphed = record {
  submission = some forecast;
  escalations = none;
  finalised_with_open_branches = false;
}

-- A graph whose tools write, and which has this forecast or none.
abbrev outside : Option Forecast → Outside
outside submitted = record {
  run_enabled = true;
  is_blocked = false;
  has_state_store = true;
  remote_scenarios = old ∷ [];
  remote_lessons = lesson "be brief" ∷ [];
  score_summary = some "Brier 0.2";
  score_lesson = lesson;
  raises = λ call w. none;
  graph = λ w. record {
    writes = writes;
    submission = w.submission;
    reply = returned (record {
      submission = submitted;
      escalations = none;
      finalised_with_open_branches = false;
    });
  };
  has_forecaster = false;
  is_fitted = false;
  has_snapshot = true;
  spent = 900000;
  fingerprint = λ f. f.body;
}

abbrev live : Args
live = record { live = true; referee_enabled = false }

-- A run that publishes, and one that has no forecast: both pull, score and push; what was staged is on
-- disk after the first only.
day_runs :
    ((run_day live (outside (some forecast)) world).0 ≡ returned 0)
    × ((run_day live (outside (some forecast)) world).1.done
        ≡ push
          ∷ shut_down
          ∷ live_attempt complete
          ∷ publish 900000
          ∷ record_stream
          ∷ build_snapshot
          ∷ append_feedback
          ∷ close_clients
          ∷ run_graph
          ∷ live_attempt started
          ∷ seed_mixture
          ∷ build_run
          ∷ score_yesterday
          ∷ pull
          ∷ [])
    × ((run_day live (outside none) world).0 ≡ returned 1)
    × ((run_day live (outside none) world).1.done
        ≡ publish_fallback
          ∷ generate_fallback
          ∷ record_failure 900000
          ∷ push
          ∷ shut_down
          ∷ live_attempt failed
          ∷ run_incomplete
          ∷ append_feedback
          ∷ close_clients
          ∷ run_graph
          ∷ live_attempt started
          ∷ seed_mixture
          ∷ build_run
          ∷ score_yesterday
          ∷ pull
          ∷ [])
    × (map (λ l. l.text) (run_day live (outside (some forecast)) world).1.memory.lessons
        ≡ "be brief" ∷ "Brier 0.2" ∷ "look twice" ∷ [])
    × ((run_day live (outside none) world).1.memory.lessons
        ≡ lesson "be brief" ∷ lesson "Brier 0.2" ∷ [])
unfolding run_day forecast_day graph_result graph_turn preferred prefer_last_clean after_graph
    published unpublished fallback should_publish_fallback apply_writes apply_write perform handle
    ◌>>=◌ ◌>>◌ commit_agent_state discard_agent_state commit_staged_lessons clear_staged_lessons
    append_lessons stage_lessons
day_runs = (refl, refl, refl, refl, refl, refl)

not_published : is_published (forecast_day live (outside none) world).1 ≡ false
unfolding forecast_day graph_result graph_turn preferred prefer_last_clean after_graph unpublished
    fallback should_publish_fallback apply_writes apply_write perform handle ◌>>=◌ ◌>>◌
    discard_agent_state clear_staged_lessons
not_published = refl

forecast_day-keeps_example :
    ((forecast_day live (outside none) world).1.registry.file ≡ old ∷ [])
    × ((forecast_day live (outside none) world).1.memory.lessons ≡ lesson "be brief" ∷ [])
unfolding load
forecast_day-keeps_example = forecast_day-keeps live (outside none) world refl not_published

forecast_day-Outcome_example :
    Post
      (λ n w. Outcome w n)
      (forecast_day live (outside (some forecast)) world).0
      (forecast_day live (outside (some forecast)) world).1
forecast_day-Outcome_example =
    forecast_day-Outcome live (outside (some forecast)) world refl (load-IsMirrored (old ∷ []) true)

run_day-pulls_example : any is_pull (run_day live (outside none) world).1.done ≡ true
run_day-pulls_example =
    run_day-pulls live (outside none) world refl refl (ap (any is_push) day_runs.3)

abbrev live_event : String → Event
live_event status = record {
  kind = "live_attempt";
  as_of = some "2026-06-12";
  status = some status;
  cost_micros = none;
}

abbrev call_event : Event
call_event = record { kind = "llm_call"; as_of = none; status = none; cost_micros = some 400000 }

-- One word to an event.
abbrev parse : String → Option Event
parse line =
    if line == "{" then none else some (if line == "call" then call_event else live_event line)

abbrev files : List EventFile
files =
    record { name = "agent-1"; lines = "started" ∷ "call" ∷ "failed" ∷ []; modified = 100 }
    ∷ record { name = "agent-2"; lines = "started" ∷ " " ∷ "call" ∷ "{" ∷ []; modified = 9000 }
    ∷ record { name = "agent-3"; lines = "call" ∷ []; modified = 9000 }
    ∷ []

abbrev limits : AttemptSettings
limits = record { active_ttl = 3600; agent_live_failed_attempt_limit = 2 }

-- One attempt has failed and one may be at work.
summary_run :
    live_attempt_summary parse limits "2026-06-12" 10000 (λ c. c) (some files)
    ≡ record { attempts = 2; failed_attempts = 1; active_run_ids = "agent-2" ∷ []; spent = 800000 }
unfolding live_events run_event_cost
summary_run = live_attempt_summary-counts parse limits "2026-06-12" 10000 (λ c. c) files

live_attempt_blocker-Clear_example :
    live_attempt_blocker parse limits "2026-06-12" 20000 (λ c. c) (some files) 900000 false ≡ none
    ↔ (any (is_active parse limits "2026-06-12" 20000) files ≡ false)
      × (count_if (has_failed parse limits "2026-06-12" 20000) files < 2)
      × (total_cost parse limits "2026-06-12" 20000 files < 900000)
live_attempt_blocker-Clear_example =
    live_attempt_blocker-Clear parse limits "2026-06-12" 20000 (λ c. c) files 900000

forecast_day-publishes_example :
    ((forecast_day live (outside (some forecast)) world).0 ≡ returned 0)
    × (is_published (forecast_day live (outside (some forecast)) world).1 ≡ true)
forecast_day-publishes_example =
    forecast_day-publishes live (outside (some forecast)) world (λ c w. refl)
      (λ w. (graphed, refl, refl)) refl refl (load-IsMirrored (old ∷ []) true)
