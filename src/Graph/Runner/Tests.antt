-- ===== src/Graph/Runner/Tests.antt =====
-- A run whose master plans one quant node and then stops, with workers that always succeed.
use wolves_ai.Base.{
  ◌+◌, ◌≤◌, refl, true, false, String, none, some, List, [], ◌∷◌, map, arith, eqb, if◌then◌else◌,
}
use wolves_ai.Base.Json.{Value, null}
use wolves_ai.Artifacts.Plain.{plain, empty}
use wolves_ai.Budget.{Caps, fresh}
use wolves_ai.Submission.{Forecast, SubmitSettings, new_state}
use wolves_ai.Submission.Referee.{RefereeReport, raised}
use wolves_ai.Graph.Contracts.{quant, NodePatch, NodeOutcome, GraphSettings}
use wolves_ai.Graph.Board.{Board}
use wolves_ai.Graph.Runner.{Run, Outside, Worked, Planned, planned, waves}
use wolves_ai.Graph.Runner.Waves.{Matches}
use wolves_ai.Graph.Runner.Lineage.{Good, Faithful, waves-Good}

abbrev show : Value → String
show v = "?"

abbrev caps : Caps
caps = record {
  max_llm_calls = 100;
  max_search_calls = 10;
  max_fetch_calls = 10;
  max_data_fetches = 10;
  max_quant_executions = 10;
  max_cost_micros = 5000000;
  headroom_micros = 0;
}

abbrev settings : GraphSettings
settings = record {
  focus_team = "england";
  agent_submit_retries = 3;
  graph_max_waves = 8;
  graph_max_nodes = 16;
  graph_max_wave_workers = 5;
  graph_max_research_nodes = 6;
  graph_max_quant_nodes = 6;
  graph_max_forecast_nodes = 3;
  graph_max_critic_nodes = 3;
  reserves = record {
    forecast_reserve_micros = 1300000;
    referee_reserve_micros = 450000;
    forecast_reserve_llm_calls = 26;
    referee_reserve_llm_calls = 4;
  };
  graph_followup_floor_micros = 550000;
  graph_max_revisions = 1;
  graph_revision_reserve_micros = 1100000;
  graph_max_coverage_nudges = 1;
  graph_premortem_enabled = true;
  graph_premortem_on_escalation_only = true;
  graph_max_critic_tails = 3;
}

abbrev submit_settings : SubmitSettings
submit_settings = record {
  agent_structural_repair_attempts = 2;
  graph_referee_enabled = false;
  graph_referee_max_interventions = 1;
  referee_model = false;
}

abbrev board : Board plain show
board = record {
  artifacts = empty;
  ledger = [];
  runtime = fresh caps;
  run_context = [];
  nodes = [];
  challenges = [];
  dropped = 0;
  wave = 0;
  coverage_nudges = 0;
  premortem_nudges = 0;
  last_wave_cost_micros = 0;
  cost_at_wave_start = 0;
}

abbrev start : Run plain show
start = record { board = board; submission = new_state; budget_exhausted = false }

abbrev plan : Run plain show → Planned
plan r = planned (record {
  ops =
      if eqb r.board.wave 0
      then record {
        node_id = "q1";
        kind = quant;
        objective = "";
        brief = "";
        input_artifact_ids = [];
        replaces = none;
      }
        ∷ []
      else [];
  stop = false;
  reason = "";
})

abbrev outcome_of : NodePatch → NodeOutcome
outcome_of op = record {
  node_id = op.node_id;
  kind = op.kind;
  ok = true;
  artifact_ids = [];
  error = none;
  requests = 1;
  flags = [];
}

abbrev execute : List NodePatch → Run plain show → Worked plain
execute ops r = record {
  outcomes = map outcome_of ops;
  store = r.board.artifacts;
  runtime = r.board.runtime;
  submission = r.submission;
}

abbrev block_payload : RefereeReport → Value
block_payload r = null

abbrev out : Outside plain show
out = record {
  plan = plan;
  runtime_planned = λ r. r.board.runtime;
  execute = execute;
  execute_last = λ op r. some (execute (op ∷ []) r);
  should_seed = false;
  seed_brief = "";
  execute_seed = λ op r. execute (op ∷ []) r;
  receipt = λ r. (r.board.artifacts, "report-001");
  published_surface = λ b id. some "[]";
  fetched = λ url. false;
  validate_research = λ v. record { summary = ""; evidence = []; candidate_branches = [] };
  dump_research = λ o. null;
  fingerprint = λ f. f.artifact_id;
  answer = λ r. raised true "";
  runtime_answered = λ r. r.board.runtime;
  normalise = λ r f. f;
  report = λ r f. record { issues = []; escalations = [] };
  block_payload = block_payload;
  now = 0;
}

map-Matches : (ops : List NodePatch) → Matches ops (map outcome_of ops)
map-Matches [] = tt
map-Matches (op ∷ ops) = (refl, map-Matches ops)

out-Faithful : Faithful plain show settings submit_settings out
out-Faithful ops r = map-Matches ops

start-Good : Good 16 []
start-Good = record { forward = tt; unreserved = tt; within = omega arith }

waves-Good_example :
    let r = waves plain show settings submit_settings out 8 start in
    Good 16 r.board.nodes × (r.board.wave ≤ 0 + 8)
waves-Good_example =
    waves-Good plain show settings submit_settings out out-Faithful 8 start start-Good

abbrev prior : Forecast
prior = record {
  artifact_id = "mixture-001";
  body = "";
  evidence_ids = [];
  market_justification = "";
  change_justification = "";
}

abbrev with_prior : Run plain show
with_prior = record start { submission = record new_state { accepted = some prior } }

abbrev revised : Run plain show
revised = record start { submission = record new_state { last_accepted = some prior } }
