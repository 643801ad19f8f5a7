-- ===== src/Graph/Admit/Tests.antt =====
-- A plan of five operations on a board with one node that ran and one artifact: one operation takes
-- a used id, one replaces the node, and one is a second forecast.
use wolves_ai.Base.{
  ◌+◌, ◌≤◌, ◌≡◌, refl, true, false, not, String, Option, none, some, [], ◌∷◌, map, any, length, max,
  count_if, All, string_eq,
}
use wolves_ai.Base.Json.{Value}
use wolves_ai.Artifacts.{has, all_records}
use wolves_ai.Artifacts.Plain.{plain, empty}
use wolves_ai.Budget.{Caps, fresh, can_fund_followup_call, call_estimate_micros}
use wolves_ai.Budget.Reserves.{finalisation_reserve_calls, finalisation_reserves_micros}
use wolves_ai.Graph.Contracts.{
  NodeKind, research, quant, forecast, kind_beq, NodePatch, GraphPatch, GraphSettings,
}
use wolves_ai.Graph.TextRules.{
  focus_team_drift, unsafe_result_refit_brief, generic_dataset_gap_brief,
}
use wolves_ai.Graph.Board.{
  Board, planned_node_count, branch_follow_up_reason, premortem_follow_up_reason,
  can_fund_follow_up, coverage_of_board,
}
use wolves_ai.Graph.Coverage.{branch_coverage}
use wolves_ai.Graph.Admit.{
  counted, count_nodes, replaced_ids, kind_cap, admit, start, rounds, round, refusal, wave_cap,
}
use wolves_ai.Graph.Admit.Laws.{NewIds, Lineage, admit-Lineage, admit-caps}

abbrev show : Value → String
show v = "?"

abbrev caps : Caps
caps = record {
  max_llm_calls = 100;
  max_search_calls = 10;
  max_fetch_calls = 10;
  max_data_fetches = 10;
  max_quant_executions = 10;
  max_cost_micros = 5000000;
  headroom_micros = 0;
}

abbrev settings : GraphSettings
settings = record {
  focus_team = "england";
  agent_submit_retries = 3;
  graph_max_waves = 8;
  graph_max_nodes = 16;
  graph_max_wave_workers = 5;
  graph_max_research_nodes = 6;
  graph_max_quant_nodes = 6;
  graph_max_forecast_nodes = 3;
  graph_max_critic_nodes = 3;
  reserves = record {
    forecast_reserve_micros = 1300000;
    referee_reserve_micros = 450000;
    forecast_reserve_llm_calls = 26;
    referee_reserve_llm_calls = 4;
  };
  graph_followup_floor_micros = 550000;
  graph_max_revisions = 1;
  graph_revision_reserve_micros = 1100000;
  graph_max_coverage_nudges = 1;
  graph_premortem_enabled = true;
  graph_premortem_on_escalation_only = true;
  graph_max_critic_tails = 3;
}

abbrev board : Board plain show
board = record {
  artifacts = empty;
  ledger = [];
  runtime = fresh caps;
  run_context = [];
  nodes =
      record {
        node_id = "r1";
        kind = research;
        objective = "squads";
        ok = true;
        error = none;
        requests = 4;
        replaced_by = none;
        flags = [];
      }
      ∷ [];
  challenges = [];
  dropped = 0;
  wave = 1;
  coverage_nudges = 0;
  premortem_nudges = 0;
  last_wave_cost_micros = 0;
  cost_at_wave_start = 0;
}

abbrev op : String → NodeKind → Option String → NodePatch
op id kind replaces = record {
  node_id = id;
  kind = kind;
  objective = "";
  brief = "focus team is England";
  input_artifact_ids = [];
  replaces = replaces;
}

abbrev plan : GraphPatch
plan = record {
  ops =
      op "r1" research none
      ∷ op "r2" research (some "r1")
      ∷ op "q1" quant none
      ∷ op "f1" forecast none
      ∷ op "f2" forecast none
      ∷ [];
  stop = false;
  reason = "price the injury";
}

admitted_ids :
    map (λ o. o.node_id) (admit plain show settings plan board).0 ≡ "r2" ∷ "q1" ∷ "f1" ∷ []
unfolding admit start rounds round refusal wave_cap planned_node_count focus_team_drift
    unsafe_result_refit_brief generic_dataset_gap_brief branch_follow_up_reason
    premortem_follow_up_reason kind_cap can_fund_follow_up can_fund_followup_call
    finalisation_reserve_calls finalisation_reserves_micros call_estimate_micros coverage_of_board
    branch_coverage all_records
admitted_ids = refl

admit-Lineage_example :
    let ops = (admit plain show settings plan board).0 in
    NewIds ("r1" ∷ []) ops
    × Lineage ("r1" ∷ []) (replaced_ids board.nodes) ops
    × All (λ o. any (λ id. not (has plain id empty)) o.input_artifact_ids ≡ false) ops
admit-Lineage_example = admit-Lineage plain show settings plan board

admit-caps_example :
    let ops = (admit plain show settings plan board).0 in
    let planned = planned_node_count plain show board in
    (length ops ≤ 5)
    × (planned + length ops ≤ max 16 planned)
    × (count_if (λ o. kind_beq o.kind forecast) ops ≤ 1)
    × ((kind : NodeKind)
        → counted (count_nodes board.nodes) kind + count_if (λ o. kind_beq o.kind kind) ops
          ≤ max (kind_cap kind settings) (counted (count_nodes board.nodes) kind))
admit-caps_example = admit-caps plain show settings plan board
