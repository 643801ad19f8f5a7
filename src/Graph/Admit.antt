-- ===== src/Graph/Admit.antt =====
-- engine/wolves/graph/master.py: `admit`, which trims the master's plan. A drop is the node and the
-- reason from which its text is made.
pub mod Plan
pub mod Laws
pub mod Accounts
pub mod Nudges
mod Tests
use wolves_ai.Base.{
  ℕ, ◌+◌, ◌-◌, Bool, true, false, not, ◌&&◌, ◌||◌, String, Option, none, some, List, [], ◌∷◌, ◌++◌,
  map, any, select, contains, length, take, drop, min, max, leb, eqb, if◌then◌else◌, is_some,
  string_eq, ◌==◌,
}
use wolves_ai.Base.Json.{Value}
use wolves_ai.Base.Text.{codes, starts_with}
use wolves_ai.Artifacts.{Codec, has}
use wolves_ai.Graph.Contracts.{
  NodeKind, research, quant, forecast, critic, kind_beq, NodePatch, GraphPatch, GraphSettings,
}
use wolves_ai.Graph.TextRules.{
  full_text, focus_team_drift, unsafe_result_refit_brief, generic_dataset_gap_brief,
}
use wolves_ai.Graph.Board.{
  NodeRecord, is_planned, Board, planned_node_count, branch_follow_up_reason,
  premortem_follow_up_reason,
}

pub data Reason : Type 0 where
  duplicate_node_id reserved_id replaces_unknown already_superseded unknown_artifacts : Reason
  focus_drift : List ℕ → Reason
  result_refit dataset_mining one_forecast_per_wave : Reason
  branch_coverage_needed : String → Reason
  premortem_needed kind_spent over_cap : Reason

pub record Drop : Type 0 where
  pub node_id : String
  pub why : Reason

unfoldable pub kind_cap : NodeKind → GraphSettings → ℕ
kind_cap research s = s.graph_max_research_nodes
kind_cap quant s = s.graph_max_quant_nodes
kind_cap forecast s = s.graph_max_forecast_nodes
kind_cap critic s = s.graph_max_critic_nodes

-- `kind_counts`
pub record KindCounts : Type 0 where
  pub researches : ℕ
  pub quants : ℕ
  pub forecasts : ℕ
  pub critics : ℕ

abbrev pub counted : KindCounts → NodeKind → ℕ
counted k research = k.researches
counted k quant = k.quants
counted k forecast = k.forecasts
counted k critic = k.critics

abbrev pub count_one : NodeKind → KindCounts → KindCounts
count_one research k = record k { researches = k.researches + 1 }
count_one quant k = record k { quants = k.quants + 1 }
count_one forecast k = record k { forecasts = k.forecasts + 1 }
count_one critic k = record k { critics = k.critics + 1 }

abbrev pub count_nodes : List NodeRecord → KindCounts
count_nodes [] = record { researches = 0; quants = 0; forecasts = 0; critics = 0 }
count_nodes (n ∷ ns) =
    let rest = count_nodes ns in if is_planned n then count_one n.kind rest else rest

abbrev pub replaced_ids : List NodeRecord → List String
replaced_ids ns = map (λ n. n.node_id) (select (λ n. is_some n.replaced_by) ns)

abbrev pub some_in : Option String → List String → Bool
some_in none ids = false
some_in (some id) ids = contains id ids

abbrev pub add_some : Option String → List String → List String
add_some none ids = ids
add_some (some id) ids = id ∷ ids

abbrev pub when : Bool → Reason → Option Reason
when true r = some r
when false r = none

abbrev pub first : List (Option Reason) → Option Reason
first [] = none
first (some r ∷ os) = some r
first (none ∷ os) = first os

abbrev option_map {ℓ} : {A : Type ℓ} → (A → Reason) → Option A → Option Reason
option_map f none = none
option_map f (some a) = some (f a)

module _ (c : Codec) (show : Value → String) (settings : GraphSettings) where
  -- The variables of the loop over the patch's operations.
  pub record Loop : Type 0 where
    pub board : Board c show
    pub admitted : List NodePatch
    pub drops : List Drop
    pub seen : List String
    pub replaced : List String
    pub kind_counts : KindCounts
    pub forecast_admitted : Bool

  unfoldable pub start : Board c show → Loop
  start b = record {
    board = b;
    admitted = [];
    drops = [];
    seen = map (λ n. n.node_id) b.nodes;
    replaced = replaced_ids b.nodes;
    kind_counts = count_nodes b.nodes;
    forecast_admitted = false;
  }

  abbrev is_forecast : NodePatch → Bool
  is_forecast op = kind_beq op.kind forecast

  -- The tests of the loop in their order, each with its reason if the operation fails it.
  abbrev pub tests : Loop → NodePatch → List (Option Reason)
  tests l op =
      when (contains op.node_id l.seen) duplicate_node_id
      ∷ when (starts_with (codes "runner-") (codes op.node_id)) reserved_id
      ∷ when (is_some op.replaces && not (some_in op.replaces l.seen)) replaces_unknown
      ∷ when (some_in op.replaces l.replaced) already_superseded
      ∷ when (any (λ id. not (has c id l.board.artifacts)) op.input_artifact_ids) unknown_artifacts
      ∷ option_map focus_drift (focus_team_drift settings.focus_team (full_text op))
      ∷ when (unsafe_result_refit_brief op) result_refit
      ∷ when (generic_dataset_gap_brief op) dataset_mining
      ∷ when (is_forecast op && l.forecast_admitted) one_forecast_per_wave
      ∷ (if is_forecast op
          then option_map branch_coverage_needed (branch_follow_up_reason c show settings l.board)
          else none)
      ∷ when (is_forecast op && premortem_follow_up_reason c show settings l.board) premortem_needed
      ∷ when (leb (kind_cap op.kind settings) (counted l.kind_counts op.kind)) kind_spent
      ∷ []

  unfoldable pub refusal : Loop → NodePatch → Option Reason
  refusal l op = first (tests l op)

  -- The nudge that a drop for this reason counts.
  abbrev pub nudged : Reason → Board c show → Board c show
  nudged (branch_coverage_needed why) b = record b { coverage_nudges = b.coverage_nudges + 1 }
  nudged premortem_needed b = record b { premortem_nudges = b.premortem_nudges + 1 }
  nudged _ b = b

  abbrev dropped_op : Reason → NodePatch → Loop → Loop
  dropped_op why op l = record l {
    board = nudged why l.board;
    drops = l.drops ++ record { node_id = op.node_id; why = why } ∷ [];
  }

  abbrev admitted_op : NodePatch → Loop → Loop
  admitted_op op l = record l {
    admitted = l.admitted ++ op ∷ [];
    seen = op.node_id ∷ l.seen;
    replaced = add_some op.replaces l.replaced;
    kind_counts = count_one op.kind l.kind_counts;
    forecast_admitted = l.forecast_admitted || is_forecast op;
  }

  unfoldable pub round : Loop → NodePatch → Loop
  round l op = elim (refusal l op) [ some why ↦ dropped_op why op l | none ↦ admitted_op op l ]

  unfoldable pub rounds : Loop → List NodePatch → Loop
  unfolding round
  rounds l [] = l
  rounds l (op ∷ ops) = rounds (round l op) ops

  -- `min(max(0, graph_max_nodes - planned), graph_max_wave_workers)`
  unfoldable pub wave_cap : Board c show → ℕ
  wave_cap b =
      min (settings.graph_max_nodes - planned_node_count c show b) settings.graph_max_wave_workers

  abbrev over : NodePatch → Drop
  over op = record { node_id = op.node_id; why = over_cap }

  -- `admit`: what is admitted, what is dropped, and the board with its nudges counted. A plan whose
  -- reason has drifted is dropped whole.
  unfoldable pub admit : GraphPatch → Board c show → List NodePatch × List Drop × Board c show
  unfolding start rounds
  admit patch b = elim (focus_team_drift settings.focus_team (codes patch.reason)) [
    | some found ↦ ([], record { node_id = "patch"; why = focus_drift found } ∷ [], b)
    | none ↦
        let l = rounds (start b) patch.ops in
        (take (wave_cap b) l.admitted, l.drops ++ map over (drop (wave_cap b) l.admitted), l.board)
  ]
