-- ===== src/Graph/Contracts.antt =====
-- engine/wolves/graph/contracts.py: what the master and its workers give each other.
use wolves_ai.Base.{ℕ, Bool, true, false, String, Option, List}
use wolves_ai.Budget.Reserves.{ReserveSettings}

pub data NodeKind : Type 0 where
  research quant forecast critic : NodeKind

abbrev pub kind_beq : NodeKind → NodeKind → Bool
kind_beq research research = true
kind_beq quant quant = true
kind_beq forecast forecast = true
kind_beq critic critic = true
kind_beq _ _ = false

-- `NodePatch`, with the fields of the `Brief` that it extends
pub record NodePatch : Type 0 where
  pub node_id : String
  pub kind : NodeKind
  pub objective : String
  pub brief : String
  pub input_artifact_ids : List String
  pub replaces : Option String

pub record GraphPatch : Type 0 where
  pub ops : List NodePatch
  pub stop : Bool
  pub reason : String

pub record NodeOutcome : Type 0 where
  pub node_id : String
  pub kind : NodeKind
  pub ok : Bool
  pub artifact_ids : List String
  pub error : Option String
  pub requests : ℕ
  pub flags : List String

-- What the graph reads of `Settings` (engine/wolves/config.py); dollars enter as micros.
pub record GraphSettings : Type 0 where
  pub focus_team : String
  pub agent_submit_retries : ℕ
  pub graph_max_waves : ℕ
  pub graph_max_nodes : ℕ
  pub graph_max_wave_workers : ℕ
  pub graph_max_research_nodes : ℕ
  pub graph_max_quant_nodes : ℕ
  pub graph_max_forecast_nodes : ℕ
  pub graph_max_critic_nodes : ℕ
  pub reserves : ReserveSettings
  pub graph_followup_floor_micros : ℕ
  pub graph_max_revisions : ℕ
  pub graph_revision_reserve_micros : ℕ
  pub graph_max_coverage_nudges : ℕ
  pub graph_premortem_enabled : Bool
  pub graph_premortem_on_escalation_only : Bool
  pub graph_max_critic_tails : ℕ
