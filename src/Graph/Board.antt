-- ===== src/Graph/Board.antt =====
-- engine/wolves/graph/blackboard.py: what the runner knows of a run, and what it asks of it. The
-- board's reads of the artifact store drop what they cache, since no later read shows it. Rendering
-- the board for the master (`summary`) is left out.
use wolves_ai.Base.{
  ℕ, zero, suc, ◌+◌, Bool, true, false, not, ◌&&◌, ◌||◌, String, Option, none, some, List, [], ◌∷◌,
  map, any, select, contains, count_if, length, leb, ltb, if◌then◌else◌, is_some, string_eq, ◌==◌,
}
use wolves_ai.Base.Dict.{Dict, insert}
use wolves_ai.Base.Json.{Value, Fields, no_fields, field, obj, get as get_value, truthy, is_dict}
use wolves_ai.Artifacts.{Artifact, ArtifactRecord, Codec, Store, all_records, get}
use wolves_ai.Artifacts.Ids.{ArtifactKind, mixture, forecast, critique, kind_beq}
use wolves_ai.Budget.{Runtime, can_fund_followup_call}
use wolves_ai.Budget.Reserves.{finalisation_reserves_micros, finalisation_reserve_calls}
use wolves_ai.Ledger.{LedgerEntry}
use wolves_ai.Graph.Contracts.{NodeKind, GraphSettings}
use wolves_ai.Graph.Coverage.{BranchCoverage, branch_coverage}

pub record NodeRecord : Type 0 where
  pub node_id : String
  pub kind : NodeKind
  pub objective : String
  pub ok : Bool
  pub error : Option String
  pub requests : ℕ
  pub replaced_by : Option String
  pub flags : List String

-- `node.node_id != "coverage-research"`
abbrev pub is_planned : NodeRecord → Bool
is_planned n = not (n.node_id == "coverage-research")

-- `{node.node_id: node for node in nodes}.get(id)`: the last node of that id
abbrev pub find_node : String → List NodeRecord → Option NodeRecord
find_node id [] = none
find_node id (n ∷ ns) = elim (find_node id ns) [
  | some m ↦ some m
  | none ↦ if n.node_id == id then some n else none
]

-- A node has written an artifact of this kind.
abbrev pub wrote : String → ArtifactKind → List ArtifactRecord → Bool
wrote id kind records = any (λ r. r.created_by == id && kind_beq r.kind kind) records

-- The loop of `superseded`, from a node that the walk has reached; each round goes from a node to the
-- one that replaced it. Without an answer it has run out of fuel.
unfoldable pub superseded_from :
    ℕ → ArtifactKind → List ArtifactRecord → List NodeRecord → Option NodeRecord → Option Bool
superseded_from zero kind records nodes at = none
superseded_from (suc fuel) kind records nodes none = some false
superseded_from (suc fuel) kind records nodes (some n) = elim n.replaced_by [
  | none ↦ some false
  | some r ↦
      let rest = superseded_from fuel kind records nodes (find_node r nodes) in
      if wrote r kind records then some true else rest
]

-- The answer, with false where there is none.
abbrev pub answer_of : Option Bool → Bool
answer_of none = false
answer_of (some b) = b

unfoldable pub superseded : List NodeRecord → List ArtifactRecord → ArtifactRecord → Bool
unfolding superseded_from
superseded nodes records r =
    answer_of
      (superseded_from (suc (length nodes)) r.kind records nodes (find_node r.created_by nodes))

unfoldable pub active_artifact_ids :
    (ArtifactKind → Bool) → List NodeRecord → List ArtifactRecord → List String
unfolding superseded
active_artifact_ids of_kind nodes records =
    map (λ r. r.id)
      (select
        (λ r.
          of_kind r.kind
          && (r.created_by == "runtime" || is_some (find_node r.created_by nodes))
          && not (superseded nodes records r))
        records)

abbrev pub publishable : ArtifactKind → Bool
publishable kind = kind_beq kind mixture || kind_beq kind forecast

abbrev base_worlds : List String
base_worlds = "baseline" ∷ "model_base" ∷ "market_base" ∷ []

unfoldable pub has_non_base_perturbation : Fields → Bool
has_non_base_perturbation no_fields = false
has_non_base_perturbation (field name spec rest) =
    not (contains name base_worlds) && is_dict spec && truthy (get_value "perturbations" spec)
    || has_non_base_perturbation rest

module _ (c : Codec) (show : Value → String) where
  pub record Board : Type 0 where
    pub artifacts : Store c
    pub ledger : List LedgerEntry
    pub runtime : Runtime
    pub run_context : Dict String String
    pub nodes : List NodeRecord
    pub challenges : List String
    pub dropped : ℕ
    pub wave : ℕ
    pub coverage_nudges : ℕ
    pub premortem_nudges : ℕ
    pub last_wave_cost_micros : ℕ
    pub cost_at_wave_start : ℕ

  -- `set_context`
  unfoldable pub set_context : String → String → Board → Board
  set_context key value b = record b { run_context = insert key value b.run_context }

  unfoldable pub planned_node_count : Board → ℕ
  planned_node_count b = count_if is_planned b.nodes

  -- The artifacts of these records that a read returns.
  abbrev pub read_all : Store c → List ArtifactRecord → List Artifact
  read_all s [] = []
  read_all s (r ∷ rs) = elim (get c r.id s).0 [ none ↦ read_all s rs | some a ↦ a ∷ read_all s rs ]

  -- `active_creators`: of nodes not replaced, of no node, or of an artifact that may be published
  abbrev pub is_active_creator : Board → String → Bool
  is_active_creator b creator =
      let records = all_records c b.artifacts in
      let known = map (λ n. n.node_id) b.nodes in
      any (λ n. n.node_id == creator && not (is_some n.replaced_by)) b.nodes
      || any (λ r. r.created_by == creator && not (contains creator known)) records
      || any
          (λ r.
            r.created_by == creator
            && contains r.id (active_artifact_ids publishable b.nodes records))
          records

  -- `branch_coverage`; `active_creators or None` admits every record when no creator is active.
  unfoldable pub coverage_of_board : GraphSettings → Board → BranchCoverage
  coverage_of_board settings b =
      let records = all_records c b.artifacts in
      let nobody = not (
        any (λ n. not (is_some n.replaced_by)) b.nodes
        || any (λ r. is_active_creator b r.created_by) records) in
      branch_coverage show b.ledger (some settings.graph_max_critic_tails)
        (read_all b.artifacts (select (λ r. nobody || is_active_creator b r.created_by) records))

  unfoldable pub can_fund_follow_up : GraphSettings → Board → Bool
  can_fund_follow_up settings b =
      let micros = finalisation_reserves_micros settings.reserves b.runtime.caps in
      let calls = finalisation_reserve_calls settings.reserves b.runtime.caps in
      can_fund_followup_call (micros.0 + micros.1) (calls.0 + calls.1)
        settings.graph_followup_floor_micros b.runtime

  unfoldable pub branch_follow_up_reason : GraphSettings → Board → Option String
  branch_follow_up_reason settings b =
      if leb settings.graph_max_coverage_nudges b.coverage_nudges
      then none
      else if not (can_fund_follow_up settings b)
      then none
      else let coverage = coverage_of_board settings b in
        if coverage.needs_follow_up then coverage.reason else none

  abbrev perturbed : Option Artifact → Bool
  perturbed none = false
  perturbed (some a) = elim (get_value "worlds" a.payload) [
    | some (obj worlds) ↦ has_non_base_perturbation worlds
    | _ ↦ false
  ]

  -- `_has_premortem_candidate`
  unfoldable pub has_premortem_candidate : Bool → Board → Bool
  unfolding has_non_base_perturbation
  has_premortem_candidate material_only b =
      any (λ r. publishable r.kind && (not material_only || perturbed (get c r.id b.artifacts).0))
        (all_records c b.artifacts)

  -- The nudge's text is the same each time.
  unfoldable pub premortem_follow_up_reason : GraphSettings → Board → Bool
  unfolding has_premortem_candidate
  premortem_follow_up_reason settings b =
      if not settings.graph_premortem_enabled || ltb 0 b.premortem_nudges
      then false
      else if not (can_fund_follow_up settings b)
      then false
      else if any (λ r. kind_beq r.kind critique) (all_records c b.artifacts)
      then false
      else has_premortem_candidate settings.graph_premortem_on_escalation_only b
