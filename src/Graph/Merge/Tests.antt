-- ===== src/Graph/Merge/Tests.antt =====
-- A wave with two outcomes: one replaces an earlier node, the other has failed.
use wolves_ai.Base.{
  suc, ◌+◌, ◌≡◌, refl, Bool, true, false, String, Option, none, some, List, [], ◌∷◌, length, arith,
  string_eq, pair_eq, ◌==◌,
}
use wolves_ai.Base.Int.{pos}
use wolves_ai.Base.Json.{Value, null}
use wolves_ai.Base.Text.{codes_eq}
use wolves_ai.Artifacts.{ArtifactRecord}
use wolves_ai.Artifacts.Ids.{mixture}
use wolves_ai.Artifacts.Plain.{plain, empty}
use wolves_ai.Budget.{Caps, fresh}
use wolves_ai.Ledger.{Claim, confirmed, append_entry}
use wolves_ai.Graph.Contracts.{quant, NodePatch, NodeOutcome}
use wolves_ai.Graph.Board.{NodeRecord, Board, find_node, superseded_from, superseded}
use wolves_ai.Graph.Merge.{
  ResearchOutput, fold_evidence, fold_items, fold_item, known_claims, needs_demotion,
  fetched_this_run, merge,
}
use wolves_ai.Graph.Merge.Evidence.{Sound, fold_evidence-Sound}
use wolves_ai.Graph.Merge.Nodes.{Forward, superseded-Ends, merge-Forward}

abbrev show : Value → String
show v = "?"

abbrev fetched : String → Bool
fetched url = url == "https://example.org/read"

abbrev claim : String → String → Claim
claim what url = record {
  claim = what;
  source_url = url;
  status = confirmed;
  mechanism = "";
  proposed_delta = pos 1;
  expiry = none;
  team_id = none;
  relevance = none;
  retrieval_id = none;
}

abbrev items : List Claim
items =
    claim "Out for a month" "https://example.org/read"
    ∷ claim " out FOR a month " "https://example.org/read"
    ∷ claim "Back in training" "https://example.org/snippet"
    ∷ []

folded :
    let f = fold_evidence fetched items [] in
    (f.appended ≡ 2) × (f.demoted ≡ 1) × (length f.ledger ≡ 2)
unfolding fold_evidence fold_items fold_item known_claims needs_demotion fetched_this_run
    append_entry
folded = (refl, refl, refl)

none-Sound : Sound fetched []
none-Sound = record { numbered = tt; once = λ k. omega arith; backed = tt }

fold_evidence-Sound_example :
    let f = fold_evidence fetched items [] in
    Sound fetched f.ledger × (length f.ledger ≡ 0 + f.appended)
fold_evidence-Sound_example = fold_evidence-Sound fetched items [] none-Sound

abbrev node : String → Option String → NodeRecord
node id replaced_by = record {
  node_id = id;
  kind = quant;
  objective = "";
  ok = true;
  error = none;
  requests = 1;
  replaced_by = replaced_by;
  flags = [];
}

abbrev nodes : List NodeRecord
nodes = node "q1" (some "q2") ∷ node "q2" none ∷ []

abbrev priced : ArtifactRecord
priced = record {
  id = "mixture-001";
  kind = mixture;
  created_by = "q1";
  summary = "";
  created_at = 0;
  workspace_prefix = none;
}

superseded-Ends_example :
    superseded_from (suc 2 + 5) mixture (priced ∷ []) nodes (find_node "q1" nodes)
    ≡ some (superseded nodes (priced ∷ []) priced)
superseded-Ends_example = superseded-Ends nodes (priced ∷ []) priced 5 (refl, refl, (refl, tt, tt))

abbrev caps : Caps
caps = record {
  max_llm_calls = 9;
  max_search_calls = 9;
  max_fetch_calls = 9;
  max_data_fetches = 9;
  max_quant_executions = 9;
  max_cost_micros = 0;
  headroom_micros = 0;
}

abbrev board : Board plain show
board = record {
  artifacts = empty;
  ledger = [];
  runtime = fresh caps;
  run_context = [];
  nodes = nodes;
  challenges = [];
  dropped = 0;
  wave = 1;
  coverage_nudges = 0;
  premortem_nudges = 0;
  last_wave_cost_micros = 0;
  cost_at_wave_start = 0;
}

abbrev op : String → Option String → NodePatch
op id replaces = record {
  node_id = id;
  kind = quant;
  objective = "";
  brief = "";
  input_artifact_ids = [];
  replaces = replaces;
}

abbrev outcome : String → Bool → NodeOutcome
outcome id ok = record {
  node_id = id;
  kind = quant;
  ok = ok;
  artifact_ids = [];
  error = none;
  requests = 1;
  flags = [];
}

abbrev outcomes : List NodeOutcome
outcomes = outcome "q3" true ∷ outcome "q4" false ∷ []

abbrev validate : Value → ResearchOutput
validate v = record { summary = ""; evidence = []; candidate_branches = [] }

abbrev dump : ResearchOutput → Value
dump o = null

merge-Forward_example :
    Forward
      (merge plain show fetched validate dump true
        (op "q3" (some "q2") ∷ op "q4" none ∷ [])
        outcomes
        board).nodes
merge-Forward_example =
    merge-Forward plain show fetched validate dump true (op "q3" (some "q2") ∷ op "q4" none ∷ [])
      outcomes board (refl, (refl, tt), (refl, tt, tt)) (refl, refl, (refl, tt, tt))
