-- ===== src/Graph/Coverage/Tests.antt =====
-- The coverage of a run with one evidence artifact and one audit that covers a branch by its child.
use wolves_ai.Base.{◌≡◌, refl, not, ◌&&◌, String, none, List, [], ◌∷◌, any, is_some, string_eq}
use wolves_ai.Base.Int.{pos}
use wolves_ai.Base.Json.{Value, text, arr, obj, no_items, item, no_fields, field}
use wolves_ai.Artifacts.{Artifact}
use wolves_ai.Artifacts.Ids.{ArtifactKind, evidence, quant}
use wolves_ai.Ledger.{LedgerEntry, confirmed}
use wolves_ai.Graph.Coverage.{
  branch_coverage, candidates_of, statuses_of, serious_branch, confidence_rank, collect_candidates,
  audit_check, audit_checks, collect_audit_statuses, coverage_of,
}
use wolves_ai.Graph.Coverage.FollowUp.{branch_coverage-follow_up, is_audited}

abbrev show : Value → String
show v = "?"

abbrev texts : String → Value
texts s = arr (item (text s) no_items)

abbrev branch : String → Value
branch id = obj (
    field "branch_id" (text id) (
      field "source_ids" (texts "led-0001") (field "parent_branch_ids" (texts "injury") no_fields)))

abbrev audited : String → String → Value
audited key status = obj (
    field "key" (text key)
      (field "status" (text status) (field "parent_branch_ids" (texts "injury") no_fields)))

abbrev made_by : ArtifactKind → Value → Artifact
made_by kind payload = record {
  meta = record {
    id = "a-1";
    kind = kind;
    created_by = "n1";
    summary = "";
    created_at = 0;
    workspace_prefix = none;
  };
  payload = payload;
}

abbrev proposal : Artifact
proposal = made_by evidence (
    obj (
      field "candidate_branches" (arr (item (branch "injury") (item (branch "recall") no_items)))
        no_fields))

abbrev audit : Artifact
audit = made_by quant (
    obj (
      field "branch_audit"
        (obj (field "checks" (arr (item (audited "recall" "priced") no_items)) no_fields))
        no_fields))

abbrev ledger : List LedgerEntry
ledger =
    record {
      id = "led-0001";
      body = record {
        claim = "out for a month";
        source_url = "https://example.org/a";
        status = confirmed;
        mechanism = "injury";
        proposed_delta = pos 2;
        expiry = none;
        team_id = none;
        relevance = none;
        retrieval_id = none;
      };
    }
    ∷ []

open_branches :
    (branch_coverage show ledger none (proposal ∷ [])).missing_keys ≡ "injury" ∷ "recall" ∷ []
unfolding branch_coverage candidates_of statuses_of coverage_of serious_branch confidence_rank
    collect_candidates audit_check audit_checks collect_audit_statuses
open_branches = refl

covered_branches : (branch_coverage show ledger none (proposal ∷ audit ∷ [])).missing_keys ≡ []
unfolding branch_coverage candidates_of statuses_of coverage_of serious_branch confidence_rank
    collect_candidates audit_check audit_checks collect_audit_statuses
covered_branches = refl

branch_coverage-follow_up_example :
    let candidates = candidates_of show none (proposal ∷ audit ∷ []) [] in
    let statuses = statuses_of show candidates (proposal ∷ audit ∷ []) [] in
    let coverage = branch_coverage show ledger none (proposal ∷ audit ∷ []) in
    (coverage.needs_follow_up
      ≡ any (λ kv. serious_branch show ledger kv.1 && not (is_audited statuses kv.0)) candidates)
    × (is_some coverage.reason ≡ coverage.needs_follow_up)
branch_coverage-follow_up_example =
    branch_coverage-follow_up show ledger none (proposal ∷ audit ∷ [])

abbrev checks : List Value
checks = audited "injury" "below_floor" ∷ audited "recall" "priced" ∷ audited "injury" "open" ∷ []
