-- ===== src/Graph/Merge.antt =====
-- engine/wolves/graph/blackboard.py: `merge`, which folds the outcomes of a wave into the board. What
-- pydantic reads from an artifact's payload and writes back, and whether the run has fetched a page,
-- are parameters.
pub mod Evidence
pub mod Nodes
mod Tests
use wolves_ai.Base.{
  ℕ, zero, suc, ◌+◌, ◌-◌, Bool, true, false, not, ◌&&◌, ◌||◌, String, Option, none, some, List, [],
  ◌∷◌, ◌++◌, map, any, contains, length, ltb, if◌then◌else◌, is_some, string_eq, nat_eq, ◌==◌,
  pair_eq,
}
use wolves_ai.Base.Int.{ℤ}
use wolves_ai.Base.Dict.{Dict, lookup, insert}
use wolves_ai.Base.Json.{Value, get as get_value, list_of, text, items_or_empty}
use wolves_ai.Base.Text.{codes, lower, strip, codes_eq}
use wolves_ai.Artifacts.{Artifact, Codec, Store, get, amend_payload}
use wolves_ai.Artifacts.Ids.{evidence, critique}
use wolves_ai.Ledger.{
  LedgerStatus, confirmed, probable, status_eq, Claim, LedgerEntry, append_entry,
}
use wolves_ai.Graph.Contracts.{NodePatch, NodeOutcome}
use wolves_ai.Graph.Coverage.{str_of}
use wolves_ai.Graph.Board.{NodeRecord, Board}

-- `CandidateBranch`, as far as the merge reads it
pub record CandidateBranch : Type 0 where
  pub branch_id : String
  pub source_ids : List String
  pub evidence_indices : List ℕ

-- `ResearchOutput`; its evidence items are what a ledger entry says.
pub record ResearchOutput : Type 0 where
  pub summary : String
  pub evidence : List Claim
  pub candidate_branches : List CandidateBranch

-- What tells two claims apart.
abbrev pub EvidenceKey : Type 0
EvidenceKey = List ℕ × String

abbrev pub evidence_key : Claim → EvidenceKey
evidence_key c = (lower (strip (codes c.claim)), c.source_url)

-- `{key(e): e.id for e in ledger.all()}`
unfoldable pub known_claims : List LedgerEntry → Dict EvidenceKey String → Dict EvidenceKey String
known_claims [] existing = existing
known_claims (e ∷ es) existing = known_claims es (insert (evidence_key e.body) e.id existing)

abbrev internal_source_urls : List String
internal_source_urls = "internal://get_odds" ∷ "internal://get_results_and_fixtures" ∷ []

-- The variables of the loop over the evidence.
pub record Folded : Type 0 where
  pub ledger : List LedgerEntry
  pub existing : Dict EvidenceKey String
  pub ids : Dict ℕ String
  pub appended : ℕ
  pub demoted : ℕ
  -- the items as they stand after the loop
  pub items : List Claim

module _ (fetched : String → Bool) where
  -- `_fetched_this_run`
  unfoldable pub fetched_this_run : String → Bool
  fetched_this_run url = contains url internal_source_urls || fetched url

  -- A confirmed claim must be backed by a page the run actually read.
  unfoldable pub needs_demotion : Claim → Bool
  unfolding fetched_this_run
  needs_demotion c = status_eq c.status confirmed && not (fetched_this_run c.source_url)

  abbrev pub demote : Claim → Claim
  demote c = if needs_demotion c then record c { status = probable } else c

  unfoldable pub fold_item : ℕ → Claim → Folded → Folded
  fold_item index item f = elim (lookup (evidence_key item) f.existing) [
    | some id ↦ record f { ids = insert index id f.ids; items = f.items ++ item ∷ [] }
    | none ↦
        let (entry, ledger) = append_entry (demote item) f.ledger in
        record {
          ledger = ledger;
          existing = insert (evidence_key item) entry.id f.existing;
          ids = insert index entry.id f.ids;
          appended = f.appended + 1;
          demoted = if needs_demotion item then f.demoted + 1 else f.demoted;
          items = f.items ++ demote item ∷ [];
        }
  ]

  unfoldable pub fold_items : ℕ → List Claim → Folded → Folded
  unfolding fold_item
  fold_items index [] f = f
  fold_items index (item ∷ items) f = fold_items (index + 1) items (fold_item index item f)

  unfoldable pub fold_evidence : List Claim → List LedgerEntry → Folded
  unfolding fold_items known_claims
  fold_evidence items ledger = fold_items 1 items (record {
    ledger = ledger;
    existing = known_claims ledger [];
    ids = [];
    appended = 0;
    demoted = 0;
    items = [];
  })

-- `list(dict.fromkeys(texts))`
abbrev distinct : List String → List String → List String
distinct seen [] = []
distinct seen (s ∷ ss) =
    let rest = distinct seen ss in
    let more = distinct (s ∷ seen) ss in if contains s seen then rest else s ∷ more

abbrev ids_of : Dict ℕ String → List ℕ → List String
ids_of ids [] = []
ids_of ids (i ∷ is) = elim (lookup i ids) [ none ↦ ids_of ids is | some id ↦ id ∷ ids_of ids is ]

abbrev differs : List String → List String → Bool
differs [] [] = false
differs (s ∷ ss) (t ∷ ts) = not (s == t) || differs ss ts
differs _ _ = true

abbrev resolve_one : Dict ℕ String → CandidateBranch → Bool × CandidateBranch
resolve_one ids b =
    let merged = distinct [] (b.source_ids ++ ids_of ids b.evidence_indices) in
    elim (ids_of ids b.evidence_indices) [
      | [] ↦ (false, b)
      | _ ∷ _ ↦
          if differs merged b.source_ids
          then (true, record b { source_ids = merged })
          else (false, b)
    ]

-- `_resolve_branch_sources`: whether a branch has changed, and the branches
unfoldable pub resolve_branch_sources :
    Dict ℕ String → List CandidateBranch → Bool × List CandidateBranch
resolve_branch_sources ids [] = (false, [])
resolve_branch_sources ids (b ∷ bs) =
    let (changed, b') = resolve_one ids b in
    let (rest, bs') = resolve_branch_sources ids bs in (changed || rest, b' ∷ bs')

abbrev pub op_of : String → List NodePatch → Option NodePatch
op_of id [] = none
op_of id (op ∷ ops) = elim (op_of id ops) [
  | some o ↦ some o
  | none ↦ if op.node_id == id then some op else none
]

abbrev pub mark : String → String → NodeRecord → NodeRecord
mark old new n = if n.node_id == old then record n { replaced_by = some new } else n

abbrev objective_of : Option NodePatch → String
objective_of none = ""
objective_of (some op) = op.objective

-- The nodes with those superseded that the outcome replaces.
unfoldable pub supersede : List NodePatch → NodeOutcome → List NodeRecord → List NodeRecord
supersede ops o nodes = elim (op_of o.node_id ops) [
  | none ↦ nodes
  | some op ↦ elim op.replaces [
    | none ↦ nodes
    | some old ↦ if o.ok then map (mark old o.node_id) nodes else nodes
  ]
]

abbrev pub node_record : List NodePatch → NodeOutcome → NodeRecord
node_record ops o = record {
  node_id = o.node_id;
  kind = o.kind;
  objective = objective_of (op_of o.node_id ops);
  ok = o.ok;
  error = o.error;
  requests = o.requests;
  replaced_by = none;
  flags = o.flags;
}

unfoldable pub merge_node : List NodePatch → NodeOutcome → List NodeRecord → List NodeRecord
unfolding supersede
merge_node ops o nodes = supersede ops o nodes ++ node_record ops o ∷ []

module _ (c : Codec) (show : Value → String) (fetched : String → Bool)
    (validate : Value → ResearchOutput) (dump : ResearchOutput → Value) where
  -- `_ledger_entries`; the payload is rewritten where the ledger says something else.
  unfoldable pub ledger_entries : String → Value → Board c show → Board c show
  ledger_entries artifact_id payload b =
      let output = validate payload in
      let f = fold_evidence fetched output.evidence b.ledger in
      let (resolved, branches) = resolve_branch_sources f.ids output.candidate_branches in
      let b' : Board c show = record b { ledger = f.ledger } in
      let output' : ResearchOutput = record output {
        evidence = f.items;
        candidate_branches = branches;
      } in
      if ltb 0 f.demoted || resolved
      then record b' { artifacts = (amend_payload c artifact_id (dump output') b.artifacts).1 }
      else b'

  abbrev challenges_of : Value → List String
  challenges_of payload =
      map (str_of show) (items_or_empty (list_of (get_value "challenges" payload)))

  abbrev pub merge_found : Option Artifact → Board c show → Board c show
  merge_found none b = b
  merge_found (some a) b = elim a.kind [
    | evidence ↦ ledger_entries a.id a.payload b
    | critique ↦ record b { challenges = b.challenges ++ challenges_of a.payload }
    | _ ↦ b
  ]

  abbrev pub merge_artifact : String → Board c show → Board c show
  merge_artifact id b =
      let (found, store) = get c id b.artifacts in
      merge_found found (record b { artifacts = store })

  unfoldable pub merge_artifacts : List String → Board c show → Board c show
  unfolding ledger_entries
  merge_artifacts [] b = b
  merge_artifacts (id ∷ ids) b = merge_artifacts ids (merge_artifact id b)

  unfoldable pub merge_outcomes : List NodePatch → List NodeOutcome → Board c show → Board c show
  merge_outcomes ops [] b = b
  merge_outcomes ops (o ∷ os) b =
      merge_outcomes ops os
        (merge_artifacts o.artifact_ids (record b { nodes = merge_node ops o b.nodes }))

  unfoldable pub merge : Bool → List NodePatch → List NodeOutcome → Board c show → Board c show
  unfolding merge_outcomes
  merge advance_wave ops outcomes b =
      let b' = merge_outcomes ops outcomes b in
      let cost = b'.runtime.budget.cost_micros in
      if advance_wave
      then record b' {
        wave = b'.wave + 1;
        last_wave_cost_micros = cost - b'.cost_at_wave_start;
        cost_at_wave_start = cost;
      }
      else record b' { cost_at_wave_start = cost }
