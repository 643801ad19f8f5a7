-- ===== src/Archive/Tests.antt =====
-- The archive at fixed inputs.
use wolves_ai.Base.{
  ℕ, ◌≡◌, refl, true, String, Option, none, some, List, [], ◌∷◌, map, count_if, if◌then◌else◌,
  string_eq, ◌==◌,
}
use wolves_ai.Base.Decimal.{decimal}
use wolves_ai.Base.Json.{Value, null, num, text, arr, obj, no_items, item, no_fields, field}
use wolves_ai.Archive.Difference.{same_scalar, difference}
use wolves_ai.Archive.Lossless.{key, position, read, difference-reads}
use wolves_ai.Archive.Selection.{
  Snapshot, ResultSetEntry, MatchRow, ArchivedResult, ok, refused, no_snapshot, invalid_timestamp,
  select_snapshot, eligible_at, parse_timestamp, normalise_results, known_results, normalise_result,
}
use wolves_ai.Archive.Chosen.{IsNewest, select_snapshot-IsNewest}
use wolves_ai.Archive.Results.{shows, tells, normalise_results-known}

abbrev source : Value
source = obj (
    field "run" (text "agent-1") (
      field "teams" (arr (item (num 7) (item (obj (field "elo" (num 1900) no_fields)) no_items)))
        no_fields))

-- The archived form adds a field that has a default.
abbrev archived : Value
archived = obj (
    field "schema" null (
      field "teams"
        (arr (
          item (num 7)
            (item (obj (field "elo" (num 1900) (field "rank" null no_fields))) no_items)))
        (field "run" (text "agent-1") no_fields)))

difference_runs :
    (difference source archived "$" ≡ none)
    × (difference archived source "$" ≡ some "$.schema")
    × (difference (arr (item (num 1) no_items)) (arr (item (num 2) no_items)) "$.ids"
        ≡ some "$.ids[0]")
unfolding difference decimal
difference_runs = (refl, refl, refl)

difference-reads_example :
    (x : Value) × (read (key "teams" ∷ position 1 ∷ key "elo" ∷ []) archived ≡ some x)
    × (same_scalar (num 1900) x ≡ true)
difference-reads_example =
    difference-reads (key "teams" ∷ position 1 ∷ key "elo" ∷ []) source archived (num 1900) "$"
      difference_runs.0 refl refl

-- One letter to a time.
abbrev parse : String → Option ℕ
parse t =
    if t == "a" then some 1 else if t == "b" then some 2 else if t == "c" then some 3 else none

abbrev entry : ℕ → String → ResultSetEntry
entry number at_time = record {
  match_number = number;
  home_id = some "bra";
  away_id = some "";
  home_goals = 2;
  away_goals = 1;
  winner = none;
  fetched_at = some at_time;
}

abbrev row : ℕ → String → MatchRow
row number day = record {
  match_number = number;
  date = day;
  stage = "group";
  home_id = some "fra";
  away_id = some "ger";
}

abbrev snapshot : String → String → String → Snapshot
snapshot run_id created_at kind = record {
  run_id = run_id;
  created_at = created_at;
  kind = kind;
  matches = row 1 "2026-06-12" ∷ row 2 "2026-06-11" ∷ [];
  slots = row 90 "2026-07-05" ∷ row 1 "2026-01-01" ∷ [];
  results = entry 1 "a" ∷ entry 2 "b" ∷ entry 90 "c" ∷ [];
}

abbrev snapshots : List Snapshot
snapshots =
    snapshot "agent-1" "a" "agent"
    ∷ snapshot "sim-2" "b" "sim_only"
    ∷ snapshot "agent-3" "c" "agent"
    ∷ []

abbrev archived_results : List ArchivedResult
archived_results =
    normalise_result (entry 2 "b") (row 2 "2026-06-11") 2
    ∷ normalise_result (entry 1 "a") (row 1 "2026-06-12") 1
    ∷ []

selection_runs :
    (select_snapshot parse snapshots 2 ≡ ok (snapshot "agent-1" "a" "agent"))
    × (select_snapshot parse snapshots 0 ≡ refused (no_snapshot 0))
    × (select_snapshot parse (snapshot "agent-4" "x" "agent" ∷ []) 2
        ≡ refused (invalid_timestamp "x"))
    × (normalise_results parse (snapshot "agent-3" "c" "agent") 2 [] ≡ ok archived_results)
    × (map (λ r. r.away_id) archived_results ≡ some "ger" ∷ some "ger" ∷ [])
unfolding select_snapshot eligible_at parse_timestamp normalise_results known_results
    normalise_result
selection_runs = (refl, refl, refl, refl, refl)

select_snapshot-IsNewest_example : IsNewest parse 2 snapshots (snapshot "agent-1" "a" "agent")
select_snapshot-IsNewest_example =
    select_snapshot-IsNewest parse snapshots 2 (snapshot "agent-1" "a" "agent") selection_runs.0

normalise_results-known_example :
    count_if (shows parse (snapshot "agent-3" "c" "agent") 2 2 2 1 2) archived_results
    ≡ count_if
        (tells parse (snapshot "agent-3" "c" "agent") 2 2 2 1 2)
        (entry 1 "a" ∷ entry 2 "b" ∷ entry 90 "c" ∷ [])
normalise_results-known_example =
    normalise_results-known parse (snapshot "agent-3" "c" "agent") 2 [] archived_results 2 2 1 2
      selection_runs.3
