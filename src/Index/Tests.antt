-- ===== src/Index/Tests.antt =====
-- The index of runs at fixed inputs: a table in memory, and one that no call reaches.
use wolves_ai.Base.{◌≡◌, ◌≢◌, refl, ap, true, String, none, some, [], ◌∷◌, arith}
use wolves_ai.Index.{
  failed, RunRecord, item_of, Service, done, unfinished, items_from, run_items, delete_replaced,
  record_run, list_runs, to_record, run_enabled, publisher_enabled, record_in,
}
use wolves_ai.Index.Memory.{Rows, row_at, in_memory, in_memory-IsTable}
use wolves_ai.Index.Records.{record_run-recorded, record_run-spares}

abbrev run : String → String → RunRecord
run run_id created_at = record {
  run_id = run_id;
  created_at = created_at;
  s3_key = "";
  status = failed;
  cost = 7;
  duration = 60;
  kind = "agent";
}

abbrev rows : Rows
rows =
    item_of (run "agent-1" "t1") ∷ item_of (run "agent-2" "t2") ∷ item_of (run "agent-1" "t3") ∷ []

abbrev cut_off : Service Rows
cut_off = record in_memory { query = λ b start t. none; get_enabled = λ t. none }

index_runs :
    (record_run in_memory 2 (run "agent-1" "t4") rows
      ≡ (done tt, item_of (run "agent-1" "t4") ∷ item_of (run "agent-2" "t2") ∷ []))
    × (list_runs in_memory 2 2 rows ≡ done (run "agent-1" "t1" ∷ run "agent-2" "t2" ∷ []))
    × (record_run in_memory 1 (run "agent-1" "t4") rows ≡ (unfinished, rows))
    × (record_in cut_off 2 (run "agent-1" "t4") (some rows) ≡ some rows)
    × (publisher_enabled cut_off (some rows) ≡ true)
unfolding record_run list_runs run_items items_from delete_replaced to_record record_in
    publisher_enabled run_enabled
index_runs = (refl, refl, refl, refl, refl)

record_run-recorded_example :
    row_at (record_run in_memory 2 (run "agent-1" "t4") rows).1 "t3" ≡ none
record_run-recorded_example =
    record_run-recorded in_memory in_memory-IsTable (run "agent-1" "t4") 2 rows "t3"
      (ap (λ d. d.0) index_runs.0)

record_run-spares_example :
    ((record_run in_memory 2 (run "agent-1" "t4") rows).0 ≢ unfinished)
    × (row_at (record_run in_memory 2 (run "agent-1" "t4") rows).1 "t2"
        ≡ some (item_of (run "agent-2" "t2")))
record_run-spares_example =
    record_run-spares in_memory in_memory-IsTable (run "agent-1" "t4") 2 rows "t2" (omega arith)
      refl refl
