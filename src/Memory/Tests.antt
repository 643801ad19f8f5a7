-- ===== src/Memory/Tests.antt =====
-- The memories of sources and judgements at fixed inputs: a hash is the address itself, and the number
-- behind the last dash is the day of a date.
use wolves_ai.Base.{
  if◌then◌else◌, ℕ, ◌≡◌, refl, String, Option, none, some, List, [], ◌∷◌, ◌++◌, length, inl, arith,
  string_eq, eq_iff,
}
use wolves_ai.Base.Dict.{lookup}
use wolves_ai.Base.Decimal.{scan}
use wolves_ai.Memory.History.{latest_before}
use wolves_ai.Memory.Sources
use wolves_ai.Memory.Sources.{
  SeenSource, SourceMemory, seen_source, record_source, merged_disposition,
}
use wolves_ai.Memory.Relevance
use wolves_ai.Memory.Relevance.{RankedSource, RelevanceMemory, recent}
use wolves_ai.Base.Lines.{LineCodec, write_lines}
use wolves_ai.Base.Text.{codes, same_codes}
use wolves_ai.Memory.Reload.{SourceCall, record_calls}
use wolves_ai.Memory.Lines.{text_of, open_memory, record_calls-loads}
use wolves_ai.Memory.Fetched.{Fetched, record_calls-Fetched}
use wolves_ai.Memory.Replay.{record_calls-seen, RankCall, rank_calls}

abbrev hash : String → String
hash url = url

abbrev instant : String → ℕ
instant t = scan 0 t

abbrev end_of_day : String → Option ℕ
end_of_day t = some (scan 0 t)

abbrev fetch : SourceCall
fetch = record { url = "a.org"; run_id = "run-1"; disposition = "fetched"; now = "2026-06-11" }

abbrev rank : SourceCall
rank = record fetch { disposition = "ranked"; now = "2026-06-12" }

abbrev old_file : List SeenSource
old_file =
    record {
      url_hash = "a.org";
      url = "a.org";
      first_seen_run = "run-0";
      last_seen_run = "run-0";
      last_seen_at = "2026-06-09";
      disposition = "empty";
    }
    ∷ []

abbrev after_fetch : SourceMemory
after_fetch = record_calls hash (fetch ∷ []) (Sources.load old_file)

abbrev seen_again : SeenSource
seen_again = record {
  url_hash = "a.org";
  url = "a.org";
  first_seen_run = "run-0";
  last_seen_run = "run-1";
  last_seen_at = "2026-06-11";
  disposition = "fetched";
}

after_fetch_runs :
    (lookup "a.org" after_fetch.seen ≡ some seen_again) × (length after_fetch.file ≡ 2)
unfolding Sources.load record_source merged_disposition
after_fetch_runs = (refl, refl)

-- The line of a record of these calls has its time and disposition in braces.
abbrev line_of : SeenSource → List ℕ
line_of r = 123 ∷ codes r.last_seen_at ++ codes r.disposition ++ 125 ∷ []

abbrev read_as : List SeenSource → List ℕ → Option SeenSource
read_as [] l = none
read_as (r ∷ rs) l = if same_codes (line_of r) l then some r else read_as rs l

abbrev after_calls : SourceMemory
after_calls = record_calls hash (fetch ∷ rank ∷ []) (Sources.load old_file)

abbrev codec : LineCodec SeenSource
codec = record { dump = line_of; validate = read_as after_calls.file }

record_calls-loads_example :
    (open_memory codec (text_of codec after_calls) ≡ some after_calls)
    × ((rs : List SeenSource) × (text_of codec after_calls
          ≡ write_lines codec old_file ++ write_lines codec rs)
        × (length rs ≡ 2))
unfolding Sources.load record_source merged_disposition
record_calls-loads_example = record_calls-loads codec hash (fetch ∷ rank ∷ []) old_file (
  record { reads = refl; unblank = refl; unbroken = refl },
  (
    record { reads = refl; unblank = refl; unbroken = refl },
    (record { reads = refl; unblank = refl; unbroken = refl }, tt),
  ),
)

record_calls-Fetched_example :
    Fetched hash "a.org" "run-1" "run-0" (record_calls hash (rank ∷ rank ∷ []) after_fetch)
record_calls-Fetched_example =
    record_calls-Fetched hash (rank ∷ rank ∷ []) "a.org" "run-1" "run-0" after_fetch
      (inl (refl, inl refl), (inl (refl, inl refl), tt))
      (seen_again, after_fetch_runs.0, refl, refl, refl)

record_calls-seen_example :
    seen_source hash instant end_of_day "a.org" (some "2026-06-10") (some "run-5") after_fetch
    ≡ seen_source hash instant end_of_day "a.org"
        (some "2026-06-10")
        (some "run-5")
        (Sources.load old_file)
record_calls-seen_example =
    record_calls-seen hash instant end_of_day (fetch ∷ []) "a.org" "2026-06-10" (some "run-5") 10
      (Sources.load old_file) refl ((omega arith, ground (arith, eq_iff "run-5" "run-1")), tt)

abbrev ranked_file : List RankedSource
ranked_file =
    record {
      url = "a.org";
      sub_question = "who";
      score = 7;
      reason = "squad";
      ranked_at = "2026-06-09";
      run_id = "run-0";
    }
    ∷ []

abbrev later_rank : RankCall
later_rank = record {
  url = "b.org";
  sub_question = "who";
  score = 9;
  reason = "news";
  run_id = "run-1";
  now = "2026-06-12";
}

recent_runs :
    recent instant end_of_day 5
      (some "2026-06-12")
      none
      (rank_calls (later_rank ∷ []) (Relevance.load ranked_file))
    ≡ record {
      url = "b.org";
      sub_question = "who";
      score = 9;
      reason = "news";
      ranked_at = "2026-06-12";
      run_id = "run-1";
    }
      ∷ ranked_file
unfolding recent Relevance.record_ranked Relevance.load latest_before
recent_runs = refl
