-- ===== src/Daily/Blocked.antt =====
-- engine/wolves/run_agent.py: the loop over the logs of earlier runs counts what it should, and a live
-- run starts exactly if no other is active and neither attempts nor dollars are used up.
use wolves_ai.Base.{
  ℕ, ◌+◌, ◌<◌, ◌≡◌, ◌↔◌, refl, ap, ◌∙◌, Bool, true, false, not, ◌&&◌, ◌||◌, String, Option, none,
  some, List, [], ◌∷◌, ◌++◌, map, any, select, count_if, if◌then◌else◌, string_eq, ◌==◌, arith,
  append_nil, append_one, inl, inr, Bool-cases, eq_iff,
}
use wolves_ai.Base.Sorted.{is_empty, is_empty-select}
use wolves_ai.Daily.Attempts.{
  Event, EventFile, LiveAttemptSummary, AttemptSettings, live_events, last_status, run_event_cost,
  is_recent, summary_from, live_attempt_summary, live_attempt_blocker,
}

other_word :
    (status : String)
    → (status == "failed" || status == "cancelled") ≡ true
    → (status == "started") ≡ false
other_word status h = elim (Bool-cases (status == "started")) [
  | inl e ↦ absurd (
      ground
        (arith, h, ap (λ t. t == "failed" || t == "cancelled") ((eq_iff status "started").0 e)))
  | inr e ↦ e
]

module _ (parse : String → Option Event) (settings : AttemptSettings) (as_of : String)
    (now : ℕ) where
  abbrev pub final_status : EventFile → String
  final_status file = last_status parse (live_events parse as_of file)

  -- The run has tried to forecast the day.
  abbrev pub is_attempt : EventFile → Bool
  is_attempt file = not (is_empty (live_events parse as_of file))

  -- It has begun and may still be at work.
  abbrev pub is_active : EventFile → Bool
  is_active file =
      is_attempt file && (final_status file == "started" && is_recent parse settings as_of now file)

  -- It has ended in failure, or has begun too long ago to be at work.
  abbrev pub has_failed : EventFile → Bool
  has_failed file =
      is_attempt file
      && ((final_status file == "failed" || final_status file == "cancelled")
          || (final_status file == "started" && not (is_recent parse settings as_of now file)))

  abbrev pub total_cost : List EventFile → ℕ
  total_cost [] = 0
  total_cost (file ∷ files) =
      (if is_attempt file then run_event_cost parse file else 0) + total_cost files

  abbrev counted : List EventFile → LiveAttemptSummary → LiveAttemptSummary
  counted files s = record {
    attempts = s.attempts + count_if is_attempt files;
    failed_attempts = s.failed_attempts + count_if has_failed files;
    active_run_ids = s.active_run_ids ++ map (λ file. file.name) (select is_active files);
    spent = s.spent + total_cost files;
  }

  summary_from-counted :
      (files : List EventFile) (s : LiveAttemptSummary)
      → summary_from parse settings as_of now files s ≡ counted files s
  unfolding summary_from
  summary_from-counted [] s = ground (arith, append_nil s.active_run_ids)
  summary_from-counted (file ∷ files) s =
      summary_from-counted files _
      ∙ ground (
        arith,
        other_word (final_status file),
        append_one s.active_run_ids file.name (map (λ file. file.name) (select is_active files)),
      )

-- The summary of a day counts the runs that tried to forecast it, and among them those that failed; it
-- names the ones that may be at work, and adds up what all of them have spent.
pub live_attempt_summary-counts :
    (parse : String → Option Event) (settings : AttemptSettings) (as_of : String) (now : ℕ)
    (rounded : ℕ → ℕ) (files : List EventFile)
    → live_attempt_summary parse settings as_of now rounded (some files) ≡ record {
      attempts = count_if (is_attempt parse settings as_of now) files;
      failed_attempts = count_if (has_failed parse settings as_of now) files;
      active_run_ids = map (λ file. file.name) (select (is_active parse settings as_of now) files);
      spent = rounded (total_cost parse settings as_of now files);
    }
unfolding live_attempt_summary
live_attempt_summary-counts parse settings as_of now rounded files =
    rw (summary_from-counted parse settings as_of now files _) (ground arith)

is_empty-map {ℓ κ} :
    {A : Type ℓ} {B : Type κ} (f : A → B) (xs : List A) → is_empty (map f xs) ≡ is_empty xs
is_empty-map f [] = refl
is_empty-map f (x ∷ xs) = refl

-- A run that is not forced may start exactly if no run of the day may be at work, fewer of them have
-- failed than the limit allows, and they have spent less than the ceiling.
pub live_attempt_blocker-Clear :
    (parse : String → Option Event) (settings : AttemptSettings) (as_of : String) (now : ℕ)
    (rounded : ℕ → ℕ) (files : List EventFile) (ceiling : ℕ)
    → live_attempt_blocker parse settings as_of now rounded (some files) ceiling false ≡ none
      ↔ (any (is_active parse settings as_of now) files ≡ false)
        × (count_if (has_failed parse settings as_of now) files
            < settings.agent_live_failed_attempt_limit)
        × (rounded (total_cost parse settings as_of now files) < ceiling)
unfolding live_attempt_blocker
live_attempt_blocker-Clear parse settings as_of now rounded files ceiling =
    rw (live_attempt_summary-counts parse settings as_of now rounded files) (
      ground (
        arith,
        is_empty-map (λ file. file.name) (select (is_active parse settings as_of now) files),
        is_empty-select (is_active parse settings as_of now) files,
      ))
