-- ===== src/Daily/Attempts.antt =====
-- engine/wolves/run_agent.py: what the event logs of earlier runs say of the live attempts of a day, and
-- when they stop a new one. Costs are micros, times are seconds; `parse` is `json.loads` with the fields
-- that the code reads, and `rounded` is `round(…, 4)` of a sum of dollars.
use wolves_ai.Base.{
  ℕ, ◌+◌, Bool, false, not, ◌&&◌, ◌||◌, String, Option, none, some, List, [], ◌∷◌, ◌++◌, select,
  if◌then◌else◌, leb, string_eq, ◌==◌,
}
use wolves_ai.Base.Text.{codes, is_blank}
use wolves_ai.Base.Sorted.{is_empty}

pub record Event : Type 0 where
  pub kind : String
  pub as_of : Option String
  pub status : Option String
  pub cost_micros : Option ℕ

-- `runs/<name>/events.jsonl`
pub record EventFile : Type 0 where
  pub name : String
  pub lines : List String
  pub modified : ℕ

pub record LiveAttemptSummary : Type 0 where
  pub attempts : ℕ
  pub failed_attempts : ℕ
  pub active_run_ids : List String
  pub spent : ℕ

pub record AttemptSettings : Type 0 where
  -- `agent_live_active_ttl_minutes`, in seconds
  pub active_ttl : ℕ
  pub agent_live_failed_attempt_limit : ℕ

pub data Blocker : Type 0 where
  already_active : (run_ids : List String) → Blocker
  too_many_failed : (failed : ℕ) → Blocker
  overspent : (spent ceiling : ℕ) → Blocker

abbrev no_attempts : LiveAttemptSummary
no_attempts = record { attempts = 0; failed_attempts = 0; active_run_ids = []; spent = 0 }

module _ (parse : String → Option Event) where
  -- The events of a file: a blank line and one that is no JSON are passed over.
  abbrev pub events_in : List String → List Event
  events_in [] = []
  events_in (line ∷ lines) =
      let rest = events_in lines in
      if is_blank (codes line) then rest else elim (parse line) [ none ↦ rest | some e ↦ e ∷ rest ]

  abbrev cost_of : List Event → ℕ
  cost_of [] = 0
  cost_of (e ∷ es) =
      (if e.kind == "llm_call" then elim e.cost_micros [ none ↦ 0 | some c ↦ c ] else 0)
      + cost_of es

  unfoldable pub run_event_cost : EventFile → ℕ
  run_event_cost file = cost_of (events_in file.lines)

  unfoldable pub live_events : String → EventFile → List Event
  live_events as_of file =
      select
        (λ e. e.kind == "live_attempt" && (elim e.as_of [ none ↦ false | some day ↦ day == as_of ]))
        (events_in file.lines)

  -- `str(live_events[-1].get("payload", {}).get("status") or "")`
  abbrev status_from : String → List Event → String
  status_from status [] = status
  status_from status (e ∷ es) = status_from (elim e.status [ none ↦ "" | some s ↦ s ]) es

  abbrev pub last_status : List Event → String
  last_status = status_from ""

  module _ (settings : AttemptSettings) (as_of : String) (now : ℕ) where
    -- `now - modified <= ttl`
    abbrev pub is_recent : EventFile → Bool
    is_recent file = leb now (file.modified + settings.active_ttl)

    -- The loop over the files, with its four variables.
    unfoldable pub summary_from : List EventFile → LiveAttemptSummary → LiveAttemptSummary
    unfolding live_events run_event_cost
    summary_from [] s = s
    summary_from (file ∷ files) s =
        let events = live_events as_of file in
        let status = last_status events in
        let counted = record s {
          attempts = s.attempts + 1;
          spent = s.spent + run_event_cost file;
        } in
        summary_from files (
          if is_empty events
          then s
          else if status == "failed" || status == "cancelled"
          then record counted { failed_attempts = s.failed_attempts + 1 }
          else if status == "started"
          then if is_recent file
            then record counted { active_run_ids = s.active_run_ids ++ file.name ∷ [] }
            else record counted { failed_attempts = s.failed_attempts + 1 }
          else counted)

    -- `none` where there is no directory of runs
    unfoldable pub live_attempt_summary : (ℕ → ℕ) → Option (List EventFile) → LiveAttemptSummary
    live_attempt_summary rounded none = no_attempts
    live_attempt_summary rounded (some files) =
        let s = summary_from files no_attempts in record s { spent = rounded s.spent }

    unfoldable pub live_attempt_blocker :
        (ℕ → ℕ) → Option (List EventFile) → ℕ → Bool → Option Blocker
    live_attempt_blocker rounded files ceiling force =
        let summary = live_attempt_summary rounded files in
        if force
        then none
        else if not (is_empty summary.active_run_ids)
        then some (already_active summary.active_run_ids)
        else if leb settings.agent_live_failed_attempt_limit summary.failed_attempts
        then some (too_many_failed summary.failed_attempts)
        else if leb ceiling summary.spent
        then some (overspent summary.spent ceiling)
        else none
