-- ===== src/Archive/Selection.antt =====
-- engine/wolves/archive/selection.py: the forecast of an archive day, and the results that it may show.
-- `parse` is `datetime.fromisoformat` with an offset, in UTC, and gives nothing where it raises; a time
-- is a whole number of a small unit. Of a snapshot there is what the selection reads.
use wolves_ai.Base.{
  ℕ, Bool, String, Option, none, some, List, [], ◌∷◌, select, if◌then◌else◌, leb, ltb, is_some,
  string_eq, nat_eq, ◌==◌,
}
use wolves_ai.Base.Dict.{Dict, lookup, insert}
use wolves_ai.Base.Sorted.{sort_by, text_le, is_empty}

pub record ResultSetEntry : Type 0 where
  pub match_number : ℕ
  pub home_id : Option String
  pub away_id : Option String
  pub home_goals : ℕ
  pub away_goals : ℕ
  pub winner : Option String
  pub fetched_at : Option String

-- A match with its teams; a slot has none.
pub record MatchRow : Type 0 where
  pub match_number : ℕ
  pub date : String
  pub stage : String
  pub home_id : Option String
  pub away_id : Option String

pub record Snapshot : Type 0 where
  pub run_id : String
  pub created_at : String
  pub kind : String
  pub matches : List MatchRow
  pub slots : List MatchRow
  pub results : List ResultSetEntry

pub record FixtureMetadata : Type 0 where
  pub date : String
  pub stage : String

pub record ArchivedResult : Type 0 where
  pub match_number : ℕ
  pub date : String
  pub stage : String
  pub home_id : Option String
  pub away_id : Option String
  pub home_goals : ℕ
  pub away_goals : ℕ
  pub winner : Option String
  pub recorded_at : ℕ

-- ArchiveSelectionError
pub data SelectionError : Type 0 where
  invalid_timestamp : String → SelectionError
  no_snapshot : (cutoff : ℕ) → SelectionError
  no_fixture : (number : ℕ) (run_id : String) → SelectionError

pub data Selected {ℓ} (A : Type ℓ) : Type ℓ where
  ok : A → Selected A
  refused : SelectionError → Selected A

infixl 5 ◌>>=◌
abbrev pub ◌>>=◌ {ℓ κ} : {A : Type ℓ} {B : Type κ} → Selected A → (A → Selected B) → Selected B
ok a >>= f = f a
refused e >>= f = refused e

-- `fixtures[match] = (date, stage, home_id, away_id)` for the matches, then `setdefault` for the slots
abbrev pub add_matches : List MatchRow → Dict ℕ MatchRow → Dict ℕ MatchRow
add_matches [] d = d
add_matches (m ∷ ms) d = add_matches ms (insert m.match_number m d)

abbrev pub add_slots : List MatchRow → Dict ℕ MatchRow → Dict ℕ MatchRow
add_slots [] d = d
add_slots (m ∷ ms) d = add_slots ms (
    if is_some (lookup m.match_number d)
    then d
    else insert m.match_number (record m { home_id = none; away_id = none }) d)

abbrev pub fixtures_of : Snapshot → Dict ℕ MatchRow
fixtures_of s = add_slots s.slots (add_matches s.matches [])

abbrev pub fixture_for : Snapshot → Dict ℕ FixtureMetadata → ℕ → Option MatchRow
fixture_for s metadata number = elim (lookup number (fixtures_of s)) [
  | some m ↦ some m
  | none ↦ elim (lookup number metadata) [
    | none ↦ none
    | some f ↦ some (record {
      match_number = number;
      date = f.date;
      stage = f.stage;
      home_id = none;
      away_id = none;
    })
  ]
]

-- `a or b` of ids, where an empty one counts as none
abbrev or_else : Option String → Option String → Option String
or_else none b = b
or_else (some a) b = if a == "" then b else some a

-- `_normalise_result`
unfoldable pub normalise_result : ResultSetEntry → MatchRow → ℕ → ArchivedResult
normalise_result e m recorded = record {
  match_number = e.match_number;
  date = m.date;
  stage = m.stage;
  home_id = or_else e.home_id m.home_id;
  away_id = or_else e.away_id m.away_id;
  home_goals = e.home_goals;
  away_goals = e.away_goals;
  winner = e.winner;
  recorded_at = recorded;
}

-- `sorted(…, key=lambda result: (result.date, result.match))`
abbrev pub result_before : ArchivedResult → ArchivedResult → Bool
result_before r s =
    if r.date == s.date then leb r.match_number s.match_number else text_le r.date s.date

module _ (parse : String → Option ℕ) where
  unfoldable pub parse_timestamp : String → Selected ℕ
  parse_timestamp value = elim (parse value) [
    | none ↦ refused (invalid_timestamp value)
    | some t ↦ ok t
  ]

  unfoldable pub eligible_at : ℕ → List Snapshot → Selected (List Snapshot)
  eligible_at cutoff [] = ok []
  eligible_at cutoff (s ∷ ss) =
      let rest = eligible_at cutoff ss in
      parse_timestamp s.created_at >>= λ t.
      rest >>= λ found. ok (if leb t cutoff then s ∷ found else found)

  -- The time of a snapshot whose timestamp has been read.
  abbrev pub time_of : Snapshot → ℕ
  time_of s = elim (parse s.created_at) [ none ↦ 0 | some t ↦ t ]

  -- `max(…, key=…)`: the first of the newest
  abbrev pub newest_of : Snapshot → List Snapshot → Snapshot
  newest_of best [] = best
  newest_of best (s ∷ ss) = newest_of (if ltb (time_of best) (time_of s) then s else best) ss

  abbrev pub is_agent : Snapshot → Bool
  is_agent s = s.kind == "agent"

  -- `agent or eligible`
  abbrev pub preferred_of : List Snapshot → List Snapshot
  preferred_of eligible =
      let agent = select is_agent eligible in if is_empty agent then eligible else agent

  abbrev pub newest_candidate : ℕ → List Snapshot → Selected Snapshot
  newest_candidate cutoff [] = refused (no_snapshot cutoff)
  newest_candidate cutoff (s ∷ ss) = ok (newest_of s ss)

  unfoldable pub select_snapshot : List Snapshot → ℕ → Selected Snapshot
  select_snapshot snapshots cutoff =
      eligible_at cutoff snapshots >>= λ eligible. newest_candidate cutoff (preferred_of eligible)

  -- `entry.fetched_at or snapshot.run.created_at`
  abbrev pub recorded_text : Snapshot → ResultSetEntry → String
  recorded_text s e = elim e.fetched_at [
    | none ↦ s.created_at
    | some t ↦ if t == "" then s.created_at else t
  ]

  abbrev pub with_fixture :
      Snapshot → ResultSetEntry → ℕ → Option MatchRow → Selected ArchivedResult
  with_fixture s e recorded none = refused (no_fixture e.match_number s.run_id)
  with_fixture s e recorded (some m) = ok (normalise_result e m recorded)

  unfoldable pub known_results :
      Snapshot → ℕ → Dict ℕ FixtureMetadata → List ResultSetEntry → Selected (List ArchivedResult)
  known_results s cutoff metadata [] = ok []
  known_results s cutoff metadata (e ∷ es) =
      let rest = known_results s cutoff metadata es in
      parse_timestamp (recorded_text s e) >>= λ recorded.
      if ltb cutoff recorded
      then rest
      else (with_fixture s e recorded (fixture_for s metadata e.match_number) >>= λ result.
          rest >>= λ results. ok (result ∷ results))

  unfoldable pub normalise_results :
      Snapshot → ℕ → Dict ℕ FixtureMetadata → Selected (List ArchivedResult)
  normalise_results s cutoff metadata =
      known_results s cutoff metadata s.results >>= λ results. ok (sort_by result_before results)
