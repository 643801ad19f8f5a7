-- ===== src/Sim/Tests.antt =====
-- The theorems on the played results at fixed inputs.
use wolves_ai.Base.{
  ℕ, ◌≡◌, ◌+◌, ap, arith, ◌⊎◌, ◌<◌, refl, Bool, true, false, String, Option, none, some, List, [],
  ◌∷◌, string_eq, nat_eq,
}
use wolves_ai.Base.Dict.{Dict, lookup}
use wolves_ai.Sim.Overlay.{
  home_side, away_side, Numbers, Fixture, GroupMatch, KnockoutMatch, PlayedResult, resolve_fixture,
  played, results_from_fixtures, knockout_match, group_match, oriented_goals, winner_from_fixture,
}
use wolves_ai.Sim.Lock.{Game, points_for, play, matchdays, locked_after, no_points}
use wolves_ai.Sim.Lock.Certain.{Calendar, some_lock, locked_after-Certain}
use wolves_ai.Sim.Results.{Told, results_from_fixtures-Told}

abbrev team_id : String → Option String
team_id name = lookup name (("France", "fra") ∷ ("Brazil", "bra") ∷ ("Japan", "jpn") ∷ [])

abbrev any_match : String → ℕ → Bool
any_match d t = true

abbrev no_match : String → ℕ → Bool
no_match d t = false

abbrev groups : List GroupMatch
groups = record { match = 7; home_id = "bra"; away_id = "fra" } ∷ []

abbrev knockout : List KnockoutMatch
knockout =
    record { match = 90; date = "2026-07-01"; city = "Dallas" }
    ∷ record { match = 91; date = "2026-07-01"; city = "New York/New Jersey" }
    ∷ []

abbrev numbers : ℕ → Numbers
numbers n = record {
  goals = some n;
  fulltime = some n;
  reds = 0;
  shots_on = none;
  total_shots = some (n + 8);
  possession = none;
}

abbrev fixture : Fixture
fixture = record {
  fixture_id = 1;
  kickoff = 1000;
  finished = true;
  home_name = "France";
  away_name = "Brazil";
  home = numbers 2;
  away = numbers 1;
  winner = some home_side;
  goal_events =
      record { minute = 12; side = home_side } ∷ record { minute = 50; side = away_side } ∷ [];
  city = "Boston";
}

abbrev final_match : Fixture
final_match = record fixture { away_name = "Japan"; city = "East Rutherford" }

abbrev no_results : Dict ℕ PlayedResult
no_results = []

abbrev entry : PlayedResult
entry = record { match = 91; home_goals = some 2; away_goals = some 1; winner = some "fra" }

results_runs :
    lookup 91 (
      results_from_fixtures team_id no_match any_match groups knockout
        (fixture ∷ final_match ∷ [])
        no_results)
    ≡ some entry
unfolding results_from_fixtures played resolve_fixture knockout_match group_match oriented_goals
    winner_from_fixture
results_runs = refl

results_from_fixtures-Told_example :
    (entry.match ≡ 91)
      × Told team_id no_match any_match groups knockout (fixture ∷ final_match ∷ []) entry
    ⊎ (lookup 91 no_results ≡ some entry)
results_from_fixtures-Told_example =
    results_from_fixtures-Told team_id no_match any_match groups knockout
      (fixture ∷ final_match ∷ []) no_results 91 entry results_runs

abbrev group_games : List Game
group_games =
    record { home = 0; away = 1; home_goals = 2; away_goals = 0 }
    ∷ record { home = 2; away = 3; home_goals = 1; away_goals = 1 }
    ∷ record { home = 2; away = 0; home_goals = 0; away_goals = 1 }
    ∷ record { home = 1; away = 3; home_goals = 0; away_goals = 0 }
    ∷ record { home = 0; away = 3; home_goals = 0; away_goals = 3 }
    ∷ record { home = 1; away = 2; home_goals = 1; away_goals = 0 }
    ∷ []

locked_after_runs : locked_after 0 (0 ∷ 1 ∷ 2 ∷ 3 ∷ []) group_games ≡ false ∷ true ∷ []
unfolding locked_after matchdays play points_for
locked_after_runs = refl

group_games-Calendar : Calendar 3 group_games
group_games-Calendar = ((λ o. ground arith), ((λ o. ground arith), ((λ o. ground arith), refl)))

locked_after-Certain_example : play group_games no_points 3 < play group_games no_points 0
locked_after-Certain_example =
    locked_after-Certain 0 (0 ∷ 1 ∷ 2 ∷ 3 ∷ []) group_games 3 group_games-Calendar
      (ap some_lock locked_after_runs) refl (ground arith)
