-- ===== src/Sim/Store/Tests.antt =====
-- The stored results at fixed inputs; two results are compared by their texts here.
use wolves_ai.Base.{
  ℕ, ◌≡◌, ◌↔◌, refl, Bool, true, false, ◌&&◌, ◌||◌, Option, none, some, List, [], ◌∷◌, Key, ◌==◌,
  nat_eq, string_eq, eqb, eq_iff, arith,
}
use wolves_ai.Base.Dict.{Dict, lookup}
use wolves_ai.Sim.Overlay.{Side, home_side, away_side, GoalEvent, Numbers, Fixture, PlayedResult}
use wolves_ai.Sim.Store.{StoredResults, Codec, by_id, Blob, load, record_results, merged_fixtures}
use wolves_ai.Sim.Store.Repeats.{Within}
use wolves_ai.Sim.Store.Ordered.{InOrder, record_results-InOrder}
use wolves_ai.Sim.Store.Merge.{has_id, lookup_either, record_results-Merges}

abbrev same_option {ℓ} : {A : Type ℓ} ⦃key : Key A⦄ → Option A → Option A → Bool
same_option none none = true
same_option (some a) (some b) = a == b
same_option _ _ = false

same_option_iff {ℓ} : {A : Type ℓ} ⦃key : Key A⦄ (o p : Option A) → same_option o p ≡ true ↔ o ≡ p
same_option_iff none none = ground arith
same_option_iff ⦃key⦄ (some a) (some b) = ground (arith, key.same_iff a b)
same_option_iff none (some b) = ground arith
same_option_iff (some a) none = ground arith

abbrev same_result : PlayedResult → PlayedResult → Bool
same_result r s =
    eqb r.match s.match
    && same_option r.home_goals s.home_goals
    && same_option r.away_goals s.away_goals
    && same_option r.winner s.winner

same_result_iff : (r s : PlayedResult) → same_result r s ≡ true ↔ r ≡ s
same_result_iff r s = ground (
  arith,
  same_option_iff r.home_goals s.home_goals,
  same_option_iff r.away_goals s.away_goals,
  same_option_iff r.winner s.winner,
)

instance abbrev result_key : Key PlayedResult
result_key = record { same = same_result; same_iff = same_result_iff }

abbrev same_side : Side → Side → Bool
same_side home_side home_side = true
same_side away_side away_side = true
same_side _ _ = false

same_side_iff : (s t : Side) → same_side s t ≡ true ↔ s ≡ t
same_side_iff home_side home_side = ground arith
same_side_iff away_side away_side = ground arith
same_side_iff home_side away_side = ground arith
same_side_iff away_side home_side = ground arith

instance abbrev side_key : Key Side
side_key = record { same = same_side; same_iff = same_side_iff }

abbrev same_numbers : Numbers → Numbers → Bool
same_numbers n m =
    same_option n.goals m.goals
    && same_option n.fulltime m.fulltime
    && eqb n.reds m.reds
    && same_option n.shots_on m.shots_on
    && same_option n.total_shots m.total_shots
    && same_option n.possession m.possession

same_numbers_iff : (n m : Numbers) → same_numbers n m ≡ true ↔ n ≡ m
same_numbers_iff n m = ground (
  arith,
  same_option_iff n.goals m.goals,
  same_option_iff n.fulltime m.fulltime,
  same_option_iff n.shots_on m.shots_on,
  same_option_iff n.total_shots m.total_shots,
  same_option_iff n.possession m.possession,
)

abbrev same_goals : List GoalEvent → List GoalEvent → Bool
same_goals [] [] = true
same_goals (g ∷ gs) (h ∷ hs) = eqb g.minute h.minute && same_side g.side h.side && same_goals gs hs
same_goals _ _ = false

same_goals_iff : (gs hs : List GoalEvent) → same_goals gs hs ≡ true ↔ gs ≡ hs
same_goals_iff [] [] = ground arith
same_goals_iff [] (h ∷ hs) = ground arith
same_goals_iff (g ∷ gs) [] = ground arith
same_goals_iff (g ∷ gs) (h ∷ hs) = ground (arith, same_side_iff g.side h.side, same_goals_iff gs hs)

abbrev same_bool : Bool → Bool → Bool
same_bool true b = b
same_bool false true = false
same_bool false false = true

unfoldable same_teams : Fixture → Fixture → Bool
same_teams f g =
    f.home_name == g.home_name
    && f.away_name == g.away_name
    && same_numbers f.home g.home
    && same_numbers f.away g.away

same_teams_iff :
    (f g : Fixture)
    → same_teams f g ≡ true
      ↔ (f.home_name ≡ g.home_name)
        × (f.away_name ≡ g.away_name)
        × (f.home ≡ g.home)
        × (f.away ≡ g.away)
unfolding same_teams
same_teams_iff f g = ground (
  arith,
  eq_iff f.home_name g.home_name,
  eq_iff f.away_name g.away_name,
  same_numbers_iff f.home g.home,
  same_numbers_iff f.away g.away,
)

unfoldable same_course : Fixture → Fixture → Bool
same_course f g =
    same_option f.winner g.winner && same_goals f.goal_events g.goal_events && f.city == g.city

same_course_iff :
    (f g : Fixture)
    → same_course f g ≡ true
      ↔ (f.winner ≡ g.winner) × (f.goal_events ≡ g.goal_events) × (f.city ≡ g.city)
unfolding same_course
same_course_iff f g = ground (
  arith,
  same_option_iff f.winner g.winner,
  same_goals_iff f.goal_events g.goal_events,
  eq_iff f.city g.city,
)

abbrev same_fixture : Fixture → Fixture → Bool
same_fixture f g =
    eqb f.fixture_id g.fixture_id
    && eqb f.kickoff g.kickoff
    && same_bool f.finished g.finished
    && same_teams f g
    && same_course f g

same_fixture_iff : (f g : Fixture) → same_fixture f g ≡ true ↔ f ≡ g
same_fixture_iff f g = ground (arith, same_teams_iff f g, same_course_iff f g)

instance abbrev fixture_key : Key Fixture
fixture_key = record { same = same_fixture; same_iff = same_fixture_iff }

abbrev result : ℕ → ℕ → PlayedResult
result m n = record { match = m; home_goals = some n; away_goals = some 0; winner = none }

abbrev no_numbers : Numbers
no_numbers = record {
  goals = some 1;
  fulltime = none;
  reds = 0;
  shots_on = none;
  total_shots = none;
  possession = none;
}

abbrev fixture : ℕ → Fixture
fixture n = record {
  fixture_id = n;
  kickoff = 1000;
  finished = true;
  home_name = "France";
  away_name = "Brazil";
  home = no_numbers;
  away = no_numbers;
  winner = none;
  goal_events = [];
  city = "";
}

-- A blob that is kept decoded.
abbrev decoded : Codec
decoded = record {
  Text = StoredResults;
  model_dump_json = λ s. s;
  model_validate_json = λ s. s;
  validate-dump = λ s. refl;
}

abbrev blob : Blob decoded
blob = record {
  stored = some (record {
    fetched_at = "t0";
    results = (1, result 1 2) ∷ (2, result 2 0) ∷ [];
    fixtures = fixture 11 ∷ fixture 15 ∷ [];
  });
  writes = 1;
}

abbrev polled : Dict ℕ PlayedResult
polled = (2, result 2 3) ∷ (4, result 4 1) ∷ []

abbrev polled_fixtures : List Fixture
polled_fixtures = fixture 12 ∷ fixture 15 ∷ []

record_results_runs :
    let (s, b) = record_results decoded polled polled_fixtures none "t1" blob in
    (s.results ≡ (1, result 1 2) ∷ (2, result 2 3) ∷ (4, result 4 1) ∷ [])
    × (s.fixtures ≡ fixture 11 ∷ fixture 12 ∷ fixture 15 ∷ [])
    × (b.writes ≡ 2)
    × (record_results decoded polled polled_fixtures none "t2" b ≡ (s, b))
unfolding record_results merged_fixtures same_teams same_course
record_results_runs = (refl, refl, refl, refl)

record_results-Merges_example :
    let (s, b) = record_results decoded polled polled_fixtures none "t1" blob in
    (lookup 2 s.results ≡ lookup_either 2 polled (load decoded blob).results)
    × (has_id 12 s.fixtures ≡ (has_id 12 (load decoded blob).fixtures || has_id 12 polled_fixtures))
    × (load decoded b ≡ s)
record_results-Merges_example =
    record_results-Merges decoded polled polled_fixtures none "t1" blob 2 12 (refl, (refl, tt))

abbrev old : Dict ℕ PlayedResult
old = (2, result 2 0) ∷ []

abbrev old_fixtures : List Fixture
old_fixtures = fixture 15 ∷ []

old-Within : Within old (load decoded blob).results
old-Within k v e = ground arith

old_fixtures-Within : Within (by_id old_fixtures []) (by_id (load decoded blob).fixtures [])
old_fixtures-Within k v e = ground arith

record_results-InOrder_example :
    InOrder (load decoded (record_results decoded polled polled_fixtures none "t1" blob).1)
record_results-InOrder_example =
    record_results-InOrder decoded polled polled_fixtures none "t1" blob
      ((refl, (refl, tt)), ((omega arith, tt), (tt, tt)))
