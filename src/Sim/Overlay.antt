-- ===== src/Sim/Overlay.antt =====
-- engine/wolves/sim/overlay.py: provider fixtures become played results. The fields home_* and away_*
-- of a fixture are two records here. Finding a team by its name and comparing dates are parameters;
-- lower casing is that of ASCII. A kick-off is a number of seconds, and a possession, which is only
-- carried along, a whole number.
use wolves_ai.Base.{
  ℕ, Bool, true, false, not, ◌&&◌, ◌||◌, String, Option, none, some, List, [], ◌∷◌, map, select,
  ltb, eqb, if◌then◌else◌, is_some, string_eq, nat_eq, ◌==◌,
}
use wolves_ai.Base.Dict.{Dict, insert}
use wolves_ai.Base.Text.{codes, lower, occurs, same_codes}

pub data Side : Type 0 where
  home_side away_side : Side

abbrev pub other_side : Side → Side
other_side home_side = away_side
other_side away_side = home_side

pub record GoalEvent : Type 0 where
  pub minute : ℕ
  pub side : Side

-- What a fixture says of one of its teams.
pub record Numbers : Type 0 where
  pub goals : Option ℕ
  pub fulltime : Option ℕ
  pub reds : ℕ
  pub shots_on : Option ℕ
  pub total_shots : Option ℕ
  pub possession : Option ℕ

-- `MatchFixture`
pub record Fixture : Type 0 where
  pub fixture_id : ℕ
  pub kickoff : ℕ
  pub finished : Bool
  pub home_name : String
  pub away_name : String
  pub home : Numbers
  pub away : Numbers
  pub winner : Option Side
  pub goal_events : List GoalEvent
  pub city : String

pub record GroupMatch : Type 0 where
  pub match : ℕ
  pub home_id : String
  pub away_id : String

pub record KnockoutMatch : Type 0 where
  pub match : ℕ
  pub date : String
  pub city : String

-- `FixtureResolution`
pub record Resolution : Type 0 where
  pub match : ℕ
  pub home_id : String
  pub away_id : String
  pub home : Numbers
  pub away : Numbers
  pub knockout : Bool
  pub goal_events : List GoalEvent

pub record PlayedResult : Type 0 where
  pub match : ℕ
  pub home_goals : Option ℕ
  pub away_goals : Option ℕ
  pub winner : Option String

abbrev pub flip_goal : GoalEvent → GoalEvent
flip_goal g = record g { side = other_side g.side }

unfoldable pub oriented_goals : Bool → List GoalEvent → List GoalEvent
oriented_goals flip goals = if flip then map flip_goal goals else goals

-- `by_pair.get((home, away))`: the last match of the two
abbrev pub find_pair : String → String → List GroupMatch → Option GroupMatch
find_pair h a [] = none
find_pair h a (m ∷ ms) = elim (find_pair h a ms) [
  | some n ↦ some n
  | none ↦ if m.home_id == h && m.away_id == a then some m else none
]

unfoldable pub group_match : String → String → List GroupMatch → Option GroupMatch
group_match h a ms = elim (find_pair h a ms) [ some m ↦ some m | none ↦ find_pair a h ms ]

abbrev pub city_aliases : Dict String String
city_aliases =
    ("east rutherford", "new york/new jersey")
    ∷ ("new jersey", "new york/new jersey")
    ∷ ("new york", "new york/new jersey")
    ∷ ("santa clara", "san francisco bay area")
    ∷ ("san francisco", "san francisco bay area")
    ∷ ("inglewood", "los angeles")
    ∷ ("arlington", "dallas")
    ∷ ("foxborough", "boston")
    ∷ ("foxboro", "boston")
    ∷ ("guadalupe", "monterrey")
    ∷ ("miami gardens", "miami")
    ∷ ("zapopan", "guadalajara")
    ∷ []

abbrev pub alias_in : Dict String String → List ℕ → List ℕ
alias_in [] city = city
alias_in ((from, to) ∷ d) city = if same_codes (codes from) city then codes to else alias_in d city

abbrev pub city_fits : List ℕ → KnockoutMatch → Bool
city_fits city m = occurs city (lower (codes m.city)) || occurs (lower (codes m.city)) city

-- The only one of the list, or else.
abbrev pub only_or {ℓ} : {A : Type ℓ} → List A → Option A → Option A
only_or (m ∷ []) o = some m
only_or _ o = o

module _ (team_id : String → Option String) (same_kickoff same_day : String → ℕ → Bool) where
  unfoldable pub knockout_match : List KnockoutMatch → Fixture → Option KnockoutMatch
  knockout_match knockout f =
      let candidates = select (λ m. same_day m.date f.kickoff) knockout in
      let city = alias_in city_aliases (lower (codes f.city)) in
      only_or (select (λ m. same_kickoff m.date f.kickoff) knockout) (
        only_or candidates
          (if f.city == "" then none else only_or (select (city_fits city) candidates) none))

  abbrev pub from_group : String → Fixture → GroupMatch → Resolution
  from_group home f g =
      let oriented = g.home_id == home in
      record {
        match = g.match;
        home_id = g.home_id;
        away_id = g.away_id;
        home = if oriented then f.home else f.away;
        away = if oriented then f.away else f.home;
        knockout = false;
        goal_events = oriented_goals (not oriented) f.goal_events;
      }

  abbrev pub from_knockout : String → String → Fixture → KnockoutMatch → Resolution
  from_knockout home away f m = record {
    match = m.match;
    home_id = home;
    away_id = away;
    home = f.home;
    away = f.away;
    knockout = true;
    goal_events = oriented_goals false f.goal_events;
  }

  abbrev pub resolve_ids :
      List GroupMatch → List KnockoutMatch → Fixture → String → String → Option Resolution
  resolve_ids groups knockout f home away = elim (group_match home away groups) [
    | some g ↦ some (from_group home f g)
    | none ↦ elim (knockout_match knockout f) [
      | none ↦ none
      | some m ↦ some (from_knockout home away f m)
    ]
  ]

  unfoldable pub resolve_fixture :
      List GroupMatch → List KnockoutMatch → Fixture → Option Resolution
  resolve_fixture groups knockout f = elim (team_id f.home_name) [
    | none ↦ none
    | some home ↦ elim (team_id f.away_name) [
      | none ↦ none
      | some away ↦ resolve_ids groups knockout f home away
    ]
  ]

  abbrev pub by_goals : Option ℕ → Option ℕ → Option Side
  by_goals (some h) (some a) =
      if eqb h a then none else if ltb a h then some home_side else some away_side
  by_goals _ _ = none

  abbrev pub side_id : Option Side → String → String → Option String
  side_id none home away = none
  side_id (some home_side) home away = some home
  side_id (some away_side) home away = some away

  unfoldable pub winner_from_fixture : Fixture → String → String → Option String
  winner_from_fixture f home away = elim (by_goals f.home.goals f.away.goals) [
    | some s ↦ side_id (some s) home away
    | none ↦ side_id f.winner home away
  ]

  abbrev pub result_of : Fixture → Resolution → Option PlayedResult
  result_of f r =
      let winner = winner_from_fixture f r.home_id r.away_id in
      if r.knockout && not (is_some winner)
      then none
      else some (record {
        match = r.match;
        home_goals = r.home.goals;
        away_goals = r.away.goals;
        winner = if r.knockout then winner else none;
      })

  -- What one fixture adds.
  unfoldable pub played : List GroupMatch → List KnockoutMatch → Fixture → Option PlayedResult
  played groups knockout f =
      if not f.finished || not (is_some f.home.goals) || not (is_some f.away.goals)
      then none
      else elim (resolve_fixture groups knockout f) [ none ↦ none | some r ↦ result_of f r ]

  unfoldable pub results_from_fixtures :
      List GroupMatch
      → List KnockoutMatch
      → List Fixture
      → Dict ℕ PlayedResult
      → Dict ℕ PlayedResult
  results_from_fixtures groups knockout [] results = results
  results_from_fixtures groups knockout (f ∷ fs) results =
      results_from_fixtures groups knockout fs
        (elim (played groups knockout f) [ none ↦ results | some r ↦ insert r.match r results ])
