-- ===== src/Sim/Mirror.antt =====
-- engine/wolves/sim/overlay.py: it does not matter which team the provider calls the home team of a
-- group match.
use wolves_ai.Base.{
  ℕ, ◌≡◌, ◌≢◌, ◌⊎◌, refl, sym, Bool, String, Option, none, some, List, [], ◌∷◌, map, string_eq,
  eq_iff, arith, inl, inr,
}
use wolves_ai.Sim.Overlay.{
  Side, other_side, GoalEvent, Fixture, GroupMatch, KnockoutMatch, Resolution, flip_goal,
  oriented_goals, find_pair, group_match, resolve_ids, resolve_fixture,
}

abbrev other : Option Side → Option Side
other none = none
other (some s) = some (other_side s)

-- The fixture with its teams the other way round.
abbrev pub mirror : Fixture → Fixture
mirror f = record f {
  home_name = f.away_name;
  away_name = f.home_name;
  home = f.away;
  away = f.home;
  winner = other f.winner;
  goal_events = map flip_goal f.goal_events;
}

flip_twice : (gs : List GoalEvent) → map flip_goal (map flip_goal gs) ≡ gs
flip_twice [] = refl
flip_twice (g ∷ gs) = ground (arith, flip_twice gs)

find_pair-ids :
    (h a : String) (ms : List GroupMatch) (m : GroupMatch)
    → find_pair h a ms ≡ some m
    → (m.home_id ≡ h) × (m.away_id ≡ a)
find_pair-ids h a [] m e = absurd (ground arith)
find_pair-ids h a (n ∷ ms) m e =
    ground (arith, find_pair-ids h a ms m, eq_iff n.home_id h, eq_iff n.away_id a)

module _ (team_id : String → Option String) (same_kickoff same_day : String → ℕ → Bool)
    (groups : List GroupMatch) (knockout : List KnockoutMatch) (f : Fixture) where
  abbrev resolved : Fixture → String → String → Option Resolution
  resolved = resolve_ids team_id same_kickoff same_day groups knockout

  turned :
      (h a : String) (m : GroupMatch)
      → h ≢ a
      → find_pair h a groups ≡ some m
      → find_pair a h groups ≡ none
      → (resolved (mirror f) a h ≡ resolved f h a) × (resolved f a h ≡ resolved (mirror f) h a)
  unfolding group_match oriented_goals
  turned h a m ne e e' = ground (
    arith,
    e,
    e',
    find_pair-ids h a groups m e,
    flip_twice f.goal_events,
    eq_iff m.home_id h,
    eq_iff m.home_id a,
  )

  -- Where the names of both teams are known, they differ, and the group stage has a match of the two
  -- with one of them at home and none the other way round, the fixture with its teams, their numbers
  -- and the sides of its goals exchanged is resolved to the same match, teams and numbers as the
  -- fixture itself.
  pub resolve_fixture-mirror :
      (h a : String) (m : GroupMatch)
      → team_id f.home_name ≡ some h
      → team_id f.away_name ≡ some a
      → h ≢ a
      → (find_pair h a groups ≡ some m) × (find_pair a h groups ≡ none)
        ⊎ (find_pair a h groups ≡ some m) × (find_pair h a groups ≡ none)
      → resolve_fixture team_id same_kickoff same_day groups knockout (mirror f)
        ≡ resolve_fixture team_id same_kickoff same_day groups knockout f
  unfolding resolve_fixture
  resolve_fixture-mirror h a m k k' ne (inl (e, e')) =
      ground (arith, k, k', (turned h a m ne e e').0)
  resolve_fixture-mirror h a m k k' ne (inr (e, e')) =
      ground (arith, k, k', (turned a h m (λ q. ne (sym q)) e e').1)
