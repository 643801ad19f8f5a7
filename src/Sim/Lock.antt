-- ===== src/Sim/Lock.antt =====
-- engine/wolves/sim/lock.py: when a team is certain to win its group, in one simulation. The points are
-- a function from the index of a team; a row of the simulation's arrays is the goals of each match.
use wolves_ai.Base.{
  ℕ, zero, suc, ◌+◌, ◌*◌, Bool, true, false, List, [], ◌∷◌, ltb, eqb, leb, if◌then◌else◌, take,
  drop, ◌&&◌, ◌||◌,
}
pub mod Certain

pub record Game : Type 0 where
  pub home : ℕ
  pub away : ℕ
  pub home_goals : ℕ
  pub away_goals : ℕ

abbrev pub matches_per_matchday : ℕ
matches_per_matchday = 2

abbrev pub games_per_team : ℕ
games_per_team = 3

abbrev pub Points : Type 0
Points = ℕ → ℕ

-- Three points for a win, one for a draw.
unfoldable pub points_for : ℕ → ℕ → ℕ
points_for scored conceded = if ltb conceded scored then 3 else if eqb scored conceded then 1 else 0

-- `pts[t] += n`
abbrev bump : ℕ → ℕ → Points → Points
bump t n pts o = if eqb o t then pts o + n else pts o

abbrev pub add_game : Game → Points → Points
add_game g pts =
    bump g.away (points_for g.away_goals g.home_goals)
      (bump g.home (points_for g.home_goals g.away_goals) pts)

unfoldable pub play : List Game → Points → Points
play [] pts = pts
play (g ∷ gs) pts = play gs (add_game g pts)

-- No other member can draw level in the matches that remain.
abbrev pub locked : ℕ → List ℕ → ℕ → Points → Bool
locked e [] remaining pts = true
locked e (o ∷ os) remaining pts =
    (eqb o e || ltb (pts o + 3 * remaining) (pts e)) && locked e os remaining pts

-- Whether e is locked after each matchday but the last, the games being in order of their dates.
unfoldable pub matchdays : ℕ → List ℕ → ℕ → List Game → Points → List Bool
matchdays e members zero gs pts = []
matchdays e members (suc zero) gs pts = []
matchdays e members (suc (suc remaining)) gs pts =
    let pts' = play (take matches_per_matchday gs) pts in
    locked e members (suc remaining) pts'
    ∷ matchdays e members (suc remaining) (drop matches_per_matchday gs) pts'

abbrev pub no_points : Points
no_points t = 0

unfoldable pub locked_after : ℕ → List ℕ → List Game → List Bool
locked_after e members gs = matchdays e members games_per_team gs no_points
