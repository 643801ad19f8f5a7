-- ===== src/Live/Tests.antt =====
-- The goals of a match at fixed inputs.
use wolves_ai.Base.{ℕ, ◌≡◌, refl, List, [], ◌∷◌}
use wolves_ai.Live.{
  Side, home_side, away_side, GoalEvent, scored_home, scored_away, reconcile_goals,
  reconcile_goals-scored,
}

abbrev goal : ℕ → Side → GoalEvent
goal minute side = record { minute = minute; side = side }

abbrev goals : List GoalEvent
goals = goal 12 home_side ∷ goal 55 home_side ∷ []

goals_reconciled :
    (reconcile_goals goals 0 2 ≡ goal 12 away_side ∷ goal 55 away_side ∷ [])
    × (reconcile_goals (goal 12 away_side ∷ goal 55 home_side ∷ []) 0 2
        ≡ goal 12 away_side ∷ goal 55 away_side ∷ [])
    × (reconcile_goals goals 1 2 ≡ goal 0 home_side ∷ goal 0 away_side ∷ goal 0 away_side ∷ [])
unfolding reconcile_goals
goals_reconciled = (refl, refl, refl)

reconcile_goals-scored_example :
    (scored_home (reconcile_goals goals 1 2) ≡ 1) × (scored_away (reconcile_goals goals 1 2) ≡ 2)
reconcile_goals-scored_example = reconcile_goals-scored goals 1 2
