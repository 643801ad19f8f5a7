-- ===== src/Live.antt =====
-- backend/wolves_backend/impact_report.py: the goals of a match, made to give the score that the
-- provider reports.
mod Tests
use wolves_ai.Base.{
  ℕ, zero, suc, ◌+◌, ◌≡◌, refl, ap, ◌∙◌, Bool, true, false, not, ◌&&◌, ◌||◌, List, [], ◌∷◌, ◌++◌,
  map, count_if, count_if-append, length, if◌then◌else◌, eqb, eqb_iff, arith, inl, inr, Bool-cases,
}

pub data Side : Type 0 where
  home_side away_side : Side

pub record GoalEvent : Type 0 where
  pub minute : ℕ
  pub side : Side

abbrev pub is_home : GoalEvent → Bool
is_home g = elim g.side [ home_side ↦ true | away_side ↦ false ]

abbrev pub is_away : GoalEvent → Bool
is_away g = not (is_home g)

abbrev pub scored_home : List GoalEvent → ℕ
scored_home = count_if is_home

abbrev pub scored_away : List GoalEvent → ℕ
scored_away = count_if is_away

abbrev pub other_side : Side → Side
other_side home_side = away_side
other_side away_side = home_side

abbrev pub swapped : List GoalEvent → List GoalEvent
swapped = map λ (g : GoalEvent). record g { side = other_side g.side }

abbrev pub all_by : Side → List GoalEvent → List GoalEvent
all_by side = map λ (g : GoalEvent). record g { side = side }

-- So many goals at the start.
abbrev pub held_goals : Side → ℕ → List GoalEvent
held_goals side zero = []
held_goals side (suc n) = record { minute = 0; side = side } ∷ held_goals side n

unfoldable pub reconcile_goals : List GoalEvent → ℕ → ℕ → List GoalEvent
reconcile_goals goals home away =
    if eqb (scored_home goals) home && eqb (scored_away goals) away
    then goals
    else if eqb (scored_home goals) away && eqb (scored_away goals) home
    then swapped goals
    else if eqb (length goals) (home + away) && (eqb home 0 || eqb away 0)
    then all_by (if eqb away 0 then home_side else away_side) goals
    else held_goals home_side home ++ held_goals away_side away

swapped-scored :
    (gs : List GoalEvent)
    → (scored_home (swapped gs) ≡ scored_away gs) × (scored_away (swapped gs) ≡ scored_home gs)
swapped-scored [] = (refl, refl)
swapped-scored (g ∷ gs) = ground (arith, swapped-scored gs, g.side)

all_by-scored :
    (side : Side) (gs : List GoalEvent)
    → (scored_home (all_by side gs)
        ≡ (elim side as (λ x. ℕ) [ home_side ↦ length gs | away_side ↦ 0 ]))
      × (scored_away (all_by side gs)
          ≡ (elim side as (λ x. ℕ) [ home_side ↦ 0 | away_side ↦ length gs ]))
all_by-scored home_side [] = (refl, refl)
all_by-scored away_side [] = (refl, refl)
all_by-scored home_side (g ∷ gs) = ground (arith, all_by-scored home_side gs)
all_by-scored away_side (g ∷ gs) = ground (arith, all_by-scored away_side gs)

held_goals-scored :
    (side : Side) (n : ℕ)
    → (scored_home (held_goals side n) ≡ (elim side as (λ x. ℕ) [ home_side ↦ n | away_side ↦ 0 ]))
      × (scored_away (held_goals side n)
          ≡ (elim side as (λ x. ℕ) [ home_side ↦ 0 | away_side ↦ n ]))
held_goals-scored home_side zero = (refl, refl)
held_goals-scored away_side zero = (refl, refl)
held_goals-scored home_side (suc n) = ground (arith, held_goals-scored home_side n)
held_goals-scored away_side (suc n) = ground (arith, held_goals-scored away_side n)

-- Whatever goals the provider lists, the reconciled ones give each side the goals of the score.
pub reconcile_goals-scored :
    (goals : List GoalEvent) (home away : ℕ)
    → (scored_home (reconcile_goals goals home away) ≡ home)
      × (scored_away (reconcile_goals goals home away) ≡ away)
unfolding reconcile_goals
reconcile_goals-scored goals home away = ground (
  arith,
  swapped-scored goals,
  all_by-scored home_side goals,
  all_by-scored away_side goals,
  held_goals-scored home_side home,
  held_goals-scored away_side away,
  count_if-append is_home (held_goals home_side home) (held_goals away_side away),
  count_if-append is_away (held_goals home_side home) (held_goals away_side away),
)
