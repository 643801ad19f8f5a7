-- ===== src/Policy/Tests.antt =====
-- The run policy at fixed inputs.
use wolves_ai.Base.{ℕ, ◌≡◌, refl, Bool, String, [], ◌∷◌, string_eq, ◌==◌}
use wolves_ai.Policy.{
  rest, opening, group, big_group, GroupGame, FormatData, Ceilings, group_concludes,
  games_day_policy, day_policy,
}

abbrev ceilings : Ceilings
ceilings = record {
  rest_usd = 200;
  opening_usd = 500;
  group_usd = 400;
  big_group_usd = 600;
  r32_r16_usd = 800;
  qf_final_usd = 1200;
  max_usd = 1000;
}

abbrev same_amount : ℕ → ℕ
same_amount n = n

abbrev is_france : String → Bool
is_france t = t == "fra"

abbrev game : ℕ → String → String → GroupGame
game day home away = record { day = day; group = "A"; home = home; away = away }

abbrev fmt : FormatData
fmt = record {
  group_matches = game 10 "fra" "bra" ∷ game 18 "jpn" "bra" ∷ game 19 "fra" "jpn" ∷ [];
  knockout = record { day = 30; stage = "r32" } ∷ record { day = 40; stage = "final" } ∷ [];
}

days_run :
    ((games_day_policy ceilings same_amount is_france fmt 10).phase ≡ opening)
    × ((games_day_policy ceilings same_amount is_france fmt 18).phase ≡ group)
    × ((games_day_policy ceilings same_amount is_france fmt 19).phase ≡ big_group)
    × ((games_day_policy ceilings same_amount is_france fmt 25).phase ≡ rest)
    × ((day_policy ceilings same_amount is_france fmt 41).ceiling_usd ≡ 1000)
    × ((day_policy ceilings same_amount is_france fmt 20).big_teams ≡ "fra" ∷ [])
unfolding games_day_policy day_policy group_concludes
days_run = (refl, refl, refl, refl, refl, refl)
