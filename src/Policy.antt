-- ===== src/Policy.antt =====
-- engine/wolves/run_policy.py: the phase of a day and the ceiling of its run. A date is its ordinal; the
-- teams that count as big and `round(·, 2)` are parameters, and amounts are whole numbers of a small unit.
use wolves_ai.Base.{
  ℕ, ◌+◌, ◌-◌, Bool, true, false, String, List, [], ◌∷◌, ◌++◌, map, select, any, all, contains, min,
  max, length, ltb, leb, eqb, if◌then◌else◌, ◌&&◌, ◌||◌, not, nat_eq, string_eq, ◌==◌, Option, none,
  some,
}
use wolves_ai.Base.Dict.{Dict, lookup, insert, values}
use wolves_ai.Base.Sorted.{sort_texts}
pub mod Groups
pub mod Days
mod Tests

pub data Phase : Type 0 where
  rest opening group big_group r32_r16 qf_final : Phase

pub record GroupGame : Type 0 where
  pub day : ℕ
  pub group : String
  pub home : String
  pub away : String

pub record KnockoutGame : Type 0 where
  pub day : ℕ
  pub stage : String

pub record FormatData : Type 0 where
  pub group_matches : List GroupGame
  pub knockout : List KnockoutGame

-- The ceilings of the settings.
pub record Ceilings : Type 0 where
  pub rest_usd : ℕ
  pub opening_usd : ℕ
  pub group_usd : ℕ
  pub big_group_usd : ℕ
  pub r32_r16_usd : ℕ
  pub qf_final_usd : ℕ
  pub max_usd : ℕ

pub record DayPolicy : Type 0 where
  pub on : ℕ
  pub phase : Phase
  pub ceiling_usd : ℕ
  pub big_teams : List String

abbrev opening_days : ℕ
opening_days = 7

abbrev big_slate_games : ℕ
big_slate_games = 6

abbrev pub late_stages : List String
late_stages = "qf" ∷ "sf" ∷ "third_place" ∷ "final" ∷ []

-- `not xs`
abbrev pub no_items {ℓ} : {A : Type ℓ} → List A → Bool
no_items [] = true
no_items (x ∷ xs) = false

-- A set of texts as a list without repeats.
abbrev distinct_texts : List String → List String
distinct_texts [] = []
distinct_texts (t ∷ ts) =
    let others = distinct_texts ts in if contains t others then others else t ∷ others

abbrev pub group_games_on : FormatData → ℕ → List GroupGame
group_games_on fmt on = select (λ m. eqb m.day on) fmt.group_matches

abbrev pub knockout_stages : FormatData → ℕ → List String
knockout_stages fmt on = map (λ m. m.stage) (select (λ m. eqb m.day on) fmt.knockout)

-- `by_group`: the last day of each group
abbrev pub last_days : List GroupGame → Dict String ℕ → Dict String ℕ
last_days [] d = d
last_days (m ∷ ms) d =
    last_days ms (insert m.group (max (elim (lookup m.group d) [ none ↦ 0 | some n ↦ n ]) m.day) d)

unfoldable pub group_concludes : FormatData → ℕ → Bool
group_concludes fmt on =
    contains on (values (last_days fmt.group_matches [])) && not (no_items (group_games_on fmt on))

abbrev pub first_of : List GroupGame → ℕ → ℕ
first_of [] day = day
first_of (m ∷ ms) day = first_of ms (min day m.day)

abbrev pub first_group_date : FormatData → ℕ
first_group_date fmt = elim fmt.group_matches [ [] ↦ 0 | m ∷ ms ↦ first_of ms m.day ]

abbrev playing : List GroupGame → List String
playing games = distinct_texts (map (λ m. m.home) games ++ map (λ m. m.away) games)

module _ (c : Ceilings) (round : ℕ → ℕ) (big : String → Bool) where
  abbrev pub phase_of : FormatData → ℕ → List String → Phase × ℕ
  phase_of fmt on big_playing =
      let stages = knockout_stages fmt on in
      let games = group_games_on fmt on in
      if any (λ s. contains s late_stages) stages
      then (qf_final, c.qf_final_usd)
      else if not (no_items stages)
      then (r32_r16, c.r32_r16_usd)
      else if no_items games
      then (rest, c.rest_usd)
      else if leb on (first_group_date fmt + (opening_days - 1))
      then (opening, c.opening_usd)
      else if not (no_items big_playing)
          || group_concludes fmt on
          || leb big_slate_games (length games)
      then (big_group, c.big_group_usd)
      else (group, c.group_usd)

  unfoldable pub games_day_policy : FormatData → ℕ → DayPolicy
  games_day_policy fmt on =
      let big_playing = sort_texts (select big (playing (group_games_on fmt on))) in
      let (phase, ceiling) = phase_of fmt on big_playing in
      record {
        on = on;
        phase = phase;
        ceiling_usd = round (min ceiling c.max_usd);
        big_teams = big_playing;
      }

  unfoldable pub day_policy : FormatData → ℕ → DayPolicy
  day_policy fmt on =
      let today = games_day_policy fmt on in
      let digest = games_day_policy fmt (on - 1) in
      let chosen = if ltb today.ceiling_usd digest.ceiling_usd then digest else today in
      record {
        on = on;
        phase = chosen.phase;
        ceiling_usd = chosen.ceiling_usd;
        big_teams = sort_texts (distinct_texts (today.big_teams ++ digest.big_teams));
      }
