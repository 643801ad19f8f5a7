-- ===== src/Policy/Days.antt =====
-- engine/wolves/run_policy.py: which phase a day has, and what a run may cost on it.
use wolves_ai.Base.Dict.{values}
use wolves_ai.Policy.Groups.{plays_later}
use wolves_ai.Base.{
  refl, nat_eq, not, ◌&&◌, ◌||◌, all, map, select, eqb, leb, ltb, ◌==◌, eq_iff, inl, inr,
  Bool-cases, ℕ, ◌+◌, ◌-◌, ◌≡◌, ◌↔◌, ◌≤◌, ◌<◌, ◌⊎◌, Bool, true, false, String, List, [], ◌∷◌, any,
  contains, min, length, arith, string_eq,
}
use wolves_ai.Policy.{
  GroupGame, KnockoutGame, last_days, first_of, Phase, rest, opening, group, big_group, r32_r16,
  qf_final, FormatData, Ceilings, DayPolicy, late_stages, group_games_on, first_group_date,
  group_concludes, games_day_policy, day_policy, no_items,
}

no_items_empty {ℓ} : {A : Type ℓ} (xs : List A) → no_items xs ≡ true ↔ xs ≡ []
no_items_empty [] = ground arith
no_items_empty (x ∷ xs) = ground arith

-- The ceiling that the settings have for a phase.
abbrev pub usd_of : Ceilings → Phase → ℕ
usd_of c rest = c.rest_usd
usd_of c opening = c.opening_usd
usd_of c group = c.group_usd
usd_of c big_group = c.big_group_usd
usd_of c r32_r16 = c.r32_r16_usd
usd_of c qf_final = c.qf_final_usd

-- What the schedule says of a day.
module _ (fmt : FormatData) (on : ℕ) where
  abbrev pub group_day : Bool
  group_day = any (λ m. eqb m.day on) fmt.group_matches

  abbrev pub knockout_day : Bool
  knockout_day = any (λ m. eqb m.day on) fmt.knockout

  -- from the quarter-finals on
  abbrev pub late_day : Bool
  late_day =
      any (λ m. eqb m.day on && contains m.stage ("qf" ∷ "sf" ∷ "third_place" ∷ "final" ∷ []))
        fmt.knockout

  -- no match of the group stage is more than six days before it
  abbrev pub first_week : Bool
  first_week = all (λ m. leb on (m.day + 6)) fmt.group_matches

  -- each group that plays on it has a later match
  abbrev pub groups_go_on : Bool
  groups_go_on =
      all
        (λ m. not (eqb m.day on) || any (λ n. n.group == m.group && ltb on n.day) fmt.group_matches)
        fmt.group_matches

  select-no_items {ℓ} :
      {A : Type ℓ} (p : A → Bool) (xs : List A) → no_items (select p xs) ≡ not (any p xs)
  select-no_items p [] = refl
  select-no_items p (x ∷ xs) = ground (arith, select-no_items p xs)

  stages-no_items :
      (ms : List KnockoutGame)
      → no_items (map (λ m. m.stage) (select (λ m. eqb m.day on) ms))
        ≡ not (any (λ m. eqb m.day on) ms)
  stages-no_items [] = refl
  stages-no_items (m ∷ ms) = ground (arith, stages-no_items ms)

  stages-late :
      (ms : List KnockoutGame)
      → any (λ s. contains s late_stages) (map (λ m. m.stage) (select (λ m. eqb m.day on) ms))
        ≡ any (λ m. eqb m.day on && contains m.stage late_stages) ms
  stages-late [] = refl
  stages-late (m ∷ ms) = ground (arith, stages-late ms)

  late-knockout :
      (ms : List KnockoutGame)
      → any (λ m. eqb m.day on && contains m.stage late_stages) ms ≡ true
      → any (λ m. eqb m.day on) ms ≡ true
  late-knockout [] h = h
  late-knockout (m ∷ ms) h = ground (arith, h, late-knockout ms)

  first_of-week :
      (ms : List GroupGame) (d : ℕ)
      → leb on (first_of ms d + 6) ≡ (leb on (d + 6) && all (λ m. leb on (m.day + 6)) ms)
  first_of-week [] d = ground arith
  first_of-week (m ∷ ms) d = ground (arith, first_of-week ms (min d m.day))

  first_group_date-week :
      (ms : List GroupGame)
      → fmt.group_matches ≡ ms
      → group_day ≡ true
      → leb on (first_group_date fmt + 6) ≡ first_week
  first_group_date-week [] e h = absurd (ground (arith, e, h))
  first_group_date-week (m ∷ ms) e h = ground (arith, e, first_of-week ms m.day)

  goes_on :
      (ms : List GroupGame)
      → contains on (values (last_days fmt.group_matches [])) ≡ false
      → ((g : String)
          → any (λ n. n.group == g && eqb n.day on) ms ≡ true
          → any (λ n. n.group == g && eqb n.day on) fmt.group_matches ≡ true)
      → all
          (λ m.
            not (eqb m.day on) || any (λ n. n.group == m.group && ltb on n.day) fmt.group_matches)
          ms
        ≡ true
  goes_on [] h k = refl
  goes_on (m ∷ ms) h k =
      let rest = goes_on ms h (λ g p. k g (ground (arith, p))) in
      elim (Bool-cases (eqb m.day on)) [
        | inr d ↦ ground (arith, d, rest)
        | inl d ↦
            let own = k m.group (ground (arith, d, eq_iff m.group m.group)) in
            ground (arith, d, rest, plays_later m.group on fmt.group_matches h own)
      ]

  concludes-groups_go_on : group_concludes fmt on ≡ false → group_day ≡ true → groups_go_on ≡ true
  unfolding group_concludes
  concludes-groups_go_on h g =
      goes_on fmt.group_matches
        (ground (arith, h, g, select-no_items (λ m. eqb m.day on) fmt.group_matches)) (λ k p. p)

module _ (c : Ceilings) (round : ℕ → ℕ) (big : String → Bool) (fmt : FormatData) (on : ℕ) where
  abbrev pub policy : DayPolicy
  policy = games_day_policy c round big fmt on

  pub games_day_policy-Phase :
      (policy.phase ≡ rest ↔ (group_day fmt on ≡ false) × (knockout_day fmt on ≡ false))
      × (policy.phase ≡ qf_final ↔ late_day fmt on ≡ true)
      × (policy.phase ≡ r32_r16 ↔ (knockout_day fmt on ≡ true) × (late_day fmt on ≡ false))
      × (policy.phase ≡ opening
          ↔ (group_day fmt on ≡ true) × (knockout_day fmt on ≡ false) × (first_week fmt on ≡ true))
      × (policy.phase ≡ group
          → (group_day fmt on ≡ true)
            × (knockout_day fmt on ≡ false)
            × (first_week fmt on ≡ false)
            × (groups_go_on fmt on ≡ true)
            × (length (group_games_on fmt on) < 6)
            × (policy.big_teams ≡ []))
      × (policy.ceiling_usd ≡ round (min (usd_of c policy.phase) c.max_usd))
  unfolding games_day_policy
  games_day_policy-Phase = ground (
    arith,
    select-no_items fmt on (λ m. eqb m.day on) fmt.group_matches,
    stages-no_items fmt on fmt.knockout,
    stages-late fmt on fmt.knockout,
    late-knockout fmt on fmt.knockout,
    first_group_date-week fmt on fmt.group_matches refl,
    concludes-groups_go_on fmt on,
    no_items_empty policy.big_teams,
  )

module _ (c : Ceilings) (round : ℕ → ℕ) (big : String → Bool) (fmt : FormatData)
    (monotone : (m n : ℕ) → m ≤ n → round m ≤ round n) where
  bounded : (on : ℕ) → (games_day_policy c round big fmt on).ceiling_usd ≤ round c.max_usd
  bounded on =
      let p = games_day_policy c round big fmt on in
      let usd = usd_of c p.phase in
      ground (
        arith,
        (games_day_policy-Phase c round big fmt on).5,
        monotone (min usd c.max_usd) c.max_usd (omega arith),
      )

  -- Where rounding keeps the order of amounts, the ceiling of a run's day is that of the day itself or
  -- of the day before, with that day's phase, is no less than either and no more than the greatest
  -- ceiling, rounded.
  pub day_policy-Ceiling :
      (on : ℕ)
      → let t = games_day_policy c round big fmt on in
        let p = day_policy c round big fmt on in
        let d = games_day_policy c round big fmt (on - 1) in
        (t.ceiling_usd ≤ p.ceiling_usd)
        × (d.ceiling_usd ≤ p.ceiling_usd)
        × (p.ceiling_usd ≤ round c.max_usd)
        × ((p.phase ≡ t.phase) × (p.ceiling_usd ≡ t.ceiling_usd)
            ⊎ (p.phase ≡ d.phase) × (p.ceiling_usd ≡ d.ceiling_usd))
  unfolding day_policy
  day_policy-Ceiling on = ground (arith, bounded on, bounded (on - 1))
