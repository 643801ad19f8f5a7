-- ===== src/Sim/Results.antt =====
-- engine/wolves/sim/overlay.py: what an entry of the played results says, and of which fixture.
use wolves_ai.Base.{
  ℕ, ◌<◌, ◌≡◌, ◌⊎◌, inl, inr, Bool, true, false, String, Option, none, some, List, [], ◌∷◌, nat_eq,
  string_eq, eq_iff, sym, ap, ◌∙◌, ◌==◌, if◌then◌else◌, select, arith, Option-cases, Bool-cases,
}
use wolves_ai.Base.Dict.{Dict, lookup, insert, lookup-insert}
use wolves_ai.Base.Text.{codes, lower}
use wolves_ai.Sim.Overlay.{
  city_fits, alias_in, city_aliases, home_side, away_side, Fixture, GroupMatch, KnockoutMatch,
  Resolution, PlayedResult, find_pair, group_match, only_or, knockout_match, from_group,
  from_knockout, resolve_ids, resolve_fixture, winner_from_fixture, result_of, played,
  results_from_fixtures,
}

-- x is one of these.
abbrev pub In : {A : Type 0} → A → List A → Type 0
In x [] = ⊥
In x (y ∷ ys) = (x ≡ y) ⊎ In x ys

-- The match is of h at home to a.
abbrev pub Hosts : String → String → GroupMatch → Type 0
Hosts h a m = (m.home_id ≡ h) × (m.away_id ≡ a)

find_pair-Hosts :
    (h a : String) (ms : List GroupMatch) (m : GroupMatch)
    → find_pair h a ms ≡ some m
    → Hosts h a m × In m ms
find_pair-Hosts h a [] m e = absurd (ground (arith, e))
find_pair-Hosts h a (n ∷ ms) m e = elim (Option-cases (find_pair h a ms)) [
  | inr (k, q) ↦ ground (arith, e, q, find_pair-Hosts h a ms k q)
  | inl q ↦ ground (arith, e, q, eq_iff n.home_id h, eq_iff n.away_id a)
]

group_match-Hosts :
    (h a : String) (ms : List GroupMatch) (m : GroupMatch)
    → group_match h a ms ≡ some m
    → (Hosts h a m ⊎ Hosts a h m) × In m ms
unfolding group_match
group_match-Hosts h a ms m e = elim (Option-cases (find_pair h a ms)) [
  | inr (k, q) ↦
      let (hosts, is_in) = find_pair-Hosts h a ms m (ground (arith, e, q)) in (inl hosts, is_in)
  | inl q ↦
      let (hosts, is_in) = find_pair-Hosts a h ms m (ground (arith, e, q)) in (inr hosts, is_in)
]

In-select : {A : Type 0} (p : A → Bool) (x : A) (xs : List A) → In x (select p xs) → In x xs
In-select p x [] h = h
In-select p x (y ∷ ys) h = elim (Bool-cases (p y)) [
  | inl t ↦ ground (arith, t, h, In-select p x ys)
  | inr t ↦ ground (arith, t, h, In-select p x ys)
]

only_or-In :
    {A : Type 0} (xs : List A) (o : Option A) (m : A)
    → only_or xs o ≡ some m
    → In m xs ⊎ (o ≡ some m)
only_or-In [] o m e = inr e
only_or-In (x ∷ []) o m e = ground (arith, e)
only_or-In (x ∷ y ∷ xs) o m e = inr e

module _ (team_id : String → Option String) (same_kickoff same_day : String → ℕ → Bool)
    (groups : List GroupMatch) (knockout : List KnockoutMatch) where
  knockout_match-In :
      (f : Fixture) (m : KnockoutMatch)
      → knockout_match team_id same_kickoff same_day knockout f ≡ some m
      → In m knockout
  unfolding knockout_match
  knockout_match-In f m e =
      elim (only_or-In (select (λ k. same_kickoff k.date f.kickoff) knockout) _ m e) [
        | inl i ↦ In-select (λ k. same_kickoff k.date f.kickoff) m knockout i
        | inr e' ↦ elim (only_or-In on_day _ m e') [
          | inl i ↦ In-select (λ k. same_day k.date f.kickoff) m knockout i
          | inr e'' ↦ in_city (f.city == "") e''
        ]
      ]
    where
      on_day : List KnockoutMatch
      on_day = select (λ k. same_day k.date f.kickoff) knockout

      fits : KnockoutMatch → Bool
      fits = city_fits (alias_in city_aliases (lower (codes f.city)))

      in_city :
          (b : Bool)
          → (if b then none else only_or (select fits on_day) none) ≡ some m
          → In m knockout
      in_city true h = absurd (ground (arith, h))
      in_city false h = elim (only_or-In (select fits on_day) none m h) [
        | inl i ↦ In-select (λ k. same_day k.date f.kickoff) m knockout (In-select fits m on_day i)
        | inr h' ↦ absurd (ground (arith, h'))
      ]

  -- The side that has won scored more goals, or else is the one that the fixture names.
  abbrev pub Won : Fixture → String → String → ℕ → ℕ → String → Type 0
  Won f home away x y w =
      ((w ≡ home) × ((y < x) ⊎ ((x ≡ y) × (f.winner ≡ some home_side))))
      ⊎ ((w ≡ away) × ((x < y) ⊎ ((x ≡ y) × (f.winner ≡ some away_side))))

  -- An entry for a match of the group stage between the two.
  pub record OfGroup (f : Fixture) (home away : String) (r : PlayedResult) : Type 0 where
    pub match : GroupMatch
    pub is_listed : In match groups
    pub of_match : r.match ≡ match.match
    pub no_winner : r.winner ≡ none
    pub in_order :
        Hosts home away match × (r.home_goals ≡ f.home.goals) × (r.away_goals ≡ f.away.goals)
        ⊎ Hosts away home match × (r.home_goals ≡ f.away.goals) × (r.away_goals ≡ f.home.goals)

  -- An entry for a knockout match.
  pub record OfKnockout (f : Fixture) (home away : String) (x y : ℕ) (r : PlayedResult)
      : Type 0 where
    pub match : KnockoutMatch
    pub is_listed : In match knockout
    pub of_match : r.match ≡ match.match
    pub home_goals : r.home_goals ≡ some x
    pub away_goals : r.away_goals ≡ some y
    pub winner : String
    pub is_winner : r.winner ≡ some winner
    pub won : Won f home away x y winner

  -- The fixture is over and says the result.
  pub record Says (f : Fixture) (r : PlayedResult) : Type 0 where
    pub home : String
    pub away : String
    pub is_home : team_id f.home_name ≡ some home
    pub is_away : team_id f.away_name ≡ some away
    pub is_over : f.finished ≡ true
    pub home_goals : ℕ
    pub away_goals : ℕ
    pub has_home_goals : f.home.goals ≡ some home_goals
    pub has_away_goals : f.away.goals ≡ some away_goals
    pub told : OfGroup f home away r ⊎ OfKnockout f home away home_goals away_goals r

  abbrev pub Told : List Fixture → PlayedResult → Type 0
  Told [] r = ⊥
  Told (f ∷ fs) r = Says f r ⊎ Told fs r

  abbrev winner : Fixture → String → String → Option String
  winner = winner_from_fixture team_id same_kickoff same_day

  winner-Won :
      (f : Fixture) (home away w : String) (x y : ℕ)
      → f.home.goals ≡ some x
      → f.away.goals ≡ some y
      → winner f home away ≡ some w
      → Won f home away x y w
  unfolding winner_from_fixture
  winner-Won f home away w x y p q e = ground (arith, p, q, e)

  resolve_ids-cases :
      (f : Fixture) (home away : String) (s : Resolution)
      → resolve_ids team_id same_kickoff same_day groups knockout f home away ≡ some s
      → ((g : GroupMatch) × (group_match home away groups ≡ some g)
          × (s ≡ from_group team_id same_kickoff same_day home f g))
        ⊎ ((m : KnockoutMatch) × (knockout_match team_id same_kickoff same_day knockout f ≡ some m)
            × (s ≡ from_knockout team_id same_kickoff same_day home away f m))
  resolve_ids-cases f home away s e = elim (Option-cases (group_match home away groups)) [
    | inr (g, q) ↦ inl (g, q, ground (arith, e, q))
    | inl q ↦ elim (Option-cases (knockout_match team_id same_kickoff same_day knockout f)) [
      | inr (m, k) ↦ inr (m, k, ground (arith, e, q, k))
      | inl k ↦ absurd (ground (arith, e, q, k))
    ]
  ]

  from_group-OfGroup :
      (f : Fixture) (home away : String) (g : GroupMatch) (r : PlayedResult)
      → group_match home away groups ≡ some g
      → result_of team_id same_kickoff same_day f
          (from_group team_id same_kickoff same_day home f g)
        ≡ some r
      → OfGroup f home away r
  from_group-OfGroup f home away g r q e =
      let (hosts, is_in) = group_match-Hosts home away groups g q in
      record {
        match = g;
        is_listed = is_in;
        of_match = ground (arith, e);
        no_winner = ground (arith, e);
        in_order = ground (arith, e, hosts, eq_iff g.home_id home);
      }

  from_knockout-OfKnockout :
      (f : Fixture) (home away : String) (m : KnockoutMatch) (x y : ℕ) (r : PlayedResult)
      → f.home.goals ≡ some x
      → f.away.goals ≡ some y
      → knockout_match team_id same_kickoff same_day knockout f ≡ some m
      → result_of team_id same_kickoff same_day f
          (from_knockout team_id same_kickoff same_day home away f m)
        ≡ some r
      → OfKnockout f home away x y r
  from_knockout-OfKnockout f home away m x y r p q k e = elim (Option-cases (winner f home away)) [
    | inl n ↦ absurd (ground (arith, e, n))
    | inr (w, n) ↦ record {
      match = m;
      is_listed = knockout_match-In f m k;
      of_match = ground (arith, e, n);
      home_goals = ground (arith, e, n, p);
      away_goals = ground (arith, e, n, q);
      winner = w;
      is_winner = ground (arith, e, n);
      won = winner-Won f home away w x y p q n;
    }
  ]

  abbrev plays : Fixture → Option PlayedResult
  plays = played team_id same_kickoff same_day groups knockout

  abbrev resolves : Fixture → Option Resolution
  resolves = resolve_fixture team_id same_kickoff same_day groups knockout

  -- What a fixture that gives an entry has gone through.
  played-steps :
      (f : Fixture) (r : PlayedResult)
      → plays f ≡ some r
      → (f.finished ≡ true)
        × (x : ℕ) × (f.home.goals ≡ some x)
        × (y : ℕ) × (f.away.goals ≡ some y)
        × (s : Resolution) × (resolves f ≡ some s)
        × (result_of team_id same_kickoff same_day f s ≡ some r)
  unfolding played
  played-steps f r e = elim (Option-cases f.home.goals) [
    | inl p ↦ absurd (ground (arith, e, p))
    | inr (x, p) ↦ elim (Option-cases f.away.goals) [
      | inl q ↦ absurd (ground (arith, e, q))
      | inr (y, q) ↦ elim (Option-cases (resolves f)) [
        | inl k ↦ absurd (ground (arith, e, k))
        | inr (s, k) ↦ (ground (arith, e), x, p, y, q, s, k, ground (arith, e, p, q, k))
      ]
    ]
  ]

  resolves-ids :
      (f : Fixture) (s : Resolution)
      → resolves f ≡ some s
      → (home away : String) × (team_id f.home_name ≡ some home)
        × (team_id f.away_name ≡ some away)
        × (resolve_ids team_id same_kickoff same_day groups knockout f home away ≡ some s)
  unfolding resolve_fixture
  resolves-ids f s e = elim (Option-cases (team_id f.home_name)) [
    | inl p ↦ absurd (ground (arith, e, p))
    | inr (home, p) ↦ elim (Option-cases (team_id f.away_name)) [
      | inl q ↦ absurd (ground (arith, e, p, q))
      | inr (away, q) ↦ (home, away, p, q, ground (arith, e, p, q))
    ]
  ]

  played-Says : (f : Fixture) (r : PlayedResult) → plays f ≡ some r → Says f r
  played-Says f r e =
      let (over, x, p, y, q, s, k, of_s) = played-steps f r e in
      let (home, away, h, a, ids) = resolves-ids f s k in
      let result = result_of team_id same_kickoff same_day f in
      record {
        home = home;
        away = away;
        is_home = h;
        is_away = a;
        is_over = over;
        home_goals = x;
        away_goals = y;
        has_home_goals = p;
        has_away_goals = q;
        told = elim (resolve_ids-cases f home away s ids) [
          | inl (g, m, t) ↦ inl (from_group-OfGroup f home away g r m (ap result (sym t) ∙ of_s))
          | inr (n, m, t) ↦
              inr (from_knockout-OfKnockout f home away n x y r p q m (ap result (sym t) ∙ of_s))
        ];
      }

  abbrev after : Fixture → Dict ℕ PlayedResult → Dict ℕ PlayedResult
  after f d = elim (plays f) [ none ↦ d | some r ↦ insert r.match r d ]

  after_facts :
      (f : Fixture) (d : Dict ℕ PlayedResult) (k : ℕ) (r : PlayedResult)
      → lookup k (after f d) ≡ some r
      → (r.match ≡ k) × (plays f ≡ some r) ⊎ (lookup k d ≡ some r)
  after_facts f d k r e = elim (Option-cases (plays f)) [
    | inl e' ↦ inr (ground arith)
    | inr (q, e') ↦ ground (arith, lookup-insert q.match k q d)
  ]

  -- Every entry under k of the results is for match k and says what a finished fixture of the list
  -- with known teams and goals says, or was there before. It is for a group match that is listed
  -- between the two teams: then its goals are those of the fixture, swapped if the list has the teams
  -- the other way round, and it names no winner. Or it is for a listed knockout match: then its goals
  -- are those of the fixture, and its winner is the team with more goals, or in a draw the one that
  -- the fixture names.
  pub results_from_fixtures-Told :
      (fs : List Fixture) (d : Dict ℕ PlayedResult) (k : ℕ) (r : PlayedResult)
      → lookup k (results_from_fixtures team_id same_kickoff same_day groups knockout fs d) ≡ some r
      → (r.match ≡ k) × Told fs r ⊎ (lookup k d ≡ some r)
  unfolding results_from_fixtures
  results_from_fixtures-Told [] d k r e = inr e
  results_from_fixtures-Told (f ∷ fs) d k r e =
      elim (results_from_fixtures-Told fs (after f d) k r e) [
        | inl (m, told) ↦ inl (m, inr told)
        | inr e' ↦ elim (after_facts f d k r e') [
          | inl (m, e'') ↦ inl (m, inl (played-Says f r e''))
          | inr old ↦ inr old
        ]
      ]
