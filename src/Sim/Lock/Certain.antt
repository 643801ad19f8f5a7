-- ===== src/Sim/Lock/Certain.antt =====
-- engine/wolves/sim/lock.py: a lock is never taken back by the matches that remain.
use wolves_ai.Base.{
  ℕ, zero, suc, ◌+◌, ◌*◌, ◌<◌, ◌≤◌, ◌≡◌, ◌≢◌, Bool, true, false, List, [], ◌∷◌, eqb, if◌then◌else◌,
  take, drop, ◌||◌, contains, nat_eq, arith, refl, ap,
}
use wolves_ai.Sim.Lock.{
  Game, Points, points_for, add_game, play, locked, matchdays, locked_after, no_points,
}

-- The games of a team.
abbrev pub games : ℕ → List Game → ℕ
games o [] = 0
games o (g ∷ gs) = (if eqb o g.home then 1 else 0) + (if eqb o g.away then 1 else 0) + games o gs

-- n matchdays of two matches, in none of which a team plays twice.
abbrev pub Calendar : ℕ → List Game → Type 0
Calendar zero gs = gs ≡ []
Calendar (suc n) gs = ((o : ℕ) → games o (take 2 gs) ≤ 1) × Calendar n (drop 2 gs)

points_for_bound : (scored conceded : ℕ) → points_for scored conceded ≤ 3
unfolding points_for
points_for_bound scored conceded = ground arith

-- A team's points never fall, and rise by three a game at most.
play-bounds :
    (gs : List Game) (pts : Points) (o : ℕ)
    → (pts o ≤ play gs pts o) × (play gs pts o ≤ pts o + 3 * games o gs)
unfolding play
play-bounds [] pts o = ground arith
play-bounds (g ∷ gs) pts o = ground (
  arith,
  play-bounds gs (add_game g pts) o,
  points_for_bound g.home_goals g.away_goals,
  points_for_bound g.away_goals g.home_goals,
)

games-take-drop : (gs : List Game) (o : ℕ) → games o gs ≡ games o (take 2 gs) + games o (drop 2 gs)
games-take-drop [] o = refl
games-take-drop (g ∷ []) o = omega arith
games-take-drop (g ∷ h ∷ gs) o = ground arith

games-Calendar : (n : ℕ) (gs : List Game) (o : ℕ) → Calendar n gs → games o gs ≤ n
games-Calendar zero gs o c = rw (c) (omega arith)
games-Calendar (suc n) gs o (once, rest) =
    ground (arith, games-take-drop gs o, once o, games-Calendar n (drop 2 gs) o rest)

play-take-drop :
    (gs : List Game) (pts : Points) → play gs pts ≡ play (drop 2 gs) (play (take 2 gs) pts)
unfolding play
play-take-drop [] pts = refl
play-take-drop (g ∷ []) pts = refl
play-take-drop (g ∷ h ∷ gs) pts = refl

locked-ahead :
    (e : ℕ) (members : List ℕ) (remaining : ℕ) (pts : Points) (o : ℕ)
    → locked e members remaining pts ≡ true
    → contains o members ≡ true
    → o ≢ e
    → pts o + 3 * remaining < pts e
locked-ahead e [] remaining pts o l m ne = absurd (ground arith)
locked-ahead e (p ∷ ps) remaining pts o l m ne = ground (arith, locked-ahead e ps remaining pts o)

abbrev pub some_lock : List Bool → Bool
some_lock [] = false
some_lock (b ∷ bs) = b || some_lock bs

-- A lead that is locked is a lead after any matches that remain.
locked-Final :
    (e : ℕ) (members : List ℕ) (n : ℕ) (gs : List Game) (pts : Points) (o : ℕ)
    → Calendar n gs
    → locked e members n pts ≡ true
    → contains o members ≡ true
    → o ≢ e
    → play gs pts o < play gs pts e
locked-Final e members n gs pts o c l m ne =
    let ahead = locked-ahead e members n pts o l m ne in
    let few = games-Calendar n gs o c in
    ground (arith, ahead, few, play-bounds gs pts o, play-bounds gs pts e)

matchdays-Certain :
    (e : ℕ) (members : List ℕ) (n : ℕ) (gs : List Game) (pts : Points) (o : ℕ)
    → Calendar n gs
    → some_lock (matchdays e members n gs pts) ≡ true
    → contains o members ≡ true
    → o ≢ e
    → play gs pts o < play gs pts e
unfolding matchdays
matchdays-Certain e members zero gs pts o c l m ne = absurd (ground arith)
matchdays-Certain e members (suc zero) gs pts o c l m ne = absurd (ground arith)
matchdays-Certain e members (suc (suc n)) gs pts o (once, rest) l m ne =
    let pts' : Points = play (take 2 gs) pts in
    ground (
      arith,
      locked-Final e members (suc n) (drop 2 gs) pts' o rest,
      matchdays-Certain e members (suc n) (drop 2 gs) pts' o rest,
      ap (λ p. p o) (play-take-drop gs pts),
      ap (λ p. p e) (play-take-drop gs pts),
    )

-- Where the games of a group are three matchdays of two matches, in none of which a team plays twice,
-- a team that is locked after one of them ends the group with more points than any other member.
pub locked_after-Certain :
    (e : ℕ) (members : List ℕ) (gs : List Game) (o : ℕ)
    → Calendar 3 gs
    → some_lock (locked_after e members gs) ≡ true
    → contains o members ≡ true
    → o ≢ e
    → play gs no_points o < play gs no_points e
unfolding locked_after
locked_after-Certain e members gs o c l m ne = matchdays-Certain e members 3 gs no_points o c l m ne
