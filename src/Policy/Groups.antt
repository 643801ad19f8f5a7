-- ===== src/Policy/Groups.antt =====
-- engine/wolves/run_policy.py: a group that a day does not end has a later match.
use wolves_ai.Base.{
  ℕ, ◌≡◌, ◌≤◌, ◌<◌, ◌⊎◌, inl, inr, refl, ap, ◌∙◌, true, false, ◌&&◌, String, Option, none, some,
  List, [], ◌∷◌, any, contains, max, eqb, ltb, if◌then◌else◌, arith, string_eq, nat_eq, ◌==◌,
  eq_iff, Bool-cases,
}
use wolves_ai.Base.Dict.{Dict, lookup, insert, values, lookup-insert}
use wolves_ai.Policy.{GroupGame, last_days}

abbrev or_zero : Option ℕ → ℕ
or_zero none = 0
or_zero (some n) = n

-- The last day of the group g among these, and of what is known.
abbrev top : String → List GroupGame → Option ℕ → Option ℕ
top g [] o = o
top g (m ∷ ms) o = top g ms (if m.group == g then some (max (or_zero o) m.day) else o)

lookup-insert_day :
    (g : String) (m : GroupGame) (d : Dict String ℕ)
    → lookup g (insert m.group (max (or_zero (lookup m.group d)) m.day) d)
      ≡ (if m.group == g then some (max (or_zero (lookup g d)) m.day) else lookup g d)
lookup-insert_day g m d = elim (Bool-cases (m.group == g)) [
  | inr e ↦ ground (arith, e, lookup-insert m.group g (max (or_zero (lookup m.group d)) m.day) d)
  | inl e ↦
      let same = ap (λ k. lookup k d) ((eq_iff m.group g).0 e) in
      ground (arith, e, same, lookup-insert m.group g (max (or_zero (lookup m.group d)) m.day) d)
]

lookup-last_days :
    (g : String) (ms : List GroupGame) (d : Dict String ℕ)
    → lookup g (last_days ms d) ≡ top g ms (lookup g d)
lookup-last_days g [] d = refl
lookup-last_days g (m ∷ ms) d = lookup-last_days g ms _ ∙ ap (top g ms) (lookup-insert_day g m d)

-- A match of the group on the day, or a known day that is no earlier, bounds the last day from below.
top-reaches :
    (g : String) (on : ℕ) (ms : List GroupGame) (o : Option ℕ)
    → (any (λ m. m.group == g && eqb m.day on) ms ≡ true) ⊎ ((k : ℕ) × (o ≡ some k) × (on ≤ k))
    → (t : ℕ) × (top g ms o ≡ some t) × (on ≤ t)
top-reaches g on [] o (inl h) = absurd (ground (arith, h))
top-reaches g on [] o (inr k) = k
top-reaches g on (m ∷ ms) o h = elim (Bool-cases (m.group == g)) [
  | inl e ↦ top-reaches g on ms _ (here e h)
  | inr e ↦ top-reaches g on ms _ (there e h)
]
  where
    here :
        (m.group == g) ≡ true
        → (any (λ n. n.group == g && eqb n.day on) (m ∷ ms) ≡ true)
          ⊎ ((k : ℕ) × (o ≡ some k) × (on ≤ k))
        → (any (λ n. n.group == g && eqb n.day on) ms ≡ true)
          ⊎ ((k : ℕ) × ((if m.group == g then some (max (or_zero o) m.day) else o) ≡ some k)
              × (on ≤ k))
    here e (inr (k, q, l)) = inr (max (or_zero o) m.day, ground (arith, e), ground (arith, q, l))
    here e (inl a) = elim (Bool-cases (eqb m.day on)) [
      | inl d ↦ inr (max (or_zero o) m.day, ground (arith, e), ground (arith, d))
      | inr d ↦ inl (ground (arith, a, e, d))
    ]

    there :
        (m.group == g) ≡ false
        → (any (λ n. n.group == g && eqb n.day on) (m ∷ ms) ≡ true)
          ⊎ ((k : ℕ) × (o ≡ some k) × (on ≤ k))
        → (any (λ n. n.group == g && eqb n.day on) ms ≡ true)
          ⊎ ((k : ℕ) × ((if m.group == g then some (max (or_zero o) m.day) else o) ≡ some k)
              × (on ≤ k))
    there e (inl a) = inl (ground (arith, a, e))
    there e (inr (k, q, l)) = inr (k, ground (arith, e, q), l)

-- A last day after the day is that of a match after it, or was known.
top-later :
    (g : String) (on t : ℕ) (ms : List GroupGame) (o : Option ℕ)
    → top g ms o ≡ some t
    → on < t
    → (any (λ m. m.group == g && ltb on m.day) ms ≡ true) ⊎ (on < or_zero o)
top-later g on t [] o e l = inr (ground (arith, e, l))
top-later g on t (m ∷ ms) o e l =
    ground
      (arith, l, e, top-later g on t ms (if m.group == g then some (max (or_zero o) m.day) else o))

contains-lookup :
    (g : String) (t : ℕ) (d : Dict String ℕ) → lookup g d ≡ some t → contains t (values d) ≡ true
contains-lookup g t [] e = absurd (ground (arith, e))
contains-lookup g t ((k, v) ∷ d) e = ground (arith, e, contains-lookup g t d)

-- If the day is the last one of no group, a group that plays on it has a later match.
pub plays_later :
    (g : String) (on : ℕ) (ms : List GroupGame)
    → contains on (values (last_days ms [])) ≡ false
    → any (λ m. m.group == g && eqb m.day on) ms ≡ true
    → any (λ m. m.group == g && ltb on m.day) ms ≡ true
plays_later g on ms h p =
    let (t, e, l) = top-reaches g on ms none (inl p) in
    let found = contains-lookup g t (last_days ms []) (lookup-last_days g ms [] ∙ e) in
    elim (Bool-cases (eqb t on)) [
      | inl q ↦ absurd (ground (arith, h, found, q))
      | inr q ↦ elim (top-later g on t ms none e (ground (arith, l, q))) [
        | inl a ↦ a
        | inr a ↦ absurd (omega (arith, a))
      ]
    ]
