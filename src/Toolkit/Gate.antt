-- ===== src/Toolkit/Gate.antt =====
-- engine/wolves/toolkit/_budget_gate.py: the check-and-increment that sibling tool calls go through.
use wolves_ai.Base.{
  ℕ, ◌+◌, ◌-◌, ◌≤◌, ◌<◌, ◌≡◌, Bool, true, false, not, ◌&&◌, List, [], ◌∷◌, arith, max, ltb, leb,
  if◌then◌else◌, length, ◌⊎◌,
}

pub record BudgetGate : Type 0 where
  pub budget : ℕ
  pub used : ℕ

unfoldable pub fresh : ℕ → BudgetGate
fresh budget = record { budget = budget; used = 0 }

unfoldable pub remaining : BudgetGate → ℕ
remaining g = if leb g.budget 0 then 1 else max 0 (g.budget - g.used)

unfoldable pub exhausted : BudgetGate → Bool
exhausted g = ltb 0 g.budget && leb g.budget g.used

unfoldable pub try_reserve : ℕ → BudgetGate → Bool × BudgetGate
try_reserve keep_free g =
    if ltb 0 g.budget && leb g.budget (g.used + keep_free)
    then (false, g)
    else (true, record g { used = g.used + 1 })

-- The calls of sibling tools in some order, each with the slots that it keeps free, and how many
-- of them were granted.
unfoldable pub reserve_all : List ℕ → BudgetGate → ℕ × BudgetGate
reserve_all [] g = (0, g)
reserve_all (k ∷ ks) g =
    let (granted, g') = try_reserve k g in
    let (n, g'') = reserve_all ks g' in ((if granted then n + 1 else n), g'')

-- Every order of sibling calls: the gate keeps its budget and counts exactly the granted calls; a
-- gate with no budget (0) grants every call, and a gate with a budget never counts more than that
-- budget, or than it had counted before where that was already more.
pub reserve_all_bounded :
    (ks : List ℕ) (g : BudgetGate)
    → let (n, g') = reserve_all ks g in
      (g'.used ≡ g.used + n)
      × (g'.budget ≡ g.budget)
      × (((g.budget ≡ 0) × (n ≡ length ks)) ⊎ ((0 < g.budget) × (g'.used ≤ max g.used g.budget)))
unfolding reserve_all try_reserve
reserve_all_bounded [] g = ground arith
reserve_all_bounded (k ∷ ks) g =
    ground
      (arith, reserve_all_bounded ks g, reserve_all_bounded ks (record g { used = g.used + 1 }))

-- A gate with a budget is exhausted exactly when no plain call is granted, and exactly when nothing
-- remains; and a granted call leaves at least the slots that it was to keep free.
pub try_reserve_lem :
    (k : ℕ) (g : BudgetGate)
    → (exhausted g ≡ not (try_reserve 0 g).0)
      × (exhausted g ≡ leb (remaining g) 0)
      × ((try_reserve k g).0 ≡ true → 0 < g.budget → k ≤ g.budget - (try_reserve k g).1.used)
unfolding exhausted try_reserve remaining
try_reserve_lem k g = ground arith
