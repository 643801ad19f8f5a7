-- ===== src/Toolkit/Tests.antt =====
-- The toolkit's theorems at fixed inputs.
use wolves_ai.Base.{
  ℕ, max, ◌⊎◌, ◌+◌, ◌≤◌, ◌<◌, ◌≡◌, refl, List, [], ◌∷◌, false, none, some, arith, eqb,
  if◌then◌else◌,
}
use wolves_ai.Base.Text.{codes}
use wolves_ai.Toolkit.Gate.{BudgetGate, try_reserve, reserve_all, reserve_all_bounded}
use wolves_ai.Toolkit.Truncation.{truncate_result}
use wolves_ai.Toolkit.Retry.{Attempt, response, transport_error, is_final}

abbrev gate : BudgetGate
gate = record { budget = 3; used = 0 }

reserve_all_runs : reserve_all (1 ∷ 1 ∷ 1 ∷ 0 ∷ 0 ∷ []) gate ≡ (3, record { budget = 3; used = 3 })
unfolding reserve_all try_reserve
reserve_all_runs = refl

reserve_all_bounded_example :
    let (n, g) = reserve_all (1 ∷ 1 ∷ 1 ∷ 0 ∷ 0 ∷ []) gate in
    (g.used ≡ 0 + n)
    × (g.budget ≡ 3)
    × (((◌≡◌ {A = ℕ} 3 0) × (n ≡ 5)) ⊎ ((0 < 3) × (g.used ≤ max 0 3)))
reserve_all_bounded_example = reserve_all_bounded (1 ∷ 1 ∷ 1 ∷ 0 ∷ 0 ∷ []) gate

abbrev long_text : List ℕ
long_text = codes "abcdefghijklmnopqrstuvwxyzABCDEFGHIJKLMNOPQRSTUVWXYZ"

truncate_runs : truncate_result long_text 34 ≡ codes "abcdefg\n\n[... truncated ...]\n\nWXYZ"
unfolding truncate_result
truncate_runs = refl

-- A refused connection, a rate limit with a hint above the longest wait, then an answer.
abbrev flaky : ℕ → Attempt
flaky n =
    if eqb n 0
    then transport_error
    else if eqb n 1
    then response 429 (some 60000)
    else response 404 none

abbrev down : ℕ → Attempt
down n = response 503 none

flaky_before : (i : ℕ) → i < 2 → is_final (flaky i) ≡ false
unfolding is_final
flaky_before i h = ground arith
