-- ===== src/Budget/Reserves.antt =====
-- engine/wolves/graph/reserves.py: the slices of the caps held back for the final forecast and for
-- its referee. The dollar settings enter as micros, `int(usd * 1_000_000)`.
use wolves_ai.Base.{ℕ, ◌+◌, ◌-◌, ◌/◌, ◌≤◌, ◌≡◌, min, leb, if◌then◌else◌, arith}
use wolves_ai.Budget.{Caps}

pub record ReserveSettings : Type 0 where
  pub forecast_reserve_micros : ℕ
  pub referee_reserve_micros : ℕ
  pub forecast_reserve_llm_calls : ℕ
  pub referee_reserve_llm_calls : ℕ

unfoldable pub split_reserve : ℕ → ℕ → ℕ → ℕ × ℕ
split_reserve forecast referee budget =
    let total = min (forecast + referee) budget in
    let effective_referee = min referee total in (total - effective_referee, effective_referee)

unfoldable pub finalisation_reserves_micros : ReserveSettings → Caps → ℕ × ℕ
unfolding split_reserve
finalisation_reserves_micros s caps =
    if leb caps.max_cost_micros 0
    then (s.forecast_reserve_micros, s.referee_reserve_micros)
    else split_reserve s.forecast_reserve_micros s.referee_reserve_micros (caps.max_cost_micros / 2)

unfoldable pub finalisation_reserve_calls : ReserveSettings → Caps → ℕ × ℕ
unfolding split_reserve
finalisation_reserve_calls s caps =
    split_reserve s.forecast_reserve_llm_calls s.referee_reserve_llm_calls (caps.max_llm_calls / 2)

-- The two slices together are the smaller of what was asked and the budget; each is at most what
-- was asked for it; and the forecast has less than it asked for only if the budget is short, the
-- referee only if the budget does not cover even the referee alone.
pub split_reserve_lem :
    (f r b : ℕ)
    → let (f', r') = split_reserve f r b in (f' + r' ≡ min (f + r) b) × (f' ≤ f) × (r' ≡ min r b)
unfolding split_reserve
split_reserve_lem f r b = omega arith
