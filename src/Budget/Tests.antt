-- ===== src/Budget/Tests.antt =====
-- The budget's theorems at fixed inputs.
use wolves_ai.Base.{◌+◌, ◌≤◌, ◌≡◌, refl, List, [], ◌∷◌, arith}
use wolves_ai.Budget.{
  Caps, charge_llm, charge_search, add_cost, release_reservation, call_estimate_micros,
  can_fund_followup_call, fresh, hard_ceiling,
}
use wolves_ai.Budget.Calls.{Call, charge, settle, release, search, run, sum}
use wolves_ai.Budget.Ceiling.{start, plain, admits, run_within_limit, can_fund-eq-admits}
use wolves_ai.Budget.Counts.{InCaps, run-InCaps}

abbrev caps : Caps
caps = record {
  max_llm_calls = 3;
  max_search_calls = 1;
  max_fetch_calls = 1;
  max_data_fetches = 1;
  max_quant_executions = 1;
  max_cost_micros = 200000;
  headroom_micros = 40000;
}

-- Three siblings ask at once; the second holds back too much, and the third overruns.
abbrev wave : List Call
wave =
    charge (plain 0 0 90000)
    ∷ charge (plain 70000 0 60000)
    ∷ charge (plain 0 0 80000)
    ∷ settle 0 95000
    ∷ search
    ∷ search
    ∷ release 0
    ∷ []

wave_ends :
    let s = run (start caps) wave in
    (s.runtime.budget.cost_micros ≡ 95000)
    × (s.runtime.in_flight_micros ≡ 0)
    × (s.overrun ≡ 15000)
    × (s.taken.searches ≡ 1)
    × (s.taken.llm ≡ 2)
unfolding run charge_llm charge_search add_cost release_reservation call_estimate_micros
wave_ends = (refl, refl, refl, refl, refl)

run_within_limit_example :
    let s = run (start caps) wave in
    (s.spent + sum s.outstanding ≤ 200000 + s.overrun)
    × (s.runtime.budget.cost_micros ≡ s.spent)
    × (s.runtime.in_flight_micros ≡ sum s.outstanding)
unfolding hard_ceiling
run_within_limit_example = run_within_limit caps 200000 wave (omega arith) (omega arith)

run-InCaps_example : InCaps caps (run (start caps) wave).taken
run-InCaps_example = run-InCaps caps wave

can_fund-eq-admits_example :
    can_fund_followup_call 70000 0 60000 (fresh caps)
    ≡ admits
        (charge_llm
          (record (plain 70000 0 60000) { reservation_estimate_micros = 55000 })
          (fresh caps)).0
can_fund-eq-admits_example = can_fund-eq-admits (fresh caps) 70000 0 60000 55000 refl (omega arith)
