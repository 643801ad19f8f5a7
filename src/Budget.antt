-- ===== src/Budget.antt =====
-- engine/wolves/observability/runtime.py and budget.py: the caps of a run, what it has consumed,
-- and the one gatekeeper that admits external actions. Micros and counts are natural numbers;
-- where the code subtracts and may go below zero, it only tests the difference for being positive
-- or at least as large as a positive number, and `-` on ℕ gives the same answers.
pub mod Calls
pub mod Ceiling
pub mod Counts
pub mod Reserves
mod Tests
use wolves_ai.Base.{
  ℕ, ◌+◌, ◌-◌, ◌/◌, max, Bool, true, false, not, ◌&&◌, ◌||◌, ltb, leb, eqb, if◌then◌else◌,
}

pub record Caps : Type 0 where
  pub max_llm_calls : ℕ
  pub max_search_calls : ℕ
  pub max_fetch_calls : ℕ
  pub max_data_fetches : ℕ
  pub max_quant_executions : ℕ
  -- 0 disables the dollar ceiling
  pub max_cost_micros : ℕ
  pub headroom_micros : ℕ

pub record BudgetState : Type 0 where
  pub iterations : ℕ
  pub llm_calls : ℕ
  pub search_calls : ℕ
  pub fetch_calls : ℕ
  pub data_fetches : ℕ
  pub quant_executions : ℕ
  pub cost_micros : ℕ

-- `ObservedRuntime`, less its logs; `observed` says whether the tracer has an active observation.
pub record Runtime : Type 0 where
  pub caps : Caps
  pub budget : BudgetState
  pub observed : Bool
  pub in_flight_micros : ℕ
  pub settled_cost_micros : ℕ
  pub settled_calls : ℕ

-- `CapExceeded`, by the cap that its message names, and the `RuntimeError` of an action that no
-- observation covers.
pub data Refusal : Type 0 where
  no_observation : Refusal
  llm_calls_spent cost_spent search_spent fetch_spent data_fetch_spent quant_spent : Refusal

pub data Result {ℓ} (A : Type ℓ) : Type ℓ where
  ok : A → Result A
  err : Refusal → Result A

abbrev pub fresh_budget : BudgetState
fresh_budget = record {
  iterations = 0;
  llm_calls = 0;
  search_calls = 0;
  fetch_calls = 0;
  data_fetches = 0;
  quant_executions = 0;
  cost_micros = 0;
}

-- `ObservedRuntime.__init__`
abbrev pub fresh : Caps → Runtime
fresh caps = record {
  caps = caps;
  budget = fresh_budget;
  observed = true;
  in_flight_micros = 0;
  settled_cost_micros = 0;
  settled_calls = 0;
}

abbrev pub default_call_estimate_micros : ℕ
default_call_estimate_micros = 50000

unfoldable pub call_estimate_micros : Runtime → ℕ
call_estimate_micros rt =
    if eqb rt.settled_calls 0
    then default_call_estimate_micros
    else rt.settled_cost_micros / rt.settled_calls

pub record ChargeArgs : Type 0 where
  pub hold_back_micros : ℕ
  pub hold_back_calls : ℕ
  pub reservation_floor_micros : ℕ
  pub reservation_estimate_micros : ℕ
  pub use_headroom : Bool

unfoldable pub hard_ceiling : Caps → ChargeArgs → ℕ
hard_ceiling caps a = caps.max_cost_micros + (if a.use_headroom then caps.headroom_micros else 0)

unfoldable pub reservation : Runtime → ChargeArgs → ℕ
reservation rt a =
    max (call_estimate_micros rt) (max a.reservation_floor_micros a.reservation_estimate_micros)

unfoldable pub available_micros : Runtime → ChargeArgs → ℕ
unfolding hard_ceiling
available_micros rt a =
    hard_ceiling rt.caps a - a.hold_back_micros - rt.budget.cost_micros - rt.in_flight_micros

abbrev admit_call : Runtime → ℕ → Runtime
admit_call rt r = record rt {
  budget = record rt.budget { llm_calls = rt.budget.llm_calls + 1 };
  in_flight_micros = rt.in_flight_micros + r;
}

unfoldable pub charge_llm : ChargeArgs → Runtime → Result ℕ × Runtime
unfolding reservation available_micros
charge_llm a rt =
    if not rt.observed
    then (err no_observation, rt)
    else if leb (rt.caps.max_llm_calls - a.hold_back_calls) rt.budget.llm_calls
    then (err llm_calls_spent, rt)
    else if not (eqb rt.caps.max_cost_micros 0)
        && (leb (available_micros rt a) 0 || ltb (available_micros rt a) (reservation rt a))
    then (err cost_spent, rt)
    else (ok (reservation rt a), admit_call rt (reservation rt a))

unfoldable pub can_fund_followup_call : ℕ → ℕ → ℕ → Runtime → Bool
can_fund_followup_call hold_back_micros hold_back_calls floor_micros rt =
    if leb (rt.caps.max_llm_calls - hold_back_calls) rt.budget.llm_calls
    then false
    else if eqb rt.caps.max_cost_micros 0
    then true
    else let available =
        rt.caps.max_cost_micros - hold_back_micros - rt.budget.cost_micros - rt.in_flight_micros in
      ltb 0 available && leb (max (call_estimate_micros rt) floor_micros) available

unfoldable pub charge_search : Runtime → Result (Unit {0}) × Runtime
charge_search rt =
    if not rt.observed
    then (err no_observation, rt)
    else if leb rt.caps.max_search_calls rt.budget.search_calls
    then (err search_spent, rt)
    else (
      ok tt,
      record rt { budget = record rt.budget { search_calls = rt.budget.search_calls + 1 } },
    )

unfoldable pub charge_fetch : Runtime → Result (Unit {0}) × Runtime
charge_fetch rt =
    if not rt.observed
    then (err no_observation, rt)
    else if leb rt.caps.max_fetch_calls rt.budget.fetch_calls
    then (err fetch_spent, rt)
    else (
      ok tt,
      record rt { budget = record rt.budget { fetch_calls = rt.budget.fetch_calls + 1 } },
    )

unfoldable pub charge_data_fetch : Runtime → Result (Unit {0}) × Runtime
charge_data_fetch rt =
    if not rt.observed
    then (err no_observation, rt)
    else if leb rt.caps.max_data_fetches rt.budget.data_fetches
    then (err data_fetch_spent, rt)
    else (
      ok tt,
      record rt { budget = record rt.budget { data_fetches = rt.budget.data_fetches + 1 } },
    )

unfoldable pub charge_quant : Runtime → Result (Unit {0}) × Runtime
charge_quant rt =
    if not rt.observed
    then (err no_observation, rt)
    else if leb rt.caps.max_quant_executions rt.budget.quant_executions
    then (err quant_spent, rt)
    else (
      ok tt,
      record rt { budget = record rt.budget { quant_executions = rt.budget.quant_executions + 1 } },
    )

unfoldable pub release_reservation : ℕ → Runtime → Runtime
release_reservation r rt = record rt { in_flight_micros = rt.in_flight_micros - r }

unfoldable pub add_cost : ℕ → ℕ → Runtime → Runtime
unfolding release_reservation
add_cost micros r rt =
    let rt' = release_reservation r rt in
    record rt' {
      budget = record rt'.budget { cost_micros = rt'.budget.cost_micros + micros };
      settled_cost_micros = rt'.settled_cost_micros + micros;
      settled_calls = rt'.settled_calls + 1;
    }
