-- ===== src/Budget/Calls.antt =====
-- engine/wolves/observability/runtime.py: any interleaving of the runtime's calls. Workers of one
-- wave admit, settle and release calls in an order that the program does not fix.
use wolves_ai.Base.{ℕ, zero, suc, ◌+◌, ◌-◌, ◌≡◌, List, [], ◌∷◌, Option, none, some, arith}
use wolves_ai.Budget.{
  Runtime, ChargeArgs, Result, ok, err, charge_llm, charge_search, charge_fetch, charge_data_fetch,
  charge_quant, add_cost, release_reservation,
}

-- `settle i micros` and `release i` name the i-th reservation that is outstanding.
pub data Call : Type 0 where
  charge : ChargeArgs → Call
  settle : ℕ → ℕ → Call
  release : ℕ → Call
  search fetch data_fetch quant : Call

-- How many actions of each kind have been granted.
pub record Taken : Type 0 where
  pub llm : ℕ
  pub searches : ℕ
  pub fetches : ℕ
  pub data_fetches : ℕ
  pub quants : ℕ

-- The runtime beside what its callers see: the reservations they hold, what their settled calls
-- have cost, the sum by which these have cost more than they had reserved, and the actions granted.
-- None of these numbers is read from the runtime's own counters.
pub record Run : Type 0 where
  pub runtime : Runtime
  pub outstanding : List ℕ
  pub spent : ℕ
  pub overrun : ℕ
  pub taken : Taken

abbrev pub sum : List ℕ → ℕ
sum [] = 0
sum (x ∷ xs) = x + sum xs

abbrev pub take_out : ℕ → List ℕ → Option (ℕ × List ℕ)
take_out i [] = none
take_out zero (x ∷ xs) = some (x, xs)
take_out (suc i) (x ∷ xs) = elim (take_out i xs) [ none ↦ none | some p ↦ some (p.0, x ∷ p.1) ]

pub sum-take_out :
    (i : ℕ) (xs : List ℕ) (p : ℕ × List ℕ) → take_out i xs ≡ some p → sum xs ≡ p.0 + sum p.1
sum-take_out i [] p e = ground arith
sum-take_out zero (x ∷ xs) p e = ground arith
sum-take_out (suc i) (x ∷ xs) p e = go (take_out i xs) (sum-take_out i xs) e
  where
    go :
        (o : Option (ℕ × List ℕ))
        → ((q : ℕ × List ℕ) → o ≡ some q → sum xs ≡ q.0 + sum q.1)
        → ◌≡◌ {A = Option (ℕ × List ℕ)}
            (elim o [ none ↦ none | some q ↦ some (q.0, x ∷ q.1) ])
            (some p)
        → x + sum xs ≡ p.0 + sum p.1
    go none ih e' = ground arith
    go (some q) ih e' = ground (arith, ih q)

abbrev admitted : Run → Result ℕ × Runtime → Run
admitted s (ok r, rt) = record s {
  runtime = rt;
  outstanding = r ∷ s.outstanding;
  taken = record s.taken { llm = s.taken.llm + 1 };
}
admitted s (err _, rt) = record s { runtime = rt }

-- One more for an action that was granted.
abbrev pub granted : {A : Type 0} → Result A → ℕ
granted (ok _) = 1
granted (err _) = 0

unfoldable pub step : Run → Call → Run
step s (charge a) = admitted s (charge_llm a s.runtime)
step s (settle i micros) = elim (take_out i s.outstanding) [
  | none ↦ s
  | some p ↦ record s {
    runtime = add_cost micros p.0 s.runtime;
    outstanding = p.1;
    spent = s.spent + micros;
    overrun = s.overrun + (micros - p.0);
  }
]
step s (release i) = elim (take_out i s.outstanding) [
  | none ↦ s
  | some p ↦ record s { runtime = release_reservation p.0 s.runtime; outstanding = p.1 }
]
step s search =
    let (r, rt) = charge_search s.runtime in
    record s { runtime = rt; taken = record s.taken { searches = s.taken.searches + granted r } }
step s fetch =
    let (r, rt) = charge_fetch s.runtime in
    record s { runtime = rt; taken = record s.taken { fetches = s.taken.fetches + granted r } }
step s data_fetch =
    let (r, rt) = charge_data_fetch s.runtime in
    record s {
      runtime = rt;
      taken = record s.taken { data_fetches = s.taken.data_fetches + granted r };
    }
step s quant =
    let (r, rt) = charge_quant s.runtime in
    record s { runtime = rt; taken = record s.taken { quants = s.taken.quants + granted r } }

unfoldable pub run : Run → List Call → Run
unfolding step
run s [] = s
run s (c ∷ cs) = run (step s c) cs
