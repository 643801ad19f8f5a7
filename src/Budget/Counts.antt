-- ===== src/Budget/Counts.antt =====
-- What the call caps guarantee over every interleaving of the runtime's calls.
use wolves_ai.Base.{◌≤◌, ◌≡◌, List, [], ◌∷◌, arith, inl, inr, refl, Option-cases}
use wolves_ai.Budget.{
  Caps, charge_llm, charge_search, charge_fetch, charge_data_fetch, charge_quant, add_cost,
  release_reservation,
}
use wolves_ai.Budget.Calls.{
  Call, charge, settle, release, search, fetch, data_fetch, quant, Run, Taken, take_out, step, run,
}
use wolves_ai.Budget.Ceiling.{start}

pub record InCaps (caps : Caps) (t : Taken) : Type 0 where
  pub llm : t.llm ≤ caps.max_llm_calls
  pub searches : t.searches ≤ caps.max_search_calls
  pub fetches : t.fetches ≤ caps.max_fetch_calls
  pub data_fetches : t.data_fetches ≤ caps.max_data_fetches
  pub quants : t.quants ≤ caps.max_quant_executions

record Inv (caps : Caps) (s : Run) : Type 0 where
  same_caps : s.runtime.caps ≡ caps
  counts : InCaps caps s.taken
  llm_counted : s.runtime.budget.llm_calls ≡ s.taken.llm
  searches_counted : s.runtime.budget.search_calls ≡ s.taken.searches
  fetches_counted : s.runtime.budget.fetch_calls ≡ s.taken.fetches
  data_fetches_counted : s.runtime.budget.data_fetches ≡ s.taken.data_fetches
  quants_counted : s.runtime.budget.quant_executions ≡ s.taken.quants

module _ (caps : Caps) where
  step-Inv : (s : Run) (c : Call) → Inv caps s → Inv caps (step s c)
  unfolding step charge_llm charge_search charge_fetch charge_data_fetch charge_quant add_cost
  step-Inv s (charge a) v = ground arith
  step-Inv s (settle i m) v = elim (Option-cases (take_out i s.outstanding)) [
    | inl e ↦ rw (e, step) v
    | inr (p, e) ↦ rw (e, step) (ground arith)
  ]
  step-Inv s (release i) v = elim (Option-cases (take_out i s.outstanding)) [
    | inl e ↦ rw (e, step) v
    | inr (p, e) ↦ rw (e, step) (unfold release_reservation in ground arith)
  ]
  step-Inv s search v = ground arith
  step-Inv s fetch v = ground arith
  step-Inv s data_fetch v = ground arith
  step-Inv s quant v = ground arith

  run-Inv : (s : Run) (cs : List Call) → Inv caps s → Inv caps (run s cs)
  unfolding run
  run-Inv s [] v = v
  run-Inv s (c ∷ cs) v = run-Inv (step s c) cs (step-Inv s c v)

-- However the calls of a run interleave, each kind of external action has been granted at most as
-- often as its cap says, counting the grants and not the runtime's counters.
pub run-InCaps : (caps : Caps) (cs : List Call) → InCaps caps (run (start caps) cs).taken
run-InCaps caps cs =
    (run-Inv caps (start caps) cs (record {
      same_caps = refl;
      counts = omega arith;
      llm_counted = refl;
      searches_counted = refl;
      fetches_counted = refl;
      data_fetches_counted = refl;
      quants_counted = refl;
    })).counts
