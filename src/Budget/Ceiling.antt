-- ===== src/Budget/Ceiling.antt =====
-- What the caps guarantee over every interleaving of the runtime's calls.
use wolves_ai.Base.{
  ℕ, ◌+◌, ◌-◌, ◌≤◌, ◌<◌, ◌≡◌, refl, List, [], ◌∷◌, arith, Bool, true, false, All, inl, inr,
  Option-cases,
}
use wolves_ai.Budget.{
  Runtime, Caps, ChargeArgs, Result, ok, err, charge_llm, charge_search, charge_fetch,
  charge_data_fetch, charge_quant, add_cost, release_reservation, hard_ceiling, fresh,
  can_fund_followup_call,
}
use wolves_ai.Budget.Calls.{
  Call, charge, settle, release, search, fetch, data_fetch, quant, Run, sum, take_out, sum-take_out,
  step, run,
}

abbrev pub start : Caps → Run
start caps = record {
  runtime = fresh caps;
  outstanding = [];
  spent = 0;
  overrun = 0;
  taken = record { llm = 0; searches = 0; fetches = 0; data_fetches = 0; quants = 0 };
}

-- The call's own ceiling, the hard one less what it holds back, is at most `limit`.
abbrev pub Respects : Caps → ℕ → Call → Type 0
Respects caps limit (charge a) = hard_ceiling caps a - a.hold_back_micros ≤ limit
Respects caps limit _ = Unit

pub record Inv (caps : Caps) (limit : ℕ) (s : Run) : Type 0 where
  pub same_caps : s.runtime.caps ≡ caps
  pub tracked : s.runtime.in_flight_micros ≡ sum s.outstanding
  pub counted : s.runtime.budget.cost_micros ≡ s.spent
  pub within : s.runtime.budget.cost_micros + s.runtime.in_flight_micros ≤ limit + s.overrun

module _ (caps : Caps) (limit : ℕ) (capped : 0 < caps.max_cost_micros) where
  charge-Inv :
      (s : Run) (a : ChargeArgs)
      → Respects caps limit (charge a)
      → Inv caps limit s
      → Inv caps limit (step s (charge a))
  unfolding step charge_llm
  charge-Inv s a h v = ground arith

  settle-Inv : (s : Run) (i m : ℕ) → Inv caps limit s → Inv caps limit (step s (settle i m))
  unfolding step add_cost
  settle-Inv s i m v = elim (Option-cases (take_out i s.outstanding)) [
    | inl e ↦ rw (e, step) v
    | inr (p, e) ↦ rw (e, step) (ground (arith, sum-take_out i s.outstanding p e))
  ]

  release-Inv : (s : Run) (i : ℕ) → Inv caps limit s → Inv caps limit (step s (release i))
  unfolding step release_reservation
  release-Inv s i v = elim (Option-cases (take_out i s.outstanding)) [
    | inl e ↦ rw (e, step) v
    | inr (p, e) ↦ rw (e, step) (ground (arith, sum-take_out i s.outstanding p e))
  ]

  step-Inv :
      (s : Run) (c : Call) → Respects caps limit c → Inv caps limit s → Inv caps limit (step s c)
  unfolding step charge_search charge_fetch charge_data_fetch charge_quant
  step-Inv s (charge a) h v = charge-Inv s a h v
  step-Inv s (settle i micros) h v = settle-Inv s i micros v
  step-Inv s (release i) h v = release-Inv s i v
  step-Inv s search h v = ground arith
  step-Inv s fetch h v = ground arith
  step-Inv s data_fetch h v = ground arith
  step-Inv s quant h v = ground arith

  run-Inv :
      (s : Run) (cs : List Call)
      → All (Respects caps limit) cs
      → Inv caps limit s
      → Inv caps limit (run s cs)
  unfolding run
  run-Inv s [] h v = v
  run-Inv s (c ∷ cs) h v = run-Inv (step s c) cs h.1 (step-Inv s c h.0 v)

-- However the calls of a run with a dollar ceiling interleave, what its settled calls have cost
-- plus the reservations still outstanding is at most the limit that every admission respects (its
-- hard ceiling less what it holds back), plus the sum by which settled calls cost more than they
-- had reserved; and the runtime's own figures for what is spent and what is in flight are the sum
-- of the settled costs and the sum of the outstanding reservations.
pub run_within_limit :
    (caps : Caps) (limit : ℕ) (cs : List Call)
    → 0 < caps.max_cost_micros
    → All (Respects caps limit) cs
    → let s = run (start caps) cs in
      (s.spent + sum s.outstanding ≤ limit + s.overrun)
      × (s.runtime.budget.cost_micros ≡ s.spent)
      × (s.runtime.in_flight_micros ≡ sum s.outstanding)
run_within_limit caps limit cs capped h =
    let v =
      run-Inv caps limit capped (start caps) cs h
        (record { same_caps = refl; tracked = refl; counted = refl; within = omega arith }) in
    (ground (arith, v.within, v.tracked, v.counted), v.counted, v.tracked)

abbrev pub admits : Result ℕ → Bool
admits (ok _) = true
admits (err _) = false

abbrev pub plain : ℕ → ℕ → ℕ → ChargeArgs
plain micros calls floor = record {
  hold_back_micros = micros;
  hold_back_calls = calls;
  reservation_floor_micros = floor;
  reservation_estimate_micros = 0;
  use_headroom = false;
}

-- While an observation is active, the runner's test for one more call and the gate's own answer to
-- a call without headroom, with the same hold-backs and floor and an estimate no larger than the
-- floor, are the same.
pub can_fund-eq-admits :
    (rt : Runtime) (micros calls floor estimate : ℕ)
    → rt.observed ≡ true
    → estimate ≤ floor
    → can_fund_followup_call micros calls floor rt
      ≡ admits
          (charge_llm
            (record (plain micros calls floor) { reservation_estimate_micros = estimate })
            rt).0
unfolding can_fund_followup_call charge_llm
can_fund-eq-admits rt micros calls floor estimate h e = ground arith
