-- ===== src/Submission/Runs.antt =====
-- engine/wolves/agent/tools/submission: any sequence of previews and submissions of a run.
use wolves_ai.Base.{
  ℕ, zero, suc, ◌+◌, ◌≤◌, ◌≡◌, refl, sym, ◌∙◌, true, false, ◌⊎◌, inl, inr, String, some, List, [],
  ◌∷◌, arith, leb, Bool-cases, string_eq, eq_iff,
}
use wolves_ai.Submission.{
  Forecast, Report, is_ok, hard_issues, SubmissionState, SubmitSettings, new_state,
}
use wolves_ai.Submission.Referee.{Answer}
use wolves_ai.Submission.Submit.{
  note_copy_repair_state, submit_forecast, check_forecast, is_nil, same_texts, copy_signature,
  clear_copy,
}
use wolves_ai.Submission.Accept.{
  accepts, blocks, repairs, one_if, submit_forecast-Earned, submit_forecast-Counts,
  check_forecast-free, check_forecast-Counts,
}

-- A call, with the submission as asked, as normalised, and the validator's report.
pub data Call : Type 0 where
  check : Forecast → Forecast → Report → Call
  submit : Answer → Forecast → Forecast → Report → Call

-- Some call of the sequence is like this.
pub data Some (P : Call → Type 0) : List Call → Type 0 where
  here : {c : Call} → {cs : List Call} → P c → Some P (c ∷ cs)
  later : {c : Call} → {cs : List Call} → Some P cs → Some P (c ∷ cs)

-- The call submits this forecast, and the validator finds nothing in it.
abbrev pub Validates : Forecast → Call → Type 0
Validates f (check args checked r) = ⊥
Validates f (submit answer args checked r) = (checked ≡ f) × (is_ok r ≡ true)

module _ (settings : SubmitSettings) (fingerprint : Forecast → String) where
  unfoldable pub step : SubmissionState → Call → SubmissionState
  step s (check args checked r) = (check_forecast settings args checked r s).1
  step s (submit answer args checked r) =
      (submit_forecast settings fingerprint answer args checked r s).1

  unfoldable pub run : SubmissionState → List Call → SubmissionState
  unfolding step
  run s [] = s
  run s (c ∷ cs) = run (step s c) cs

  -- The referee's block in what a call returns, if it is one, and the request for a structural
  -- repair.
  abbrev pub blocks_in : SubmissionState → Call → ℕ
  blocks_in s (check args checked r) = 0
  blocks_in s (submit answer args checked r) =
      one_if (blocks (submit_forecast settings fingerprint answer args checked r s).0)

  abbrev pub repairs_in : SubmissionState → Call → ℕ
  repairs_in s (check args checked r) = one_if (check_forecast settings args checked r s).0
  repairs_in s (submit answer args checked r) =
      one_if (repairs (submit_forecast settings fingerprint answer args checked r s).0)

  -- How many calls of the sequence return one.
  abbrev pub returned : (SubmissionState → Call → ℕ) → SubmissionState → List Call → ℕ
  returned f s [] = 0
  returned f s (c ∷ cs) = f s c + returned f (step s c) cs

  step-blocks :
      (s : SubmissionState) (c : Call)
      → ((step s c).referee_interventions ≡ s.referee_interventions + blocks_in s c)
        × (s.referee_interventions ≤ settings.graph_referee_max_interventions
            → (step s c).referee_interventions ≤ settings.graph_referee_max_interventions)
  unfolding step
  step-blocks s (check args checked r) =
      ground (arith, check_forecast-free settings fingerprint args checked r s)
  step-blocks s (submit answer args checked r) =
      ground (arith, submit_forecast-Counts settings fingerprint answer args checked r s)

  step-repairs :
      (s : SubmissionState) (c : Call)
      → ((step s c).structural_repair_attempts ≡ s.structural_repair_attempts + repairs_in s c)
        × (s.structural_repair_attempts ≤ settings.agent_structural_repair_attempts
            → (step s c).structural_repair_attempts ≤ settings.agent_structural_repair_attempts)
  unfolding step
  step-repairs s (check args checked r) =
      ground (arith, check_forecast-Counts settings fingerprint args checked r s)
  step-repairs s (submit answer args checked r) =
      ground (arith, submit_forecast-Counts settings fingerprint answer args checked r s)

  blocks-within :
      (s : SubmissionState) (cs : List Call)
      → s.referee_interventions ≤ settings.graph_referee_max_interventions
      → s.referee_interventions + returned blocks_in s cs ≤ settings.graph_referee_max_interventions
  blocks-within s [] h = omega arith
  blocks-within s (c ∷ cs) h =
      let (n, k) = step-blocks s c in omega (arith, n, blocks-within (step s c) cs (k h))

  repairs-within :
      (s : SubmissionState) (cs : List Call)
      → s.structural_repair_attempts ≤ settings.agent_structural_repair_attempts
      → s.structural_repair_attempts + returned repairs_in s cs
        ≤ settings.agent_structural_repair_attempts
  repairs-within s [] h = omega arith
  repairs-within s (c ∷ cs) h =
      let (n, k) = step-repairs s c in omega (arith, n, repairs-within (step s c) cs (k h))

  -- However previews and submissions follow each other from a new state, at most the allowed number
  -- of submissions return a block by the referee, and at most the allowed number of previews and
  -- submissions together return a request for a structural repair.
  pub run-limited :
      (cs : List Call)
      → (returned blocks_in new_state cs ≤ settings.graph_referee_max_interventions)
        × (returned repairs_in new_state cs ≤ settings.agent_structural_repair_attempts)
  run-limited cs = (
    omega (arith, blocks-within new_state cs (omega arith)),
    omega (arith, repairs-within new_state cs (omega arith)),
  )

  step-accepted :
      (s : SubmissionState) (c : Call) (f : Forecast)
      → (step s c).accepted ≡ some f
      → (s.accepted ≡ some f) ⊎ Validates f c
  unfolding step
  step-accepted s (check args checked r) f h =
      inl (sym (check_forecast-free settings fingerprint args checked r s).0 ∙ h)
  step-accepted s (submit answer args checked r) f h =
      let (v, s') = submit_forecast settings fingerprint answer args checked r s in
      let t = submit_forecast-Earned settings fingerprint answer args checked r s in
      elim (Bool-cases (accepts v)) [
        | inl e ↦ inr (ground (arith, (t.0 e).1.recorded), (t.0 e).0.validated)
        | inr e ↦ inl (sym (t.1 e) ∙ h)
      ]

  run-accepted_from :
      (s : SubmissionState) (cs : List Call) (f : Forecast)
      → (run s cs).accepted ≡ some f
      → (s.accepted ≡ some f) ⊎ Some (Validates f) cs
  unfolding run
  run-accepted_from s [] f h = inl h
  run-accepted_from s (c ∷ cs) f h = elim (run-accepted_from (step s c) cs f h) [
    | inr l ↦ inr (later l)
    | inl e ↦ elim (step-accepted s c f e) [ inl e' ↦ inl e' | inr p ↦ inr (here p) ]
  ]

  -- However previews and submissions follow each other from a new state, a forecast is the accepted
  -- one only if it was submitted in one of them with a report of the validator that finds nothing.
  pub run-accepted :
      (cs : List Call) (f : Forecast) → (run new_state cs).accepted ≡ some f → Some (Validates f) cs
  run-accepted cs f h = elim (run-accepted_from new_state cs f h) [
    | inl e ↦ absurd (ground arith)
    | inr l ↦ l
  ]

same_texts_refl : (ss : List String) → same_texts ss ss ≡ true
same_texts_refl [] = refl
same_texts_refl (s ∷ ss) = ground (arith, same_texts_refl ss, eq_iff s s)

-- `note_copy_repair_state` of the same report, so many times
abbrev pub noted_times : ℕ → Report → SubmissionState → SubmissionState
noted_times zero r s = s
noted_times (suc n) r s = note_copy_repair_state r (noted_times n r s)

module _ (r : Report) (s : SubmissionState) (rejected : is_ok r ≡ false)
    (only_copy : is_nil (hard_issues r) ≡ true) where
  record Repeated (n : ℕ) (t : SubmissionState) : Type 0 where
    signed : t.copy_issue_signature ≡ some (copy_signature r)
    repeats : t.copy_issue_repeats ≡ suc n
    blocked : t.copy_repair_blocked ≡ leb 3 (suc n)

  noted_times-Repeated : (n : ℕ) → Repeated n (noted_times (suc n) r (clear_copy s))
  unfolding note_copy_repair_state
  noted_times-Repeated zero = ground arith
  noted_times-Repeated (suc n) =
      ground (arith, noted_times-Repeated n, same_texts_refl (copy_signature r))

-- Where the same copy issues, and no hard one, are reported again and again after a clean start, the
-- count of repeats is the number of reports, and the repair is blocked from the third report on.
pub noted_times-repeats :
    (n : ℕ) (r : Report) (s : SubmissionState)
    → is_ok r ≡ false
    → is_nil (hard_issues r) ≡ true
    → let t = noted_times (suc n) r (clear_copy s) in
      (t.copy_issue_repeats ≡ suc n) × (t.copy_repair_blocked ≡ leb 3 (suc n))
noted_times-repeats n r s h g = let v = noted_times-Repeated r s h g n in (v.repeats, v.blocked)
