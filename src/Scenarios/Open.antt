-- ===== src/Scenarios/Open.antt =====
-- engine/wolves/agent/scenarios.py: which scenarios are listed as open, and as not yet touched by a
-- run.
use wolves_ai.Base.{
  append_nil, ◌≡◌, refl, ap, ◌∙◌, Bool, true, false, not, ◌&&◌, String, Option, none, some, List,
  [], ◌∷◌, ◌++◌, map, if◌then◌else◌, select, any, all, contains, string_eq, eq_iff, ◌==◌, arith,
  inl, inr, Bool-cases, Option-cases,
}
use wolves_ai.Scenarios.{
  ScenarioEvent, ScenarioState, get, is_open, ids_beside, open_states, open_scenarios,
  unresolved_in,
}

abbrev of_id : String → ScenarioState → Bool
of_id i s = s.scenario_id == i

-- The state, if the scenario is open.
abbrev shown : Option ScenarioState → List ScenarioState
shown none = []
shown (some s) = if is_open s.status then s ∷ [] else []

get-id :
    (i : String) (es : List ScenarioEvent) (s : ScenarioState)
    → get i es ≡ some s
    → s.scenario_id ≡ i
unfolding get
get-id i [] s g = absurd (ground arith)
get-id i (e ∷ es) s g = elim (Bool-cases (e.scenario_id == i)) [
  | inl q ↦ ground (arith, q, eq_iff e.scenario_id i)
  | inr q ↦ get-id i es s (ground (arith, q))
]

get-missing :
    (i : String) (es : List ScenarioEvent)
    → any (λ e. e.scenario_id == i) es ≡ false
    → get i es ≡ none
unfolding get
get-missing i [] h = refl
get-missing i (e ∷ es) h = ground (arith, get-missing i es)

select-shown :
    (i j : String) (all_events : List ScenarioEvent) (ss : List (Option ScenarioState))
    → select (of_id i) (open_states (get j all_events ∷ ss)) ≡ (
        if j == i
        then shown (get i all_events) ++ select (of_id i) (open_states ss)
        else select (of_id i) (open_states ss))
select-shown i j all_events ss = elim (Option-cases (get j all_events)) [
  | inl n ↦ ground (arith, n, eq_iff j i, ap (λ k. get k all_events) {x = j} {y = i})
  | inr (s, g) ↦ ground (arith, g, get-id j all_events s g, eq_iff j i, eq_iff s.scenario_id i)
]

module _ (i : String) (all_events : List ScenarioEvent) where
  abbrev picked : List String → List ScenarioEvent → List ScenarioState
  picked seen es = select (of_id i) (open_states (map (λ j. get j all_events) (ids_beside seen es)))

  picked-seen :
      (seen : List String) (es : List ScenarioEvent) → contains i seen ≡ true → picked seen es ≡ []
  picked-seen seen [] h = refl
  picked-seen seen (e ∷ es) h =
      let rest : List (Option ScenarioState) =
        map (λ j. get j all_events) (ids_beside (e.scenario_id ∷ seen) es) in
      elim (Bool-cases (contains e.scenario_id seen)) [
        | inl q ↦ rw q (picked-seen seen es h)
        | inr q ↦ rw q (
            ground (
              arith,
              select-shown i e.scenario_id all_events rest,
              eq_iff e.scenario_id i,
              ap (λ k. contains k seen) {x = e.scenario_id} {y = i},
              picked-seen (e.scenario_id ∷ seen) es (ground arith),
            ))
      ]

  picked-new :
      (seen : List String) (es : List ScenarioEvent)
      → contains i seen ≡ false
      → picked seen es ≡ (if any (λ e. e.scenario_id == i) es then shown (get i all_events) else [])
  picked-new seen [] h = refl
  picked-new seen (e ∷ es) h =
      let rest : List (Option ScenarioState) =
        map (λ j. get j all_events) (ids_beside (e.scenario_id ∷ seen) es) in
      let same = ap (λ k. contains k seen) {x = e.scenario_id} {y = i} in
      elim (Bool-cases (contains e.scenario_id seen)) [
        | inl q ↦ rw q (ground (arith, q, same, eq_iff e.scenario_id i, picked-new seen es h))
        | inr q ↦ elim (Bool-cases (e.scenario_id == i)) [
          | inl found ↦
              rw (q, found)
                (select-shown i e.scenario_id all_events rest
                  ∙ ground (
                    arith,
                    found,
                    eq_iff e.scenario_id i,
                    eq_iff i e.scenario_id,
                    picked-seen (e.scenario_id ∷ seen) es,
                    append_nil (shown (get i all_events)),
                  ))
          | inr other ↦
              rw (q, other)
                (select-shown i e.scenario_id all_events rest
                  ∙ ground (
                    arith,
                    other,
                    eq_iff e.scenario_id i,
                    eq_iff i e.scenario_id,
                    picked-new (e.scenario_id ∷ seen) es,
                  ))
        ]
      ]

open_scenarios-once :
    (i : String) (es : List ScenarioEvent) → select (of_id i) (open_scenarios es) ≡ shown (get i es)
unfolding open_scenarios
open_scenarios-once i es = elim (Bool-cases (any (λ e. e.scenario_id == i) es)) [
  | inl q ↦ picked-new i es [] es refl ∙ ground (arith, q)
  | inr q ↦ picked-new i es [] es refl ∙ ground (arith, q, get-missing i es q)
]

select-both :
    (p q : ScenarioState → Bool) (ss : List ScenarioState)
    → select p (select q ss) ≡ select q (select p ss)
select-both p q [] = refl
select-both p q (s ∷ ss) = ground (arith, select-both p q ss)

-- The run has no event in the history of the scenario.
abbrev pub untouched : String → ScenarioState → Bool
untouched run_id s = all (λ e. not (e.run_id == run_id)) s.history

-- A scenario is listed as unresolved in a run exactly once, with its present state, if it is open or
-- reweighted and no event of its history is of that run, and else not at all.
pub unresolved_in-once :
    (run_id i : String) (es : List ScenarioEvent)
    → select (λ s. s.scenario_id == i) (unresolved_in run_id es) ≡ elim (get i es) [
      | none ↦ []
      | some s ↦ if is_open s.status && untouched run_id s then s ∷ [] else []
    ]
unfolding unresolved_in
unresolved_in-once run_id i es =
    select-both (of_id i) (untouched run_id) (open_scenarios es)
    ∙ ap (select (untouched run_id)) (open_scenarios-once i es)
    ∙ ground (arith, Option-cases (get i es))
