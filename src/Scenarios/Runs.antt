-- ===== src/Scenarios/Runs.antt =====
-- engine/wolves/agent/scenarios.py: any sequence of calls of the registry, against a map from ids to
-- states and the copy of it that is saved.
use wolves_ai.Base.{
  ℕ, ◌+◌, ◌≡◌, refl, ap, ◌∙◌, Bool, true, String, none, some, List, [], ◌∷◌, max, all, is_some,
  string_eq, eq_iff, ◌==◌, arith, inl, inr, Bool-cases, Option-cases,
}
use wolves_ai.Base.Decimal.{int_of, without_prefix, int_of-pad_three}
use wolves_ai.Scenarios.{
  ScenarioStatus, ScenarioEvent, ScenarioState, ScenarioRegistry, Result, returns, raises, bodies,
  get, load, append_event, greatest_taken, scenario_id_of, open_scenario, update, commit, rollback,
}
use wolves_ai.Scenarios.View.{
  opening, updating, append_event-bodies, scenario_id_of-number, open_scenario_lem, update-raises,
  update-returns,
}
use wolves_ai.Scenarios.Staging.{
  IsMirrored, all-append, bodies-objects_from, rolled_back, mirrored_bodies, load-IsMirrored,
  append_event-IsMirrored, commit-IsMirrored, rollback-IsMirrored,
}

pub data Command : Type 0 where
  open_new : (name run_id : String) (weight : ℕ) (reason now : String) → Command
  change :
      (i run_id : String) (status : ScenarioStatus) (weight : ℕ) (reason now : String) → Command
  commit_all roll_back : Command

-- The registry after a call: where it raises, nothing has changed.
abbrev after : ScenarioRegistry → Result (ScenarioState × ScenarioRegistry) → ScenarioRegistry
after r (returns (s, r')) = r'
after r (raises e) = r

abbrev pub step : Command → ScenarioRegistry → ScenarioRegistry
step (open_new name run_id weight reason now) r =
    after r (open_scenario name run_id weight reason now r)
step (change i run_id status weight reason now) r =
    after r (update i run_id status weight reason now r)
step commit_all r = commit r
step roll_back r = rollback r

abbrev pub run : List Command → ScenarioRegistry → ScenarioRegistry
run [] r = r
run (c ∷ cs) r = run cs (step c r)

-- Where an id starts with `scn-`, a number follows.
abbrev is_readable : String → Bool
is_readable i = elim (without_prefix "scn-" i) [
  | none ↦ true
  | some digits ↦ is_some (int_of digits)
]

abbrev pub readable : List ScenarioEvent → Bool
readable es = all (λ e. is_readable e.scenario_id) es

pub greatest_taken-some :
    (es : List ScenarioEvent) → readable es ≡ true → (m : ℕ) × (greatest_taken es ≡ some m)
greatest_taken-some [] h = (0, refl)
greatest_taken-some (e ∷ es) h =
    let (m, q) = greatest_taken-some es (ground arith) in
    elim (Option-cases (without_prefix "scn-" e.scenario_id)) [
      | inl w ↦ (m, ground (arith, q, w))
      | inr (d, w) ↦ elim (Option-cases (int_of d)) [
        | inl n ↦ absurd (ground (arith, w, n))
        | inr (n, n') ↦ (max n m, ground (arith, q, w, n'))
      ]
    ]

get-readable :
    (i : String) (es : List ScenarioEvent) (s : ScenarioState)
    → get i es ≡ some s
    → readable es ≡ true
    → is_readable i ≡ true
unfolding get
get-readable i [] s g h = absurd (ground arith)
get-readable i (e ∷ es) s g h = elim (Bool-cases (e.scenario_id == i)) [
  | inl q ↦ ground (arith, ap is_readable ((eq_iff e.scenario_id i).0 q))
  | inr q ↦ get-readable i es s (ground (arith, q)) (ground arith)
]

new_id_readable : (n : ℕ) → is_readable (scenario_id_of n) ≡ true
new_id_readable n = ground (arith, scenario_id_of-number n, int_of-pad_three n)

pub record IsSound (r : ScenarioRegistry) : Type 0 where
  pub mirrored : IsMirrored r
  pub reads : readable (bodies r.events) ≡ true

append_event-IsSound :
    (e : ScenarioEvent) (r : ScenarioRegistry)
    → is_readable e.scenario_id ≡ true
    → IsSound r
    → IsSound (append_event e r)
append_event-IsSound e r h v =
    let id_reads : ScenarioEvent → Bool = λ f. is_readable f.scenario_id in
    record {
      mirrored = append_event-IsMirrored e r v.mirrored;
      reads =
          ap readable (append_event-bodies e r)
          ∙ ground (arith, all-append id_reads (bodies r.events) (e ∷ []), v.reads);
    }

saved-readable : (r : ScenarioRegistry) → IsSound r → readable r.file ≡ true
saved-readable r v =
    let id_reads : ScenarioEvent → Bool = λ f. is_readable f.scenario_id in
    ground (
      arith,
      v.reads,
      ap readable (mirrored_bodies r v.mirrored),
      all-append id_reads r.file (bodies r.staged),
    )

step-IsSound : (c : Command) (r : ScenarioRegistry) → IsSound r → IsSound (step c r)
step-IsSound (open_new name run_id weight reason now) r v =
    let (m, q) = greatest_taken-some (bodies r.events) v.reads in
    let e : ScenarioEvent = opening name run_id weight reason now m in
    rw (open_scenario_lem name run_id weight reason now r m q).0
      (append_event-IsSound e r (new_id_readable (m + 1)) v)
step-IsSound (change i run_id status weight reason now) r v =
    elim (Option-cases (get i (bodies r.events))) [
      | inl n ↦ rw (update-raises i run_id status weight reason now r n) v
      | inr (s, g) ↦
          let e : ScenarioEvent = updating i run_id status weight reason now s.name in
          rw (update-returns i run_id status weight reason now r s g)
            (append_event-IsSound e r (get-readable i (bodies r.events) s g v.reads) v)
    ]
step-IsSound commit_all r v = record {
  mirrored = commit-IsMirrored r v.mirrored;
  reads = unfold commit in v.reads;
}
step-IsSound roll_back r v = record {
  mirrored = rollback-IsMirrored r v.mirrored;
  reads =
      ap (λ os. readable (bodies os)) (rolled_back r v.mirrored)
      ∙ ap readable v.mirrored.saved
      ∙ saved-readable r v;
}

pub run-IsSound : (cs : List Command) (r : ScenarioRegistry) → IsSound r → IsSound (run cs r)
run-IsSound [] r v = v
run-IsSound (c ∷ cs) r v = run-IsSound cs (step c r) (step-IsSound c r v)

pub loaded :
    (file : List ScenarioEvent) (defer : Bool) → readable file ≡ true → IsSound (load file defer)
loaded file defer h = record {
  mirrored = load-IsMirrored file defer;
  reads = unfold load in ap readable (bodies-objects_from 0 file) ∙ h;
}
