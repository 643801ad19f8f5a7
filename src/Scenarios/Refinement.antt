-- ===== src/Scenarios/Refinement.antt =====
-- engine/wolves/agent/scenarios.py: what the registry promises, as steps of two maps from ids to
-- states, the one that a reader sees and the one that the file holds.
use wolves_ai.Base.{
  append_nil, ℕ, ◌+◌, ◌≡◌, refl, sym, ap, ◌∙◌, Bool, true, false, String, Option, none, some, List,
  ◌++◌, if◌then◌else◌, string_eq, ◌==◌, arith, inl, inr, Option-cases, Bool-cases,
}
use wolves_ai.Scenarios.{
  ScenarioStatus, ScenarioEvent, ScenarioState, ScenarioRegistry, bodies, get, load, append_event,
  scenario_id_of, commit, rollback,
}
use wolves_ai.Scenarios.View.{
  extend, opening, updating, get-append_event, open_scenario_lem, update-raises, update-returns,
}
use wolves_ai.Scenarios.Staging.{IsMirrored, rolled_back, mirrored_bodies, append_event-IsMirrored}
use wolves_ai.Scenarios.Runs.{
  Command, open_new, change, commit_all, roll_back, step, run, readable, greatest_taken-some,
  IsSound, run-IsSound, loaded,
}

abbrev pub States : Type 0
States = String → Option ScenarioState

pub record Spec : Type 0 where
  pub current : States
  pub saved : States

abbrev pub spec_of : ScenarioRegistry → Spec
spec_of r = record { current = λ i. get i (bodies r.events); saved = λ i. get i r.file }

-- One more event is seen at its id only, and is saved at once unless writes are deferred.
abbrev pub Appends : Bool → ScenarioEvent → Spec → Spec → Type 0
Appends defer e s t =
    ((i : String)
      → t.current i ≡ (if e.scenario_id == i then extend e (s.current i) else s.current i))
    × ((i : String) → t.saved i ≡ (if defer then s.saved i else t.current i))

-- The steps that a call may take.
pub data Refines (defer : Bool) (s t : Spec) : Command → Type 0 where
  opened :
      (name run_id : String) (weight : ℕ) (reason now : String) (m : ℕ)
      → s.current (scenario_id_of (m + 1)) ≡ none
      → Appends defer (opening name run_id weight reason now m) s t
      → Refines defer s t (open_new name run_id weight reason now)
  changed :
      (i run_id : String) (status : ScenarioStatus) (weight : ℕ) (reason now : String)
      (known : ScenarioState)
      → s.current i ≡ some known
      → Appends defer (updating i run_id status weight reason now known.name) s t
      → Refines defer s t (change i run_id status weight reason now)
  refused :
      (i run_id : String) (status : ScenarioStatus) (weight : ℕ) (reason now : String)
      → s.current i ≡ none
      → t ≡ s
      → Refines defer s t (change i run_id status weight reason now)
  committed :
      ((i : String) → t.current i ≡ s.current i)
      → ((i : String) → t.saved i ≡ s.current i)
      → Refines defer s t commit_all
  rolled_back_to :
      ((i : String) → t.current i ≡ s.saved i)
      → ((i : String) → t.saved i ≡ s.saved i)
      → Refines defer s t roll_back

file-append_event :
    (e : ScenarioEvent) (r : ScenarioRegistry)
    → r.defer_writes ≡ true
    → (append_event e r).file ≡ r.file
unfolding append_event
file-append_event e r h = ground (arith, h)

defer-append_event :
    (e : ScenarioEvent) (r : ScenarioRegistry) → (append_event e r).defer_writes ≡ r.defer_writes
unfolding append_event
defer-append_event e r = ground (arith, Bool-cases r.defer_writes)

-- Without deferred writes the file is what is in memory.
pub file-current :
    (r : ScenarioRegistry) → IsMirrored r → r.defer_writes ≡ false → r.file ≡ bodies r.events
file-current r v h =
    sym (mirrored_bodies r v ∙ ap (λ os. r.file ++ bodies os) (v.written h) ∙ append_nil r.file)

append_event-Appends :
    (e : ScenarioEvent) (r : ScenarioRegistry)
    → IsMirrored (append_event e r)
    → Appends r.defer_writes e (spec_of r) (spec_of (append_event e r))
append_event-Appends e r w = (
  (λ i. get-append_event i e r),
  (λ i. elim (Bool-cases r.defer_writes) [
    | inl h ↦ ground (arith, h, ap (get i) (file-append_event e r h))
    | inr h ↦
        ground
          (arith, h, ap (get i) (file-current (append_event e r) w (defer-append_event e r ∙ h)))
  ]),
)

-- Each call takes a step that its name allows.
step-Refines :
    (c : Command) (r : ScenarioRegistry)
    → IsSound r
    → Refines r.defer_writes (spec_of r) (spec_of (step c r)) c
step-Refines (open_new name run_id weight reason now) r v =
    let (m, q) = greatest_taken-some (bodies r.events) v.reads in
    let e : ScenarioEvent = opening name run_id weight reason now m in
    let (returned, unused) = open_scenario_lem name run_id weight reason now r m q in
    rw returned (
      opened name run_id weight reason now m unused
        (append_event-Appends e r (append_event-IsMirrored e r v.mirrored)))
step-Refines (change i run_id status weight reason now) r v =
    elim (Option-cases (get i (bodies r.events))) [
      | inl n ↦
          rw (update-raises i run_id status weight reason now r n)
            (refused i run_id status weight reason now n refl)
      | inr (s, g) ↦
          let e : ScenarioEvent = updating i run_id status weight reason now s.name in
          rw (update-returns i run_id status weight reason now r s g) (
            changed i run_id status weight reason now s g
              (append_event-Appends e r (append_event-IsMirrored e r v.mirrored)))
    ]
step-Refines commit_all r v =
    committed (λ i. unfold commit in refl)
      (λ i. unfold commit in ap (get i) (sym (mirrored_bodies r v.mirrored)))
step-Refines roll_back r v =
    rolled_back_to
      (λ i. ap (λ os. get i (bodies os)) (rolled_back r v.mirrored) ∙ ap (get i) v.mirrored.saved)
      (λ i. unfold rollback in refl)

-- Where every id of the file that starts with `scn-` goes on with a number: after any calls on the
-- registry that was loaded from the file, each further call does to the states that a reader sees,
-- and to those that the file holds, what its step says. `open` shows a new scenario under an id that
-- had none; `update` of an unknown id changes nothing, and of a known one changes its status and weight and
-- appends to its history, with its name and its opening run kept; no call but these changes what
-- is seen of any id, except that a rollback shows what the file holds; and the file follows
-- each change at once, or at the next commit where writes are deferred.
pub run-Refines :
    (file : List ScenarioEvent) (defer : Bool) (cs : List Command) (c : Command)
    → readable file ≡ true
    → let r = run cs (load file defer) in Refines r.defer_writes (spec_of r) (spec_of (step c r)) c
run-Refines file defer cs c h =
    let r : ScenarioRegistry = run cs (load file defer) in
    step-Refines c r (run-IsSound cs (load file defer) (loaded file defer h))
