-- ===== src/Scenarios.antt =====
-- engine/wolves/agent/scenarios.py: the registry of scenarios, an append-only log of events with
-- staged writes. The file is the list of the
-- events of its lines (Lines: its text), a weight is a whole number of a small unit, and the
-- time of an event is an argument. An event in memory is an object: its number is what `id` tells.
pub mod View
pub mod Staging
pub mod Runs
pub mod Refinement
pub mod Open
pub mod Lines
mod Tests
use wolves_ai.Base.{
  ℕ, ◌+◌, ◌-◌, ◌*◌, Bool, true, false, not, ◌&&◌, ◌||◌, String, Option, none, some, List, [], ◌∷◌,
  ◌++◌, map, if◌then◌else◌, length, select, all, any, leb, eqb, max, contains, string_eq, nat_eq,
  ◌==◌, is_some,
}
use wolves_ai.Base.Decimal.{append, pad_three, int_of, without_prefix}

pub data ScenarioStatus : Type 0 where
  open_status reweighted collapsed expired : ScenarioStatus

pub record ScenarioEvent : Type 0 where
  pub scenario_id : String
  pub name : String
  pub run_id : String
  pub status : ScenarioStatus
  pub weight : ℕ
  pub reason : String
  pub at_time : String

-- An event in memory, with its identity.
pub record Object : Type 0 where
  pub number : ℕ
  pub event : ScenarioEvent

pub record ScenarioState : Type 0 where
  pub scenario_id : String
  pub name : String
  pub opened_run : String
  pub status : ScenarioStatus
  pub weight : ℕ
  pub history : List ScenarioEvent

pub record ScenarioRegistry : Type 0 where
  pub file : List ScenarioEvent
  pub defer_writes : Bool
  pub events : List Object
  pub staged : List Object
  pub made : ℕ

-- What a method raises: `int` of a text that is no number, an unknown id, a failed `assert`.
pub data Raised : Type 0 where
  value_error : Raised
  unknown_scenario : String → Raised
  assertion_error : Raised

pub data Result {ℓ} (A : Type ℓ) : Type ℓ where
  returns : A → Result A
  raises : Raised → Result A

abbrev pub bodies : List Object → List ScenarioEvent
bodies = map λ o. o.event

abbrev pub objects_from : ℕ → List ScenarioEvent → List Object
objects_from n [] = []
objects_from n (e ∷ es) = record { number = n; event = e } ∷ objects_from (n + 1) es

-- `__init__`
unfoldable pub load : List ScenarioEvent → Bool → ScenarioRegistry
load file defer = record {
  file = file;
  defer_writes = defer;
  events = objects_from 0 file;
  staged = [];
  made = length file;
}

abbrev last_event : ScenarioEvent → List ScenarioEvent → ScenarioEvent
last_event e [] = e
last_event e (f ∷ es) = last_event f es

abbrev pub state_of : List ScenarioEvent → Option ScenarioState
state_of [] = none
state_of (e ∷ es) =
    let latest = last_event e es in
    some (record {
      scenario_id = e.scenario_id;
      name = latest.name;
      opened_run = e.run_id;
      status = latest.status;
      weight = latest.weight;
      history = e ∷ es;
    })

unfoldable pub get : String → List ScenarioEvent → Option ScenarioState
get scenario_id events = state_of (select (λ e. e.scenario_id == scenario_id) events)

-- `_append`
unfoldable pub append_event : ScenarioEvent → ScenarioRegistry → ScenarioRegistry
append_event e r =
    let o : Object = record { number = r.made; event = e } in
    let r' = record r { events = r.events ++ o ∷ []; made = r.made + 1 } in
    if r.defer_writes
    then record r' { staged = r.staged ++ o ∷ [] }
    else record r' { file = r.file ++ e ∷ [] }

-- The greatest number among the ids that start with `scn-`, or nothing where one has no number.
abbrev pub greatest_taken : List ScenarioEvent → Option ℕ
greatest_taken [] = some 0
greatest_taken (e ∷ es) = elim (greatest_taken es) [
  | none ↦ none
  | some m ↦ elim (without_prefix "scn-" e.scenario_id) [
    | none ↦ some m
    | some digits ↦ elim (int_of digits) [ none ↦ none | some n ↦ some (max n m) ]
  ]
]

-- `f"scn-{n:03d}"`
unfoldable pub scenario_id_of : ℕ → String
scenario_id_of n = append "scn-" (pad_three n)

abbrev pub found_with :
    ScenarioRegistry → Option ScenarioState → Result (ScenarioState × ScenarioRegistry)
found_with r none = raises assertion_error
found_with r (some s) = returns (s, r)

-- `state = self.get(scenario_id); assert state is not None`
abbrev pub found : String → ScenarioRegistry → Result (ScenarioState × ScenarioRegistry)
found i r = found_with r (get i (bodies r.events))

unfoldable pub open_scenario :
    String
    → String
    → ℕ
    → String
    → String
    → ScenarioRegistry
    → Result (ScenarioState × ScenarioRegistry)
open_scenario name run_id weight reason now r = elim (greatest_taken (bodies r.events)) [
  | none ↦ raises value_error
  | some n ↦
      let i = scenario_id_of (n + 1) in
      found i (
        append_event
          (record {
            scenario_id = i;
            name = name;
            run_id = run_id;
            status = open_status;
            weight = weight;
            reason = reason;
            at_time = now;
          })
          r)
]

unfoldable pub update :
    String
    → String
    → ScenarioStatus
    → ℕ
    → String
    → String
    → ScenarioRegistry
    → Result (ScenarioState × ScenarioRegistry)
update i run_id status weight reason now r = elim (get i (bodies r.events)) [
  | none ↦ raises (unknown_scenario i)
  | some current ↦ found i (
      append_event
        (record {
          scenario_id = i;
          name = current.name;
          run_id = run_id;
          status = status;
          weight = weight;
          reason = reason;
          at_time = now;
        })
        r)
]

unfoldable pub commit : ScenarioRegistry → ScenarioRegistry
commit r = record r { file = r.file ++ bodies r.staged; staged = [] }

unfoldable pub rollback : ScenarioRegistry → ScenarioRegistry
rollback r =
    let staged_ids = map (λ o. o.number) r.staged in
    record r { events = select (λ o. not (contains o.number staged_ids)) r.events; staged = [] }

abbrev pub is_open : ScenarioStatus → Bool
is_open open_status = true
is_open reweighted = true
is_open _ = false

-- `dict.fromkeys(…)`: each id once, in the order of its first event
abbrev pub ids_beside : List String → List ScenarioEvent → List String
ids_beside seen [] = []
ids_beside seen (e ∷ es) =
    let others = ids_beside (e.scenario_id ∷ seen) es in
    if contains e.scenario_id seen then ids_beside seen es else e.scenario_id ∷ others

abbrev pub open_states : List (Option ScenarioState) → List ScenarioState
open_states [] = []
open_states (none ∷ ss) = open_states ss
open_states (some s ∷ ss) = let rest = open_states ss in if is_open s.status then s ∷ rest else rest

unfoldable pub open_scenarios : List ScenarioEvent → List ScenarioState
open_scenarios events = open_states (map (λ i. get i events) (ids_beside [] events))

unfoldable pub open_named : String → List ScenarioEvent → List ScenarioState
open_named name events = select (λ s. s.name == name) (open_scenarios events)

unfoldable pub unresolved_in : String → List ScenarioEvent → List ScenarioState
unresolved_in run_id events =
    select (λ s. all (λ e. not (e.run_id == run_id)) s.history) (open_scenarios events)
