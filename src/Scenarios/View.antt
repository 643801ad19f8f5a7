-- ===== src/Scenarios/View.antt =====
-- engine/wolves/agent/scenarios.py: what the registry says of each scenario, as a map from ids to
-- states that the methods change at one id.
use wolves_ai.Base.{
  ℕ, ◌+◌, ◌≤◌, ◌<◌, ◌≡◌, ◌≢◌, refl, ap, ◌∙◌, Bool, String, Option, none, some, List, [], ◌∷◌, ◌++◌,
  if◌then◌else◌, select, string_eq, eq_iff, ◌==◌, arith, inl, inr, Bool-cases, Option-cases,
}
use wolves_ai.Base.Decimal.{pad_three, without_prefix, int_of-pad_three}
use wolves_ai.Scenarios.{
  ScenarioStatus, open_status, ScenarioEvent, Object, ScenarioState, ScenarioRegistry, returns,
  raises, unknown_scenario, bodies, last_event, state_of, get, append_event, greatest_taken,
  scenario_id_of, open_scenario, update,
}

-- The state of a scenario after its first event, and after one more.
abbrev pub first_state : ScenarioEvent → ScenarioState
first_state e = record {
  scenario_id = e.scenario_id;
  name = e.name;
  opened_run = e.run_id;
  status = e.status;
  weight = e.weight;
  history = e ∷ [];
}

abbrev pub next_state : ScenarioEvent → ScenarioState → ScenarioState
next_state e s = record s {
  name = e.name;
  status = e.status;
  weight = e.weight;
  history = s.history ++ e ∷ [];
}

abbrev pub extend : ScenarioEvent → Option ScenarioState → Option ScenarioState
extend e none = some (first_state e)
extend e (some s) = some (next_state e s)

last_event-snoc : (e f : ScenarioEvent) (es : List ScenarioEvent) → last_event f (es ++ e ∷ []) ≡ e
last_event-snoc e f [] = refl
last_event-snoc e f (g ∷ es) = last_event-snoc e g es

state_of-snoc :
    (e : ScenarioEvent) (es : List ScenarioEvent) → state_of (es ++ e ∷ []) ≡ extend e (state_of es)
state_of-snoc e [] = refl
state_of-snoc e (f ∷ es) = ground (arith, last_event-snoc e f es)

select-snoc :
    (p : ScenarioEvent → Bool) (e : ScenarioEvent) (es : List ScenarioEvent)
    → select p (es ++ e ∷ []) ≡ (if p e then select p es ++ e ∷ [] else select p es)
select-snoc p e [] = ground arith
select-snoc p e (f ∷ es) = ground (arith, select-snoc p e es)

pub get-snoc :
    (i : String) (e : ScenarioEvent) (es : List ScenarioEvent)
    → get i (es ++ e ∷ []) ≡ (if e.scenario_id == i then extend e (get i es) else get i es)
unfolding get
get-snoc i e es =
    let at_id : ScenarioEvent → Bool = λ f. f.scenario_id == i in
    ap state_of (select-snoc at_id e es) ∙ (elim (Bool-cases (e.scenario_id == i)) [
      | inl h ↦ rw h (state_of-snoc e (select at_id es))
      | inr h ↦ rw h
    ])

bodies-snoc : (o : Object) (os : List Object) → bodies (os ++ o ∷ []) ≡ bodies os ++ o.event ∷ []
bodies-snoc o [] = refl
bodies-snoc o (p ∷ os) = ap (λ l. p.event ∷ l) (bodies-snoc o os)

pub append_event-bodies :
    (e : ScenarioEvent) (r : ScenarioRegistry)
    → bodies (append_event e r).events ≡ bodies r.events ++ e ∷ []
unfolding append_event
append_event-bodies e r =
    let o : Object = record { number = r.made; event = e } in
    elim (Bool-cases r.defer_writes) [
      | inl h ↦ rw h (bodies-snoc o r.events)
      | inr h ↦ rw h (bodies-snoc o r.events)
    ]

pub scenario_id_of-number : (n : ℕ) → without_prefix "scn-" (scenario_id_of n) ≡ some (pad_three n)
unfolding scenario_id_of
scenario_id_of-number n = refl

greatest_rest :
    (e : ScenarioEvent) (es : List ScenarioEvent) (m : ℕ)
    → greatest_taken (e ∷ es) ≡ some m
    → (n : ℕ) × (greatest_taken es ≡ some n) × (n ≤ m)
greatest_rest e es m h = elim (Option-cases (greatest_taken es)) [
  | inl q ↦ absurd (ground arith)
  | inr (n, q) ↦ (n, q, ground arith)
]

-- The number of a taken id counts.
greatest-counts :
    (e : ScenarioEvent) (es : List ScenarioEvent) (m k n : ℕ)
    → greatest_taken es ≡ some n
    → without_prefix "scn-" e.scenario_id ≡ some (pad_three k)
    → greatest_taken (e ∷ es) ≡ some m
    → k ≤ m
greatest-counts e es m k n q w h = ground (arith, int_of-pad_three k)

not_next :
    (e : ScenarioEvent) (es : List ScenarioEvent) (m k : ℕ)
    → greatest_taken (e ∷ es) ≡ some m
    → m < k
    → e.scenario_id ≢ scenario_id_of k
not_next e es m k h lt same =
    let (n, q, _) = greatest_rest e es m h in
    absurd (
      omega (
        arith,
        greatest-counts e es m k n q (ap (without_prefix "scn-") same ∙ scenario_id_of-number k) h,
      ))

-- An id with a number above all that are taken is no event's.
unused :
    (es : List ScenarioEvent) (m k : ℕ)
    → greatest_taken es ≡ some m
    → m < k
    → select (λ e. e.scenario_id == scenario_id_of k) es ≡ []
unused [] m k h lt = refl
unused (e ∷ es) m k h lt =
    let (n, q, le) = greatest_rest e es m h in
    ground (
      arith,
      not_next e es m k h lt,
      unused es n k q (omega arith),
      eq_iff e.scenario_id (scenario_id_of k),
    )

get-unused :
    (es : List ScenarioEvent) (m : ℕ)
    → greatest_taken es ≡ some m
    → get (scenario_id_of (m + 1)) es ≡ none
unfolding get
get-unused es m h = ap state_of (unused es m (m + 1) h (omega arith))

-- One more event changes what is found at its id only.
pub get-append_event :
    (i : String) (e : ScenarioEvent) (r : ScenarioRegistry)
    → get i (bodies (append_event e r).events)
      ≡ (if e.scenario_id == i then extend e (get i (bodies r.events)) else get i (bodies r.events))
get-append_event i e r = ap (get i) (append_event-bodies e r) ∙ get-snoc i e (bodies r.events)

get-appended :
    (e : ScenarioEvent) (r : ScenarioRegistry)
    → get e.scenario_id (bodies (append_event e r).events)
      ≡ extend e (get e.scenario_id (bodies r.events))
get-appended e r =
    get-append_event e.scenario_id e r ∙ ground (arith, eq_iff e.scenario_id e.scenario_id)

abbrev pub opening : String → String → ℕ → String → String → ℕ → ScenarioEvent
opening name run_id weight reason now m = record {
  scenario_id = scenario_id_of (m + 1);
  name = name;
  run_id = run_id;
  status = open_status;
  weight = weight;
  reason = reason;
  at_time = now;
}

pub open_scenario_lem :
    (name run_id : String) (weight : ℕ) (reason now : String) (r : ScenarioRegistry) (m : ℕ)
    → greatest_taken (bodies r.events) ≡ some m
    → let e = opening name run_id weight reason now m in
      (open_scenario name run_id weight reason now r ≡ returns (first_state e, append_event e r))
      × (get e.scenario_id (bodies r.events) ≡ none)
unfolding open_scenario
open_scenario_lem name run_id weight reason now r m h =
    let e : ScenarioEvent = opening name run_id weight reason now m in
    let new = get-unused (bodies r.events) m h in
    let now_found = get-appended e r ∙ ap (extend e) new in ground (arith, h, now_found, new)

pub update-raises :
    (i run_id : String) (status : ScenarioStatus) (weight : ℕ) (reason now : String)
    (r : ScenarioRegistry)
    → get i (bodies r.events) ≡ none
    → update i run_id status weight reason now r ≡ raises (unknown_scenario i)
unfolding update
update-raises i run_id status weight reason now r h = ground (arith, h)

abbrev pub updating :
    String → String → ScenarioStatus → ℕ → String → String → String → ScenarioEvent
updating i run_id status weight reason now name = record {
  scenario_id = i;
  name = name;
  run_id = run_id;
  status = status;
  weight = weight;
  reason = reason;
  at_time = now;
}

pub update-returns :
    (i run_id : String) (status : ScenarioStatus) (weight : ℕ) (reason now : String)
    (r : ScenarioRegistry) (s : ScenarioState)
    → get i (bodies r.events) ≡ some s
    → let e = updating i run_id status weight reason now s.name in
      update i run_id status weight reason now r ≡ returns (next_state e s, append_event e r)
unfolding update
update-returns i run_id status weight reason now r s h =
    let e : ScenarioEvent = updating i run_id status weight reason now s.name in
    let now_found = get-appended e r ∙ ap (extend e) h in ground (arith, h, now_found)
