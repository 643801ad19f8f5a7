-- ===== src/Scenarios/Tests.antt =====
-- The registry of scenarios at fixed inputs.
use wolves_ai.Base.{
  ℕ, Option, none, some, ◌++◌, if◌then◌else◌, ◌≡◌, refl, true, false, List, [], ◌∷◌, string_eq,
}
use wolves_ai.Base.Decimal.{pad_three, decimal}
use wolves_ai.Scenarios.{
  open_status, collapsed, ScenarioEvent, ScenarioRegistry, bodies, get, load, commit, rollback,
  append_event, open_scenario, update, scenario_id_of,
}
use wolves_ai.Scenarios.Runs.{Command, open_new, change, roll_back, step, run}
use wolves_ai.Scenarios.Refinement.{Refines, spec_of, run-Refines}
use wolves_ai.Base.Lines.{LineCodec, write_lines, splitlines, lines_after}
use wolves_ai.Base.Text.{codes, same_codes}
use wolves_ai.Scenarios.Lines.{open_registry, text_of, run-reloads}

abbrev old : ScenarioEvent
old = record {
  scenario_id = "scn-007";
  name = "Injury";
  run_id = "run-1";
  status = open_status;
  weight = 20;
  reason = "news";
  at_time = "t0";
}

abbrev calls : List Command
calls =
    open_new "Heat" "run-2" 15 "forecast" "t1"
    ∷ change "scn-007" "run-2" collapsed 0 "recovered" "t2"
    ∷ change "scn-099" "run-2" collapsed 0 "unknown" "t3"
    ∷ []

abbrev registry : ScenarioRegistry
registry = run calls (load (old ∷ []) true)

registry_runs :
    (bodies registry.events
      ≡ old
        ∷ record old {
          scenario_id = "scn-008";
          name = "Heat";
          run_id = "run-2";
          weight = 15;
          reason = "forecast";
          at_time = "t1";
        }
        ∷ record old {
          run_id = "run-2";
          status = collapsed;
          weight = 0;
          reason = "recovered";
          at_time = "t2";
        }
        ∷ [])
    × (registry.file ≡ old ∷ [])
    × (bodies (rollback registry).events ≡ old ∷ [])
unfolding load open_scenario update get append_event scenario_id_of rollback pad_three decimal
registry_runs = (refl, refl, refl)

run-Refines_example :
    Refines registry.defer_writes (spec_of registry) (spec_of (step roll_back registry)) roll_back
run-Refines_example = run-Refines (old ∷ []) true calls roll_back refl

-- A line has the time and the name of its event in braces; it reads as one of these events.
abbrev line_of : ScenarioEvent → List ℕ
line_of e = 123 ∷ codes e.at_time ++ codes e.name ++ 125 ∷ []

abbrev read_as : List ScenarioEvent → List ℕ → Option ScenarioEvent
read_as [] l = none
read_as (e ∷ es) l = if same_codes (line_of e) l then some e else read_as es l

abbrev codec : LineCodec ScenarioEvent
codec = record { dump = line_of; validate = read_as (bodies registry.events) }

-- U+2028 in a text, which JSON leaves as it is, cuts its line in two.
splitlines_runs :
    splitlines (123 ∷ 65 ∷ 8232 ∷ 66 ∷ 125 ∷ 10 ∷ 67 ∷ 13 ∷ 10 ∷ 68 ∷ [])
    ≡ (123 ∷ 65 ∷ []) ∷ (66 ∷ 125 ∷ []) ∷ (67 ∷ []) ∷ (68 ∷ []) ∷ []
unfolding lines_after
splitlines_runs = refl

run-reloads_example :
    (text_of codec (commit registry)
      ≡ text_of codec registry ++ write_lines codec (bodies registry.staged))
    × (open_registry codec (text_of codec (commit registry)) false
        ≡ some (load (bodies registry.events) false))
    × (bodies (load (bodies registry.events) false).events ≡ bodies registry.events)
    × (bodies (rollback registry).events ≡ registry.file)
    × (text_of codec (rollback registry) ≡ text_of codec registry)
    × (registry.defer_writes ≡ false
        → text_of codec registry ≡ write_lines codec (bodies registry.events))
unfolding load open_scenario update get append_event scenario_id_of pad_three decimal
run-reloads_example = run-reloads codec (old ∷ []) true false calls refl (
  record { reads = refl; unblank = refl; unbroken = refl },
  (
    record { reads = refl; unblank = refl; unbroken = refl },
    (record { reads = refl; unblank = refl; unbroken = refl }, tt),
  ),
)
