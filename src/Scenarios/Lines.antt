-- ===== src/Scenarios/Lines.antt =====
-- engine/wolves/agent/scenarios.py: the file of the registry as a text, one line to each event.
use wolves_ai.Base.{
  ◌≡◌, refl, sym, ap, ◌∙◌, Bool, true, false, Option, none, some, ℕ, List, ◌++◌, All,
}
use wolves_ai.Base.Lines.{
  LineCodec, write_lines, read_lines, IsLine, read-write_lines, write_lines-append,
}
use wolves_ai.Scenarios.{ScenarioEvent, ScenarioRegistry, bodies, load, commit, rollback}
use wolves_ai.Scenarios.Staging.{bodies-objects_from, rolled_back, mirrored_bodies}
use wolves_ai.Scenarios.Runs.{Command, run, readable, run-IsSound, loaded}
use wolves_ai.Scenarios.Refinement.{file-current}

module _ (codec : LineCodec ScenarioEvent) where
  -- The text of the file, which `_write` and `commit` add their lines to.
  abbrev pub text_of : ScenarioRegistry → List ℕ
  text_of r = write_lines codec r.file

  -- `__init__` on a file with this text; nothing where a line does not validate
  unfoldable pub open_registry : List ℕ → Bool → Option ScenarioRegistry
  open_registry text defer = elim (read_lines codec text) [
    | none ↦ none
    | some events ↦ some (load events defer)
  ]

  open-written :
      (es : List ScenarioEvent) (defer : Bool)
      → All (IsLine codec) es
      → open_registry (write_lines codec es) defer ≡ some (load es defer)
  unfolding open_registry
  open-written es defer h =
      ap
        (λ o. elim o as (λ x. Option ScenarioRegistry) [
          | none ↦ none
          | some events ↦ some (load events defer)
        ])
        (read-write_lines codec es h)

  -- Where every id of the file that starts with `scn-` goes on with a number, and after any calls on
  -- the registry of its events: a commit adds one line for each staged event behind the text of the
  -- file; a registry that is opened on that text holds the same events in the same order, if the line
  -- of each of them is one line that reads as the event; a rollback holds the events of the file and leaves its text as it is;
  -- and where writes are not deferred the text always has the lines of all events.
  pub run-reloads :
      (file : List ScenarioEvent) (defer again : Bool) (cs : List Command)
      → readable file ≡ true
      → All (IsLine codec) (bodies (run cs (load file defer)).events)
      → let r = run cs (load file defer) in
        (text_of (commit r) ≡ text_of r ++ write_lines codec (bodies r.staged))
        × (open_registry (text_of (commit r)) again ≡ some (load (bodies r.events) again))
        × (bodies (load (bodies r.events) again).events ≡ bodies r.events)
        × (bodies (rollback r).events ≡ r.file)
        × (text_of (rollback r) ≡ text_of r)
        × (r.defer_writes ≡ false → text_of r ≡ write_lines codec (bodies r.events))
  run-reloads file defer again cs h lines =
      let r : ScenarioRegistry = run cs (load file defer) in
      let v = (run-IsSound cs (load file defer) (loaded file defer h)).mirrored in
      (
        unfold commit in write_lines-append codec r.file (bodies r.staged),
        unfold commit in
            (ap (λ es. open_registry (write_lines codec es) again) (sym (mirrored_bodies r v))
              ∙ open-written (bodies r.events) again lines),
        unfold load in bodies-objects_from 0 (bodies r.events),
        ap bodies (rolled_back r v) ∙ v.saved,
        unfold rollback in refl,
        (λ d. ap (write_lines codec) (file-current r v d)),
      )
