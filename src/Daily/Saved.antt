-- ===== src/Daily/Saved.antt =====
-- engine/wolves/run_agent.py: the scenarios and lessons that outlive a run change only with its snapshot.
use wolves_ai.Base.{
  ℕ, ◌≡◌, refl, ◌∙◌, Bool, true, false, String, Option, none, some, List, [], ◌∷◌, any, arith,
}
use wolves_ai.Scenarios.{
  ScenarioStatus, ScenarioEvent, ScenarioState, ScenarioRegistry, Raised, value_error,
  unknown_scenario, Result, raises, bodies, get, append_event, found_with, greatest_taken,
  open_scenario, update, rollback,
}
use wolves_ai.Daily.World.{
  Lesson, RunMemory, stage_lessons, clear_staged_lessons, Call, publish, World, discard_agent_state,
}
use wolves_ai.Daily.Flow.{Write, opens, updates, stages, kept, apply_write, apply_writes}

abbrev pub is_publish : Call → Bool
is_publish (publish c) = true
is_publish _ = false

-- The snapshot of the agent is out.
abbrev pub is_published : World → Bool
is_published w = any is_publish w.done

-- What is on disk, and that tools only stage.
pub record IsOnDisk (file : List ScenarioEvent) (lessons : List Lesson) (w : World) : Type 0 where
  pub defers : w.registry.defer_writes ≡ true
  pub scenarios : w.registry.file ≡ file
  pub lessons_kept : w.memory.lessons ≡ lessons

-- What an event keeps, a method keeps.
module _ (S : ScenarioRegistry → Type 0)
    (appends : (e : ScenarioEvent) (r : ScenarioRegistry) → S r → S (append_event e r)) where
  found_with-S :
      (r r' : ScenarioRegistry) (s : Option ScenarioState)
      → S r
      → S r'
      → S (kept r (found_with r' s))
  found_with-S r r' none h k = h
  found_with-S r r' (some s) h k = k

  -- A method that looks something up first, and raises where it is not there.
  looked_up-S {ℓ} :
      {A : Type ℓ} (r : ScenarioRegistry) (e : Raised) (o : Option A)
      (f : A → Result (ScenarioState × ScenarioRegistry))
      → S r
      → ((a : A) → S (kept r (f a)))
      → S (kept r (elim o [ none ↦ raises e | some a ↦ f a ]))
  looked_up-S r e none f h k = h
  looked_up-S r e (some a) f h k = k a

  open_scenario-S :
      (name run_id : String) (weight : ℕ) (reason now : String) (r : ScenarioRegistry)
      → S r
      → S (kept r (open_scenario name run_id weight reason now r))
  unfolding open_scenario
  open_scenario-S name run_id weight reason now r h =
      looked_up-S r value_error (greatest_taken (bodies r.events)) _ h
        (λ n. found_with-S r _ _ h (appends _ r h))

  update-S :
      (i run_id : String) (status : ScenarioStatus) (weight : ℕ) (reason now : String)
      (r : ScenarioRegistry)
      → S r
      → S (kept r (update i run_id status weight reason now r))
  unfolding update
  update-S i run_id status weight reason now r h =
      looked_up-S r (unknown_scenario i) (get i (bodies r.events)) _ h
        (λ n. found_with-S r _ _ h (appends _ r h))

  apply_write-S : (x : Write) (w : World) → S w.registry → S (apply_write w x).registry
  unfolding apply_write
  apply_write-S (opens name run_id weight reason now) w h =
      open_scenario-S name run_id weight reason now w.registry h
  apply_write-S (updates i run_id status weight reason now) w h =
      update-S i run_id status weight reason now w.registry h
  apply_write-S (stages lesson text) w h = h

  pub apply_writes-S : (xs : List Write) (w : World) → S w.registry → S (apply_writes xs w).registry
  unfolding apply_writes
  apply_writes-S [] w h = h
  apply_writes-S (x ∷ xs) w h = apply_writes-S xs (apply_write w x) (apply_write-S x w h)

-- A registry that stages and holds the file.
abbrev Stages : List ScenarioEvent → ScenarioRegistry → Type 0
Stages file r = (r.defer_writes ≡ true) × (r.file ≡ file)

append_event-Stages :
    (file : List ScenarioEvent) (e : ScenarioEvent) (r : ScenarioRegistry)
    → Stages file r
    → Stages file (append_event e r)
unfolding append_event
append_event-Stages file e r h = ground (arith, h)

stage_lessons-lessons :
    (lesson : String → Lesson) (text : String) (m : RunMemory)
    → (stage_lessons lesson text m).lessons ≡ m.lessons
unfolding stage_lessons
stage_lessons-lessons lesson text m = ground arith

lessons-apply_write : (x : Write) (w : World) → (apply_write w x).memory.lessons ≡ w.memory.lessons
unfolding apply_write
lessons-apply_write (opens name run_id weight reason now) w = refl
lessons-apply_write (updates i run_id status weight reason now) w = refl
lessons-apply_write (stages lesson text) w = stage_lessons-lessons lesson text w.memory

lessons-apply_writes :
    (xs : List Write) (w : World) → (apply_writes xs w).memory.lessons ≡ w.memory.lessons
unfolding apply_writes
lessons-apply_writes [] w = refl
lessons-apply_writes (x ∷ xs) w =
    lessons-apply_writes xs (apply_write w x) ∙ lessons-apply_write x w

module _ (file : List ScenarioEvent) (lessons : List Lesson) where
  pub apply_writes-IsOnDisk :
      (xs : List Write) (w : World)
      → IsOnDisk file lessons w
      → IsOnDisk file lessons (apply_writes xs w)
  apply_writes-IsOnDisk xs w v =
      let (d, f) =
        apply_writes-S (Stages file) (append_event-Stages file) xs w (v.defers, v.scenarios) in
      record {
        defers = d;
        scenarios = f;
        lessons_kept = lessons-apply_writes xs w ∙ v.lessons_kept;
      }

  pub discard-IsOnDisk :
      (w : World) → IsOnDisk file lessons w → IsOnDisk file lessons (discard_agent_state w)
  unfolding discard_agent_state rollback clear_staged_lessons
  discard-IsOnDisk w v = ground (arith, v)
