-- ===== src/Daily/World.antt =====
-- engine/wolves/run_agent.py and agent/memory.py: what a run of the day reads and changes, and its
-- calls of the outside, each of which may raise. `done` is newest first and holds the calls that have
-- returned. A registry of scenarios is always there, as `_build_deps` makes one.
use wolves_ai.Base.{ℕ, Bool, String, Option, none, some, List, [], ◌∷◌, ◌++◌, if◌then◌else◌}
use wolves_ai.Base.Text.{codes, is_blank}
use wolves_ai.Base.Sorted.{is_empty}
use wolves_ai.Submission.{SubmissionState}
use wolves_ai.Scenarios.{ScenarioRegistry, commit, rollback}

pub record Lesson : Type 0 where
  pub date : String
  pub run_id : String
  pub scope : String
  pub text : String

-- `RunMemory`: the file of lessons, and those that wait.
pub record RunMemory : Type 0 where
  pub lessons : List Lesson
  pub staged_lessons : List Lesson

-- `_lesson` is an argument: it adds the day and the id of the run to a text.
unfoldable pub append_lessons : (String → Lesson) → String → RunMemory → RunMemory
append_lessons lesson text m =
    if is_blank (codes text) then m else record m { lessons = m.lessons ++ lesson text ∷ [] }

unfoldable pub stage_lessons : (String → Lesson) → String → RunMemory → RunMemory
stage_lessons lesson text m =
    if is_blank (codes text)
    then m
    else record m { staged_lessons = m.staged_lessons ++ lesson text ∷ [] }

unfoldable pub commit_staged_lessons : RunMemory → RunMemory
commit_staged_lessons m =
    if is_empty m.staged_lessons
    then m
    else record { lessons = m.lessons ++ m.staged_lessons; staged_lessons = [] }

unfoldable pub clear_staged_lessons : RunMemory → RunMemory
clear_staged_lessons m = record m { staged_lessons = [] }

pub data AttemptStatus : Type 0 where
  started cancelled failed degraded complete : AttemptStatus

-- The calls of the outside.
pub data Call : Type 0 where
  pull score_yesterday build_run seed_mixture : Call
  live_attempt : AttemptStatus → Call
  run_graph fetch_market : Call
  record_failure : (cost : ℕ) → Call
  shut_down close_clients append_feedback run_incomplete push : Call
  generate_fallback publish_fallback build_snapshot record_stream : Call
  publish : (cost : ℕ) → Call
  publish_fitted : Call

pub data Exn : Type 0 where
  s3_unavailable cancelled_error other_error : Exn

pub record World : Type 0 where
  pub registry : ScenarioRegistry
  pub memory : RunMemory
  pub submission : SubmissionState
  pub done : List Call

pub data Reply {ℓ} (A : Type ℓ) : Type ℓ where
  returned : A → Reply A
  raised : Exn → Reply A

abbrev pub Act {ℓ} : Type ℓ → Type ℓ
Act A = World → Reply A × World

abbrev pub pure {ℓ} : {A : Type ℓ} → A → Act A
pure a w = (returned a, w)

abbrev pub raise {ℓ} : {A : Type ℓ} → Exn → Act A
raise x w = (raised x, w)

abbrev pub follow {ℓ κ} : {A : Type ℓ} {B : Type κ} → (A → Act B) → Reply A → Act B
follow f (returned a) w = f a w
follow f (raised x) w = (raised x, w)

infixl 5 ◌>>=◌ ◌>>◌
unfoldable pub ◌>>=◌ {ℓ κ} : {A : Type ℓ} {B : Type κ} → Act A → (A → Act B) → Act B
◌>>=◌ m f w = follow f (m w).0 (m w).1

unfoldable pub ◌>>◌ {ℓ} : {B : Type ℓ} → Act (Unit {0}) → Act B → Act B
unfolding ◌>>=◌
m >> k = m >>= λ _. k

abbrev pub rescue {ℓ} : {A : Type ℓ} → (Exn → Act A) → Reply A → Act A
rescue f (returned a) w = (returned a, w)
rescue f (raised x) w = f x w

-- `try: … except`
unfoldable pub handle {ℓ} : {A : Type ℓ} → Act A → (Exn → Act A) → Act A
handle m f w = rescue f (m w).0 (m w).1

abbrev pub modify : (World → World) → Act (Unit {0})
modify f w = (returned tt, f w)

abbrev pub when : Bool → Act (Unit {0}) → Act (Unit {0})
when b m = if b then m else pure tt

abbrev pub answered : Call → Option Exn → Act (Unit {0})
answered call none w = (returned tt, record w { done = call ∷ w.done })
answered call (some x) w = (raised x, w)

-- `raises` is what a call raises, if it does.
unfoldable pub perform : (Call → World → Option Exn) → Call → Act (Unit {0})
perform raises call w = answered call (raises call w) w

unfoldable pub commit_agent_state : World → World
unfolding commit_staged_lessons
commit_agent_state w = record w {
  registry = commit w.registry;
  memory = commit_staged_lessons w.memory;
}

unfoldable pub discard_agent_state : World → World
unfolding clear_staged_lessons
discard_agent_state w = record w {
  registry = rollback w.registry;
  memory = clear_staged_lessons w.memory;
}
