-- ===== src/Daily/Phase.antt =====
-- engine/wolves/run_agent.py: how far a run has come, and that the graph leaves it where it was.
use wolves_ai.Base.{
  ◌≡◌, refl, sym, ap, ◌∙◌, Bool, true, false, List, [], ◌∷◌, ◌++◌, append_nil, any, arith,
}
use wolves_ai.Base.Sorted.{is_empty}
use wolves_ai.Scenarios.{ScenarioRegistry, bodies, commit, rollback}
use wolves_ai.Scenarios.Staging.{
  IsMirrored, append_event-IsMirrored, commit-IsMirrored, mirrored_bodies, rollback-IsMirrored,
}
use wolves_ai.Daily.World.{
  Lesson, RunMemory, Call, record_failure, commit_staged_lessons, clear_staged_lessons,
  publish_fallback, World, perform, commit_agent_state, discard_agent_state,
}
use wolves_ai.Daily.Flow.{GraphRunResult, Args, Outside, graph_turn, preferred, graph_result}
use wolves_ai.Daily.Hoare.{Keeps}
use wolves_ai.Daily.Ends.{Ends, Keeps-Ends}
use wolves_ai.Daily.Saved.{is_publish, is_published, apply_writes-S}
use wolves_ai.Daily.Stages.{is_steady, steady-Keeps, graph_result-Keeps}
use wolves_ai.Daily.Unpublished.{done-apply_writes}

abbrev pub is_failure : Call → Bool
is_failure (record_failure c) = true
is_failure _ = false

abbrev pub is_fallback : Call → Bool
is_fallback publish_fallback = true
is_fallback _ = false

rollback_staged : (r : ScenarioRegistry) → (rollback r).staged ≡ []
unfolding rollback
rollback_staged r = refl

commit_staged : (r : ScenarioRegistry) → (commit r).staged ≡ []
unfolding commit
commit_staged r = refl

nothing_in : (ls : List Lesson) → is_empty ls ≡ true → ls ≡ []
nothing_in [] h = refl
nothing_in (_ ∷ _) h = absurd (ground arith)

no_lessons : (m : RunMemory) → (commit_staged_lessons m).staged_lessons ≡ []
unfolding commit_staged_lessons
no_lessons m = ground (arith, nothing_in m.staged_lessons)

-- How far a run has come: the snapshot is out, nothing is staged, the failure is recorded, a fallback
-- may be out.
pub record Phase (out settled failure fell : Bool) (w : World) : Type 0 where
  pub snapshot : is_published w ≡ out
  pub mirrored : IsMirrored w.registry
  pub nothing_staged : settled ≡ true → (w.registry.staged ≡ []) × (w.memory.staged_lessons ≡ [])
  pub recorded : failure ≡ true → any is_failure w.done ≡ true
  pub fallen :
      any is_fallback w.done ≡ true → (fell ≡ true) × (w.submission.publication_blocked ≡ false)

quiet :
    (c : Call) (cs : List Call) → is_steady c ≡ true → any is_publish (c ∷ cs) ≡ any is_publish cs
quiet c cs h = ground arith

no_fallback :
    (c : Call) (cs : List Call) → is_steady c ≡ true → any is_fallback (c ∷ cs) ≡ any is_fallback cs
no_fallback c cs h = ground arith

module _ (out settled failure fell : Bool) where
  pub calls-Phase :
      (c : Call) (w : World)
      → is_steady c ≡ true
      → Phase out settled failure fell w
      → Phase out settled failure fell (record w { done = c ∷ w.done })
  calls-Phase c w h v = record {
    snapshot = quiet c w.done h ∙ v.snapshot;
    mirrored = v.mirrored;
    nothing_staged = v.nothing_staged;
    recorded = λ e. ground (arith, v.recorded e);
    fallen = λ e. v.fallen (sym (no_fallback c w.done h) ∙ e);
  }

  pub discards-Phase :
      (s : Bool) (w : World)
      → Phase out settled failure fell w
      → Phase out s failure fell (discard_agent_state w)
  unfolding discard_agent_state clear_staged_lessons
  discards-Phase s w v = record {
    snapshot = v.snapshot;
    mirrored = rollback-IsMirrored w.registry v.mirrored;
    nothing_staged = λ e. (rollback_staged w.registry, refl);
    recorded = v.recorded;
    fallen = v.fallen;
  }

  pub commits-Phase :
      (s : Bool) (w : World)
      → Phase out settled failure fell w
      → Phase out s failure fell (commit_agent_state w)
  unfolding commit_agent_state
  commits-Phase s w v = record {
    snapshot = v.snapshot;
    mirrored = commit-IsMirrored w.registry v.mirrored;
    nothing_staged = λ e. (commit_staged w.registry, no_lessons w.memory);
    recorded = v.recorded;
    fallen = v.fallen;
  }

-- A new run, which has published nothing.
abbrev pub Fresh : World → Type 0
Fresh = Phase false false false false

-- With nothing staged, what is in memory is what is on disk.
pub Phase-saved :
    (out failure fell : Bool) (w : World)
    → Phase out true failure fell w
    → bodies w.registry.events ≡ w.registry.file
Phase-saved out failure fell w v =
    mirrored_bodies w.registry v.mirrored
    ∙ ap (λ os. w.registry.file ++ bodies os) (v.nothing_staged refl).0
    ∙ append_nil w.registry.file

module _ (args : Args) (out : Outside) where
  pub steady :
      (o s f b : Bool) (c : Call)
      → is_steady c ≡ true
      → Keeps (Phase o s f b) (perform out.raises c)
  steady o s f b = steady-Keeps args out (Phase o s f b) (calls-Phase o s f b)

  graphs-Phase : Keeps Fresh (graph_turn args out)
  unfolding graph_turn
  graphs-Phase w v =
      let same = done-apply_writes (out.graph w).writes w in
      record {
        snapshot = ground (arith, ap (any is_publish) same, v.snapshot);
        mirrored =
            apply_writes-S IsMirrored append_event-IsMirrored (out.graph w).writes w v.mirrored;
        nothing_staged = λ e. absurd (ground arith);
        recorded = λ e. absurd (ground arith);
        fallen = λ e. absurd (ground (arith, v.fallen (sym (ap (any is_fallback) same) ∙ e)));
      }

  prefers-Phase : (result : GraphRunResult) → Keeps Fresh (preferred args out result)
  unfolding preferred
  prefers-Phase result w v = record {
    snapshot = v.snapshot;
    mirrored = v.mirrored;
    nothing_staged = v.nothing_staged;
    recorded = v.recorded;
    fallen = λ e. absurd (ground (arith, v.fallen e));
  }

  pub graph_result-Phase : Ends Fresh (λ _. Fresh) (graph_result args out)
  graph_result-Phase = Keeps-Ends Fresh (graph_result args out) (
      graph_result-Keeps args out Fresh (calls-Phase false false false false)
        (discards-Phase false false false false false) graphs-Phase prefers-Phase)
