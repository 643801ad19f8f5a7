-- ===== src/Daily/Unpublished.antt =====
-- engine/wolves/run_agent.py: a run that publishes no forecast of its agent leaves no trace on disk, and
-- what it publishes instead.
use wolves_ai.Base.{ℕ, ◌≡◌, refl, ◌∙◌, true, false, ◌&&◌, Option, none, some, List, [], ◌∷◌, arith}
use wolves_ai.Scenarios.{ScenarioEvent}
use wolves_ai.Daily.World.{
  Lesson, Call, Exn, publish_fitted, record_stream, publish, shut_down, push, generate_fallback,
  publish_fallback, World, Act, pure, ◌>>=◌, ◌>>◌, modify, when, perform, answered,
  commit_agent_state, discard_agent_state,
}
use wolves_ai.Daily.Flow.{
  GraphRunResult, Args, Outside, apply_write, apply_writes, Write, opens, updates, stages, swallow,
  graph_turn, preferred, fallback, should_publish_fallback, published, verdict, forecast_day,
}
use wolves_ai.Daily.Hoare.{Keeps, then-Keeps, handle-Keeps, when-Keeps, perform-Keeps}
use wolves_ai.Daily.Saved.{IsOnDisk, is_published, apply_writes-IsOnDisk, discard-IsOnDisk}
use wolves_ai.Daily.Stages.{
  steady-Keeps, swallow-Keeps, ending-Keeps, unpublished-Keeps, before_after-Keeps,
  after_graph-Keeps,
}

done-apply_write : (x : Write) (w : World) → (apply_write w x).done ≡ w.done
unfolding apply_write
done-apply_write (opens name run_id weight reason now) w = refl
done-apply_write (updates i run_id status weight reason now) w = refl
done-apply_write (stages lesson text) w = refl

pub done-apply_writes : (xs : List Write) (w : World) → (apply_writes xs w).done ≡ w.done
unfolding apply_writes
done-apply_writes [] w = refl
done-apply_writes (x ∷ xs) w = done-apply_writes xs (apply_write w x) ∙ done-apply_write x w

-- A snapshot that is out stays so.
stays :
    (c : Call) (w : World)
    → is_published w ≡ true
    → is_published (record w { done = c ∷ w.done }) ≡ true
stays c w h = ground (arith, h)

module _ (file : List ScenarioEvent) (lessons : List Lesson) where
  -- On disk nothing has changed, unless the snapshot is out.
  abbrev pub IsGuarded : World → Type 0
  IsGuarded w = is_published w ≡ false → IsOnDisk file lessons w

  calls-IsGuarded :
      (c : Call) (w : World) → IsGuarded w → IsGuarded (record w { done = c ∷ w.done })
  calls-IsGuarded c w h out =
      let v : IsOnDisk file lessons w = h (ground arith) in
      record { defers = v.defers; scenarios = v.scenarios; lessons_kept = v.lessons_kept }

  discards-IsGuarded : (w : World) → IsGuarded w → IsGuarded (discard_agent_state w)
  discards-IsGuarded w h out =
      discard-IsOnDisk file lessons w (h (unfold discard_agent_state in out))

  module _ (args : Args) (out : Outside) where
    graphs-IsGuarded : Keeps IsGuarded (graph_turn args out)
    unfolding graph_turn
    graphs-IsGuarded w h p =
        let q = done-apply_writes (out.graph w).writes w in
        let v =
          apply_writes-IsOnDisk file lessons (out.graph w).writes w (h (ground (arith, q, p))) in
        record { defers = v.defers; scenarios = v.scenarios; lessons_kept = v.lessons_kept }

    prefers-IsGuarded : (result : GraphRunResult) → Keeps IsGuarded (preferred args out result)
    unfolding preferred
    prefers-IsGuarded result w h p =
        let v = h p in
        record { defers = v.defers; scenarios = v.scenarios; lessons_kept = v.lessons_kept }

    committed : Keeps (λ w. is_published w ≡ true) (modify commit_agent_state)
    unfolding commit_agent_state
    committed w h = h

    -- What follows the publication.
    after_publish-Keeps :
        (result : GraphRunResult)
        → Keeps {A = ℕ}
            (λ w. is_published w ≡ true)
            (do
              when (out.has_forecaster && out.is_fitted) (perform out.raises publish_fitted)
              modify commit_agent_state
              verdict args out result
              perform out.raises shut_down
              when out.has_state_store (perform out.raises push)
              pure 0)
    after_publish-Keeps result =
        let P : World → Type 0 = λ w. is_published w ≡ true in
        then-Keeps P _ _
          (when-Keeps P (out.has_forecaster && out.is_fitted) _
            (steady-Keeps args out P (λ c w h. stays c w) publish_fitted refl))
          (then-Keeps P _ _ committed (ending-Keeps args out P (λ c w h. stays c w) result))

    answered_then :
        (x : Option Exn) (k : Act ℕ)
        → Keeps (λ w. is_published w ≡ true) k
        → Keeps IsGuarded (answered (publish out.spent) x >>= λ _. k)
    unfolding ◌>>=◌
    answered_then none k l w h p =
        absurd (ground (arith, l (record w { done = publish out.spent ∷ w.done }) refl, p))
    answered_then (some x) k l w h p = h p

    published-IsGuarded : (result : GraphRunResult) → Keeps IsGuarded (published args out result)
    unfolding published ◌>>◌ perform
    published-IsGuarded result =
        then-Keeps IsGuarded _ _
          (steady-Keeps args out IsGuarded (λ c w h. calls-IsGuarded c w) record_stream refl)
          (λ w. answered_then (out.raises (publish out.spent) w) _ (after_publish-Keeps result) w)

    fallback-IsGuarded : Keeps IsGuarded (fallback args out)
    unfolding fallback
    fallback-IsGuarded w =
        when-Keeps IsGuarded (should_publish_fallback w.submission) _
          (handle-Keeps IsGuarded _ swallow
            (then-Keeps IsGuarded _ _
              (perform-Keeps IsGuarded out.raises generate_fallback
                (calls-IsGuarded generate_fallback))
              (perform-Keeps IsGuarded out.raises publish_fallback
                (calls-IsGuarded publish_fallback)))
            (swallow-Keeps args out IsGuarded (λ c w h. calls-IsGuarded c w)))
          w

    all_day : Keeps IsGuarded (forecast_day args out)
    all_day =
        before_after-Keeps args out IsGuarded (λ c w h. calls-IsGuarded c w) discards-IsGuarded
          graphs-IsGuarded prefers-IsGuarded
          (after_graph-Keeps args out IsGuarded (λ c w h. calls-IsGuarded c w) discards-IsGuarded
            graphs-IsGuarded prefers-IsGuarded
            (unpublished-Keeps args out IsGuarded (λ c w h. calls-IsGuarded c w) fallback-IsGuarded)
            published-IsGuarded)

-- Of the part of a run that forecasts (past the pull and the scoring of yesterday), where the registry
-- stages its writes: if no forecast of the agent has been published when it ends, whether with an exit
-- code or with an exception, then the files of scenarios and of lessons hold what they held when this
-- part began.
pub forecast_day-keeps :
    (args : Args) (out : Outside) (w : World)
    → w.registry.defer_writes ≡ true
    → is_published (forecast_day args out w).1 ≡ false
    → ((forecast_day args out w).1.registry.file ≡ w.registry.file)
      × ((forecast_day args out w).1.memory.lessons ≡ w.memory.lessons)
forecast_day-keeps args out w h p =
    let v =
      all_day w.registry.file w.memory.lessons args out w
        (λ q. record { defers = h; scenarios = refl; lessons_kept = refl }) p in
    (v.scenarios, v.lessons_kept)
