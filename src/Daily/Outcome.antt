-- ===== src/Daily/Outcome.antt =====
-- engine/wolves/run_agent.py: what the exit code of a run says.
use wolves_ai.Base.{
  ℕ, ◌≡◌, refl, ap, Bool, true, false, not, ◌&&◌, Option, none, some, [], ◌∷◌, any, if◌then◌else◌,
  arith,
}
use wolves_ai.Submission.{Forecast}
use wolves_ai.Scenarios.{bodies}
use wolves_ai.Scenarios.Staging.{IsMirrored}
use wolves_ai.Daily.World.{
  Call, publish_fitted, record_stream, publish, record_failure, shut_down, push, append_feedback,
  run_incomplete, build_snapshot, live_attempt, started, failed, build_run, seed_mixture,
  generate_fallback, publish_fallback, World, pure, ◌>>◌, handle, modify, when, perform,
  discard_agent_state,
}
use wolves_ai.Daily.Flow.{
  GraphRunResult, Args, Outside, swallow, fallback, should_publish_fallback, unpublished, published,
  verdict, after_graph, forecast_day, graph_result,
}
use wolves_ai.Daily.Hoare.{Keeps, then-Keeps, handle-Keeps, when-Keeps, perform-Keeps}
use wolves_ai.Daily.Ends.{Post, Ends, bind-Ends, Keeps-Ends, then-Ends, perform-Ends, if-Ends}
use wolves_ai.Daily.Saved.{is_publish}
use wolves_ai.Daily.Phase.{
  Phase, Fresh, calls-Phase, discards-Phase, commits-Phase, steady, graph_result-Phase, Phase-saved,
  is_fallback,
}
use wolves_ai.Daily.Stages.{is_steady, steady-Keeps, swallow-Keeps, verdict-Keeps}

-- The exit code of a run, and what there is then.
pub data Outcome (w : World) : ℕ → Type 0 where
  succeeded :
      Phase true true false false w → bodies w.registry.events ≡ w.registry.file → Outcome w 0
  gave_up : Phase false true true true w → bodies w.registry.events ≡ w.registry.file → Outcome w 1

module _ (args : Args) (out : Outside) where
  -- Under a submission that may be published.
  fallback_calls :
      Keeps
        (λ w. Phase false true true true w × (w.submission.publication_blocked ≡ false))
        (handle
          (do perform out.raises generate_fallback; perform out.raises publish_fallback)
          swallow)
  fallback_calls =
      let P : World → Type 0 =
        λ w. Phase false true true true w × (w.submission.publication_blocked ≡ false) in
      let calls : (c : Call) (w : World)
          → is_steady c ≡ true
          → P w
          → P (record w { done = c ∷ w.done }) =
        λ c w h v. (calls-Phase false true true true c w h v.0, v.1) in
      handle-Keeps P _ swallow
        (then-Keeps P _ _ (steady-Keeps args out P calls generate_fallback refl) (
          perform-Keeps P out.raises publish_fallback (λ w v. (
            record {
              snapshot = v.0.snapshot;
              mirrored = v.0.mirrored;
              nothing_staged = v.0.nothing_staged;
              recorded = v.0.recorded;
              fallen = λ e. (refl, v.1);
            },
            v.1,
          ))))
        (swallow-Keeps args out P calls)

  fallback_unless :
      (blocked : Bool) (w : World)
      → w.submission.publication_blocked ≡ blocked
      → Phase false true true true w
      → Phase false true true true
          (when
            (not blocked)
            (handle
              (do perform out.raises generate_fallback; perform out.raises publish_fallback)
              swallow)
            w).1
  fallback_unless true w h v = v
  fallback_unless false w h v = (fallback_calls w (v, h)).0

  fallback-Phase : Keeps (Phase false true true true) (fallback args out)
  unfolding fallback should_publish_fallback
  fallback-Phase w v = fallback_unless w.submission.publication_blocked w refl v

  unpublished-Ends : Ends (Phase false true false false) (λ n w. Outcome w n) (unpublished args out)
  unfolding unpublished
  unpublished-Ends =
      let P = Phase false true false false in
      let Q : ℕ → World → Type 0 = λ n w. Outcome w n in
      let kept : (c : Call) → is_steady c ≡ true → Keeps P (perform out.raises c) =
        steady args out false true false false in
      then-Ends P P Q _ _
        (Keeps-Ends P _ (when-Keeps P args.live _ (kept (live_attempt failed) refl)))
        (then-Ends P P Q _ _ (Keeps-Ends P _ (kept shut_down refl)) (
          then-Ends P P Q _ _ (Keeps-Ends P _ (when-Keeps P out.has_state_store _ (kept push refl)))
            (then-Ends P (Phase false true true true) Q _ _
              (perform-Ends P (Phase false true true true) out.raises (record_failure out.spent)
                failing)
              (then-Ends (Phase false true true true) (Phase false true true true) Q _ _
                (Keeps-Ends (Phase false true true true) _ fallback-Phase)
                (λ w v. gave_up v (Phase-saved false true true w v))))))
    where
      failing :
          (w : World)
          → Phase false true false false w
          → Phase false true true true (record w { done = record_failure out.spent ∷ w.done })
      failing w v = record {
        snapshot = v.snapshot;
        mirrored = v.mirrored;
        nothing_staged = v.nothing_staged;
        recorded = λ e. refl;
        fallen = λ e. (refl, (v.fallen e).1);
      }

  published-Ends :
      (result : GraphRunResult) → Ends Fresh (λ n w. Outcome w n) (published args out result)
  unfolding published
  published-Ends result =
      let Out = Phase true false false false in
      let Kept = Phase true true false false in
      let Q : ℕ → World → Type 0 = λ n w. Outcome w n in
      then-Ends Fresh Fresh Q _ _
        (Keeps-Ends Fresh _ (steady args out false false false false record_stream refl))
        (then-Ends Fresh Out Q _ _
          (perform-Ends Fresh Out out.raises (publish out.spent) publishing)
          (then-Ends Out Out Q _ _
            (Keeps-Ends Out _ (
              when-Keeps Out (out.has_forecaster && out.is_fitted) _
                (steady args out true false false false publish_fitted refl)))
            (then-Ends Out Kept Q _ _ (commits-Phase true false false false true) (ending result))))
    where
      publishing :
          (w : World)
          → Fresh w
          → Phase true false false false (record w { done = publish out.spent ∷ w.done })
      publishing w v = record {
        snapshot = refl;
        mirrored = v.mirrored;
        nothing_staged = v.nothing_staged;
        recorded = v.recorded;
        fallen = v.fallen;
      }

      ending :
          (result : GraphRunResult)
          → Ends {A = ℕ}
              (Phase true true false false)
              (λ n w. Outcome w n)
              (do
                verdict args out result
                perform out.raises shut_down
                when out.has_state_store (perform out.raises push)
                pure 0)
      ending result =
          let Kept = Phase true true false false in
          let Q : ℕ → World → Type 0 = λ n w. Outcome w n in
          then-Ends Kept Kept Q _ _
            (Keeps-Ends Kept _
              (verdict-Keeps args out Kept (calls-Phase true true false false) result))
            (then-Ends Kept Kept Q _ _
              (Keeps-Ends Kept _ (steady args out true true false false shut_down refl))
              (then-Ends Kept Kept Q _ _
                (Keeps-Ends Kept _ (
                  when-Keeps Kept out.has_state_store _
                    (steady args out true true false false push refl)))
                (λ w v. succeeded v (Phase-saved true false false w v))))

  given_up-Ends :
      Ends Fresh (λ n w. Outcome w n) (modify discard_agent_state >> unpublished args out)
  given_up-Ends =
      then-Ends Fresh (Phase false true false false) (λ n w. Outcome w n) _ _
        (discards-Phase false false false false true) unpublished-Ends

  after_graph-Ends :
      (result : GraphRunResult) → Ends Fresh (λ n w. Outcome w n) (after_graph args out result)
  unfolding after_graph
  after_graph-Ends result =
      let Q : ℕ → World → Type 0 = λ n w. Outcome w n in
      then-Ends Fresh Fresh Q _ _
        (Keeps-Ends Fresh _ (steady args out false false false false append_feedback refl))
        (chosen result.submission)
    where
      chosen :
          (o : Option Forecast)
          → Ends {A = ℕ} Fresh
              (λ n w. Outcome w n)
              (elim o [
                | none ↦ do
                  modify discard_agent_state
                  perform out.raises run_incomplete
                  unpublished args out
                | some forecast ↦ do
                  perform out.raises build_snapshot
                  (if out.has_snapshot
                      then published args out result
                      else (do modify discard_agent_state; unpublished args out))
              ])
      chosen none =
          let P = Phase false true false false in
          let Q : ℕ → World → Type 0 = λ n w. Outcome w n in
          then-Ends Fresh P Q _ _ (discards-Phase false false false false true) (
            then-Ends P P Q _ _
              (Keeps-Ends P _ (steady args out false true false false run_incomplete refl))
              unpublished-Ends)
      chosen (some forecast) =
          let Q : ℕ → World → Type 0 = λ n w. Outcome w n in
          then-Ends Fresh Fresh Q _ _
            (Keeps-Ends Fresh _ (steady args out false false false false build_snapshot refl))
            (if-Ends Fresh Q out.has_snapshot _ _ (published-Ends result) given_up-Ends)

-- Of the part of a run that forecasts (past the kill switch, the guard, the pull and the scoring of
-- yesterday), from where nothing of it has been done and the registry in memory is what its file
-- holds: where it returns an exit code, no staged scenario or lesson is left, and the registry in
-- memory is again what the file holds. The code is 0 where the forecast of the agent has been
-- published, and then no fallback has. The code is 1 where it has not: then the failure has been
-- recorded, and a fallback has been published only if publication is not blocked.
pub forecast_day-Outcome :
    (args : Args) (out : Outside) (w : World)
    → w.done ≡ []
    → IsMirrored w.registry
    → Post (λ n w'. Outcome w' n) (forecast_day args out w).0 (forecast_day args out w).1
unfolding forecast_day
forecast_day-Outcome args out w h m =
    let Q : ℕ → World → Type 0 = λ n w'. Outcome w' n in
    let kept : (c : Call) → is_steady c ≡ true → Ends Fresh (λ _. Fresh) (perform out.raises c) =
      λ c e. Keeps-Ends Fresh _ (steady args out false false false false c e) in
    then-Ends Fresh Fresh Q _ _ (kept build_run refl)
      (then-Ends Fresh Fresh Q _ _ (kept seed_mixture refl) (
        then-Ends Fresh Fresh Q _ _
          (Keeps-Ends Fresh _ (
            when-Keeps Fresh args.live _
              (steady args out false false false false (live_attempt started) refl)))
          (bind-Ends Fresh (λ _. Fresh) Q (graph_result args out) _ (graph_result-Phase args out)
            (after_graph-Ends args out))))
      w
      (record {
        snapshot = ap (any is_publish) h;
        mirrored = m;
        nothing_staged = λ e. absurd (ground arith);
        recorded = λ e. absurd (ground arith);
        fallen = λ e. absurd (ground (arith, ap (any is_fallback) h));
      })
