-- ===== src/Daily/Stages.antt =====
-- engine/wolves/run_agent.py: what every part of a run keeps, if its calls, the graph and the discarding
-- of staged writes keep it.
use wolves_ai.Base.{
  ℕ, ◌≡◌, refl, Bool, true, false, Option, none, some, ◌∷◌, if◌then◌else◌, is_some, ◌&&◌,
}
use wolves_ai.Submission.{Forecast}
use wolves_ai.Daily.World.{
  Call, build_run, seed_mixture, live_attempt, started, failed, degraded, complete, fetch_market,
  record_failure, shut_down, close_clients, append_feedback, run_incomplete, push, publish_fallback,
  build_snapshot, publish, Exn, s3_unavailable, cancelled_error, other_error, World, Reply, pure,
  ◌>>◌, modify, when, perform, discard_agent_state,
}
use wolves_ai.Daily.Flow.{
  GraphRunResult, Args, Outside, swallow, status_of, is_degraded, graph_turn, preferred, market,
  run_broken, closed, graph_result, fallback, unpublished, verdict, published, after_graph,
  forecast_day,
}
use wolves_ai.Daily.Hoare.{
  Keeps, bind-Keeps, then-Keeps, handle-Keeps, if-Keeps, when-Keeps, perform-Keeps,
}

-- A call that publishes no snapshot.
abbrev pub is_steady : Call → Bool
is_steady (publish c) = false
is_steady publish_fallback = false
is_steady _ = true

status_of-steady : (x : Exn) → is_steady (status_of x) ≡ true
status_of-steady s3_unavailable = refl
status_of-steady cancelled_error = refl
status_of-steady other_error = refl

module _ (args : Args) (out : Outside) (P : World → Type 0)
    (calls : (c : Call) (w : World)
      → is_steady c ≡ true
      → P w
      → P (record w { done = c ∷ w.done })) where
  pub steady-Keeps : (c : Call) → is_steady c ≡ true → Keeps P (perform out.raises c)
  steady-Keeps c h = perform-Keeps P out.raises c (λ w. calls c w h)

  pub swallow-Keeps : (x : Exn) → Keeps P (swallow x)
  swallow-Keeps s3_unavailable w h = h
  swallow-Keeps cancelled_error w h = h
  swallow-Keeps other_error w h = h

  market-Keeps : (result : GraphRunResult) → Keeps P (market args out result)
  market-Keeps result =
      when-Keeps P (is_some result.submission && out.has_forecaster) _
        (handle-Keeps P _ swallow (steady-Keeps fetch_market refl) swallow-Keeps)

  closed-Keeps {ℓ} : {A : Type ℓ} (r : Reply A) → Keeps P (closed args out r)
  closed-Keeps r = then-Keeps P _ _ (steady-Keeps close_clients refl) (λ w h. h)

  verdict_of-Keeps :
      (b : Bool) → Keeps P (perform out.raises (live_attempt (if b then degraded else complete)))
  verdict_of-Keeps true = steady-Keeps (live_attempt degraded) refl
  verdict_of-Keeps false = steady-Keeps (live_attempt complete) refl

  pub verdict-Keeps : (result : GraphRunResult) → Keeps P (verdict args out result)
  verdict-Keeps result w =
      when-Keeps P args.live _ (verdict_of-Keeps (is_degraded result w.submission.referee_status)) w

  -- The end of a run that keeps its writes.
  pub ending-Keeps :
      (result : GraphRunResult)
      → Keeps {A = ℕ} P (do
        verdict args out result
        perform out.raises shut_down
        when out.has_state_store (perform out.raises push)
        pure 0)
  ending-Keeps result = then-Keeps P _ _ (verdict-Keeps result) (
      then-Keeps P _ _ (steady-Keeps shut_down refl)
        (then-Keeps P _ _ (when-Keeps P out.has_state_store _ (steady-Keeps push refl)) (λ w h. h)))

  -- A run without a snapshot, up to the fallback.
  pub unpublished-Keeps : Keeps P (fallback args out) → Keeps P (unpublished args out)
  unfolding unpublished
  unpublished-Keeps k =
      then-Keeps P _ _ (when-Keeps P args.live _ (steady-Keeps (live_attempt failed) refl)) (
        then-Keeps P _ _ (steady-Keeps shut_down refl) (
          then-Keeps P _ _ (when-Keeps P out.has_state_store _ (steady-Keeps push refl)) (
            then-Keeps P _ _ (steady-Keeps (record_failure out.spent) refl)
              (then-Keeps P _ _ k (λ w h. h)))))

module _ (args : Args) (out : Outside) (P : World → Type 0)
    (calls : (c : Call) (w : World) → is_steady c ≡ true → P w → P (record w { done = c ∷ w.done }))
    (discards : (w : World) → P w → P (discard_agent_state w))
    (graphs : Keeps P (graph_turn args out))
    (prefers : (result : GraphRunResult) → Keeps P (preferred args out result)) where
  run_broken-Keeps : (x : Exn) → Keeps P (run_broken args out x)
  run_broken-Keeps x = then-Keeps P _ _ discards (
      then-Keeps P _ _
        (when-Keeps P args.live _
          (steady-Keeps args out P calls (status_of x) (status_of-steady x)))
        (then-Keeps P _ _ (steady-Keeps args out P calls (record_failure out.spent) refl)
          (then-Keeps P _ _ (steady-Keeps args out P calls shut_down refl) (λ w h. h))))

  pub graph_result-Keeps : Keeps P (graph_result args out)
  unfolding graph_result
  graph_result-Keeps w h = closed-Keeps args out P calls _ _ (
      handle-Keeps P _ (run_broken args out)
        (bind-Keeps P (graph_turn args out) _ graphs (λ result.
          bind-Keeps P (preferred args out result) _ (prefers result)
            (λ chosen. then-Keeps P _ _ (market-Keeps args out P calls chosen) (λ w h. h))))
        run_broken-Keeps w h)

  pub before_after-Keeps :
      ((result : GraphRunResult) → Keeps P (after_graph args out result))
      → Keeps P (forecast_day args out)
  unfolding forecast_day
  before_after-Keeps k = then-Keeps P _ _ (steady-Keeps args out P calls build_run refl) (
      then-Keeps P _ _ (steady-Keeps args out P calls seed_mixture refl) (
        then-Keeps P _ _
          (when-Keeps P args.live _ (steady-Keeps args out P calls (live_attempt started) refl))
          (bind-Keeps P (graph_result args out) _ graph_result-Keeps k)))

  pub after_graph-Keeps :
      Keeps P (unpublished args out)
      → ((result : GraphRunResult) → Keeps P (published args out result))
      → (result : GraphRunResult) → Keeps P (after_graph args out result)
  unfolding after_graph
  after_graph-Keeps k l result =
      then-Keeps P _ _ (steady-Keeps args out P calls append_feedback refl)
        (ends result result.submission)
    where
      ends :
          (result : GraphRunResult) (o : Option Forecast)
          → Keeps P (elim o [
            | none ↦ do
              modify discard_agent_state
              perform out.raises run_incomplete
              unpublished args out
            | some forecast ↦ do
              perform out.raises build_snapshot
              (if out.has_snapshot
                  then published args out result
                  else (do modify discard_agent_state; unpublished args out))
          ])
      ends result none =
          then-Keeps P _ _ discards
            (then-Keeps P _ _ (steady-Keeps args out P calls run_incomplete refl) k)
      ends result (some forecast) =
          then-Keeps P _ _ (steady-Keeps args out P calls build_snapshot refl)
            (if-Keeps P out.has_snapshot _ _ (l result) (then-Keeps P _ _ discards k))
