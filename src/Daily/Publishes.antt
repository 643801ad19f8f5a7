-- ===== src/Daily/Publishes.antt =====
-- engine/wolves/run_agent.py: where nothing breaks, an accepted forecast is published.
use wolves_ai.Base.{
  ℕ, ◌≡◌, refl, ap, ◌∙◌, subst, Bool, true, false, ◌&&◌, String, Option, none, some, [], is_some,
  if◌then◌else◌, arith, inl, inr, Option-cases,
}
use wolves_ai.Submission.{Forecast, SubmissionState}
use wolves_ai.Scenarios.Staging.{IsMirrored}
use wolves_ai.Daily.World.{
  Call, Exn, build_run, seed_mixture, live_attempt, started, fetch_market, close_clients,
  append_feedback, build_snapshot, record_stream, publish, publish_fitted, shut_down, push, World,
  returned, Act, follow, ◌>>=◌, ◌>>◌, rescue, handle, when, answered, perform,
}
use wolves_ai.Daily.Flow.{
  GraphRunResult, Args, Outside, prefer_last_clean, swallow, graph_turn, preferred, run_broken,
  closing, graph_result, published, after_graph, forecast_day,
}
use wolves_ai.Daily.Ends.{Post}
use wolves_ai.Daily.Saved.{is_published}
use wolves_ai.Daily.Outcome.{Outcome, succeeded, gave_up, forecast_day-Outcome}

-- The action returns, with a result of this kind.
abbrev Yields {ℓ} : {A : Type ℓ} → (A → Type 0) → Act A → Type ℓ
Yields {A = A} R m = (w : World) → (a : A) × ((m w).0 ≡ returned a) × R a

bind-Yields {ℓ κ} :
    {A : Type ℓ} {B : Type κ} (R : A → Type 0) (S : B → Type 0) (m : Act A) (f : A → Act B)
    → Yields R m
    → ((a : A) → R a → Yields S (f a))
    → Yields S (m >>= f)
unfolding ◌>>=◌
bind-Yields R S m f k l w =
    let (a, e, r) = k w in
    let (b, d, s) = l a r (m w).1 in (b, ap (λ x. (follow f x (m w).1).0) e ∙ d, s)

Any : Unit {0} → Type 0
Any u = Unit {0}

then-Yields {ℓ} :
    {B : Type ℓ} (S : B → Type 0) (m : Act (Unit {0})) (k : Act B)
    → Yields Any m
    → Yields S k
    → Yields S (m >> k)
unfolding ◌>>◌
then-Yields S m k p q = bind-Yields Any S m (λ _. k) p (λ _ _. q)

handle-Yields {ℓ} :
    {A : Type ℓ} (R : A → Type 0) (m : Act A) (f : Exn → Act A) → Yields R m → Yields R (handle m f)
unfolding handle
handle-Yields R m f k w = let (a, e, r) = k w in (a, ap (λ x. (rescue f x (m w).1).0) e, r)

when-Yields : (b : Bool) (m : Act (Unit {0})) → Yields Any m → Yields Any (when b m)
unfolding Any
when-Yields true m k w = k w
when-Yields false m k w = (tt, refl, tt)

module _ (args : Args) (out : Outside)
    (quiet : (c : Call) (w : World) → out.raises c w ≡ none) where
  quiet-Yields : (c : Call) → Yields Any (perform out.raises c)
  unfolding perform Any
  quiet-Yields c w = (tt, ap (λ x. (answered c x w).0) (quiet c w), tt)

  published-Yields : (result : GraphRunResult) → Yields (λ n. n ≡ 0) (published args out result)
  unfolding published Any
  published-Yields result =
      let S : ℕ → Type 0 = λ n. n ≡ 0 in
      then-Yields S _ _ (quiet-Yields record_stream) (
        then-Yields S _ _ (quiet-Yields (publish out.spent)) (
          then-Yields S _ _
            (when-Yields (out.has_forecaster && out.is_fitted) _ (quiet-Yields publish_fitted))
            (then-Yields S _ _ (λ w. (tt, refl, tt))
              (then-Yields S _ _ (λ w. when-Yields args.live _ (quiet-Yields _) w)
                (then-Yields S _ _ (quiet-Yields shut_down) (
                  then-Yields S _ _ (when-Yields out.has_state_store _ (quiet-Yields push))
                    (λ w. (0, refl, refl))))))))

abbrev pub HasForecast : GraphRunResult → Type 0
HasForecast result = is_some result.submission ≡ true

prefer_last_clean-HasForecast :
    (fingerprint : Forecast → String) (referee : Bool) (result : GraphRunResult)
    (state : SubmissionState)
    → HasForecast result
    → HasForecast (prefer_last_clean fingerprint referee result state).0
unfolding prefer_last_clean
prefer_last_clean-HasForecast fingerprint referee result state h =
    elim (Option-cases state.last_clean) [
      | inl n ↦ ground (arith, n, h)
      | inr (clean, e) ↦ ground (arith, e, h)
    ]

module _ (args : Args) (out : Outside) (quiet : (c : Call) (w : World) → out.raises c w ≡ none)
    (graphs : (w : World)
      → (r : GraphRunResult) × ((out.graph w).reply ≡ returned r) × HasForecast r) where
  graph_turn-Yields : Yields HasForecast (graph_turn args out)
  unfolding graph_turn
  graph_turn-Yields w = graphs w

  preferred-Yields :
      (result : GraphRunResult)
      → HasForecast result
      → Yields HasForecast (preferred args out result)
  unfolding preferred
  preferred-Yields result h w = (
    (prefer_last_clean out.fingerprint args.referee_enabled result w.submission).0,
    refl,
    prefer_last_clean-HasForecast out.fingerprint args.referee_enabled result w.submission h,
  )

  closing-Yields :
      (m : Act GraphRunResult) → Yields HasForecast m → Yields HasForecast (closing args out m)
  closing-Yields m k w =
      then-Yields HasForecast _ (λ w'. ((m w).0, w')) (quiet-Yields args out quiet close_clients)
        (λ w'. k w) (m w).1

  graph_result-Yields : Yields HasForecast (graph_result args out)
  unfolding graph_result
  graph_result-Yields = closing-Yields _ (
      handle-Yields HasForecast _ (run_broken args out) (
        bind-Yields HasForecast HasForecast (graph_turn args out) _ graph_turn-Yields (λ result h.
          bind-Yields HasForecast HasForecast (preferred args out result) _
            (preferred-Yields result h)
            (λ chosen c.
              then-Yields HasForecast _ _
                (when-Yields (is_some chosen.submission && out.has_forecaster) _
                  (handle-Yields Any _ swallow (quiet-Yields args out quiet fetch_market)))
                (λ w. (chosen, refl, c))))))

  built-Yields :
      (result : GraphRunResult) (b : Bool) (other : Act ℕ)
      → b ≡ true
      → Yields (λ n. n ≡ 0) (if b then published args out result else other)
  built-Yields result true other h = published-Yields args out quiet result
  built-Yields result false other h = absurd (ground (arith, h))

  chosen-Yields :
      (result : GraphRunResult) (o : Option Forecast) (nothing other : Act ℕ)
      → out.has_snapshot ≡ true
      → is_some o ≡ true
      → Yields {A = ℕ}
          (λ n. n ≡ 0)
          (elim o [
            | none ↦ nothing
            | some forecast ↦ do
              perform out.raises build_snapshot
              (if out.has_snapshot then published args out result else other)
          ])
  chosen-Yields result none nothing other s h = absurd (ground (arith, h))
  chosen-Yields result (some forecast) nothing other s h =
      then-Yields (λ n. n ≡ 0) _ _ (quiet-Yields args out quiet build_snapshot)
        (built-Yields result out.has_snapshot other s)

  after_graph-Yields :
      out.has_snapshot ≡ true
      → (result : GraphRunResult) → HasForecast result
      → Yields (λ n. n ≡ 0) (after_graph args out result)
  unfolding after_graph
  after_graph-Yields s result h =
      then-Yields (λ n. n ≡ 0) _ _ (quiet-Yields args out quiet append_feedback)
        (chosen-Yields result result.submission _ _ s h)

  forecast_day-Yields : out.has_snapshot ≡ true → Yields (λ n. n ≡ 0) (forecast_day args out)
  unfolding forecast_day
  forecast_day-Yields s =
      let S : ℕ → Type 0 = λ n. n ≡ 0 in
      then-Yields S _ _ (quiet-Yields args out quiet build_run) (
        then-Yields S _ _ (quiet-Yields args out quiet seed_mixture) (
          then-Yields S _ _
            (when-Yields args.live _ (quiet-Yields args out quiet (live_attempt started)))
            (bind-Yields HasForecast S (graph_result args out) _ graph_result-Yields
              (after_graph-Yields s))))

published_of : (n : ℕ) (w : World) → Outcome w n → n ≡ 0 → is_published w ≡ true
published_of _ w (succeeded v e) z = v.snapshot
published_of _ w (gave_up v e) z = absurd (omega (arith, z))

-- Where no call of the outside raises, the graph returns a forecast, and a snapshot comes of it, a run
-- that has published nothing yet ends with the exit code 0 and has published the forecast.
pub forecast_day-publishes :
    (args : Args) (out : Outside) (w : World)
    → ((c : Call) (w : World) → out.raises c w ≡ none)
    → ((w : World) → (r : GraphRunResult) × ((out.graph w).reply ≡ returned r) × HasForecast r)
    → out.has_snapshot ≡ true
    → w.done ≡ []
    → IsMirrored w.registry
    → ((forecast_day args out w).0 ≡ returned 0) × (is_published (forecast_day args out w).1 ≡ true)
forecast_day-publishes args out w quiet graphs s d m =
    let (n, e, z) = forecast_day-Yields args out quiet graphs s w in
    let ended =
      subst (λ r. Post (λ k w'. Outcome w' k) r (forecast_day args out w).1) e
        (forecast_day-Outcome args out w d m) in
    (e ∙ ap returned z, published_of n (forecast_day args out w).1 ended z)
