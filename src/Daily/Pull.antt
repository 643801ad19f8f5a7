-- ===== src/Daily/Pull.antt =====
-- engine/wolves/run_agent.py: the state of earlier runs is pulled before it is pushed.
use wolves_ai.Base.{
  ℕ, ◌≡◌, refl, ap, ◌∙◌, Bool, true, false, not, ◌&&◌, Option, none, some, List, [], ◌∷◌, any,
  if◌then◌else◌, arith,
}
use wolves_ai.Daily.World.{
  Call, pull, push, score_yesterday, record_failure, record_stream, publish, publish_fitted,
  generate_fallback, publish_fallback, Exn, s3_unavailable, cancelled_error, other_error, World,
  Act, pure, raise, ◌>>=◌, ◌>>◌, handle, modify, perform, answered, commit_agent_state,
  discard_agent_state,
}
use wolves_ai.Daily.Flow.{
  GraphRunResult, Args, Outside, is_s3_unavailable, swallow, graph_turn, preferred, fallback,
  should_publish_fallback, published, forecast_day, pulled, scored_day, hydrate, score, run_day,
}
use wolves_ai.Daily.Hoare.{Keeps, then-Keeps, handle-Keeps, if-Keeps, when-Keeps, perform-Keeps}
use wolves_ai.Daily.Unpublished.{done-apply_writes}
use wolves_ai.Daily.Stages.{
  swallow-Keeps, ending-Keeps, unpublished-Keeps, before_after-Keeps, after_graph-Keeps,
}

-- What holds of the calls so far, and stays with each further call, lasts for the day.
module _ (p : List Call → Bool)
    (grows : (c : Call) (cs : List Call) → p cs ≡ true → p (c ∷ cs) ≡ true) (args : Args)
    (out : Outside) where
  abbrev Lasts : World → Type 0
  Lasts w = p w.done ≡ true

  any_call : (c : Call) → Keeps Lasts (perform out.raises c)
  any_call c = perform-Keeps Lasts out.raises c (λ w h. grows c w.done h)

  discards-Lasts : (w : World) → Lasts w → Lasts (discard_agent_state w)
  unfolding discard_agent_state
  discards-Lasts w h = h

  commits-Lasts : (w : World) → Lasts w → Lasts (commit_agent_state w)
  unfolding commit_agent_state
  commits-Lasts w h = h

  graphs-Lasts : Keeps Lasts (graph_turn args out)
  unfolding graph_turn
  graphs-Lasts w h = grows _ _ (ap p (done-apply_writes (out.graph w).writes w) ∙ h)

  prefers-Lasts : (result : GraphRunResult) → Keeps Lasts (preferred args out result)
  unfolding preferred
  prefers-Lasts result w h = h

  fallback-Lasts : Keeps Lasts (fallback args out)
  unfolding fallback
  fallback-Lasts w =
      when-Keeps Lasts (should_publish_fallback w.submission) _
        (handle-Keeps Lasts _ swallow
          (then-Keeps Lasts _ _ (any_call generate_fallback) (any_call publish_fallback))
          (swallow-Keeps args out Lasts (λ c w h. grows c w.done)))
        w

  published-Lasts : (result : GraphRunResult) → Keeps Lasts (published args out result)
  unfolding published
  published-Lasts result = then-Keeps Lasts _ _ (any_call record_stream) (
      then-Keeps Lasts _ _ (any_call (publish out.spent)) (
        then-Keeps Lasts _ _
          (when-Keeps Lasts (out.has_forecaster && out.is_fitted) _ (any_call publish_fitted))
          (then-Keeps Lasts _ _ commits-Lasts
            (ending-Keeps args out Lasts (λ c w h. grows c w.done) result))))

  pub forecast_day-Lasts : Keeps Lasts (forecast_day args out)
  forecast_day-Lasts =
      before_after-Keeps args out Lasts (λ c w h. grows c w.done) discards-Lasts graphs-Lasts
        prefers-Lasts
        (after_graph-Keeps args out Lasts (λ c w h. grows c w.done) discards-Lasts graphs-Lasts
          prefers-Lasts (unpublished-Keeps args out Lasts (λ c w h. grows c w.done) fallback-Lasts)
          published-Lasts)

abbrev pub is_pull : Call → Bool
is_pull pull = true
is_pull _ = false

abbrev pub is_push : Call → Bool
is_push push = true
is_push _ = false

grows-pull : (c : Call) (cs : List Call) → any is_pull cs ≡ true → any is_pull (c ∷ cs) ≡ true
grows-pull c cs h = ground (arith, h)

module _ (args : Args) (out : Outside) where
  abbrev Pulled : World → Type 0
  Pulled w = any is_pull w.done ≡ true

  score-Pulled : (w : World) → Pulled w → Pulled (score args out w)
  score-Pulled w h = ground (arith, h, out.score_summary)

  scored_day-Pulled : Keeps Pulled (scored_day args out)
  scored_day-Pulled =
      then-Keeps Pulled _ _
        (perform-Keeps Pulled out.raises score_yesterday
          (λ w h. grows-pull score_yesterday w.done h))
        (then-Keeps Pulled _ _ score-Pulled (forecast_day-Lasts (any is_pull) grows-pull args out))

  -- Nothing is pushed that has not been pulled.
  abbrev Guarded : World → Type 0
  Guarded w = any is_push w.done ≡ true → any is_pull w.done ≡ true

  failing-Guarded : Keeps {A = ℕ} Guarded (do perform out.raises (record_failure 0); pure 1)
  failing-Guarded =
      then-Keeps Guarded _ _
        (perform-Keeps Guarded out.raises (record_failure 0) (λ w h e. ground (arith, h, e)))
        (λ w h. h)

  abbrev rest_of_day : Bool → Act ℕ
  rest_of_day here =
      if here then scored_day args out else (do perform out.raises (record_failure 0); pure 1)

  pulled-Guarded :
      (x : Option Exn)
      → Keeps Guarded (
          handle
            (do answered pull x; modify (hydrate args out); pure true)
            (λ x. if is_s3_unavailable x then pure false else raise x)
          >>= rest_of_day)
  unfolding handle ◌>>=◌ ◌>>◌
  pulled-Guarded none w h e =
      scored_day-Pulled (hydrate args out (record w { done = pull ∷ w.done })) refl
  pulled-Guarded (some s3_unavailable) w h e = failing-Guarded w h e
  pulled-Guarded (some cancelled_error) w h e = h e
  pulled-Guarded (some other_error) w h e = h e

  pulling-Guarded : Keeps Guarded (pulled args out >>= rest_of_day)
  unfolding handle ◌>>=◌ ◌>>◌ perform
  pulling-Guarded w h = pulled-Guarded (out.raises pull w) w h

  run_day-Guarded : out.has_state_store ≡ true → Keeps Guarded (run_day args out)
  unfolding run_day
  run_day-Guarded s w =
      if-Keeps Guarded (not out.run_enabled) _ _ (λ w h. h)
        (if-Keeps Guarded (args.live && out.is_blocked) _ _ (λ w h. h)
          (stored out.has_state_store s))
        w
    where
      stored :
          (b : Bool)
          → b ≡ true
          → Keeps Guarded (if not b then scored_day args out else pulled args out >>= rest_of_day)
      stored true s w h = pulling-Guarded w h
      stored false s w h = absurd (ground (arith, s))

-- Where there is a bucket, a run that has pushed its state to it has pulled the state of the earlier
-- runs first: a run that could not pull ends before it does anything that it would push.
pub run_day-pulls :
    (args : Args) (out : Outside) (w : World)
    → out.has_state_store ≡ true
    → w.done ≡ []
    → any is_push (run_day args out w).1.done ≡ true
    → any is_pull (run_day args out w).1.done ≡ true
run_day-pulls args out w s h =
    run_day-Guarded args out s w (λ e. absurd (ground (arith, ap (any is_push) h)))
