-- ===== src/Toolkit/Retry.antt =====
-- engine/wolves/toolkit/_retry.py: `request_with_retry`. What the network answers to the n-th
-- attempt, and the jitter drawn after it, are parameters; a time is a number of milliseconds.
use wolves_ai.Base.{
  ℕ, zero, suc, ◌+◌, ◌-◌, ◌*◌, ◌^◌, ◌≤◌, ◌<◌, ◌≡◌, Bool, true, false, not, ◌&&◌, List, [], ◌∷◌,
  Option, none, some, arith, length, All, min, ltb, eqb, if◌then◌else◌, Bool-cases, inl, inr, refl,
}

-- A response with its status and the wait that its headers hint at, or an `httpx.TransportError`.
pub data Attempt : Type 0 where
  response : ℕ → Option ℕ → Attempt
  transport_error : Attempt

pub data Failure : Type 0 where
  no_attempts transport : Failure
  status_error : ℕ → Failure

pub data Outcome : Type 0 where
  returned : ℕ → Outcome
  raised : Failure → Outcome

pub record Trace : Type 0 where
  pub outcome : Outcome
  pub sends : ℕ
  pub delays : List ℕ

unfoldable pub is_final : Attempt → Bool
is_final (response status hint) = ltb status 500 && not (eqb status 429)
is_final transport_error = false

abbrev pub failure_of : Attempt → Failure
failure_of (response status hint) = status_error status
failure_of transport_error = transport

abbrev pub status_of : Attempt → ℕ
status_of (response status hint) = status
status_of transport_error = 0

abbrev hint_of : Attempt → Option ℕ
hint_of (response status hint) = hint
hint_of transport_error = none

module _ (send : ℕ → Attempt) (jitter : ℕ → ℕ) (base_delay max_delay : ℕ) where
  unfoldable pub delay_after : ℕ → ℕ
  delay_after attempt =
      min
        (elim (hint_of (send attempt)) [
          | some h ↦ h
          | none ↦ base_delay * 2 ^ attempt + jitter attempt
        ])
        max_delay

  -- The rounds left, the attempt, and the failure of the round before.
  unfoldable pub retry_from : ℕ → ℕ → Failure → Trace
  retry_from zero attempt last = record { outcome = raised last; sends = 0; delays = [] }
  retry_from (suc left) attempt last =
      let rest = retry_from left (attempt + 1) (failure_of (send attempt)) in
      if is_final (send attempt)
      then record { outcome = returned (status_of (send attempt)); sends = 1; delays = [] }
      else record {
        outcome = rest.outcome;
        sends = rest.sends + 1;
        delays = if ltb 0 left then delay_after attempt ∷ rest.delays else rest.delays;
      }

  unfoldable pub request_with_retry : ℕ → Trace
  unfolding retry_from
  request_with_retry max_retries = retry_from max_retries 0 no_attempts

  retry_from-final :
      (left a k : ℕ) (last : Failure)
      → a ≤ k
      → k < a + left
      → ((i : ℕ) → a ≤ i → i < k → is_final (send i) ≡ false)
      → is_final (send k) ≡ true
      → let t = retry_from left a last in
        (t.outcome ≡ returned (status_of (send k)))
        × (t.sends ≡ k - a + 1)
        × (length t.delays ≡ k - a)
  unfolding retry_from
  retry_from-final zero a k last h1 h2 before here = absurd (omega arith)
  retry_from-final (suc left) a k last h1 h2 before here = elim (Bool-cases (eqb a k)) [
    | inl e ↦ ground (arith)
    | inr e ↦ ground (
      arith,
      before a,
      retry_from-final left (a + 1) k (failure_of (send a)) (ground arith) (omega arith)
          (λ i p q. before i (omega arith) q) here,
    )
  ]

  retry_from-exhausted :
      (left a : ℕ) (last : Failure)
      → ((i : ℕ) → a ≤ i → i < a + left → is_final (send i) ≡ false)
      → let t = retry_from left a last in
        (t.outcome ≡ raised (if eqb left 0 then last else failure_of (send (a + left - 1))))
        × (t.sends ≡ left)
        × (length t.delays ≡ left - 1)
  unfolding retry_from
  retry_from-exhausted zero a last never = (refl, refl, omega arith)
  retry_from-exhausted (suc left) a last never = ground (
    arith,
    never a,
    retry_from-exhausted left (a + 1) (failure_of (send a))
        (λ i p q. never i (omega arith) (omega arith)),
  )

  retry_from-bounds :
      (left a : ℕ) (last : Failure)
      → ((retry_from left a last).sends ≤ left)
        × All (λ d. d ≤ max_delay) (retry_from left a last).delays
  unfolding retry_from delay_after
  retry_from-bounds zero a last = (omega arith, tt)
  retry_from-bounds (suc left) a last =
      ground (arith, retry_from-bounds left (a + 1) (failure_of (send a)))

  -- The first attempt that the server answers with a status below 500 other than 429 is the one
  -- whose response is returned, if it is among the allowed ones: nothing is sent after it, and one
  -- wait follows each attempt before it.
  pub request-first_final :
      (max_retries k : ℕ)
      → k < max_retries
      → ((i : ℕ) → i < k → is_final (send i) ≡ false)
      → is_final (send k) ≡ true
      → let t = request_with_retry max_retries in
        (t.outcome ≡ returned (status_of (send k))) × (t.sends ≡ k + 1) × (length t.delays ≡ k)
  unfolding request_with_retry
  request-first_final n k h before here =
      let h =
        retry_from-final n 0 k no_attempts (omega arith) (omega arith) (λ i p q. before i q) here in
      (h.0, omega arith, omega arith)

  -- Where every allowed attempt fails or is refused, each is made, one wait follows each but the
  -- last, and what is raised is the failure of the last one (of no attempt, if none is allowed).
  pub request-exhausted :
      (max_retries : ℕ)
      → ((i : ℕ) → i < max_retries → is_final (send i) ≡ false)
      → let t = request_with_retry max_retries in
        (t.outcome
          ≡ raised (if eqb max_retries 0 then no_attempts else failure_of (send (max_retries - 1))))
        × (t.sends ≡ max_retries)
        × (length t.delays ≡ max_retries - 1)
  unfolding request_with_retry
  request-exhausted n never =
      let h = retry_from-exhausted n 0 no_attempts (λ i p q. never i (omega arith)) in
      ground (arith, h)

  -- Whatever the network does, at most the allowed number of attempts is made, and no wait is
  -- longer than the limit, however long a wait the server hints at.
  pub request_bounds :
      (max_retries : ℕ)
      → let t = request_with_retry max_retries in
        (t.sends ≤ max_retries) × All (λ d. d ≤ max_delay) t.delays
  unfolding request_with_retry
  request_bounds n = retry_from-bounds n 0 no_attempts
