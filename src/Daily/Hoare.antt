-- ===== src/Daily/Hoare.antt =====
-- engine/wolves/run_agent.py: what holds before an action and whatever way it ends.
use wolves_ai.Base.{Bool, true, false, Option, none, some, ◌∷◌, if◌then◌else◌}
use wolves_ai.Daily.World.{
  Call, Exn, World, Reply, returned, raised, Act, pure, follow, ◌>>=◌, ◌>>◌, rescue, handle, when,
  answered, perform,
}

-- Where `P` holds before, it holds after a return and after an exception.
abbrev pub Keeps {ℓ} : {A : Type ℓ} → (World → Type 0) → Act A → Type 0
Keeps P m = (w : World) → P w → P (m w).1

module _ (P : World → Type 0) where
  follow-Keeps {ℓ κ} :
      {A : Type ℓ} {B : Type κ} (f : A → Act B)
      → ((a : A) → Keeps P (f a))
      → (r : Reply A) → Keeps P (follow f r)
  follow-Keeps f k (returned a) w h = k a w h
  follow-Keeps f k (raised x) w h = h

  pub bind-Keeps {ℓ κ} :
      {A : Type ℓ} {B : Type κ} (m : Act A) (f : A → Act B)
      → Keeps P m
      → ((a : A) → Keeps P (f a))
      → Keeps P (m >>= f)
  unfolding ◌>>=◌
  bind-Keeps m f k l w h = follow-Keeps f l (m w).0 (m w).1 (k w h)

  pub then-Keeps {ℓ} :
      {B : Type ℓ} (m : Act (Unit {0})) (k : Act B) → Keeps P m → Keeps P k → Keeps P (m >> k)
  unfolding ◌>>◌
  then-Keeps m k p q = bind-Keeps m (λ _. k) p (λ _. q)

  rescue-Keeps {ℓ} :
      {A : Type ℓ} (f : Exn → Act A)
      → ((x : Exn) → Keeps P (f x))
      → (r : Reply A) → Keeps P (rescue f r)
  rescue-Keeps f k (returned a) w h = h
  rescue-Keeps f k (raised x) w h = k x w h

  pub handle-Keeps {ℓ} :
      {A : Type ℓ} (m : Act A) (f : Exn → Act A)
      → Keeps P m
      → ((x : Exn) → Keeps P (f x))
      → Keeps P (handle m f)
  unfolding handle
  handle-Keeps m f k l w h = rescue-Keeps f l (m w).0 (m w).1 (k w h)

  pub if-Keeps {ℓ} :
      {A : Type ℓ} (b : Bool) (m n : Act A) → Keeps P m → Keeps P n → Keeps P (if b then m else n)
  if-Keeps true m n k l = k
  if-Keeps false m n k l = l

  pub when-Keeps : (b : Bool) (m : Act (Unit {0})) → Keeps P m → Keeps P (when b m)
  when-Keeps b m k = if-Keeps b m (pure tt) k (λ w h. h)

  answered-Keeps :
      (call : Call) (x : Option Exn)
      → ((w : World) → P w → P (record w { done = call ∷ w.done }))
      → Keeps P (answered call x)
  answered-Keeps call none k w h = k w h
  answered-Keeps call (some x) k w h = h

  pub perform-Keeps :
      (raises : Call → World → Option Exn) (call : Call)
      → ((w : World) → P w → P (record w { done = call ∷ w.done }))
      → Keeps P (perform raises call)
  unfolding perform
  perform-Keeps raises call k w h = answered-Keeps call (raises call w) k w h
