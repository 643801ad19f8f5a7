-- ===== src/Daily/Ends.antt =====
-- engine/wolves/run_agent.py: what holds where an action returns, given what held before.
use wolves_ai.Base.{Bool, true, false, Option, none, some, ◌∷◌, if◌then◌else◌}
use wolves_ai.Daily.World.{
  Call, Exn, World, Reply, returned, raised, Act, follow, ◌>>=◌, ◌>>◌, perform, answered,
}
use wolves_ai.Daily.Hoare.{Keeps}

-- What holds where an action returns.
abbrev pub Post {ℓ} : {A : Type ℓ} → (A → World → Type 0) → Reply A → World → Type 0
Post Q (returned a) w = Q a w
Post Q (raised x) w = Unit {0}

abbrev pub Ends {ℓ} : {A : Type ℓ} → (World → Type 0) → (A → World → Type 0) → Act A → Type 0
Ends P Q m = (w : World) → P w → Post Q (m w).0 (m w).1

follow-Ends {ℓ κ} :
    {A : Type ℓ} {B : Type κ} (R : A → World → Type 0) (Q : B → World → Type 0) (f : A → Act B)
    (r : Reply A) (w : World)
    → ((a : A) → Ends (R a) Q (f a))
    → Post R r w
    → Post Q (follow f r w).0 (follow f r w).1
follow-Ends R Q f (returned a) w k h = k a w h
follow-Ends R Q f (raised x) w k h = tt

pub bind-Ends {ℓ κ} :
    {A : Type ℓ} {B : Type κ} (P : World → Type 0) (R : A → World → Type 0) (Q : B → World → Type 0)
    (m : Act A) (f : A → Act B)
    → Ends P R m
    → ((a : A) → Ends (R a) Q (f a))
    → Ends P Q (m >>= f)
unfolding ◌>>=◌
bind-Ends P R Q m f k l w h = follow-Ends R Q f (m w).0 (m w).1 l (k w h)

Post-const {ℓ} :
    {A : Type ℓ} (P : World → Type 0) (r : Reply A) (w : World) → P w → Post (λ a. P) r w
Post-const P (returned a) w h = h
Post-const P (raised x) w h = tt

-- A statement that leads from `P` to `R`.
pub Keeps-Ends {ℓ} : {A : Type ℓ} (P : World → Type 0) (m : Act A) → Keeps P m → Ends P (λ _. P) m
Keeps-Ends P m k w h = Post-const P (m w).0 (m w).1 (k w h)

pub then-Ends {ℓ} :
    {B : Type ℓ} (P R : World → Type 0) (Q : B → World → Type 0) (m : Act (Unit {0})) (k : Act B)
    → Ends P (λ _. R) m
    → Ends R Q k
    → Ends P Q (m >> k)
unfolding ◌>>◌
then-Ends P R Q m k p q = bind-Ends P (λ _. R) Q m (λ _. k) p (λ _. q)

answered-Ends :
    (P R : World → Type 0) (call : Call) (x : Option Exn)
    → ((w : World) → P w → R (record w { done = call ∷ w.done }))
    → Ends P (λ _. R) (answered call x)
answered-Ends P R call none k w h = k w h
answered-Ends P R call (some x) k w h = tt

pub perform-Ends :
    (P R : World → Type 0) (raises : Call → World → Option Exn) (call : Call)
    → ((w : World) → P w → R (record w { done = call ∷ w.done }))
    → Ends P (λ _. R) (perform raises call)
unfolding perform
perform-Ends P R raises call k w h = answered-Ends P R call (raises call w) k w h

pub if-Ends {ℓ} :
    {A : Type ℓ} (P : World → Type 0) (Q : A → World → Type 0) (b : Bool) (m n : Act A)
    → Ends P Q m
    → Ends P Q n
    → Ends P Q (if b then m else n)
if-Ends P Q true m n k l = k
if-Ends P Q false m n k l = l
