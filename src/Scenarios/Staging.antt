-- ===== src/Scenarios/Staging.antt =====
-- engine/wolves/agent/scenarios.py: the log in memory is the file and what is staged.
use wolves_ai.Base.{
  append_nil, append_assoc, ℕ, ◌+◌, ◌≡◌, refl, sym, ap, ◌∙◌, Bool, true, false, not, ◌&&◌, ◌||◌,
  List, [], ◌∷◌, ◌++◌, map, length, select, all, contains, ltb, eqb, nat_eq, arith, inl, inr,
  Bool-cases,
}
use wolves_ai.Scenarios.{
  ScenarioEvent, Object, ScenarioRegistry, bodies, objects_from, load, append_event, commit,
  rollback,
}

abbrev pub numbers : List Object → List ℕ
numbers = map λ o. o.number

abbrev apart : List ℕ → List Object → Bool
apart ns os = all (λ o. not (contains o.number ns)) os

abbrev below : ℕ → List Object → Bool
below n os = all (λ o. ltb o.number n) os

-- The objects in memory are those of the file's events and then the staged ones, which are others.
pub record IsMirrored (r : ScenarioRegistry) : Type 0 where
  pub committed : List Object
  pub split : r.events ≡ committed ++ r.staged
  pub saved : bodies committed ≡ r.file
  pub are_apart : apart (numbers r.staged) committed ≡ true
  pub are_below : below r.made r.events ≡ true
  pub written : r.defer_writes ≡ false → r.staged ≡ []

map-snoc {ℓ κ} :
    {A : Type ℓ} {B : Type κ} (f : A → B) (xs : List A) (x : A)
    → map f (xs ++ x ∷ []) ≡ map f xs ++ f x ∷ []
map-snoc f [] x = refl
map-snoc f (y ∷ xs) x = ap (λ l. f y ∷ l) (map-snoc f xs x)

pub all-append {ℓ} :
    {A : Type ℓ} (p : A → Bool) (xs ys : List A) → all p (xs ++ ys) ≡ (all p xs && all p ys)
all-append p [] ys = refl
all-append p (x ∷ xs) ys = ground (arith, all-append p xs ys)

contains-snoc : (n m : ℕ) (ns : List ℕ) → contains n (ns ++ m ∷ []) ≡ (contains n ns || eqb n m)
contains-snoc n m [] = ground arith
contains-snoc n m (k ∷ ns) = ground (arith, contains-snoc n m ns)

below-suc : (n : ℕ) (os : List Object) → below n os ≡ true → below (n + 1) os ≡ true
below-suc n [] h = refl
below-suc n (o ∷ os) h = ground (arith, below-suc n os)

-- A new number is apart from the old objects.
apart-snoc :
    (n : ℕ) (ns : List ℕ) (os : List Object)
    → below n os ≡ true
    → apart ns os ≡ true
    → apart (ns ++ n ∷ []) os ≡ true
apart-snoc n ns [] b h = refl
apart-snoc n ns (o ∷ os) b h = ground (arith, contains-snoc o.number n ns, apart-snoc n ns os)

apart-nothing : (os : List Object) → apart [] os ≡ true
apart-nothing [] = refl
apart-nothing (o ∷ os) = apart-nothing os

pub bodies-objects_from : (n : ℕ) (es : List ScenarioEvent) → bodies (objects_from n es) ≡ es
bodies-objects_from n [] = refl
bodies-objects_from n (e ∷ es) = ap (λ l. e ∷ l) (bodies-objects_from (n + 1) es)

below-objects_from :
    (n : ℕ) (es : List ScenarioEvent) → below (n + length es) (objects_from n es) ≡ true
below-objects_from n [] = refl
below-objects_from n (e ∷ es) =
    let same : (n + 1) + length es ≡ n + length (e ∷ es) = omega arith in
    ground (arith, ap (λ k. below k (objects_from (n + 1) es)) same, below-objects_from (n + 1) es)

pub load-IsMirrored : (file : List ScenarioEvent) (defer : Bool) → IsMirrored (load file defer)
unfolding load
load-IsMirrored file defer =
    let same : 0 + length file ≡ length file = omega arith in
    record {
      committed = objects_from 0 file;
      split = sym (append_nil (objects_from 0 file));
      saved = bodies-objects_from 0 file;
      are_apart = apart-nothing (objects_from 0 file);
      are_below = sym (ap (λ n. below n (objects_from 0 file)) same) ∙ below-objects_from 0 file;
      written = λ h. refl;
    }

below-append_event :
    (e : ScenarioEvent) (r : ScenarioRegistry)
    → below r.made r.events ≡ true
    → below (append_event e r).made (append_event e r).events ≡ true
unfolding append_event
below-append_event e r h =
    let o : Object = record { number = r.made; event = e } in
    ground (
      arith,
      all-append (λ p. ltb p.number (r.made + 1)) r.events (o ∷ []),
      below-suc r.made r.events h,
    )

below-committed : (r : ScenarioRegistry) (v : IsMirrored r) → below r.made v.committed ≡ true
below-committed r v =
    let old : Object → Bool = λ p. ltb p.number r.made in
    ground (arith, all-append old v.committed r.staged, ap (all old) v.split, v.are_below)

append-deferred :
    (e : ScenarioEvent) (r : ScenarioRegistry)
    → IsMirrored r
    → r.defer_writes ≡ true
    → IsMirrored (append_event e r)
unfolding append_event
append-deferred e r v h =
    let o : Object = record { number = r.made; event = e } in
    let fresh =
      apart-snoc r.made (numbers r.staged) v.committed (below-committed r v) v.are_apart in
    record {
      committed = v.committed;
      split = ground (arith, h, v.split, append_assoc v.committed r.staged (o ∷ []));
      saved = ground (arith, h, v.saved);
      are_apart = ground (arith, h, fresh, map-snoc (λ p. p.number) r.staged o);
      are_below = below-append_event e r v.are_below;
      written = ground (arith, h);
    }

append-written :
    (e : ScenarioEvent) (r : ScenarioRegistry)
    → IsMirrored r
    → r.defer_writes ≡ false
    → IsMirrored (append_event e r)
unfolding append_event
append-written e r v h =
    let o : Object = record { number = r.made; event = e } in
    let none_staged = v.written h in
    let all_saved = v.split ∙ ap (λ l. v.committed ++ l) none_staged ∙ append_nil v.committed in
    record {
      committed = v.committed ++ o ∷ [];
      split = ground (arith, h, none_staged, all_saved, append_nil (v.committed ++ o ∷ []));
      saved = ground (arith, h, v.saved, map-snoc (λ p. p.event) v.committed o);
      are_apart = ground (arith, h, none_staged, apart-nothing (v.committed ++ o ∷ []));
      are_below = below-append_event e r v.are_below;
      written = ground (arith, h, none_staged);
    }

pub append_event-IsMirrored :
    (e : ScenarioEvent) (r : ScenarioRegistry) → IsMirrored r → IsMirrored (append_event e r)
append_event-IsMirrored e r v = elim (Bool-cases r.defer_writes) [
  | inl h ↦ append-deferred e r v h
  | inr h ↦ append-written e r v h
]

select-append :
    (p : Object → Bool) (xs ys : List Object) → select p (xs ++ ys) ≡ select p xs ++ select p ys
select-append p [] ys = refl
select-append p (x ∷ xs) ys = ground (arith, select-append p xs ys)

select-all : (p : Object → Bool) (xs : List Object) → all p xs ≡ true → select p xs ≡ xs
select-all p [] h = refl
select-all p (x ∷ xs) h = ground (arith, select-all p xs)

-- What is staged has no number that is not staged.
select-staged :
    (ns : List ℕ) (os : List Object)
    → all (λ o. contains o.number ns) os ≡ true
    → select (λ o. not (contains o.number ns)) os ≡ []
select-staged ns [] h = refl
select-staged ns (o ∷ os) h = ground (arith, select-staged ns os)

more-numbers :
    (n : ℕ) (ns : List ℕ) (os : List Object)
    → all (λ o. contains o.number ns) os ≡ true
    → all (λ o. contains o.number (n ∷ ns)) os ≡ true
more-numbers n ns [] h = refl
more-numbers n ns (o ∷ os) h = ground (arith, more-numbers n ns os)

own-numbers : (os : List Object) → all (λ o. contains o.number (numbers os)) os ≡ true
own-numbers [] = refl
own-numbers (o ∷ os) = ground (arith, more-numbers o.number (numbers os) os (own-numbers os))

bodies-append : (xs ys : List Object) → bodies (xs ++ ys) ≡ bodies xs ++ bodies ys
bodies-append [] ys = refl
bodies-append (x ∷ xs) ys = ap (λ l. x.event ∷ l) (bodies-append xs ys)

pub mirrored_bodies :
    (r : ScenarioRegistry) → IsMirrored r → bodies r.events ≡ r.file ++ bodies r.staged
mirrored_bodies r v =
    ap bodies v.split ∙ bodies-append v.committed r.staged ∙ ap (λ l. l ++ bodies r.staged) v.saved

pub commit-IsMirrored : (r : ScenarioRegistry) → IsMirrored r → IsMirrored (commit r)
unfolding commit
commit-IsMirrored r v = record {
  committed = r.events;
  split = sym (append_nil r.events);
  saved = mirrored_bodies r v;
  are_apart = apart-nothing r.events;
  are_below = v.are_below;
  written = λ h. refl;
}

pub rolled_back : (r : ScenarioRegistry) (v : IsMirrored r) → (rollback r).events ≡ v.committed
unfolding rollback
rolled_back r v =
    let kept : Object → Bool = λ o. not (contains o.number (numbers r.staged)) in
    ap (select kept) v.split
    ∙ select-append kept v.committed r.staged
    ∙ ap (λ l. l ++ select kept r.staged) (select-all kept v.committed v.are_apart)
    ∙ ap (λ l. v.committed ++ l) (select-staged (numbers r.staged) r.staged (own-numbers r.staged))
    ∙ append_nil v.committed

pub rollback-IsMirrored : (r : ScenarioRegistry) → IsMirrored r → IsMirrored (rollback r)
unfolding rollback
rollback-IsMirrored r v = record {
  committed = v.committed;
  split = rolled_back r v ∙ sym (append_nil v.committed);
  saved = v.saved;
  are_apart = apart-nothing v.committed;
  are_below = ap (below r.made) (rolled_back r v) ∙ below-committed r v;
  written = λ h. refl;
}
