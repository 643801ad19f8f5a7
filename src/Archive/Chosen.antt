-- ===== src/Archive/Chosen.antt =====
-- engine/wolves/archive/selection.py: the selected forecast is the newest that was there by the cutoff.
use wolves_ai.Base.{
  ℕ, ◌≤◌, ◌≡◌, ◌⊎◌, refl, sym, ap, subst, ◌∙◌, Bool, true, false, String, Option, some, List, [],
  ◌∷◌, select, if◌then◌else◌, leb, ltb, string_eq, arith, inl, inr, Bool-cases, Option-cases,
}
use wolves_ai.Base.Sorted.{is_empty}
use wolves_ai.Archive.Selection.{
  Snapshot, Selected, ok, refused, ◌>>=◌, parse_timestamp, eligible_at, time_of, newest_of,
  is_agent, preferred_of, newest_candidate, select_snapshot,
}

-- The list holds it.
abbrev pub Within : Snapshot → List Snapshot → Type 0
Within a [] = ⊥
Within a (x ∷ xs) = (a ≡ x) ⊎ Within a xs

not_empty : (a : Snapshot) (xs : List Snapshot) → Within a xs → is_empty xs ≡ false
not_empty a [] h = absurd h
not_empty a (x ∷ xs) h = refl

module _ (p : Snapshot → Bool) (a x : Snapshot) where
  found_in :
      (b : Bool) (xs ys : List Snapshot)
      → p x ≡ b
      → (Within a ys → Within a xs × (p a ≡ true))
      → Within a (if b then x ∷ ys else ys)
      → Within a (x ∷ xs) × (p a ≡ true)
  found_in false xs ys e k h = let (w, q) = k h in (inr w, q)
  found_in true xs ys e k (inl q) = (inl q, ap p q ∙ e)
  found_in true xs ys e k (inr h) = let (w, q) = k h in (inr w, q)

  here_in : (b : Bool) (ys : List Snapshot) → b ≡ true → a ≡ x → Within a (if b then x ∷ ys else ys)
  here_in true ys e q = inl q
  here_in false ys e q = absurd (ground (arith, e))

  later_in : (b : Bool) (ys : List Snapshot) → Within a ys → Within a (if b then x ∷ ys else ys)
  later_in true ys h = inr h
  later_in false ys h = h

Within-select :
    (p : Snapshot → Bool) (a : Snapshot) (xs : List Snapshot)
    → Within a (select p xs)
    → Within a xs × (p a ≡ true)
Within-select p a [] h = absurd h
Within-select p a (x ∷ xs) h = found_in p a x (p x) xs (select p xs) refl (Within-select p a xs) h

select-Within :
    (p : Snapshot → Bool) (a : Snapshot) (xs : List Snapshot)
    → Within a xs
    → p a ≡ true
    → Within a (select p xs)
select-Within p a [] h e = absurd h
select-Within p a (x ∷ xs) (inl q) e = here_in p a x (p x) (select p xs) (sym (ap p q) ∙ e) q
select-Within p a (x ∷ xs) (inr h) e = later_in p a x (p x) (select p xs) (select-Within p a xs h e)

module _ (parse : String → Option ℕ) (cutoff : ℕ) where
  abbrev pub in_time : Snapshot → Bool
  in_time s = leb (time_of parse s) cutoff

  eligible_rest :
      (s : Snapshot) (t : ℕ) (ss es : List Snapshot) (r : Selected (List Snapshot))
      → parse s.created_at ≡ some t
      → ((fs : List Snapshot) → r ≡ ok fs → fs ≡ select in_time ss)
      → (r >>= λ found. ok (if leb t cutoff then s ∷ found else found)) ≡ ok es
      → es ≡ select in_time (s ∷ ss)
  eligible_rest s t ss es (refused e) q k h = absurd (ground (arith, h))
  eligible_rest s t ss es (ok fs) q k h = ground (arith, h, q, k fs refl)

  eligible_at-select :
      (ss es : List Snapshot) → eligible_at parse cutoff ss ≡ ok es → es ≡ select in_time ss
  unfolding eligible_at parse_timestamp
  eligible_at-select [] es h = ground (arith, h)
  eligible_at-select (s ∷ ss) es h = elim (Option-cases (parse s.created_at)) [
    | inl n ↦ absurd (ground (arith, h, n))
    | inr (t, q) ↦
        eligible_rest s t ss es (eligible_at parse cutoff ss) q (eligible_at-select ss)
          (ground (arith, h, q))
  ]

  -- The newest of a list is in it, and no other is newer.
  newest_of-Within :
      (best : Snapshot) (ss : List Snapshot) → Within (newest_of parse best ss) (best ∷ ss)
  newest_of-Within best [] = inl refl
  newest_of-Within best (s ∷ ss) =
      either (ltb (time_of parse best) (time_of parse s)) (newest_of-Within s ss)
        (newest_of-Within best ss)
    where
      either :
          (b : Bool)
          → Within (newest_of parse s ss) (s ∷ ss)
          → Within (newest_of parse best ss) (best ∷ ss)
          → Within (newest_of parse (if b then s else best) ss) (best ∷ s ∷ ss)
      either true u v = inr u
      either false u (inl q) = inl q
      either false u (inr w) = inr (inr w)

  best_le :
      (best : Snapshot) (ss : List Snapshot)
      → time_of parse best ≤ time_of parse (newest_of parse best ss)
  best_le best [] = omega arith
  best_le best (s ∷ ss) = elim (Bool-cases (ltb (time_of parse best) (time_of parse s))) [
    | inl e ↦ ground (arith, e, best_le s ss)
    | inr e ↦ ground (arith, e, best_le best ss)
  ]

  newest_of-le :
      (best : Snapshot) (ss : List Snapshot) (a : Snapshot)
      → Within a (best ∷ ss)
      → time_of parse a ≤ time_of parse (newest_of parse best ss)
  newest_of-le best ss a (inl q) = omega (arith, ap (time_of parse) q, best_le best ss)
  newest_of-le best [] a (inr h) = absurd h
  newest_of-le best (s ∷ ss) a (inr (inl q)) =
      elim (Bool-cases (ltb (time_of parse best) (time_of parse s))) [
        | inl e ↦ ground (arith, e, ap (time_of parse) q, best_le s ss)
        | inr e ↦ ground (arith, e, ap (time_of parse) q, best_le best ss)
      ]
  newest_of-le best (s ∷ ss) a (inr (inr w)) =
      newest_of-le (if ltb (time_of parse best) (time_of parse s) then s else best) ss a (inr w)

  -- One of the snapshots that was there in time; a forecast of the agent, unless none was there in
  -- time; and no later one was there in time, of the same kind or of the agent.
  pub record IsNewest (snapshots : List Snapshot) (s : Snapshot) : Type 0 where
    pub listed : Within s snapshots
    pub timely : in_time s ≡ true
    pub agent_first :
        is_agent parse s ≡ false
        → (a : Snapshot) → Within a snapshots
        → in_time a ≡ true
        → is_agent parse a ≡ false
    pub newest :
        (a : Snapshot)
        → Within a snapshots
        → in_time a ≡ true
        → (is_agent parse a ≡ true) ⊎ (is_agent parse s ≡ false)
        → time_of parse a ≤ time_of parse s

  newest_candidate-of :
      (cs : List Snapshot) (s : Snapshot)
      → newest_candidate parse cutoff cs ≡ ok s
      → Within s cs × ((a : Snapshot) → Within a cs → time_of parse a ≤ time_of parse s)
  newest_candidate-of [] s h = absurd (ground (arith, h))
  newest_candidate-of (c ∷ cs) s h =
      let same : newest_of parse c cs ≡ s = ground (arith, h) in
      (
        subst (λ x. Within x (c ∷ cs)) same (newest_of-Within c cs),
        λ a w. omega (arith, newest_of-le c cs a w, ap (time_of parse) same),
      )

  -- The candidates are the forecasts of the agent in time, if there are any.
  preferred-IsNewest :
      (ss : List Snapshot) (s : Snapshot)
      → Within s (preferred_of parse (select in_time ss))
      → ((a : Snapshot)
          → Within a (preferred_of parse (select in_time ss))
          → time_of parse a ≤ time_of parse s)
      → IsNewest ss s
  preferred-IsNewest ss s w u =
      by_agents (is_empty (select (is_agent parse) (select in_time ss))) refl w u
    where
      by_agents :
          (b : Bool)
          → is_empty (select (is_agent parse) (select in_time ss)) ≡ b
          → Within s (if b then select in_time ss else select (is_agent parse) (select in_time ss))
          → ((a : Snapshot)
              → Within a
                  (if b then select in_time ss else select (is_agent parse) (select in_time ss))
              → time_of parse a ≤ time_of parse s)
          → IsNewest ss s
      by_agents true e w u =
          let (l, t) = Within-select in_time s ss w in
          record {
            listed = l;
            timely = t;
            agent_first = λ n a v k. elim (Bool-cases (is_agent parse a)) [
              | inr f ↦ f
              | inl f ↦
                  let held =
                    select-Within (is_agent parse) a (select in_time ss)
                      (select-Within in_time a ss v k) f in
                  absurd (
                    ground
                      (arith, e, not_empty a (select (is_agent parse) (select in_time ss)) held))
            ];
            newest = λ a v k o. u a (select-Within in_time a ss v k);
          }
      by_agents false e w u =
          let (l, g) = Within-select (is_agent parse) s (select in_time ss) w in
          let (m, t) = Within-select in_time s ss l in
          record {
            listed = m;
            timely = t;
            agent_first = λ n a v k. absurd (ground (arith, n, g));
            newest = λ a v k o. elim o [
              | inl f ↦ u a (
                  select-Within (is_agent parse) a (select in_time ss)
                    (select-Within in_time a ss v k) f)
              | inr n ↦ absurd (ground (arith, n, g))
            ];
          }

-- The selected snapshot is one of those that were there by the cutoff. It is a forecast of the agent,
-- unless no forecast of the agent was there by then; and none that was there by then is newer, of the
-- agent, or of any kind where the selected one is not of the agent.
pub select_snapshot-IsNewest :
    (parse : String → Option ℕ) (snapshots : List Snapshot) (cutoff : ℕ) (s : Snapshot)
    → select_snapshot parse snapshots cutoff ≡ ok s
    → IsNewest parse cutoff snapshots s
unfolding select_snapshot
select_snapshot-IsNewest parse snapshots cutoff s h =
    chosen (eligible_at parse cutoff snapshots) refl h
  where
    chosen :
        (r : Selected (List Snapshot))
        → eligible_at parse cutoff snapshots ≡ r
        → (r >>= λ eligible. newest_candidate parse cutoff (preferred_of parse eligible)) ≡ ok s
        → IsNewest parse cutoff snapshots s
    chosen (refused e) q h = absurd (ground (arith, h))
    chosen (ok es) q h =
        let same = eligible_at-select parse cutoff snapshots es q in
        let (w, u) =
          newest_candidate-of parse cutoff
            (preferred_of parse (select (in_time parse cutoff) snapshots)) s
            (subst (λ l. newest_candidate parse cutoff (preferred_of parse l) ≡ ok s) same h) in
        preferred-IsNewest parse cutoff snapshots s w u
