-- ===== src/Archive/Results.antt =====
-- engine/wolves/archive/selection.py: a day of the archive shows the results that were known by its
-- cutoff, all of them and no others.
use wolves_ai.Base.{
  ℕ, ◌≡◌, ◌⊎◌, refl, sym, ap, ◌∙◌, Bool, true, false, ◌&&◌, String, Option, none, some, List, [],
  ◌∷◌, count_if, if◌then◌else◌, leb, ltb, eqb, eqb_iff, arith, inl, inr, Option-cases, Bool-cases,
}
use wolves_ai.Base.Dict.{Dict}
use wolves_ai.Base.Sorted.{insert_by, sort_by}
use wolves_ai.Archive.Selection.{
  Snapshot, ResultSetEntry, MatchRow, FixtureMetadata, ArchivedResult, Selected, ok, refused, ◌>>=◌,
  parse_timestamp, recorded_text, with_fixture, fixture_for, normalise_result, result_before,
  known_results, normalise_results,
}

count_if-insert_by :
    (p : ArchivedResult → Bool) (r : ArchivedResult) (rs : List ArchivedResult)
    → count_if p (insert_by result_before r rs) ≡ count_if p (r ∷ rs)
count_if-insert_by p r [] = refl
count_if-insert_by p r (s ∷ rs) = ground (arith, count_if-insert_by p r rs)

count_if-sort_by :
    (p : ArchivedResult → Bool) (rs : List ArchivedResult)
    → count_if p (sort_by result_before rs) ≡ count_if p rs
count_if-sort_by p [] = refl
count_if-sort_by p (r ∷ rs) =
    ground (arith, count_if-insert_by p r (sort_by result_before rs), count_if-sort_by p rs)

module _ (parse : String → Option ℕ) (s : Snapshot) (cutoff : ℕ) where
  abbrev pub recorded_of : ResultSetEntry → ℕ
  recorded_of e = elim (parse (recorded_text parse s e)) [ none ↦ 0 | some t ↦ t ]

  -- The entry was recorded by the cutoff.
  abbrev pub is_known : ResultSetEntry → Bool
  is_known e = leb (recorded_of e) cutoff

  -- An entry and what the archive shows of it.
  abbrev pub tells : ℕ → ℕ → ℕ → ℕ → ResultSetEntry → Bool
  tells number home away recorded e =
      eqb e.match_number number
      && (eqb e.home_goals home && (eqb e.away_goals away && eqb (recorded_of e) recorded))

  abbrev pub shows : ℕ → ℕ → ℕ → ℕ → ArchivedResult → Bool
  shows number home away recorded r =
      eqb r.match_number number
      && (eqb r.home_goals home && (eqb r.away_goals away && eqb r.recorded_at recorded))

  -- What one entry adds, where nothing is refused.
  Extends : ResultSetEntry → ℕ → List ArchivedResult → List ArchivedResult → Type 0
  Extends e t rest rs =
      ((ltb cutoff t ≡ true) × (rs ≡ rest))
      ⊎ ((ltb cutoff t ≡ false) × (m : MatchRow) × (rs ≡ normalise_result e m t ∷ rest))

  one_more :
      (e : ResultSetEntry) (t : ℕ) (f : Option MatchRow) (rest : Selected (List ArchivedResult))
      (rs : List ArchivedResult)
      → ltb cutoff t ≡ false
      → (with_fixture parse s e t f >>= λ result. rest >>= λ results. ok (result ∷ results)) ≡ ok rs
      → (found : List ArchivedResult) × (rest ≡ ok found) × Extends e t found rs
  unfolding Extends
  one_more e t none rest rs l h = absurd (ground (arith, h))
  one_more e t (some m) (refused x) rs l h = absurd (ground (arith, h))
  one_more e t (some m) (ok found) rs l h = (found, refl, inr (l, m, ground (arith, h)))

  after_entry :
      (e : ResultSetEntry) (t : ℕ) (f : Option MatchRow) (rest : Selected (List ArchivedResult))
      (rs : List ArchivedResult)
      → (if ltb cutoff t
          then rest
          else (with_fixture parse s e t f >>= λ result. rest >>= λ results. ok (result ∷ results)))
        ≡ ok rs
      → (found : List ArchivedResult) × (rest ≡ ok found) × Extends e t found rs
  unfolding Extends
  after_entry e t f rest rs h = elim (Bool-cases (ltb cutoff t)) [
    | inl l ↦ (rs, ground (arith, h, l), inl (l, refl))
    | inr l ↦ one_more e t f rest rs l (ground (arith, h, l))
  ]

  known_results-count :
      (metadata : Dict ℕ FixtureMetadata) (number home away recorded : ℕ) (es : List ResultSetEntry)
      (rs : List ArchivedResult)
      → known_results parse s cutoff metadata es ≡ ok rs
      → count_if (shows number home away recorded) rs
        ≡ count_if (λ e. is_known e && tells number home away recorded e) es
  unfolding known_results parse_timestamp Extends normalise_result
  known_results-count metadata number home away recorded [] rs h = ground (arith, h)
  known_results-count metadata number home away recorded (e ∷ es) rs h =
      elim (Option-cases (parse (recorded_text parse s e))) [
        | inl n ↦ absurd (ground (arith, h, n))
        | inr (t, q) ↦
            let (found, k, a) =
              after_entry e t (fixture_for s metadata e.match_number)
                (known_results parse s cutoff metadata es) rs (ground (arith, h, q)) in
            let rest = known_results-count metadata number home away recorded es found k in
            elim a [
              | inl (l, r) ↦ ground (arith, q, rest, l, r)
              | inr (l, m, r) ↦ ground (arith, q, rest, l, r)
            ]
      ]

  known-tells :
      (number home away recorded : ℕ) (es : List ResultSetEntry)
      → count_if (λ e. is_known e && tells number home away recorded e) es
        ≡ (if ltb cutoff recorded then 0 else count_if (tells number home away recorded) es)
  known-tells number home away recorded [] = ground arith
  known-tells number home away recorded (e ∷ es) =
      elim (Bool-cases (tells number home away recorded e)) [
        | inl t ↦
            let same : recorded_of e ≡ recorded =
              ground (arith, t, eqb_iff (recorded_of e) recorded) in
            elim (Bool-cases (is_known e)) [
              | inl k ↦ ground (arith, t, k, same, known-tells number home away recorded es)
              | inr k ↦ ground (arith, t, k, same, known-tells number home away recorded es)
            ]
        | inr t ↦ ground (arith, t, known-tells number home away recorded es)
      ]

-- Where no timestamp or fixture is refused, the results of an archive day are those of the snapshot that
-- were recorded by the cutoff: each number, score and time is shown as often as an entry has it, if it
-- was recorded by then, and else not at all.
pub normalise_results-known :
    (parse : String → Option ℕ) (s : Snapshot) (cutoff : ℕ) (metadata : Dict ℕ FixtureMetadata)
    (rs : List ArchivedResult) (number home away recorded : ℕ)
    → normalise_results parse s cutoff metadata ≡ ok rs
    → count_if (shows parse s cutoff number home away recorded) rs ≡ (
        if ltb cutoff recorded
        then 0
        else count_if (tells parse s cutoff number home away recorded) s.results)
unfolding normalise_results
normalise_results-known parse s cutoff metadata rs number home away recorded h =
    sorted (known_results parse s cutoff metadata s.results) refl h
    ∙ known-tells parse s cutoff number home away recorded s.results
  where
    sorted :
        (r : Selected (List ArchivedResult))
        → known_results parse s cutoff metadata s.results ≡ r
        → (r >>= λ results. ok (sort_by result_before results)) ≡ ok rs
        → count_if (shows parse s cutoff number home away recorded) rs
          ≡ count_if
              (λ e. is_known parse s cutoff e && tells parse s cutoff number home away recorded e)
              s.results
    sorted (refused e) q h = absurd (ground (arith, h))
    sorted (ok found) q h =
        let same : sort_by result_before found ≡ rs = ground (arith, h) in
        let p = shows parse s cutoff number home away recorded in
        sym (ap (count_if p) same)
        ∙ count_if-sort_by p found
        ∙ known_results-count parse s cutoff metadata number home away recorded s.results found q
