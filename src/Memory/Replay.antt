-- ===== src/Memory/Replay.antt =====
-- engine/wolves/agent/source_memory.py and relevance_memory.py: what an earlier day is told.
use wolves_ai.Base.{
  ℕ, ◌≡◌, ◌≢◌, ◌<◌, refl, ap, ◌∙◌, false, String, Option, some, List, [], ◌∷◌, map, take, All,
  string_eq, ◌==◌, arith, inl, inr, Bool-cases,
}
use wolves_ai.Base.Dict.{Dict, values}
use wolves_ai.Memory.History.{
  history_of, add_to, history_of-add_to, visible, latest_before, latest_before-hidden,
  latest_before-none, visible-hidden,
}
use wolves_ai.Memory.Sources.{SeenSource, SourceMemory, seen_source, new_record, record_source}
use wolves_ai.Base.Sorted.{sort_by, text_le}
use wolves_ai.Memory.Relevance.{
  RankedSource, RelevanceMemory, present, last_seen, recent, record_ranked,
}
use wolves_ai.Memory.Reload.{SourceCall, record_call, record_calls}

module _ (hash : String → String) (instant : String → ℕ) (end_of_day : String → Option ℕ) where
  -- The record is made after the day, by another run than the reader's.
  abbrev pub IsLater : ℕ → Option String → SourceCall → Type 0
  IsLater latest current c = (latest < instant c.now) × (current ≢ some c.run_id)

  record_call-seen :
      (url day : String) (current : Option String) (latest : ℕ) (c : SourceCall) (m : SourceMemory)
      → end_of_day day ≡ some latest
      → IsLater latest current c
      → seen_source hash instant end_of_day url (some day) current (record_call hash c m)
        ≡ seen_source hash instant end_of_day url (some day) current m
  unfolding seen_source record_source
  record_call-seen url day current latest c m e (late, other) =
      let r = new_record hash c.url c.run_id c.disposition c.now m in
      let old = history_of (hash url) m.history in
      let hidden =
        visible-hidden (λ (s : SeenSource). s.last_seen_run) (λ s. s.last_seen_at) instant
          end_of_day r latest current late other in
      let told =
        latest_before-hidden (λ (s : SeenSource). s.last_seen_run) (λ s. s.last_seen_at) instant
          end_of_day old r day current latest e hidden in
      let view : List SeenSource → Option SeenSource = λ l.
        latest_before (λ s. s.last_seen_run) (λ s. s.last_seen_at) instant end_of_day l day
          current in
      ap view (history_of-add_to (hash c.url) (hash url) r m.history)
      ∙ (elim (Bool-cases (hash c.url == hash url)) [
        | inl q ↦ ground (arith, q, told)
        | inr q ↦ ground (arith, q)
      ])

  -- What a reader as of a day is told of an address is not changed by any records that other runs make
  -- after that day.
  pub record_calls-seen :
      (cs : List SourceCall) (url day : String) (current : Option String) (latest : ℕ)
      (m : SourceMemory)
      → end_of_day day ≡ some latest
      → All (IsLater latest current) cs
      → seen_source hash instant end_of_day url (some day) current (record_calls hash cs m)
        ≡ seen_source hash instant end_of_day url (some day) current m
  record_calls-seen [] url day current latest m e h = refl
  record_calls-seen (c ∷ cs) url day current latest m e (h, hs) =
      record_calls-seen cs url day current latest (record_call hash c m) e hs
      ∙ record_call-seen url day current latest c m e h

pub record RankCall : Type 0 where
  pub url : String
  pub sub_question : String
  pub score : ℕ
  pub reason : String
  pub run_id : String
  pub now : String

abbrev pub rank_call : RankCall → RelevanceMemory → RelevanceMemory
rank_call c m = (record_ranked c.url c.sub_question c.score c.reason c.run_id c.now m).1

abbrev pub rank_calls : List RankCall → RelevanceMemory → RelevanceMemory
rank_calls [] m = m
rank_calls (c ∷ cs) m = rank_calls cs (rank_call c m)

module _ (instant : String → ℕ) (end_of_day : String → Option ℕ) where
  abbrev pub RanksLater : ℕ → Option String → RankCall → Type 0
  RanksLater latest current c = (latest < instant c.now) × (current ≢ some c.run_id)

  -- A record that is out of sight adds nothing to what is told of all histories.
  told-add_to :
      (r : RankedSource) (k day : String) (current : Option String) (latest : ℕ)
      (d : Dict String (List RankedSource))
      → end_of_day day ≡ some latest
      → visible (λ s. s.run_id) (λ s. s.ranked_at) instant end_of_day latest current r ≡ false
      → present (map (last_seen instant end_of_day (some day) current) (values (add_to k r d)))
        ≡ present (map (last_seen instant end_of_day (some day) current) (values d))
  told-add_to r k day current latest [] e h = ground (
    arith,
    latest_before-none (λ (s : RankedSource). s.run_id) (λ s. s.ranked_at) instant end_of_day r day
        current latest e h,
  )
  told-add_to r k day current latest ((j, rs) ∷ d) e h = ground (
    arith,
    latest_before-hidden (λ (s : RankedSource). s.run_id) (λ s. s.ranked_at) instant end_of_day rs r
        day current latest e h,
    told-add_to r k day current latest d e h,
  )

  rank_call-recent :
      (limit : ℕ) (day : String) (current : Option String) (latest : ℕ) (c : RankCall)
      (m : RelevanceMemory)
      → end_of_day day ≡ some latest
      → RanksLater latest current c
      → recent instant end_of_day limit (some day) current (rank_call c m)
        ≡ recent instant end_of_day limit (some day) current m
  unfolding recent record_ranked
  rank_call-recent limit day current latest c m e (late, other) =
      let r : RankedSource =
        (record_ranked c.url c.sub_question c.score c.reason c.run_id c.now m).0 in
      ap (λ rs. take limit (sort_by (λ x y. text_le y.ranked_at x.ranked_at) rs))
        (told-add_to r c.url day current latest m.history e (
          visible-hidden (λ (s : RankedSource). s.run_id) (λ s. s.ranked_at) instant end_of_day r
            latest current late other))

  -- The judgements that a reader as of a day is shown as the most recent ones are not changed by any
  -- judgements that other runs record after that day.
  pub rank_calls-recent :
      (cs : List RankCall) (limit : ℕ) (day : String) (current : Option String) (latest : ℕ)
      (m : RelevanceMemory)
      → end_of_day day ≡ some latest
      → All (RanksLater latest current) cs
      → recent instant end_of_day limit (some day) current (rank_calls cs m)
        ≡ recent instant end_of_day limit (some day) current m
  rank_calls-recent [] limit day current latest m e h = refl
  rank_calls-recent (c ∷ cs) limit day current latest m e (h, hs) =
      rank_calls-recent cs limit day current latest (rank_call c m) e hs
      ∙ rank_call-recent limit day current latest c m e h
