-- ===== src/Memory/Relevance.antt =====
-- engine/wolves/agent/relevance_memory.py: the memory of relevance judgements. The file is the list of
-- the records of its lines (Base.Lines: when a line reads as its record); the reading of dates and the clock are parameters, and a score is carried as a whole number.
use wolves_ai.Base.{ℕ, String, Option, none, some, List, [], ◌∷◌, ◌++◌, map, take, string_eq}
use wolves_ai.Base.Dict.{Dict, lookup, insert, values}
use wolves_ai.Base.Sorted.{sort_by, text_le}
use wolves_ai.Memory.History.{history_of, add_to, latest_before, last_of}

pub record RankedSource : Type 0 where
  pub url : String
  pub sub_question : String
  pub score : ℕ
  pub reason : String
  pub ranked_at : String
  pub run_id : String

pub record RelevanceMemory : Type 0 where
  pub file : List RankedSource
  pub latest : Dict String RankedSource
  pub history : Dict String (List RankedSource)

abbrev pub index : RankedSource → RelevanceMemory → RelevanceMemory
index r m = record m { latest = insert r.url r m.latest; history = add_to r.url r m.history }

abbrev pub index_all : List RankedSource → RelevanceMemory → RelevanceMemory
index_all [] m = m
index_all (r ∷ rs) m = index_all rs (index r m)

-- `__init__`
unfoldable pub load : List RankedSource → RelevanceMemory
load file = index_all file (record { file = file; latest = []; history = [] })

abbrev pub present {ℓ} : {A : Type ℓ} → List (Option A) → List A
present [] = []
present (none ∷ xs) = present xs
present (some x ∷ xs) = x ∷ present xs

module _ (instant : String → ℕ) (end_of_day : String → Option ℕ) where
  -- `_latest_before`, which takes no day for the last record
  abbrev pub last_seen : Option String → Option String → List RankedSource → Option RankedSource
  last_seen none current rs = last_of rs
  last_seen (some day) current rs =
      latest_before (λ r. r.run_id) (λ r. r.ranked_at) instant end_of_day rs day current

  unfoldable pub latest_ranked :
      String → Option String → Option String → RelevanceMemory → Option RankedSource
  latest_ranked url none current m = lookup url m.latest
  latest_ranked url (some day) current m = last_seen (some day) current (history_of url m.history)

  -- The newest first; those of one time keep their order.
  unfoldable pub recent : ℕ → Option String → Option String → RelevanceMemory → List RankedSource
  recent limit as_of current m = take limit (
      sort_by (λ r s. text_le s.ranked_at r.ranked_at)
        (present (map (last_seen as_of current) (values m.history))))

unfoldable pub record_ranked :
    String
    → String
    → ℕ
    → String
    → String
    → String
    → RelevanceMemory
    → RankedSource × RelevanceMemory
record_ranked url sub_question score reason run_id now m =
    let r : RankedSource = record {
      url = url;
      sub_question = sub_question;
      score = score;
      reason = reason;
      ranked_at = now;
      run_id = run_id;
    } in
    (r, index r (record m { file = m.file ++ r ∷ [] }))
