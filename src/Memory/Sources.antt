-- ===== src/Memory/Sources.antt =====
-- engine/wolves/agent/source_memory.py: the memory of sources. The file is its list of
-- records (Lines: its text); the hash of an address, the reading of dates and the clock are parameters.
use wolves_ai.Base.{
  ℕ, ◌&&◌, String, Option, none, some, List, [], ◌∷◌, ◌++◌, if◌then◌else◌, select, string_eq, ◌==◌,
}
use wolves_ai.Base.Dict.{Dict, lookup, insert, values}
use wolves_ai.Memory.History.{history_of, add_to, latest_before}

pub record SeenSource : Type 0 where
  pub url_hash : String
  pub url : String
  pub first_seen_run : String
  pub last_seen_run : String
  pub last_seen_at : String
  pub disposition : String

pub record SourceMemory : Type 0 where
  pub file : List SeenSource
  pub seen : Dict String SeenSource
  pub history : Dict String (List SeenSource)

unfoldable pub merged_disposition : Option SeenSource → String → String → String
merged_disposition none run_id disposition = disposition
merged_disposition (some existing) run_id disposition =
    if disposition == "fetched"
    then disposition
    else if disposition == "ranked" && existing.disposition == "empty"
    then "empty"
    else if disposition == "ranked"
        && existing.disposition == "fetched"
        && existing.last_seen_run == run_id
    then "fetched"
    else disposition

-- A record enters both indexes.
abbrev pub index : SeenSource → SourceMemory → SourceMemory
index r m = record m { seen = insert r.url_hash r m.seen; history = add_to r.url_hash r m.history }

abbrev pub index_all : List SeenSource → SourceMemory → SourceMemory
index_all [] m = m
index_all (r ∷ rs) m = index_all rs (index r m)

-- `__init__`
unfoldable pub load : List SeenSource → SourceMemory
load file = index_all file (record { file = file; seen = []; history = [] })

module _ (hash : String → String) where
  abbrev pub new_record : String → String → String → String → SourceMemory → SeenSource
  new_record url run_id disposition now m =
      let existing = lookup (hash url) m.seen in
      record {
        url_hash = hash url;
        url = url;
        first_seen_run = elim existing [ none ↦ run_id | some r ↦ r.first_seen_run ];
        last_seen_run = run_id;
        last_seen_at = now;
        disposition = merged_disposition existing run_id disposition;
      }

  unfoldable pub record_source :
      String → String → String → String → SourceMemory → SeenSource × SourceMemory
  record_source url run_id disposition now m =
      let r = new_record url run_id disposition now m in
      (r, index r (record m { file = m.file ++ r ∷ [] }))

module _ (hash : String → String) (instant : String → ℕ) (end_of_day : String → Option ℕ) where
  unfoldable pub seen_source :
      String → Option String → Option String → SourceMemory → Option SeenSource
  seen_source url as_of current m = elim as_of [
    | none ↦ lookup (hash url) m.seen
    | some day ↦
        latest_before (λ r. r.last_seen_run) (λ r. r.last_seen_at) instant end_of_day
          (history_of (hash url) m.history) day current
  ]

abbrev pub new_since : String → SourceMemory → List SeenSource
new_since run_id m = select (λ r. r.first_seen_run == run_id) (values m.seen)

abbrev pub seen_in_run : String → SourceMemory → List SeenSource
seen_in_run run_id m = select (λ r. r.last_seen_run == run_id) (values m.seen)
