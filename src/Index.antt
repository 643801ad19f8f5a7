-- ===== src/Index.antt =====
-- engine/wolves/s3/index.py and s3/publish.py: the index of runs in a table, and what the publisher
-- makes of a table that cannot be reached. The table is outside: a query or a read
-- gives nothing where it raises; a write says whether it has returned, and the table may have been
-- changed also where it raises. Costs and times are whole numbers of a small unit.
pub mod Laws
pub mod Memory
pub mod Pages
pub mod Deletes
pub mod Records
mod Tests
use wolves_ai.Base.{
  ℕ, zero, suc, Bool, true, false, not, ◌&&◌, String, Option, none, some, List, [], ◌∷◌, ◌++◌, map,
  take, if◌then◌else◌, string_eq, ◌==◌,
}
use wolves_ai.Base.Sorted.{is_empty}

pub data RunStatus : Type 0 where
  completed failed : RunStatus

pub record RunRecord : Type 0 where
  pub run_id : String
  pub created_at : String
  pub s3_key : String
  pub status : RunStatus
  pub cost : ℕ
  pub duration : ℕ
  pub kind : String

-- An item of the partition `RUN`; its status is a text.
pub record RunItem : Type 0 where
  pub sort_key : String
  pub run_id : String
  pub created_at : String
  pub s3_key : String
  pub status : String
  pub cost : ℕ
  pub duration : ℕ
  pub kind : String

-- `Items` and `LastEvaluatedKey`
pub record Page : Type 0 where
  pub items : List RunItem
  pub next : Option String

-- The calls of the table `T`.
pub record Service (T : Type 0) : Type 0 where
  pub query : (newest_first : Bool) (start : Option String) → T → Option Page
  -- a write with false has raised; the table is the one afterwards
  pub put_item : RunItem → T → Bool × T
  pub delete_item : (sort_key : String) → T → Bool × T
  -- the item of the kill switch, if there is one
  pub get_enabled : T → Option (Option Bool)
  pub put_enabled : Bool → T → Bool × T

-- `unavailable` is RunIndexUnavailableError; `unfinished` says that the loop had too little fuel.
pub data Reply {ℓ} (A : Type ℓ) : Type ℓ where
  done : A → Reply A
  unavailable unfinished : Reply A

abbrev pub status_text : RunStatus → String
status_text completed = "completed"
status_text failed = "failed"

-- The item that `record_run` puts.
abbrev pub item_of : RunRecord → RunItem
item_of r = record {
  sort_key = r.created_at;
  run_id = r.run_id;
  created_at = r.created_at;
  s3_key = r.s3_key;
  status = status_text r.status;
  cost = r.cost;
  duration = r.duration;
  kind = r.kind;
}

unfoldable pub to_record : RunItem → RunRecord
to_record i = record {
  run_id = i.run_id;
  created_at = i.created_at;
  s3_key = i.s3_key;
  status = if i.status == "failed" then failed else completed;
  cost = i.cost;
  duration = i.duration;
  kind = i.kind;
}

module _ {T : Type 0} (service : Service T) where
  -- The loop of `_run_items`, from a start key, with the items so far.
  unfoldable pub items_from : ℕ → Bool → Option String → List RunItem → T → Reply (List RunItem)
  items_from zero newest_first start items t = unfinished
  items_from (suc fuel) newest_first start items t = elim (service.query newest_first start t) [
    | none ↦ unavailable
    | some page ↦ elim page.next [
      | none ↦ done (items ++ page.items)
      | some key ↦ items_from fuel newest_first (some key) (items ++ page.items) t
    ]
  ]

  unfoldable pub run_items : ℕ → Bool → T → Reply (List RunItem)
  run_items fuel newest_first t = items_from fuel newest_first none [] t

  -- An earlier item of the run.
  abbrev pub is_replaced : RunRecord → RunItem → Bool
  is_replaced r i = i.run_id == r.run_id && not (i.sort_key == r.created_at)

  -- The loop of `record_run`: what it has deleted stays deleted where a call raises.
  unfoldable pub delete_replaced : RunRecord → List RunItem → T → Reply (Unit {0}) × T
  delete_replaced r [] t = (done tt, t)
  delete_replaced r (i ∷ items) t =
      if not (is_replaced r i)
      then delete_replaced r items t
      else let (returned, t') = service.delete_item i.sort_key t in
        if returned then delete_replaced r items t' else (unavailable, t')

  -- `_guard` around a write.
  abbrev pub replied : Bool × T → Reply (Unit {0}) × T
  replied (returned, t) = ((if returned then done tt else unavailable), t)

  abbrev pub put_record : RunRecord → Reply (Unit {0}) × T → Reply (Unit {0}) × T
  put_record r (done _, t) = replied (service.put_item (item_of r) t)
  put_record r (unavailable, t) = (unavailable, t)
  put_record r (unfinished, t) = (unfinished, t)

  abbrev pub replace_in : RunRecord → Reply (List RunItem) → T → Reply (Unit {0}) × T
  replace_in r (done items) t = put_record r (delete_replaced r items t)
  replace_in r unavailable t = (unavailable, t)
  replace_in r unfinished t = (unfinished, t)

  unfoldable pub record_run : ℕ → RunRecord → T → Reply (Unit {0}) × T
  record_run fuel r t = replace_in r (run_items fuel false t) t

  abbrev pub newest : ℕ → Reply (List RunItem) → Reply (List RunRecord)
  newest limit (done items) = done (map to_record (take limit items))
  newest limit unavailable = unavailable
  newest limit unfinished = unfinished

  unfoldable pub list_runs : ℕ → ℕ → T → Reply (List RunRecord)
  list_runs fuel limit t = newest limit (run_items fuel true t)

  -- `RunIndex.run_enabled`
  unfoldable pub run_enabled : T → Reply Bool
  run_enabled t = elim (service.get_enabled t) [
    | none ↦ unavailable
    | some item ↦ elim item [ none ↦ done true | some enabled ↦ done enabled ]
  ]

  unfoldable pub set_run_enabled : Bool → T → Reply (Unit {0}) × T
  set_run_enabled enabled t = replied (service.put_enabled enabled t)

  abbrev enabled_unless : Reply Bool → Bool
  enabled_unless (done enabled) = enabled
  enabled_unless _ = true

  -- `SnapshotPublisher.run_enabled`; `none` is a publisher without an index
  unfoldable pub publisher_enabled : Option T → Bool
  publisher_enabled index = elim index [ none ↦ true | some t ↦ enabled_unless (run_enabled t) ]

  -- `SnapshotPublisher._record`
  unfoldable pub record_in : ℕ → RunRecord → Option T → Option T
  record_in fuel r index = elim index [
    | none ↦ none
    | some t ↦
        some (record_run fuel (record r { kind = if r.kind == "" then "sim_only" else r.kind }) t).1
  ]
