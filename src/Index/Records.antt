-- ===== src/Index/Records.antt =====
-- engine/wolves/s3/index.py: recording a run in the index.
use wolves_ai.Base.{
  ℕ, ◌<◌, ◌≡◌, ◌≢◌, refl, ap, ◌∙◌, Bool, false, String, none, some, List, if◌then◌else◌, string_eq,
  ◌==◌, arith, inl, inr, Bool-cases,
}
use wolves_ai.Index.{
  RunItem, RunRecord, item_of, Service, Reply, done, unavailable, unfinished, run_items,
  delete_replaced, put_record, replace_in, record_run,
}
use wolves_ai.Index.Laws.{IsTable}
use wolves_ai.Index.Pages.{run_items-listing, run_items-finished}
use wolves_ai.Index.Deletes.{
  deleted_at, untouched_at, delete-finished, put_record-afterwards, put_record-untouched, of_run_at,
  replaces_at, replaces_at-of_run_at,
}

module _ {T : Type 0} (service : Service T) (v : IsTable service) (r : RunRecord) where
  -- The query, while it is made, gives an item of the run under the key.
  abbrev pub lists_run : T → String → Bool
  lists_run t k = of_run_at service v r k (v.listing false none t)

  replaces-lists :
      (fuel : ℕ) (t : T) (k : String) (items : List RunItem)
      → run_items service fuel false t ≡ done items
      → (r.created_at == k) ≡ false
      → replaces_at service v r k items ≡ lists_run t k
  replaces-lists fuel t k items q o =
      ap (replaces_at service v r k) (run_items-listing service v fuel false items t q)
      ∙ replaces_at-of_run_at service v r k (v.listing false none t) o

  replace_in-afterwards :
      (fuel : ℕ) (items : Reply (List RunItem)) (t : T) (k : String)
      → run_items service fuel false t ≡ items
      → (replace_in service r items t).0 ≡ done tt
      → v.at (replace_in service r items t).1 k
        ≡ (if r.created_at == k then some (item_of r) else if lists_run t k then none else v.at t k)
  replace_in-afterwards fuel (done items) t k q h =
      put_record-afterwards service v r (delete_replaced service r items t) k
        (if lists_run t k then none else v.at t k)
        (λ o e.
          deleted_at service v r items t k e
          ∙ ap (λ b. if b then none else v.at t k) (replaces-lists fuel t k items q o))
        h
  replace_in-afterwards fuel unavailable t k q h = absurd (ground (arith, h))
  replace_in-afterwards fuel unfinished t k q h = absurd (ground (arith, h))

  replace_in-untouched :
      (fuel : ℕ) (items : Reply (List RunItem)) (t : T) (k : String)
      → run_items service fuel false t ≡ items
      → lists_run t k ≡ false
      → (r.created_at == k) ≡ false
      → v.at (replace_in service r items t).1 k ≡ v.at t k
  replace_in-untouched fuel (done items) t k q w h =
      put_record-untouched service v r (delete_replaced service r items t) t k
        (untouched_at service v r items t k (replaces-lists fuel t k items q h ∙ w)) h
  replace_in-untouched fuel unavailable t k q w h = refl
  replace_in-untouched fuel unfinished t k q w h = refl

  put_record-finished :
      (d : Reply (Unit {0}) × T) → d.0 ≢ unfinished → (put_record service r d).0 ≢ unfinished
  put_record-finished (done u, t) n h = elim (Bool-cases (service.put_item (item_of r) t).0) [
    | inl p ↦ ground (arith, h, p)
    | inr p ↦ ground (arith, h, p)
  ]
  put_record-finished (unavailable, t) n h = ground (arith, h)
  put_record-finished (unfinished, t) n h = n h

  replace_in-finished :
      (items : Reply (List RunItem)) (t : T)
      → items ≢ unfinished
      → (replace_in service r items t).0 ≢ unfinished
  replace_in-finished (done items) t n h =
      put_record-finished (delete_replaced service r items t) (delete-finished service v r items t)
        h
  replace_in-finished unavailable t n h = ground (arith, h)
  replace_in-finished unfinished t n h = absurd (n refl)

-- When recording a run has succeeded, the run is under its time; under another time, where the
-- query gave an item of the run, there is nothing any more, and elsewhere is what was there. (The
-- query may be old: an item of the run that it has missed stays.)
pub record_run-recorded :
    {T : Type 0} (service : Service T) (v : IsTable service) (r : RunRecord) (fuel : ℕ) (t : T)
    (k : String)
    → (record_run service fuel r t).0 ≡ done tt
    → v.at (record_run service fuel r t).1 k ≡ (
        if r.created_at == k
        then some (item_of r)
        else if lists_run service v r t k
        then none
        else v.at t k)
unfolding record_run
record_run-recorded service v r fuel t k h =
    replace_in-afterwards service v r fuel (run_items service fuel false t) t k refl h

-- Recording a run ends, where the fuel is more than the pages of the query, and however it ends, also
-- where a call raises, it leaves what is under a key as it is, unless the key is the time of the
-- record or the query gave an item of the run under it.
pub record_run-spares :
    {T : Type 0} (service : Service T) (v : IsTable service) (r : RunRecord) (fuel : ℕ) (t : T)
    (k : String)
    → v.pages_left false none t < fuel
    → lists_run service v r t k ≡ false
    → (r.created_at == k) ≡ false
    → ((record_run service fuel r t).0 ≢ unfinished)
      × (v.at (record_run service fuel r t).1 k ≡ v.at t k)
unfolding record_run
record_run-spares service v r fuel t k f w h = (
  replace_in-finished service v r (run_items service fuel false t) t
      (run_items-finished service v fuel false t f),
  replace_in-untouched service v r fuel (run_items service fuel false t) t k refl w h,
)
