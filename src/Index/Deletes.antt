-- ===== src/Index/Deletes.antt =====
-- engine/wolves/s3/index.py: what `record_run` leaves under each key of the table.
use wolves_ai.Base.{
  ◌≡◌, ◌≢◌, refl, Bool, false, ◌&&◌, String, Option, none, some, List, [], ◌∷◌, any, if◌then◌else◌,
  string_eq, eq_iff, sym, ◌∙◌, ◌==◌, arith, inl, inr, Bool-cases,
}
use wolves_ai.Index.{
  RunItem, RunRecord, item_of, Service, Reply, done, unavailable, unfinished, is_replaced,
  delete_replaced, put_record,
}
use wolves_ai.Index.Laws.{IsTable}

module _ {T : Type 0} (service : Service T) (v : IsTable service) (r : RunRecord) where
  abbrev pub replaces_at : String → List RunItem → Bool
  replaces_at k items = any (λ i. is_replaced service r i && i.sort_key == k) items

  pub deleted_at :
      (items : List RunItem) (t : T) (k : String)
      → (delete_replaced service r items t).0 ≡ done tt
      → v.at (delete_replaced service r items t).1 k
        ≡ (if replaces_at k items then none else v.at t k)
  unfolding delete_replaced
  deleted_at [] t k h = refl
  deleted_at (i ∷ items) t k h = elim (Bool-cases (is_replaced service r i)) [
    | inr e ↦ ground (arith, e, h, deleted_at items t k)
    | inl e ↦ elim (Bool-cases (service.delete_item i.sort_key t).0) [
      | inr d ↦ absurd (ground (arith, e, h, d))
      | inl d ↦
          let t' = (service.delete_item i.sort_key t).1 in
          ground (arith, e, h, d, deleted_at items t' k, v.delete_at i.sort_key t k d)
    ]
  ]

  pub untouched_at :
      (items : List RunItem) (t : T) (k : String)
      → replaces_at k items ≡ false
      → v.at (delete_replaced service r items t).1 k ≡ v.at t k
  unfolding delete_replaced
  untouched_at [] t k h = refl
  untouched_at (i ∷ items) t k h = elim (Bool-cases (is_replaced service r i)) [
    | inr e ↦ ground (arith, e, h, untouched_at items t k)
    | inl e ↦ elim (Bool-cases (service.delete_item i.sort_key t).0) [
      | inr d ↦ ground (arith, e, h, d, v.delete_elsewhere i.sort_key t k)
      | inl d ↦
          let t' = (service.delete_item i.sort_key t).1 in
          ground (arith, e, h, d, untouched_at items t' k, v.delete_elsewhere i.sort_key t k)
    ]
  ]

  pub delete-finished :
      (items : List RunItem) (t : T) → (delete_replaced service r items t).0 ≢ unfinished
  unfolding delete_replaced
  delete-finished [] t h = absurd (ground (arith, h))
  delete-finished (i ∷ items) t h = elim (Bool-cases (is_replaced service r i)) [
    | inr e ↦ delete-finished items t (ground (arith, h, e))
    | inl e ↦ elim (Bool-cases (service.delete_item i.sort_key t).0) [
      | inr d ↦ absurd (ground (arith, h, e, d))
      | inl d ↦ delete-finished items (service.delete_item i.sort_key t).1 (ground (arith, h, e, d))
    ]
  ]

  -- An item of the run is among these under the key.
  abbrev pub of_run_at : String → List RunItem → Bool
  of_run_at k items = any (λ i. i.run_id == r.run_id && i.sort_key == k) items

  -- Under a key that is not the record's time, those are what is replaced.
  pub replaces_at-of_run_at :
      (k : String) (items : List RunItem)
      → (r.created_at == k) ≡ false
      → replaces_at k items ≡ of_run_at k items
  replaces_at-of_run_at k [] h = refl
  replaces_at-of_run_at k (i ∷ items) h = elim (Bool-cases (i.sort_key == k)) [
    | inr e ↦ ground (arith, e, replaces_at-of_run_at k items h)
    | inl e ↦ elim (Bool-cases (i.sort_key == r.created_at)) [
      | inr d ↦ ground (arith, e, d, replaces_at-of_run_at k items h)
      | inl d ↦ absurd (
          ground (
            arith,
            h,
            (eq_iff r.created_at k).1
                (sym ((eq_iff i.sort_key r.created_at).0 d) ∙ (eq_iff i.sort_key k).0 e),
          ))
    ]
  ]

  pub put_record-afterwards :
      (d : Reply (Unit {0}) × T) (k : String) (before : Option RunItem)
      → ((r.created_at == k) ≡ false → d.0 ≡ done tt → v.at d.1 k ≡ before)
      → (put_record service r d).0 ≡ done tt
      → v.at (put_record service r d).1 k ≡ (if r.created_at == k then some (item_of r) else before)
  put_record-afterwards (done u, t') k before h e =
      elim (Bool-cases (service.put_item (item_of r) t').0) [
        | inr p ↦ absurd (ground (arith, e, p))
        | inl p ↦ elim (Bool-cases (r.created_at == k)) [
          | inl q ↦ ground (arith, p, q, v.put_at (item_of r) t' k p)
          | inr q ↦ ground (arith, p, q, h q refl, v.put_at (item_of r) t' k p)
        ]
      ]
  put_record-afterwards (unavailable, t') k before h e = absurd (ground (arith, e))
  put_record-afterwards (unfinished, t') k before h e = absurd (ground (arith, e))

  pub put_record-untouched :
      (d : Reply (Unit {0}) × T) (t : T) (k : String)
      → v.at d.1 k ≡ v.at t k
      → (r.created_at == k) ≡ false
      → v.at (put_record service r d).1 k ≡ v.at t k
  put_record-untouched (done u, t') t k h e = ground (arith, h, e, v.put_elsewhere (item_of r) t' k)
  put_record-untouched (unavailable, t') t k h e = h
  put_record-untouched (unfinished, t') t k h e = h
