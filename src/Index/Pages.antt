-- ===== src/Index/Pages.antt =====
-- engine/wolves/s3/index.py: the loop over the pages of a query gives the whole listing, and ends.
use wolves_ai.Base.{
  ℕ, zero, suc, ◌<◌, ◌≡◌, ◌≢◌, ap, ◌∙◌, Bool, String, Option, none, some, List, [], ◌++◌,
  append_assoc, arith, inl, inr, Option-cases,
}
use wolves_ai.Index.{RunItem, Service, done, unfinished, items_from, run_items}
use wolves_ai.Index.Laws.{IsTable}

module _ {T : Type 0} (service : Service T) (v : IsTable service) where
  items_from-listing :
      (fuel : ℕ) (b : Bool) (start : Option String) (acc items : List RunItem) (t : T)
      → items_from service fuel b start acc t ≡ done items
      → items ≡ acc ++ v.listing b start t
  unfolding items_from
  items_from-listing zero b start acc items t h = absurd (ground (arith, h))
  items_from-listing (suc fuel) b start acc items t h =
      elim (Option-cases (service.query b start t)) [
        | inl q ↦ absurd (ground (arith, h, q))
        | inr (page, q) ↦ elim (Option-cases page.next) [
          | inl n ↦ ground (arith, h, q, n, v.last_page b start t page q n)
          | inr (key, n) ↦
              items_from-listing fuel b (some key) (acc ++ page.items) items t
                (ground (arith, h, q, n))
              ∙ append_assoc acc page.items (v.listing b (some key) t)
              ∙ ap (λ l. acc ++ l) (v.more_pages b start t page key q n).0
        ]
      ]

  items_from-finished :
      (fuel : ℕ) (b : Bool) (start : Option String) (acc : List RunItem) (t : T)
      → v.pages_left b start t < fuel
      → items_from service fuel b start acc t ≢ unfinished
  unfolding items_from
  items_from-finished zero b start acc t f h = absurd (ground (arith, f))
  items_from-finished (suc fuel) b start acc t f h = elim (Option-cases (service.query b start t)) [
    | inl q ↦ absurd (ground (arith, h, q))
    | inr (page, q) ↦ elim (Option-cases page.next) [
      | inl n ↦ absurd (ground (arith, h, q, n))
      | inr (key, n) ↦
          let fewer = (v.more_pages b start t page key q n).1 in
          items_from-finished fuel b (some key) (acc ++ page.items) t (omega (arith, f, fewer))
            (ground (arith, h, q, n))
    ]
  ]

  pub run_items-listing :
      (fuel : ℕ) (b : Bool) (items : List RunItem) (t : T)
      → run_items service fuel b t ≡ done items
      → items ≡ v.listing b none t
  unfolding run_items
  run_items-listing fuel b items t h = items_from-listing fuel b none [] items t h

  pub run_items-finished :
      (fuel : ℕ) (b : Bool) (t : T)
      → v.pages_left b none t < fuel
      → run_items service fuel b t ≢ unfinished
  unfolding run_items
  run_items-finished fuel b t f h = items_from-finished fuel b none [] t f h
