-- ===== src/Index/Laws.antt =====
-- engine/wolves/s3/index.py: what the index relies on of the table.
use wolves_ai.Base.{
  ℕ, ◌<◌, ◌≡◌, Bool, true, false, String, Option, none, some, List, ◌++◌, if◌then◌else◌, string_eq,
  ◌==◌,
}
use wolves_ai.Index.{RunItem, Page, Service}

-- `at` is the item under a sort key. `listing` is what a query gives after a start key, cut up into
-- pages, whose number falls with each of them. The queries are not consistent reads, so the listing
-- may be old: nothing here says that it is what the table holds.
pub record IsTable {T : Type 0} (service : Service T) : Type 0 where
  pub at : T → String → Option RunItem
  pub listing : Bool → Option String → T → List RunItem
  pub pages_left : Bool → Option String → T → ℕ
  pub last_page :
      (b : Bool) (start : Option String) (t : T) (page : Page)
      → service.query b start t ≡ some page
      → page.next ≡ none
      → page.items ≡ listing b start t
  pub more_pages :
      (b : Bool) (start : Option String) (t : T) (page : Page) (key : String)
      → service.query b start t ≡ some page
      → page.next ≡ some key
      → (page.items ++ listing b (some key) t ≡ listing b start t)
        × (pages_left b (some key) t < pages_left b start t)
  -- a write that returns has been done
  pub put_at :
      (i : RunItem) (t : T) (k : String)
      → (service.put_item i t).0 ≡ true
      → at (service.put_item i t).1 k ≡ (if i.sort_key == k then some i else at t k)
  pub delete_at :
      (sort_key : String) (t : T) (k : String)
      → (service.delete_item sort_key t).0 ≡ true
      → at (service.delete_item sort_key t).1 k ≡ (if sort_key == k then none else at t k)
  -- one that raises may have been done, and leaves the other keys as they are
  pub put_elsewhere :
      (i : RunItem) (t : T) (k : String)
      → (i.sort_key == k) ≡ false
      → at (service.put_item i t).1 k ≡ at t k
  pub delete_elsewhere :
      (sort_key : String) (t : T) (k : String)
      → (sort_key == k) ≡ false
      → at (service.delete_item sort_key t).1 k ≡ at t k
