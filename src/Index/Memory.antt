-- ===== src/Index/Memory.antt =====
-- engine/wolves/s3/index.py: a table in memory that has what the index relies on. A query gives its
-- first item on one page and the others on the next.
use wolves_ai.Base.{
  ℕ, ◌<◌, ◌≡◌, refl, sym, ap, ◌∙◌, true, false, not, String, Option, none, some, List, [], ◌∷◌,
  ◌++◌, select, take, drop, take-append-drop, some-inj, if◌then◌else◌, string_eq, eq_iff, ◌==◌,
  arith, inl, inr, Bool-cases,
}
use wolves_ai.Index.{RunItem, Page, Service}
use wolves_ai.Index.Laws.{IsTable}

abbrev pub Rows : Type 0
Rows = List RunItem

-- The newest row under a key counts.
abbrev pub row_at : Rows → String → Option RunItem
row_at [] k = none
row_at (i ∷ t) k = if i.sort_key == k then some i else row_at t k

abbrev pub shown : Rows → Rows
shown [] = []
shown (i ∷ t) = i ∷ select (λ j. not (j.sort_key == i.sort_key)) (shown t)

abbrev pub page_of : Option String → Rows → Page
page_of none t = record { items = take 1 (shown t); next = some "rest" }
page_of (some key) t = record { items = drop 1 (shown t); next = none }

abbrev pub rest_of : Option String → Rows → Rows
rest_of none t = shown t
rest_of (some key) t = drop 1 (shown t)

abbrev pub left_of : Option String → ℕ
left_of none = 1
left_of (some key) = 0

abbrev pub in_memory : Service Rows
in_memory = record {
  query = λ newest_first start t. some (page_of start t);
  put_item = λ i t. (true, i ∷ t);
  delete_item = λ k t. (true, select (λ i. not (i.sort_key == k)) t);
  get_enabled = λ t. some none;
  put_enabled = λ enabled t. (true, t);
}

same_key : (a b k : String) → (a == b) ≡ true → (a == k) ≡ (b == k)
same_key a b k h = ap (λ c. c == k) ((eq_iff a b).0 h)

pub row_at-select :
    (t : Rows) (j k : String)
    → row_at (select (λ i. not (i.sort_key == j)) t) k ≡ (if j == k then none else row_at t k)
row_at-select [] j k = ground arith
row_at-select (i ∷ t) j k = elim (Bool-cases (i.sort_key == j)) [
  | inl e ↦ ground (arith, e, row_at-select t j k, same_key i.sort_key j k e)
  | inr e ↦ elim (Bool-cases (j == k)) [
    | inl q ↦
        let other : (i.sort_key == k) ≡ false =
          ap (λ c. i.sort_key == c) (sym ((eq_iff j k).0 q)) ∙ e in
        ground (arith, e, q, other, row_at-select t j k)
    | inr q ↦ ground (arith, e, q, row_at-select t j k)
  ]
]

pub last_of :
    (start : Option String) (t : Rows)
    → (page_of start t).next ≡ none
    → (page_of start t).items ≡ rest_of start t
last_of none t n = absurd (ground (arith, n))
last_of (some key) t n = refl

pub more_of :
    (start : Option String) (t : Rows) (key : String)
    → (page_of start t).next ≡ some key
    → ((page_of start t).items ++ rest_of (some key) t ≡ rest_of start t) × (0 < left_of start)
more_of none t key n = (take-append-drop 1 (shown t), omega arith)
more_of (some k) t key n = absurd (ground (arith, n))

pub row_at-other :
    (i : RunItem) (t : Rows) (k : String)
    → (i.sort_key == k) ≡ false
    → row_at (i ∷ t) k ≡ row_at t k
row_at-other i t k h = ground (arith, h)

pub row_at-kept :
    (t : Rows) (j k : String)
    → (j == k) ≡ false
    → row_at (select (λ i. not (i.sort_key == j)) t) k ≡ row_at t k
row_at-kept t j k h = ground (arith, h, row_at-select t j k)

abbrev pub in_memory-IsTable : IsTable in_memory
in_memory-IsTable = record {
  at = row_at;
  listing = λ b start t. rest_of start t;
  pages_left = λ b start t. left_of start;
  last_page = λ b start t page q n.
      sym (ap (λ x. x.items) (some-inj q)) ∙ last_of start t (ap (λ x. x.next) (some-inj q) ∙ n);
  more_pages = λ b start t page key q n.
      let (l, f) = more_of start t key (ap (λ x. x.next) (some-inj q) ∙ n) in
      (ap (λ x. x.items ++ rest_of (some key) t) (sym (some-inj q)) ∙ l, f);
  put_at = λ i t k q. refl;
  delete_at = λ j t k q. row_at-select t j k;
  put_elsewhere = row_at-other;
  delete_elsewhere = λ j t k h. row_at-kept t j k h;
}
