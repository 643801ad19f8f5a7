-- ===== src/Ledger/Laws.antt =====
-- engine/wolves/agent/ledger.py: ids stay distinct, and an entry is found by its id.
use wolves_ai.Base.{
  ℕ, ◌+◌, ◌≡◌, ◌≢◌, refl, sym, ap, ◌∙◌, false, String, some, List, [], ◌∷◌, ◌++◌, length, arith,
  string_eq, ◌==◌, eq_iff, inl, inr, Bool-cases,
}
use wolves_ai.Base.Decimal.{scan, scan-pad_four}
use wolves_ai.Ledger.{Claim, LedgerEntry, ledger_id, append_entry, get}

pub ledger_id-injective : (m n : ℕ) → ledger_id m ≡ ledger_id n → m ≡ n
unfolding ledger_id
ledger_id-injective m n e = sym (scan-pad_four m) ∙ ap (scan 0) e ∙ scan-pad_four n

-- The entries are numbered on from `n`.
abbrev pub NumberedFrom : ℕ → List LedgerEntry → Type 0
NumberedFrom n [] = Unit
NumberedFrom n (e ∷ es) = (e.id ≡ ledger_id n) × NumberedFrom (n + 1) es

ids_apart : (m n : ℕ) → m ≢ n → (ledger_id m == ledger_id n) ≡ false
ids_apart m n ne = elim (Bool-cases (ledger_id m == ledger_id n)) [
  | inl e ↦ absurd (ne (ledger_id-injective m n ((eq_iff _ _).0 e)))
  | inr e ↦ e
]

numbered-append :
    (n k : ℕ) (es : List LedgerEntry) (c : Claim)
    → NumberedFrom n es
    → k ≡ n + length es
    → NumberedFrom n (es ++ record { id = ledger_id k; body = c } ∷ [])
numbered-append n k [] c h e = (ap ledger_id (omega arith), tt)
numbered-append n k (x ∷ es) c h e = (h.0, numbered-append (n + 1) k es c h.1 (omega arith))

get-append_self :
    (n k : ℕ) (es : List LedgerEntry) (c : Claim)
    → NumberedFrom n es
    → k ≡ n + length es
    → let x : LedgerEntry = record { id = ledger_id k; body = c } in
      get (ledger_id k) (es ++ x ∷ []) ≡ some x
unfolding get
get-append_self n k [] c h e = rw ((eq_iff (ledger_id k) (ledger_id k)).1 refl)
get-append_self n k (x ∷ es) c h e =
    rw (h.0, ids_apart n k (omega arith)) (get-append_self (n + 1) k es c h.1 (omega arith))

get-append_ne :
    (i : String) (es : List LedgerEntry) (x : LedgerEntry)
    → x.id ≢ i
    → get i (es ++ x ∷ []) ≡ get i es
unfolding get
get-append_ne i [] x h = ground (arith, eq_iff x.id i)
get-append_ne i (y ∷ es) x h = ground (arith, get-append_ne i es x)

-- In a ledger whose entries are numbered from one, an appended entry is found under the id that it
-- was given, every other id finds what it found before, and the entries are again numbered from one.
pub append_entry_lem :
    (c : Claim) (es : List LedgerEntry)
    → NumberedFrom 1 es
    → let (x, es') = append_entry c es in
      (get x.id es' ≡ some x)
      × ((i : String) → i ≢ x.id → get i es' ≡ get i es)
      × NumberedFrom 1 es'
unfolding append_entry
append_entry_lem c es h = (
  get-append_self 1 (length es + 1) es c h (omega arith),
  λ i ne. get-append_ne i es _ (λ e. ne (sym e)),
  numbered-append 1 (length es + 1) es c h (omega arith),
)
