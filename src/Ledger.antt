-- ===== src/Ledger.antt =====
-- engine/wolves/agent/ledger.py: the append-only evidence ledger of one run. Dates are day numbers;
-- the file's lines are the entries; source tiers and time stamps are left out.
pub mod Laws
mod Tests
use wolves_ai.Base.{
  ℕ, ◌+◌, ◌≡◌, Bool, true, false, ◌||◌, String, Option, none, some, List, [], ◌∷◌, ◌++◌,
  if◌then◌else◌, length, select, leb, string_eq, ◌==◌,
}
use wolves_ai.Base.Int.{ℤ}
use wolves_ai.Base.Decimal.{append, pad_four}

pub data LedgerStatus : Type 0 where
  confirmed probable rumour : LedgerStatus

abbrev pub status_eq : LedgerStatus → LedgerStatus → Bool
status_eq confirmed confirmed = true
status_eq probable probable = true
status_eq rumour rumour = true
status_eq _ _ = false

-- What the caller gives `append`.
pub record Claim : Type 0 where
  pub claim : String
  pub source_url : String
  pub status : LedgerStatus
  pub mechanism : String
  pub proposed_delta : ℤ
  pub expiry : Option ℕ
  pub team_id : Option String
  pub relevance : Option ℕ
  pub retrieval_id : Option String

pub record LedgerEntry : Type 0 where
  pub id : String
  pub body : Claim
  pub open body use *

-- `f"led-{n:04d}"`
unfoldable pub ledger_id : ℕ → String
ledger_id n = append "led-" (pad_four n)

-- `EvidenceLedger.append`: the entry, and the entries with it at the end
unfoldable pub append_entry : Claim → List LedgerEntry → LedgerEntry × List LedgerEntry
append_entry c entries =
    let entry : LedgerEntry = record { id = ledger_id (length entries + 1); body = c } in
    (entry, entries ++ entry ∷ [])

-- `get`
unfoldable pub get : String → List LedgerEntry → Option LedgerEntry
get entry_id [] = none
get entry_id (e ∷ es) = if e.id == entry_id then some e else get entry_id es

abbrev has_team : Option String → LedgerEntry → Bool
has_team none e = true
has_team (some t) e = elim e.team_id [ none ↦ false | some u ↦ u == t ]

abbrev has_status : Option LedgerStatus → LedgerEntry → Bool
has_status none e = true
has_status (some s) e = status_eq e.status s

abbrev is_fresh : Option ℕ → LedgerEntry → Bool
is_fresh none e = true
is_fresh (some day) e = elim e.expiry [ none ↦ true | some until ↦ leb day until ]

unfoldable pub query :
    Option String → Option LedgerStatus → Option ℕ → List LedgerEntry → List LedgerEntry
query team status fresh_on entries =
    select (is_fresh fresh_on) (select (has_status status) (select (has_team team) entries))
