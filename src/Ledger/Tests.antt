-- ===== src/Ledger/Tests.antt =====
-- The ledger's theorem at a ledger of one entry.
use wolves_ai.Base.{◌≡◌, ◌≢◌, refl, String, none, some, List, [], ◌∷◌}
use wolves_ai.Base.Int.{pos}
use wolves_ai.Base.Decimal.{pad_three, pad_four, decimal}
use wolves_ai.Ledger.{Claim, LedgerEntry, confirmed, ledger_id, append_entry, get}
use wolves_ai.Ledger.Laws.{NumberedFrom, append_entry_lem}

abbrev injury : Claim
injury = record {
  claim = "the striker is out";
  source_url = "https://example.org/a";
  status = confirmed;
  mechanism = "injury";
  proposed_delta = pos 3;
  expiry = none;
  team_id = some "por";
  relevance = none;
  retrieval_id = none;
}

abbrev one_entry : List LedgerEntry
one_entry = record { id = "led-0001"; body = injury } ∷ []

one_entry-NumberedFrom : NumberedFrom 1 one_entry
unfolding ledger_id pad_four pad_three decimal
one_entry-NumberedFrom = (refl, tt)

append_entry_lem_example :
    let (x, es') = append_entry injury one_entry in
    (get x.id es' ≡ some x)
    × ((i : String) → i ≢ x.id → get i es' ≡ get i one_entry)
    × NumberedFrom 1 es'
append_entry_lem_example = append_entry_lem injury one_entry one_entry-NumberedFrom
