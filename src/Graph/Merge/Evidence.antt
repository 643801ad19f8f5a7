-- ===== src/Graph/Merge/Evidence.antt =====
-- engine/wolves/graph/blackboard.py: what the ledger holds after evidence was folded into it.
use wolves_ai.Base.{
  ℕ, ◌+◌, ◌≤◌, ◌≡◌, refl, Bool, false, String, none, List, [], ◌∷◌, ◌++◌, length, count_if,
  count_if-append, length-append, All, string_eq, nat_eq, ◌==◌, pair_eq, same_pair_iff, arith, inl,
  inr, Bool-cases, Option-cases,
}
use wolves_ai.Base.Dict.{Dict, lookup, insert, lookup-insert}
use wolves_ai.Base.Text.{codes_eq}
use wolves_ai.Ledger.{Claim, LedgerEntry, append_entry, ledger_id}
use wolves_ai.Ledger.Laws.{NumberedFrom, append_entry_lem}
use wolves_ai.Graph.Merge.{
  EvidenceKey, evidence_key, known_claims, Folded, needs_demotion, demote, fold_item, fold_items,
  fold_evidence,
}

-- How many entries make this claim.
abbrev pub times : EvidenceKey → List LedgerEntry → ℕ
times k = count_if λ e. evidence_key e.body == k

All-append_one :
    (P : LedgerEntry → Type 0) (es : List LedgerEntry) (e : LedgerEntry)
    → All P es
    → P e
    → All P (es ++ e ∷ [])
All-append_one P [] e h p = (p, tt)
All-append_one P (x ∷ es) e h p = (h.0, All-append_one P es e h.1 p)

known_claims-none :
    (k : EvidenceKey) (es : List LedgerEntry) (d : Dict EvidenceKey String)
    → lookup k (known_claims es d) ≡ none
    → (lookup k d ≡ none) × (times k es ≡ 0)
unfolding known_claims
known_claims-none k [] d h = (h, refl)
known_claims-none k (e ∷ es) d h =
    let t = known_claims-none k es (insert (evidence_key e.body) e.id d) h in
    ground (arith, t, lookup-insert (evidence_key e.body) k e.id d)

module _ (fetched : String → Bool) where
  demote-key : (c : Claim) → evidence_key (demote fetched c) ≡ evidence_key c
  demote-key c = ground arith

  demote-backed : (c : Claim) → needs_demotion fetched (demote fetched c) ≡ false
  demote-backed c = elim (Bool-cases (needs_demotion fetched c)) [
    | inl e ↦ rw e (unfold needs_demotion in refl)
    | inr e ↦ rw e e
  ]

  -- What holds of a ledger in a run.
  pub record Sound (ledger : List LedgerEntry) : Type 0 where
    pub numbered : NumberedFrom 1 ledger
    pub once : (k : EvidenceKey) → times k ledger ≤ 1
    pub backed : All (λ e. needs_demotion fetched e.body ≡ false) ledger

  -- The loop's variables, against the ledger that it began with.
  record Inv (old : List LedgerEntry) (f : Folded) : Type 0 where
    numbered : NumberedFrom 1 f.ledger
    known : (k : EvidenceKey) → times k f.ledger ≤ 1
    absent : (k : EvidenceKey) → lookup k f.existing ≡ none → times k f.ledger ≡ 0
    backed : All (λ e. needs_demotion fetched e.body ≡ false) f.ledger
    grown : length f.ledger ≡ length old + f.appended

  new_entry : Claim → List LedgerEntry → LedgerEntry
  new_entry c es = record { id = ledger_id (length es + 1); body = c }

  added :
      (old : List LedgerEntry) (index : ℕ) (item : Claim) (f : Folded)
      → lookup (evidence_key item) f.existing ≡ none
      → Inv old f
      → Inv old (fold_item fetched index item f)
  unfolding append_entry new_entry fold_item
  added old index item f e v =
      let x = new_entry (demote fetched item) f.ledger in
      rw (e, fold_item)
        (record {
          numbered = (append_entry_lem (demote fetched item) f.ledger v.numbered).2;
          known = λ k. ground (
            arith,
            v.known k,
            v.absent k,
            count_if-append (λ e. evidence_key e.body == k) f.ledger (x ∷ []),
            demote-key item,
            same_pair_iff (evidence_key item) k,
          );
          absent = λ k h. ground (
            arith,
            v.absent k,
            count_if-append (λ e. evidence_key e.body == k) f.ledger (x ∷ []),
            demote-key item,
            lookup-insert (evidence_key item) k x.id f.existing,
          );
          backed = All-append_one _ f.ledger x v.backed (demote-backed item);
          grown = omega (arith, v.grown, length-append f.ledger (x ∷ []));
        })

  fold_item-Inv :
      (old : List LedgerEntry) (index : ℕ) (item : Claim) (f : Folded)
      → Inv old f
      → Inv old (fold_item fetched index item f)
  unfolding fold_item
  fold_item-Inv old index item f v = elim (Option-cases (lookup (evidence_key item) f.existing)) [
    | inl e ↦ added old index item f e v
    | inr (id, e) ↦
        rw (e, fold_item)
          (record {
            numbered = v.numbered;
            known = v.known;
            absent = v.absent;
            backed = v.backed;
            grown = v.grown;
          })
  ]

  fold_items-Inv :
      (old : List LedgerEntry) (index : ℕ) (items : List Claim) (f : Folded)
      → Inv old f
      → Inv old (fold_items fetched index items f)
  unfolding fold_items
  fold_items-Inv old index [] f v = v
  fold_items-Inv old index (item ∷ items) f v =
      fold_items-Inv old (index + 1) items (fold_item fetched index item f)
        (fold_item-Inv old index item f v)

  -- Folding a worker's evidence into a ledger that is numbered from one, makes each claim once, and
  -- backs its confirmed claims by pages that the run has fetched, gives such a ledger again; and it
  -- has grown by exactly the number of entries that is reported.
  pub fold_evidence-Sound :
      (items : List Claim) (ledger : List LedgerEntry)
      → Sound ledger
      → let f = fold_evidence fetched items ledger in
        Sound f.ledger × (length f.ledger ≡ length ledger + f.appended)
  unfolding fold_evidence
  fold_evidence-Sound items ledger v =
      let w = fold_items-Inv ledger 1 items _ (record {
        numbered = v.numbered;
        known = v.once;
        absent = λ k h. (known_claims-none k ledger [] h).1;
        backed = v.backed;
        grown = omega arith;
      }) in
      (record { numbered = w.numbered; once = w.known; backed = w.backed }, w.grown)
