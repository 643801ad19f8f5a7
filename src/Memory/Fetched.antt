-- ===== src/Memory/Fetched.antt =====
-- engine/wolves/agent/source_memory.py: what a run knows of the pages that it fetched.
use wolves_ai.Base.{
  ◌≡◌, ◌≢◌, ◌⊎◌, refl, sym, ap, ◌∙◌, String, some, List, [], ◌∷◌, All, if◌then◌else◌, string_eq,
  eq_iff, ◌==◌, arith, inl, inr, Bool-cases,
}
use wolves_ai.Base.Dict.{lookup, lookup-insert}
use wolves_ai.Memory.Sources.{
  SeenSource, SourceMemory, merged_disposition, new_record, record_source,
}
use wolves_ai.Memory.Reload.{SourceCall, record_call, record_calls}

module _ (hash : String → String) where
  -- What one record makes of the newest record of an address.
  seen-record_call :
      (c : SourceCall) (m : SourceMemory) (k : String)
      → lookup k (record_call hash c m).seen ≡ (
          if hash c.url == k
          then some (new_record hash c.url c.run_id c.disposition c.now m)
          else lookup k m.seen)
  unfolding record_source
  seen-record_call c m k =
      let r = new_record hash c.url c.run_id c.disposition c.now m in
      lookup-insert (hash c.url) k r m.seen

  -- The run has fetched the address, which the run `first` saw first.
  abbrev pub Fetched : String → String → String → SourceMemory → Type 0
  Fetched url run_id first m =
      (r : SeenSource) × (lookup (hash url) m.seen ≡ some r)
      × (r.disposition ≡ "fetched")
      × (r.last_seen_run ≡ run_id)
      × (r.first_seen_run ≡ first)

  -- The call is a ranking of the run, or about another address.
  abbrev pub Ranks : String → String → SourceCall → Type 0
  Ranks url run_id c =
      (c.run_id ≡ run_id) × ((c.disposition ≡ "ranked") ⊎ (c.disposition ≡ "fetched"))
      ⊎ (hash c.url ≢ hash url)

  merged-fetched :
      (r : SeenSource) (run_id disposition : String)
      → r.disposition ≡ "fetched"
      → r.last_seen_run ≡ run_id
      → (disposition ≡ "ranked") ⊎ (disposition ≡ "fetched")
      → merged_disposition (some r) run_id disposition ≡ "fetched"
  unfolding merged_disposition
  merged-fetched r run_id disposition f l (inl kind) =
      rw (kind, f) (ground (arith, l, eq_iff r.last_seen_run run_id))
  merged-fetched r run_id disposition f l (inr kind) = rw kind refl

  new_record-fetched :
      (c : SourceCall) (m : SourceMemory) (r : SeenSource)
      → lookup (hash c.url) m.seen ≡ some r
      → r.disposition ≡ "fetched"
      → r.last_seen_run ≡ c.run_id
      → (c.disposition ≡ "ranked") ⊎ (c.disposition ≡ "fetched")
      → let n = new_record hash c.url c.run_id c.disposition c.now m in
        (n.disposition ≡ "fetched") × (n.first_seen_run ≡ r.first_seen_run)
  new_record-fetched c m r e f l kind =
      ground (arith, e, merged-fetched r c.run_id c.disposition f l kind)

  record_call-Fetched :
      (url run_id first : String) (c : SourceCall) (m : SourceMemory)
      → Ranks url run_id c
      → Fetched url run_id first m
      → Fetched url run_id first (record_call hash c m)
  record_call-Fetched url run_id first c m (inl (own, kind)) (r, e, f, l, s) =
      let seen = seen-record_call c m (hash url) in
      elim (Bool-cases (hash c.url == hash url)) [
        | inl q ↦
            let same = (eq_iff (hash c.url) (hash url)).0 q in
            let kept =
              new_record-fetched c m r (ap (λ k. lookup k m.seen) same ∙ e) f (l ∙ sym own) kind in
            (
              new_record hash c.url c.run_id c.disposition c.now m,
              seen ∙ ground (arith, q),
              kept.0,
              own,
              kept.1 ∙ s,
            )
        | inr q ↦ (r, seen ∙ ground (arith, q, e), f, l, s)
      ]
  record_call-Fetched url run_id first c m (inr other) (r, e, f, l, s) = (
    r,
    ground (arith, seen-record_call c m (hash url), eq_iff (hash c.url) (hash url), other, e),
    f,
    l,
    s,
  )

  -- Where a run has fetched an address, and every record after that is a ranking or a fetch by the same
  -- run or has another hash, the newest record of the address still says that the run fetched it, and
  -- which run saw it first.
  pub record_calls-Fetched :
      (cs : List SourceCall) (url run_id first : String) (m : SourceMemory)
      → All (Ranks url run_id) cs
      → Fetched url run_id first m
      → Fetched url run_id first (record_calls hash cs m)
  record_calls-Fetched [] url run_id first m h v = v
  record_calls-Fetched (c ∷ cs) url run_id first m (h, hs) v =
      record_calls-Fetched cs url run_id first (record_call hash c m) hs
        (record_call-Fetched url run_id first c m h v)
