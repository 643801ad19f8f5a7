-- ===== src/Memory/Reload.antt =====
-- engine/wolves/agent/source_memory.py: a sequence of records, and what its file gives when loaded.
use wolves_ai.Base.{
  ◌≡◌, refl, sym, ap, ◌∙◌, String, List, [], ◌∷◌, ◌++◌, append_nil, append_one, length, string_eq,
  arith,
}
use wolves_ai.Memory.Sources.{
  SeenSource, SourceMemory, load, index, index_all, new_record, record_source,
}

pub record SourceCall : Type 0 where
  pub url : String
  pub run_id : String
  pub disposition : String
  pub now : String

index_all-snoc :
    (rs : List SeenSource) (r : SeenSource) (m : SourceMemory)
    → index_all (rs ++ r ∷ []) m ≡ index r (index_all rs m)
index_all-snoc [] r m = refl
index_all-snoc (s ∷ rs) r m = index_all-snoc rs r (index s m)

index_all-file :
    (rs : List SeenSource) (f : List SeenSource) (m : SourceMemory)
    → index_all rs (record m { file = f }) ≡ record (index_all rs m) { file = f }
index_all-file [] f m = refl
index_all-file (s ∷ rs) f m = index_all-file rs f (index s m)

load-file : (f : List SeenSource) → (load f).file ≡ f
unfolding load
load-file f = ap (λ m. m.file) (index_all-file f f (record { file = f; seen = []; history = [] }))

load-snoc :
    (f : List SeenSource) (r : SeenSource)
    → load (f ++ r ∷ []) ≡ index r (record (load f) { file = f ++ r ∷ [] })
unfolding load
load-snoc f r =
    index_all-snoc f r _
    ∙ ap (index r) (index_all-file f (f ++ r ∷ []) (record { file = f; seen = []; history = [] }))

module _ (hash : String → String) where
  abbrev pub record_call : SourceCall → SourceMemory → SourceMemory
  record_call c m = (record_source hash c.url c.run_id c.disposition c.now m).1

  abbrev pub record_calls : List SourceCall → SourceMemory → SourceMemory
  record_calls [] m = m
  record_calls (c ∷ cs) m = record_calls cs (record_call c m)

  -- One record writes one line, and leaves what loading the longer file gives.
  record_call-loads :
      (c : SourceCall) (f : List SeenSource)
      → (r : SeenSource) × (record_call c (load f) ≡ load (f ++ r ∷ []))
  unfolding record_source
  record_call-loads c f =
      let r = new_record hash c.url c.run_id c.disposition c.now (load f) in
      (
        r,
        ap (λ g. index r (record (load f) { file = g ++ r ∷ [] })) (load-file f)
            ∙ sym (load-snoc f r),
      )

  -- After any records on a memory of the records of a file, loading the file's records as they are
  -- then gives the same memory, and they are the old ones with one more for each call.
  pub record_calls-reloads :
      (cs : List SourceCall) (f : List SeenSource)
      → let m = record_calls cs (load f) in
        (load m.file ≡ m) × ((rs : List SeenSource) × (m.file ≡ f ++ rs) × (length rs ≡ length cs))
  record_calls-reloads [] f = (ap load (load-file f), ([], load-file f ∙ sym (append_nil f), refl))
  record_calls-reloads (c ∷ cs) f =
      let (r, e) = record_call-loads c f in
      let (again, (rs, files, counts)) = record_calls-reloads cs (f ++ r ∷ []) in
      let same = ap (record_calls cs) e in
      (
        ap (λ m. load m.file) same ∙ again ∙ sym same,
        (r ∷ rs, ap (λ m. m.file) same ∙ files ∙ append_one f r rs, omega (arith, counts)),
      )
