-- ===== src/Artifacts/Read.antt =====
-- engine/wolves/graph/artifacts.py: what `get` returns, and that reading changes nothing that a
-- later read shows.
use wolves_ai.Base.{
  some-inj, ◌≡◌, ℕ, [], ◌∷◌, ◌++◌, ◌≢◌, refl, sym, ap, ◌∙◌, Bool, true, false, String, Option, none,
  some, if◌then◌else◌, is_some, string_eq, eq_iff, arith, inl, inr, Bool-cases, Option-cases, ◌==◌,
  ◌⊎◌,
}
use wolves_ai.Base.Json.{Value}
use wolves_ai.Base.Dict.{lookup, insert, lookup-insert, values-insert_fresh}
use wolves_ai.Artifacts.{
  Artifact, ArtifactRecord, Codec, artifact_key, Store, count_of, has, get, add, all_records, ok,
}
use wolves_ai.Artifacts.Ids.{ArtifactKind, artifact_id-injective}
use wolves_ai.Artifacts.Fresh.{
  Inv, Backed, new_artifact, new_id, after, add-eq, after-Inv, fresh, lookup-after_cache,
  lookup-after_records, not_index, lookup-written_ne,
}

module _ (c : Codec) where
  open c use {Body, dump_artifact, load_artifact, load-dump_artifact}

  dump-injective : (a b : Artifact) → dump_artifact a ≡ dump_artifact b → a ≡ b
  dump-injective a b e =
      some-inj (sym (load-dump_artifact a) ∙ ap load_artifact e ∙ load-dump_artifact b)

  -- `get` by what the cache, the records and the disk know of the id.
  abbrev pub found : Option Artifact → Bool → Option Body → Option Artifact
  found (some a) _ _ = some a
  found none false _ = none
  found none true none = none
  found none true (some body) = load_artifact body

  found-norecord : (x : Option Artifact) (y z : Option Body) → found x false y ≡ found x false z
  found-norecord none y z = refl
  found-norecord (some a) y z = refl

  found-get :
      (i : String) (s : Store c)
      → (get c i s).0
        ≡ found
            (lookup i s.cache)
            (is_some (lookup i s.records))
            (lookup (artifact_key s.run_id i) s.files)
  unfolding get
  found-get i s = ground arith

  module _ (s : Store c) (v : Inv c s) where
    pub get-backed :
        (i : String) (r : ArtifactRecord) (h : lookup i s.records ≡ some r)
        → (get c i s).0 ≡ some (v.backed i r h).artifact
    get-backed i r h =
        let b = v.backed i r h in
        found-get i s ∙ elim (Option-cases (lookup i s.cache)) [
          | inl e ↦ rw (e, h, b.on_disk) (load-dump_artifact b.artifact)
          | inr (a, e) ↦ rw e (ap some (b.cached a e))
        ]

    pub get-unknown : (i : String) → has c i s ≡ false → get c i s ≡ (none, s)
    unfolding get has
    get-unknown i h = elim (Option-cases (lookup i s.cache)) [
      | inl e ↦ rw (e, h, get)
      | inr (a, e) ↦ cc (v.known i a e)
    ]

    module _ (i : String) (r : ArtifactRecord) (h : lookup i s.records ≡ some r) where
      artifact : Artifact
      artifact = (v.backed i r h).artifact

      backed-eq :
          (j : String) (q : ArtifactRecord) (g : lookup j s.records ≡ some q)
          → i ≡ j
          → artifact ≡ (v.backed j q g).artifact
      unfolding artifact
      backed-eq j q g e = dump-injective artifact (v.backed j q g).artifact (
          some-inj (
            sym (v.backed i r h).on_disk
            ∙ ap (λ k. lookup (artifact_key s.run_id k) s.files) e
            ∙ (v.backed j q g).on_disk))

      -- The store with the artifact of a record in its cache.
      abbrev cached_store : Store c
      cached_store = record s { cache = insert i artifact s.cache }

      lookup-cached :
          (j : String)
          → lookup j cached_store.cache ≡ (if i == j then some artifact else lookup j s.cache)
      lookup-cached j = lookup-insert i j artifact s.cache

      cached-Backed :
          (j : String) (q : ArtifactRecord)
          → lookup j s.records ≡ some q
          → Backed c cached_store j q
      unfolding artifact
      cached-Backed j q g =
          let b = v.backed j q g in
          record {
            artifact = b.artifact;
            described = b.described;
            on_disk = b.on_disk;
            cached = λ a p. elim (Bool-cases (i == j)) [
              | inl e ↦ ground (arith, lookup-cached j, backed-eq j q g ((eq_iff i j).0 e))
              | inr e ↦ b.cached a (ground (arith, lookup-cached j))
            ];
          }

      cached-known :
          (j : String) (a : Artifact) → lookup j cached_store.cache ≡ some a → has c j s ≡ true
      unfolding has
      cached-known j a p = ground (arith, lookup-cached j, v.known j a, eq_iff i j)

      cached-Inv : Inv c cached_store
      unfolding has count_of
      cached-Inv = record {
        named = v.named;
        numbered = λ j q g.
            let n = v.numbered j q g in
            record { kind = n.kind; seq = n.seq; spelled = n.spelled; counted = n.counted };
        backed = cached-Backed;
        known = cached-known;
      }

      get-state : ((get c i s).1 ≡ s) ⊎ ((get c i s).1 ≡ cached_store)
      unfolding artifact get
      get-state = elim (Option-cases (lookup i s.cache)) [
        | inl e ↦
            inr (
              rw
                (e, h, (v.backed i r h).on_disk, load-dump_artifact (v.backed i r h).artifact, get))
        | inr (a, e) ↦ inl (rw (e, get))
      ]

    get_unknown-state : (i : String) → lookup i s.records ≡ none → (get c i s).1 ≡ s
    unfolding has
    get_unknown-state i h = rw (get-unknown i (rw h))

    -- A read only adds to the cache what the disk holds.
    pub get-Inv : (i : String) → Inv c (get c i s).1
    get-Inv i = elim (Option-cases (lookup i s.records)) [
      | inl h ↦ rw (get_unknown-state i h) v
      | inr (r, h) ↦ elim (get-state i r h) [ inl e ↦ rw e v | inr e ↦ rw e (cached-Inv i r h) ]
    ]

module _ (c : Codec) (k : ArtifactKind) (by summary : String) (payload : Value)
    (prefix : Option String) (now : ℕ) (s : Store c) (v : Inv c s) where
  abbrev id : String
  id = new_id c k by summary payload prefix now s

  abbrev s' : Store c
  s' = after c k by summary payload prefix now s

  new-fresh : has c id s ≡ false
  unfolding has
  new-fresh = rw (fresh c k by summary payload prefix now s v)

  get_new : (get c id s').0 ≡ some (new_artifact c k by summary payload prefix now s)
  get_new =
      found-get c id s'
      ∙ rw (lookup-after_cache c k by summary payload prefix now s v id, (eq_iff id id).1 refl)

  module _ (i : String) (ne : i ≢ id) where
    apart : (id == i) ≡ false
    apart = elim (Bool-cases (id == i)) [
      | inl e ↦ absurd (ne (sym ((eq_iff id i).0 e)))
      | inr e ↦ e
    ]

    lookup-records_old : lookup i s'.records ≡ lookup i s.records
    lookup-records_old = lookup-after_records c k by summary payload prefix now s v i ∙ rw apart

    lookup-cache_old : lookup i s'.cache ≡ lookup i s.cache
    lookup-cache_old = lookup-after_cache c k by summary payload prefix now s v i ∙ rw apart

    get_old : (get c i s').0 ≡ (get c i s).0
    get_old = elim (Option-cases (lookup i s.records)) [
      | inl h ↦
          found-get c i s'
          ∙ rw (lookup-cache_old, lookup-records_old, h)
              (found-norecord c (lookup i s.cache) _ (lookup (artifact_key s.run_id i) s.files)
                ∙ sym (found-get c i s ∙ rw h))
      | inr (r, h) ↦
          let n = v.numbered i r h in
          found-get c i s'
          ∙ rw
              (
                lookup-cache_old,
                lookup-records_old,
                lookup-written_ne c s id _ _ (not_index c k by summary payload prefix now s v) i
                    (λ q. (artifact_id-injective n.kind n.kind n.seq 0).1 (sym n.spelled ∙ q)) ne,
              )
              (sym (found-get c i s))
    ]

-- From a store that its operations have kept, an artifact that is added to a store open for writing
-- gets an id that no record has; a read of that id returns it, every other read returns what it
-- returned before, the list of records grows by its record at the end, and the store is again one
-- that the operations keep.
pub add_lem :
    (c : Codec) (k : ArtifactKind) (by summary : String) (payload : Value) (prefix : Option String)
    (now : ℕ) (s : Store c)
    → Inv c s
    → s.readonly ≡ false
    → let a = new_artifact c k by summary payload prefix now s in
      let (r, s') = add c k by summary payload prefix now s in
      (r ≡ ok a)
      × (has c a.id s ≡ false)
      × ((get c a.id s').0 ≡ some a)
      × ((i : String) → i ≢ a.id → (get c i s').0 ≡ (get c i s).0)
      × (all_records c s' ≡ all_records c s ++ a.meta ∷ [])
      × Inv c s'
unfolding all_records
add_lem c k by summary payload prefix now s v w =
    rw (add-eq c k by summary payload prefix now s w) (
      refl,
      new-fresh c k by summary payload prefix now s v,
      get_new c k by summary payload prefix now s v,
      get_old c k by summary payload prefix now s v,
      values-insert_fresh _ _ s.records (fresh c k by summary payload prefix now s v),
      after-Inv c k by summary payload prefix now s v,
    )
