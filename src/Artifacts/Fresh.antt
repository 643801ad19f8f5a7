-- ===== src/Artifacts/Fresh.antt =====
-- engine/wolves/graph/artifacts.py: what a store of a run holds after any of its operations, and
-- that a new artifact never takes the place of another.
use text.Mathlib.TextLemmas.{append_cancel_left, append_cancel_right}
use wolves_ai.Base.{
  ℕ, ◌+◌, ◌≤◌, ◌≡◌, ◌≢◌, sym, ap, ◌∙◌, true, false, String, Option, none, some, if◌then◌else◌,
  string_eq, eq_iff, arith, inl, inr, Bool-cases, Option-cases, ◌==◌,
}
use wolves_ai.Base.Json.{Value}
use wolves_ai.Base.Dict.{Dict, lookup, insert, values, lookup-insert}
use wolves_ai.Artifacts.Ids.{
  ArtifactKind, kind_eq, kind_beq_iff, artifact_id, artifact_id-injective,
}
use wolves_ai.Artifacts.{
  Artifact, ArtifactRecord, Codec, artifact_key, Store, ok, count_of, has, add, made,
}

pub artifact_key-injective : (run a b : String) → artifact_key run a ≡ artifact_key run b → a ≡ b
unfolding artifact_key
artifact_key-injective run a b h = append_cancel_right a b ".json" (
    append_cancel_left "/artifacts/" _ _
      (append_cancel_left run _ _ (append_cancel_left "runs/" _ _ h)))

pub key_other : (run a b : String) → a ≢ b → (artifact_key run a == artifact_key run b) ≡ false
key_other run a b ne = elim (Bool-cases (artifact_key run a == artifact_key run b)) [
  | inl e ↦ absurd (ne (artifact_key-injective run a b ((eq_iff _ _).0 e)))
  | inr e ↦ e
]

module _ (c : Codec) where
  open c use {
    Body, dump_artifact, load_artifact, dump_index, load_index, load-dump_artifact, load-dump_index,
  }

  -- A record is backed by the file of an artifact with that metadata, which the cache may hold.
  pub record Backed (s : Store c) (i : String) (r : ArtifactRecord) : Type 0 where
    pub artifact : Artifact
    pub described : artifact.meta ≡ r
    pub on_disk : lookup (artifact_key s.run_id i) s.files ≡ some (dump_artifact artifact)
    pub cached : (a : Artifact) → lookup i s.cache ≡ some a → a ≡ artifact

  pub record Numbered (s : Store c) (i : String) : Type 0 where
    pub kind : ArtifactKind
    pub seq : ℕ
    pub spelled : i ≡ artifact_id kind seq
    pub counted : seq ≤ count_of c kind s

  pub record Inv (s : Store c) : Type 0 where
    pub named : (i : String) (r : ArtifactRecord) → lookup i s.records ≡ some r → r.id ≡ i
    pub numbered : (i : String) (r : ArtifactRecord) → lookup i s.records ≡ some r → Numbered s i
    pub backed : (i : String) (r : ArtifactRecord) → lookup i s.records ≡ some r → Backed s i r
    pub known : (i : String) (a : Artifact) → lookup i s.cache ≡ some a → has c i s ≡ true

  -- The id that the next artifact of a kind gets is not taken.
  next_id-fresh :
      (s : Store c) (k : ArtifactKind)
      → Inv s
      → lookup (artifact_id k (count_of c k s + 1)) s.records ≡ none
  next_id-fresh s k v =
      elim (Option-cases (lookup (artifact_id k (count_of c k s + 1)) s.records)) [
        | inl e ↦ e
        | inr (r, e) ↦
            let n = v.numbered _ r e in
            let (same, seq) =
              (artifact_id-injective k n.kind (count_of c k s + 1) n.seq).0 n.spelled in
            absurd (taken n same seq)
      ]
    where
      taken :
          (n : Numbered s (artifact_id k (count_of c k s + 1)))
          → k ≡ n.kind
          → count_of c k s + 1 ≡ n.seq
          → ⊥
      taken n same seq = ground arith

  -- The files after an artifact's and the index's body are written.
  pub written : Store c → String → Artifact → Body → Dict String Body
  written s id a body =
      insert (artifact_key s.run_id "index") body
        (insert (artifact_key s.run_id id) (dump_artifact a) s.files)

  module _ (s : Store c) (id : String) (a : Artifact) (body : Body) (ne : id ≢ "index") where
    lookup-written_self :
        lookup (artifact_key s.run_id id) (written s id a body) ≡ some (dump_artifact a)
    unfolding written
    lookup-written_self = ground (
      arith,
      lookup-insert (artifact_key s.run_id "index") (artifact_key s.run_id id) body
          (insert (artifact_key s.run_id id) (dump_artifact a) s.files),
      lookup-insert (artifact_key s.run_id id) (artifact_key s.run_id id) (dump_artifact a) s.files,
      eq_iff (artifact_key s.run_id id) (artifact_key s.run_id id),
      key_other s.run_id "index" id (λ e. ne (sym e)),
    )

    pub lookup-written_ne :
        (j : String)
        → j ≢ "index"
        → j ≢ id
        → lookup (artifact_key s.run_id j) (written s id a body)
          ≡ lookup (artifact_key s.run_id j) s.files
    unfolding written
    lookup-written_ne j n₁ n₂ = ground (
      arith,
      lookup-insert (artifact_key s.run_id "index") (artifact_key s.run_id j) body
          (insert (artifact_key s.run_id id) (dump_artifact a) s.files),
      lookup-insert (artifact_key s.run_id id) (artifact_key s.run_id j) (dump_artifact a) s.files,
      key_other s.run_id "index" j (λ e. n₁ (sym e)),
      key_other s.run_id id j (λ e. n₂ (sym e)),
    )

  module _ (k : ArtifactKind) (by summary : String) (payload : Value) (prefix : Option String)
      (now : ℕ) (s : Store c) where
    abbrev pub new_id : String
    new_id = artifact_id k (count_of c k s + 1)

    abbrev pub new_artifact : Artifact
    new_artifact = made k by summary payload prefix now (count_of c k s + 1)

    abbrev pub after : Store c
    after = record s {
      counts = insert k (count_of c k s + 1) s.counts;
      files =
          written s new_id new_artifact
            (dump_index (values (insert new_id new_artifact.meta s.records)));
      cache = insert new_id new_artifact s.cache;
      records = insert new_id new_artifact.meta s.records;
    }

    pub add-eq :
        s.readonly ≡ false → add c k by summary payload prefix now s ≡ (ok new_artifact, after)
    unfolding add written
    add-eq h = rw h

    module _ (v : Inv s) where
      pub fresh : lookup new_id s.records ≡ none
      fresh = next_id-fresh s k v

      pub not_index : new_id ≢ "index"
      not_index = (artifact_id-injective k k (count_of c k s + 1) 0).1

      pub lookup-after_records :
          (i : String)
          → lookup i after.records
            ≡ (if new_id == i then some new_artifact.meta else lookup i s.records)
      lookup-after_records i = lookup-insert new_id i new_artifact.meta s.records

      pub lookup-after_cache :
          (i : String)
          → lookup i after.cache ≡ (if new_id == i then some new_artifact else lookup i s.cache)
      lookup-after_cache i = lookup-insert new_id i new_artifact s.cache

      count-after : (j : ArtifactKind) → count_of c j s ≤ count_of c j after
      unfolding count_of
      count-after j =
          ground (arith, lookup-insert k j (count_of c k s + 1) s.counts, kind_beq_iff k j)

      count-after_self : count_of c k after ≡ count_of c k s + 1
      unfolding count_of
      count-after_self =
          ground (arith, lookup-insert k k (count_of c k s + 1) s.counts, kind_beq_iff k k)

      module _ (i : String) (r : ArtifactRecord) (h : lookup i after.records ≡ some r) where
        same_record : (new_id == i) ≡ true → new_artifact.meta ≡ r
        same_record e = ground (arith, lookup-after_records i)

        old_record : (new_id == i) ≡ false → lookup i s.records ≡ some r
        old_record e = ground (arith, lookup-after_records i)

        after-named : r.id ≡ i
        after-named = elim (Bool-cases (new_id == i)) [
          | inl e ↦ ap (λ (q : ArtifactRecord). q.id) (sym (same_record e)) ∙ (eq_iff new_id i).0 e
          | inr e ↦ v.named i r (old_record e)
        ]

        after-Numbered : Numbered after i
        after-Numbered = elim (Bool-cases (new_id == i)) [
          | inl e ↦ record {
            kind = k;
            seq = count_of c k s + 1;
            spelled = sym ((eq_iff new_id i).0 e);
            counted = omega (arith, count-after_self);
          }
          | inr e ↦
              let n = v.numbered i r (old_record e) in
              record {
                kind = n.kind;
                seq = n.seq;
                spelled = n.spelled;
                counted = omega (arith, n.counted, count-after n.kind);
              }
        ]

        after-Backed : Backed after i r
        after-Backed = elim (Bool-cases (new_id == i)) [
          | inl e ↦ record {
            artifact = new_artifact;
            described = same_record e;
            on_disk =
                rw (← (eq_iff new_id i).0 e)
                  (lookup-written_self s new_id new_artifact _ not_index);
            cached = λ a q. ground (arith, lookup-after_cache i);
          }
          | inr e ↦
              let b = v.backed i r (old_record e) in
              let n = v.numbered i r (old_record e) in
              record {
                artifact = b.artifact;
                described = b.described;
                on_disk =
                    lookup-written_ne s new_id new_artifact _ not_index i
                      (λ q. (artifact_id-injective n.kind n.kind n.seq 0).1 (sym n.spelled ∙ q))
                      (λ q. cc (e, (eq_iff new_id i).1 (sym q)))
                    ∙ b.on_disk;
                cached = λ a q. b.cached a (ground (arith, lookup-after_cache i));
              }
        ]

      after-known :
          (i : String) (a : Artifact) → lookup i after.cache ≡ some a → has c i after ≡ true
      unfolding has
      after-known i a h = ground (arith, lookup-after_cache i, lookup-after_records i, v.known i a)

      pub after-Inv : Inv after
      after-Inv = record {
        named = after-named;
        numbered = after-Numbered;
        backed = after-Backed;
        known = after-known;
      }
