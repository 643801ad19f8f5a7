-- ===== src/Artifacts.antt =====
-- engine/wolves/graph/artifacts.py: the artifacts of one run, addressed by kind and sequence number.
pub mod Ids
pub mod Fresh
pub mod Read
pub mod Plain
mod Tests
use Prim.Native.String.{◌++◌}
use wolves_ai.Base.{
  ℕ, ◌+◌, ◌≡◌, Bool, true, false, String, Option, none, some, List, [], ◌∷◌, if◌then◌else◌, is_some,
  string_eq,
}
use wolves_ai.Base.Json.{Value}
use wolves_ai.Base.Dict.{Dict, lookup, insert, values}
use Ids.{ArtifactKind, kind_eq, artifact_id}

-- Metadata of one artifact.
pub record ArtifactRecord : Type 0 where
  pub id : String
  pub kind : ArtifactKind
  pub created_by : String
  pub summary : String
  pub created_at : ℕ
  pub workspace_prefix : Option String

-- `Artifact(ArtifactRecord)`
pub record Artifact : Type 0 where
  pub meta : ArtifactRecord
  pub open meta use *
  pub payload : Value

-- What pydantic writes and reads: the bodies of an artifact's file and of the index.
pub record Codec : Type 1 where
  pub Body : Type 0
  pub dump_artifact : Artifact → Body
  pub load_artifact : Body → Option Artifact
  pub dump_index : List ArtifactRecord → Body
  pub load_index : Body → Option (List ArtifactRecord)
  pub load-dump_artifact : (a : Artifact) → load_artifact (dump_artifact a) ≡ some a
  pub load-dump_index : (rs : List ArtifactRecord) → load_index (dump_index rs) ≡ some rs

-- `RUN_ARTIFACT.key`, and `RUN_ARTIFACT_INDEX.key` which is the key of the name `index`
unfoldable pub artifact_key : String → String → String
artifact_key run_id name = "runs/" ++ (run_id ++ ("/artifacts/" ++ (name ++ ".json")))

pub data StoreError : Type 0 where
  missing_run_index read_only_run invalid_index : StoreError

pub data Result {ℓ} (A : Type ℓ) : Type ℓ where
  ok : A → Result A
  err : StoreError → Result A

abbrev pub made : ArtifactKind → String → String → Value → Option String → ℕ → ℕ → Artifact
made kind created_by summary payload workspace_prefix now seq = record {
  meta = record {
    id = artifact_id kind seq;
    kind = kind;
    created_by = created_by;
    summary = summary;
    created_at = now;
    workspace_prefix = workspace_prefix;
  };
  payload = payload;
}

module _ (c : Codec) where
  open c use {Body, dump_artifact, load_artifact, dump_index, load_index}

  -- `RunArtifactStore`; `files` is the local mirror that the backing store reads and writes.
  pub record Store : Type 0 where
    pub run_id : String
    pub readonly : Bool
    pub cache : Dict String Artifact
    pub records : Dict String ArtifactRecord
    pub counts : Dict ArtifactKind ℕ
    pub files : Dict String Body

  -- `RunArtifactStore.__init__`
  unfoldable pub init : String → Dict String Body → Store
  init run_id files = record {
    run_id = run_id;
    readonly = false;
    cache = [];
    records = [];
    counts = [];
    files = files;
  }

  abbrev index_records :
      List ArtifactRecord → Dict String ArtifactRecord → Dict String ArtifactRecord
  index_records [] known = known
  index_records (r ∷ rs) known = index_records rs (insert r.id r known)

  -- `invalid_index` is the ValidationError of an index that pydantic refuses.
  unfoldable pub open_run : String → Dict String Body → Result Store
  unfolding init
  open_run run_id files = elim (lookup (artifact_key run_id "index") files) [
    | none ↦ err missing_run_index
    | some body ↦ elim (load_index body) [
      | none ↦ err invalid_index
      | some rs ↦ ok (record (init run_id files) { readonly = true; records = index_records rs [] })
    ]
  ]

  unfoldable pub count_of : ArtifactKind → Store → ℕ
  count_of kind s = elim (lookup kind s.counts) [ none ↦ 0 | some n ↦ n ]

  -- `all`
  unfoldable pub all_records : Store → List ArtifactRecord
  all_records s = values s.records

  unfoldable pub has : String → Store → Bool
  has id s = is_some (lookup id s.records)

  unfoldable pub find_record : String → Store → Option ArtifactRecord
  find_record id s = lookup id s.records

  write_local : String → Body → Store → Store
  write_local key body s = record s { files = insert key body s.files }

  remember : Artifact → Store → Store
  remember a s = record s { cache = insert a.id a s.cache; records = insert a.id a.meta s.records }

  write_index : Store → Store
  write_index s = write_local (artifact_key s.run_id "index") (dump_index (values s.records)) s

  unfoldable pub add :
      ArtifactKind → String → String → Value → Option String → ℕ → Store → Result Artifact × Store
  unfolding write_local remember write_index
  add kind created_by summary payload workspace_prefix now s =
      let seq = count_of kind s + 1 in
      let artifact = made kind created_by summary payload workspace_prefix now seq in
      let s₁ = record s { counts = insert kind seq s.counts } in
      let s₂ = write_local (artifact_key s.run_id artifact.id) (dump_artifact artifact) s₁ in
      if s.readonly
      then (err read_only_run, s)
      else (ok artifact, write_index (remember artifact s₂))

  -- `get`: the cache, else the record's file, which is then cached. Of a file that pydantic refuses,
  -- where the code raises, nothing is found.
  unfoldable pub get : String → Store → Option Artifact × Store
  get id s = elim (lookup id s.cache) [
    | some a ↦ (some a, s)
    | none ↦
        if is_some (lookup id s.records)
        then elim (lookup (artifact_key s.run_id id) s.files) [
          | none ↦ (none, s)
          | some body ↦ elim (load_artifact body) [
            | none ↦ (none, s)
            | some a ↦ (some a, record s { cache = insert id a s.cache })
          ]
        ]
        else (none, s)
  ]

  unfoldable pub amend_payload : String → Value → Store → Result (Unit {0}) × Store
  unfolding get write_local
  amend_payload id payload s =
      if s.readonly
      then (err read_only_run, s)
      else let (found, s') = get id s in
        elim found [
          | none ↦ (ok tt, s')
          | some a ↦
              let a' = record a { payload = payload } in
              let s'' = write_local (artifact_key s.run_id id) (dump_artifact a') s' in
              (ok tt, record s'' { cache = insert id a' s''.cache })
        ]
