-- ===== src/Artifacts/Plain.antt =====
-- The codec that keeps values as they are, and an empty store over it.
use wolves_ai.Base.{refl, false, Option, none, some, List, [], ◌⊎◌, inl, inr}
use wolves_ai.Artifacts.{Artifact, ArtifactRecord, Codec, Store}

abbrev load_left : Artifact ⊎ List ArtifactRecord → Option Artifact
load_left (inl a) = some a
load_left (inr rs) = none

abbrev load_right : Artifact ⊎ List ArtifactRecord → Option (List ArtifactRecord)
load_right (inl a) = none
load_right (inr rs) = some rs

abbrev pub plain : Codec
plain = record {
  Body = Artifact ⊎ List ArtifactRecord;
  dump_artifact = inl;
  load_artifact = load_left;
  dump_index = inr;
  load_index = load_right;
  load-dump_artifact = λ a. refl;
  load-dump_index = λ rs. refl;
}

abbrev pub empty : Store plain
empty = record {
  run_id = "run-1";
  readonly = false;
  cache = [];
  records = [];
  counts = [];
  files = [];
}
