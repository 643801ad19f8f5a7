-- ===== src/Memory/Lines.antt =====
-- engine/wolves/agent/source_memory.py: the file of the memory as a text, one line to each record.
use wolves_ai.Base.{ℕ, ◌≡◌, ap, ◌∙◌, String, Option, none, some, List, ◌++◌, All, length}
use wolves_ai.Base.Lines.{
  LineCodec, write_lines, read_lines, IsLine, read-write_lines, write_lines-append,
}
use wolves_ai.Memory.Sources.{SeenSource, SourceMemory, load}
use wolves_ai.Memory.Reload.{SourceCall, record_calls, record_calls-reloads}

module _ (codec : LineCodec SeenSource) where
  -- The text of the file, which `record` adds its line to.
  abbrev pub text_of : SourceMemory → List ℕ
  text_of m = write_lines codec m.file

  -- `__init__` on a file with this text; nothing where a line does not validate
  unfoldable pub open_memory : List ℕ → Option SourceMemory
  open_memory text = elim (read_lines codec text) [
    | none ↦ none
    | some records ↦ some (load records)
  ]

  open-written :
      (rs : List SeenSource)
      → All (IsLine codec) rs
      → open_memory (write_lines codec rs) ≡ some (load rs)
  unfolding open_memory
  open-written rs h =
      ap
        (λ o. elim o as (λ x. Option SourceMemory) [
          | none ↦ none
          | some records ↦ some (load records)
        ])
        (read-write_lines codec rs h)

  -- After any records on a memory that was loaded from the records of a file, the text of the file is
  -- the old one with one line for each record behind it; and opening it gives the same memory, if each
  -- of its lines is one line that reads as its record.
  pub record_calls-loads :
      (hash : String → String) (cs : List SourceCall) (f : List SeenSource)
      → All (IsLine codec) (record_calls hash cs (load f)).file
      → let m = record_calls hash cs (load f) in
        (open_memory (text_of m) ≡ some m)
        × ((rs : List SeenSource) × (text_of m ≡ write_lines codec f ++ write_lines codec rs)
            × (length rs ≡ length cs))
  record_calls-loads hash cs f h =
      let m = record_calls hash cs (load f) in
      let (again, (rs, files, counts)) = record_calls-reloads hash cs f in
      (
        open-written m.file h ∙ ap some again,
        (rs, ap (write_lines codec) files ∙ write_lines-append codec f rs, counts),
      )
