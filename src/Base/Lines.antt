-- ===== src/Base/Lines.antt =====
-- A file of lines, one record to each, as agent/scenarios.py and agent/source_memory.py of
-- engine/wolves keep them: written with `model_dump_json() + "\n"`, read with
-- `read_text().splitlines()`. Texts are lists of code points.
use Prim.Native.Nat.{ℕ}
use mathlib.Core.Bool.{Bool, false, ◌&&◌, ◌||◌}
use mathlib.Core.Path.{◌≡◌, refl, sym, ap, ◌∙◌}
use mathlib.Core.Option.{Option, none, some}
use mathlib.Core.List.{List, [], ◌∷◌, ◌++◌}
use native.Mathlib.Omega.{arith}
use wolves_ai.Base.Tests.{leb, eqb, if◌then◌else◌}
use wolves_ai.Base.Lists.{All, any, append_assoc}
use wolves_ai.Base.Text.{is_blank}

-- Where `str.splitlines` ends a line.
abbrev pub is_break : ℕ → Bool
is_break c = leb 10 c && leb c 13 || leb 28 c && leb c 30 || eqb c 133 || eqb c 8232 || eqb c 8233

abbrev prepend : ℕ → List (List ℕ) → List (List ℕ)
prepend c [] = (c ∷ []) ∷ []
prepend c (l ∷ ls) = (c ∷ l) ∷ ls

-- The lines of the rest, with whether a carriage return stands before it: it and a line feed are one
-- end.
unfoldable pub lines_after : Bool → List ℕ → List (List ℕ)
lines_after returned [] = []
lines_after returned (c ∷ cs) =
    let rest = lines_after false cs in
    let ended = lines_after (eqb c 13) cs in
    if returned && eqb c 10 then rest else if is_break c then [] ∷ ended else prepend c rest

-- `text.splitlines()`
abbrev pub splitlines : List ℕ → List (List ℕ)
splitlines text = lines_after false text

-- What pydantic makes of a record and of a line, which does not validate where there is nothing.
pub record LineCodec (E : Type 0) : Type 0 where
  pub dump : E → List ℕ
  pub validate : List ℕ → Option E

module _ {E : Type 0} (codec : LineCodec E) where
  -- `handle.write(record.model_dump_json() + "\n")` of each
  abbrev pub write_lines : List E → List ℕ
  write_lines [] = []
  write_lines (e ∷ es) = codec.dump e ++ 10 ∷ write_lines es

  abbrev pub validated : List (List ℕ) → Option (List E)
  validated [] = some []
  validated (l ∷ ls) =
      let rest = validated ls in
      if is_blank l then rest else elim (codec.validate l) [
        | none ↦ none
        | some e ↦ elim rest [ none ↦ none | some es ↦ some (e ∷ es) ]
      ]

  -- The records of the lines that are not blank; nothing where one does not validate.
  abbrev pub read_lines : List ℕ → Option (List E)
  read_lines text = validated (splitlines text)

  -- What is written for the record reads as the record, is not blank, and is one line: JSON escapes
  -- the ends below 32, so no text of the record has one of the other three.
  pub record IsLine (e : E) : Type 0 where
    pub reads : codec.validate (codec.dump e) ≡ some e
    pub unblank : is_blank (codec.dump e) ≡ false
    pub unbroken : any is_break (codec.dump e) ≡ false

  lines_after-line :
      (l rest : List ℕ)
      → any is_break l ≡ false
      → lines_after false (l ++ 10 ∷ rest) ≡ l ∷ lines_after false rest
  unfolding lines_after
  lines_after-line [] rest h = refl
  lines_after-line (c ∷ l) rest h = ground (arith, lines_after-line l rest)

  -- Such records are read as they were written.
  pub read-write_lines : (es : List E) → All IsLine es → read_lines (write_lines es) ≡ some es
  unfolding lines_after
  read-write_lines [] h = refl
  read-write_lines (e ∷ es) h =
      ap validated (lines_after-line (codec.dump e) (write_lines es) h.0.unbroken)
      ∙ ground (arith, read-write_lines es h.1, h.0.unblank, h.0.reads)

  -- Writing on is writing all.
  pub write_lines-append :
      (es fs : List E) → write_lines (es ++ fs) ≡ write_lines es ++ write_lines fs
  write_lines-append [] fs = refl
  write_lines-append (e ∷ es) fs =
      ap (λ t. codec.dump e ++ 10 ∷ t) (write_lines-append es fs)
      ∙ sym (append_assoc (codec.dump e) (10 ∷ write_lines es) (write_lines fs))
