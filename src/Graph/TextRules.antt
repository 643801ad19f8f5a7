-- ===== src/Graph/TextRules.antt =====
-- engine/wolves/graph/master.py: the three tests of a plan's texts, as scans over code points. Word
-- characters and `lower` are those of ASCII.
use wolves_ai.Base.{
  ℕ, zero, suc, ◌+◌, Bool, false, not, ◌&&◌, ◌||◌, String, Option, none, some, List, [], ◌∷◌, ◌++◌,
  any, leb, if◌then◌else◌, take, drop, length, map,
}
use wolves_ai.Base.Text.{codes, lower, same_codes, starts_with, occurs}
use wolves_ai.Graph.Contracts.{NodePatch, quant, kind_beq}

abbrev is_digit : ℕ → Bool
is_digit c = leb 48 c && leb c 57

abbrev is_small : ℕ → Bool
is_small c = leb 97 c && leb c 122

-- `\w`
abbrev is_word : ℕ → Bool
is_word c = is_digit c || is_small c || leb 65 c && leb c 90 || leb c 95 && leb 95 c

abbrev head_is : (ℕ → Bool) → List ℕ → Bool
head_is p [] = false
head_is p (c ∷ cs) = p c

-- One of the words, which begin and end in word characters, stands here with `\b` on both sides;
-- `before` is what stands before, read backwards.
abbrev word_here : List (List ℕ) → List ℕ → List ℕ → Bool
word_here words before text =
    not (head_is is_word before)
    && any (λ w. starts_with w text && not (head_is is_word (drop (length w) text))) words

abbrev reverse_onto : List ℕ → List ℕ → List ℕ
reverse_onto [] out = out
reverse_onto (c ∷ cs) out = reverse_onto cs (c ∷ out)

abbrev search_words : List (List ℕ) → List ℕ → List ℕ → Bool
search_words words before [] = false
search_words words before (c ∷ cs) =
    word_here words before (c ∷ cs) || search_words words (c ∷ before) cs

abbrev forbid_words : List (List ℕ)
forbid_words = map codes ("avoid" ∷ "do not" ∷ "don't" ∷ "never" ∷ "not" ∷ "without" ∷ [])

-- `_RESULT_REFIT_FORBID_RE.search(text[max(0, start - 80) : start])`
abbrev forbidden_before : List ℕ → Bool
forbidden_before before = search_words forbid_words [] (reverse_onto (take 80 before) [])

abbrev refit_from : List ℕ → List ℕ → Bool
refit_from before [] = false
refit_from before (c ∷ cs) =
    starts_with (codes "update_from_result") (c ∷ cs) && not (forbidden_before before)
    || refit_from (c ∷ before) cs

unfoldable pub unsafe_result_refit_brief : NodePatch → Bool
unsafe_result_refit_brief op = kind_beq op.kind quant && refit_from [] (lower (codes op.brief))

abbrev mining_words : List (List ℕ)
mining_words = map codes ("mine" ∷ "mining" ∷ "scan" ∷ "trawl" ∷ "search" ∷ [])

abbrev mining_from : List ℕ → List ℕ → Bool
mining_from before [] = false
mining_from before (c ∷ cs) =
    word_here mining_words before (c ∷ cs) && not (forbidden_before before)
    || mining_from (c ∷ before) cs

abbrev market_gap_terms : List (List ℕ)
market_gap_terms =
    map codes ("market gap" ∷ "market-gap" ∷ "model-vs-market" ∷ "model vs market" ∷ "gaps" ∷ [])

abbrev named_dataset_mechanisms : List (List ℕ)
named_dataset_mechanisms = map codes (
    "friendly" ∷ "stale" ∷ "squad" ∷ "altitude" ∷ "travel" ∷ "host" ∷ "sentiment" ∷ "longshot"
    ∷ "injury class" ∷ "availability class" ∷ "calibration" ∷ "implied strength" ∷ "implied delta"
    ∷ "market inversion" ∷ "market-implied" ∷ "invert the market" ∷ "invert market" ∷ [])

-- `f"{op.objective} {op.brief}"`
abbrev pub full_text : NodePatch → List ℕ
full_text op = codes op.objective ++ (32 ∷ codes op.brief)

unfoldable pub generic_dataset_gap_brief : NodePatch → Bool
generic_dataset_gap_brief op =
    let text = lower (full_text op) in
    kind_beq op.kind quant
    && occurs (codes "dataset") text
    && mining_from [] text
    && any (λ term. occurs term text) market_gap_terms
    && not (any (λ term. occurs term text) named_dataset_mechanisms)

-- `[a-z0-9_-]*`, as far as it goes
abbrev team_rest : List ℕ → List ℕ
team_rest [] = []
team_rest (c ∷ cs) =
    let rest = team_rest cs in
    if is_small c || is_digit c || leb 95 c && leb c 95 || leb 45 c && leb c 45
    then c ∷ rest
    else []

-- The team that stands behind `focus team is ` here.
abbrev team_here : List ℕ → List ℕ → Option (List ℕ)
team_here before text =
    let after = drop 14 text in
    if not (head_is is_word before)
      && starts_with (codes "focus team is ") text
      && head_is is_small after
    then some (team_rest after)
    else none

-- The first team named that is not the expected one; a match is passed over whole.
abbrev drift_from : List ℕ → ℕ → List ℕ → List ℕ → Option (List ℕ)
drift_from expected skip before [] = none
drift_from expected (suc skip) before (c ∷ cs) = drift_from expected skip (c ∷ before) cs
drift_from expected zero before (c ∷ cs) = elim (team_here before (c ∷ cs)) [
  | none ↦ drift_from expected 0 (c ∷ before) cs
  | some found ↦
      let rest = drift_from expected (13 + length found) (c ∷ before) cs in
      if same_codes found expected then rest else some found
]

unfoldable pub focus_team_drift : String → List ℕ → Option (List ℕ)
focus_team_drift focus_team text = drift_from (lower (codes focus_team)) 0 [] (lower text)
