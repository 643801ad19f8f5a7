-- ===== src/Toolkit/Truncation.antt =====
-- engine/wolves/toolkit/_truncation.py: a text is a list of its characters.
use wolves_ai.Base.{
  ℕ, ◌-◌, ◌*◌, ◌/◌, ◌≤◌, ◌<◌, ◌≡◌, List, ◌++◌, arith, length, take, drop, length-append,
  length-take, length-drop, leb, if◌then◌else◌, ◌||◌, min,
}
use wolves_ai.Base.Text.{codes}

abbrev pub marker : List ℕ
marker = codes "\n\n[... truncated ...]\n\n"

-- `text[-n:]` for a positive n that is at most the length
abbrev pub take_last : ℕ → List ℕ → List ℕ
take_last n text = drop (length text - n) text

unfoldable pub truncate_result : List ℕ → ℕ → List ℕ
truncate_result text max_chars =
    if leb max_chars 0 || leb (length text) max_chars
    then text
    else if leb max_chars (length marker)
    then take max_chars text
    else let usable = max_chars - length marker in
      let front = usable * 2 / 3 in
      let back = usable - front in take front text ++ (marker ++ take_last back text)

long_length :
    (text : List ℕ) (m : ℕ)
    → m < length text
    → length marker < m
    → let front = (m - length marker) * 2 / 3 in
      length (take front text ++ (marker ++ take_last (m - length marker - front) text)) ≡ m
long_length text m h k =
    let front = (m - length marker) * 2 / 3 in
    let back = m - length marker - front in
    omega (
      arith,
      length-append (take front text) (marker ++ take_last back text),
      length-append marker (take_last back text),
      length-take front text,
      length-drop (length text - back) text,
    )

-- With a positive limit the result has the text's length or the limit, whichever is smaller; a
-- text within the limit is left as it is; and where the limit is above the marker's length and the
-- text is longer, the result is a beginning of the text, the marker and an end of the text, and the
-- beginning has two thirds of what the marker leaves.
pub truncate_result_lem :
    (text : List ℕ) (m : ℕ)
    → 0 < m
    → (length (truncate_result text m) ≡ min (length text) m)
      × (length text ≤ m → truncate_result text m ≡ text)
      × (length marker < m
          → m < length text
          → let front = (m - length marker) * 2 / 3 in
            let back = m - length marker - front in
            truncate_result text m ≡ take front text ++ (marker ++ drop (length text - back) text))
unfolding truncate_result
truncate_result_lem text m h = ground (arith, long_length text m, length-take m text)
