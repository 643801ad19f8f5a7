-- ===== src/Base/Text.antt =====
-- A text as the list of its code points, and Python's methods on it as far as ASCII goes.
use Prim.Native.Nat.{ℕ, zero, suc, ◌+◌}
use Prim.Native.Char.{code}
use Prim.Native.String.{String}
use mathlib.Core.Bool.{Bool, true, false, ◌&&◌, ◌||◌}
use mathlib.Core.List.{List, [], ◌∷◌, map}
use wolves_ai.Base.Tests.{leb, eqb, if◌then◌else◌}
use wolves_ai.Base.Keys.{Key, ◌==◌, nat_eq}
use mathlib.Core.Path.{◌≡◌}
use mathlib.Core.Logic.{◌↔◌}
use native.Mathlib.Omega.{arith}

abbrev pub codes : String → List ℕ
codes String.[] = []
codes (String.◌∷◌ c s) = code c ∷ codes s

abbrev pub same_codes : List ℕ → List ℕ → Bool
same_codes [] [] = true
same_codes (x ∷ xs) (y ∷ ys) = x == y && same_codes xs ys
same_codes _ _ = false

-- `s.lower()`
abbrev pub lower : List ℕ → List ℕ
lower = map λ c. if leb 65 c && leb c 90 then c + 32 else c

abbrev is_space : ℕ → Bool
is_space c = eqb c 32 || leb 9 c && leb c 13

abbrev pub lstrip : List ℕ → List ℕ
lstrip [] = []
lstrip (c ∷ cs) = let rest = lstrip cs in if is_space c then rest else c ∷ cs

abbrev pub rstrip : List ℕ → List ℕ
rstrip [] = []
rstrip (c ∷ cs) = drop_space c (rstrip cs)
  where
    drop_space : ℕ → List ℕ → List ℕ
    drop_space d [] = if is_space d then [] else d ∷ []
    drop_space d (e ∷ es) = d ∷ e ∷ es

-- `s.strip()`
abbrev pub strip : List ℕ → List ℕ
strip s = lstrip (rstrip s)

abbrev pub starts_with : List ℕ → List ℕ → Bool
starts_with [] text = true
starts_with (a ∷ rest) [] = false
starts_with (a ∷ rest) (b ∷ text) = leb a b && leb b a && starts_with rest text

-- `word in text`
abbrev pub occurs : List ℕ → List ℕ → Bool
occurs word [] = starts_with word []
occurs word (c ∷ cs) = starts_with word (c ∷ cs) || occurs word cs

-- `not s.strip()`
abbrev pub is_blank : List ℕ → Bool
is_blank [] = true
is_blank (c ∷ cs) = is_space c && is_blank cs

-- `s.split()[0]` of a text that is not blank
abbrev pub first_word : List ℕ → List ℕ
first_word s = until_space (lstrip s)
  where
    until_space : List ℕ → List ℕ
    until_space [] = []
    until_space (c ∷ cs) = let rest = until_space cs in if is_space c then [] else c ∷ rest

-- `s.replace("-", " ")`
abbrev pub dash_to_space : List ℕ → List ℕ
dash_to_space = map λ c. if eqb c 45 then 32 else c

-- `s[:n]`
abbrev pub prefix : ℕ → String → String
prefix zero s = ""
prefix (suc n) String.[] = ""
prefix (suc n) (String.◌∷◌ c s) = String.◌∷◌ c (prefix n s)

pub same_codes_iff : (s t : List ℕ) → same_codes s t ≡ true ↔ s ≡ t
same_codes_iff [] [] = ground arith
same_codes_iff [] (c ∷ t) = ground arith
same_codes_iff (b ∷ s) [] = ground arith
same_codes_iff (b ∷ s) (c ∷ t) = ground (arith, same_codes_iff s t)

instance abbrev pub codes_eq : Key (List ℕ)
codes_eq = record { same_iff = same_codes_iff; same = same_codes }
