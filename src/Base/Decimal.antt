-- ===== src/Base/Decimal.antt =====
-- Decimal numbers in texts: what Python's format `{n:03d}` and `{n:04d}` print, and a reading of
-- the number that stands behind the last dash of a text.
use Prim.Native.Char.{Char, code}
use Prim.Native.String.{String}
use Prim.Native.Nat.{ℕ, zero, suc, ◌+◌, ◌-◌, ◌*◌, ◌/◌, ◌%◌, ◌<◌}
use mathlib.Core.Bool.{Bool, true, ◌&&◌}
use mathlib.Core.Option.{Option, none, some}
use mathlib.Core.Path.{◌≡◌, refl, ◌∙◌, ap}
use mathlib.Core.Logic.{◌≢◌, inl, inr}
use native.Mathlib.Omega.{arith}
use wolves_ai.Base.Tests.{ltb, leb, eqb, if◌then◌else◌, Bool-cases}

abbrev pub append : String → String → String
append String.[] t = t
append (String.◌∷◌ c s) t = String.◌∷◌ c (append s t)

digit : ℕ → Char
digit zero = "0"
digit (suc zero) = "1"
digit (suc (suc zero)) = "2"
digit (suc (suc (suc zero))) = "3"
digit (suc (suc (suc (suc zero)))) = "4"
digit (suc (suc (suc (suc (suc zero))))) = "5"
digit (suc (suc (suc (suc (suc (suc zero)))))) = "6"
digit (suc (suc (suc (suc (suc (suc (suc zero))))))) = "7"
digit (suc (suc (suc (suc (suc (suc (suc (suc zero)))))))) = "8"
digit _ = "9"

code-digit : (d : ℕ) → d < 10 → code (digit d) ≡ 48 + d
unfolding digit
code-digit zero h = refl
code-digit (suc zero) h = refl
code-digit (suc (suc zero)) h = refl
code-digit (suc (suc (suc zero))) h = refl
code-digit (suc (suc (suc (suc zero)))) h = refl
code-digit (suc (suc (suc (suc (suc zero))))) h = refl
code-digit (suc (suc (suc (suc (suc (suc zero)))))) h = refl
code-digit (suc (suc (suc (suc (suc (suc (suc zero))))))) h = refl
code-digit (suc (suc (suc (suc (suc (suc (suc (suc zero)))))))) h = refl
code-digit (suc (suc (suc (suc (suc (suc (suc (suc (suc zero))))))))) h = refl
code-digit (suc (suc (suc (suc (suc (suc (suc (suc (suc (suc d)))))))))) h = absurd (omega arith)

-- The digits of n before a text, in at most so many rounds.
decimal_from : ℕ → ℕ → String → String
decimal_from zero n rest = rest
decimal_from (suc f) n rest =
    let more = decimal_from f (n / 10) (String.◌∷◌ (digit (n % 10)) rest) in
    if ltb n 10 then String.◌∷◌ (digit n) rest else more

-- `str(n)`
unfoldable pub decimal : ℕ → String
unfolding decimal_from digit
decimal n = decimal_from (suc n) n ""

-- `f"{n:03d}"`
unfoldable pub pad_three : ℕ → String
pad_three n =
    if ltb n 10
    then append "00" (decimal n)
    else if ltb n 100
    then append "0" (decimal n)
    else decimal n

-- `f"{n:04d}"`
unfoldable pub pad_four : ℕ → String
pad_four n = if ltb n 1000 then append "0" (pad_three n) else decimal n

-- The number behind the last dash.
abbrev pub scan : ℕ → String → ℕ
scan acc String.[] = acc
scan acc (String.◌∷◌ c s) = scan (if eqb (code c) 45 then 0 else acc * 10 + (code c - 48)) s

scan-digit :
    (acc d : ℕ) (s : String) → d < 10 → scan acc (String.◌∷◌ (digit d) s) ≡ scan (acc * 10 + d) s
scan-digit acc d s h = ap (λ a. scan a s) (ground (arith, code-digit d h))

scan-decimal_from : (f n : ℕ) (rest : String) → n < f → scan 0 (decimal_from f n rest) ≡ scan n rest
unfolding decimal_from
scan-decimal_from zero n rest h = absurd (omega arith)
scan-decimal_from (suc f) n rest h = elim (Bool-cases (ltb n 10)) [
  | inl small ↦ rw small (scan-digit 0 n rest (ground arith) ∙ ap (λ a. scan a rest) (omega arith))
  | inr large ↦ rw large (
      scan-decimal_from f (n / 10) (String.◌∷◌ (digit (n % 10)) rest) (ground arith)
      ∙ scan-digit (n / 10) (n % 10) rest (omega arith)
      ∙ ap (λ a. scan a rest) (omega arith))
]

pub scan-decimal : (n : ℕ) → scan 0 (decimal n) ≡ n
scan-decimal n = unfold decimal in scan-decimal_from (suc n) n "" (omega arith)

pub scan-pad_three : (n : ℕ) → scan 0 (pad_three n) ≡ n
scan-pad_three n = elim (Bool-cases (ltb n 10)) [
  | inl e ↦ unfold pad_three in rw e (scan-decimal n)
  | inr e ↦ elim (Bool-cases (ltb n 100)) [
    | inl e' ↦ unfold pad_three in rw (e, e') (scan-decimal n)
    | inr e' ↦ unfold pad_three in rw (e, e') (scan-decimal n)
  ]
]

pub scan-pad_four : (n : ℕ) → scan 0 (pad_four n) ≡ n
scan-pad_four n = elim (Bool-cases (ltb n 1000)) [
  | inl e ↦ unfold pad_four in rw e (scan-pad_three n)
  | inr e ↦ unfold pad_four in rw e (scan-decimal n)
]

abbrev pub all_digits : String → Bool
all_digits String.[] = true
all_digits (String.◌∷◌ c s) = leb 48 (code c) && leb (code c) 57 && all_digits s

-- `int(s)` as far as plain digits go, with none where it raises
abbrev pub int_of : String → Option ℕ
int_of String.[] = none
int_of (String.◌∷◌ c s) =
    if all_digits (String.◌∷◌ c s) then some (scan 0 (String.◌∷◌ c s)) else none

-- `s.removeprefix(p)` where s starts with p, and none where it does not
abbrev pub without_prefix : String → String → Option String
without_prefix String.[] s = some s
without_prefix (String.◌∷◌ b p) String.[] = none
without_prefix (String.◌∷◌ b p) (String.◌∷◌ c s) =
    let rest = without_prefix p s in if eqb (code b) (code c) then rest else none

digits-decimal_from :
    (f n : ℕ) (rest : String) → all_digits rest ≡ true → all_digits (decimal_from f n rest) ≡ true
unfolding decimal_from
digits-decimal_from zero n rest h = h
digits-decimal_from (suc f) n rest h = ground (
  arith,
  code-digit n,
  code-digit (n % 10),
  digits-decimal_from f (n / 10) (String.◌∷◌ (digit (n % 10)) rest),
)

digits-decimal : (n : ℕ) → all_digits (decimal n) ≡ true
unfolding decimal
digits-decimal n = digits-decimal_from (suc n) n "" refl

int_of-digits :
    (s : String) (n : ℕ) → s ≢ "" → all_digits s ≡ true → scan 0 s ≡ n → int_of s ≡ some n
int_of-digits String.[] n ne d e = absurd (ne refl)
int_of-digits (String.◌∷◌ c s) n ne d e = rw (d, e)

decimal_from-filled : (f n : ℕ) (c : Char) (s : String) → decimal_from f n (String.◌∷◌ c s) ≢ ""
unfolding decimal_from
decimal_from-filled zero n c s = λ e. cc
decimal_from-filled (suc f) n c s =
    let rest = decimal_from-filled f (n / 10) (digit (n % 10)) (String.◌∷◌ c s) in
    elim (Bool-cases (ltb n 10)) [ inl e ↦ rw e (λ q. cc) | inr e ↦ rw e rest ]

decimal-filled : (n : ℕ) → decimal n ≢ ""
unfolding decimal decimal_from
decimal-filled n =
    let rest = decimal_from-filled n (n / 10) (digit (n % 10)) "" in
    elim (Bool-cases (ltb n 10)) [ inl e ↦ rw e (λ q. cc) | inr e ↦ rw e rest ]

digits-pad_three : (n : ℕ) → all_digits (pad_three n) ≡ true
unfolding pad_three
digits-pad_three n = ground (arith, digits-decimal n)

pad_three-filled : (n : ℕ) → pad_three n ≢ ""
pad_three-filled n = elim (Bool-cases (ltb n 10)) [
  | inl e ↦ unfold pad_three in rw e (λ q. cc)
  | inr e ↦ elim (Bool-cases (ltb n 100)) [
    | inl e' ↦ unfold pad_three in rw (e, e') (λ q. cc)
    | inr e' ↦ unfold pad_three in rw (e, e') (decimal-filled n)
  ]
]

pub int_of-pad_three : (n : ℕ) → int_of (pad_three n) ≡ some n
int_of-pad_three n =
    int_of-digits (pad_three n) n (pad_three-filled n) (digits-pad_three n) (scan-pad_three n)
