-- ===== src/Parser/Digits.antt =====
-- main/parser.c: decimal digits as the helpers for the older format read them.
use air_shifter_rough.Common.{
  ℕ, ◌+◌, ◌*◌, ◌≤◌, ◌<◌, ◌≡◌, ◌⊎◌, inl, inr, refl, true, false, none, some, List, [], ◌∷◌, map,
  Bytes, arith, ◌==◌, ==_no, All, pos,
}
use air_shifter_rough.CLib.{
  isspace, isdigit, skip_spaces, starts_with, strstr, digits_from, long_max, strtol_sign, strtol,
  atoi,
}
use air_shifter_rough.Parser.Fields.{skip_separators, int_at}

abbrev pub IsDigit : ℕ → Type 0
IsDigit d = d < 10

-- the digits as text, and their value after those already read
abbrev pub text : List ℕ → Bytes
text ds = map (λ d. b'0' + d) ds

abbrev pub value : ℕ → List ℕ → ℕ
value n [] = n
value n (d ∷ ds) = value (10 * n + d) ds

digits_from-text : (n : ℕ) (ds : List ℕ) → All IsDigit ds → digits_from n (text ds) ≡ value n ds
unfolding digits_from isdigit
digits_from-text n [] a = refl
digits_from-text n (d ∷ ds) a =
    let ih = digits_from-text (10 * n + d) ds a.1 in let small = a.0 in ground arith

-- no letter is found among digits
pub strstr-text :
    (k : ℕ) (ks : Bytes) (ds : List ℕ) → 57 < k → All IsDigit ds → strstr (text ds) (k ∷ ks) ≡ none
unfolding strstr starts_with
strstr-text k ks [] big a = refl
strstr-text k ks (d ∷ ds) big a =
    let ih = strstr-text k ks ds big a.1 in
    let small = a.0 in
    let other = ==_no k (b'0' + d) (λ e. omega (arith, e, big, a.0)) in ground arith

-- a digit is no space, sign or separator
pub isspace-digit : (d : ℕ) → IsDigit d → isspace (b'0' + d) ≡ false
unfolding isspace
isspace-digit d small = ground arith

pub isdigit-digit : (d : ℕ) → IsDigit d → isdigit (b'0' + d) ≡ true
unfolding isdigit
isdigit-digit d small = ground arith

pub ne_digit : (c d : ℕ) → (c < 48) ⊎ (57 < c) → IsDigit d → ((b'0' + d) == c) ≡ false
ne_digit c d (inl low) small = ==_no (b'0' + d) c (λ e. omega (arith, e, low, small))
ne_digit c d (inr high) small = ==_no (b'0' + d) c (λ e. omega (arith, e, high, small))

pub skip_separators-text :
    (d : ℕ) (ds : List ℕ)
    → All IsDigit (d ∷ ds)
    → skip_separators (b':' ∷ text (d ∷ ds)) ≡ text (d ∷ ds)
unfolding skip_separators
skip_separators-text d ds a =
    let space = isspace-digit d a.0 in
    let colon = ne_digit b':' d (inr (omega arith)) a.0 in
    let equals = ne_digit b'=' d (inr (omega arith)) a.0 in ground arith

strtol-text :
    (d : ℕ) (ds : List ℕ)
    → All IsDigit (d ∷ ds)
    → value 0 (d ∷ ds) ≤ long_max
    → strtol (text (d ∷ ds)) ≡ some (pos (value 0 (d ∷ ds)))
unfolding strtol skip_spaces strtol_sign
strtol-text d ds a fits =
    let space = isspace-digit d a.0 in
    let digit = isdigit-digit d a.0 in
    let minus = ne_digit b'-' d (inl (omega arith)) a.0 in
    let plus = ne_digit b'+' d (inl (omega arith)) a.0 in
    let read = digits_from-text 0 (d ∷ ds) a in ground arith

pub int_at-text :
    (d : ℕ) (ds : List ℕ)
    → All IsDigit (d ∷ ds)
    → value 0 (d ∷ ds) ≤ long_max
    → int_at (text (d ∷ ds)) ≡ some (pos (value 0 (d ∷ ds)))
unfolding atoi
int_at-text d ds a fits =
    let digit = isdigit-digit d a.0 in let read = strtol-text d ds a fits in ground arith
