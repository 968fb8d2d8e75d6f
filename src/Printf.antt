-- ===== src/Printf.antt =====
-- The conversions of printf that main/main.c uses: %d and %u of a number below 2 ^ 32, and %02x of a
-- byte; with what strtol reads back.
use air_shifter_rough.Common.{
  ℕ, zero, suc, ◌+◌, ◌-◌, ◌*◌, ◌/◌, ◌%◌, ◌^◌, ◌≤◌, ◌<◌, ◌≡◌, refl, ap, ◌∙◌, false, List, [], ◌∷◌,
  ◌++◌, Bytes, arith, ltb, if◌then◌else◌, All, Bool-cases, inl, inr, pos,
}
use air_shifter_rough.CLib.{isdigit, skip_spaces, digits_from, strtol, strtol_sign, long_max, atoi}
use air_shifter_rough.Parser.Digits.{IsDigit, text, value, isdigit-digit, isspace-digit, ne_digit}

-- The digits in front of those that are there, with fuel for so many.
unfoldable pub digits_before : ℕ → ℕ → List ℕ → List ℕ
digits_before zero n ds = ds
digits_before (suc fuel) n ds =
    let rest = digits_before fuel (n / 10) (n % 10 ∷ ds) in if ltb n 10 then n ∷ ds else rest

-- ten digits are enough for 32 bits
unfoldable pub digits : ℕ → List ℕ
unfolding digits_before
digits n = digits_before 10 n []

unfoldable pub dec : ℕ → Bytes
unfolding digits
dec n = text (digits n)

abbrev pub hex_digit : ℕ → ℕ
hex_digit d = if ltb d 10 then 48 + d else 87 + d

abbrev pub hex2 : ℕ → Bytes
hex2 v = hex_digit (v / 16) ∷ hex_digit (v % 16) ∷ []

value-digits_before :
    (fuel n : ℕ) (ds : List ℕ) → n < 10 ^ fuel → value 0 (digits_before fuel n ds) ≡ value n ds
unfolding digits_before
value-digits_before zero n ds h = ap (λ k. value k ds) (omega (arith, h))
value-digits_before (suc fuel) n ds h = elim (Bool-cases (ltb n 10)) [
  | inl small ↦ rw small (ap (λ k. value k ds) (omega arith))
  | inr big ↦
      let power : 10 ^ suc fuel ≡ 10 * 10 ^ fuel = omega arith in
      let less : n / 10 < 10 ^ fuel = omega (arith, h, power) in
      let back : 10 * (n / 10) + n % 10 ≡ n = omega arith in
      rw big (value-digits_before fuel (n / 10) (n % 10 ∷ ds) less ∙ ap (λ k. value k ds) back)
]

digits_before-IsDigit :
    (fuel n : ℕ) (ds : List ℕ) → All IsDigit ds → All IsDigit (digits_before fuel n ds)
unfolding digits_before
digits_before-IsDigit zero n ds a = a
digits_before-IsDigit (suc fuel) n ds a = elim (Bool-cases (ltb n 10)) [
  | inl small ↦ rw small (ground (arith, small), a)
  | inr big ↦ rw big (digits_before-IsDigit fuel (n / 10) (n % 10 ∷ ds) (omega arith, a))
]

-- what the reading of digits stops at
abbrev pub Ends : Bytes → Type 0
Ends [] = Unit
Ends (c ∷ cs) = isdigit c ≡ false

digits_from-until :
    (n : ℕ) (ds : List ℕ) (rest : Bytes)
    → All IsDigit ds
    → Ends rest
    → digits_from n (text ds ++ rest) ≡ value n ds
unfolding digits_from
digits_from-until n [] [] a e = refl
digits_from-until n [] (c ∷ cs) a e = rw (e, digits_from) refl
digits_from-until n (d ∷ ds) rest a e =
    let ih = digits_from-until (10 * n + d) ds rest a.1 e in
    let digit = isdigit-digit d a.0 in
    let less : b'0' + d - b'0' ≡ d = omega arith in rw (digit, less) ih

abbrev IsFilled : List ℕ → Type 0
IsFilled [] = ⊥
IsFilled (d ∷ ds) = Unit

digits_before-IsFilled : (fuel n d : ℕ) (ds : List ℕ) → IsFilled (digits_before fuel n (d ∷ ds))
unfolding digits_before
digits_before-IsFilled zero n d ds = tt
digits_before-IsFilled (suc fuel) n d ds = elim (Bool-cases (ltb n 10)) [
  | inl small ↦ rw small tt
  | inr big ↦ rw big (digits_before-IsFilled fuel (n / 10) (n % 10) (d ∷ ds))
]

digits-IsFilled : (n : ℕ) → IsFilled (digits n)
unfolding digits digits_before
digits-IsFilled n = elim (Bool-cases (ltb n 10)) [
  | inl small ↦ rw small tt
  | inr big ↦ rw big (digits_before-IsFilled 9 (n / 10) (n % 10) [])
]

digits-IsDigit : (n : ℕ) → All IsDigit (digits n)
unfolding digits
digits-IsDigit n = digits_before-IsDigit 10 n [] tt

value-digits : (n : ℕ) → n < 2 ^ 32 → value 0 (digits n) ≡ n
unfolding digits
value-digits n h = value-digits_before 10 n [] (omega (arith, h))

atoi-until :
    (ds : List ℕ) (rest : Bytes)
    → IsFilled ds
    → All IsDigit ds
    → Ends rest
    → value 0 ds ≤ long_max
    → atoi (text ds ++ rest) ≡ pos (value 0 ds)
unfolding atoi strtol skip_spaces strtol_sign
atoi-until [] rest f a e fits = absurd f
atoi-until (d ∷ ds) rest f a e fits =
    let space = isspace-digit d a.0 in
    let digit = isdigit-digit d a.0 in
    let minus = ne_digit b'-' d (inl (omega arith)) a.0 in
    let plus = ne_digit b'+' d (inl (omega arith)) a.0 in
    let read = digits_from-until 0 (d ∷ ds) rest a e in ground arith

-- A number that is printed is read back, whatever follows that is no digit.
pub atoi-dec : (n : ℕ) (rest : Bytes) → n ≤ long_max → Ends rest → atoi (dec n ++ rest) ≡ pos n
unfolding dec
atoi-dec n rest fits e =
    let same = value-digits n (omega (arith, fits)) in
    atoi-until (digits n) rest (digits-IsFilled n) (digits-IsDigit n) e (omega (arith, same, fits))
    ∙ ap pos same

-- the value of a digit that %02x prints
abbrev pub unhex : ℕ → ℕ
unhex c = if ltb c 58 then c - 48 else c - 87

pub unhex-hex_digit : (d : ℕ) → d < 16 → unhex (hex_digit d) ≡ d
unhex-hex_digit d h = ground arith

pub unhex-hex2 :
    (v : ℕ) → v < 256 → 16 * unhex (hex_digit (v / 16)) + unhex (hex_digit (v % 16)) ≡ v
unhex-hex2 v h =
    let high = unhex-hex_digit (v / 16) (omega arith) in
    let low = unhex-hex_digit (v % 16) (omega arith) in omega (arith, high, low)
