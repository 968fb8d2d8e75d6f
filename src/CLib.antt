-- ===== src/CLib.antt =====
-- The functions of the C library that the parsers call, on C strings as lists of their bytes.
-- `char` is unsigned and `long` has 32 bits, as on the ESP32; strtol saturates.
use air_shifter_rough.Common.{
  ℕ, ◌+◌, ◌-◌, ◌*◌, ◌^◌, Bool, true, false, ◌&&◌, ◌||◌, Option, none, some, [], ◌∷◌, Bytes, ◌==◌,
  leb, if◌then◌else◌, ℤ, pos, neg,
}

unfoldable pub isspace : ℕ → Bool
isspace c = c == b' ' || leb 9 c && leb c 13

unfoldable pub isdigit : ℕ → Bool
isdigit c = leb b'0' c && leb c b'9'

unfoldable pub tolower : ℕ → ℕ
tolower c = if leb b'A' c && leb c b'Z' then c + 32 else c

unfoldable pub skip_spaces : Bytes → Bytes
skip_spaces [] = []
skip_spaces (c ∷ cs) = if isspace c then skip_spaces cs else c ∷ cs

unfoldable pub starts_with : Bytes → Bytes → Bool
starts_with [] s = true
starts_with (k ∷ ks) [] = false
starts_with (k ∷ ks) (c ∷ cs) = k == c && starts_with ks cs

-- strstr: the text from the first occurrence on; `none` is NULL.
unfoldable pub strstr : Bytes → Bytes → Option Bytes
unfolding starts_with
strstr [] key = if starts_with key [] then some [] else none
strstr (c ∷ cs) key = if starts_with key (c ∷ cs) then some (c ∷ cs) else strstr cs key

-- the value of the leading digits, after those read
unfoldable pub digits_from : ℕ → Bytes → ℕ
digits_from n [] = n
digits_from n (c ∷ cs) =
    let rest = digits_from (10 * n + (c - b'0')) cs in if isdigit c then rest else n

abbrev pub long_max : ℕ
long_max = 2 ^ 31 - 1

-- strtol saturates at LONG_MAX and LONG_MIN.
abbrev pub saturate : Bool → ℕ → ℤ
saturate negative n =
    if negative
    then neg (if leb n (long_max + 1) then n else long_max + 1)
    else pos (if leb n long_max then n else long_max)

abbrev pub has_digit : Bytes → Bool
has_digit [] = false
has_digit (c ∷ cs) = isdigit c

-- the number behind the sign; `none` is no conversion
abbrev pub signed : Bool → Bytes → Option ℤ
signed negative s = if has_digit s then some (saturate negative (digits_from 0 s)) else none

unfoldable pub strtol_sign : Bytes → Option ℤ
unfolding isdigit digits_from
strtol_sign [] = none
strtol_sign (c ∷ cs) =
    if c == b'-'
    then signed true cs
    else if c == b'+'
    then signed false cs
    else signed false (c ∷ cs)

-- strtol (s, &end, 10); `none` is `end == s`.
unfoldable pub strtol : Bytes → Option ℤ
unfolding skip_spaces isspace strtol_sign
strtol s = strtol_sign (skip_spaces s)

-- atoi is strtol, with 0 where nothing is converted.
unfoldable pub atoi : Bytes → ℤ
unfolding strtol
atoi s = elim (strtol s) [ none ↦ pos 0 | some v ↦ v ]
