-- ===== src/OldParser/Fields.antt =====
-- main/parser-oldbitch1.c: the two extractors and the normalisation of a packet.
use air_shifter_rough.Common.{
  ℕ, zero, suc, ◌-◌, Bool, true, false, ◌||◌, Option, none, some, [], ◌∷◌, Bytes, ◌==◌, ltb, leb,
  if◌then◌else◌, get_or, take, drop, length, ℤ, codes,
}
use air_shifter_rough.CLib.{isspace, isdigit, skip_spaces, strstr, atoi}
use air_shifter_rough.Parser.Fields.{skip_separators, ends_word, int_at}

-- the bytes before the first one at which the loop stops, or all
unfoldable pub until : (ℕ → Bool) → Bytes → Bytes
until stop [] = []
until stop (c ∷ cs) = let rest = until stop cs in if stop c then [] else c ∷ rest

-- if (len >= out_len) len = out_len - 1; strncpy (out, pos, len)
abbrev pub clamped : ℕ → Bytes → Bytes
clamped out_len field =
    take (if leb out_len (length field) then out_len - 1 else length field) field

-- The C string that the extractor leaves in the output buffer; at the end of the text it is empty.
unfoldable pub copy_value : ℕ → Bytes → Bytes
unfolding until
copy_value out_len [] = []
copy_value out_len (c ∷ cs) =
    if c == b'\'' || c == b'"'
    then clamped out_len (until (λ d. d == c) cs)
    else clamped out_len (until ends_word (c ∷ cs))

-- The result, and the C string then in the output buffer, which held `out`.
unfoldable pub extract_str_field : Bytes → Bytes → Bytes → ℕ → Bool × Bytes
unfolding strstr skip_separators copy_value
extract_str_field src key out out_len = elim (strstr src key) [
  | none ↦ (false, out)
  | some found ↦ (true, copy_value out_len (skip_separators (drop (length key) found)))
]

abbrev pub is_before_int : ℕ → Bool
is_before_int c =
    c == b':'
    || c == b'='
    || isspace c
    || c == b'"'
    || c == b'\''
    || c == b'{'
    || c == b'}'
    || c == b','

-- while (*pos && …) pos++
unfoldable pub skip_before_int : Bytes → Bytes
skip_before_int [] = []
skip_before_int (c ∷ cs) = if is_before_int c then skip_before_int cs else c ∷ cs

-- A quote is skipped, then a digit or a minus sign must follow.
abbrev pub int_value : Bytes → Option ℤ
int_value [] = none
int_value (c ∷ cs) = if c == b'"' || c == b'\'' then int_at cs else int_at (c ∷ cs)

-- `none` is the result false, which leaves the output as it was.
unfoldable pub extract_int_field : Bytes → Bytes → Option ℤ
unfolding strstr skip_before_int isspace isdigit atoi
extract_int_field src key = elim (strstr src key) [
  | none ↦ none
  | some found ↦ int_value (skip_before_int (drop (length key) found))
]

-- for (i = total; i > 0; i--), until a byte other than a closing brace
unfoldable pub trailing_braces : ℕ → Bytes → ℕ
trailing_braces zero p = 0
trailing_braces (suc i) p =
    let more = trailing_braces i p in if get_or p i 0 == b'}' then suc more else 0

-- what follows the first "},{", or all
abbrev pub payload : Bytes → Bytes
payload src = elim (strstr src (codes "},{")) [ none ↦ src | some found ↦ drop 3 found ]

abbrev pub copy_len : ℕ → ℕ → ℕ
copy_len total trailing = if ltb 1 trailing then total - (trailing - 1) else total

abbrev pub capped : ℕ → ℕ → ℕ
capped out_len n = if leb out_len n then out_len - 1 else n

abbrev pub without_extra_braces : ℕ → Bytes → Bytes
without_extra_braces out_len p =
    take (capped out_len (copy_len (length p) (trailing_braces (length p) p))) p

-- The C string in the output buffer, which has at least one byte.
unfoldable pub normalize_packet : Bytes → ℕ → Bytes
unfolding strstr skip_spaces isspace trailing_braces
normalize_packet src out_len = without_extra_braces out_len (skip_spaces (payload src))
