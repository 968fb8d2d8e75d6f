-- ===== src/Parser/Fields.antt =====
-- main/parser.c: the helpers that compare and read one token or one legacy field.
use air_shifter_rough.Common.{
  ℕ, zero, suc, ◌+◌, ◌-◌, ◌%◌, ◌^◌, Bool, true, false, not, ◌&&◌, ◌||◌, Option, none, some, [], ◌∷◌,
  Bytes, ◌==◌, ltb, leb, if◌then◌else◌, get_or, take, drop, length, ℤ,
}
use air_shifter_rough.CLib.{isspace, isdigit, tolower, skip_spaces, strstr, strtol, atoi}
use air_shifter_rough.Platform.{Credentials, Token}

-- (size_t)(tok->end - tok->start), where size_t has 32 bits
abbrev pub token_len : Token → ℕ
token_len t = (t.end + 2 ^ 32 - t.start) % 2 ^ 32

-- The text of a token; jsmn's tokens lie within the buffer.
abbrev pub token_text : Bytes → Token → Bytes
token_text buf t = take (token_len t) (drop t.start buf)

-- for (i …; rounds left): byte `i` of the token against byte `i` of the key
unfoldable pub equal_from : ℕ → ℕ → Bytes → Token → Bytes → Bool
equal_from zero i buf t key = true
equal_from (suc n) i buf t key =
    tolower (get_or buf (t.start + i) 0) == tolower (get_or key i 0)
    && equal_from n (i + 1) buf t key

unfoldable pub token_equals_key : Bytes → Token → Bytes → Bool
unfolding equal_from tolower
token_equals_key buf t key =
    if not (token_len t == length key) then false else equal_from (length key) 0 buf t key

-- The C string that is left in an output buffer of `out_len` bytes.
unfoldable pub token_to_cstr : Bytes → Token → ℕ → Bytes
token_to_cstr buf t out_len =
    take (if leb out_len (token_len t) then out_len - 1 else token_len t) (drop t.start buf)

-- `none` is the result 0, which leaves the output as it was.
unfoldable pub token_to_int : Bytes → Token → Option ℤ
unfolding skip_spaces isspace strtol
token_to_int buf t =
    if token_len t == 0 || leb 32 (token_len t)
    then none
    else elim (skip_spaces (token_text buf t)) [ [] ↦ none | c ∷ cs ↦ strtol (c ∷ cs) ]

-- while (*pos && …) pos++
unfoldable pub skip_separators : Bytes → Bytes
skip_separators [] = []
skip_separators (c ∷ cs) =
    if c == b':' || c == b'=' || isspace c then skip_separators cs else c ∷ cs

-- while (*pos && !stop (*pos) && i + 1 < out_len) out[i++] = *pos++
unfoldable pub copy_until : (ℕ → Bool) → ℕ → ℕ → Bytes → Bytes
copy_until stop out_len i [] = []
copy_until stop out_len i (c ∷ cs) =
    let rest = copy_until stop out_len (i + 1) cs in
    if not (stop c) && ltb (i + 1) out_len then c ∷ rest else []

abbrev pub ends_word : ℕ → Bool
ends_word c = c == b',' || isspace c

-- the copy behind the separators, quoted or bare
unfoldable pub copy_field : ℕ → Bytes → Bytes
unfolding copy_until isspace
copy_field out_len [] = []
copy_field out_len (c ∷ cs) =
    if c == b'"' || c == b'\''
    then copy_until (λ d. d == c) out_len 0 cs
    else copy_until ends_word out_len 0 (c ∷ cs)

abbrev pub is_empty : Bytes → Bool
is_empty [] = true
is_empty (c ∷ cs) = false

-- Whether a byte was copied, and the C string then in the output buffer, which held `out`.
unfoldable pub legacy_extract_str_field : Bytes → Bytes → Bytes → ℕ → Bool × Bytes
unfolding strstr skip_separators copy_field
legacy_extract_str_field src key out out_len = elim (strstr src key) [
  | none ↦ (false, out)
  | some found ↦
      let field = copy_field out_len (skip_separators (drop (length key) found)) in
      (not (is_empty field), field)
]

abbrev pub int_at : Bytes → Option ℤ
int_at [] = none
int_at (c ∷ cs) = if not (isdigit c) && not (c == b'-') then none else some (atoi (c ∷ cs))

-- `none` is the result false, which leaves the output as it was.
unfoldable pub legacy_extract_int_field : Bytes → Bytes → Option ℤ
unfolding strstr skip_separators isspace isdigit atoi
legacy_extract_int_field src key = elim (strstr src key) [
  | none ↦ none
  | some found ↦ int_at (skip_separators (drop (length key) found))
]

-- strncpy and strlen
abbrev pub make_credentials : Bytes → Bool → Bytes → Credentials
make_credentials name got_pass word = record {
  ssid = take 32 name;
  ssid_len = length (take 32 name);
  pass = if got_pass then take 64 word else [];
  pass_len = if got_pass then length (take 64 word) else 0;
}
