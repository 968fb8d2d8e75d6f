-- ===== src/Mqtt/Console.antt =====
-- main/mqtt.c: the reading of the broker's URL from the console, which mqtt5_app_start does before all
-- else when CONFIG_BROKER_URL_FROM_STDIN is set.
use air_shifter_rough.Common.{
  ℕ, zero, suc, ◌≡◌, ◌↔◌, Bool, true, false, ◌&&◌, Option, none, some, List, [], ◌∷◌, Bytes, arith,
  ◌==◌, ltb, if◌then◌else◌, length, ℤ, pos, negsuc, Bool-cases, Option-cases, inl, inr,
}

abbrev pub is_newline : ℤ → Bool
is_newline (pos n) = n == 10
is_newline (negsuc n) = false

-- c > 0 && c < 127
abbrev pub is_kept : ℤ → Bool
is_kept (pos n) = ltb 0 n && ltb n 127
is_kept (negsuc n) = false

abbrev pub byte_of_char : ℤ → ℕ
byte_of_char (pos n) = n
byte_of_char (negsuc n) = 0

abbrev pub prepend : ℕ → Option (Bytes × Bool) → Option (Bytes × Bool)
prepend c none = none
prepend c (some (line, ended)) = some (c ∷ line, ended)

-- With the room that is left and the results of fgetc to come: the bytes of `line`, and whether a NUL
-- was written behind them; `none` while the loop still waits.
unfoldable pub read_line : ℕ → List ℤ → Option (Bytes × Bool)
read_line zero cs = some ([], false)
read_line (suc room) [] = none
read_line (suc room) (c ∷ cs) =
    let rest = read_line room cs in
    let later = read_line (suc room) cs in
    if is_newline c
    then some ([], true)
    else if is_kept c
    then prepend (byte_of_char c) rest
    else later

-- For a buffer of any room and any characters from the console, as long as the reading of the line
-- ends: the line is left without a NUL exactly when its characters fill the buffer.
pub read_line_unterminated_iff :
    (room : ℕ) (cs : List ℤ) (line : Bytes) (ended : Bool)
    → read_line room cs ≡ some (line, ended)
    → (ended ≡ false) ↔ (length line ≡ room)
unfolding read_line
read_line_unterminated_iff zero cs line ended e = ground arith
read_line_unterminated_iff (suc room) [] line ended e = absurd cc
read_line_unterminated_iff (suc room) (c ∷ cs) line ended e = elim (Bool-cases (is_newline c)) [
  | inl newline ↦ ground (arith, e, newline)
  | inr other ↦ elim (Bool-cases (is_kept c)) [
    | inl kept ↦ elim (Option-cases (read_line room cs)) [
      | inl waits ↦ absurd (ground (arith, e, other, kept, waits))
      | inr ((l, t), f) ↦
          let ih = read_line_unterminated_iff room cs l t f in ground (arith, e, other, kept, f, ih)
    ]
    | inr skipped ↦
        read_line_unterminated_iff (suc room) cs line ended (ground (arith, e, other, skipped))
  ]
]
