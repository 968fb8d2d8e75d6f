-- ===== src/Security/Nonce.antt =====
-- main/security.c: the loop of `generate_nonce_for_index` that fills a buffer with random words.
use air_shifter_rough.Common.{
  ℕ, zero, suc, ◌+◌, ◌-◌, ◌/◌, ◌%◌, ◌^◌, [], ◌∷◌, Bytes, ltb, leb, if◌then◌else◌, set, take,
}

-- byte `b` of a word that lies in memory, lowest first
abbrev pub byte_of : ℕ → ℕ → ℕ
byte_of w b = w / 256 ^ b % 256

abbrev pub word_bytes : ℕ → Bytes
word_bytes w = byte_of w 0 ∷ byte_of w 1 ∷ byte_of w 2 ∷ byte_of w 3 ∷ []

-- memcpy into a buffer at an offset
unfoldable pub write : Bytes → ℕ → Bytes → Bytes
write buf i [] = buf
write buf i (b ∷ bs) = write (set buf i b) (i + 1) bs

-- The offset `i` is a size_t of 32 bits; `random k` is the result of the call number `k` of esp_random.
unfoldable pub fill_nonce : ℕ → (ℕ → ℕ) → ℕ → ℕ → ℕ → Bytes → Bytes
unfolding write
fill_nonce zero random k len i nonce = nonce
fill_nonce (suc fuel) random k len i nonce =
    if ltb i len
    then fill_nonce fuel random (k + 1) len ((i + 4) % 2 ^ 32)
        (write nonce i (take (if leb 4 (len - i) then 4 else len - i) (word_bytes (random k))))
    else nonce
