-- ===== src/Security/Filling.antt =====
-- What the loops of main/security.c leave in a buffer: memcpy and the random fill.
use air_shifter_rough.Common.{
  Bool-cases, ltb, ltb→lt, ◌^◌, ℕ, zero, suc, ◌+◌, ◌-◌, ◌*◌, ◌/◌, ◌%◌, ◌≤◌, ◌<◌, ◌≡◌, refl, sym,
  ◌∙◌, [], ◌∷◌, Bytes, arith, leb, if◌then◌else◌, get_or, set, take, length, length-set,
  length-take, get_or-set_self, get_or-set_ne, tabulate, tabulate-eq, take-tabulate, lt→ltb,
  take_all, ◌⊎◌, inl, inr,
}
use native.Mathlib.Decide.{dec_lt}
use native.Mathlib.Nat.{add-zero}
use air_shifter_rough.Security.Nonce.{byte_of, word_bytes, write, fill_nonce}

pub length-write : (buf : Bytes) (i : ℕ) (bs : Bytes) → length (write buf i bs) ≡ length buf
unfolding write
length-write buf i [] = refl
length-write buf i (b ∷ bs) = length-write (set buf i b) (i + 1) bs ∙ length-set buf i b

-- A copy leaves what lies outside its range.
pub get_or-write_outside :
    (buf : Bytes) (i : ℕ) (bs : Bytes) (j : ℕ)
    → (j < i) ⊎ (i + length bs ≤ j)
    → get_or (write buf i bs) j 0 ≡ get_or buf j 0
unfolding write
get_or-write_outside buf i [] j h = refl
get_or-write_outside buf i (b ∷ bs) j h =
    get_or-write_outside (set buf i b) (i + 1) bs j (past h)
    ∙ get_or-set_ne buf i j b 0 (λ e. elim h [ inl l ↦ omega arith | inr g ↦ omega arith ])
  where
    past : (j < i) ⊎ (i + suc (length bs) ≤ j) → (j < i + 1) ⊎ (i + 1 + length bs ≤ j)
    past (inl l) = inl (omega arith)
    past (inr g) = inr (omega arith)

-- A copy that fits puts its bytes there.
pub get_or-write :
    (buf : Bytes) (i : ℕ) (bs : Bytes) (j k : ℕ)
    → i + length bs ≤ length buf
    → j < length bs
    → k ≡ i + j
    → get_or (write buf i bs) k 0 ≡ get_or bs j 0
unfolding write
get_or-write buf i [] j k h l e = elim l [ ]
get_or-write buf i (b ∷ bs) zero k h l e =
    get_or-write_outside (set buf i b) (i + 1) bs k (inl (omega arith))
    ∙ rw e (rw add-zero (get_or-set_self buf i b 0 (omega arith)))
get_or-write buf i (b ∷ bs) (suc j) k h l e =
    get_or-write (set buf i b) (i + 1) bs j k (omega (arith, length-set buf i b)) (omega arith)
      (omega arith)

get_or-word_bytes : (w n m : ℕ) → m < n → n ≤ 4 → get_or (take n (word_bytes w)) m 0 ≡ byte_of w m
get_or-word_bytes w zero m h k = elim h [ ]
get_or-word_bytes w (suc n) zero h k = refl
get_or-word_bytes w (suc zero) (suc m) h k = absurd (omega arith)
get_or-word_bytes w (suc (suc n)) (suc zero) h k = refl
get_or-word_bytes w (suc (suc zero)) (suc (suc m)) h k = absurd (omega arith)
get_or-word_bytes w (suc (suc (suc n))) (suc (suc zero)) h k = refl
get_or-word_bytes w (suc (suc (suc zero))) (suc (suc (suc m))) h k = absurd (omega arith)
get_or-word_bytes w (suc (suc (suc (suc n)))) (suc (suc (suc zero))) h k = refl
get_or-word_bytes w (suc (suc (suc (suc n)))) (suc (suc (suc (suc m)))) h k = absurd (omega arith)

-- how many bytes of a word are copied at offset `i`
abbrev room : ℕ → ℕ → ℕ
room len i = if leb 4 (len - i) then 4 else len - i

length-word : (w n : ℕ) → n ≤ 4 → length (take n (word_bytes w)) ≡ n
length-word w n h = omega (arith, length-take n (word_bytes w))

pub length-fill_nonce :
    (fuel : ℕ) (random : ℕ → ℕ) (k len i : ℕ) (buf : Bytes)
    → length (fill_nonce fuel random k len i buf) ≡ length buf
unfolding fill_nonce
length-fill_nonce zero random k len i buf = refl
length-fill_nonce (suc f) random k len i buf =
    let bs = take (room len i) (word_bytes (random k)) in
    ground (
      arith,
      length-fill_nonce f random (k + 1) len ((i + 4) % 2 ^ 32) (write buf i bs),
      length-write buf i bs,
    )

-- The offset does not wrap around before the end of a nonce that is not near 4 GiB.
pub no_wrap : (i len : ℕ) → i < len → len ≤ 2 ^ 31 → (i + 4) % 2 ^ 32 ≡ i + 4
no_wrap i len lt small = omega arith

fill_nonce_below :
    (fuel : ℕ) (random : ℕ → ℕ) (k len i : ℕ) (buf : Bytes) (j : ℕ)
    → len ≤ 2 ^ 31
    → j < i
    → get_or (fill_nonce fuel random k len i buf) j 0 ≡ get_or buf j 0
unfolding fill_nonce
fill_nonce_below zero random k len i buf j small h = refl
fill_nonce_below (suc f) random k len i buf j small h =
    let bs = take (room len i) (word_bytes (random k)) in
    elim (Bool-cases (ltb i len)) [
      | inr stop ↦ rw (stop, fill_nonce) refl
      | inl more ↦
          rw (more, fill_nonce)
            (rw (no_wrap i len (ltb→lt i len more) small) (
              fill_nonce_below f random (k + 1) len (i + 4) (write buf i bs) j small (omega arith)
              ∙ get_or-write_outside buf i bs j (inl h)))
    ]

in_word :
    (random : ℕ → ℕ) (k i j : ℕ)
    → i ≡ 4 * k
    → i ≤ j
    → j < i + 4
    → byte_of (random k) (j - i) ≡ byte_of (random (j / 4)) (j % 4)
in_word random k i j e lo hi =
    let word : j / 4 ≡ k = omega arith in
    let byte : j % 4 ≡ j - i = omega arith in rw (word, byte) refl

fill_nonce_at :
    (fuel : ℕ) (random : ℕ → ℕ) (k len i : ℕ) (buf : Bytes) (j : ℕ)
    → len ≤ 2 ^ 31
    → i ≡ 4 * k
    → len ≤ i + 4 * fuel
    → len ≤ length buf
    → i ≤ j
    → j < len
    → get_or (fill_nonce fuel random k len i buf) j 0 ≡ byte_of (random (j / 4)) (j % 4)
unfolding fill_nonce
fill_nonce_at zero random k len i buf j small e f r lo hi = absurd (omega arith)
fill_nonce_at (suc f) random k len i buf j small e g r lo hi =
    let n = room len i in
    let bs = take n (word_bytes (random k)) in
    let size = length-word (random k) n (ground arith) in
    let fits : n ≤ len - i = ground arith in
    rw (lt→ltb i len (omega arith)) (
      rw (no_wrap i len (omega arith) small) (elim (dec_lt j (i + 4)) [
        | yes near ↦
            fill_nonce_below f random (k + 1) len (i + 4) (write buf i bs) j small near
            ∙ get_or-write buf i bs (j - i) j (omega arith) (ground arith) (omega arith)
            ∙ get_or-word_bytes (random k) n (j - i) (ground arith) (ground arith)
            ∙ in_word random k i j e lo near
        | no far ↦
            fill_nonce_at f random (k + 1) len (i + 4) (write buf i bs) j small (omega arith)
              (omega arith) (omega (arith, length-write buf i bs)) (omega arith) hi
      ]))

-- the first `n` bytes of the words that esp_random gives
abbrev pub random_bytes : (ℕ → ℕ) → ℕ → Bytes
random_bytes random n = tabulate n 0 (λ j. byte_of (random (j / 4)) (j % 4))

-- The fill leaves exactly the random bytes in front, for every length that fits the buffer and is
-- not near the bound of size_t.
pub take-fill_nonce :
    (random : ℕ → ℕ) (n : ℕ) (buf : Bytes)
    → n ≤ length buf
    → n ≤ 2 ^ 31
    → take n (fill_nonce n random 0 n 0 buf) ≡ random_bytes random n
take-fill_nonce random n buf h small =
    take-tabulate n _ 0 (omega (arith, length-fill_nonce n random 0 n 0 buf))
    ∙ tabulate-eq n 0 _ _ (λ j lo hi.
      fill_nonce_at n random 0 n 0 buf j small (omega arith) (omega arith) h (omega arith)
        (omega arith))

-- A copy to the front of a buffer leaves the copied bytes there.
pub take-write : (buf bs : Bytes) → length bs ≤ length buf → take (length bs) (write buf 0 bs) ≡ bs
take-write buf bs h =
    take-tabulate (length bs) _ 0 (omega (arith, length-write buf 0 bs))
    ∙ tabulate-eq (length bs) 0 _ _
        (λ j lo hi. get_or-write buf 0 bs j j (omega arith) (omega arith) (omega arith))
    ∙ sym (take-tabulate (length bs) bs 0 (omega arith))
    ∙ take_all (length bs) bs (omega arith)
