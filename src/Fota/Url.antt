-- ===== src/Fota/Url.antt =====
-- main/FOTA.c: the URL that `ota_task` builds.
use air_shifter_rough.Common.{
  ℕ, zero, suc, ◌+◌, ◌≤◌, ◌<◌, ◌≡◌, refl, sym, ap, ◌∙◌, [], ◌∷◌, ◌++◌, Bytes, arith, get_or, set,
  take, drop, length, length-set, length-take, length-drop, get_or-set_self, get_or-set_ne,
  take-tabulate, tabulate-eq, ne_or_eq, inl, inr,
}
use air_shifter_rough.Parser.{c_string}
use air_shifter_rough.Fota.{ota_url, copy_token, url_of}

length-copy_token :
    (n i : ℕ) (payload temp : Bytes) → length (copy_token n i payload temp) ≡ length temp
unfolding copy_token
length-copy_token zero i payload temp = refl
length-copy_token (suc n) i payload temp =
    length-copy_token n (i + 1) payload _
    ∙ length-set (set temp i (get_or payload (i + 1) 0)) (i + 1) 0
    ∙ length-set temp i (get_or payload (i + 1) 0)

-- bytes before the place of the copy stay
copy_token_before :
    (n i j : ℕ) (payload temp : Bytes)
    → j < i
    → get_or (copy_token n i payload temp) j 0 ≡ get_or temp j 0
unfolding copy_token
copy_token_before zero i j payload temp lt = refl
copy_token_before (suc n) i j payload temp lt =
    copy_token_before n (i + 1) j payload _ (omega (arith, lt))
    ∙ get_or-set_ne (set temp i (get_or payload (i + 1) 0)) (i + 1) j 0 0
        (λ e. omega (arith, e, lt))
    ∙ get_or-set_ne temp i j (get_or payload (i + 1) 0) 0 (λ e. omega (arith, e, lt))

-- the bytes of the token
copy_token_byte :
    (n i j : ℕ) (payload temp : Bytes)
    → i ≤ j
    → j < i + n
    → i + n < length temp
    → get_or (copy_token n i payload temp) j 0 ≡ get_or payload (j + 1) 0
unfolding copy_token
copy_token_byte zero i j payload temp lo hi fits = absurd (omega (arith, lo, hi))
copy_token_byte (suc n) i j payload temp lo hi fits = elim (ne_or_eq j i) [
  | inl later ↦
      copy_token_byte n (i + 1) j payload _ (omega (arith, lo, later)) (omega (arith, hi)) (
        omega (
          arith,
          fits,
          length-set (set temp i (get_or payload (i + 1) 0)) (i + 1) 0,
          length-set temp i (get_or payload (i + 1) 0),
        ))
  | inr here ↦
      copy_token_before n (i + 1) j payload _ (omega (arith, here))
      ∙ get_or-set_ne (set temp i (get_or payload (i + 1) 0)) (i + 1) j 0 0
          (λ e. omega (arith, e, here))
      ∙ rw here (get_or-set_self temp i (get_or payload (i + 1) 0) 0 (omega (arith, fits)))
]

-- the NUL behind them
copy_token_end :
    (n i k : ℕ) (payload temp : Bytes)
    → k ≡ i + suc n
    → k < length temp
    → get_or (copy_token (suc n) i payload temp) k 0 ≡ 0
unfolding copy_token
copy_token_end zero i k payload temp e fits = rw e (
    get_or-set_self (set temp i (get_or payload (i + 1) 0)) (i + 1) 0 0
      (omega (arith, e, fits, length-set temp i (get_or payload (i + 1) 0))))
copy_token_end (suc n) i k payload temp e fits =
    copy_token_end n (i + 1) k payload (set (set temp i (get_or payload (i + 1) 0)) (i + 1) 0)
      (omega (arith, e))
      (omega (
        arith,
        fits,
        length-set (set temp i (get_or payload (i + 1) 0)) (i + 1) 0,
        length-set temp i (get_or payload (i + 1) 0),
      ))

c_string-take : (n : ℕ) (buf : Bytes) → get_or buf n 0 ≡ 0 → c_string buf ≡ c_string (take n buf)
c_string-take zero [] e = refl
c_string-take (suc n) [] e = refl
c_string-take zero (c ∷ cs) e = ground (arith, e)
c_string-take (suc n) (c ∷ cs) e = let ih = c_string-take n cs e in ground (arith, ih)

length-c_string : (buf : Bytes) → length (c_string buf) ≤ length buf
length-c_string [] = omega arith
length-c_string (c ∷ cs) = let ih = length-c_string cs in ground (arith, ih)

add_one : (j : ℕ) → j + 1 ≡ suc j
add_one j = omega arith

get_or-drop_one : (xs : Bytes) (j : ℕ) → get_or (drop 1 xs) j 0 ≡ get_or xs (j + 1) 0
get_or-drop_one [] j = refl
get_or-drop_one (x ∷ xs) j = rw (add_one j) refl

-- For a payload of 33 bytes and a token buffer of 33 bytes with any content, the URL is OTA_URL
-- followed by the bytes 1 to 32 of the payload up to a NUL, and with its own NUL it fits the buffer
-- of 256 bytes.
pub url_of_lem :
    (payload temp : Bytes)
    → length temp ≡ 33
    → length payload ≡ 33
    → (url_of temp payload ≡ ota_url ++ c_string (take 32 (drop 1 payload)))
      × (length (url_of temp payload) < 256)
unfolding url_of
url_of_lem payload temp size size' =
    let copied = copy_token 32 0 payload temp in
    let same : take 32 copied ≡ take 32 (drop 1 payload) =
      take-tabulate 32 copied 0 (omega (arith, size, length-copy_token 32 0 payload temp))
      ∙ tabulate-eq 32 0 _ _ (λ j lo hi.
        copy_token_byte 32 0 j payload temp (omega arith) (omega (arith, hi)) (omega (arith, size))
        ∙ sym (get_or-drop_one payload j))
      ∙ sym (take-tabulate 32 (drop 1 payload) 0 (omega (arith, size', length-drop 1 payload))) in
    let whole : c_string copied ≡ c_string (take 32 (drop 1 payload)) =
      c_string-take 32 copied (copy_token_end 31 0 32 payload temp refl (omega (arith, size)))
      ∙ ap c_string same in
    (
      ap (◌++◌ ota_url) whole,
      rw whole (
          omega
            (arith, length-c_string (take 32 (drop 1 payload)), length-take 32 (drop 1 payload))),
    )
