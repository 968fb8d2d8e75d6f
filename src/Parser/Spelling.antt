-- ===== src/Parser/Spelling.antt =====
-- main/parser.c: tokens by the text that they stand for, as its helpers read them.
use air_shifter_rough.Common.{
  ℕ, zero, suc, ◌+◌, ◌-◌, ◌≤◌, ◌<◌, ◌≡◌, ◌^◌, refl, ap, sym, ◌∙◌, Bool, true, false, ◌&&◌, [], ◌∷◌,
  ◌++◌, Bytes, arith, ◌==◌, ==_no, ==_iff, leb, leb→le, get_or, drop, take, take_all, length,
  Bool-cases, inl, inr, ne_or_eq,
}
use mathlib.Core.Path.{fun_ext}
use air_shifter_rough.CLib.{tolower}
use air_shifter_rough.Platform.{Token}
use air_shifter_rough.Parser.Fields.{
  token_len, token_text, equal_from, token_equals_key, token_to_cstr,
}
use air_shifter_rough.Parser.Json.{key_by, key_of}

-- The token's span in the text holds these bytes.
pub record Spells (buf : Bytes) (t : Token) (s : Bytes) : Type 0 where
  pub rest : Bytes
  pub here : drop t.start buf ≡ s ++ rest
  pub until : t.end ≡ t.start + length s
  pub fits : t.end < 2 ^ 32

-- equal up to the case of letters
abbrev pub same_lower : Bytes → Bytes → Bool
same_lower [] [] = true
same_lower [] (d ∷ ds) = false
same_lower (c ∷ cs) [] = false
same_lower (c ∷ cs) (d ∷ ds) = tolower c == tolower d && same_lower cs ds

get_or-drop : (n i : ℕ) (xs : Bytes) → get_or (drop n xs) i 0 ≡ get_or xs (n + i) 0
get_or-drop zero i xs = ap (λ j. get_or xs j 0) (omega arith)
get_or-drop (suc n) i [] = refl
get_or-drop (suc n) i (x ∷ xs) =
    let one : suc (n + i) ≡ suc n + i = omega arith in
    get_or-drop n i xs ∙ ap (λ j. get_or (x ∷ xs) j 0) one

equal_from-lower :
    (buf : Bytes) (t : Token) (key rest : Bytes) (i : ℕ) (a b : Bytes)
    → length a ≡ length b
    → ((j : ℕ) → get_or buf (t.start + (i + j)) 0 ≡ get_or (a ++ rest) j 0)
    → ((j : ℕ) → get_or key (i + j) 0 ≡ get_or b j 0)
    → equal_from (length b) i buf t key ≡ same_lower a b
unfolding equal_from
equal_from-lower buf t key rest i [] [] l p q = refl
equal_from-lower buf t key rest i [] (d ∷ ds) l p q = absurd (omega (arith, l))
equal_from-lower buf t key rest i (c ∷ cs) [] l p q = absurd (omega (arith, l))
equal_from-lower buf t key rest i (c ∷ cs) (d ∷ ds) l p q =
    let ih =
      equal_from-lower buf t key rest (i + 1) cs ds (omega (arith, l))
        (λ j. ap (λ k. get_or buf (t.start + k) 0) (omega arith) ∙ p (suc j))
        (λ j. ap (λ k. get_or key k 0) (omega arith) ∙ q (suc j)) in
    let here : get_or buf (t.start + i) 0 ≡ c =
      ap (λ k. get_or buf (t.start + k) 0) (omega arith) ∙ p 0 in
    let there : get_or key i 0 ≡ d = ap (λ k. get_or key k 0) (omega arith) ∙ q 0 in
    rw (here, there, ih) refl

take-prefix : (xs ys : Bytes) → take (length xs) (xs ++ ys) ≡ xs
take-prefix [] ys = refl
take-prefix (x ∷ xs) ys = ap (◌∷◌ x) (take-prefix xs ys)

take_inside : (n : ℕ) (xs ys : Bytes) → suc n ≤ length xs → take n (xs ++ ys) ≡ take n xs
take_inside zero xs ys h = refl
take_inside (suc n) [] ys h = absurd (omega (arith, h))
take_inside (suc n) (x ∷ xs) ys h = ap (◌∷◌ x) (take_inside n xs ys (omega arith))

same_lower-lengths : (a b : Bytes) → same_lower a b ≡ true → length a ≡ length b
same_lower-lengths [] [] e = refl
same_lower-lengths [] (d ∷ ds) e = absurd cc
same_lower-lengths (c ∷ cs) [] e = absurd cc
same_lower-lengths (c ∷ cs) (d ∷ ds) e = ap suc (same_lower-lengths cs ds (ground (arith, e)))

module _ (buf : Bytes) (t : Token) (s : Bytes) (x : Spells buf t s) where
  pub token_len-Spells : token_len t ≡ length s
  token_len-Spells = omega (arith, x.until, x.fits)

  pub token_text-Spells : token_text buf t ≡ s
  token_text-Spells = rw (token_len-Spells, x.here) (take-prefix s x.rest)

  -- a buffer of n + 1 bytes gets the text, cut to n
  pub token_to_cstr_cut : (n : ℕ) → token_to_cstr buf t (suc n) ≡ take n s
  unfolding token_to_cstr
  token_to_cstr_cut n = elim (Bool-cases (leb (suc n) (length s))) [
    | inl long ↦
        let less : suc n - 1 ≡ n = omega arith in
        rw (token_len-Spells, long, x.here, less)
          (take_inside n s x.rest (leb→le (suc n) (length s) long))
    | inr short ↦
        let fits : length s ≤ n = ground (arith, short) in
        rw (token_len-Spells, short, x.here) (take-prefix s x.rest ∙ sym (take_all n s fits))
  ]

  pub token_equals_key-Spells : (key : Bytes) → token_equals_key buf t key ≡ same_lower s key
  unfolding token_equals_key
  token_equals_key-Spells key = elim (ne_or_eq (length s) (length key)) [
    | inl other ↦
        let no = ==_no (length s) (length key) other in
        let len = token_len-Spells in
        rw (len, no)
          (sym (elim (Bool-cases (same_lower s key)) [
            | inl yes' ↦ absurd (other (same_lower-lengths s key yes'))
            | inr differs ↦ differs
          ]))
    | inr same ↦
        let yes' = (==_iff (length s) (length key)).1 same in
        let len = token_len-Spells in
        rw (len, yes')
          (equal_from-lower buf t key x.rest 0 s key same
            (λ j.
              ap (λ k. get_or buf (t.start + k) 0) (omega arith)
              ∙ sym (get_or-drop t.start j buf)
              ∙ ap (λ bs. get_or bs j 0) x.here)
            (λ j. ap (λ k. get_or key k 0) (omega arith)))
  ]

pub key_of-Spells :
    (buf : Bytes) (t : Token) (s : Bytes) → Spells buf t s → key_of buf t ≡ key_by (same_lower s)
unfolding key_of
key_of-Spells buf t s x = ap key_by (fun_ext (token_equals_key-Spells buf t s x))
