-- ===== src/OldParser/Braces.antt =====
-- main/parser-oldbitch1.c: `normalize_packet` on texts without a closing brace and on a nested pair.
use air_shifter_rough.Common.{
  ℕ, zero, suc, ◌+◌, ◌-◌, ◌≤◌, ◌<◌, ◌≡◌, refl, ap, sym, ◌∙◌, false, none, some, [], ◌∷◌, ◌++◌,
  Bytes, arith, leb, ◌==◌, get_or, take, take_all, length, replicate, All, All-get_or, codes,
  Bool-cases, inl, inr, leb→le, length-take, get_or-append_left, get_or-append_right,
  get_or-replicate, take-append_right, take-take, length-append, length-replicate,
}
use air_shifter_rough.CLib.{isspace, skip_spaces, starts_with, strstr}
use air_shifter_rough.OldParser.Fields.{
  trailing_braces, payload, copy_len, capped, without_extra_braces, normalize_packet,
}

abbrev pub NoBrace : ℕ → Type 0
NoBrace c = (c == b'}') ≡ false

abbrev pub braces : ℕ → Bytes
braces n = replicate n b'}'

trailing_braces_none : (i : ℕ) (s : Bytes) → All NoBrace s → trailing_braces i s ≡ 0
unfolding trailing_braces
trailing_braces_none zero s a = refl
trailing_braces_none (suc i) s a = let other = All-get_or NoBrace s i 0 a refl in ground arith

strstr-NoBrace : (s : Bytes) → All NoBrace s → strstr s (codes "},{") ≡ none
unfolding strstr starts_with
strstr-NoBrace [] a = refl
strstr-NoBrace (c ∷ cs) a = let ih = strstr-NoBrace cs a.1 in let other = a.0 in ground arith

-- a text that is short, has no closing brace and no space in front stays as it is
pub normalize_packet-NoBrace :
    (s : Bytes) (out_len : ℕ)
    → All NoBrace s
    → skip_spaces s ≡ s
    → length s < out_len
    → normalize_packet s out_len ≡ s
unfolding normalize_packet
normalize_packet-NoBrace s out_len a tight short =
    let whole = take_all (length s) s (omega arith) in
    let found = strstr-NoBrace s a in
    let none_trails = trailing_braces_none (length s) s a in ground arith

-- the loop counts the closing braces at the end
trailing_braces-replicate :
    (p : Bytes) (n k : ℕ)
    → k ≤ n
    → trailing_braces (k + length p) (p ++ (braces n))
      ≡ k + trailing_braces (length p) (p ++ (braces n))
unfolding trailing_braces
trailing_braces-replicate p n zero h = let i : 0 + length p ≡ length p = omega arith in ground arith
trailing_braces-replicate p n (suc k) h =
    let here = get_or-append_right p (braces n) k 0 ∙ get_or-replicate n k b'}' 0 h in
    let ih = trailing_braces-replicate p n k (omega arith) in
    let i : suc k + length p ≡ suc (k + length p) = omega arith in ground arith

trailing_braces_stop :
    (c : ℕ) (cs q : Bytes)
    → NoBrace (get_or (c ∷ cs) (length cs) 0)
    → trailing_braces (length (c ∷ cs)) ((c ∷ cs) ++ q) ≡ 0
unfolding trailing_braces
trailing_braces_stop c cs q other =
    let here = get_or-append_left (c ∷ cs) q (length cs) 0 (omega arith) in ground arith

strstr-found :
    (head rest : Bytes)
    → All NoBrace head
    → strstr (head ++ (codes "},{" ++ rest)) (codes "},{") ≡ some (codes "},{" ++ rest)
unfolding strstr starts_with
strstr-found [] rest a = refl
strstr-found (c ∷ cs) rest a = let ih = strstr-found cs rest a.1 in let other = a.0 in ground arith

-- of some closing braces at most one
abbrev pub one_brace : ℕ → Bytes
one_brace zero = []
one_brace (suc n) = codes "}"

length-braces : (n : ℕ) → length (braces n) ≡ n
length-braces n = length-replicate n b'}'

take-braces :
    (p : Bytes) (n : ℕ)
    → take (copy_len (length (p ++ braces n)) n) (p ++ braces n) ≡ p ++ one_brace n
take-braces p zero = take_all (length (p ++ [])) (p ++ []) (omega arith)
take-braces p (suc n) =
    let total : length (p ++ braces (suc n)) ≡ length p + suc n =
      length-append p (braces (suc n)) ∙ ap (λ k. length p + k) (length-braces (suc n)) in
    let size : copy_len (length (p ++ braces (suc n))) (suc n) ≡ 1 + length p = ground arith in
    ap (λ k. take k (p ++ braces (suc n))) size ∙ take-append_right p (braces (suc n)) 1

take-capped :
    (out_len n : ℕ) (s : Bytes)
    → 0 < out_len
    → take (capped out_len n) s ≡ take (out_len - 1) (take n s)
take-capped out_len n s room = elim (Bool-cases (leb out_len n)) [
  | inl e ↦
      let le = leb→le out_len n e in
      rw (e, capped) (sym (take-take (out_len - 1) n s (omega arith)))
  | inr e ↦
      let lt : n < out_len = ground arith in
      let size = length-take n s in
      rw (e, capped) (sym (take_all (out_len - 1) (take n s) (omega arith)))
]

-- For a text without a closing brace, then "},{", then a payload that starts with no space and ends
-- with no closing brace, then n closing braces: the normalisation into a buffer of at least one
-- byte leaves the payload, with one closing brace if n is not 0, cut to one byte less than the
-- buffer.
pub normalize_packet-nested :
    (head : Bytes) (c : ℕ) (cs : Bytes) (n out_len : ℕ)
    → All NoBrace head
    → isspace c ≡ false
    → NoBrace (get_or (c ∷ cs) (length cs) 0)
    → 0 < out_len
    → normalize_packet (head ++ (codes "},{" ++ ((c ∷ cs) ++ (braces n)))) out_len
      ≡ take (out_len - 1) ((c ∷ cs) ++ one_brace n)
unfolding normalize_packet skip_spaces
normalize_packet-nested head c cs n out_len a tight last room =
    let q = (c ∷ cs) ++ braces n in
    let found : payload (head ++ (codes "},{" ++ q)) ≡ q =
      rw (strstr-found head q a, payload) refl in
    let first : skip_spaces q ≡ q = ground arith in
    let trails : trailing_braces (length q) q ≡ n =
      let size : length q ≡ n + length (c ∷ cs) =
        omega (arith, length-append (c ∷ cs) (braces n), length-braces n) in
      ap (λ i. trailing_braces i q) size
      ∙ trailing_braces-replicate (c ∷ cs) n n (omega arith)
      ∙ omega (arith, trailing_braces_stop c cs (braces n) last) in
    ap (λ s. without_extra_braces out_len (skip_spaces s)) found
    ∙ ap (without_extra_braces out_len) first
    ∙ ap (λ t. take (capped out_len (copy_len (length q) t)) q) trails
    ∙ take-capped out_len _ q room
    ∙ ap (take (out_len - 1)) (take-braces (c ∷ cs) n)
