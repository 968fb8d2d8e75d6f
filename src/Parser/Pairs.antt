-- ===== src/Parser/Pairs.antt =====
-- main/parser.c: the JSON scan on a flat object, as a pass over its pairs of key and value.
use air_shifter_rough.Common.{
  ◌≡◌, ◌≢◌, ◌⊎◌, inl, inr, refl, sym, ap, ◌∙◌, Bool-cases, true, false, none, some, List, [], ◌∷◌,
  Bytes, arith, All, Option-cases,
}
use air_shifter_rough.Platform.{Platform, Token}
use air_shifter_rough.Biz.{Biz}
use air_shifter_rough.Parser.Json.{
  Scan, Key, ssid, unknown, key_of, apply_key, is_string, scan_tokens, scan_start, finish_scan,
  parser_handle_packet_json, jsmn_token_max,
}

pub record Pair : Type 0 where
  pub key : Token
  pub value : Token

-- in the order of jsmn's tokens
abbrev pub tokens_of : List Pair → List Token
tokens_of [] = []
tokens_of (kv ∷ rest) = kv.key ∷ kv.value ∷ tokens_of rest

-- The pair's effect, with none for an unknown key.
abbrev pub apply_pair : Bytes → Pair → Scan → Scan
apply_pair buf kv s = elim (apply_key (key_of buf kv.key) buf kv.value s) [ none ↦ s | some t ↦ t ]

abbrev pub apply_pairs : Bytes → List Pair → Scan → Scan
apply_pairs buf [] s = s
apply_pairs buf (kv ∷ rest) s = apply_pairs buf rest (apply_pair buf kv s)

-- The key is a string, and the value of an unknown key is not one.
abbrev pub IsPlain : Bytes → Pair → Type 0
IsPlain buf kv =
    (is_string kv.key.type ≡ true)
    × ((is_string kv.value.type ≡ false) ⊎ (key_of buf kv.key ≢ unknown))

apply_key_cases :
    (k : Key) (buf : Bytes) (val : Token) (s : Scan)
    → (k ≡ unknown) ⊎ ((t : Scan) × (apply_key k buf val s ≡ some t))
unfolding apply_key
apply_key_cases unknown buf val s = inl refl
apply_key_cases ssid buf val s = inr (_, refl)
apply_key_cases _ buf val s = inr (_, refl)

-- A value that is no string is passed over.
scan_tokens_skip :
    (buf : Bytes) (t : Token) (ts : List Token) (s : Scan)
    → is_string t.type ≡ false
    → scan_tokens buf (t ∷ ts) s ≡ scan_tokens buf ts s
unfolding scan_tokens
scan_tokens_skip buf t [] s e = refl
scan_tokens_skip buf t (u ∷ ts) s e = rw (e, scan_tokens) refl

scan_tokens_nil : (buf : Bytes) (s : Scan) → scan_tokens buf [] s ≡ s
unfolding scan_tokens
scan_tokens_nil buf s = refl

scan_tokens_known :
    (buf : Bytes) (k v : Token) (rest : List Token) (s t : Scan)
    → is_string k.type ≡ true
    → apply_key (key_of buf k) buf v s ≡ some t
    → scan_tokens buf (k ∷ v ∷ rest) s ≡ scan_tokens buf rest t
unfolding scan_tokens
scan_tokens_known buf k v rest s t e f = rw (e, f, scan_tokens) refl

scan_tokens_unknown :
    (buf : Bytes) (k v : Token) (rest : List Token) (s : Scan)
    → apply_key (key_of buf k) buf v s ≡ none
    → scan_tokens buf (k ∷ v ∷ rest) s ≡ scan_tokens buf (v ∷ rest) s
unfolding scan_tokens
scan_tokens_unknown buf k v rest s f = elim (Bool-cases (is_string k.type)) [
  | inl e ↦ rw (e, f, scan_tokens) refl
  | inr e ↦ rw (e, scan_tokens) refl
]

-- Only an unknown key has no effect of its own.
no_effect :
    (k : Key) (buf : Bytes) (val : Token) (s : Scan) → apply_key k buf val s ≡ none → k ≡ unknown
no_effect k buf val s e = elim (apply_key_cases k buf val s) [
  | inl u ↦ u
  | inr (t, f) ↦ absurd (ground (arith, e, f))
]

apply_pair-none :
    (buf : Bytes) (kv : Pair) (s : Scan)
    → apply_key (key_of buf kv.key) buf kv.value s ≡ none
    → apply_pair buf kv s ≡ s
apply_pair-none buf kv s e = rw (e, apply_pair) refl

apply_pair-some :
    (buf : Bytes) (kv : Pair) (s t : Scan)
    → apply_key (key_of buf kv.key) buf kv.value s ≡ some t
    → apply_pair buf kv s ≡ t
apply_pair-some buf kv s t e = rw (e, apply_pair) refl

scan_tokens-tokens_of :
    (buf : Bytes) (pairs : List Pair) (s : Scan)
    → All (IsPlain buf) pairs
    → scan_tokens buf (tokens_of pairs) s ≡ apply_pairs buf pairs s
scan_tokens-tokens_of buf [] s a = scan_tokens_nil buf s
scan_tokens-tokens_of buf (kv ∷ rest) s a =
    elim (Option-cases (apply_key (key_of buf kv.key) buf kv.value s)) [
      | inr (t, e) ↦
          scan_tokens_known buf kv.key kv.value (tokens_of rest) s t a.0.0 e
          ∙ scan_tokens-tokens_of buf rest t a.1
          ∙ ap (apply_pairs buf rest) (sym (apply_pair-some buf kv s t e))
      | inl e ↦
          let plain : is_string kv.value.type ≡ false = elim a.0.1 [
            | inl p ↦ p
            | inr known ↦ absurd (known (no_effect (key_of buf kv.key) buf kv.value s e))
          ] in
          scan_tokens_unknown buf kv.key kv.value (tokens_of rest) s e
          ∙ scan_tokens_skip buf kv.value (tokens_of rest) s plain
          ∙ scan_tokens-tokens_of buf rest s a.1
          ∙ ap (apply_pairs buf rest) (sym (apply_pair-none buf kv s e))
    ]

-- When jsmn gives a token that is no string and then pairs of a string key and a value, where the
-- value of an unknown key is no string, the JSON parser gives what applying the pairs one by one in
-- their order gives: each known key has its effect with its value, and each unknown key none.
pub parser_handle_packet_json-pairs :
    (p : Platform) (buf : Bytes) (b : Biz) (o : Token) (pairs : List Pair)
    → p.jsmn_parse buf jsmn_token_max ≡ some (o ∷ tokens_of pairs)
    → is_string o.type ≡ false
    → All (IsPlain buf) pairs
    → parser_handle_packet_json p buf b ≡ finish_scan p (apply_pairs buf pairs (scan_start b))
unfolding parser_handle_packet_json
parser_handle_packet_json-pairs p buf b o pairs parsed object a =
    rw (parsed, parser_handle_packet_json)
      (ap (finish_scan p) (
        scan_tokens_skip buf o (tokens_of pairs) (scan_start b) object
        ∙ scan_tokens-tokens_of buf pairs (scan_start b) a))
