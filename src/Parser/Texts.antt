-- ===== src/Parser/Texts.antt =====
-- main/parser.c: the JSON scan on a flat object by the texts of its keys and values, wherever they
-- stand in the packet.
use air_shifter_rough.Common.{
  ◌≡◌, ◌⊎◌, refl, ap, ◌∙◌, true, false, ◌||◌, Option, none, some, List, [], ◌∷◌, Bytes, All, ◌==◌,
  if◌then◌else◌, take, length, ℤ, leb, inl, inr,
}
use air_shifter_rough.CLib.{skip_spaces, strtol}
use air_shifter_rough.Platform.{Platform, Token}
use air_shifter_rough.Biz.{Biz, biz_set_rpm, biz_set_angle, biz_set_light, biz_set_power}
use air_shifter_rough.Parser.Fields.{token_to_int}
use air_shifter_rough.Parser.Json.{
  Scan, Key, ssid, pass, speed, angle, light, power, device, timestamp, unknown, key_by, has_text,
  on_int, apply_key, is_string, scan_start, finish_scan, parser_handle_packet_json, jsmn_token_max,
}
use air_shifter_rough.Parser.Pairs.{
  Pair, tokens_of, apply_pair, apply_pairs, IsPlain, parser_handle_packet_json-pairs,
}
use air_shifter_rough.Parser.Spelling.{
  Spells, same_lower, token_text-Spells, token_len-Spells, token_to_cstr_cut, key_of-Spells,
}

-- the texts of a pair
pub record Field : Type 0 where
  pub key : Bytes
  pub value : Bytes

-- the number that a text of 1 to 31 bytes starts with, spaces before it passed over
abbrev pub int_of : Bytes → Option ℤ
int_of s =
    if length s == 0 || leb 32 (length s)
    then none
    else elim (skip_spaces s) [ [] ↦ none | c ∷ cs ↦ strtol (c ∷ cs) ]

-- The effect of a key's value by its text; a string is cut to its buffer, less the NUL.
abbrev pub apply_text : Key → Bytes → Scan → Scan
apply_text ssid v s = record s { ssid = take 32 v; got_ssid = has_text (take 32 v) || s.got_ssid }
apply_text pass v s = record s { pass = take 64 v; got_pass = has_text (take 64 v) || s.got_pass }
apply_text speed v s =
    on_int (int_of v) (λ n. record s { biz = biz_set_rpm n s.biz; handled = true }) s
apply_text angle v s =
    on_int (int_of v) (λ n. record s { biz = biz_set_angle n s.biz; handled = true }) s
apply_text light v s =
    on_int (int_of v) (λ n. record s { biz = biz_set_light n s.biz; handled = true }) s
apply_text power v s =
    on_int (int_of v) (λ n. record s { biz = biz_set_power n s.biz; handled = true }) s
apply_text device v s = record s {
  device = take 63 v;
  got_device = has_text (take 63 v) || s.got_device;
}
apply_text timestamp v s = on_int (int_of v) (λ n. record s { ts = n; got_ts = true }) s
apply_text unknown v s = s

abbrev pub apply_texts : List Field → Scan → Scan
apply_texts [] s = s
apply_texts (f ∷ fs) s = apply_texts fs (apply_text (key_by (same_lower f.key)) f.value s)

-- the pairs of tokens hold these texts, in this order
abbrev pub AreSpelled : Bytes → List Pair → List Field → Type 0
AreSpelled buf [] [] = Unit
AreSpelled buf [] (f ∷ fs) = ⊥
AreSpelled buf (kv ∷ rest) [] = ⊥
AreSpelled buf (kv ∷ rest) (f ∷ fs) =
    Spells buf kv.key f.key × Spells buf kv.value f.value × AreSpelled buf rest fs

token_to_int-Spells :
    (buf : Bytes) (t : Token) (s : Bytes) → Spells buf t s → token_to_int buf t ≡ int_of s
unfolding token_to_int
token_to_int-Spells buf t s x = rw (token_text-Spells buf t s x, token_len-Spells buf t s x) refl

apply_key-Spells :
    (k : Key) (buf : Bytes) (t : Token) (v : Bytes) (s : Scan)
    → Spells buf t v
    → (k ≡ unknown) ⊎ (apply_key k buf t s ≡ some (apply_text k v s))
unfolding apply_key
apply_key-Spells ssid buf t v s x = inr (rw (token_to_cstr_cut buf t v x 32) refl)
apply_key-Spells pass buf t v s x = inr (rw (token_to_cstr_cut buf t v x 64) refl)
apply_key-Spells speed buf t v s x = inr (rw (token_to_int-Spells buf t v x) refl)
apply_key-Spells angle buf t v s x = inr (rw (token_to_int-Spells buf t v x) refl)
apply_key-Spells light buf t v s x = inr (rw (token_to_int-Spells buf t v x) refl)
apply_key-Spells power buf t v s x = inr (rw (token_to_int-Spells buf t v x) refl)
apply_key-Spells device buf t v s x = inr (rw (token_to_cstr_cut buf t v x 63) refl)
apply_key-Spells timestamp buf t v s x = inr (rw (token_to_int-Spells buf t v x) refl)
apply_key-Spells unknown buf t v s x = inl refl

-- A pair has the effect of its texts.
apply_pair-Spells :
    (buf : Bytes) (kv : Pair) (f : Field) (s : Scan)
    → Spells buf kv.key f.key
    → Spells buf kv.value f.value
    → apply_pair buf kv s ≡ apply_text (key_by (same_lower f.key)) f.value s
unfolding apply_key
apply_pair-Spells buf kv f s x y =
    let k = key_of-Spells buf kv.key f.key x in
    elim (apply_key-Spells (key_by (same_lower f.key)) buf kv.value f.value s y) [
      | inl u ↦ rw (apply_pair, k, u) refl
      | inr e ↦ rw (apply_pair, k, e) refl
    ]

apply_pairs-texts :
    (buf : Bytes) (pairs : List Pair) (fs : List Field) (s : Scan)
    → AreSpelled buf pairs fs
    → apply_pairs buf pairs s ≡ apply_texts fs s
apply_pairs-texts buf [] [] s a = refl
apply_pairs-texts buf [] (f ∷ fs) s a = absurd a
apply_pairs-texts buf (kv ∷ rest) [] s a = absurd a
apply_pairs-texts buf (kv ∷ rest) (f ∷ fs) s a =
    ap (apply_pairs buf rest) (apply_pair-Spells buf kv f s a.0 a.1)
    ∙ apply_pairs-texts buf rest fs _ a.2

-- When jsmn gives a token that is no string and then pairs of a string key and a value, where the
-- value of an unknown key is no string, and the spans of the tokens hold the texts of these keys
-- and values, below 4 GiB: the JSON parser gives what applying the texts one by one in their order
-- gives, wherever they stand in the packet. A key is recognised whatever the case of its letters, a
-- string is cut to its buffer less the NUL, and a number is read from a text of 1 to 31 bytes.
pub parser_handle_packet_json-texts :
    (p : Platform) (buf : Bytes) (b : Biz) (o : Token) (pairs : List Pair) (fs : List Field)
    → p.jsmn_parse buf jsmn_token_max ≡ some (o ∷ tokens_of pairs)
    → is_string o.type ≡ false
    → All (IsPlain buf) pairs
    → AreSpelled buf pairs fs
    → parser_handle_packet_json p buf b ≡ finish_scan p (apply_texts fs (scan_start b))
parser_handle_packet_json-texts p buf b o pairs fs parsed object plain spelled =
    parser_handle_packet_json-pairs p buf b o pairs parsed object plain
    ∙ ap (finish_scan p) (apply_pairs-texts buf pairs fs (scan_start b) spelled)
