-- ===== src/Parser/JsonLogins.antt =====
-- main/parser.c: Wi-Fi credentials in a JSON packet.
use air_shifter_rough.Common.{
  ℕ, ◌≤◌, ◌≡◌, ◌≢◌, refl, ap, ap₂, sym, ◌∙◌, true, false, some, List, [], ◌∷◌, Bytes, take_all,
  length, codes, inr, ==_no,
}
use air_shifter_rough.CLib.{skip_spaces, tolower}
use air_shifter_rough.Platform.{Platform, Token}
use air_shifter_rough.Biz.{Biz, biz_apply_wifi_credentials}
use air_shifter_rough.Parser.Json.{
  ssid, pass, unknown, key_by, has_text, is_string, scan_start, finish_scan, jsmn_token_max,
}
use air_shifter_rough.Parser.Pairs.{Pair, tokens_of}
use air_shifter_rough.Parser.Logins.{credentials, make_credentials-whole}
use air_shifter_rough.Parser.Spelling.{Spells, same_lower, key_of-Spells}
use air_shifter_rough.Parser.Texts.{apply_text, parser_handle_packet_json-texts}
use air_shifter_rough.Parser.{parser_handle_packet}

-- jsmn's tokens for an object with the keys ssid and pass, in this order.
pub record LoginTokens (buf name word : Bytes) (ts : List Token) : Type 0 where
  pub object : Token
  pub name_pair : Pair
  pub word_pair : Pair
  pub tokens : ts ≡ object ∷ tokens_of (name_pair ∷ word_pair ∷ [])
  pub object_type : is_string object.type ≡ false
  pub key_type : is_string name_pair.key.type ≡ true
  pub key_type' : is_string word_pair.key.type ≡ true
  pub key : Spells buf name_pair.key (codes "ssid")
  pub key' : Spells buf word_pair.key (codes "pass")
  pub value : Spells buf name_pair.value name
  pub value' : Spells buf word_pair.value word

named : key_by (same_lower (codes "ssid")) ≡ ssid
unfolding key_by tolower
named = refl

named' : key_by (same_lower (codes "pass")) ≡ pass
unfolding key_by tolower
named' = refl

unknown_no : unknown ≢ ssid
unknown_no e = cc

unknown_no' : unknown ≢ pass
unknown_no' e = cc

-- what the scan finishes with
login_scan :
    (p : Platform) (b : Biz) (name word : Bytes)
    → has_text name ≡ true
    → has_text word ≡ true
    → length name ≤ 32
    → length word ≤ 64
    → finish_scan p (apply_text pass word (apply_text ssid name (scan_start b)))
      ≡ (true, biz_apply_wifi_credentials p (some (credentials name word)) b)
unfolding finish_scan
login_scan p b name word text text' fits fits' =
    rw (take_all 32 name fits, take_all 64 word fits', text, text')
      (ap (λ c. (true, biz_apply_wifi_credentials p (some c) b))
        (make_credentials-whole name word fits fits'))

starts : (c : ℕ) (cs : Bytes) → c ≢ 0 → has_text (c ∷ cs) ≡ true
starts c cs lead = rw (==_no c 0 lead) refl

-- A JSON packet with a name of 1 to 32 bytes and a password of 1 to 64, neither of which starts
-- with a NUL, is handled as these credentials, wherever its texts stand.
pub parser_handle_packet-json_login :
    (p : Platform) (json : Bytes) (b : Biz) (ts : List Token) (c : ℕ) (cs : Bytes) (d : ℕ)
    (ds : Bytes)
    → let buf = b'{' ∷ json in
      p.jsmn_parse buf jsmn_token_max ≡ some ts
      → LoginTokens buf (c ∷ cs) (d ∷ ds) ts
      → length (c ∷ cs) ≤ 32
      → length (d ∷ ds) ≤ 64
      → c ≢ 0
      → d ≢ 0
      → parser_handle_packet p (some buf) b
        ≡ (true, biz_apply_wifi_credentials p (some (credentials (c ∷ cs) (d ∷ ds))) b)
unfolding parser_handle_packet skip_spaces
parser_handle_packet-json_login p json b ts c cs d ds parsed x fits fits' lead lead' =
    let buf = b'{' ∷ json in
    let k = key_of-Spells buf x.name_pair.key (codes "ssid") x.key ∙ named in
    let k' = key_of-Spells buf x.word_pair.key (codes "pass") x.key' ∙ named' in
    let scanned =
      parser_handle_packet_json-texts p buf b x.object (x.name_pair ∷ x.word_pair ∷ [])
        (record { key = codes "ssid"; value = c ∷ cs }
          ∷ record { key = codes "pass"; value = d ∷ ds }
          ∷ [])
        (parsed ∙ ap some x.tokens) x.object_type
        (
          (x.key_type, inr (λ e. unknown_no (sym e ∙ k))),
          ((x.key_type', inr (λ e. unknown_no' (sym e ∙ k'))), tt),
        )
        (x.key, x.value, (x.key', x.value', tt)) in
    let meant =
      ap₂ (λ a a'. finish_scan p (apply_text a' (d ∷ ds) (apply_text a (c ∷ cs) (scan_start b))))
        named named'
      ∙ login_scan p b (c ∷ cs) (d ∷ ds) (starts c cs lead) (starts d ds lead') fits fits' in
    rw (scanned ∙ meant) refl
