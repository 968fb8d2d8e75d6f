-- ===== src/Parser/Json.antt =====
-- main/parser.c: `parser_handle_packet_json`, the scan of the tokens that jsmn finds. The first pass
-- over the tokens only fills locals that are not read again; it has no counterpart here.
use air_shifter_rough.Common.{
  Bool, true, false, not, ◌||◌, Option, none, some, List, [], ◌∷◌, Bytes, ◌==◌, if◌then◌else◌,
  get_or, ℕ, ℤ, pos, codes,
}
use air_shifter_rough.Platform.{Platform, Token, TokenType}
use air_shifter_rough.Biz.{
  Biz, biz_set_rpm, biz_set_angle, biz_set_light, biz_set_power, biz_apply_wifi_credentials,
}
use air_shifter_rough.Parser.Fields.{
  token_equals_key, token_to_cstr, token_to_int, make_credentials,
}

abbrev pub jsmn_token_max : ℕ
jsmn_token_max = 128

-- The locals of the second pass, and the business logic that it calls.
pub record Scan : Type 0 where
  pub ssid : Bytes
  pub got_ssid : Bool
  pub pass : Bytes
  pub got_pass : Bool
  pub device : Bytes
  pub got_device : Bool
  pub ts : ℤ
  pub got_ts : Bool
  pub handled : Bool
  pub biz : Biz

abbrev pub scan_start : Biz → Scan
scan_start b = record {
  ssid = [];
  got_ssid = false;
  pass = [];
  got_pass = false;
  device = [];
  got_device = false;
  ts = pos 0;
  got_ts = false;
  handled = false;
  biz = b;
}

pub data Key : Type 0 where
  ssid pass speed angle light power device timestamp unknown : Key

-- The chain of `if`s over the spellings of the keys, in their order, for a test on spellings.
unfoldable pub key_by : (Bytes → Bool) → Key
key_by is =
    if is (codes "ssid") || is (codes "SSID") || is (codes "wifi") || is (codes "Wifi")
    then ssid
    else if is (codes "pass") || is (codes "PASS") || is (codes "password") || is (codes "pwd")
    then pass
    else if is (codes "speed") || is (codes "Speed")
    then speed
    else if is (codes "angle") || is (codes "Angle")
    then angle
    else if is (codes "light") || is (codes "Light")
    then light
    else if is (codes "power") || is (codes "Power")
    then power
    else if is (codes "device") || is (codes "device_id") || is (codes "id")
    then device
    else if is (codes "ts") || is (codes "time") || is (codes "epoch")
    then timestamp
    else unknown

unfoldable pub key_of : Bytes → Token → Key
unfolding token_equals_key key_by
key_of buf t = key_by (token_equals_key buf t)

-- `out[0]` is not NUL.
abbrev pub has_text : Bytes → Bool
has_text s = not (get_or s 0 0 == 0)

abbrev pub on_int : Option ℤ → (ℤ → Scan) → Scan → Scan
on_int none f s = s
on_int (some v) f s = f v

-- The body of the loop for a known key and its value token; `none` is an unknown key.
unfoldable pub apply_key : Key → Bytes → Token → Scan → Option Scan
unfolding token_to_cstr token_to_int
apply_key ssid buf val s =
    let text = token_to_cstr buf val 33 in
    some (record s { ssid = text; got_ssid = has_text text || s.got_ssid })
apply_key pass buf val s =
    let text = token_to_cstr buf val 65 in
    some (record s { pass = text; got_pass = has_text text || s.got_pass })
apply_key speed buf val s =
    some (
      on_int (token_to_int buf val) (λ v. record s { biz = biz_set_rpm v s.biz; handled = true }) s)
apply_key angle buf val s = some (
    on_int (token_to_int buf val) (λ v. record s { biz = biz_set_angle v s.biz; handled = true }) s)
apply_key light buf val s = some (
    on_int (token_to_int buf val) (λ v. record s { biz = biz_set_light v s.biz; handled = true }) s)
apply_key power buf val s = some (
    on_int (token_to_int buf val) (λ v. record s { biz = biz_set_power v s.biz; handled = true }) s)
apply_key device buf val s =
    let text = token_to_cstr buf val 64 in
    some (record s { device = text; got_device = has_text text || s.got_device })
apply_key timestamp buf val s =
    some (on_int (token_to_int buf val) (λ v. record s { ts = v; got_ts = true }) s)
apply_key unknown buf val s = none

abbrev pub is_string : TokenType → Bool
is_string TokenType.string = true
is_string _ = false

-- The second pass. A key that is known takes its value token with it; any other token is passed
-- over alone.
unfoldable pub scan_tokens : Bytes → List Token → Scan → Scan
unfolding key_of apply_key
scan_tokens buf [] s = s
scan_tokens buf (t ∷ []) s = s
scan_tokens buf (t ∷ val ∷ rest) s = elim (is_string t.type) [
  | false ↦ scan_tokens buf (val ∷ rest) s
  | true ↦ elim (apply_key (key_of buf t) buf val s) [
    | none ↦ scan_tokens buf (val ∷ rest) s
    | some s' ↦ scan_tokens buf rest s'
  ]
]

-- what follows the scan
unfoldable pub finish_scan : Platform → Scan → Bool × Biz
finish_scan p s =
    if s.got_ssid
    then (
      true,
      biz_apply_wifi_credentials p (some (make_credentials s.ssid s.got_pass s.pass)) s.biz,
    )
    else (s.handled, s.biz)

unfoldable pub parser_handle_packet_json : Platform → Bytes → Biz → Bool × Biz
unfolding scan_tokens finish_scan
parser_handle_packet_json p buf b = elim (p.jsmn_parse buf jsmn_token_max) [
  | none ↦ (false, b)
  | some [] ↦ (false, b)
  | some (t ∷ toks) ↦ finish_scan p (scan_tokens buf (t ∷ toks) (scan_start b))
]
