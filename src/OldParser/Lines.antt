-- ===== src/OldParser/Lines.antt =====
-- main/parser-oldbitch1.c: a control command as clients write it, a label, a colon and decimal
-- digits, next to what main/parser.c makes of it.
use air_shifter_rough.Common.{
  ℕ, ◌≤◌, ◌<◌, ◌≡◌, refl, ap, sym, ◌∙◌, Bool, true, false, none, some, List, [], ◌∷◌, Bytes, arith,
  length, All, pos, codes, inl, inr,
}
use air_shifter_rough.Platform.{Platform}
use air_shifter_rough.CLib.{isspace, skip_spaces, strstr, long_max}
use air_shifter_rough.Biz.{Biz}
use air_shifter_rough.Biz.Setters.{Dial, rpm, angle, light, power, command, same_dial}
use air_shifter_rough.Parser.{parser_handle_packet}
use air_shifter_rough.Parser.Fields.{int_at}
use air_shifter_rough.Parser.Digits.{IsDigit, text, value, int_at-text, isspace-digit, ne_digit}
use air_shifter_rough.Parser.Commands.{
  label, line, lower, other_label, no_login, found_label, label_dropped, four_steps,
  parser_handle_packet-line,
}
use air_shifter_rough.OldParser.Fields.{skip_before_int, int_value, extract_int_field}
use air_shifter_rough.OldParser.Packet.{control, controls, is_login, handle_normalized, norm_size}
use air_shifter_rough.OldParser.Braces.{NoBrace, normalize_packet-NoBrace}
use air_shifter_rough.OldParser.Packet

skip_before_int-text :
    (d : ℕ) (ds : List ℕ)
    → All IsDigit (d ∷ ds)
    → skip_before_int (b':' ∷ text (d ∷ ds)) ≡ text (d ∷ ds)
unfolding skip_before_int
skip_before_int-text d ds a =
    let space = isspace-digit d a.0 in
    let colon = ne_digit b':' d (inr (omega arith)) a.0 in
    let equals = ne_digit b'=' d (inr (omega arith)) a.0 in
    let double = ne_digit b'"' d (inl (omega arith)) a.0 in
    let single = ne_digit b'\'' d (inl (omega arith)) a.0 in
    let opens = ne_digit b'{' d (inr (omega arith)) a.0 in
    let closes = ne_digit b'}' d (inr (omega arith)) a.0 in
    let comma = ne_digit b',' d (inl (omega arith)) a.0 in ground arith

int_value-text :
    (d : ℕ) (ds : List ℕ)
    → All IsDigit (d ∷ ds)
    → int_value (text (d ∷ ds)) ≡ int_at (text (d ∷ ds))
int_value-text d ds a =
    let double = ne_digit b'"' d (inl (omega arith)) a.0 in
    let single = ne_digit b'\'' d (inl (omega arith)) a.0 in ground arith

extracts :
    (dial : Dial) (d : ℕ) (ds : List ℕ)
    → All IsDigit (d ∷ ds)
    → value 0 (d ∷ ds) ≤ long_max
    → extract_int_field (line dial (d ∷ ds)) (label dial) ≡ some (pos (value 0 (d ∷ ds)))
unfolding extract_int_field
extracts dial d ds a fits =
    rw (found_label dial (d ∷ ds), extract_int_field)
      (rw (label_dropped dial (d ∷ ds), skip_before_int-text d ds a)
        (int_value-text d ds a ∙ int_at-text d ds a fits))

extracts_none : (src key : Bytes) → strstr src key ≡ none → extract_int_field src key ≡ none
unfolding extract_int_field
extracts_none src key e = rw (e, extract_int_field) refl

passes :
    (d e : Dial) (ds : List ℕ) (x : Bool × Biz)
    → same_dial d e ≡ false
    → All IsDigit ds
    → control (line d ds) (label e) (lower e) (command e) x ≡ x
passes d e ds x ne a =
    let (up, low) = other_label d e ds ne a in
    rw (extracts_none (line d ds) (label e) up, extracts_none (line d ds) (lower e) low, control)
      refl

runs :
    (dial : Dial) (d : ℕ) (ds : List ℕ) (x : Bool × Biz)
    → All IsDigit (d ∷ ds)
    → value 0 (d ∷ ds) ≤ long_max
    → control (line dial (d ∷ ds)) (label dial) (lower dial) (command dial) x
      ≡ (true, command dial (pos (value 0 (d ∷ ds))) x.1)
runs dial d ds x a fits = rw (extracts dial d ds a fits, control) refl

controls-line :
    (dial : Dial) (d : ℕ) (ds : List ℕ) (b : Biz)
    → All IsDigit (d ∷ ds)
    → value 0 (d ∷ ds) ≤ long_max
    → controls (line dial (d ∷ ds)) b ≡ (true, command dial (pos (value 0 (d ∷ ds))) b)
unfolding controls command
controls-line dial d ds b a fits =
    let one : Dial → Bool × Biz → Bool × Biz =
      λ e. control (line dial (d ∷ ds)) (label e) (lower e) (command e) in
    four_steps one dial (λ x. (true, command dial (pos (value 0 (d ∷ ds))) x.1)) (false, b)
      (λ e x ne. passes dial e (d ∷ ds) x ne a) (λ x. runs dial d ds x a fits)

text-NoBrace : (ds : List ℕ) → All IsDigit ds → All NoBrace (text ds)
text-NoBrace [] a = tt
text-NoBrace (d ∷ ds) a = (ne_digit b'}' d (inr (omega arith)) a.0, text-NoBrace ds a.1)

line-NoBrace : (dial : Dial) (ds : List ℕ) → All IsDigit ds → All NoBrace (line dial ds)
line-NoBrace rpm ds a = (refl, (refl, (refl, (refl, (refl, (refl, text-NoBrace ds a))))))
line-NoBrace angle ds a = (refl, (refl, (refl, (refl, (refl, (refl, text-NoBrace ds a))))))
line-NoBrace light ds a = (refl, (refl, (refl, (refl, (refl, (refl, text-NoBrace ds a))))))
line-NoBrace power ds a = (refl, (refl, (refl, (refl, (refl, (refl, text-NoBrace ds a))))))

skip_spaces-line : (dial : Dial) (ds : List ℕ) → skip_spaces (line dial ds) ≡ line dial ds
unfolding skip_spaces isspace
skip_spaces-line rpm ds = refl
skip_spaces-line angle ds = refl
skip_spaces-line light ds = refl
skip_spaces-line power ds = refl

no_login-handle_normalized :
    (p : Platform) (buf : Bytes) (b : Biz)
    → strstr buf (codes "Wifi") ≡ none
    → strstr buf (codes "SSID") ≡ none
    → strstr buf (codes "ssid") ≡ none
    → handle_normalized p buf b ≡ controls buf b
unfolding handle_normalized
no_login-handle_normalized p buf b wifi up low = ground arith

-- On a packet that is a label (Speed, Angle, Light or Power), a colon and one or more decimal
-- digits with a value of at most 2 ^ 31 - 1, and shorter than 256 bytes, the older parser and
-- main/parser.c give the same verdict and the same business logic.
pub parsers_agree :
    (p : Platform) (dial : Dial) (d : ℕ) (ds : List ℕ) (b : Biz)
    → All IsDigit (d ∷ ds)
    → value 0 (d ∷ ds) ≤ long_max
    → length (line dial (d ∷ ds)) < norm_size
    → Packet.parser_handle_packet p (some (line dial (d ∷ ds))) b
      ≡ parser_handle_packet p (some (line dial (d ∷ ds))) b
unfolding Packet.parser_handle_packet
parsers_agree p dial d ds b a fits short =
    let (wifi, up, low) = no_login dial (d ∷ ds) a in
    let buf = line dial (d ∷ ds) in
    ap (λ s. handle_normalized p s b)
      (normalize_packet-NoBrace buf norm_size (line-NoBrace dial (d ∷ ds) a)
        (skip_spaces-line dial (d ∷ ds)) short)
    ∙ no_login-handle_normalized p buf b wifi up low
    ∙ controls-line dial d ds b a fits
    ∙ sym (parser_handle_packet-line p dial d ds b a fits)
