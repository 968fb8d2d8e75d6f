-- ===== src/Parser/Commands.antt =====
-- main/parser.c: a control command of the older plain format, as clients write it: a label, a colon
-- and decimal digits.
use air_shifter_rough.Common.{
  ℕ, ◌≤◌, ◌≡◌, refl, ap, ◌∙◌, Bool, true, false, none, some, List, ◌∷◌, ◌++◌, Bytes, arith, drop,
  length, All, pos, codes,
}
use air_shifter_rough.Platform.{Platform}
use air_shifter_rough.CLib.{isspace, skip_spaces, starts_with, strstr, long_max}
use air_shifter_rough.Biz.{Biz}
use air_shifter_rough.Biz.Setters.{Dial, rpm, angle, light, power, command, same_dial}
use air_shifter_rough.Parser.Fields.{legacy_extract_int_field}
use air_shifter_rough.Parser.Legacy.{legacy_control, legacy_controls, legacy_packet}
use air_shifter_rough.Parser.{parser_handle_packet}
use air_shifter_rough.Parser.Digits.{
  IsDigit, text, value, strstr-text, skip_separators-text, int_at-text,
}

abbrev pub label : Dial → Bytes
label rpm = codes "Speed"
label angle = codes "Angle"
label light = codes "Light"
label power = codes "Power"

-- a label, a colon and digits
abbrev pub line : Dial → List ℕ → Bytes
line d ds = label d ++ b':' ∷ text ds

abbrev pub lower : Dial → Bytes
lower rpm = codes "speed"
lower angle = codes "angle"
lower light = codes "light"
lower power = codes "power"

-- The line of one dial holds no other label, in neither spelling.
pub other_label :
    (d e : Dial) (ds : List ℕ)
    → same_dial d e ≡ false
    → All IsDigit ds
    → (strstr (line d ds) (label e) ≡ none) × (strstr (line d ds) (lower e) ≡ none)
unfolding strstr starts_with
other_label rpm rpm ds ne a = cc
other_label angle angle ds ne a = cc
other_label light light ds ne a = cc
other_label power power ds ne a = cc
other_label _ _ ds ne a = (strstr-text _ _ ds (omega arith) a, strstr-text _ _ ds (omega arith) a)

pub no_login :
    (d : Dial) (ds : List ℕ)
    → All IsDigit ds
    → (strstr (line d ds) (codes "Wifi") ≡ none)
      × (strstr (line d ds) (codes "SSID") ≡ none)
      × (strstr (line d ds) (codes "ssid") ≡ none)
unfolding strstr starts_with
no_login rpm ds a = (
  strstr-text _ _ ds (omega arith) a,
  strstr-text _ _ ds (omega arith) a,
  strstr-text _ _ ds (omega arith) a,
)
no_login _ ds a = (
  strstr-text _ _ ds (omega arith) a,
  strstr-text _ _ ds (omega arith) a,
  strstr-text _ _ ds (omega arith) a,
)

pub found_label : (d : Dial) (ds : List ℕ) → strstr (line d ds) (label d) ≡ some (line d ds)
unfolding strstr starts_with
found_label rpm ds = refl
found_label angle ds = refl
found_label light ds = refl
found_label power ds = refl

pub label_dropped :
    (dial : Dial) (ds : List ℕ) → drop (length (label dial)) (line dial ds) ≡ b':' ∷ text ds
label_dropped rpm ds = refl
label_dropped angle ds = refl
label_dropped light ds = refl
label_dropped power ds = refl

extracts :
    (dial : Dial) (d : ℕ) (ds : List ℕ)
    → All IsDigit (d ∷ ds)
    → value 0 (d ∷ ds) ≤ long_max
    → legacy_extract_int_field (line dial (d ∷ ds)) (label dial) ≡ some (pos (value 0 (d ∷ ds)))
unfolding legacy_extract_int_field
extracts dial d ds a fits =
    rw (found_label dial (d ∷ ds), legacy_extract_int_field)
      (rw (label_dropped dial (d ∷ ds), skip_separators-text d ds a) (int_at-text d ds a fits))

extracts_none : (src key : Bytes) → strstr src key ≡ none → legacy_extract_int_field src key ≡ none
unfolding legacy_extract_int_field
extracts_none src key e = rw (e, legacy_extract_int_field) refl

passes :
    (d e : Dial) (ds : List ℕ) (x : Bool × Biz)
    → same_dial d e ≡ false
    → All IsDigit ds
    → legacy_control (line d ds) (label e) (lower e) (command e) x ≡ x
passes d e ds x ne a =
    let (up, low) = other_label d e ds ne a in
    rw
      (
        extracts_none (line d ds) (label e) up,
        extracts_none (line d ds) (lower e) low,
        legacy_control,
      )
      refl

runs :
    (dial : Dial) (d : ℕ) (ds : List ℕ) (x : Bool × Biz)
    → All IsDigit (d ∷ ds)
    → value 0 (d ∷ ds) ≤ long_max
    → legacy_control (line dial (d ∷ ds)) (label dial) (lower dial) (command dial) x
      ≡ (true, command dial (pos (value 0 (d ∷ ds))) x.1)
runs dial d ds x a fits = rw (extracts dial d ds a fits, legacy_control) refl

-- Of four steps, of which all but one pass, only that one is left.
pub four_steps :
    (step : Dial → Bool × Biz → Bool × Biz) (dial : Dial) (r : Bool × Biz → Bool × Biz)
    (x : Bool × Biz)
    → ((e : Dial) (y : Bool × Biz) → same_dial dial e ≡ false → step e y ≡ y)
    → ((y : Bool × Biz) → step dial y ≡ r y)
    → step power (step light (step angle (step rpm x))) ≡ r x
four_steps step rpm r x pass run = pass power _ refl ∙ pass light _ refl ∙ pass angle _ refl ∙ run x
four_steps step angle r x pass run =
    pass power _ refl ∙ pass light _ refl ∙ run _ ∙ ap r (pass rpm x refl)
four_steps step light r x pass run =
    pass power _ refl ∙ run _ ∙ ap r (pass angle _ refl ∙ pass rpm x refl)
four_steps step power r x pass run =
    run _ ∙ ap r (pass light _ refl ∙ pass angle _ refl ∙ pass rpm x refl)

controls-line :
    (dial : Dial) (d : ℕ) (ds : List ℕ) (b : Biz)
    → All IsDigit (d ∷ ds)
    → value 0 (d ∷ ds) ≤ long_max
    → legacy_controls (line dial (d ∷ ds)) b ≡ (true, command dial (pos (value 0 (d ∷ ds))) b)
unfolding legacy_controls command
controls-line dial d ds b a fits =
    let one : Dial → Bool × Biz → Bool × Biz =
      λ e. legacy_control (line dial (d ∷ ds)) (label e) (lower e) (command e) in
    four_steps one dial (λ x. (true, command dial (pos (value 0 (d ∷ ds))) x.1)) (false, b)
      (λ e x ne. passes dial e (d ∷ ds) x ne a) (λ x. runs dial d ds x a fits)

-- No label starts like JSON.
plain :
    (p : Platform) (dial : Dial) (ds : List ℕ) (b : Biz)
    → parser_handle_packet p (some (line dial ds)) b ≡ legacy_packet p (line dial ds) b
unfolding parser_handle_packet skip_spaces isspace
plain p rpm ds b = refl
plain p angle ds b = refl
plain p light ds b = refl
plain p power ds b = refl

no_login-legacy_packet :
    (p : Platform) (buf : Bytes) (b : Biz)
    → strstr buf (codes "Wifi") ≡ none
    → strstr buf (codes "SSID") ≡ none
    → strstr buf (codes "ssid") ≡ none
    → legacy_packet p buf b ≡ legacy_controls buf b
unfolding legacy_packet
no_login-legacy_packet p buf b wifi up low = ground arith

-- A packet of the older plain format that is a label (Speed, Angle, Light or Power), a colon and
-- one or more decimal digits with a value of at most 2 ^ 31 - 1 is handled, and has exactly the
-- effect of the label's setter with that value.
pub parser_handle_packet-line :
    (p : Platform) (dial : Dial) (d : ℕ) (ds : List ℕ) (b : Biz)
    → All IsDigit (d ∷ ds)
    → value 0 (d ∷ ds) ≤ long_max
    → parser_handle_packet p (some (line dial (d ∷ ds))) b
      ≡ (true, command dial (pos (value 0 (d ∷ ds))) b)
parser_handle_packet-line p dial d ds b a fits =
    let (wifi, up, low) = no_login dial (d ∷ ds) a in
    plain p dial (d ∷ ds) b
    ∙ no_login-legacy_packet p (line dial (d ∷ ds)) b wifi up low
    ∙ controls-line dial d ds b a fits
