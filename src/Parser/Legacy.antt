-- ===== src/Parser/Legacy.antt =====
-- main/parser.c: `parser_handle_packet` on a packet of the older plain format.
use air_shifter_rough.Common.{
  ℕ, Bool, true, false, ◌||◌, none, some, Bytes, [], if◌then◌else◌, ℤ, codes,
}
use air_shifter_rough.CLib.{strstr}
use air_shifter_rough.Platform.{Platform}
use air_shifter_rough.Biz.{
  Biz, biz_set_rpm, biz_set_angle, biz_set_light, biz_set_power, biz_apply_wifi_credentials,
}
use air_shifter_rough.Parser.Fields.{
  legacy_extract_str_field, legacy_extract_int_field, make_credentials,
}

abbrev pub contains : Bytes → Bytes → Bool
contains buf key = elim (strstr buf key) [ none ↦ false | some found ↦ true ]

-- if (!got) got = …
abbrev pub or_extract : Bytes → Bytes → ℕ → Bool × Bytes → Bool × Bytes
or_extract buf key out_len (true, out) = (true, out)
or_extract buf key out_len (false, out) = legacy_extract_str_field buf key out out_len

unfoldable pub legacy_ssid : Bytes → Bool × Bytes
unfolding legacy_extract_str_field
legacy_ssid buf = or_extract buf (codes "wifi") 33 (
    or_extract buf (codes "Wifi") 33
      (or_extract buf (codes "ssid") 33 (legacy_extract_str_field buf (codes "SSID") [] 33)))

unfoldable pub legacy_pass : Bytes → Bool × Bytes
unfolding legacy_extract_str_field
legacy_pass buf = or_extract buf (codes "password") 65 (
    or_extract buf (codes "pass") 65
      (or_extract buf (codes "Pass") 65 (legacy_extract_str_field buf (codes "PASS") [] 65)))

-- One control command under its two spellings: the value goes to the setter.
abbrev pub legacy_control : Bytes → Bytes → Bytes → (ℤ → Biz → Biz) → Bool × Biz → Bool × Biz
legacy_control buf key key' setter (handled, b) = elim (legacy_extract_int_field buf key) [
  | some v ↦ (true, setter v b)
  | none ↦ elim (legacy_extract_int_field buf key') [
    | some v ↦ (true, setter v b)
    | none ↦ (handled, b)
  ]
]

unfoldable pub legacy_controls : Bytes → Biz → Bool × Biz
unfolding legacy_extract_int_field
legacy_controls buf b = legacy_control buf (codes "Power") (codes "power") biz_set_power (
    legacy_control buf (codes "Light") (codes "light") biz_set_light (
      legacy_control buf (codes "Angle") (codes "angle") biz_set_angle
        (legacy_control buf (codes "Speed") (codes "speed") biz_set_rpm (false, b))))

unfoldable pub legacy_packet : Platform → Bytes → Biz → Bool × Biz
unfolding strstr legacy_ssid legacy_pass legacy_controls
legacy_packet p buf b =
    if contains buf (codes "Wifi") || contains buf (codes "SSID") || contains buf (codes "ssid")
    then if (legacy_ssid buf).0
      then (
        true,
        biz_apply_wifi_credentials p
            (some (make_credentials (legacy_ssid buf).1 (legacy_pass buf).0 (legacy_pass buf).1)) b,
      )
      else legacy_controls buf b
    else legacy_controls buf b
