-- ===== src/OldParser/Packet.antt =====
-- main/parser-oldbitch1.c: `parser_handle_packet`.
use air_shifter_rough.Common.{
  ℕ, Bool, true, false, ◌||◌, Option, none, some, Bytes, [], if◌then◌else◌, ℤ, codes,
}
use air_shifter_rough.Platform.{Platform}
use air_shifter_rough.CLib.{strstr}
use air_shifter_rough.Biz.{
  Biz, biz_set_rpm, biz_set_angle, biz_set_light, biz_set_power, biz_apply_wifi_credentials,
}
use air_shifter_rough.Parser.Fields.{make_credentials}
use air_shifter_rough.Parser.Legacy.{contains}
use air_shifter_rough.OldParser.Fields.{extract_str_field, extract_int_field, normalize_packet}

-- if (!got) got = …, and the right side of `||`
abbrev pub or_extract_str : Bytes → Bytes → ℕ → Bool × Bytes → Bool × Bytes
or_extract_str p key out_len (true, out) = (true, out)
or_extract_str p key out_len (false, out) = extract_str_field p key out out_len

unfoldable pub packet_ssid : Bytes → Bool × Bytes
unfolding extract_str_field
packet_ssid p = or_extract_str p (codes "ssid") 33 (extract_str_field p (codes "SSID") [] 33)

unfoldable pub packet_pass : Bytes → Bool × Bytes
unfolding extract_str_field
packet_pass p =
    or_extract_str p (codes "pass") 65
      (or_extract_str p (codes "Pass") 65 (extract_str_field p (codes "PASS") [] 65))

-- `none` where neither spelling gives a value
abbrev pub or_int : Option ℤ → Option ℤ → Option ℤ
or_int (some v) w = some v
or_int none w = w

abbrev pub run_setter : Option ℤ → (ℤ → Biz → Biz) → Bool × Biz → Bool × Biz
run_setter none setter x = x
run_setter (some v) setter x = (true, setter v x.1)

-- one control command under its two spellings
abbrev pub control : Bytes → Bytes → Bytes → (ℤ → Biz → Biz) → Bool × Biz → Bool × Biz
control p key key' setter x =
    run_setter (or_int (extract_int_field p key) (extract_int_field p key')) setter x

unfoldable pub controls : Bytes → Biz → Bool × Biz
unfolding extract_int_field
controls p b = control p (codes "Power") (codes "power") biz_set_power (
    control p (codes "Light") (codes "light") biz_set_light (
      control p (codes "Angle") (codes "angle") biz_set_angle
        (control p (codes "Speed") (codes "speed") biz_set_rpm (false, b))))

abbrev pub is_login : Bytes → Bool
is_login p = contains p (codes "Wifi") || contains p (codes "SSID") || contains p (codes "ssid")

-- the packet after the normalisation
unfoldable pub handle_normalized : Platform → Bytes → Biz → Bool × Biz
unfolding strstr packet_ssid packet_pass controls
handle_normalized p norm b =
    if is_login norm
    then if (packet_ssid norm).0
      then (
        true,
        biz_apply_wifi_credentials p
            (some (make_credentials (packet_ssid norm).1 (packet_pass norm).0 (packet_pass norm).1))
            b,
      )
      else (false, b)
    else controls norm b

abbrev pub norm_size : ℕ
norm_size = 256

-- `none` is a null pointer.
unfoldable pub parser_handle_packet : Platform → Option Bytes → Biz → Bool × Biz
unfolding normalize_packet handle_normalized
parser_handle_packet p none b = (false, b)
parser_handle_packet p (some buf) b = handle_normalized p (normalize_packet buf norm_size) b
