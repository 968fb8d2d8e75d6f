-- ===== src/OldParser/Tests.antt =====
-- Tests of main/parser-oldbitch1.c, and its theorems at concrete packets.
use air_shifter_rough.Common.{
  ◌≡◌, ◌<◌, refl, true, some, [], ◌∷◌, ◌++◌, Bytes, codes, pos, arith, length, take,
}
use air_shifter_rough.Platform.{Platform}
use air_shifter_rough.Testing.{toy}
use air_shifter_rough.CLib.{
  isspace, isdigit, skip_spaces, starts_with, strstr, digits_from, strtol, strtol_sign, atoi,
}
use air_shifter_rough.Biz.{at_boot, biz_set_rpm, biz_apply_wifi_credentials}
use air_shifter_rough.Biz.Setters.{rpm}
use air_shifter_rough.Parser.Fields.{make_credentials, skip_separators}
use air_shifter_rough.Parser.Effects.{Effect}
use air_shifter_rough.Parser.Commands.{line}
use air_shifter_rough.Parser.{parser_handle_packet}
use air_shifter_rough.OldParser.Fields.{
  copy_value, extract_str_field, skip_before_int, extract_int_field, trailing_braces,
  normalize_packet,
}
use air_shifter_rough.OldParser.Packet.{
  packet_ssid, packet_pass, controls, handle_normalized, norm_size,
}
use air_shifter_rough.OldParser.Packet
use air_shifter_rough.OldParser.Braces.{one_brace, normalize_packet-nested}
use air_shifter_rough.OldParser.Lines.{parsers_agree}
use air_shifter_rough.OldParser.Effects.{old_packet-Effect, quoted_name}
use air_shifter_rough.OldParser.Bounds.{buffers_fit}

abbrev platform : Platform
platform = toy []

-- the example in the comment above normalize_packet
abbrev nested : Bytes
nested = codes "{{Fan1},{\"Speed\": 100}}"

nested_normalized :
    normalize_packet (codes "{Fan1},{\"Speed\": 100}}") 256 ≡ codes "\"Speed\": 100}"
unfolding normalize_packet skip_spaces isspace trailing_braces strstr starts_with
nested_normalized = refl

nested_speed :
    Packet.parser_handle_packet platform (some nested) at_boot
    ≡ (true, biz_set_rpm (pos 100) at_boot)
unfolding Packet.parser_handle_packet handle_normalized controls normalize_packet skip_spaces
    isspace isdigit trailing_braces strstr starts_with extract_int_field skip_before_int atoi strtol
    strtol_sign digits_from
nested_speed = refl

-- Both extractors answer at the end of the text too.
empty_field : extract_str_field (codes "SSID:") (codes "SSID") [] 33 ≡ (true, [])
unfolding extract_str_field strstr starts_with skip_separators copy_value
empty_field = refl

normalize_packet-nested_example :
    normalize_packet (codes "{{Fan1" ++ (codes "},{" ++ (codes "\"Speed\": 100" ++ codes "}}"))) 256
    ≡ take 255 (codes "\"Speed\": 100" ++ one_brace 2)
unfolding isspace
normalize_packet-nested_example =
    normalize_packet-nested (codes "{{Fan1") b'"' (codes "Speed\": 100") 2 256
      (refl, (refl, (refl, (refl, (refl, (refl, tt)))))) refl refl (omega arith)

parsers_agree_example :
    Packet.parser_handle_packet platform (some (line rpm (1 ∷ 2 ∷ []))) at_boot
    ≡ parser_handle_packet platform (some (line rpm (1 ∷ 2 ∷ []))) at_boot
parsers_agree_example =
    parsers_agree platform rpm 1 (2 ∷ []) at_boot (omega arith, (omega arith, tt)) (omega arith)
      (omega arith)

old_packet-Effect_test :
    Effect platform at_boot (Packet.parser_handle_packet platform (some nested) at_boot)
old_packet-Effect_test = old_packet-Effect platform (some nested) at_boot

abbrev quoted : Bytes
quoted = codes "{\"SSID\":\"home\"}"

quoted_name_test : handle_normalized platform quoted at_boot ≡ (
  true,
  biz_apply_wifi_credentials platform
      (some (make_credentials (codes ":") (packet_pass quoted).0 (packet_pass quoted).1))
      at_boot,
)
quoted_name_test = quoted_name platform (codes "home\"}") at_boot

buffers_fit_example :
    let norm = normalize_packet nested norm_size in
    (length norm < norm_size)
    × (length (packet_ssid norm).1 < 33)
    × (length (packet_pass norm).1 < 65)
buffers_fit_example = buffers_fit nested
