-- ===== src/Parser/Tests.antt =====
-- Tests of main/parser.c, and its theorems at concrete packets.
use air_shifter_rough.Common.{
  ◌≡◌, inl, List, refl, true, false, some, [], ◌∷◌, Bytes, codes, pos, All, arith,
}
use air_shifter_rough.Platform.{Platform, TokenType}
use mathlib.Core.Path.{subst}
use air_shifter_rough.Testing.{toy, token}
use air_shifter_rough.CLib.{
  isspace, isdigit, skip_spaces, starts_with, strstr, digits_from, tolower, strtol, strtol_sign,
}
use air_shifter_rough.Biz.{Biz, at_boot, biz_set_rpm, biz_apply_wifi_credentials}
use air_shifter_rough.Biz.Setters.{rpm, command}
use air_shifter_rough.Parser.Fields.{
  equal_from, token_equals_key, token_to_int, skip_separators, copy_until, copy_field,
  legacy_extract_str_field, legacy_extract_int_field,
}
use air_shifter_rough.Parser.Json.{
  key_of, apply_key, scan_start, scan_tokens, finish_scan, parser_handle_packet_json,
}
use air_shifter_rough.Parser.Legacy.{legacy_ssid, legacy_pass, legacy_controls, legacy_packet}
use air_shifter_rough.Parser.Effects.{
  Effect, parser_handle_packet-Effect, parser_handle_packet_unhandled,
}
use air_shifter_rough.Parser.Pairs.{Pair, IsPlain, apply_pairs, parser_handle_packet_json-pairs}
use air_shifter_rough.Parser.Texts.{Field, AreSpelled, apply_texts, parser_handle_packet_json-texts}
use air_shifter_rough.Parser.Queue.{
  IsQueueValid, IsWellFormed, Enqueues, parser_handle_packet-IsQueueValid,
}
use air_shifter_rough.Parser.Commands.{parser_handle_packet-line}
use air_shifter_rough.Parser.{parser_handle_packet}

abbrev speed_120 : Bytes
speed_120 = codes "{\"speed\":120}"

abbrev platform : Platform
platform =
    toy (
      token TokenType.object 0 13
      ∷ token TokenType.string 2 7
      ∷ token TokenType.primitive 9 12
      ∷ [])

json_sets_speed :
    parser_handle_packet platform (some speed_120) at_boot ≡ (true, biz_set_rpm (pos 120) at_boot)
unfolding parser_handle_packet skip_spaces isspace isdigit tolower parser_handle_packet_json
    scan_tokens key_of token_equals_key equal_from apply_key token_to_int strtol strtol_sign
    digits_from finish_scan
json_sets_speed = refl

parser_handle_packet-Effect_test :
    Effect platform at_boot (parser_handle_packet platform (some speed_120) at_boot)
parser_handle_packet-Effect_test = parser_handle_packet-Effect platform (some speed_120) at_boot

nothing_known : (parser_handle_packet platform (some (codes "hello")) at_boot).0 ≡ false
unfolding parser_handle_packet skip_spaces isspace legacy_packet strstr starts_with legacy_controls
    legacy_extract_int_field
nothing_known = refl

unhandled_unchanged : (parser_handle_packet platform (some (codes "hello")) at_boot).1 ≡ at_boot
unhandled_unchanged =
    parser_handle_packet_unhandled platform (some (codes "hello")) at_boot nothing_known

parser_handle_packet-line_example :
    parser_handle_packet platform (some (codes "Speed:1200")) at_boot
    ≡ (true, command rpm (pos 1200) at_boot)
parser_handle_packet-line_example =
    parser_handle_packet-line platform rpm 1 (2 ∷ 0 ∷ 0 ∷ []) at_boot
      (omega arith, (omega arith, (omega arith, (omega arith, tt)))) (omega arith)

abbrev with_queue : Biz
with_queue = record at_boot { wifi_cred_queue = some [] }

abbrev login : Bytes
login = codes "SSID=home,PASS=secret"

-- the bare SSID ends at the comma
login_queued :
    (parser_handle_packet platform (some login) with_queue).1.wifi_cred_queue
    ≡ some (record { ssid_len = 4; pass_len = 6; ssid = codes "home"; pass = codes "secret" } ∷ [])
unfolding parser_handle_packet skip_spaces isspace legacy_packet strstr starts_with legacy_ssid
    legacy_pass legacy_extract_str_field skip_separators copy_field copy_until
    biz_apply_wifi_credentials
login_queued = refl

platform-Enqueues : Enqueues platform
platform-Enqueues queue after c e = ground arith

with_queue-IsQueueValid : IsQueueValid with_queue
with_queue-IsQueueValid q e = let empty : [] ≡ q = cc in subst (All IsWellFormed) empty tt

parser_handle_packet-IsQueueValid_test :
    IsQueueValid (parser_handle_packet platform (some login) with_queue).1
parser_handle_packet-IsQueueValid_test =
    parser_handle_packet-IsQueueValid platform (some login) with_queue platform-Enqueues
      with_queue-IsQueueValid

abbrev parsed : List Pair
parsed = record { key = token TokenType.string 2 7; value = token TokenType.primitive 9 12 } ∷ []

parsed-IsPlain : All (IsPlain speed_120) parsed
parsed-IsPlain = ((refl, inl refl), tt)

parser_handle_packet_json-pairs_test :
    parser_handle_packet_json platform speed_120 at_boot
    ≡ finish_scan platform (apply_pairs speed_120 parsed (scan_start at_boot))
parser_handle_packet_json-pairs_test =
    parser_handle_packet_json-pairs platform speed_120 at_boot (token TokenType.object 0 13) parsed
      refl refl parsed-IsPlain

abbrev fields : List Field
fields = record { key = codes "speed"; value = codes "120" } ∷ []

parsed-AreSpelled : AreSpelled speed_120 parsed fields
parsed-AreSpelled = (
  record { rest = codes "\":120}"; here = refl; until = refl; fits = omega arith },
  record { rest = codes "}"; here = refl; until = refl; fits = omega arith },
  tt,
)

parser_handle_packet_json-texts_example :
    parser_handle_packet_json platform speed_120 at_boot
    ≡ finish_scan platform (apply_texts fields (scan_start at_boot))
parser_handle_packet_json-texts_example =
    parser_handle_packet_json-texts platform speed_120 at_boot (token TokenType.object 0 13) parsed
      fields refl refl parsed-IsPlain parsed-AreSpelled
