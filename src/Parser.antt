-- ===== src/Parser.antt =====
-- main/parser.c: the entry points of the packet parser. A packet that looks like JSON goes to the
-- token scan first, and to the legacy parser if that handled nothing.
pub mod Fields
pub mod Json
pub mod Legacy
pub mod Commanded
pub mod Digits
pub mod Commands
pub mod Effects
pub mod Queue
pub mod Sound
pub mod Pairs
pub mod Spelling
pub mod Texts
pub mod JsonLogins
pub mod Logins
mod Tests
use air_shifter_rough.Common.{
  ◌+◌, Bool, true, false, ◌||◌, Option, none, some, [], ◌∷◌, Bytes, ◌==◌, if◌then◌else◌, length, ℤ,
  ℕ,
}
use air_shifter_rough.CLib.{skip_spaces, isspace}
use air_shifter_rough.Platform.{Platform}
use air_shifter_rough.Biz.{Biz}
use Fields.{legacy_extract_str_field, legacy_extract_int_field}
use Json.{parser_handle_packet_json}
use Legacy.{legacy_packet}

abbrev pub looks_like_json : Bytes → Bool
looks_like_json [] = false
looks_like_json (c ∷ cs) = c == b'{' || c == b'['

-- a JSON packet that was not handled goes on to the legacy parser
abbrev pub or_legacy : Platform → Bytes → Bool × Biz → Bool × Biz
or_legacy p buf (true, b) = (true, b)
or_legacy p buf (false, b) = legacy_packet p buf b

-- `none` is a null pointer.
unfoldable pub parser_handle_packet : Platform → Option Bytes → Biz → Bool × Biz
unfolding skip_spaces isspace parser_handle_packet_json legacy_packet
parser_handle_packet p none b = (false, b)
parser_handle_packet p (some buf) b =
    if looks_like_json (skip_spaces buf)
    then or_legacy p buf (parser_handle_packet_json p (skip_spaces buf) b)
    else legacy_packet p buf b

-- the C string in a buffer that ends in a NUL of its own
abbrev pub c_string : Bytes → Bytes
c_string [] = []
c_string (c ∷ cs) = if c == 0 then [] else c ∷ c_string cs

-- The copy with a NUL behind it; `none` is a null pointer.
unfoldable pub parser_handle_packet_buf : Platform → Option Bytes → Biz → Bool × Biz
unfolding parser_handle_packet
parser_handle_packet_buf p none b = (false, b)
parser_handle_packet_buf p (some []) b = (false, b)
parser_handle_packet_buf p (some (c ∷ cs)) b =
    if p.malloc (length (c ∷ cs) + 1)
    then parser_handle_packet p (some (c_string (c ∷ cs))) b
    else (false, b)

unfoldable pub parser_handle_mqtt : Platform → Option Bytes → Biz → Bool × Biz
unfolding parser_handle_packet
parser_handle_mqtt p none b = (false, b)
parser_handle_mqtt p (some []) b = (false, b)
parser_handle_mqtt p (some (c ∷ cs)) b =
    if p.malloc (length (c ∷ cs) + 1)
    then parser_handle_packet p (some (c_string (c ∷ cs))) b
    else (false, b)

unfoldable pub extract_str_field : Bytes → Bytes → Bytes → ℕ → Bool × Bytes
extract_str_field src key out out_len = legacy_extract_str_field src key out out_len

unfoldable pub extract_int_field : Bytes → Bytes → Option ℤ
extract_int_field src key = legacy_extract_int_field src key
