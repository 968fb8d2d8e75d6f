-- ===== src/OldParser/Bounds.antt =====
-- main/parser-oldbitch1.c: the strings in the three buffers of a packet's parse fit them.
use air_shifter_rough.Common.{
  ℕ, ◌<◌, Bool, true, false, [], Bytes, arith, length, length-take, Option-cases, Bool-cases, inl,
  inr, codes, drop, ◌∷◌, ◌==◌, ◌||◌,
}
use air_shifter_rough.CLib.{strstr, skip_spaces}
use air_shifter_rough.Parser.Fields.{ends_word, skip_separators}
use air_shifter_rough.OldParser.Fields.{
  copy_len, trailing_braces, until, clamped, copy_value, extract_str_field, capped, payload,
  normalize_packet,
}
use air_shifter_rough.OldParser.Packet.{or_extract_str, packet_ssid, packet_pass, norm_size}

clamped-fits : (n : ℕ) (s : Bytes) → 0 < n → length (clamped n s) < n
clamped-fits n s room = let size = length-take (capped n (length s)) s in ground arith

copy_value-fits : (n : ℕ) (s : Bytes) → 0 < n → length (copy_value n s) < n
unfolding copy_value
copy_value-fits n [] room = room
copy_value-fits n (c ∷ cs) room = elim (Bool-cases (c == b'\'' || c == b'"')) [
  | inl e ↦ rw (e, copy_value) (clamped-fits n (until (λ d. d == c) cs) room)
  | inr e ↦ rw (e, copy_value) (clamped-fits n (until ends_word (c ∷ cs)) room)
]

extract-fits :
    (src key out : Bytes) (n : ℕ) → length out < n → length (extract_str_field src key out n).1 < n
unfolding extract_str_field
extract-fits src key out n h = elim (Option-cases (strstr src key)) [
  | inl e ↦ rw (e, extract_str_field) h
  | inr (found, e) ↦
      rw (e, extract_str_field)
        (copy_value-fits n (skip_separators (drop (length key) found)) (omega arith))
]

or_extract-fits :
    (p key : Bytes) (n : ℕ) (x : Bool × Bytes)
    → length x.1 < n
    → length (or_extract_str p key n x).1 < n
or_extract-fits p key n (true, out) h = h
or_extract-fits p key n (false, out) h = extract-fits p key out n h

normalize_packet-fits : (src : Bytes) (n : ℕ) → 0 < n → length (normalize_packet src n) < n
unfolding normalize_packet
normalize_packet-fits src n room =
    let s = skip_spaces (payload src) in
    let count = copy_len (length s) (trailing_braces (length s) s) in
    let size = length-take (capped n count) s in ground arith

packet_ssid-fits : (p : Bytes) → length (packet_ssid p).1 < 33
unfolding packet_ssid
packet_ssid-fits p =
    or_extract-fits p (codes "ssid") 33 (extract_str_field p (codes "SSID") [] 33)
      (extract-fits p (codes "SSID") [] 33 (omega arith))

packet_pass-fits : (p : Bytes) → length (packet_pass p).1 < 65
unfolding packet_pass
packet_pass-fits p =
    let first = extract_str_field p (codes "PASS") [] 65 in
    let second = or_extract_str p (codes "Pass") 65 first in
    or_extract-fits p (codes "pass") 65 second (
      or_extract-fits p (codes "Pass") 65 first (extract-fits p (codes "PASS") [] 65 (omega arith)))

-- For every packet, the normalised text has fewer than 256 bytes, and the name and the password
-- that the older parser extracts from it have fewer than 33 and 65, so that each fits its buffer
-- with the NUL.
pub buffers_fit :
    (buf : Bytes)
    → let norm = normalize_packet buf norm_size in
      (length norm < norm_size)
      × (length (packet_ssid norm).1 < 33)
      × (length (packet_pass norm).1 < 65)
buffers_fit buf =
    let norm = normalize_packet buf norm_size in
    (
      normalize_packet-fits buf norm_size (omega arith),
      packet_ssid-fits norm,
      packet_pass-fits norm,
    )
