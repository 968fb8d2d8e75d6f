-- ===== src/Gatt/Packets.antt =====
-- main/gatt_svr.c and main/parser.c: packets that are written to the packet characteristic.
use air_shifter_rough.Common.{
  lt→ltb, ℕ, ◌+◌, ◌≤◌, ◌≡◌, ◌≢◌, refl, ap, ◌∙◌, true, false, some, List, [], ◌∷◌, ◌++◌, Bytes,
  arith, ==_no, ==_self, All, length, ltb_no, pos,
}
use air_shifter_rough.CLib.{long_max}
use air_shifter_rough.Platform.{Platform}
use air_shifter_rough.Security.{sec_is_conn_authenticated}
use air_shifter_rough.Biz.{Biz}
use air_shifter_rough.Biz.Setters.{Dial, rpm, angle, light, power, command}
use air_shifter_rough.Parser.Digits.{IsDigit, text, value}
use air_shifter_rough.Parser.Commands.{line, parser_handle_packet-line}
use air_shifter_rough.Parser.{c_string, parser_handle_packet}
use air_shifter_rough.Gatt.Guard.{gatt_svc_access-writes}
use air_shifter_rough.Gatt.{
  World, success, flat, done, writes_chr, is_ctrl, write_packet, write_chr, gatt_svc_access,
  gatt_svr_write_flat,
}

-- digits hold no NUL
c_string-text : (ds : List ℕ) → c_string (text ds) ≡ text ds
c_string-text [] = refl
c_string-text (d ∷ ds) =
    let digit = ==_no (48 + d) 0 (λ e. omega (arith, e)) in
    let ih = c_string-text ds in ground arith

c_string-line : (dial : Dial) (ds : List ℕ) → c_string (line dial ds) ≡ line dial ds
c_string-line rpm ds = ap (λ t. line rpm [] ++ t) (c_string-text ds)
c_string-line angle ds = ap (λ t. line angle [] ++ t) (c_string-text ds)
c_string-line light ds = ap (λ t. line light [] ++ t) (c_string-text ds)
c_string-line power ds = ap (λ t. line power [] ++ t) (c_string-text ds)

-- An mbuf that fits a buffer is copied whole.
abbrev pub Flattens : Platform → Type 0
Flattens p = (bs : Bytes) (room : ℕ) → length bs ≤ room → p.mbuf_to_flat bs room ≡ some bs

-- A write of the right size is flattened.
pub write_flat_fits :
    (p : Platform) (bs : Bytes)
    → Flattens p
    → 1 ≤ length bs
    → length bs ≤ 128
    → gatt_svr_write_flat p bs 1 128 129 ≡ flat bs
unfolding gatt_svr_write_flat
write_flat_fits p bs law nonempty fits =
    let low = ltb_no 1 (length bs) nonempty in
    let high = ltb_no (length bs) 128 fits in
    let held = ltb_no (length bs) 129 (omega (arith, fits)) in
    let whole = law bs 128 fits in ground arith

-- A packet.
pub write_packet_runs :
    (p : Platform) (bs : Bytes) (b' : Biz) (w : World)
    → gatt_svr_write_flat p bs 1 128 129 ≡ flat bs
    → length bs ≤ 128
    → c_string bs ≡ bs
    → parser_handle_packet p (some bs) w.biz ≡ (true, b')
    → write_packet p bs w ≡ (success, record w { biz = b' })
unfolding write_packet
write_packet_runs p bs b' w e fits c r =
    let held = lt→ltb (length bs) 129 (omega (arith, fits)) in
    rw (e, write_packet) (rw (held, c) (rw r refl))

line-long : (dial : Dial) (ds : List ℕ) → 1 ≤ length (line dial ds)
line-long rpm ds = omega arith
line-long _ ds = omega arith

-- An authenticated write to the packet characteristic is a packet.
pub to_packet :
    (p : Platform) (us h : ℕ) (om : Bytes) (w : World)
    → sec_is_conn_authenticated us h w.sec ≡ true
    → w.packet_handle ≢ w.sec.auth_char_handle
    → is_ctrl w.packet_handle w ≡ false
    → write_chr p us h w.packet_handle om w ≡ write_packet p om w
unfolding write_chr
to_packet p us h om w auth ne other =
    let no_match = ==_no w.packet_handle w.sec.auth_char_handle ne in
    let here = ==_self w.packet_handle in ground arith

-- A connection that is authenticated writes to the packet characteristic a label (Speed, Angle,
-- Light or Power), a colon and one or more decimal digits, at most 128 bytes, with a value of at
-- most 2 ^ 31 - 1: the write succeeds, and its effect on the whole state is that of the label's
-- setter with the value. The handle of the packet characteristic is none of the auth and the
-- control handles, and an mbuf that fits a buffer is copied whole.
pub packet_line :
    (p : Platform) (us h : ℕ) (dial : Dial) (d : ℕ) (ds : List ℕ) (w : World)
    → Flattens p
    → sec_is_conn_authenticated us h w.sec ≡ true
    → w.packet_handle ≢ w.sec.auth_char_handle
    → is_ctrl w.packet_handle w ≡ false
    → All IsDigit (d ∷ ds)
    → value 0 (d ∷ ds) ≤ long_max
    → length (line dial (d ∷ ds)) ≤ 128
    → gatt_svc_access p us h w.packet_handle writes_chr (line dial (d ∷ ds)) w
      ≡ done success
          (line dial (d ∷ ds))
          (record w { biz = command dial (pos (value 0 (d ∷ ds))) w.biz })
unfolding gatt_svc_access
packet_line p us h dial d ds w law auth ne other a fits short =
    gatt_svc_access-writes p us h w.packet_handle (line dial (d ∷ ds)) w _ (
      to_packet p us h (line dial (d ∷ ds)) w auth ne other
      ∙ write_packet_runs p (line dial (d ∷ ds)) _ w
          (write_flat_fits p (line dial (d ∷ ds)) law (line-long dial (d ∷ ds)) short) short
          (c_string-line dial (d ∷ ds)) (parser_handle_packet-line p dial d ds w.biz a fits))
