-- ===== src/Gatt/Within.antt =====
-- main/gatt_svr.c: no access writes past its buffer.
use air_shifter_rough.Common.{
  to_int32, ℕ, ◌≤◌, ◌≡◌, ◌≢◌, refl, Bool, true, false, some, Bytes, arith, ℤ, length, not, ltb_no,
  lt→ltb, ◌==◌, if◌then◌else◌, Option-cases, inl, inr,
}
use air_shifter_rough.Platform.{Platform}
use air_shifter_rough.Security.Short.{IsShort, length-sec_get_auth_value}
use air_shifter_rough.Security.{sec_get_auth_value, sec_is_conn_authenticated}
use air_shifter_rough.Biz.{Biz}
use air_shifter_rough.Biz.{biz_set_rpm, biz_set_angle, biz_set_light, biz_set_power}
use air_shifter_rough.Gatt.Sound.{Flat-cases}
use air_shifter_rough.Gatt.{
  u32_of, u8_of, World, Status, is_overrun, flat, failed, fault, Op, reads_chr, writes_chr,
  read_chr, write_auth, write_value, write_ctrl, write_packet, write_chr, gatt_svc_access,
  gatt_svr_write_flat, is_ctrl,
}

-- NimBLE copies at most as many bytes of an mbuf as it is told.
abbrev pub CopiesAtMost : Platform → Type 0
CopiesAtMost p =
    (om bs : Bytes) (max_len : ℕ) → p.mbuf_to_flat om max_len ≡ some bs → length bs ≤ max_len

-- The write stays within its buffers.
abbrev Stays : Status × World → Type 0
Stays r = is_overrun r.0 ≡ false

if-Stays : (b : Bool) (x y : Status × World) → Stays x → Stays y → Stays (if b then x else y)
if-Stays true x y s t = s
if-Stays false x y s t = t

module _ (p : Platform) (law : CopiesAtMost p) (om : Bytes) where
  -- A destination with room for the maximum is not overrun, and receives at most the maximum.
  flat_failed :
      (lo hi room : ℕ) (code : Status)
      → hi ≤ room
      → gatt_svr_write_flat p om lo hi room ≡ failed code
      → is_overrun code ≡ false
  unfolding gatt_svr_write_flat
  flat_failed lo hi room code fits e = elim (Option-cases (p.mbuf_to_flat om hi)) [
    | inl none' ↦ ground arith
    | inr (bs, copied) ↦
        let held = ltb_no (length bs) room (omega (arith, law om bs hi copied, fits)) in
        ground arith
  ]

  flat_length :
      (lo hi room : ℕ) (bs : Bytes) → gatt_svr_write_flat p om lo hi room ≡ flat bs → length bs ≤ hi
  unfolding gatt_svr_write_flat
  flat_length lo hi room bs e = elim (Option-cases (p.mbuf_to_flat om hi)) [
    | inl none' ↦ absurd (ground arith)
    | inr (bs', copied) ↦ let most = law om bs' hi copied in ground arith
  ]

module _ (p : Platform) (law : CopiesAtMost p) (om : Bytes) (w : World) where
  write_auth-Stays : (us h : ℕ) → Stays (write_auth p us h om w)
  unfolding write_auth
  write_auth-Stays us h = elim (Flat-cases (gatt_svr_write_flat p om 32 32 32)) [
    | inl (code, e) ↦
        let held = flat_failed p law om 32 32 32 code (omega arith) e in
        rw (e, write_auth) (ground arith)
    | inr (mac, e) ↦ rw (e, write_auth) (ground arith)
  ]

  write_value-Stays :
      (size : ℕ) (value : Bytes → ℤ) (setter : ℤ → Biz → Biz)
      → Stays (write_value p om size size value setter w)
  write_value-Stays size value setter =
      elim (Flat-cases (gatt_svr_write_flat p om size size size)) [
        | inl (code, e) ↦
            rw (e, write_value) (flat_failed p law om size size size code (omega arith) e)
        | inr (bs, e) ↦ rw (e, write_value) refl
      ]

  write_ctrl-Stays : (attr : ℕ) → Stays (write_ctrl p attr om w)
  unfolding write_ctrl
  write_ctrl-Stays attr =
      let word : Bytes → ℤ = λ bs. to_int32 (u32_of bs) in
      let octet : Bytes → ℤ = λ bs. to_int32 (u8_of bs) in
      if-Stays (attr == w.ctrl_handles.rpm) _ _ (write_value-Stays 4 word biz_set_rpm) (
        if-Stays (attr == w.ctrl_handles.angle) _ _ (write_value-Stays 4 word biz_set_angle) (
          if-Stays (attr == w.ctrl_handles.light) _ _ (write_value-Stays 1 octet biz_set_light)
            (write_value-Stays 1 octet biz_set_power)))

  write_packet-Stays : Stays (write_packet p om w)
  unfolding write_packet
  write_packet-Stays = elim (Flat-cases (gatt_svr_write_flat p om 1 128 129)) [
    | inl (code, e) ↦ rw (e, write_packet) (flat_failed p law om 1 128 129 code (omega arith) e)
    | inr (bs, e) ↦
        let most = flat_length p law om 1 128 129 bs e in
        rw (e, write_packet) (rw (lt→ltb (length bs) 129 (omega (arith, most))) refl)
  ]

  write_chr-Stays : (us h attr : ℕ) → Stays (write_chr p us h attr om w)
  unfolding write_chr
  write_chr-Stays us h attr =
      let guarded = if-Stays (not (sec_is_conn_authenticated us h w.sec)) in
      if-Stays (attr == w.sec.auth_char_handle) _ _ (write_auth-Stays us h) (
        if-Stays (is_ctrl attr w) _ _ (guarded _ _ refl (write_ctrl-Stays attr))
          (if-Stays (attr == w.packet_handle) _ _ (guarded _ _ refl write_packet-Stays) refl))

-- With nonces of at most 16 bytes no access writes past its buffer.
pub gatt_svc_access-IsAnswered :
    (p : Platform) (us h attr : ℕ) (op : Op) (om : Bytes) (w : World)
    → CopiesAtMost p
    → IsShort w.sec
    → gatt_svc_access p us h attr op om w ≢ fault
unfolding gatt_svc_access read_chr
gatt_svc_access-IsAnswered p us h attr reads_chr om w law s e =
    elim (Option-cases (sec_get_auth_value h w.sec)) [
      | inl f ↦ ground arith
      | inr (nonce, f) ↦ let fits = length-sec_get_auth_value h w.sec nonce s f in ground arith
    ]
gatt_svc_access-IsAnswered p us h attr writes_chr om w law s e =
    let stays = write_chr-Stays p law om w us h attr in ground arith
gatt_svc_access-IsAnswered p us h attr _ om w law s e = ground arith
