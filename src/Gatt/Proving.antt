-- ===== src/Gatt/Proving.antt =====
-- main/gatt_svr.c: the accesses that change the security state.
use air_shifter_rough.Common.{
  to_int32, ℕ, ◌≡◌, ◌⊎◌, inl, inr, refl, ap, sym, ◌∙◌, Bool, true, false, some, Bytes, arith, ℤ,
  not, ◌==◌, ltb, ==_iff, length, if◌then◌else◌, Bool-cases,
}
use air_shifter_rough.Platform.{Platform}
use air_shifter_rough.Security.Idle.{refused_response}
use air_shifter_rough.Security.{sec_handle_auth_response, sec_is_conn_authenticated}
use air_shifter_rough.Biz.{Biz, biz_set_rpm, biz_set_angle, biz_set_light, biz_set_power}
use air_shifter_rough.Gatt.Guard.{IsAccepted, reads_keep}
use air_shifter_rough.Gatt.Sound.{Flat-cases}
use air_shifter_rough.Gatt.{
  World, Status, success, done, Op, reads_chr, writes_chr, is_ctrl, insufficient_authen, write_auth,
  write_value, write_ctrl, write_packet, write_chr, gatt_svc_access, gatt_svr_write_flat, u32_of,
  u8_of,
}

-- Only an answer that is accepted changes it.
pub data Proving (p : Platform) (us h attr : ℕ) (op : Op) (code : Status) (w w' : World)
    : Type 0 where
  idle : w'.sec ≡ w.sec → Proving p us h attr op code w w'
  answered :
      (mac : Bytes)
      → IsAccepted attr op code w
      → sec_handle_auth_response p us h (some mac) w.sec ≡ (true, w'.sec)
      → Proving p us h attr op code w w'

record KeepsSec (w : World) (r : Status × World) : Type 0 where
  same : r.1.sec ≡ w.sec

kept : (w : World) (code : Status) (b : Biz) → KeepsSec w (code, record w { biz = b })
kept w code b = record { same = refl }

if-KeepsSec :
    (w : World) (b : Bool) (x y : Status × World)
    → KeepsSec w x
    → KeepsSec w y
    → KeepsSec w (if b then x else y)
if-KeepsSec w true x y s t = s
if-KeepsSec w false x y s t = t

module _ (p : Platform) (om : Bytes) (w : World) where
  write_value-KeepsSec :
      (size room : ℕ) (value : Bytes → ℤ) (setter : ℤ → Biz → Biz)
      → KeepsSec w (write_value p om size room value setter w)
  write_value-KeepsSec size room value setter =
      elim (Flat-cases (gatt_svr_write_flat p om size size room)) [
        | inl (code, e) ↦ rw (e, write_value) (kept w code w.biz)
        | inr (bs, e) ↦ rw (e, write_value) (kept w success _)
      ]

  write_ctrl-KeepsSec : (attr : ℕ) → KeepsSec w (write_ctrl p attr om w)
  unfolding write_ctrl
  write_ctrl-KeepsSec attr =
      if-KeepsSec w (attr == w.ctrl_handles.rpm) _ _
        (write_value-KeepsSec 4 4 (λ bs. to_int32 (u32_of bs)) biz_set_rpm)
        (if-KeepsSec w (attr == w.ctrl_handles.angle) _ _
          (write_value-KeepsSec 4 4 (λ bs. to_int32 (u32_of bs)) biz_set_angle)
          (if-KeepsSec w (attr == w.ctrl_handles.light) _ _
            (write_value-KeepsSec 1 1 (λ bs. to_int32 (u8_of bs)) biz_set_light)
            (write_value-KeepsSec 1 1 (λ bs. to_int32 (u8_of bs)) biz_set_power)))

  write_packet-KeepsSec : KeepsSec w (write_packet p om w)
  unfolding write_packet
  write_packet-KeepsSec = elim (Flat-cases (gatt_svr_write_flat p om 1 128 129)) [
    | inl (code, e) ↦ rw (e, write_packet) (kept w code w.biz)
    | inr (bs, e) ↦
        rw (e, write_packet)
          (if-KeepsSec w (ltb (length bs) 129) _ _ (kept w success _) (kept w _ w.biz))
  ]

  write_other-KeepsSec :
      (us h attr : ℕ)
      → (attr == w.sec.auth_char_handle) ≡ false
      → KeepsSec w (write_chr p us h attr om w)
  unfolding write_chr
  write_other-KeepsSec us h attr other =
      let guarded =
        if-KeepsSec w (not (sec_is_conn_authenticated us h w.sec)) (insufficient_authen, w) in
      rw other (
        if-KeepsSec w (is_ctrl attr w) _ _ (guarded _ (kept w _ w.biz) (write_ctrl-KeepsSec attr)) (
          if-KeepsSec w (attr == w.packet_handle) _ _
            (guarded _ (kept w _ w.biz) write_packet-KeepsSec) (kept w _ w.biz)))

  -- the write of an answer: nothing, or it is accepted
  write_auth-Proving :
      (us h : ℕ)
      → ((write_auth p us h om w).1.sec ≡ w.sec)
        ⊎ ((mac : Bytes) × ((write_auth p us h om w).0 ≡ success)
            × (sec_handle_auth_response p us h (some mac) w.sec
                ≡ (true, (write_auth p us h om w).1.sec)))
  unfolding write_auth
  write_auth-Proving us h = elim (Flat-cases (gatt_svr_write_flat p om 32 32 32)) [
    | inl (code, e) ↦ inl (rw (e, write_auth) refl)
    | inr (mac, e) ↦ elim (Bool-cases (not (length mac == 32))) [
      | inl short ↦ inl (rw (e, write_auth) (rw short refl))
      | inr whole ↦ elim (Bool-cases (sec_handle_auth_response p us h (some mac) w.sec).0) [
        | inl yes' ↦
            let all : sec_handle_auth_response p us h (some mac) w.sec
                ≡ (true, (sec_handle_auth_response p us h (some mac) w.sec).1) =
              ap (λ b. (b, (sec_handle_auth_response p us h (some mac) w.sec).1)) yes' in
            inr (mac, rw (e, write_auth) (rw (whole, yes') refl), rw (e, write_auth) (rw whole all))
        | inr no' ↦
            let same = refused_response p us h (some mac) w.sec no' in
            inl (rw (e, write_auth) (rw (whole, same) refl))
      ]
    ]
  ]

pub gatt_svc_access-Proving :
    (p : Platform) (us h attr : ℕ) (op : Op) (om om' : Bytes) (code : Status) (w w' : World)
    → gatt_svc_access p us h attr op om w ≡ done code om' w'
    → Proving p us h attr op code w w'
unfolding gatt_svc_access write_chr
gatt_svc_access-Proving p us h attr writes_chr om om' code w w' e =
    elim (Bool-cases (attr == w.sec.auth_char_handle)) [
      | inr other ↦
          let result : (write_chr p us h attr om w).1 ≡ w' = ground (arith, e) in
          idle (ap (λ v. v.sec) (sym result) ∙ (write_other-KeepsSec p om w us h attr other).same)
      | inl here ↦
          let result : write_auth p us h om w ≡ (code, w') = ground (arith, e, here) in
          elim (write_auth-Proving p om w us h) [
            | inl same ↦ idle (ap (λ r. r.1.sec) (sym result) ∙ same)
            | inr (mac, ok, r) ↦
                answered mac
                  (
                    refl,
                    (==_iff attr w.sec.auth_char_handle).0 here,
                    ap (λ x. x.0) (sym result) ∙ ok,
                  )
                  (r ∙ ap (λ x. (true, x.1.sec)) result)
          ]
    ]
gatt_svc_access-Proving p us h attr reads_chr om om' code w w' e =
    idle (ap (λ v. v.sec) (reads_keep p us h attr om om' code w w' e))
gatt_svc_access-Proving p us h attr _ om om' code w w' e = idle (ground arith)
