-- ===== src/Gatt/Sound.antt =====
-- main/gatt_svr.c: what every access keeps of the world.
use air_shifter_rough.Common.{
  ℕ, ◌≡◌, refl, sym, Bool, true, false, some, Bytes, arith, ℤ, length, ◌==◌, ltb, if◌then◌else◌,
  inl, inr, not, ◌⊎◌,
}
use mathlib.Core.Path.{subst}
use air_shifter_rough.Platform.{Platform}
use air_shifter_rough.Security.Invariant.{IsValid, sec_handle_auth_response-IsValid}
use air_shifter_rough.Security.Short.{IsShort, sec_handle_auth_response-IsShort}
use air_shifter_rough.Security.{sec_is_conn_authenticated}
use air_shifter_rough.Biz.{Biz, biz_set_rpm, biz_set_angle, biz_set_light, biz_set_power}
use air_shifter_rough.Biz.Setters.{rpm, angle, light, power, command}
use air_shifter_rough.Parser.{c_string}
use air_shifter_rough.Parser.Queue.{Enqueues}
use air_shifter_rough.Parser.Sound.{command-IsSound, parser_handle_packet-IsSound}
use air_shifter_rough.Parser.Sound
use air_shifter_rough.Gatt.Guard.{reads_keep}
use air_shifter_rough.Gatt.{
  World, Status, done, Op, reads_chr, writes_chr, write_auth, write_value, write_ctrl, write_packet,
  write_chr, gatt_svc_access, gatt_svr_write_flat, is_ctrl, Flat, flat, failed, insufficient_authen,
}

-- The security state is well formed with nonces of at most 16 bytes, and the business logic sound.
pub record IsSound (w : World) : Type 0 where
  pub valid : IsValid w.sec
  pub short : IsShort w.sec
  pub sound : Sound.IsSound w.biz

pub Flat-cases : (r : Flat) → ((code : Status) × (r ≡ failed code)) ⊎ ((bs : Bytes) × (r ≡ flat bs))
Flat-cases (failed code) = inl (code, refl)
Flat-cases (flat bs) = inr (bs, refl)

if-IsSound :
    (b : Bool) (x y : Status × World) → IsSound x.1 → IsSound y.1 → IsSound (if b then x else y).1
if-IsSound true x y s t = s
if-IsSound false x y s t = t

-- the world with other business logic
with_biz : (w : World) (b : Biz) → Sound.IsSound b → IsSound w → IsSound (record w { biz = b })
with_biz w b t s = record { valid = s.valid; short = s.short; sound = t }

module _ (p : Platform) (om : Bytes) (w : World) (s : IsSound w) where
  write_auth-IsSound : (us h : ℕ) → IsSound (write_auth p us h om w).1
  unfolding write_auth
  write_auth-IsSound us h = elim (Flat-cases (gatt_svr_write_flat p om 32 32 32)) [
    | inl (code, e) ↦ rw (e, write_auth) s
    | inr (mac, e) ↦
        rw (e, write_auth)
          (if-IsSound (not (length mac == 32)) _ _ s (record {
            valid = sec_handle_auth_response-IsValid p us h (some mac) w.sec s.valid;
            short = sec_handle_auth_response-IsShort p us h (some mac) w.sec s.short;
            sound = s.sound;
          }))
  ]

  write_value-IsSound :
      (size room : ℕ) (value : Bytes → ℤ) (setter : ℤ → Biz → Biz)
      → ((v : ℤ) → Sound.IsSound (setter v w.biz))
      → IsSound (write_value p om size room value setter w).1
  write_value-IsSound size room value setter keeps =
      elim (Flat-cases (gatt_svr_write_flat p om size size room)) [
        | inl (code, e) ↦ rw (e, write_value) s
        | inr (bs, e) ↦ rw (e, write_value) (with_biz w _ (keeps (value bs)) s)
      ]

  write_ctrl-IsSound : (attr : ℕ) → IsSound (write_ctrl p attr om w).1
  unfolding write_ctrl command
  write_ctrl-IsSound attr =
      if-IsSound (attr == w.ctrl_handles.rpm) _ _
        (write_value-IsSound 4 4 _ biz_set_rpm (λ v. command-IsSound rpm v w.biz s.sound))
        (if-IsSound (attr == w.ctrl_handles.angle) _ _
          (write_value-IsSound 4 4 _ biz_set_angle (λ v. command-IsSound angle v w.biz s.sound))
          (if-IsSound (attr == w.ctrl_handles.light) _ _
            (write_value-IsSound 1 1 _ biz_set_light (λ v. command-IsSound light v w.biz s.sound))
            (write_value-IsSound 1 1 _ biz_set_power (λ v. command-IsSound power v w.biz s.sound))))

  write_packet-IsSound : Enqueues p → IsSound (write_packet p om w).1
  unfolding write_packet
  write_packet-IsSound law = elim (Flat-cases (gatt_svr_write_flat p om 1 128 129)) [
    | inl (code, e) ↦ rw (e, write_packet) s
    | inr (bs, e) ↦
        rw (e, write_packet)
          (if-IsSound (ltb (length bs) 129) _ _
            (with_biz w _ (parser_handle_packet-IsSound p (some (c_string bs)) w.biz law s.sound) s)
            s)
  ]

  write_chr-IsSound : (us h attr : ℕ) → Enqueues p → IsSound (write_chr p us h attr om w).1
  unfolding write_chr
  write_chr-IsSound us h attr law =
      let guarded =
        if-IsSound (not (sec_is_conn_authenticated us h w.sec)) (insufficient_authen, w) in
      if-IsSound (attr == w.sec.auth_char_handle) _ _ (write_auth-IsSound us h) (
        if-IsSound (is_ctrl attr w) _ _ (guarded _ s (write_ctrl-IsSound attr))
          (if-IsSound (attr == w.packet_handle) _ _ (guarded _ s (write_packet-IsSound law)) s))

-- After an access that does not fault the world is as sound as before.
pub gatt_svc_access-IsSound :
    (p : Platform) (us h attr : ℕ) (op : Op) (om om' : Bytes) (code : Status) (w w' : World)
    → Enqueues p
    → IsSound w
    → gatt_svc_access p us h attr op om w ≡ done code om' w'
    → IsSound w'
unfolding gatt_svc_access
gatt_svc_access-IsSound p us h attr writes_chr om om' code w w' law s e =
    let same : (write_chr p us h attr om w).1 ≡ w' = ground arith in
    subst IsSound same (write_chr-IsSound p om w s us h attr law)
gatt_svc_access-IsSound p us h attr reads_chr om om' code w w' law s e =
    subst IsSound (sym (reads_keep p us h attr om om' code w w' e)) s
gatt_svc_access-IsSound p us h attr _ om om' code w w' law s e =
    let same : w ≡ w' = ground arith in subst IsSound same s
