-- ===== src/Gatt/Guard.antt =====
-- main/gatt_svr.c: accesses by connections that are not authenticated.
use air_shifter_rough.Common.{
  ◌||◌, ap, sym, ◌∙◌, ne_or_eq, ==_iff, Bool-cases, ℕ, ◌≡◌, ◌≢◌, inl, inr, refl, Bool, true, false,
  Bytes, arith, ◌==◌, ==_no, Option, none, some, not, ltb, length, if◌then◌else◌, Option-cases,
}
use air_shifter_rough.Platform.{Platform}
use air_shifter_rough.Security.Idle.{refused_response}
use air_shifter_rough.Security.{
  sec_handle_auth_response, sec_is_conn_authenticated, sec_get_auth_value,
}
use air_shifter_rough.Security.Nonce.{word_bytes}
use air_shifter_rough.Biz.{
  biz_get_ctrl_rpm, biz_get_ctrl_angle, biz_get_ctrl_light, biz_get_ctrl_power, biz_get_stat_rpm,
  biz_get_stat_angle, biz_get_stat_light, biz_get_stat_power,
}
use air_shifter_rough.Gatt.{
  insufficient_authen, is_ctrl, World, Status, insufficient_res, success, unlikely, Outcome, fault,
  done, Op, reads_chr, writes_chr, append, byte, read_nonce, read_chr, write_auth, write_chr,
  gatt_svc_access, gatt_svr_write_flat,
}

write_auth-biz :
    (p : Platform) (us h : ℕ) (om : Bytes) (w : World) → (write_auth p us h om w).1.biz ≡ w.biz
unfolding write_auth
write_auth-biz p us h om w = ground arith

-- A write to a control value or to the packet characteristic, which are not the auth
-- characteristic, by a connection that is not authenticated gives BLE_ATT_ERR_INSUFFICIENT_AUTHEN
-- and leaves the whole state as it was.
pub write_chr_refused :
    (p : Platform) (us h attr : ℕ) (om : Bytes) (w : World)
    → sec_is_conn_authenticated us h w.sec ≡ false
    → attr ≢ w.sec.auth_char_handle
    → ((is_ctrl attr w || (attr == w.packet_handle)) ≡ true)
    → write_chr p us h attr om w ≡ (insufficient_authen, w)
unfolding write_chr
write_chr_refused p us h attr om w a ne target =
    let other = ==_no attr w.sec.auth_char_handle ne in ground arith

-- a write that succeeds, as an access
pub gatt_svc_access-writes :
    (p : Platform) (us h attr : ℕ) (om : Bytes) (w w' : World)
    → write_chr p us h attr om w ≡ (success, w')
    → gatt_svc_access p us h attr writes_chr om w ≡ done success om w'
unfolding gatt_svc_access
gatt_svc_access-writes p us h attr om w w' e = rw e refl

write_chr-biz :
    (p : Platform) (us h attr : ℕ) (om : Bytes) (w : World)
    → sec_is_conn_authenticated us h w.sec ≡ false
    → (write_chr p us h attr om w).1.biz ≡ w.biz
unfolding write_chr
write_chr-biz p us h attr om w a = ground (arith, write_auth-biz p us h om w)

-- The outcome leaves the world as it was.
data Keeps (w : World) (x : Outcome) : Type 0 where
  faults : x ≡ fault → Keeps w x
  answers : (code : Status) (om : Bytes) → x ≡ done code om w → Keeps w x

if-Keeps :
    {w : World} (b : Bool) {x y : Outcome} → Keeps w x → Keeps w y → Keeps w (if b then x else y)
if-Keeps true k l = k
if-Keeps false k l = l

module _ (p : Platform) (w : World) where
  append-Keeps : (om bytes : Bytes) → Keeps w (append p om bytes w)
  append-Keeps om bytes = elim (Option-cases (p.mbuf_append om bytes)) [
    | inl e ↦ answers insufficient_res om (ground arith)
    | inr (om', e) ↦ answers success om' (ground arith)
  ]

  read_nonce-Keeps : (om : Bytes) (nonce : Option Bytes) → Keeps w (read_nonce p om nonce w)
  read_nonce-Keeps om none = answers unlikely om refl
  read_nonce-Keeps om (some nonce) =
      if-Keeps (ltb 16 (length nonce)) (faults refl)
        (if-Keeps (not (length nonce == 16)) (answers unlikely om refl) (append-Keeps om nonce))

-- A read changes nothing.
read_chr-Keeps :
    (p : Platform) (h attr : ℕ) (om : Bytes) (w : World) → Keeps w (read_chr p h attr om w)
unfolding read_chr
read_chr-Keeps p h attr om w =
    if-Keeps (attr == w.sec.auth_char_handle) (read_nonce-Keeps p w om (sec_get_auth_value h w.sec))
      (if-Keeps (attr == w.ctrl_handles.rpm)
        (append-Keeps p w om (word_bytes (biz_get_ctrl_rpm w.biz)))
        (if-Keeps (attr == w.ctrl_handles.angle)
          (append-Keeps p w om (word_bytes (biz_get_ctrl_angle w.biz)))
          (if-Keeps (attr == w.ctrl_handles.light)
            (append-Keeps p w om (byte (biz_get_ctrl_light w.biz)))
            (if-Keeps (attr == w.ctrl_handles.power)
              (append-Keeps p w om (byte (biz_get_ctrl_power w.biz)))
              (if-Keeps (attr == w.biz.stat_handles.rpm)
                (append-Keeps p w om (word_bytes (biz_get_stat_rpm w.biz)))
                (if-Keeps (attr == w.biz.stat_handles.angle)
                  (append-Keeps p w om (word_bytes (biz_get_stat_angle w.biz)))
                  (if-Keeps (attr == w.biz.stat_handles.light)
                    (append-Keeps p w om (byte (biz_get_stat_light w.biz)))
                    (if-Keeps (attr == w.biz.stat_handles.power)
                      (append-Keeps p w om (byte (biz_get_stat_power w.biz)))
                      (answers unlikely om refl)))))))))

pub reads_keep :
    (p : Platform) (us h attr : ℕ) (om om' : Bytes) (code : Status) (w w' : World)
    → gatt_svc_access p us h attr reads_chr om w ≡ done code om' w'
    → w' ≡ w
unfolding gatt_svc_access
reads_keep p us h attr om om' code w w' e = elim (read_chr-Keeps p h attr om w) [
  | faults k ↦ cc
  | answers c o k ↦ cc
]

-- An access of any kind, to any attribute, by a connection that is not authenticated, that does not
-- fault, leaves the business logic as it was: the values, the queue of credentials, the
-- notifications and the table of keys.
pub gatt_svc_access_guarded :
    (p : Platform) (us h attr : ℕ) (op : Op) (om om' : Bytes) (code : Status) (w w' : World)
    → sec_is_conn_authenticated us h w.sec ≡ false
    → gatt_svc_access p us h attr op om w ≡ done code om' w'
    → w'.biz ≡ w.biz
unfolding gatt_svc_access
gatt_svc_access_guarded p us h attr writes_chr om om' code w w' a e =
    ground (arith, write_chr-biz p us h attr om w a)
gatt_svc_access_guarded p us h attr reads_chr om om' code w w' a e =
    ap (λ v. v.biz) (reads_keep p us h attr om om' code w w' e)
gatt_svc_access_guarded p us h attr _ om om' code w w' a e = ground arith

write_auth_refused :
    (p : Platform) (us h : ℕ) (om : Bytes) (w : World)
    → (write_auth p us h om w).0 ≢ success
    → (write_auth p us h om w).1 ≡ w
unfolding write_auth gatt_svr_write_flat
write_auth_refused p us h om w n = elim (Option-cases (p.mbuf_to_flat om 32)) [
  | inl e ↦ ground arith
  | inr (mac, e) ↦ elim (Bool-cases (sec_handle_auth_response p us h (some mac) w.sec).0) [
    | inl yes' ↦ ground arith
    | inr no' ↦ let kept = refused_response p us h (some mac) w.sec no' in ground arith
  ]
]

-- The access is an answer to the challenge that is accepted.
abbrev pub IsAccepted : ℕ → Op → Status → World → Type 0
IsAccepted attr op code w = (op ≡ writes_chr) × (attr ≡ w.sec.auth_char_handle) × (code ≡ success)

-- An access of any kind, to any attribute, by a connection that is not authenticated, that does not
-- fault, leaves the whole state as it was, unless it is a write to the auth characteristic that
-- succeeds.
pub gatt_svc_access_keeps :
    (p : Platform) (us h attr : ℕ) (op : Op) (om om' : Bytes) (code : Status) (w w' : World)
    → sec_is_conn_authenticated us h w.sec ≡ false
    → gatt_svc_access p us h attr op om w ≡ done code om' w'
    → ¬ IsAccepted attr op code w
    → w' ≡ w
unfolding gatt_svc_access write_chr
gatt_svc_access_keeps p us h attr reads_chr om om' code w w' a e n =
    reads_keep p us h attr om om' code w w' e
gatt_svc_access_keeps p us h attr writes_chr om om' code w w' a e n =
    elim (ne_or_eq attr w.sec.auth_char_handle) [
      | inl other ↦ let no_match = ==_no attr w.sec.auth_char_handle other in ground arith
      | inr same ↦
          let match = (==_iff attr w.sec.auth_char_handle).1 same in
          let result : write_auth p us h om w ≡ (code, w') = ground arith in
          sym (ap (λ r. r.1) result)
          ∙ write_auth_refused p us h om w (λ s. n (refl, same, sym (ap (λ r. r.0) result) ∙ s))
    ]
gatt_svc_access_keeps p us h attr _ om om' code w w' a e n = ground arith
