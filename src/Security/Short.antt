-- ===== src/Security/Short.antt =====
-- Tables of main/security.c whose nonces fit the buffer of 16 bytes that main/gatt_svr.c reads into.
use air_shifter_rough.Common.{
  ℕ, ◌≤◌, ◌≡◌, inl, inr, some, Option, Bytes, arith, All, All-set, All-get_or, All-replicate,
  length, length-take, Option-cases,
}
use air_shifter_rough.Platform.{Platform}
use air_shifter_rough.Security.Slots.{slot_at, zeroed, max_sec_conns, find_entry, free_entry_index}
use air_shifter_rough.Security.Opening.{full, opened, find_or_alloc-Opens, HasShortNonce}
use air_shifter_rough.Security.Invariant.{IsValid, opened-IsValid, respond_at_cases}
use air_shifter_rough.Security.Connect.{challenge-conns}
use air_shifter_rough.Security.{
  Security, statics, sec_init, generate_nonce_for_index, challenge, sec_on_connect,
  sec_handle_auth_response, sec_clear_conn, sec_get_auth_value, update_auth_char_value_and_notify,
}

pub record IsShort (s : Security) : Type 0 where
  pub len : s.nonce_len ≤ 16
  pub slots : All HasShortNonce s.conns

slot_at-HasShortNonce : (s : Security) (i : ℕ) → IsShort s → HasShortNonce (slot_at s.conns i)
slot_at-HasShortNonce s i v = All-get_or HasShortNonce s.conns i zeroed v.slots (omega arith)

pub sec_init-IsShort : IsShort (sec_init statics)
unfolding sec_init
sec_init-IsShort = record {
  len = omega arith;
  slots = All-replicate HasShortNonce max_sec_conns zeroed (omega arith);
}

nonce_len-challenge :
    (us : ℕ) (random : ℕ → ℕ) (i : ℕ) (s : Security)
    → (challenge us random i s).nonce_len ≡ s.nonce_len
unfolding challenge generate_nonce_for_index update_auth_char_value_and_notify
nonce_len-challenge us random i s = ground arith

pub sec_on_connect-IsShort :
    (us : ℕ) (random : ℕ → ℕ) (h : ℕ) (s : Security)
    → IsValid s
    → IsShort s
    → IsShort (sec_on_connect us random h s)
unfolding sec_on_connect
sec_on_connect-IsShort us random h s v short = elim (find_or_alloc-Opens h s.conns) [
  | full e _ _ ↦ rw (e, sec_on_connect) short
  | opened i conns e o _ ↦
      let s' : Security = record s { conns = conns } in
      rw (e, sec_on_connect)
        (record {
          len = omega (arith, nonce_len-challenge us random i s', short.len);
          slots =
              rw (challenge-conns us random h i _ (opened-IsValid s h i conns o v) o.found)
                (All-set HasShortNonce conns i _ (o.short short.slots) short.len);
        })
]

pub sec_handle_auth_response-IsShort :
    (p : Platform) (us h : ℕ) (hmac : Option Bytes) (s : Security)
    → IsShort s
    → IsShort (sec_handle_auth_response p us h hmac s).1
unfolding sec_handle_auth_response
sec_handle_auth_response-IsShort p us h hmac s short = elim (Option-cases (find_entry h s.conns)) [
  | inl e ↦ rw (e, sec_handle_auth_response) short
  | inr (i, f) ↦
      rw (f, sec_handle_auth_response)
        (elim (respond_at_cases p us i hmac s) [
          | inl e ↦ rw e short
          | inr e ↦ rw e (record {
            len = short.len;
            slots = All-set HasShortNonce s.conns i _ short.slots (slot_at-HasShortNonce s i short);
          })
        ])
]

pub sec_clear_conn-IsShort : (h : ℕ) (s : Security) → IsShort s → IsShort (sec_clear_conn h s)
unfolding sec_clear_conn free_entry_index
sec_clear_conn-IsShort h s short = elim (Option-cases (find_entry h s.conns)) [
  | inl e ↦ rw (e, sec_clear_conn) short
  | inr (i, f) ↦
      rw (f, sec_clear_conn)
        (record {
          len = short.len;
          slots = All-set HasShortNonce s.conns i zeroed short.slots (omega arith);
        })
]

-- What is handed out fits the buffer.
pub length-sec_get_auth_value :
    (h : ℕ) (s : Security) (nonce : Bytes)
    → IsShort s
    → sec_get_auth_value h s ≡ some nonce
    → length nonce ≤ 16
unfolding sec_get_auth_value
length-sec_get_auth_value h s nonce short e = elim (Option-cases (find_entry h s.conns)) [
  | inl f ↦ absurd (ground (arith, e, f))
  | inr (i, f) ↦
      let fits = slot_at-HasShortNonce s i short in
      let cut = length-take (slot_at s.conns i).nonce_len (slot_at s.conns i).nonce in
      ground (arith, e, f, fits, cut)
]
