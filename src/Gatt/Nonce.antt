-- ===== src/Gatt/Nonce.antt =====
-- The read of the challenge in main/gatt_svr.c copies the nonce to a buffer of 16 bytes.
use air_shifter_rough.Common.{
  ℕ, ◌<◌, ◌≡◌, ◌↔◌, ◌⊎◌, inl, inr, refl, true, false, none, some, Bytes, arith, ◌==◌, ==_self,
  length, length-take, take, Option-cases,
}
use air_shifter_rough.Platform.{Platform}
use air_shifter_rough.Security.{sec_get_auth_value}
use air_shifter_rough.Security.Slots.{Slot, slot_at, find_entry}
use air_shifter_rough.Security.Sessions.{session, session-find_entry, session-find_entry-none}
use air_shifter_rough.Security.Invariant.{IsValid, slot_at-HasBuffer}
use air_shifter_rough.Gatt.{World, fault, read_chr, gatt_svc_access, reads_chr}

-- The nonce that is handed out is the whole nonce of the session.
pub sec_get_auth_value_lem :
    (h : ℕ) (w : World)
    → IsValid w.sec
    → ((e : Slot) × (session h w.sec.conns ≡ some e)
        × (length (take e.nonce_len e.nonce) ≡ e.nonce_len)
        × (sec_get_auth_value h w.sec
            ≡ elim (e.nonce_len == 0) [ true ↦ none | false ↦ some (take e.nonce_len e.nonce) ]))
      ⊎ ((session h w.sec.conns ≡ none) × (sec_get_auth_value h w.sec ≡ none))
unfolding sec_get_auth_value
sec_get_auth_value_lem h w v = elim (Option-cases (find_entry h w.sec.conns)) [
  | inl f ↦ inr (session-find_entry-none h w.sec.conns f, rw (f, sec_get_auth_value) refl)
  | inr (i, f) ↦ inl (
    slot_at w.sec.conns i,
    session-find_entry h i w.sec.conns f,
    omega (
      arith,
      length-take (slot_at w.sec.conns i).nonce_len (slot_at w.sec.conns i).nonce,
      (slot_at-HasBuffer w.sec i v).0,
      (slot_at-HasBuffer w.sec i v).1,
    ),
    rw (f, sec_get_auth_value) (ground arith),
  )
]

-- In a well formed state, a read of the auth characteristic writes past its buffer of 16 bytes
-- exactly when the connection has a session with a nonce of more than 16 bytes.
pub read_chr_fault_iff :
    (p : Platform) (us h : ℕ) (om : Bytes) (w : World)
    → IsValid w.sec
    → (gatt_svc_access p us h w.sec.auth_char_handle reads_chr om w ≡ fault)
      ↔ ((e : Slot) × (session h w.sec.conns ≡ some e) × (16 < e.nonce_len))
unfolding gatt_svc_access read_chr
read_chr_fault_iff p us h om w v =
    let here = ==_self w.sec.auth_char_handle in
    elim (sec_get_auth_value_lem h w v) [
      | inl (e, x, size, value) ↦ (λ r. (e, x, ground arith), λ (d, y, big). ground arith)
      | inr (x, value) ↦ (λ r. absurd (ground arith), λ (d, y, big). absurd (ground arith))
    ]
