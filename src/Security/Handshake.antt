-- ===== src/Security/Handshake.antt =====
-- The whole handshake of main/security.c: connect, answer, and the window in which it counts.
use air_shifter_rough.Common.{
  ℕ, ◌+◌, ◌/◌, ◌^◌, ◌≤◌, ◌<◌, ◌≡◌, ◌↔◌, refl, ap, ◌∙◌, true, some, Bytes, arith, ==_self,
}
use air_shifter_rough.Platform.{Platform, HmacLength}
use air_shifter_rough.Security.Slots.{Slot}
use air_shifter_rough.Security.Sessions.{session, HasRoom}
use air_shifter_rough.Security.Filling.{random_bytes}
use air_shifter_rough.Security.Invariant.{IsValid}
use air_shifter_rough.Security.Connect.{IsFresh, sec_on_connect_opens, sec_on_connect-priv_key}
use air_shifter_rough.Security.Respond.{
  Answers, refused, accepted, sec_handle_auth_response-Handled, sec_handle_auth_response_iff,
  sec_is_conn_authenticated_lem,
}
use air_shifter_rough.Security.{
  Security, elapsed, now_ms, nonce_lifetime_ms, compute_hmac_sha256, sec_on_connect,
  sec_handle_auth_response, sec_is_conn_authenticated,
}

-- Time that has not run backwards is not wrapped.
elapsed_lem : (now created : ℕ) → created ≤ now → now < 2 ^ 64 → elapsed now created + created ≡ now
elapsed_lem now created h lt = omega arith

live_window :
    (us us'' h : ℕ) (e : Slot) (t : Security)
    → session h t.conns ≡ some e
    → e.authenticated ≡ true
    → e.created_ts_ms ≡ us / 1000
    → us ≤ us''
    → us'' < 2 ^ 63
    → (sec_is_conn_authenticated us'' h t ≡ true) ↔ (us'' / 1000 ≤ us / 1000 + nonce_lifetime_ms)
live_window us us'' h e t x a made order small =
    let time : elapsed (now_ms us'') e.created_ts_ms + us / 1000 ≡ us'' / 1000 =
      rw made (elapsed_lem (us'' / 1000) (us / 1000) (omega arith) (omega arith)) in
    let read = sec_is_conn_authenticated_lem us'' h t in (λ r. ground arith, λ r. ground arith)

module _ (p : Platform) (law : HmacLength p) (random : ℕ → ℕ) (h : ℕ) (key mac : Bytes)
    (s : Security) (v : IsValid s) (room : HasRoom h s.conns) (keyed : s.priv_key ≡ some key)
    (right : p.hmac key (random_bytes random s.nonce_len) ≡ some mac) where
  fresh_Answers :
      (us us' : ℕ) (e : Slot)
      → us ≤ us'
      → us' < 2 ^ 63
      → us' / 1000 ≤ us / 1000 + nonce_lifetime_ms
      → IsFresh us random s.nonce_len h e
      → Answers p us' (sec_on_connect us random h s) e mac
  unfolding compute_hmac_sha256
  fresh_Answers us us' e order small soon f = record {
    in_time =
        rw f.created
          (omega (arith, elapsed_lem (us' / 1000) (us / 1000) (omega arith) (omega arith)));
    right = rw (sec_on_connect-priv_key us random h s) (rw (keyed, f.nonce) right);
  }

-- For a well formed state with room for the connection and a private key: when the connection is
-- made and then answers with the HMAC of the random bytes of its challenge within five minutes, in
-- milliseconds, the answer is accepted, and a later check passes exactly until five minutes after
-- the connection was made. An HMAC has 32 bytes, and the times in microseconds are in order and
-- below 2 ^ 63.
pub handshake :
    (p : Platform) (random : ℕ → ℕ) (h : ℕ) (key mac : Bytes) (s : Security) (us us' us'' : ℕ)
    → HmacLength p
    → IsValid s
    → HasRoom h s.conns
    → s.priv_key ≡ some key
    → p.hmac key (random_bytes random s.nonce_len) ≡ some mac
    → us ≤ us'
    → us' ≤ us''
    → us'' < 2 ^ 63
    → us' / 1000 ≤ us / 1000 + nonce_lifetime_ms
    → let r = sec_handle_auth_response p us' h (some mac) (sec_on_connect us random h s) in
      (r.0 ≡ true)
      × ((sec_is_conn_authenticated us'' h r.1 ≡ true)
          ↔ (us'' / 1000 ≤ us / 1000 + nonce_lifetime_ms))
handshake p random h key mac s us us' us'' law v room keyed right o o' small soon =
    let (e, x, f) = (sec_on_connect_opens us random h s v room).0 in
    let ok = (sec_handle_auth_response_iff p us' h mac (sec_on_connect us random h s) law).1 (
      e,
      x,
      fresh_Answers p law random h key mac s v room keyed right us us' e o (omega arith) soon f,
    ) in
    elim (sec_handle_auth_response-Handled p us' h (some mac) (sec_on_connect us random h s)) [
      | refused r ↦ cc
      | accepted d t r held after ↦
          let same : d ≡ e = cc in
          let marked = record d { authenticated = true } in
          let mine : session h t.conns ≡ some marked = after h ∙ rw (==_self h) refl in
          rw r (
            refl,
            live_window us us'' h marked t mine refl (ap (λ z. z.created_ts_ms) same ∙ f.created)
                (omega arith) small,
          )
    ]
