-- ===== src/Security/Replay.antt =====
-- Answers to another challenge: of main/security.c, what a connection that sends one gets.
use air_shifter_rough.Common.{
  ℕ, ◌≡◌, ◌≢◌, refl, ap, ap₂, take, sym, ◌∙◌, false, some, Bytes, Bool-cases, inl, inr,
}
use air_shifter_rough.Platform.{Platform, HmacLength}
use air_shifter_rough.Security.Sessions.{HasRoom}
use air_shifter_rough.Security.Filling.{random_bytes}
use air_shifter_rough.Security.Invariant.{IsValid}
use air_shifter_rough.Security.Connect.{sec_on_connect_opens, sec_on_connect-priv_key}
use air_shifter_rough.Security.Idle.{refused_response}
use air_shifter_rough.Security.Respond.{sec_handle_auth_response_iff, sec_is_conn_authenticated_lem}
use air_shifter_rough.Security.{
  Security, compute_hmac_sha256, sec_on_connect, sec_handle_auth_response,
  sec_is_conn_authenticated,
}

-- In a well formed state with room for the connection and a private key, with an HMAC of 32 bytes:
-- when a connection is made, and the HMACs of some other text and of its challenge under the key
-- differ, then an answer that is the HMAC of the other text, as for the challenge of an earlier or
-- another connection, is refused at every time and changes nothing, and the connection is not
-- authenticated.
pub replay_refused :
    (p : Platform) (random : ℕ → ℕ) (h : ℕ) (key old mac : Bytes) (s : Security) (us us' us'' : ℕ)
    → HmacLength p
    → IsValid s
    → HasRoom h s.conns
    → s.priv_key ≡ some key
    → p.hmac key old ≡ some mac
    → p.hmac key old ≢ p.hmac key (random_bytes random s.nonce_len)
    → let t = sec_on_connect us random h s in
      (sec_handle_auth_response p us' h (some mac) t ≡ (false, t))
      × (sec_is_conn_authenticated us'' h t ≡ false)
unfolding compute_hmac_sha256
replay_refused p random h key old mac s us us' us'' law v room keyed right other =
    let t = sec_on_connect us random h s in
    let (e, x, f) = (sec_on_connect_opens us random h s v room).0 in
    let refused : (sec_handle_auth_response p us' h (some mac) t).0 ≡ false =
      elim (Bool-cases (sec_handle_auth_response p us' h (some mac) t).0) [
        | inr no' ↦ no'
        | inl accepted ↦
            let (d, y, a) = (sec_handle_auth_response_iff p us' h mac t law).0 accepted in
            let same : d ≡ e = cc in
            let nonce = ap (λ z. take z.nonce_len z.nonce) same ∙ f.nonce in
            let priv_key = sec_on_connect-priv_key us random h s ∙ keyed in
            let answer = ap₂ (compute_hmac_sha256 p) (sym priv_key) (sym nonce) ∙ a.right in
            absurd (other (right ∙ sym answer))
      ] in
    (
      refused_response p us' h (some mac) t refused,
      rw (sec_is_conn_authenticated_lem us'' h t, x, f.unproved) refl,
    )
