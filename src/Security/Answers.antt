-- ===== src/Security/Answers.antt =====
-- An answer to main/security.c, seen as a step of Security/Model.
use air_shifter_rough.Common.{
  ℕ, ◌≡◌, ◌≢◌, inl, inr, refl, sym, ap, ◌∙◌, true, ◌||◌, Option, none, some, Bytes, arith, ◌==◌,
  ltb, if◌then◌else◌, Option-cases,
}
use mathlib.Core.Path.{subst}
use air_shifter_rough.Platform.{Platform, HmacLength}
use air_shifter_rough.Security.Slots.{Slot, find_entry}
use air_shifter_rough.Security.Sessions.{session}
use air_shifter_rough.Security.Invariant.{respond_at_cases}
use air_shifter_rough.Security.Respond.{
  Answers, refused, accepted, sec_handle_auth_response-Handled, sec_handle_auth_response_iff,
}
use air_shifter_rough.Security.History.{responds}
use air_shifter_rough.Security.{
  Security, sec_handle_auth_response, sec_clear_conn, sec_send_nonce_notify, sec_set_nonce_len,
  sec_set_private_key, compute_hmac_sha256, respond_at, update_auth_char_value_and_notify,
}
use air_shifter_rough.Security.Model.{
  Session, Same, IsAnswer, IsRight, new_key, Allowed, accepts, rejects, ignores,
}
use air_shifter_rough.Security.View.{session_of, view, model, unchanged, view-put}

-- A response leaves the key, the nonce length and the attribute's handle.
pub response_keeps :
    (p : Platform) (us h : ℕ) (mac : Option Bytes) (s : Security)
    → let t = (sec_handle_auth_response p us h mac s).1 in
      (t.priv_key ≡ s.priv_key)
      × (t.nonce_len ≡ s.nonce_len)
      × (t.auth_char_handle ≡ s.auth_char_handle)
unfolding sec_handle_auth_response
response_keeps p us h mac s = elim (Option-cases (find_entry h s.conns)) [
  | inl f ↦ rw (f, sec_handle_auth_response) (refl, refl, refl)
  | inr (i, f) ↦ elim (respond_at_cases p us i mac s) [
    | inl e ↦ rw (f, sec_handle_auth_response, e) (refl, refl, refl)
    | inr e ↦ rw (f, sec_handle_auth_response, e) (refl, refl, refl)
  ]
]

Answers-IsAnswer :
    (p : Platform) (us : ℕ) (s : Security) (e : Slot) (mac : Bytes)
    → Answers p us s e mac
    → IsAnswer p us s.priv_key (session_of e) mac
unfolding compute_hmac_sha256
Answers-IsAnswer p us s e mac a = elim (Option-cases s.priv_key) [
  | inl k ↦ absurd (ground (arith, a.right, k))
  | inr (secret, k) ↦ record {
    in_time = a.in_time;
    secret = secret;
    has_key = k;
    right = ground (arith, a.right, k);
  }
]

IsAnswer-Answers :
    (p : Platform) (us : ℕ) (s : Security) (e : Slot) (mac : Bytes)
    → IsAnswer p us s.priv_key (session_of e) mac
    → Answers p us s e mac
unfolding compute_hmac_sha256
IsAnswer-Answers p us s e mac a = record {
  in_time = a.in_time;
  right = ground (arith, a.right, a.has_key);
}

-- a session that the view shows is that of a slot
view-some :
    (o : Option Slot) (x : Session)
    → view o ≡ some x
    → (e : Slot) × (o ≡ some e) × (session_of e ≡ x)
view-some none x h = absurd cc
view-some (some e) x h = (e, refl, ground arith)

right-accepted :
    (p : Platform) (us h : ℕ) (mac : Bytes) (s : Security)
    → HmacLength p
    → IsRight p us (model s) h mac
    → (sec_handle_auth_response p us h (some mac) s).0 ≡ true
right-accepted p us h mac s law (x, found, a) =
    let (e, slot, same) = view-some (session h s.conns) x found in
    (sec_handle_auth_response_iff p us h mac s law).1
      (e, slot, IsAnswer-Answers p us s e mac (rw same a))

-- what else the calls leave
no_answer :
    (p : Platform) (us h : ℕ) (s : Security) → (sec_handle_auth_response p us h none s).0 ≢ true
unfolding sec_handle_auth_response respond_at
no_answer p us h s = ground arith

pub clear_keeps :
    (h : ℕ) (s : Security)
    → ((sec_clear_conn h s).priv_key ≡ s.priv_key) × ((sec_clear_conn h s).nonce_len ≡ s.nonce_len)
unfolding sec_clear_conn
clear_keeps h s = ground arith

pub notify_keeps :
    (h : ℕ) (s : Security)
    → ((sec_send_nonce_notify h s).priv_key ≡ s.priv_key)
      × ((sec_send_nonce_notify h s).nonce_len ≡ s.nonce_len)
unfolding sec_send_nonce_notify update_auth_char_value_and_notify
notify_keeps h s = ground arith

pub key_set :
    (key : Option Bytes) (s : Security)
    → (sec_set_private_key key s).priv_key ≡ new_key key s.priv_key
unfolding sec_set_private_key
key_set key s = ground arith

pub key_keeps :
    (key : Option Bytes) (s : Security) → (sec_set_private_key key s).nonce_len ≡ s.nonce_len
unfolding sec_set_private_key
key_keeps key s = ground arith

pub len_set :
    (n : ℕ) (s : Security)
    → ((sec_set_nonce_len n s).priv_key ≡ s.priv_key)
      × ((sec_set_nonce_len n s).nonce_len ≡ (if n == 0 || ltb 32 n then s.nonce_len else n))
unfolding sec_set_nonce_len
len_set n s = ground arith

pub responds-Allowed :
    (p : Platform) (us h : ℕ) (mac : Option Bytes) (s : Security)
    → HmacLength p
    → Allowed p (responds us h mac) (model s) (model (sec_handle_auth_response p us h mac s).1)
responds-Allowed p us h none s law = elim (sec_handle_auth_response-Handled p us h none s) [
  | refused r ↦ ignores (subst (λ t. Same (model t.1) (model s)) (sym r) (unchanged s))
  | accepted e t r held after ↦ absurd (no_answer p us h s (ground (arith, r)))
]
responds-Allowed p us h (some mac) s law =
    elim (sec_handle_auth_response-Handled p us h (some mac) s) [
      | refused r ↦
          rejects (λ right. let yes' = right-accepted p us h mac s law right in ground (arith, r))
            (subst (λ t. Same (model t.1) (model s)) (sym r) (unchanged s))
      | accepted e t r held after ↦
          let (e', slot, a) =
            (sec_handle_auth_response_iff p us h mac s law).0 (ground (arith, r)) in
          let same : e' ≡ e = ground arith in
          let (key, len, _) = response_keeps p us h (some mac) s in
          let now : (sec_handle_auth_response p us h (some mac) s).1 ≡ t = ap (λ x. x.1) r in
          accepts (session_of e) (ap view held)
            (subst (λ x. IsAnswer p us s.priv_key (session_of x) mac) same
              (Answers-IsAnswer p us s e' mac a))
            (record {
              key = key;
              nonce_len = len;
              table = λ k pos.
                  ap (λ x. view (session k x.conns)) now
                  ∙ ap view (after k)
                  ∙ view-put h k (some (record e { authenticated = true })) (session k s.conns);
            })
    ]
