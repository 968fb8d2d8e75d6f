-- ===== src/Security/Respond.antt =====
-- When `sec_handle_auth_response` of main/security.c accepts, and what a check or a disconnect
-- does to the sessions.
use Prim.Native.Nat.{bit_xor}
use air_shifter_rough.Common.{
  ℕ, zero, suc, ◌+◌, ◌≤◌, ◌<◌, ◌≡◌, ◌≢◌, ◌↔◌, inl, inr, refl, sym, ap, ◌∙◌, Bool, true, false,
  Option, none, some, Bytes, arith, length, take, get_or, Option-cases, ◌==◌, if◌then◌else◌,
  ==_self, ==_no, ne_or_eq, tabulate-eq, take-tabulate, take_all,
}
use air_shifter_rough.Common.Bits.{bit_or-eq-zero_iff, bit_xor-eq-zero_iff}
use air_shifter_rough.Platform.{Platform, HmacLength}
use air_shifter_rough.Security.Slots.{Slot, slot_at, find_entry}
use air_shifter_rough.Security.Sessions.{
  session, session-set, session-set-zeroed, conn_handle-find_entry, session-find_entry,
  session-find_entry-none,
}
use air_shifter_rough.Security.Invariant.{IsValid, respond_at_cases}
use air_shifter_rough.Security.{
  Security, hmac_sha256_len, nonce_lifetime_ms, now_ms, elapsed, diff_loop, mark, check_response,
  compute_hmac_sha256, respond_at, sec_handle_auth_response, is_live, sec_is_conn_authenticated,
  sec_clear_conn,
}

-- The loop over the bytes finds no difference exactly when there is none.
diff_loop-eq-zero :
    (n i diff : ℕ) (a b : Bytes)
    → diff_loop n i diff a b ≡ 0
    → (diff ≡ 0) × ((j : ℕ) → i ≤ j → j < i + n → get_or a j 0 ≡ get_or b j 0)
unfolding diff_loop
diff_loop-eq-zero zero i diff a b h = (h, λ j lo hi. absurd (omega arith))
diff_loop-eq-zero (suc n) i diff a b h =
    let (now, later) = diff_loop-eq-zero n (i + 1) _ a b h in
    let (old, new) = (bit_or-eq-zero_iff diff (bit_xor (get_or a i 0) (get_or b i 0))).0 now in
    (
      old,
      λ j lo hi. elim (ne_or_eq j i) [
        | inr e ↦ rw e ((bit_xor-eq-zero_iff (get_or a i 0) (get_or b i 0)).0 new)
        | inl other ↦ later j (omega arith) (omega arith)
      ],
    )

diff_loop_self : (n i : ℕ) (a : Bytes) → diff_loop n i 0 a a ≡ 0
unfolding diff_loop
diff_loop_self zero i a = refl
diff_loop_self (suc n) i a =
    rw ((bit_xor-eq-zero_iff (get_or a i 0) (get_or a i 0)).1 refl) (diff_loop_self n (i + 1) a)

pub diff_loop_iff :
    (a b : Bytes)
    → length a ≡ 32
    → length b ≡ 32
    → (diff_loop hmac_sha256_len 0 0 a b ≡ 0) ↔ (a ≡ b)
diff_loop_iff a b la lb = (
  λ h.
      sym (take_all 32 a (omega arith))
      ∙ take-tabulate 32 a 0 (omega arith)
      ∙ tabulate-eq 32 0 _ _ (λ j lo hi. (diff_loop-eq-zero 32 0 0 a b h).1 j lo hi)
      ∙ sym (take-tabulate 32 b 0 (omega arith))
      ∙ take_all 32 b (omega arith),
  λ e. rw e (diff_loop_self 32 0 b),
)

-- The response is in time, and is the HMAC of the session's nonce under the private key.
pub record Answers (p : Platform) (us : ℕ) (s : Security) (e : Slot) (mac : Bytes) : Type 0 where
  pub in_time : elapsed (now_ms us) e.created_ts_ms ≤ nonce_lifetime_ms
  pub right : compute_hmac_sha256 p s.priv_key (take e.nonce_len e.nonce) ≡ some mac

length-compute :
    (p : Platform) (key : Option Bytes) (text mac : Bytes)
    → HmacLength p
    → compute_hmac_sha256 p key text ≡ some mac
    → length mac ≡ 32
unfolding compute_hmac_sha256
length-compute p none text mac law e = cc
length-compute p (some key) text mac law e = law key text mac e

respond_at_accepts :
    (p : Platform) (us i : ℕ) (mac expected : Bytes) (s : Security)
    → HmacLength p
    → compute_hmac_sha256 p s.priv_key
        (take (slot_at s.conns i).nonce_len (slot_at s.conns i).nonce)
      ≡ some expected
    → (respond_at p us i (some mac) s).0 ≡ true
    → Answers p us s (slot_at s.conns i) mac
unfolding respond_at check_response
respond_at_accepts p us i mac expected s law c r = record {
  in_time = ground arith;
  right =
      c
      ∙ ap some (
          (diff_loop_iff expected mac (length-compute p s.priv_key _ expected law c)
              (ground arith)).0
            (ground arith));
}

respond_at_iff :
    (p : Platform) (us i : ℕ) (mac : Bytes) (s : Security)
    → HmacLength p
    → ((respond_at p us i (some mac) s).0 ≡ true) ↔ Answers p us s (slot_at s.conns i) mac
unfolding respond_at check_response
respond_at_iff p us i mac s law = (
  λ r.
      elim (Option-cases (
        compute_hmac_sha256 p s.priv_key
          (take (slot_at s.conns i).nonce_len (slot_at s.conns i).nonce))) [
            | inl e ↦ absurd (ground arith)
            | inr (expected, e) ↦ respond_at_accepts p us i mac expected s law e r
          ],
  λ a.
      let size = length-compute p s.priv_key _ mac law a.right in
      let same = diff_loop_self 32 0 mac in ground (arith, a.in_time, a.right),
)

-- When an HMAC has 32 bytes, a response is accepted exactly when its connection has a session whose
-- challenge is not older than five minutes and the response is the HMAC of the session's nonce
-- under the private key.
pub sec_handle_auth_response_iff :
    (p : Platform) (us h : ℕ) (mac : Bytes) (s : Security)
    → HmacLength p
    → ((sec_handle_auth_response p us h (some mac) s).0 ≡ true)
      ↔ ((e : Slot) × (session h s.conns ≡ some e) × Answers p us s e mac)
unfolding sec_handle_auth_response
sec_handle_auth_response_iff p us h mac s law = elim (Option-cases (find_entry h s.conns)) [
  | inl f ↦
      rw (f, sec_handle_auth_response)
        (λ r. cc, λ (e, x, _). let n = session-find_entry-none h s.conns f in cc)
  | inr (i, f) ↦
      rw (f, sec_handle_auth_response)
        (
          λ r. (
            slot_at s.conns i,
            session-find_entry h i s.conns f,
            (respond_at_iff p us i mac s law).0 r,
          ),
          λ (e, x, a).
              let found = session-find_entry h i s.conns f in
              let same : e ≡ slot_at s.conns i = cc in
              (respond_at_iff p us i mac s law).1 (rw same at a),
        )
]

-- What a response does: nothing, or it marks the session of its connection.
pub data Handled (h : ℕ) (s : Security) (r : Bool × Security) : Type 0 where
  refused : r ≡ (false, s) → Handled h s r
  accepted :
      (e : Slot) (t : Security)
      → r ≡ (true, t)
      → session h s.conns ≡ some e
      → ((k : ℕ)
          → session k t.conns
            ≡ (if h == k then some (record e { authenticated = true }) else session k s.conns))
      → Handled h s r

pub sec_handle_auth_response-Handled :
    (p : Platform) (us h : ℕ) (hmac : Option Bytes) (s : Security)
    → Handled h s (sec_handle_auth_response p us h hmac s)
unfolding sec_handle_auth_response
sec_handle_auth_response-Handled p us h hmac s = elim (Option-cases (find_entry h s.conns)) [
  | inl f ↦ refused (rw (f, sec_handle_auth_response) refl)
  | inr (i, f) ↦ elim (respond_at_cases p us i hmac s) [
    | inl e ↦ refused (rw (f, sec_handle_auth_response) e)
    | inr e ↦
        accepted (slot_at s.conns i) (mark i s) (rw (f, sec_handle_auth_response) e)
          (session-find_entry h i s.conns f)
          (λ k.
            session-set h h k i s.conns (record (slot_at s.conns i) { authenticated = true }) f
              (conn_handle-find_entry h i s.conns f) (inr (inl refl)) (ne_or_eq k h))
  ]
]

-- The check reads the session of the connection.
pub sec_is_conn_authenticated_lem :
    (us h : ℕ) (s : Security)
    → sec_is_conn_authenticated us h s
      ≡ elim (session h s.conns) [ none ↦ false | some e ↦ is_live us e ]
unfolding sec_is_conn_authenticated
sec_is_conn_authenticated_lem us h s = elim (Option-cases (find_entry h s.conns)) [
  | inl f ↦ rw (f, sec_is_conn_authenticated) (rw (session-find_entry-none h s.conns f) refl)
  | inr (i, f) ↦ rw (f, sec_is_conn_authenticated) (rw (session-find_entry h i s.conns f) refl)
]

-- In a well formed state, sec_clear_conn of a connection with a handle other than 0 takes its
-- session out of the table, and leaves the session of every other connection with a handle other
-- than 0.
pub sec_clear_conn_removes :
    (h k : ℕ) (s : Security)
    → IsValid s
    → h ≢ 0
    → k ≢ 0
    → session k (sec_clear_conn h s).conns ≡ (if h == k then none else session k s.conns)
unfolding sec_clear_conn
sec_clear_conn_removes h k s v hp kp = elim (Option-cases (find_entry h s.conns)) [
  | inl f ↦
      rw (f, sec_clear_conn)
        (elim (ne_or_eq h k) [
          | inl n ↦ rw (==_no h k n) refl
          | inr e ↦ rw (← e) (rw (==_self h) (session-find_entry-none h s.conns f))
        ])
  | inr (i, f) ↦ rw (f, sec_clear_conn) (session-set-zeroed h k i s.conns f v.distinct hp kp)
]
