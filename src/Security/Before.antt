-- ===== src/Security/Before.antt =====
-- Where a session that a call of main/security.c leaves comes from.
use air_shifter_rough.Common.{
  ℕ, ◌≤◌, ◌/◌, ◌≡◌, ◌≢◌, ◌⊎◌, inl, inr, refl, sym, ◌∙◌, true, false, Option, none, some, Bytes,
  arith, ==_no, ==_self, ne_or_eq, Option-cases,
}
use mathlib.Core.Path.{subst}
use air_shifter_rough.Platform.{Platform}
use air_shifter_rough.Security.Slots.{Slot, zeroed, find_entry, free_entry_index}
use air_shifter_rough.Security.Sessions.{session, session-set}
use air_shifter_rough.Security.Invariant.{IsValid}
use air_shifter_rough.Security.Connect.{sec_on_connect_isolates, sec_on_connect-IsNew}
use air_shifter_rough.Security.Respond.{
  refused, accepted, sec_handle_auth_response-Handled, sec_clear_conn_removes,
  sec_is_conn_authenticated_lem,
}
use air_shifter_rough.Security.{
  Security, sec_on_connect, sec_clear_conn, sec_handle_auth_response, now_ms, elapsed,
  nonce_lifetime_ms, is_live, sec_is_conn_authenticated,
}

-- a slot of a connection that was made at the time
abbrev pub IsNew : ℕ → Slot → Type 0
IsNew us e = (e.created_ts_ms ≡ us / 1000) × (e.authenticated ≡ false)

-- the connection has a session, and the session has the property
abbrev pub HasSession : (Slot → Type 0) → ℕ → Security → Type 0
HasSession P h s = (e : Slot) × (session h s.conns ≡ some e) × P e

sec_clear_conn_spares :
    (h k : ℕ) (s : Security)
    → k ≢ 0
    → h ≢ k
    → session k (sec_clear_conn h s).conns ≡ session k s.conns
unfolding sec_clear_conn free_entry_index
sec_clear_conn_spares h k s pos other = elim (Option-cases (find_entry h s.conns)) [
  | inl f ↦ rw (f, sec_clear_conn) refl
  | inr (i, f) ↦
      rw (f, sec_clear_conn)
        (session-set h 0 k i s.conns zeroed f refl (inl pos) (inl (λ e. other (sym e)))
          ∙ rw (==_no 0 k (λ e. pos (sym e))) refl)
]

module _ (P : Slot → Type 0) (h : ℕ) where
  -- a session that is the same in both states
  carried :
      (s t : Security) → session h t.conns ≡ session h s.conns → HasSession P h t → HasSession P h s
  carried s t same (e, x, a) = (e, sym same ∙ x, a)

  -- a session after a connection was made
  pub made :
      (us : ℕ) (random : ℕ → ℕ) (k : ℕ) (s : Security)
      → IsValid s
      → h ≢ 0
      → HasSession P h (sec_on_connect us random k s)
      → ((k ≢ h) × HasSession P h s) ⊎ ((k ≡ h) × (e : Slot) × P e × IsNew us e)
  made us random k s v pos (e, x, a) =
      let t = sec_on_connect us random k s in
      elim (ne_or_eq k h) [
        | inl other ↦ inl (
          other,
          carried s t (sec_on_connect_isolates us random k h s v pos (λ y. other (sym y)))
              (e, x, a),
        )
        | inr same ↦
            let mine : session k t.conns ≡ some e =
              subst (λ j. session j t.conns ≡ some e) (sym same) x in
            inr (same, e, a, sec_on_connect-IsNew us random k s e v mine)
      ]

  -- a session after a connection was ended
  pub ended :
      (k : ℕ) (s : Security)
      → IsValid s
      → h ≢ 0
      → HasSession P h (sec_clear_conn k s)
      → (k ≢ h) × HasSession P h s
  ended k s v pos (e, x, a) =
      let t = sec_clear_conn k s in
      elim (ne_or_eq k h) [
        | inl other ↦ (other, carried s t (sec_clear_conn_spares k h s pos other) (e, x, a))
        | inr same ↦
            let mine : session k t.conns ≡ some e =
              subst (λ j. session j t.conns ≡ some e) (sym same) x in
            let pos' : k ≢ 0 = λ z. pos (sym same ∙ z) in
            let gone : session k t.conns ≡ none =
              sec_clear_conn_removes k k s v pos' pos' ∙ rw (==_self k) refl in
            absurd cc
      ]

  -- The session after a response was there before it, but for the mark of an answer of the
  -- connection that is accepted.
  pub responded :
      (p : Platform) (us k : ℕ) (mac : Option Bytes) (s : Security)
      → HasSession P h (sec_handle_auth_response p us k mac s).1
      → ((k ≡ h)
          × ((sec_handle_auth_response p us k mac s).0 ≡ true)
          × HasSession (λ e. P (record e { authenticated = true })) h s)
        ⊎ HasSession P h s
  responded p us k mac s (e, x, a) = elim (sec_handle_auth_response-Handled p us k mac s) [
    | refused r ↦ inr (e, rw r at x, a)
    | accepted f t r held after ↦
        let moved : session h t.conns ≡ some e = rw r at x in
        elim (ne_or_eq k h) [
          | inl other ↦ inr (carried s t (after h ∙ rw (==_no k h other) refl) (e, moved, a))
          | inr mine ↦
              let now : session h t.conns ≡ some (record f { authenticated = true }) =
                after h ∙ rw mine (rw (==_self h) refl) in
              let marked : e ≡ record f { authenticated = true } = cc in
              let before : session h s.conns ≡ some f =
                subst (λ j. session j s.conns ≡ some f) mine held in
              inl (mine, rw r refl, (f, before, subst P marked a))
        ]
  ]

abbrev pub IsAuthenticated : Slot → Type 0
IsAuthenticated e = e.authenticated ≡ true

-- a slot whose challenge is at most five minutes old
abbrev pub IsYoung : ℕ → Slot → Type 0
IsYoung now e = elapsed (now_ms now) e.created_ts_ms ≤ nonce_lifetime_ms

-- A connection that passes the check has a session, authenticated and at most five minutes old.
pub check-HasSession :
    (now h : ℕ) (s : Security)
    → sec_is_conn_authenticated now h s ≡ true
    → HasSession (λ e. (e.authenticated ≡ true) × IsYoung now e) h s
check-HasSession now h s t =
    let read = sec_is_conn_authenticated_lem now h s in
    elim (Option-cases (session h s.conns)) [
      | inl x ↦ absurd (ground (arith, t, x, read))
      | inr (e, x) ↦
          let live : is_live now e ≡ true = ground (arith, t, x, read) in
          (e, x, (ground (arith, live), ground (arith, live)))
    ]
