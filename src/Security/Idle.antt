-- ===== src/Security/Idle.antt =====
-- Tables of main/security.c in which no connection is authenticated.
use air_shifter_rough.Common.{
  ℕ, ◌≡◌, inl, inr, refl, false, Option, some, List, [], ◌∷◌, Bytes, arith, All, All-set,
  Option-cases,
}
use air_shifter_rough.Platform.{Platform}
use air_shifter_rough.Security.Slots.{Slot, zeroed, find_entry}
use air_shifter_rough.Security.Sessions.{session}
use air_shifter_rough.Security.Opening.{IsUnproved, full, opened, find_or_alloc-Opens}
use air_shifter_rough.Security.Invariant.{IsValid, opened-IsValid}
use air_shifter_rough.Security.Connect.{challenge-conns}
use air_shifter_rough.Security.Respond.{
  refused, accepted, sec_handle_auth_response-Handled, sec_is_conn_authenticated_lem,
}
use air_shifter_rough.Security.{
  Security, sec_on_connect, sec_handle_auth_response, sec_clear_conn, sec_is_conn_authenticated,
}

abbrev pub IsIdle : Security → Type 0
IsIdle s = All IsUnproved s.conns

pub session-IsUnproved :
    (h : ℕ) (ss : List Slot) (e : Slot)
    → All IsUnproved ss
    → session h ss ≡ some e
    → e.authenticated ≡ false
session-IsUnproved h [] e a x = cc
session-IsUnproved h (s ∷ ss) e a x = ground (arith, session-IsUnproved h ss e a.1)

pub IsIdle-check : (us h : ℕ) (s : Security) → IsIdle s → sec_is_conn_authenticated us h s ≡ false
IsIdle-check us h s idle =
    rw (sec_is_conn_authenticated_lem us h s) (elim (Option-cases (session h s.conns)) [
      | inl e ↦ rw e refl
      | inr (x, e) ↦ rw e (rw (session-IsUnproved h s.conns x idle e) refl)
    ])

pub sec_on_connect-IsIdle :
    (us : ℕ) (random : ℕ → ℕ) (h : ℕ) (s : Security)
    → IsValid s
    → IsIdle s
    → IsIdle (sec_on_connect us random h s)
unfolding sec_on_connect
sec_on_connect-IsIdle us random h s v idle = elim (find_or_alloc-Opens h s.conns) [
  | full e _ _ ↦ rw (e, sec_on_connect) idle
  | opened i conns e o _ ↦
      rw (e, sec_on_connect)
        (rw (challenge-conns us random h i _ (opened-IsValid s h i conns o v) o.found)
          (All-set IsUnproved conns i _ (o.idle idle) refl))
]

pub sec_clear_conn-IsIdle : (h : ℕ) (s : Security) → IsIdle s → IsIdle (sec_clear_conn h s)
unfolding sec_clear_conn
sec_clear_conn-IsIdle h s idle = elim (Option-cases (find_entry h s.conns)) [
  | inl e ↦ rw (e, sec_clear_conn) idle
  | inr (i, e) ↦ rw (e, sec_clear_conn) (All-set IsUnproved s.conns i zeroed idle refl)
]

-- A response that is not accepted changes nothing.
pub refused_response :
    (p : Platform) (us h : ℕ) (mac : Option Bytes) (s : Security)
    → (sec_handle_auth_response p us h mac s).0 ≡ false
    → sec_handle_auth_response p us h mac s ≡ (false, s)
refused_response p us h mac s r = elim (sec_handle_auth_response-Handled p us h mac s) [
  | refused e ↦ e
  | accepted d t e _ _ ↦ cc
]
