-- ===== src/Security/ZeroHandle.antt =====
-- The connection with the handle 0. main/security.c marks a free slot by the handle 0, which is
-- also the handle of a connection (NimBLE's mark for none is 0xffff), so `alloc_entry` takes the
-- slot that such a connection uses.
use air_shifter_rough.Common.{
  ℕ, ◌≡◌, ◌≢◌, refl, ap, ◌∙◌, false, none, some, List, ◌∷◌, arith, All, Option-cases, ==_no, inl,
  inr,
}
use air_shifter_rough.Security.Slots.{Slot, find_entry, find_free, claimed, alloc_entry}
use air_shifter_rough.Security.Sessions.{session, find_entry-eq-none}
use air_shifter_rough.Security.Opening.{IsUnproved, full, opened, find_or_alloc-Opens}
use air_shifter_rough.Security.Invariant.{IsValid, opened-IsValid}
use air_shifter_rough.Security.Connect.{challenge-session}
use air_shifter_rough.Security.Idle.{session-IsUnproved}
use air_shifter_rough.Security.Respond.{sec_is_conn_authenticated_lem}
use air_shifter_rough.Security.{Security, find_or_alloc, sec_on_connect, sec_is_conn_authenticated}

-- A new connection takes a first slot with the handle 0.
find_or_alloc_first :
    (h : ℕ) (e : Slot) (rest : List Slot)
    → e.conn_handle ≡ 0
    → h ≢ 0
    → session h rest ≡ none
    → find_or_alloc h (e ∷ rest) ≡ some (0, claimed h e ∷ rest)
unfolding find_or_alloc alloc_entry find_entry find_free
find_or_alloc_first h e rest zero pos new = ground (arith, find_entry-eq-none h rest new)

-- In a well formed state whose first slot has the handle 0 and whose other slots are not
-- authenticated, the connection 0 fails every check after sec_on_connect of a handle other than 0
-- that has no session in the other slots.
pub zero_handle_evicted :
    (us us' : ℕ) (random : ℕ → ℕ) (h : ℕ) (e : Slot) (rest : List Slot) (s : Security)
    → IsValid s
    → s.conns ≡ e ∷ rest
    → e.conn_handle ≡ 0
    → All IsUnproved rest
    → h ≢ 0
    → session h rest ≡ none
    → sec_is_conn_authenticated us' 0 (sec_on_connect us random h s) ≡ false
unfolding sec_on_connect
zero_handle_evicted us us' random h e rest s v c zero idle pos new =
    let took = ap (find_or_alloc h) c ∙ find_or_alloc_first h e rest zero pos new in
    elim (find_or_alloc-Opens h s.conns) [
      | full r _ _ ↦ cc
      | opened i conns r o _ ↦
          let table : conns ≡ claimed h e ∷ rest = cc in
          let other = ==_no h 0 pos in
          let after =
            challenge-session us random h i _ (opened-IsValid s h i conns o v) o.found 0 in
          rw (r, sec_on_connect)
            (rw (sec_is_conn_authenticated_lem us' 0 _) (
              rw after (
                rw (other, table)
                  (rw other (elim (Option-cases (session 0 rest)) [
                    | inl n ↦ rw n refl
                    | inr (x, y) ↦ rw y (rw (session-IsUnproved 0 rest x idle y) refl)
                  ])))))
    ]
