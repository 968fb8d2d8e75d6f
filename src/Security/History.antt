-- ===== src/Security/History.antt =====
-- Histories of calls of main/security.c, latest first, and what they must hold for a connection to
-- be authenticated.
use air_shifter_rough.Common.{
  ℕ, ◌≡◌, ◌≢◌, ◌⊎◌, inl, inr, refl, sym, ◌∙◌, true, Option, none, some, List, [], ◌∷◌, Bytes, arith,
  ==_no, Option-cases, ap,
}
use air_shifter_rough.Platform.{Platform}
use air_shifter_rough.Security.Slots.{Slot, find_entry}
use air_shifter_rough.Security.Sessions.{session}
use air_shifter_rough.Security.Invariant.{
  IsValid, sec_init-IsValid, sec_on_connect-IsValid, sec_handle_auth_response-IsValid,
  sec_clear_conn-IsValid, sec_send_nonce_notify-IsValid, sec_set_nonce_len-IsValid,
  sec_set_private_key-IsValid,
}
use air_shifter_rough.Security.Connect.{update-conns}
use air_shifter_rough.Security.Before.{
  HasSession, IsAuthenticated, made, ended, responded, check-HasSession,
}
use air_shifter_rough.Security.{
  Security, statics, sec_init, sec_on_connect, sec_handle_auth_response, sec_is_conn_authenticated,
  sec_clear_conn, sec_send_nonce_notify, sec_set_nonce_len, sec_set_private_key,
}

pub data Event : Type 0 where
  connects : ℕ → (ℕ → ℕ) → ℕ → Event
  responds : ℕ → ℕ → Option Bytes → Event
  clears : ℕ → Event
  notifies : ℕ → Event
  sets_key : Option Bytes → Event
  sets_nonce_len : ℕ → Event

unfoldable pub step : Platform → Event → Security → Security
step p (connects us random h) s = sec_on_connect us random h s
step p (responds us h mac) s = (sec_handle_auth_response p us h mac s).1
step p (clears h) s = sec_clear_conn h s
step p (notifies h) s = sec_send_nonce_notify h s
step p (sets_key key) s = sec_set_private_key key s
step p (sets_nonce_len n) s = sec_set_nonce_len n s

-- from `sec_init` on
unfoldable pub run : Platform → List Event → Security
unfolding step
run p [] = sec_init statics
run p (e ∷ past) = step p e (run p past)

-- The event is about no connection with the handle 0.
abbrev pub IsNumbered : Event → Type 0
IsNumbered (connects us random h) = h ≢ 0
IsNumbered (responds us h mac) = h ≢ 0
IsNumbered (clears h) = h ≢ 0
IsNumbered (notifies h) = h ≢ 0
IsNumbered (sets_key key) = Unit {0}
IsNumbered (sets_nonce_len n) = Unit {0}

abbrev pub AreNumbered : List Event → Type 0
AreNumbered [] = Unit {0}
AreNumbered (e ∷ past) = IsNumbered e × AreNumbered past

-- The connection answered its challenge, and has neither reconnected nor left since.
abbrev pub HasProved : Platform → ℕ → List Event → Type 0
HasProved p h [] = ⊥
HasProved p h (connects us random k ∷ past) = (k ≢ h) × HasProved p h past
HasProved p h (clears k ∷ past) = (k ≢ h) × HasProved p h past
HasProved p h (responds us k mac ∷ past) =
    ((k ≡ h) × ((sec_handle_auth_response p us k mac (run p past)).0 ≡ true)) ⊎ HasProved p h past
HasProved p h (_ ∷ past) = HasProved p h past

pub step-IsValid : (p : Platform) (e : Event) (s : Security) → IsValid s → IsValid (step p e s)
unfolding step
step-IsValid p (connects us random h) s v = sec_on_connect-IsValid us random h s v
step-IsValid p (responds us h mac) s v = sec_handle_auth_response-IsValid p us h mac s v
step-IsValid p (clears h) s v = sec_clear_conn-IsValid h s v
step-IsValid p (notifies h) s v = sec_send_nonce_notify-IsValid h s v
step-IsValid p (sets_key key) s v = sec_set_private_key-IsValid key s v
step-IsValid p (sets_nonce_len n) s v = sec_set_nonce_len-IsValid n s v

-- After every history of calls of the security module from sec_init on, the table has its three
-- slots, no handle but 0 stands in two slots, every nonce buffer has 32 bytes and a nonce that fits
-- it, the nonce length is from 1 to 32, and the characteristic's value has its 32 bytes with a
-- length that fits.
pub run-IsValid : (p : Platform) (past : List Event) → IsValid (run p past)
unfolding run
run-IsValid p [] = sec_init-IsValid
run-IsValid p (e ∷ past) = step-IsValid p e (run p past) (run-IsValid p past)

pub sec_send_nonce_notify-conns :
    (h : ℕ) (s : Security) → (sec_send_nonce_notify h s).conns ≡ s.conns
unfolding sec_send_nonce_notify
sec_send_nonce_notify-conns h s = elim (Option-cases (find_entry h s.conns)) [
  | inl e ↦ rw (e, sec_send_nonce_notify) refl
  | inr (i, e) ↦ rw (e, sec_send_nonce_notify) (update-conns _ _ s)
]

pub sec_set_private_key-conns :
    (key : Option Bytes) (s : Security) → (sec_set_private_key key s).conns ≡ s.conns
unfolding sec_set_private_key
sec_set_private_key-conns none s = refl
sec_set_private_key-conns (some []) s = refl
sec_set_private_key-conns (some (b ∷ key)) s = refl

pub sec_set_nonce_len-conns : (n : ℕ) (s : Security) → (sec_set_nonce_len n s).conns ≡ s.conns
unfolding sec_set_nonce_len
sec_set_nonce_len-conns n s = ground arith

boot-session : (h : ℕ) (e : Slot) → h ≢ 0 → session h (sec_init statics).conns ≢ some e
unfolding sec_init
boot-session h e pos x = let other = ==_no 0 h (λ z. pos (sym z)) in ground arith

-- Only a connection that has proved itself has an authenticated session.
marked-HasProved :
    (p : Platform) (h : ℕ) (past : List Event)
    → h ≢ 0
    → HasSession IsAuthenticated h (run p past)
    → HasProved p h past
unfolding run step
marked-HasProved p h [] pos (e, x, a) = absurd (boot-session h e pos x)
marked-HasProved p h (connects us random k ∷ past) pos x =
    elim (made IsAuthenticated h us random k (run p past) (run-IsValid p past) pos x) [
      | inl (other, y) ↦ (other, marked-HasProved p h past pos y)
      | inr (mine, f, a, new) ↦ let unproved = new.1 in absurd cc
    ]
marked-HasProved p h (responds us k mac ∷ past) pos x =
    elim (responded IsAuthenticated h p us k mac (run p past) x) [
      | inl (mine, yes', y) ↦ inl (mine, yes')
      | inr y ↦ inr (marked-HasProved p h past pos y)
    ]
marked-HasProved p h (clears k ∷ past) pos x =
    let (other, y) = ended IsAuthenticated h k (run p past) (run-IsValid p past) pos x in
    (other, marked-HasProved p h past pos y)
marked-HasProved p h (notifies k ∷ past) pos (e, x, a) =
    marked-HasProved p h past pos
      (e, ap (session h) (sym (sec_send_nonce_notify-conns k (run p past))) ∙ x, a)
marked-HasProved p h (sets_key key ∷ past) pos (e, x, a) =
    marked-HasProved p h past pos
      (e, ap (session h) (sym (sec_set_private_key-conns key (run p past))) ∙ x, a)
marked-HasProved p h (sets_nonce_len n ∷ past) pos (e, x, a) =
    marked-HasProved p h past pos
      (e, ap (session h) (sym (sec_set_nonce_len-conns n (run p past))) ∙ x, a)

-- After any history of calls from sec_init on: a connection other than 0 that passes
-- sec_is_conn_authenticated had an answer accepted by sec_handle_auth_response at some point of the
-- history, and since then it has neither been connected again nor cleared.
pub sec_is_conn_authenticated-HasProved :
    (p : Platform) (us h : ℕ) (past : List Event)
    → h ≢ 0
    → sec_is_conn_authenticated us h (run p past) ≡ true
    → HasProved p h past
sec_is_conn_authenticated-HasProved p us h past pos passes =
    let (e, x, a) = check-HasSession us h (run p past) passes in
    marked-HasProved p h past pos (e, x, a.0)
