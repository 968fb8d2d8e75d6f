-- ===== src/Security/Refinement.antt =====
-- main/security.c does what Security/Model allows, over every history of its calls.
use air_shifter_rough.Common.{
  ℕ, ◌≡◌, ◌≢◌, refl, sym, ap, ◌∙◌, false, Option, none, some, List, [], ◌∷◌, arith, ==_no,
}
use air_shifter_rough.Platform.{Platform, HmacLength}
use air_shifter_rough.Security.Slots.{Slot}
use air_shifter_rough.Security.Sessions.{session}
use air_shifter_rough.Security.Invariant.{IsValid}
use air_shifter_rough.Security.Respond.{sec_is_conn_authenticated_lem, sec_clear_conn_removes}
use air_shifter_rough.Security.History.{
  Event, connects, responds, clears, notifies, sets_key, sets_nonce_len, step, run, IsNumbered,
  AreNumbered, run-IsValid, sec_send_nonce_notify-conns, sec_set_private_key-conns,
  sec_set_nonce_len-conns,
}
use air_shifter_rough.Security.{
  Security, statics, sec_init, sec_is_conn_authenticated, is_live, sec_clear_conn,
  sec_send_nonce_notify,
}
use air_shifter_rough.Security.Model.{
  Same, Allowed, removes, tells, rekeys, resizes, initial, Reaches, start, more, passes, passes_at,
}
use air_shifter_rough.Security.View.{view, model, keeps-Same, view-put, connects-Allowed}
use air_shifter_rough.Security.Answers.{
  responds-Allowed, clear_keeps, notify_keeps, key_set, key_keeps, len_set,
}

clears-Allowed :
    (p : Platform) (h : ℕ) (s : Security)
    → IsValid s
    → h ≢ 0
    → Allowed p (clears h) (model s) (model (sec_clear_conn h s))
clears-Allowed p h s v pos =
    let (key, len) = clear_keeps h s in
    removes (record {
      key = key;
      nonce_len = len;
      table = λ k kp.
          ap view (sec_clear_conn_removes h k s v pos kp) ∙ view-put h k none (session k s.conns);
    })

step-Allowed :
    (p : Platform) (e : Event) (s : Security)
    → HmacLength p
    → IsValid s
    → IsNumbered e
    → Allowed p e (model s) (model (step p e s))
unfolding step
step-Allowed p (connects us random h) s law v num = connects-Allowed p us random h s v
step-Allowed p (responds us h mac) s law v num = responds-Allowed p us h mac s law
step-Allowed p (clears h) s law v num = clears-Allowed p h s v num
step-Allowed p (notifies h) s law v num =
    let (key, len) = notify_keeps h s in
    tells (keeps-Same s (sec_send_nonce_notify h s) key len (sec_send_nonce_notify-conns h s))
step-Allowed p (sets_key key) s law v num = rekeys (record {
  key = key_set key s;
  nonce_len = key_keeps key s;
  table = λ k pos. ap (λ x. view (session k x)) (sec_set_private_key-conns key s);
})
step-Allowed p (sets_nonce_len n) s law v num =
    let (key, len) = len_set n s in
    resizes (record {
      key = key;
      nonce_len = len;
      table = λ k pos. ap (λ x. view (session k x)) (sec_set_nonce_len-conns n s);
    })

init-initial : Same (model (sec_init statics)) initial
unfolding sec_init
init-initial = record {
  key = refl;
  nonce_len = refl;
  table = λ k pos. let other = ==_no 0 k (λ z. pos (sym z)) in ground arith;
}

view-passes :
    (us : ℕ) (o : Option Slot)
    → elim o [ none ↦ false | some e ↦ is_live us e ] ≡ passes_at us (view o)
view-passes us none = refl
view-passes us (some e) = refl

check-passes : (us h : ℕ) (s : Security) → sec_is_conn_authenticated us h s ≡ passes us h (model s)
check-passes us h s = sec_is_conn_authenticated_lem us h s ∙ view-passes us (session h s.conns)

run-Reaches :
    (p : Platform) (past : List Event)
    → HmacLength p
    → AreNumbered past
    → Reaches p past (model (run p past))
unfolding run
run-Reaches p [] law num = start init-initial
run-Reaches p (e ∷ past) law num =
    more (run-Reaches p past law num.1)
      (step-Allowed p e (run p past) law (run-IsValid p past) num.0)

-- When an HMAC has 32 bytes: every history of calls from sec_init on, none of which is about the
-- handle 0, does what Security.Model allows of a map from connections to sessions, a key and a
-- nonce length: a connection gets a fresh session, unless it has none and three others have one; an
-- answer marks the session exactly when it is in time and right; a disconnect removes the session;
-- the other calls leave the sessions. And every check of a connection gives what the map says.
pub run_refines :
    (p : Platform) (past : List Event)
    → HmacLength p
    → AreNumbered past
    → Reaches p past (model (run p past))
      × ((us h : ℕ)
          → sec_is_conn_authenticated us h (run p past) ≡ passes us h (model (run p past)))
run_refines p past law num = (run-Reaches p past law num, λ us h. check-passes us h (run p past))
