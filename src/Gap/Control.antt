-- ===== src/Gap/Control.antt =====
-- main/main.c, main/security.c and main/gatt_svr.c together: from the power on to a control value that
-- a central sets.
use air_shifter_rough.Common.{
  ℕ, ◌/◌, ◌+◌, ◌^◌, ◌≤◌, ◌<◌, ◌≡◌, refl, ap, ◌∙◌, Bool, true, false, some, Bytes, arith, inr,
  ==_self, length, pos,
}
use mathlib.Core.Path.{subst}
use air_shifter_rough.Platform.{Platform, HmacLength}
use air_shifter_rough.Security.Sessions.{HasRoom}
use air_shifter_rough.Security.Filling.{random_bytes}
use air_shifter_rough.Security.Invariant.{IsValid}
use air_shifter_rough.Security.Handshake.{handshake}
use air_shifter_rough.Security.View.{sec_on_connect-auth_char_handle}
use air_shifter_rough.Security.Answers.{response_keeps}
use air_shifter_rough.Security.{
  default_key, nonce_lifetime_ms, sec_init, sec_on_connect, sec_handle_auth_response,
  sec_is_conn_authenticated,
}
use air_shifter_rough.Biz.Setters.{Dial, command, desired, reported}
use air_shifter_rough.Gatt.{
  World, success, done, writes_chr, write_auth, write_chr, gatt_svc_access, gatt_svr_write_flat,
}
use air_shifter_rough.Gatt.ReadBack.{
  ctrl_handle, AreDistinct, KeepsBytes, encode, limit, write_then_read,
}
use air_shifter_rough.Gatt.ReadBack.{command-sets}
use air_shifter_rough.Gap.{Device, connect, ok, bleprph_gap_event, bleprph_advertise}
use air_shifter_rough.Gap.Start.{StartCalls, HostConfig, running, app_main, bleprph_on_sync}
use air_shifter_rough.Gap.Booted.{Handles, with_handles, booted, booted-IsValid, power_on-world}

-- the connection, in the world
abbrev pub connected : ℕ → (ℕ → ℕ) → ℕ → World → World
connected us random h w = record w { sec = sec_on_connect us random h w.sec }

-- the answer, in the world
abbrev pub answered : Platform → ℕ → ℕ → Bytes → World → World
answered p us h mac w = record w { sec = (sec_handle_auth_response p us h (some mac) w.sec).1 }

-- an answer of the right size that is accepted
write_answer :
    (p : Platform) (us h : ℕ) (mac : Bytes) (w : World)
    → KeepsBytes p
    → length mac ≡ 32
    → (sec_handle_auth_response p us h (some mac) w.sec).0 ≡ true
    → gatt_svc_access p us h w.sec.auth_char_handle writes_chr mac w
      ≡ done success mac (answered p us h mac w)
unfolding gatt_svc_access write_chr write_auth gatt_svr_write_flat
write_answer p us h mac w keeps size accepted =
    let here = ==_self w.sec.auth_char_handle in
    let whole : p.mbuf_to_flat mac 32 ≡ some mac =
      subst (λ n. p.mbuf_to_flat mac n ≡ some mac) size (keeps.0 mac) in
    ground arith

booted-HasRoom :
    (h : ℕ) (hs : Handles) (created : Bool) → HasRoom h (with_handles hs (booted created)).sec.conns
unfolding sec_init
booted-HasRoom h hs created = inr (λ n. cc)

booted-priv_key :
    (hs : Handles) (created : Bool)
    → (with_handles hs (booted created)).sec.priv_key ≡ some default_key
unfolding sec_init
booted-priv_key hs created = refl

booted-nonce_len :
    (hs : Handles) (created : Bool) → (with_handles hs (booted created)).sec.nonce_len ≡ 16
unfolding sec_init
booted-nonce_len hs created = refl

event_connects :
    (us : ℕ) (random : ℕ → ℕ) (adv : Bool) (h : ℕ) (d : Device)
    → (d' : Device) × (bleprph_gap_event us random adv (connect 0 h true) d ≡ some (ok, d'))
      × (d'.world ≡ connected us random h d.world)
unfolding bleprph_gap_event bleprph_advertise
event_connects us random true h d =
    (record d { world = connected us random h d.world; adv_starts = d.adv_starts + 1 }, refl, refl)
event_connects us random false h d =
    (record d { world = connected us random h d.world }, refl, refl)

-- the same with the world that app_main left
module _ (p : Platform) (random : ℕ → ℕ) (h : ℕ) (mac : Bytes) (us us' us'' : ℕ) (w : World)
    (hs : Handles) (created : Bool) (same : w ≡ with_handles hs (booted created)) where
  proves :
      HmacLength p
      → p.hmac default_key (random_bytes random 16) ≡ some mac
      → us ≤ us'
      → us' ≤ us''
      → us'' < 2 ^ 63
      → us'' / 1000 ≤ us / 1000 + nonce_lifetime_ms
      → let w₂ = connected us random h w in
        ((sec_handle_auth_response p us' h (some mac) w₂.sec).0 ≡ true)
        × (sec_is_conn_authenticated us'' h (answered p us' h mac w₂).sec ≡ true)
  proves law right o o' small soon =
      let valid : IsValid w.sec = rw same (booted-IsValid hs created) in
      let room : HasRoom h w.sec.conns = rw same (booted-HasRoom h hs created) in
      let key : w.sec.priv_key ≡ some default_key = rw same (booted-priv_key hs created) in
      let len : w.sec.nonce_len ≡ 16 = rw same (booted-nonce_len hs created) in
      let shaken =
        handshake p random h default_key mac w.sec us us' us'' law valid room key
          (ap (λ n. p.hmac default_key (random_bytes random n)) len ∙ right) o o' small
          (omega (arith, soon, o')) in
      (shaken.0, shaken.1.1 soon)

  keeps_handles : AreDistinct w → AreDistinct (answered p us' h mac (connected us random h w))
  keeps_handles n =
      let auth =
        (response_keeps p us' h (some mac) (connected us random h w).sec).2
        ∙ sec_on_connect-auth_char_handle us random h w.sec in
      rw auth n

-- From power on, when app_main starts the host, NimBLE stores distinct attribute handles, and the
-- synchronisation with the host does not abort: a connection that is made, and then answers its
-- challenge with the HMAC of the random bytes under the default key, has its answer accepted, and
-- then sets any of the four control values below its limit (2 ^ 31 for rpm and angle, 256 for light
-- and power): the writes succeed, and the desired and the reported value are the value written. The
-- last write is within five minutes, in milliseconds, after the connection was made, the times are
-- in order and below 2 ^ 63 microseconds, an HMAC has 32 bytes, an mbuf that fits a buffer is
-- copied whole, and an empty mbuf takes the bytes that are appended.
pub power_on_controls :
    (p : Platform) (c : StartCalls) (cfg : HostConfig) (hs : Handles) (ensured inferred : ℕ)
    (fields_set adv : Bool) (d₀ d₁ : Device) (random : ℕ → ℕ) (h : ℕ) (mac : Bytes) (dial : Dial)
    (v us us' us'' : ℕ)
    → KeepsBytes p
    → HmacLength p
    → app_main c ≡ running cfg d₀
    → bleprph_on_sync ensured inferred fields_set (record d₀ { world = with_handles hs d₀.world })
      ≡ some d₁
    → AreDistinct d₁.world
    → p.hmac default_key (random_bytes random 16) ≡ some mac
    → us ≤ us'
    → us' ≤ us''
    → us'' < 2 ^ 63
    → us'' / 1000 ≤ us / 1000 + nonce_lifetime_ms
    → v < limit dial
    → let w₂ = connected us random h d₁.world in
      let w₃ = answered p us' h mac w₂ in
      let w₄ : World = record w₃ { biz = command dial (pos v) w₃.biz } in
      ((d₂ : Device) × (bleprph_gap_event us random adv (connect 0 h true) d₁ ≡ some (ok, d₂))
        × (d₂.world ≡ w₂))
      × (gatt_svc_access p us' h w₂.sec.auth_char_handle writes_chr mac w₂ ≡ done success mac w₃)
      × (gatt_svc_access p us'' h (ctrl_handle dial w₃) writes_chr (encode dial v) w₃
          ≡ done success (encode dial v) w₄)
      × (desired dial w₄.biz ≡ v)
      × (reported dial w₄.biz ≡ v)
power_on_controls p c cfg hs ensured inferred fields_set adv d₀ d₁ random h mac dial v us us' us''
      keeps law started synced n right o o' small soon lt =
    let same = power_on-world c cfg hs ensured inferred fields_set d₀ d₁ started synced in
    let w₂ = connected us random h d₁.world in
    let w₃ = answered p us' h mac w₂ in
    let (accepted, live) =
      proves p random h mac us us' us'' d₁.world hs c.queue_created same law right o o' small
        soon in
    let n₃ = keeps_handles p random h mac us us' us'' d₁.world hs c.queue_created same n in
    let sets = command-sets dial v w₃.biz lt in
    (
      event_connects us random adv h d₁,
      write_answer p us' h mac w₂ keeps (law default_key _ mac right) accepted,
      (write_then_read p us'' us'' h h dial v w₃ keeps n₃ lt live).0,
      sets.0,
      sets.1,
    )
