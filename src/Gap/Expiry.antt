-- ===== src/Gap/Expiry.antt =====
-- main/security.c in main/main.c: how old the connections that pass the check are.
use air_shifter_rough.Common.{ℕ, ◌≤◌, ◌≡◌, ◌≢◌, ◌⊎◌, inl, inr, Bool, true, none, some, arith}
use mathlib.Core.Path.{subst}
use air_shifter_rough.Security.Sessions.{session}
use air_shifter_rough.Security.{
  now_ms, elapsed, nonce_lifetime_ms, sec_init, sec_is_conn_authenticated,
}
use air_shifter_rough.Gatt.Proving.{gatt_svc_access-Proving}
use air_shifter_rough.Gatt.Sound.{IsSound}
use air_shifter_rough.Gap.Sound.{Ran, start, gap, access, takes, Ran-IsSound, booted-IsSound}
use air_shifter_rough.Gap.Start.{StartCalls, HostConfig, running, app_main, bleprph_on_sync}
use air_shifter_rough.Gap.Booted.{Handles, with_handles, booted, power_on-world}
use air_shifter_rough.Security.Before.{HasSession, check-HasSession, IsYoung}
use air_shifter_rough.Gap.Sessions.{Spares, Makes, gap-HasSession, access-HasSession}
use air_shifter_rough.Gap.{Device}

-- At most five minutes lie between the two times in microseconds.
abbrev pub IsWithin : ℕ → ℕ → Type 0
IsWithin now made = elapsed (now_ms now) (now_ms made) ≤ nonce_lifetime_ms

-- The connection was made in the run at most five minutes before the time, and since then it was
-- neither made again nor ended.
abbrev pub MadeIn : ℕ → ℕ → {b d : Device} → Ran b d → Type 0
MadeIn now h start = ⊥
MadeIn now h (gap us random adv e run q) =
    (Makes h e × IsWithin now us) ⊎ (Spares h e × MadeIn now h run)
MadeIn now h (access p us k attr op om law run q) = MadeIn now h run
MadeIn now h (takes c rest run q) = MadeIn now h run

-- no connection but 0 has a session when the host starts
booted-HasNone :
    (handles : Handles) (created : Bool) (h : ℕ)
    → h ≢ 0
    → session h (with_handles handles (booted created)).sec.conns ≡ none
unfolding sec_init
booted-HasNone handles created h pos = ground arith

pub Ran-MadeIn :
    {b d : Device} (now h : ℕ)
    → IsSound b.world
    → session h b.world.sec.conns ≡ none
    → h ≢ 0
    → (run : Ran b d) → HasSession (IsYoung now) h d.world.sec
    → MadeIn now h run
Ran-MadeIn now h s unmade pos start (e, x, a) = absurd cc
Ran-MadeIn now h s unmade pos (gap {d} {d'} {r} us random adv e run q) x =
    let valid = (Ran-IsSound s run).valid in
    elim (gap-HasSession (IsYoung now) h us random adv e d d' r q valid pos x) [
      | inl (spared, y) ↦ inr (spared, Ran-MadeIn now h s unmade pos run y)
      | inr (makes, f, young, new) ↦
          inl (makes, subst (λ t. elapsed (now_ms now) t ≤ nonce_lifetime_ms) new.0 young)
    ]
Ran-MadeIn now h s unmade pos (access {d} {w} {code} {om'} p us k attr op om law run q) x =
    let proving = gatt_svc_access-Proving p us k attr op om om' code d.world w q in
    elim (access-HasSession (IsYoung now) h p us k attr op code d.world w proving x) [
      | inl (mine, good, y) ↦ Ran-MadeIn now h s unmade pos run y
      | inr y ↦ Ran-MadeIn now h s unmade pos run y
    ]
Ran-MadeIn now h s unmade pos (takes {d} c rest run q) x = Ran-MadeIn now h s unmade pos run x

-- From power on, when app_main starts the host, NimBLE stores any attribute handles, and the
-- synchronisation with the host does not abort: take any run of GAP events, of characteristic
-- accesses by any connections at any times, with packets, each access with a queue that puts its
-- items in order, and of credentials taken from the queue. A connection other than 0 that passes
-- sec_is_conn_authenticated at a time after the run was made by a GAP event of the run at most five
-- minutes before that time, in milliseconds and modulo 2 ^ 64, and since then no event made it
-- again or ended it.
pub power_on_checked-MadeIn :
    (c : StartCalls) (cfg : HostConfig) (handles : Handles) (ensured inferred : ℕ)
    (fields_set : Bool) (d₀ d₁ d : Device) (run : Ran d₁ d) (h now : ℕ)
    → app_main c ≡ running cfg d₀
    → bleprph_on_sync ensured inferred fields_set
        (record d₀ { world = with_handles handles d₀.world })
      ≡ some d₁
    → h ≢ 0
    → sec_is_conn_authenticated now h d.world.sec ≡ true
    → MadeIn now h run
power_on_checked-MadeIn c cfg handles ensured inferred fields_set d₀ d₁ d run h now started synced
      pos passes =
    let world = power_on-world c cfg handles ensured inferred fields_set d₀ d₁ started synced in
    let checked = check-HasSession now h d.world.sec passes in
    Ran-MadeIn now h (rw world (booted-IsSound handles c.queue_created))
      (rw world (booted-HasNone handles c.queue_created h pos)) pos run
      (checked.0, checked.1, checked.2.1)
