-- ===== src/Gap/Proved.antt =====
-- main/security.c in main/main.c: which connections pass the check in a run of the device from the
-- power on.
mod Tests
use air_shifter_rough.Common.{
  ℕ, ◌≡◌, ◌≢◌, ◌⊎◌, inl, inr, sym, ◌∙◌, Bool, true, false, none, some, Bytes, arith, Option-cases,
}
use air_shifter_rough.Security.Slots.{Slot}
use air_shifter_rough.Security.Sessions.{session}
use air_shifter_rough.Security.Idle.{IsIdle, session-IsUnproved}
use air_shifter_rough.Security.Respond.{sec_is_conn_authenticated_lem}
use air_shifter_rough.Security.{Security, sec_is_conn_authenticated}
use air_shifter_rough.Gatt.Guard.{IsAccepted}
use air_shifter_rough.Gatt.Proving.{gatt_svc_access-Proving}
use air_shifter_rough.Gatt.Sound.{IsSound}
use air_shifter_rough.Gap.Sound.{Ran, start, gap, access, takes, Ran-IsSound, booted-IsSound}
use air_shifter_rough.Gap.Start.{StartCalls, HostConfig, running, app_main, bleprph_on_sync}
use air_shifter_rough.Gap.Booted.{Handles, with_handles, booted-IsIdle, power_on-world}
use air_shifter_rough.Security.Before.{IsAuthenticated, HasSession, check-HasSession}
use air_shifter_rough.Gap.Sessions.{Spares, gap-HasSession, access-HasSession}
use air_shifter_rough.Gap.{Device}

-- A write of the connection to the auth characteristic succeeded in the run, and since then it was
-- neither made again nor ended.
abbrev pub ProvedIn : ℕ → {b d : Device} → Ran b d → Type 0
ProvedIn h start = ⊥
ProvedIn h (gap us random adv e run q) = Spares h e × ProvedIn h run
ProvedIn h (access {d} {w} {code} p us k attr op om law run q) =
    ((k ≡ h) × IsAccepted attr op code d.world) ⊎ ProvedIn h run
ProvedIn h (takes c rest run q) = ProvedIn h run

pub Ran-ProvedIn :
    {b d : Device} (h : ℕ)
    → IsSound b.world
    → IsIdle b.world.sec
    → h ≢ 0
    → (run : Ran b d) → HasSession IsAuthenticated h d.world.sec
    → ProvedIn h run
Ran-ProvedIn {b} h s quiet pos start (e, x, a) =
    let unproved = session-IsUnproved h b.world.sec.conns e quiet x in absurd cc
Ran-ProvedIn h s quiet pos (gap {d} {d'} {r} us random adv e run q) x =
    let valid = (Ran-IsSound s run).valid in
    elim (gap-HasSession IsAuthenticated h us random adv e d d' r q valid pos x) [
      | inl (spared, y) ↦ (spared, Ran-ProvedIn h s quiet pos run y)
      | inr (makes, f, a, new) ↦ let unproved = new.1 in absurd cc
    ]
Ran-ProvedIn h s quiet pos (access {d} {w} {code} {om'} p us k attr op om law run q) x =
    let proving = gatt_svc_access-Proving p us k attr op om om' code d.world w q in
    elim (access-HasSession IsAuthenticated h p us k attr op code d.world w proving x) [
      | inl (mine, good, y) ↦ inl (mine, good)
      | inr y ↦ inr (Ran-ProvedIn h s quiet pos run y)
    ]
Ran-ProvedIn h s quiet pos (takes {d} c rest run q) x = Ran-ProvedIn h s quiet pos run x

-- From power on, when app_main starts the host, NimBLE stores any attribute handles, and the
-- synchronisation with the host does not abort: take any run of GAP events, of characteristic
-- accesses by any connections at any times, with packets, each access with a queue that puts its
-- items in order, and of credentials taken from the queue. A connection other than 0 that passes
-- sec_is_conn_authenticated after the run made a write to the auth characteristic in it that
-- succeeded, and since then no event of the run made the connection again or ended it.
pub power_on_checked-ProvedIn :
    (c : StartCalls) (cfg : HostConfig) (handles : Handles) (ensured inferred : ℕ)
    (fields_set : Bool) (d₀ d₁ d : Device) (run : Ran d₁ d) (h us : ℕ)
    → app_main c ≡ running cfg d₀
    → bleprph_on_sync ensured inferred fields_set
        (record d₀ { world = with_handles handles d₀.world })
      ≡ some d₁
    → h ≢ 0
    → sec_is_conn_authenticated us h d.world.sec ≡ true
    → ProvedIn h run
power_on_checked-ProvedIn c cfg handles ensured inferred fields_set d₀ d₁ d run h us started synced
      pos passes =
    let world = power_on-world c cfg handles ensured inferred fields_set d₀ d₁ started synced in
    let checked = check-HasSession us h d.world.sec passes in
    Ran-ProvedIn h (rw world (booted-IsSound handles c.queue_created))
      (rw world (booted-IsIdle handles c.queue_created)) pos run (checked.0, checked.1, checked.2.0)
