-- ===== src/Gap/Sound.antt =====
-- Runs of the device from the power on, with answers that are accepted, with packets, and with the
-- credentials that the Wi-Fi task takes from the queue.
mod Tests
use air_shifter_rough.Common.{
  ℕ, ◌≤◌, ◌<◌, ◌^◌, ◌≡◌, ◌≢◌, refl, ap, sym, Bool, some, All, List, [], ◌∷◌, Bytes, arith,
  Bool-cases, inl, inr,
}
use mathlib.Core.Path.{subst}
use air_shifter_rough.Platform.{Platform, Credentials}
use air_shifter_rough.Security.Invariant.{IsValid, sec_on_connect-IsValid, sec_clear_conn-IsValid}
use air_shifter_rough.Security.Short.{
  IsShort, sec_init-IsShort, sec_on_connect-IsShort, sec_clear_conn-IsShort,
}
use air_shifter_rough.Security.{sec_init}
use air_shifter_rough.Biz.{Biz}
use air_shifter_rough.Parser.Queue.{Enqueues, IsWellFormed}
use air_shifter_rough.Parser.Sound.{biz_clear_auth-IsSound}
use air_shifter_rough.Gatt.Sound.{IsSound, gatt_svc_access-IsSound}
use air_shifter_rough.Gatt.Within.{CopiesAtMost, gatt_svc_access-IsAnswered}
use air_shifter_rough.Gatt.{World, Status, fault, done, Op, gatt_svc_access}
use air_shifter_rough.Gap.Safety.{Change, nothing, opens, closes, gap-Change}
use air_shifter_rough.Gap.Start.{
  StartCalls, HostConfig, running, app_main, wifi_manager_init, bleprph_on_sync,
}
use air_shifter_rough.Gap.Booted.{Handles, with_handles, booted, booted-IsValid, power_on-world}
use air_shifter_rough.Gap.{GapEvent, Device, Reply, bleprph_gap_event}

-- the world once the first credentials of the queue are taken
abbrev pub taken : List Credentials → Device → Device
taken rest d = record d {
  world = record (d.world) { biz = record (d.world.biz) { wifi_cred_queue = some rest } };
}

-- All runs, the accesses each with a queue that puts its items in order.
pub data Ran (b : Device) : Device → Type 1 where
  start : Ran b b
  gap :
      {d d' : Device} {r : Reply} (us : ℕ) (random : ℕ → ℕ) (adv : Bool) (e : GapEvent)
      → Ran b d
      → bleprph_gap_event us random adv e d ≡ some (r, d')
      → Ran b d'
  access :
      {d : Device} {w : World} {code : Status} {om' : Bytes} (p : Platform) (us h attr : ℕ)
      (op : Op) (om : Bytes)
      → Enqueues p
      → Ran b d
      → gatt_svc_access p us h attr op om d.world ≡ done code om' w
      → Ran b (record d { world = w })
  takes :
      {d : Device} (c : Credentials) (rest : List Credentials)
      → Ran b d
      → d.world.biz.wifi_cred_queue ≡ some (c ∷ rest)
      → Ran b (taken rest d)

Change-IsSound : (w w' : World) → Change w w' → IsSound w → IsSound w'
Change-IsSound w w' (nothing e) s = rw e s
Change-IsSound w w' (opens us random h e) s = rw e (record {
  valid = sec_on_connect-IsValid us random h w.sec s.valid;
  short = sec_on_connect-IsShort us random h w.sec s.valid s.short;
  sound = s.sound;
})
Change-IsSound w w' (closes h e) s = rw e (record {
  valid = sec_clear_conn-IsValid h w.sec s.valid;
  short = sec_clear_conn-IsShort h w.sec s.short;
  sound = biz_clear_auth-IsSound h w.biz s.sound;
})

taken-IsSound :
    (d : Device) (c : Credentials) (rest : List Credentials)
    → d.world.biz.wifi_cred_queue ≡ some (c ∷ rest)
    → IsSound d.world
    → IsSound (taken rest d).world
taken-IsSound d c rest e s = record {
  valid = s.valid;
  short = s.short;
  sound = record {
    mirrored = s.sound.mirrored;
    typed = s.sound.typed;
    queued =
        λ q f. let same : rest ≡ q = cc in subst (All IsWellFormed) same (s.sound.queued _ e).1;
  };
}

pub Ran-IsSound : {b d : Device} → IsSound b.world → Ran b d → IsSound d.world
Ran-IsSound s start = s
Ran-IsSound s (gap {d} {d'} {r} us random adv e run q) =
    Change-IsSound d.world d'.world (gap-Change us random adv e d d' r q) (Ran-IsSound s run)
Ran-IsSound s (access {d} {w} {code} {om'} p us h attr op om law run q) =
    gatt_svc_access-IsSound p us h attr op om om' code d.world w law (Ran-IsSound s run) q
Ran-IsSound s (takes {d} c rest run q) = taken-IsSound d c rest q (Ran-IsSound s run)

-- the credentials that a run takes from the queue, latest first
abbrev pub taken_in : {b d : Device} → Ran b d → List Credentials
taken_in start = []
taken_in (gap us random adv e run q) = taken_in run
taken_in (access p us h attr op om law run q) = taken_in run
taken_in (takes c rest run q) = c ∷ taken_in run

taken_in-IsWellFormed :
    {b d : Device} → IsSound b.world → (run : Ran b d) → All IsWellFormed (taken_in run)
taken_in-IsWellFormed s start = tt
taken_in-IsWellFormed s (gap us random adv e run q) = taken_in-IsWellFormed s run
taken_in-IsWellFormed s (access p us h attr op om law run q) = taken_in-IsWellFormed s run
taken_in-IsWellFormed s (takes {d} c rest run q) =
    (((Ran-IsSound s run).sound.queued (c ∷ rest) q).0, taken_in-IsWellFormed s run)

pub booted-IsSound : (h : Handles) (created : Bool) → IsSound (with_handles h (booted created))
unfolding wifi_manager_init sec_init
booted-IsSound h created = record {
  valid = booted-IsValid h created;
  short = record { len = sec_init-IsShort.len; slots = sec_init-IsShort.slots };
  sound = record {
    mirrored = refl;
    typed = ground arith;
    queued = λ q e. elim (Bool-cases created) [
      | inl t ↦ let same : [] ≡ q = ground (arith, t, e) in subst (All IsWellFormed) same tt
      | inr f ↦ absurd (ground (arith, f, e))
    ];
  };
}

module _ (c : StartCalls) (cfg : HostConfig) (handles : Handles) (ensured inferred : ℕ)
    (fields_set : Bool) (d₀ d₁ d : Device) (started : app_main c ≡ running cfg d₀)
    (synced : bleprph_on_sync ensured inferred fields_set
        (record d₀ { world = with_handles handles d₀.world })
      ≡ some d₁)
    (run : Ran d₁ d) where
  -- From power on, when app_main starts the host, NimBLE stores any attribute handles, and the
  -- synchronisation with the host does not abort: after any run of GAP events, of characteristic
  -- accesses by any connections at any times, with answers that are accepted and with packets, each
  -- access with a queue that puts its items in order, and of credentials that are taken from the
  -- queue: each reported value is the desired one and within its variable's type (32 bits for rpm
  -- and angle, 8 for light and power); in every queued entry ssid_len and pass_len are the lengths
  -- of the two strings, and at most 32 and 64; and the security state is well formed, with nonces
  -- of at most 16 bytes.
  pub power_on-IsSound : IsSound d.world
  power_on-IsSound =
      let world = power_on-world c cfg handles ensured inferred fields_set d₀ d₁ started synced in
      Ran-IsSound (rw world (booted-IsSound handles c.queue_created)) run

  pub power_on-taken : All IsWellFormed (taken_in run)
  power_on-taken =
      let world = power_on-world c cfg handles ensured inferred fields_set d₀ d₁ started synced in
      taken_in-IsWellFormed (rw world (booted-IsSound handles c.queue_created)) run

  -- From power on, when app_main starts the host, NimBLE stores any attribute handles, and the
  -- synchronisation with the host does not abort: after any run of GAP events, of characteristic
  -- accesses by any connections at any times, with packets, each access with a queue that puts its
  -- items in order, and of credentials taken from the queue, no access of any kind, by any
  -- connection, to any attribute, writes past its buffer: a read of the challenge past its 16
  -- bytes, a write past the 32 bytes of an answer, the 4 or 1 of a value, or the 129 of a packet
  -- with its NUL. NimBLE copies at most as many bytes of an mbuf as it is told.
  pub power_on-IsAnswered :
      (p : Platform) (us h attr : ℕ) (op : Op) (om : Bytes)
      → CopiesAtMost p
      → gatt_svc_access p us h attr op om d.world ≢ fault
  power_on-IsAnswered p us h attr op om law =
      gatt_svc_access-IsAnswered p us h attr op om d.world law power_on-IsSound.short
