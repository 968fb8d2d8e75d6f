-- ===== src/Gap/Safety.antt =====
-- Runs of the device: the GAP events of main/main.c and the accesses of main/gatt_svr.c in any
-- order, at any times, by any connections.
use air_shifter_rough.Common.{ℕ, ◌≡◌, refl, Bool, some, Bytes, arith, inl, inr, ◌==◌, Bool-cases}
use air_shifter_rough.Platform.{Platform}
use air_shifter_rough.Security.Invariant.{IsValid, sec_on_connect-IsValid, sec_clear_conn-IsValid}
use air_shifter_rough.Security.Idle.{
  IsIdle, IsIdle-check, sec_on_connect-IsIdle, sec_clear_conn-IsIdle,
}
use air_shifter_rough.Security.{sec_on_connect, sec_clear_conn}
use air_shifter_rough.Biz.{Biz, biz_clear_auth}
use air_shifter_rough.Gatt.{World, Status, done, Op, gatt_svc_access}
use air_shifter_rough.Gatt.Guard.{IsAccepted, gatt_svc_access_keeps}
use air_shifter_rough.Gap.{GapEvent, connect, disconnect, Device, Reply, bleprph_gap_event}

-- The runs in which no answer to a challenge is accepted.
pub data Unproved (b : Device) : Device → Type 0 where
  boot : Unproved b b
  gap :
      {d d' : Device} {r : Reply} (us : ℕ) (random : ℕ → ℕ) (adv : Bool) (e : GapEvent)
      → Unproved b d
      → bleprph_gap_event us random adv e d ≡ some (r, d')
      → Unproved b d'
  access :
      {d : Device} {w : World} {code : Status} {om' : Bytes} (p : Platform) (us h attr : ℕ)
      (op : Op) (om : Bytes)
      → Unproved b d
      → gatt_svc_access p us h attr op om d.world ≡ done code om' w
      → ¬ IsAccepted attr op code d.world
      → Unproved b (record d { world = w })

-- What such a run keeps: all of the business logic but its own table of keys.
pub record IsUntouched (b : Biz) (w : World) : Type 0 where
  pub valid : IsValid w.sec
  pub idle : IsIdle w.sec
  pub same : w.biz ≡ record b { auth_table = w.biz.auth_table }

-- what a GAP event does to the world
pub data Change (w : World) (w' : World) : Type 0 where
  nothing : w' ≡ w → Change w w'
  opens :
      (us : ℕ) (random : ℕ → ℕ) (h : ℕ)
      → w' ≡ record w { sec = sec_on_connect us random h w.sec }
      → Change w w'
  closes :
      (h : ℕ)
      → w' ≡ record w { sec = sec_clear_conn h w.sec; biz = biz_clear_auth h w.biz }
      → Change w w'

pub gap-Change :
    (us : ℕ) (random : ℕ → ℕ) (adv : Bool) (e : GapEvent) (d d' : Device) (r : Reply)
    → bleprph_gap_event us random adv e d ≡ some (r, d')
    → Change d.world d'.world
unfolding bleprph_gap_event
gap-Change us random adv (connect status h known) d d' r q = elim (Bool-cases (status == 0)) [
  | inl up ↦ opens us random h (ground arith)
  | inr down ↦ nothing (ground arith)
]
gap-Change us random adv (disconnect h) d d' r q = closes h (ground arith)
gap-Change us random adv _ d d' r q = nothing (ground arith)

Change-IsUntouched : (b : Biz) (w w' : World) → Change w w' → IsUntouched b w → IsUntouched b w'
unfolding biz_clear_auth
Change-IsUntouched b w w' (nothing e) u = rw e u
Change-IsUntouched b w w' (opens us random h e) u = rw e (record {
  valid = sec_on_connect-IsValid us random h w.sec u.valid;
  idle = sec_on_connect-IsIdle us random h w.sec u.valid u.idle;
  same = u.same;
})
Change-IsUntouched b w w' (closes h e) u = rw e (record {
  valid = sec_clear_conn-IsValid h w.sec u.valid;
  idle = sec_clear_conn-IsIdle h w.sec u.idle;
  same = ground (arith, u.same);
})

-- From a device whose security state is well formed and has no authenticated slot, after any run of
-- GAP events and characteristic accesses, by any connections at any times, in which no write to the
-- auth characteristic succeeds and no access faults: the security state is still well formed with
-- no authenticated slot, and the business logic is what it was, its own table of keys excepted.
pub Unproved-IsUntouched :
    {b d : Device}
    → IsValid b.world.sec
    → IsIdle b.world.sec
    → Unproved b d
    → IsUntouched b.world.biz d.world
Unproved-IsUntouched v i boot = record { valid = v; idle = i; same = refl }
Unproved-IsUntouched {b} v i (gap {d} {d'} {r} us random adv e run q) =
    Change-IsUntouched b.world.biz d.world d'.world (gap-Change us random adv e d d' r q)
      (Unproved-IsUntouched v i run)
Unproved-IsUntouched {b} v i (access {d} {w} {code} {om'} p us h attr op om run q n) =
    let u = Unproved-IsUntouched v i run in
    Change-IsUntouched b.world.biz d.world w
      (nothing (
        gatt_svc_access_keeps p us h attr op om om' code d.world w
          (IsIdle-check us h d.world.sec u.idle) q n))
      u
