-- ===== src/Gap/Booted.antt =====
-- main/main.c: the device from the power on, through app_main and the synchronisation with the
-- host, and the runs after it.
use air_shifter_rough.Common.{
  ℕ, ◌≡◌, refl, ap, ◌∙◌, Bool, some, List, [], arith, Bool-cases, inl, inr,
}
use air_shifter_rough.Security.Invariant.{IsValid, sec_init-IsValid}
use air_shifter_rough.Security.Idle.{IsIdle}
use air_shifter_rough.Security.{sec_init, statics}
use air_shifter_rough.Biz.{Values, at_boot, zero_values}
use air_shifter_rough.Gatt.{World}
use air_shifter_rough.Platform.{Credentials}
use mathlib.Core.Path.{subst}
use air_shifter_rough.Gatt.Services.{gatt_svr_init}
use air_shifter_rough.Gap.{Device, bleprph_advertise}
use air_shifter_rough.Gap.Safety.{Unproved, IsUntouched, Unproved-IsUntouched}
use air_shifter_rough.Gap.Start.{
  StartCalls, HostConfig, running, power_on, app_main, wifi_manager_init, bleprph_on_sync,
}

-- the attribute handles that NimBLE writes to the variables of the table
pub record Handles : Type 0 where
  pub auth_char : ℕ
  pub ctrl : Values
  pub stat : Values
  pub packet : ℕ
  pub gatt_svr_chr : ℕ

abbrev pub with_handles : Handles → World → World
with_handles h w = record w {
  sec = record (w.sec) { auth_char_handle = h.auth_char };
  biz = record (w.biz) { stat_handles = h.stat };
  ctrl_handles = h.ctrl;
  packet_handle = h.packet;
  gatt_svr_chr_val_handle = h.gatt_svr_chr;
}

-- what app_main leaves when it starts the host
abbrev pub booted : Bool → World
booted created = record power_on {
  sec = sec_init statics;
  biz = wifi_manager_init created at_boot;
  dsc_val = 0x99;
}

pub app_main-booted :
    (c : StartCalls) (cfg : HostConfig) (d : Device)
    → app_main c ≡ running cfg d
    → d.world ≡ booted c.queue_created
unfolding app_main gatt_svr_init
app_main-booted c cfg d e = ground arith

pub on_sync-world :
    (ensured inferred : ℕ) (fields_set : Bool) (d d' : Device)
    → bleprph_on_sync ensured inferred fields_set d ≡ some d'
    → d'.world ≡ d.world
unfolding bleprph_on_sync bleprph_advertise
on_sync-world ensured inferred fields_set d d' e = ground arith

pub booted-IsValid : (h : Handles) (created : Bool) → IsValid (with_handles h (booted created)).sec
unfolding sec_init
booted-IsValid h created = record {
  table_size = sec_init-IsValid.table_size;
  distinct = sec_init-IsValid.distinct;
  buffers = sec_init-IsValid.buffers;
  len_pos = omega arith;
  len_fits = omega arith;
  value_size = refl;
  value_fits = omega arith;
}

pub booted-IsIdle : (h : Handles) (created : Bool) → IsIdle (with_handles h (booted created)).sec
unfolding sec_init
booted-IsIdle h created = (refl, (refl, (refl, tt)))

-- what holds until an answer is accepted
pub record IsAtRest (w : World) : Type 0 where
  pub desired : w.biz.ctrl ≡ zero_values
  pub reported : w.biz.stat ≡ zero_values
  pub unnotified : w.biz.notified ≡ []
  pub unqueued : (q : List Credentials) → w.biz.wifi_cred_queue ≡ some q → q ≡ []

IsUntouched-IsAtRest :
    (h : Handles) (created : Bool) (w : World)
    → IsUntouched (with_handles h (booted created)).biz w
    → IsAtRest w
unfolding wifi_manager_init
IsUntouched-IsAtRest h created w u = record {
  desired = ap (λ b. b.ctrl) u.same;
  reported = ap (λ b. b.stat) u.same;
  unnotified = ap (λ b. b.notified) u.same;
  unqueued = λ q e. elim (Bool-cases created) [
    | inl t ↦ ground (arith, u.same, e)
    | inr f ↦ ground (arith, u.same, e)
  ];
}

-- the device when the host has synchronised
pub power_on-world :
    (c : StartCalls) (cfg : HostConfig) (h : Handles) (ensured inferred : ℕ) (fields_set : Bool)
    (d₀ d₁ : Device)
    → app_main c ≡ running cfg d₀
    → bleprph_on_sync ensured inferred fields_set (record d₀ { world = with_handles h d₀.world })
      ≡ some d₁
    → d₁.world ≡ with_handles h (booted c.queue_created)
power_on-world c cfg h ensured inferred fields_set d₀ d₁ started synced =
    on_sync-world ensured inferred fields_set _ d₁ synced
    ∙ ap (with_handles h) (app_main-booted c cfg d₀ started)

-- From power on, when app_main starts the host, NimBLE stores any attribute handles, and the
-- synchronisation with the host does not abort: after any run of GAP events and characteristic
-- accesses in which no write to the auth characteristic succeeds and no access faults, the desired
-- and the reported values are all 0, no subscriber of a status value was notified, and no
-- credentials are queued.
pub power_on-IsAtRest :
    (c : StartCalls) (cfg : HostConfig) (h : Handles) (ensured inferred : ℕ) (fields_set : Bool)
    (d₀ d₁ d : Device)
    → app_main c ≡ running cfg d₀
    → bleprph_on_sync ensured inferred fields_set (record d₀ { world = with_handles h d₀.world })
      ≡ some d₁
    → Unproved d₁ d
    → IsAtRest d.world
power_on-IsAtRest c cfg h ensured inferred fields_set d₀ d₁ d started synced run =
    let world = power_on-world c cfg h ensured inferred fields_set d₀ d₁ started synced in
    let valid : IsValid d₁.world.sec = rw world (booted-IsValid h c.queue_created) in
    let idle : IsIdle d₁.world.sec = rw world (booted-IsIdle h c.queue_created) in
    IsUntouched-IsAtRest h c.queue_created d.world
      (subst (λ w. IsUntouched w.biz d.world) world (Unproved-IsUntouched valid idle run))
