-- ===== src/Gap/Tests.antt =====
-- A run of the device, and the theorem on runs at it.
use air_shifter_rough.Common.{◌≡◌, refl, ap, true, false, [], some, arith}
use air_shifter_rough.Testing.Booted.{
  platform, random, opened, opens, answer, stack, calls, handles, host_started, synced, starts,
  syncs,
}
use air_shifter_rough.Security.Nonce.{word_bytes}
use air_shifter_rough.Security.Invariant.{IsValid, sec_init-IsValid}
use air_shifter_rough.Security.{
  sec_init, statics, sec_on_connect, sec_is_conn_authenticated, find_or_alloc, challenge,
  generate_nonce_for_index, update_auth_char_value_and_notify,
}
use air_shifter_rough.Security.Idle.{IsIdle, IsIdle-check, sec_on_connect-IsIdle}
use air_shifter_rough.Security.Slots.{find_entry, find_free, alloc_entry}
use air_shifter_rough.Biz.{at_boot}
use air_shifter_rough.Gatt.{insufficient_authen, done, writes_chr, gatt_svc_access}
use air_shifter_rough.Gatt.Guard.{write_chr_refused}
use air_shifter_rough.Gap.{Device, connect, ok, bleprph_gap_event, bleprph_advertise}
use air_shifter_rough.Gatt.Services.{gatt_svr_init}
use air_shifter_rough.Gap.Start.{
  nvs_ready, wifi_manager_init, power_on, host_config, aborted, without_ble, app_main,
}
use air_shifter_rough.Gap.Booted.{IsAtRest, power_on-IsAtRest}
use air_shifter_rough.Gap.Control.{connected as connected_world, answered, power_on_controls}
use air_shifter_rough.Gatt.ReadBack.{AreDistinct, KeepsBytes}
use air_shifter_rough.Biz.Setters.{rpm, command, desired, reported}
use air_shifter_rough.Common.{length, take_all, pos}
use air_shifter_rough.Testing.{toy-HmacLength}
use air_shifter_rough.Gatt.{World, success}
use air_shifter_rough.Gap.Safety.{Unproved, boot, gap, access, IsUntouched, Unproved-IsUntouched}

abbrev device : Device
device = record {
  world = record {
    sec = record (sec_init statics) { auth_char_handle = 10 };
    biz = at_boot;
    ctrl_handles = record { rpm = 12; angle = 14; light = 16; power = 18 };
    packet_handle = 30;
    gatt_svr_chr_val_handle = 40;
    dsc_val = 0;
  };
  adv_starts = 0;
  deleted_bonds = [];
}

abbrev connected : Device
connected = record device {
  world = record (device.world) { sec = sec_on_connect 1000 random 1 device.world.sec };
  adv_starts = 1;
}

device-IsValid : IsValid device.world.sec
unfolding sec_init
device-IsValid = record {
  table_size = sec_init-IsValid.table_size;
  distinct = sec_init-IsValid.distinct;
  buffers = sec_init-IsValid.buffers;
  len_pos = omega arith;
  len_fits = omega arith;
  value_size = refl;
  value_fits = omega arith;
}

device-IsIdle : IsIdle device.world.sec
unfolding sec_init
device-IsIdle = (refl, (refl, (refl, tt)))

first_event : bleprph_gap_event 1000 random true (connect 0 1 true) device ≡ some (ok, connected)
unfolding bleprph_gap_event bleprph_advertise
first_event = refl

not_yet : sec_is_conn_authenticated 2_000_000 1 connected.world.sec ≡ false
not_yet =
    IsIdle-check 2_000_000 1 connected.world.sec
      (sec_on_connect-IsIdle 1000 random 1 device.world.sec device-IsValid device-IsIdle)

same_handles : (connected.world.sec.auth_char_handle ≡ 10)
unfolding sec_init sec_on_connect find_or_alloc find_entry alloc_entry find_free challenge
    generate_nonce_for_index update_auth_char_value_and_notify
same_handles = refl

second_access :
    gatt_svc_access platform 2_000_000 1 12 writes_chr (word_bytes 1200) connected.world
    ≡ done insufficient_authen (word_bytes 1200) connected.world
unfolding gatt_svc_access
second_access =
    rw
      (write_chr_refused platform 2_000_000 1 12 (word_bytes 1200) connected.world not_yet
        (λ e. omega (arith, same_handles, e)) refl)
      refl

refused_run : Unproved device connected
refused_run =
    access platform 2_000_000 1 12 writes_chr (word_bytes 1200)
      (gap 1000 random true (connect 0 1 true) boot first_event) second_access
      (λ a. omega (arith, same_handles, a.1))

Unproved-IsUntouched_test : IsUntouched at_boot connected.world
Unproved-IsUntouched_test = Unproved-IsUntouched device-IsValid device-IsIdle refused_run

power_on-IsAtRest_example : IsAtRest opened.world
power_on-IsAtRest_example =
    power_on-IsAtRest calls host_config handles 0 0 true host_started synced opened starts syncs
      (gap 1000 random true (connect 0 1 true) boot opens)

-- NimBLE that does not start leaves the device without Bluetooth.
no_bluetooth :
    app_main (record calls { nimble_port_init = 1 })
    ≡ without_ble (record power_on { biz = wifi_manager_init true at_boot })
unfolding app_main nvs_ready
no_bluetooth = refl

-- An error of the table of services aborts.
no_services : app_main (record calls { gatt = record stack { add_svcs = λ table. 6 } }) ≡ aborted
unfolding app_main gatt_svr_init nvs_ready
no_services = refl

platform-KeepsBytes : KeepsBytes platform
platform-KeepsBytes = (λ bs. ap some (take_all (length bs) bs (omega arith)), λ bs. refl)

synced-AreDistinct : AreDistinct synced.world
synced-AreDistinct = ground arith

power_on_controls_example :
    let w₂ = connected_world 1000 random 1 synced.world in
    let w₃ = answered platform 2_000_000 1 answer w₂ in
    let w₄ : World = record w₃ { biz = command rpm (pos 1200) w₃.biz } in
    ((d₂ : Device) × (bleprph_gap_event 1000 random true (connect 0 1 true) synced ≡ some (ok, d₂))
      × (d₂.world ≡ w₂))
    × (gatt_svc_access platform 2_000_000 1 w₂.sec.auth_char_handle writes_chr answer w₂
        ≡ done success answer w₃)
    × (gatt_svc_access platform 3_000_000 1 5 writes_chr (word_bytes 1200) w₃
        ≡ done success (word_bytes 1200) w₄)
    × (desired rpm w₄.biz ≡ 1200)
    × (reported rpm w₄.biz ≡ 1200)
power_on_controls_example =
    power_on_controls platform calls host_config handles 0 0 true true host_started synced random 1
      answer rpm 1200 1000 2_000_000 3_000_000 platform-KeepsBytes (toy-HmacLength []) starts syncs
      synced-AreDistinct refl (omega arith) (omega arith) (omega arith) (omega arith) (omega arith)
