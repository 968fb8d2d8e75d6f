-- ===== src/Gap/Sound/Tests.antt =====
-- What holds of every run, at a run of three steps.
use air_shifter_rough.Common.{◌≢◌, true, []}
use air_shifter_rough.Testing.Booted.{
  platform, calls, handles, host_started, synced, starts, syncs, requested, run, login_packet,
}
use air_shifter_rough.Gatt.{fault, writes_chr, gatt_svc_access}
use air_shifter_rough.Gatt.Sound.{IsSound}
use air_shifter_rough.Testing.{toy-CopiesAtMost}
use air_shifter_rough.Gap.Start.{host_config}
use air_shifter_rough.Gap.Sound.{power_on-IsSound, power_on-IsAnswered}

power_on-IsSound_example : IsSound requested.world
power_on-IsSound_example =
    power_on-IsSound calls host_config handles 0 0 true host_started synced requested starts syncs
      run

-- a write of a packet
power_on-IsAnswered_example :
    gatt_svc_access platform 4_000_000 1 15 writes_chr login_packet requested.world ≢ fault
power_on-IsAnswered_example =
    power_on-IsAnswered calls host_config handles 0 0 true host_started synced requested starts
      syncs run platform 4_000_000 1 15 writes_chr login_packet (toy-CopiesAtMost [])
