-- ===== src/Wifi/Station.antt =====
-- main/wifi_manager.c: `wifi_start_with_creds`, the calls that start the station.
use air_shifter_rough.Common.{ℕ, List, ◌∷◌, Bytes, ◌==◌, if◌then◌else◌, take}
use air_shifter_rough.Platform.{Credentials}

-- The calls of the driver. A configuration is the strings in the buffers of ESP-IDF's
-- `wifi_sta_config_t`, `ssid` of 32 and `password` of 64 bytes.
pub data Call : Type 0 where
  set_mode_sta start connect : Call
  set_config : Bytes → Bytes → Call

-- Both copies leave the last byte of their buffer free.
abbrev pub config_of : Credentials → Call
config_of c = set_config (take 31 c.ssid) (take 63 c.pass)

-- The result of the last call that was made, and the calls, latest first.
unfoldable pub wifi_start_with_creds :
    (List Call → Call → ℕ) → Credentials → List Call → ℕ × List Call
wifi_start_with_creds rc c calls =
    let moded = set_mode_sta ∷ calls in
    let configured = config_of c ∷ moded in
    let started = start ∷ configured in
    if rc calls set_mode_sta == 0
    then if rc moded (config_of c) == 0
      then if rc configured start == 0
        then (rc started connect, connect ∷ started)
        else (rc configured start, started)
      else (rc moded (config_of c), configured)
    else (rc calls set_mode_sta, moded)
