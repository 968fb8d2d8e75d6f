-- ===== src/Provision/Taken.antt =====
-- The whole firmware from the power on: BLE, the parser, the queue, and main/wifi_manager.c, which
-- takes the credentials.
mod Tests
use air_shifter_rough.Common.{ℕ, ◌≡◌, Bool, true, some, List, [], ◌∷◌, take}
use air_shifter_rough.Platform.{Credentials}
use air_shifter_rough.Gap.{Device}
use air_shifter_rough.Gap.Start.{StartCalls, HostConfig, running, app_main, bleprph_on_sync}
use air_shifter_rough.Gap.Booted.{Handles, with_handles}
use air_shifter_rough.Gap.Sound.{Ran, taken_in, power_on-taken}
use air_shifter_rough.Wifi.Nvs.{NvsApi, NvsLaws}
use air_shifter_rough.Wifi.Station.{
  Call, set_mode_sta, set_config, start, connect, wifi_start_with_creds,
}
use air_shifter_rough.Wifi.Setup.{SetupCall, MeshSettings, set_up}
use air_shifter_rough.Wifi.Received.{StoresAll, latest, wifi_manager_task, wifi_manager_task-latest}
use air_shifter_rough.Wifi.{Manager, manager_boot}

-- From power on, when app_main starts the host, NimBLE stores any attribute handles, and the
-- synchronisation with the host does not abort: take any run of GAP events, of characteristic
-- accesses by any connections, with packets, each access with a queue that puts its items in order,
-- and of credentials taken from the queue. When the Wi-Fi task is set up and receives exactly the
-- credentials that were taken, on a flash for which the laws of NVS hold and which stores each of
-- them that has a name without an error, then the task after a restart, if it is set up and the
-- station starts without an error, has made exactly the four calls that start the station with the
-- latest of these credentials whose name is not empty: with the first 31 bytes of the name and the
-- first 63 of the password, so the whole of them when they are no longer.
pub power_on-latest :
    (calls : StartCalls) (cfg : HostConfig) (handles : Handles) (ensured inferred : ℕ)
    (fields_set : Bool) (d₀ d₁ d : Device) (n : NvsApi)
    (setup setup' : List SetupCall → SetupCall → ℕ) (settings : MeshSettings)
    (rc rc' : List Call → Call → ℕ) (c cred : Credentials) (m after : Manager n) (run : Ran d₁ d)
    → app_main calls ≡ running cfg d₀
    → bleprph_on_sync ensured inferred fields_set
        (record d₀ { world = with_handles handles d₀.world })
      ≡ some d₁
    → NvsLaws n
    → StoresAll n rc (taken_in run) (manager_boot n rc cred m)
    → wifi_manager_task n setup settings rc cred (taken_in run) m ≡ some after
    → latest (taken_in run) ≡ some c
    → (set_up setup' settings).0 ≡ true
    → (wifi_start_with_creds rc' c []).0 ≡ 0
    → wifi_manager_task n setup' settings rc' cred [] (record { flash = after.flash; calls = [] })
      ≡ some (record {
        flash = after.flash;
        calls = connect ∷ start ∷ set_config (take 31 c.ssid) (take 63 c.pass) ∷ set_mode_sta ∷ [];
      })
power_on-latest calls cfg handles ensured inferred fields_set d₀ d₁ d n setup setup' settings rc rc'
      c cred m after run started synced laws stores ran named up started_station =
    wifi_manager_task-latest n setup setup' settings rc rc' (taken_in run) c cred m after laws
      stores
      (power_on-taken calls cfg handles ensured inferred fields_set d₀ d₁ d started synced run)
      named ran up started_station
