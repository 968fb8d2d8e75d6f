-- ===== src/Wifi.antt =====
-- main/wifi_manager.c: the store of credentials, the start of the station, and the manager's task
-- from the load of the stored credentials on. A result 0 is ESP_OK.
pub mod Nvs
pub mod Station
pub mod Mesh
pub mod Setup
pub mod Reboot
pub mod Received
pub mod Failed
mod Tests
use air_shifter_rough.Common.{
  ℕ, Bool, true, false, ◌||◌, List, [], ◌∷◌, Bytes, ◌==◌, ltb, if◌then◌else◌,
}
use air_shifter_rough.Platform.{Credentials}
use Nvs.{NvsApi, store_credentials_nvs, load_credentials_nvs}
use Station.{Call, wifi_start_with_creds}

-- The task's state: the flash and the calls of the Wi-Fi driver, latest first. `rc` gives the result
-- of each call of the driver from the calls before it.
pub record Manager (n : NvsApi) : Type 0 where
  pub flash : n.State
  pub calls : List Call

-- ssid_len == 0 || ssid_len > WIFI_SSID_MAX_LEN || pass_len > WIFI_PASS_MAX_LEN
abbrev pub has_invalid_length : Credentials → Bool
has_invalid_length c = c.ssid_len == 0 || ltb 32 c.ssid_len || ltb 64 c.pass_len

module _ (n : NvsApi) (rc : List Call → Call → ℕ) where
  -- what the task does before its loop; `cred` is its local variable, still to be filled
  unfoldable pub manager_boot : Credentials → Manager n → Manager n
  unfolding load_credentials_nvs wifi_start_with_creds
  manager_boot cred m =
      if (load_credentials_nvs n cred m.flash).0 == 0
      then record m {
        calls = (wifi_start_with_creds rc (load_credentials_nvs n cred m.flash).1 m.calls).1;
      }
      else m

  -- one round of the loop, for credentials that were received
  unfoldable pub manager_receive : Credentials → Manager n → Manager n
  unfolding store_credentials_nvs wifi_start_with_creds
  manager_receive c m =
      if has_invalid_length c
      then m
      else if (store_credentials_nvs n c.ssid c.pass m.flash).0 == 0
      then record {
        flash = (store_credentials_nvs n c.ssid c.pass m.flash).1;
        calls = (wifi_start_with_creds rc c m.calls).1;
      }
      else record m { flash = (store_credentials_nvs n c.ssid c.pass m.flash).1 }
