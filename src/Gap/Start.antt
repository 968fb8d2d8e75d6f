-- ===== src/Gap/Start.antt =====
-- main/main.c: `app_main` and `bleprph_on_sync`; main/wifi_manager.c: `wifi_manager_init`. The results of
-- the calls of ESP-IDF and NimBLE are a record.
use air_shifter_rough.Common.{
  ℕ, Bool, true, false, ◌&&◌, ◌||◌, Option, none, some, List, [], ◌∷◌, Bytes, codes, ◌==◌,
  if◌then◌else◌,
}
use air_shifter_rough.Security.{statics, sec_init}
use air_shifter_rough.Biz.{Biz, at_boot, zero_values}
use air_shifter_rough.Gatt.{World}
use air_shifter_rough.Gatt.Services.{GattStack, gatt_svr_init}
use air_shifter_rough.Gap.{Device, bleprph_advertise}

pub record StartCalls : Type 0 where
  -- nvs_flash_init before and after the erase, and nvs_flash_erase; 0 is ESP_OK
  pub nvs_flash_init : ℕ
  pub nvs_flash_erase : ℕ
  pub nvs_flash_init_again : ℕ
  -- xQueueCreate gave a queue.
  pub queue_created : Bool
  pub nimble_port_init : ℕ
  pub gatt : GattStack
  pub device_name_set : Bytes → ℕ

-- ESP_ERR_NVS_NO_FREE_PAGES and ESP_ERR_NVS_NEW_VERSION_FOUND
abbrev pub nvs_no_free_pages : ℕ
nvs_no_free_pages = 0x110d

abbrev pub nvs_new_version_found : ℕ
nvs_new_version_found = 0x1110

-- Whether every ESP_ERROR_CHECK on the flash passes.
unfoldable pub nvs_ready : StartCalls → Bool
nvs_ready c =
    if c.nvs_flash_init == nvs_no_free_pages || c.nvs_flash_init == nvs_new_version_found
    then c.nvs_flash_erase == 0 && c.nvs_flash_init_again == 0
    else c.nvs_flash_init == 0

-- The task that it creates is in Wifi.
unfoldable pub wifi_manager_init : Bool → Biz → Biz
wifi_manager_init created b = record b { wifi_cred_queue = if created then some [] else none }

-- the static variables
abbrev pub power_on : World
power_on = record {
  sec = statics;
  biz = at_boot;
  ctrl_handles = zero_values;
  packet_handle = 0;
  gatt_svr_chr_val_handle = 0;
  dsc_val = 0;
}

-- the settings of ble_hs_cfg that concern pairing
pub data IoCap : Type 0 where
  no_input_output : IoCap

-- BLE_SM_PAIR_KEY_DIST_ENC and BLE_SM_PAIR_KEY_DIST_ID
pub data KeyDist : Type 0 where
  enc id : KeyDist

pub record HostConfig : Type 0 where
  pub sm_io_cap : IoCap
  pub sm_bonding : Bool
  pub sm_mitm : Bool
  pub sm_sc : Bool
  pub sm_our_key_dist : List KeyDist
  pub sm_their_key_dist : List KeyDist

abbrev pub host_config : HostConfig
host_config = record {
  sm_io_cap = no_input_output;
  sm_bonding = true;
  sm_mitm = false;
  sm_sc = true;
  sm_our_key_dist = enc ∷ id ∷ [];
  sm_their_key_dist = enc ∷ id ∷ [];
}

-- A failed ESP_ERROR_CHECK or assertion aborts; without NimBLE app_main returns early.
pub data Started : Type 0 where
  aborted : Started
  without_ble : World → Started
  running : HostConfig → Device → Started

abbrev device_of : World → Device
device_of w = record { world = w; adv_starts = 0; deleted_bonds = [] }

-- the assertions on gatt_svr_init and on the name, and the start of the host's thread
abbrev run_host : StartCalls → ℕ × World → Started
run_host c r =
    if r.0 == 0
    then if c.device_name_set (codes "Airshifter-BLE") == 0
      then running host_config (device_of r.1)
      else aborted
    else aborted

unfoldable pub app_main : StartCalls → Started
unfolding nvs_ready wifi_manager_init sec_init gatt_svr_init
app_main c =
    let w = record power_on { biz = wifi_manager_init c.queue_created at_boot } in
    if nvs_ready c
    then if c.nimble_port_init == 0
      then run_host c (gatt_svr_init c.gatt (record w { sec = sec_init w.sec }))
      else without_ble w
    else aborted

-- The results of ble_hs_util_ensure_addr and ble_hs_id_infer_auto, and whether the fields can be
-- set; `none` is the failed assertion. The type of the address is only passed on.
unfoldable pub bleprph_on_sync : ℕ → ℕ → Bool → Device → Option Device
unfolding bleprph_advertise
bleprph_on_sync ensured inferred fields_set d =
    if ensured == 0
    then if inferred == 0 then some (bleprph_advertise fields_set d) else some d
    else none
