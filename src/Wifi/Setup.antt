-- ===== src/Wifi/Setup.antt =====
-- main/wifi_manager.c: the set-up of the network and the mesh at the start of the task, and the event
-- handler for IP addresses. The calls of ESP-IDF are data; `rc` gives the result of each from the
-- calls before it, latest first.
use air_shifter_rough.Common.{
  ℕ, Bool, true, false, List, [], ◌∷◌, Bytes, ◌==◌, if◌then◌else◌, length, replicate,
}

-- What the build configures.
pub record MeshSettings : Type 0 where
  pub topology : ℕ
  pub max_layer : ℕ
  pub channel : ℕ
  pub router_ssid : Bytes
  pub router_passwd : Bytes
  pub ap_authmode : ℕ
  pub ap_connections : ℕ
  pub ap_passwd : Bytes

-- the fields of mesh_cfg_t that the code fills
pub record MeshConfig : Type 0 where
  pub mesh_id : Bytes
  pub channel : ℕ
  pub router_ssid_len : ℕ
  pub router_ssid : Bytes
  pub router_password : Bytes
  pub max_connection : ℕ
  pub ap_password : Bytes

pub data SetupCall : Type 0 where
  netif_init event_loop_create_default create_mesh_netifs wifi_init : SetupCall
  register_ip_handler set_storage_flash wifi_start : SetupCall
  mesh_init register_mesh_handler : SetupCall
  set_topology set_max_layer set_xon_qsize : ℕ → SetupCall
  disable_ps : SetupCall
  set_ap_assoc_expire set_ap_authmode : ℕ → SetupCall
  allow_root_conflicts : Bool → SetupCall
  set_config : MeshConfig → SetupCall
  mesh_start : SetupCall

abbrev pub mesh_id : Bytes
mesh_id = replicate 6 0x77

abbrev pub config_of_settings : MeshSettings → MeshConfig
config_of_settings s = record {
  mesh_id = mesh_id;
  channel = s.channel;
  router_ssid_len = length s.router_ssid;
  router_ssid = s.router_ssid;
  router_password = s.router_passwd;
  max_connection = s.ap_connections;
  ap_password = s.ap_passwd;
}

-- the calls in their order, each under ESP_ERROR_CHECK
abbrev pub setup_calls : MeshSettings → List SetupCall
setup_calls s =
    netif_init
    ∷ event_loop_create_default
    ∷ create_mesh_netifs
    ∷ wifi_init
    ∷ register_ip_handler
    ∷ set_storage_flash
    ∷ wifi_start
    ∷ mesh_init
    ∷ register_mesh_handler
    ∷ set_topology s.topology
    ∷ set_max_layer s.max_layer
    ∷ set_xon_qsize 128
    ∷ disable_ps
    ∷ set_ap_assoc_expire 10
    ∷ set_ap_authmode s.ap_authmode
    ∷ allow_root_conflicts false
    ∷ set_config (config_of_settings s)
    ∷ mesh_start
    ∷ []

-- Whether all calls succeeded, and the calls that were made, latest first: the first error aborts.
unfoldable pub checked :
    (List SetupCall → SetupCall → ℕ) → List SetupCall → List SetupCall → Bool × List SetupCall
checked rc [] made = (true, made)
checked rc (c ∷ cs) made =
    let rest = checked rc cs (c ∷ made) in if rc made c == 0 then rest else (false, c ∷ made)

unfoldable pub set_up : (List SetupCall → SetupCall → ℕ) → MeshSettings → Bool × List SetupCall
unfolding checked
set_up rc s = checked rc (setup_calls s) []

pub data IpEvent : Type 0 where
  got_ip other_event : IpEvent

-- the retry counter
unfoldable pub wifi_event_handler : IpEvent → ℕ → ℕ
wifi_event_handler got_ip s_retry_num = 0
wifi_event_handler other_event s_retry_num = s_retry_num
