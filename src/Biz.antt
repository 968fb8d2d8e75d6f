-- ===== src/Biz.antt =====
-- main/biz_logix.c: the desired and reported values of the fan, the table of connections that gave
-- the key, and the queue of Wi-Fi credentials. Each call of `ble_gatts_chr_updated` is an entry of
-- `notified`.
pub mod Setters
pub mod Keys
pub mod KeyHistory
mod Tests
use air_shifter_rough.Common.{
  ℕ, suc, ◌^◌, Bool, true, false, ◌&&◌, ◌||◌, Option, none, some, List, [], ◌∷◌, Bytes, ◌==◌,
  if◌then◌else◌, get_or, set, take, replicate, ℤ, is_negative, to_unsigned, codes, bytes_eq,
}
use mathlib.Core.Option
use air_shifter_rough.Platform.{Platform, Credentials}

pub record AuthState : Type 0 where
  pub conn_handle : ℕ
  pub authenticated : Bool

abbrev pub max_ble_connections : ℕ
max_ble_connections = 4

-- BLE_HS_CONN_HANDLE_NONE
abbrev pub handle_none : ℕ
handle_none = 0xffff

abbrev pub device_auth_key : Bytes
device_auth_key = codes "fan12345"

-- rpm and angle are uint32_t, light and power uint8_t.
pub record Values : Type 0 where
  pub rpm : ℕ
  pub angle : ℕ
  pub light : ℕ
  pub power : ℕ

pub record Biz : Type 0 where
  pub auth_table : List AuthState
  pub ctrl : Values
  pub stat : Values
  -- the status handles, which main/gatt_svr.c registers
  pub stat_handles : Values
  -- `none` is the null handle before `wifi_manager_init`
  pub wifi_cred_queue : Option (List Credentials)
  pub notified : List ℕ

abbrev pub unauthenticated : AuthState
unauthenticated = record { conn_handle = 0; authenticated = false }

abbrev pub zero_values : Values
zero_values = record { rpm = 0; angle = 0; light = 0; power = 0 }

-- the static variables before any call
abbrev pub at_boot : Biz
at_boot = record {
  auth_table = replicate max_ble_connections unauthenticated;
  ctrl = zero_values;
  stat = zero_values;
  stat_handles = zero_values;
  wifi_cred_queue = none;
  notified = [];
}

abbrev pub state_at : List AuthState → ℕ → AuthState
state_at table i = get_or table i unauthenticated

unfoldable pub find_state : ℕ → List AuthState → Option ℕ
find_state h [] = none
find_state h (a ∷ as') = if a.conn_handle == h then some 0 else Option.map suc (find_state h as')

unfoldable pub find_free_state : List AuthState → Option ℕ
find_free_state [] = none
find_free_state (a ∷ as') =
    if a.conn_handle == handle_none || a.conn_handle == 0
    then some 0
    else Option.map suc (find_free_state as')

-- The index of the connection's state, with the table after a slot was taken; `none` is NULL.
unfoldable pub get_auth_state : ℕ → List AuthState → Option (ℕ × List AuthState)
unfolding find_state find_free_state
get_auth_state h table = elim (find_state h table) [
  | some i ↦ some (i, table)
  | none ↦ elim (find_free_state table) [
    | none ↦ none
    | some i ↦ some (i, set table i (record { conn_handle = h; authenticated = false }))
  ]
]

abbrev pub is_device_key : Option Bytes → Bool
is_device_key none = false
is_device_key (some key) = bytes_eq key device_auth_key

unfoldable pub biz_verify_auth_key : ℕ → Option Bytes → Biz → Bool × Biz
unfolding get_auth_state
biz_verify_auth_key h key b = elim (get_auth_state h b.auth_table) [
  | none ↦ (false, b)
  | some (i, table) ↦
      if is_device_key key
      then (
        true,
        record b { auth_table = set table i (record (state_at table i) { authenticated = true }) },
      )
      else (false, record b { auth_table = table })
]

-- The query takes a slot for a connection that has none.
unfoldable pub biz_is_authenticated : ℕ → Biz → Bool × Biz
unfolding get_auth_state
biz_is_authenticated h b = elim (get_auth_state h b.auth_table) [
  | none ↦ (false, b)
  | some (i, table) ↦ ((state_at table i).authenticated, record b { auth_table = table })
]

abbrev pub cleared : ℕ → List AuthState → List AuthState
cleared h [] = []
cleared h (a ∷ as') =
    (if a.conn_handle == h then record { conn_handle = handle_none; authenticated = false } else a)
    ∷ cleared h as'

unfoldable pub biz_clear_auth : ℕ → Biz → Biz
biz_clear_auth h b = record b { auth_table = cleared h b.auth_table }

-- `ble_gatts_chr_updated` for a handle that is registered
abbrev pub notify_status : ℕ → Biz → Biz
notify_status handle b = if handle == 0 then b else record b { notified = handle ∷ b.notified }

unfoldable pub biz_set_rpm : ℤ → Biz → Biz
biz_set_rpm v b =
    if is_negative v
    then b
    else notify_status b.stat_handles.rpm (record b {
      ctrl = record (b.ctrl) { rpm = to_unsigned 32 v };
      stat = record (b.stat) { rpm = to_unsigned 32 v };
    })

unfoldable pub biz_set_angle : ℤ → Biz → Biz
biz_set_angle v b =
    if is_negative v
    then b
    else notify_status b.stat_handles.angle (record b {
      ctrl = record (b.ctrl) { angle = to_unsigned 32 v };
      stat = record (b.stat) { angle = to_unsigned 32 v };
    })

unfoldable pub biz_set_light : ℤ → Biz → Biz
biz_set_light v b =
    if is_negative v
    then b
    else notify_status b.stat_handles.light (record b {
      ctrl = record (b.ctrl) { light = to_unsigned 8 v };
      stat = record (b.stat) { light = to_unsigned 8 v };
    })

unfoldable pub biz_set_power : ℤ → Biz → Biz
biz_set_power v b =
    if is_negative v
    then b
    else notify_status b.stat_handles.power (record b {
      ctrl = record (b.ctrl) { power = to_unsigned 8 v };
      stat = record (b.stat) { power = to_unsigned 8 v };
    })

-- the local copy that is sent
abbrev pub copy_credentials : Credentials → Credentials
copy_credentials c = record {
  ssid_len = c.ssid_len;
  ssid = take 32 c.ssid;
  pass_len = c.pass_len;
  pass = if c.pass_len == 0 then [] else take 64 c.pass;
}

-- `none` is a null pointer. A send that times out is only logged.
unfoldable pub biz_apply_wifi_credentials : Platform → Option Credentials → Biz → Biz
biz_apply_wifi_credentials p none b = b
biz_apply_wifi_credentials p (some c) b = elim b.wifi_cred_queue [
  | none ↦ b
  | some queue ↦ elim (p.queue_send queue (copy_credentials c)) [
    | none ↦ b
    | some queue' ↦ record b { wifi_cred_queue = some queue' }
  ]
]

unfoldable pub biz_get_ctrl_rpm : Biz → ℕ
biz_get_ctrl_rpm b = b.ctrl.rpm

unfoldable pub biz_get_stat_rpm : Biz → ℕ
biz_get_stat_rpm b = b.stat.rpm

unfoldable pub biz_get_ctrl_angle : Biz → ℕ
biz_get_ctrl_angle b = b.ctrl.angle

unfoldable pub biz_get_stat_angle : Biz → ℕ
biz_get_stat_angle b = b.stat.angle

unfoldable pub biz_get_ctrl_light : Biz → ℕ
biz_get_ctrl_light b = b.ctrl.light

unfoldable pub biz_get_stat_light : Biz → ℕ
biz_get_stat_light b = b.stat.light

unfoldable pub biz_get_ctrl_power : Biz → ℕ
biz_get_ctrl_power b = b.ctrl.power

unfoldable pub biz_get_stat_power : Biz → ℕ
biz_get_stat_power b = b.stat.power
