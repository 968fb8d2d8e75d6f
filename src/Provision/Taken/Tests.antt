-- ===== src/Provision/Taken/Tests.antt =====
-- Credentials that a central sent after the power on, taken from the queue.
use air_shifter_rough.Common.{◌≡◌, refl, true, none, some, List, [], ◌∷◌, codes, ℕ}
use air_shifter_rough.Platform.{Credentials}
use air_shifter_rough.Testing.Booted.{
  calls, handles, host_started, synced, starts, syncs, requested, run, nothing_taken,
}
use air_shifter_rough.Testing.Flash.{memory, memory-NvsLaws}
use air_shifter_rough.Parser.Logins.{credentials}
use air_shifter_rough.Gap.Start.{host_config, wifi_manager_init}
use air_shifter_rough.Wifi.Nvs.{store_credentials_nvs}
use air_shifter_rough.Wifi.Station.{
  Call, connect, start, set_config, set_mode_sta, wifi_start_with_creds,
}
use air_shifter_rough.Wifi.{Manager, manager_boot}
use air_shifter_rough.Gatt.{write_chr, write_auth, write_packet, gatt_svr_write_flat}
use air_shifter_rough.Security.{
  sec_on_connect, find_or_alloc, sec_init, challenge, generate_nonce_for_index,
  update_auth_char_value_and_notify, sec_handle_auth_response, respond_at, compute_hmac_sha256,
  check_response, diff_loop, sec_is_conn_authenticated,
}
use air_shifter_rough.Security.Slots.{find_entry, alloc_entry, find_free}
use air_shifter_rough.Security.Nonce.{fill_nonce, write}
use air_shifter_rough.Biz.{biz_apply_wifi_credentials}
use air_shifter_rough.CLib.{isspace, skip_spaces, starts_with, strstr}
use air_shifter_rough.Parser.Fields.{
  copy_field, copy_until, legacy_extract_str_field, skip_separators,
}
use air_shifter_rough.Parser.Legacy.{legacy_packet, legacy_pass, legacy_ssid}
use air_shifter_rough.Parser.{parser_handle_packet}
use air_shifter_rough.Provision.Taken.{power_on-latest}
use air_shifter_rough.Gap.Sound.{Ran, takes, taken, taken_in}
use air_shifter_rough.Wifi.Setup.{SetupCall, MeshSettings, checked, set_up}
use air_shifter_rough.Wifi.Received.{StoresAll, latest, manager_run, wifi_manager_task}

abbrev sent : Credentials
sent = credentials (codes "home") (codes "secret")

waits : requested.world.biz.wifi_cred_queue ≡ some (sent ∷ [])
unfolding write_chr write_auth write_packet gatt_svr_write_flat sec_on_connect find_or_alloc
    sec_init challenge generate_nonce_for_index update_auth_char_value_and_notify
    sec_handle_auth_response respond_at compute_hmac_sha256 check_response diff_loop
    sec_is_conn_authenticated find_entry alloc_entry find_free fill_nonce write
    biz_apply_wifi_credentials isspace skip_spaces starts_with strstr copy_field copy_until
    legacy_extract_str_field skip_separators legacy_packet legacy_pass legacy_ssid
    parser_handle_packet wifi_manager_init
waits = refl

-- The Wi-Fi task takes them.
received : Ran synced (taken [] requested)
received = takes sent [] run waits

abbrev fresh : Manager memory
fresh = record { flash = λ k. none; calls = [] }

abbrev answers : List Call → Call → ℕ
answers made call = 0

abbrev all_succeed : List SetupCall → SetupCall → ℕ
all_succeed made call = 0

abbrev unset : Credentials
unset = credentials [] []

abbrev settings : MeshSettings
settings = record {
  topology = 0;
  max_layer = 6;
  channel = 1;
  router_ssid = codes "router";
  router_passwd = codes "password";
  ap_authmode = 3;
  ap_connections = 6;
  ap_passwd = codes "mesh";
}

abbrev after : Manager memory
after = manager_run memory answers (taken_in received) (manager_boot memory answers unset fresh)

ends :
    wifi_manager_task memory all_succeed settings answers unset (taken_in received) fresh
    ≡ some after
unfolding wifi_manager_task set_up checked
ends = refl

sets_up : (set_up all_succeed settings).0 ≡ true
unfolding set_up checked
sets_up = refl

sent_last : latest (taken_in received) ≡ some sent
unfolding received
sent_last = refl

all_stored : StoresAll memory answers (taken_in received) (manager_boot memory answers unset fresh)
unfolding received store_credentials_nvs
all_stored = (λ n. refl, rw nothing_taken tt)

sent_starts : (wifi_start_with_creds answers sent []).0 ≡ 0
unfolding wifi_start_with_creds
sent_starts = refl

power_on-latest_example :
    wifi_manager_task memory all_succeed settings answers unset []
      (record { flash = after.flash; calls = [] })
    ≡ some (record {
      flash = after.flash;
      calls = connect ∷ start ∷ set_config (codes "home") (codes "secret") ∷ set_mode_sta ∷ [];
    })
power_on-latest_example =
    power_on-latest calls host_config handles 0 0 true host_started synced (taken [] requested)
      memory all_succeed all_succeed settings answers answers sent unset fresh after received starts
      syncs memory-NvsLaws all_stored ends sent_last sets_up sent_starts
