-- ===== src/Wifi/Tests.antt =====
-- Theorems of main/wifi_manager.c at concrete states, with a flash that keeps every string.
use air_shifter_rough.Common.{
  bytes_eq, ℕ, ◌≤◌, ◌≡◌, ◌↔◌, refl, true, false, none, some, List, [], ◌∷◌, arith, codes, ◌==◌,
  if◌then◌else◌, length, replicate, pos,
}
use air_shifter_rough.Platform.{Credentials}
use air_shifter_rough.Parser.Queue.{IsWellFormed}
use air_shifter_rough.Testing.Flash.{memory, memory-NvsLaws, full, full-NvsLaws, full-KeepsRest}
use air_shifter_rough.Wifi.Nvs.{key_pass, store_credentials_nvs}
use air_shifter_rough.Wifi.Station.{
  Call, set_mode_sta, set_config, start, connect, wifi_start_with_creds,
}
use air_shifter_rough.Wifi.Mesh.{
  Happened, MeshCalls, mesh_started, parent_connected, notice, child_connected, mesh_run, HasParent,
  is_mesh_connected_iff,
}
use air_shifter_rough.Wifi.Setup.{
  SetupCall, netif_init, event_loop_create_default, create_mesh_netifs, MeshSettings, checked,
  set_up, got_ip, wifi_event_handler,
}
use air_shifter_rough.Wifi.Received.{
  StoresAll, manager_run, wifi_manager_task, wifi_manager_task-latest,
}
use air_shifter_rough.Wifi.Reboot.{receive_then_boot, wifi_start_with_creds_whole_iff}
use air_shifter_rough.Wifi.Failed.{mixed, failed_store_mixes}
use air_shifter_rough.Wifi.{Manager, manager_boot, manager_receive}

abbrev fresh : Manager memory
fresh = record { flash = λ k. none; calls = [] }

abbrev answers : List Call → Call → ℕ
answers calls call = 0

abbrev home : Credentials
home = record { ssid_len = 4; pass_len = 6; ssid = codes "home"; pass = codes "secret" }

abbrev unset : Credentials
unset = record { ssid_len = 0; pass_len = 0; ssid = []; pass = [] }

home-IsWellFormed : IsWellFormed home
home-IsWellFormed = record {
  ssid_len = refl;
  ssid_fits = omega arith;
  pass_len = refl;
  pass_fits = omega arith;
}

home_stored : (store_credentials_nvs memory home.ssid home.pass fresh.flash).0 ≡ 0
unfolding store_credentials_nvs
home_stored = refl

receive_then_boot_test :
    let after = manager_receive memory answers home fresh in
    (after.calls ≡ (wifi_start_with_creds answers home []).1)
    × (manager_boot memory answers unset (record { flash = after.flash; calls = [] })
        ≡ record { flash = after.flash; calls = (wifi_start_with_creds answers home []).1 })
receive_then_boot_test =
    receive_then_boot memory answers answers home unset fresh memory-NvsLaws home-IsWellFormed
      (omega arith) home_stored

-- a name of 32 bytes, which IEEE 802.11 allows
abbrev long_name : Credentials
long_name = record { ssid_len = 32; pass_len = 0; ssid = replicate 32 b'a'; pass = [] }

long_name_starts : (wifi_start_with_creds answers long_name []).0 ≡ 0
unfolding wifi_start_with_creds
long_name_starts = refl

wifi_start_with_creds_whole_iff_example :
    ((wifi_start_with_creds answers long_name []).1
      ≡ connect ∷ start ∷ set_config (replicate 32 b'a') [] ∷ set_mode_sta ∷ [])
    ↔ ((length long_name.ssid ≤ 31) × (length long_name.pass ≤ 63))
wifi_start_with_creds_whole_iff_example =
    wifi_start_with_creds_whole_iff answers long_name [] long_name_starts

abbrev during : MeshCalls
during = record { layer = pos 1; is_root = false; parent_bssid = replicate 6 0 }

abbrev history : List Happened
history =
    record { during = during; event = notice child_connected }
    ∷ record { during = during; event = parent_connected (pos 2) (replicate 6 7) }
    ∷ record { during = during; event = mesh_started }
    ∷ []

is_mesh_connected_iff_example : ((mesh_run history).is_mesh_connected ≡ true) ↔ HasParent history
is_mesh_connected_iff_example = is_mesh_connected_iff history

abbrev settings : MeshSettings
settings = record {
  topology = 0;
  max_layer = 6;
  channel = 0;
  router_ssid = codes "router";
  router_passwd = codes "password";
  ap_authmode = 3;
  ap_connections = 6;
  ap_passwd = codes "mesh";
}

abbrev all_succeed : List SetupCall → SetupCall → ℕ
all_succeed made call = 0

-- an empty name, which the loop ignores
abbrev nameless : Credentials
nameless = record { ssid_len = 0; pass_len = 0; ssid = []; pass = [] }

nameless-IsWellFormed : IsWellFormed nameless
nameless-IsWellFormed = record {
  ssid_len = refl;
  ssid_fits = omega arith;
  pass_len = refl;
  pass_fits = omega arith;
}

long_name-IsWellFormed : IsWellFormed long_name
long_name-IsWellFormed = record {
  ssid_len = refl;
  ssid_fits = omega arith;
  pass_len = refl;
  pass_fits = omega arith;
}

abbrev received : List Credentials
received = nameless ∷ home ∷ long_name ∷ []

three_stored : StoresAll memory answers received (manager_boot memory answers unset fresh)
unfolding store_credentials_nvs
three_stored = (λ n. refl, (λ n. refl, (λ n. refl, tt)))

home_starts : (wifi_start_with_creds answers home []).0 ≡ 0
unfolding wifi_start_with_creds
home_starts = refl

abbrev after_three : Manager memory
after_three = manager_run memory answers received (manager_boot memory answers unset fresh)

three_rounds :
    wifi_manager_task memory all_succeed settings answers unset received fresh ≡ some after_three
unfolding wifi_manager_task set_up checked
three_rounds = refl

sets_up : (set_up all_succeed settings).0 ≡ true
unfolding set_up checked
sets_up = refl

wifi_manager_task-latest_example :
    wifi_manager_task memory all_succeed settings answers unset []
      (record { flash = after_three.flash; calls = [] })
    ≡ some (record {
      flash = after_three.flash;
      calls = connect ∷ start ∷ set_config (codes "home") (codes "secret") ∷ set_mode_sta ∷ [];
    })
wifi_manager_task-latest_example =
    wifi_manager_task-latest memory all_succeed all_succeed settings answers answers received home
      unset fresh after_three memory-NvsLaws three_stored
      (nameless-IsWellFormed, (home-IsWellFormed, (long_name-IsWellFormed, tt))) refl three_rounds
      sets_up home_starts

-- The first call that fails is the last one made.
no_interface :
    set_up (λ made call. if length made == 2 then 1 else 0) settings
    ≡ (false, create_mesh_netifs ∷ event_loop_create_default ∷ netif_init ∷ [])
unfolding set_up checked
no_interface = refl

got_address : wifi_event_handler got_ip 3 ≡ 0
unfolding wifi_event_handler
got_address = refl

-- a flash that holds another network, and room for no other password
abbrev occupied : Manager full
occupied = record {
  flash = λ k. if bytes_eq k key_pass then some (codes "old secret") else some (codes "away");
  calls = [];
}

mixed_starts : (wifi_start_with_creds answers (mixed home (codes "old secret")) []).0 ≡ 0
unfolding wifi_start_with_creds
mixed_starts = refl

failed_store_mixes_example :
    let after = manager_receive full answers home occupied in
    (after.calls ≡ [])
    × (manager_boot full answers unset (record { flash = after.flash; calls = [] }) ≡ record {
      flash = after.flash;
      calls = connect ∷ start ∷ set_config (codes "home") (codes "old secret") ∷ set_mode_sta ∷ [];
    })
failed_store_mixes_example =
    failed_store_mixes full answers answers home unset (codes "old secret") occupied full-NvsLaws
      full-KeepsRest refl (omega arith) (omega arith) refl refl refl refl mixed_starts
