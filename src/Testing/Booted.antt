-- ===== src/Testing/Booted.antt =====
-- A device that has started and synchronised with its host, and a run of it, for the tests.
use air_shifter_rough.Common.{ℕ, ◌≡◌, refl, true, some, [], Bytes, codes, arith}
use air_shifter_rough.Platform.{Platform}
use air_shifter_rough.Gatt.{write_chr, write_auth, write_packet, gatt_svr_write_flat}
use air_shifter_rough.Security.{
  sec_on_connect, find_or_alloc, sec_init, challenge, generate_nonce_for_index,
  update_auth_char_value_and_notify, sec_handle_auth_response, respond_at, compute_hmac_sha256,
  check_response, diff_loop, sec_is_conn_authenticated,
}
use air_shifter_rough.Security.Slots.{find_entry, alloc_entry, find_free}
use air_shifter_rough.Security.Nonce.{fill_nonce, write}
use air_shifter_rough.Biz.{biz_apply_wifi_credentials}
use air_shifter_rough.CLib.{isspace, skip_spaces, starts_with, strstr}
use air_shifter_rough.Parser.Fields.{
  copy_field, copy_until, legacy_extract_str_field, skip_separators,
}
use air_shifter_rough.Parser.Legacy.{legacy_packet, legacy_pass, legacy_ssid}
use air_shifter_rough.Parser.{parser_handle_packet}
use air_shifter_rough.Testing.{toy, toy_hmac}
use air_shifter_rough.Security.Filling.{random_bytes}
use air_shifter_rough.Security.{sec_init, statics, sec_on_connect, default_key}
use air_shifter_rough.Biz.{at_boot}
use air_shifter_rough.Parser.Queue.{Enqueues}
use air_shifter_rough.Gatt.Services.{GattStack, gatt_svr_init}
use air_shifter_rough.Gatt.{writes_chr, success}
use air_shifter_rough.Gatt.Guard.{gatt_svc_access-writes}
use air_shifter_rough.Gap.Start.{
  StartCalls, nvs_no_free_pages, nvs_ready, wifi_manager_init, power_on, host_config, running,
  app_main, bleprph_on_sync,
}
use air_shifter_rough.Gap.Booted.{Handles, with_handles}
use air_shifter_rough.Gap.Sound.{Ran, start, gap, access, taken_in}
use air_shifter_rough.Gap.{Device, connect, ok, bleprph_gap_event, bleprph_advertise}

abbrev pub platform : Platform
platform = toy []

abbrev pub random : ℕ → ℕ
random k = k

abbrev pub stack : GattStack
stack = record { count_cfg = λ table. 0; add_svcs = λ table. 0 }

abbrev pub calls : StartCalls
calls = record {
  nvs_flash_init = nvs_no_free_pages;
  nvs_flash_erase = 0;
  nvs_flash_init_again = 0;
  queue_created = true;
  nimble_port_init = 0;
  gatt = stack;
  device_name_set = λ name. 0;
}

abbrev pub handles : Handles
handles = record {
  auth_char = 13;
  ctrl = record { rpm = 5; angle = 7; light = 9; power = 11 };
  stat = record { rpm = 17; angle = 19; light = 21; power = 23 };
  packet = 15;
  gatt_svr_chr = 3;
}

abbrev pub host_started : Device
host_started = record {
  world = record power_on {
    sec = sec_init statics;
    biz = wifi_manager_init true at_boot;
    dsc_val = 0x99;
  };
  adv_starts = 0;
  deleted_bonds = [];
}

abbrev pub synced : Device
synced = record host_started { world = with_handles handles host_started.world; adv_starts = 1 }

pub starts : app_main calls ≡ running host_config host_started
unfolding app_main gatt_svr_init nvs_ready
starts = refl

pub syncs :
    bleprph_on_sync 0 0 true
      (record host_started { world = with_handles handles host_started.world })
    ≡ some synced
unfolding bleprph_on_sync bleprph_advertise
syncs = refl

toy-Enqueues : Enqueues platform
toy-Enqueues queue after c e = ground (arith, e)

abbrev pub opened : Device
opened = record synced {
  world = record (synced.world) { sec = sec_on_connect 1000 random 1 synced.world.sec };
  adv_starts = 2;
}

pub opens : bleprph_gap_event 1000 random true (connect 0 1 true) synced ≡ some (ok, opened)
unfolding bleprph_gap_event bleprph_advertise
opens = refl

-- the answer of a central that knows the key
abbrev pub answer : Bytes
answer = toy_hmac default_key (random_bytes random 16)

abbrev pub proved : Device
proved = record opened { world = (write_chr platform 2_000_000 1 13 answer opened.world).1 }

abbrev pub login_packet : Bytes
login_packet = codes "SSID:home,PASS:secret"

abbrev pub requested : Device
requested = record proved {
  world = (write_chr platform 3_000_000 1 15 login_packet proved.world).1;
}

accepts_answer : write_chr platform 2_000_000 1 13 answer opened.world ≡ (success, proved.world)
unfolding write_chr write_auth write_packet gatt_svr_write_flat sec_on_connect find_or_alloc
    sec_init challenge generate_nonce_for_index update_auth_char_value_and_notify
    sec_handle_auth_response respond_at compute_hmac_sha256 check_response diff_loop
    sec_is_conn_authenticated find_entry alloc_entry find_free fill_nonce write
    biz_apply_wifi_credentials isspace skip_spaces starts_with strstr copy_field copy_until
    legacy_extract_str_field skip_separators legacy_packet legacy_pass legacy_ssid
    parser_handle_packet wifi_manager_init
accepts_answer = refl

accepts_login :
    write_chr platform 3_000_000 1 15 login_packet proved.world ≡ (success, requested.world)
unfolding write_chr write_auth write_packet gatt_svr_write_flat sec_on_connect find_or_alloc
    sec_init challenge generate_nonce_for_index update_auth_char_value_and_notify
    sec_handle_auth_response respond_at compute_hmac_sha256 check_response diff_loop
    sec_is_conn_authenticated find_entry alloc_entry find_free fill_nonce write
    biz_apply_wifi_credentials isspace skip_spaces starts_with strstr copy_field copy_until
    legacy_extract_str_field skip_separators legacy_packet legacy_pass legacy_ssid
    parser_handle_packet wifi_manager_init
accepts_login = refl

-- a connection, its answer, and credentials
pub run : Ran synced requested
run =
    access platform 3_000_000 1 15 writes_chr login_packet toy-Enqueues
      (access platform 2_000_000 1 13 writes_chr answer toy-Enqueues
        (gap 1000 random true (connect 0 1 true) start opens)
        (gatt_svc_access-writes platform 2_000_000 1 13 answer opened.world proved.world
          accepts_answer))
      (gatt_svc_access-writes platform 3_000_000 1 15 login_packet proved.world requested.world
        accepts_login)

pub nothing_taken : taken_in run ≡ []
unfolding run
nothing_taken = refl
