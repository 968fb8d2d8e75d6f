-- ===== src/Gap/Proved/Tests.antt =====
-- A connection that answered its challenge passes the check, and was made within five minutes.
use air_shifter_rough.Common.{◌≡◌, refl, true, arith}
use air_shifter_rough.Testing.Booted.{
  calls, handles, host_started, synced, starts, syncs, requested, run,
}
use air_shifter_rough.Gap.Start.{host_config}
use air_shifter_rough.Gap.Proved.{ProvedIn, power_on_checked-ProvedIn}
use air_shifter_rough.Gap.Expiry.{MadeIn, power_on_checked-MadeIn}
use air_shifter_rough.Gatt.{write_chr, write_auth, write_packet, gatt_svr_write_flat}
use air_shifter_rough.Security.{
  sec_on_connect, find_or_alloc, sec_init, challenge, generate_nonce_for_index,
  update_auth_char_value_and_notify, sec_handle_auth_response, respond_at, compute_hmac_sha256,
  check_response, diff_loop, sec_is_conn_authenticated,
}
use air_shifter_rough.Security.Slots.{find_entry, alloc_entry, find_free}
use air_shifter_rough.Security.Nonce.{fill_nonce, write}

passes : sec_is_conn_authenticated 4_000_000 1 requested.world.sec ≡ true
unfolding write_chr write_auth write_packet gatt_svr_write_flat sec_on_connect find_or_alloc
    sec_init challenge generate_nonce_for_index update_auth_char_value_and_notify
    sec_handle_auth_response respond_at compute_hmac_sha256 check_response diff_loop
    sec_is_conn_authenticated find_entry alloc_entry find_free fill_nonce write
passes = refl

power_on_checked-ProvedIn_example : ProvedIn 1 run
power_on_checked-ProvedIn_example =
    power_on_checked-ProvedIn calls host_config handles 0 0 true host_started synced requested run 1
      4_000_000 starts syncs (omega arith) passes

power_on_checked-MadeIn_example : MadeIn 4_000_000 1 run
power_on_checked-MadeIn_example =
    power_on_checked-MadeIn calls host_config handles 0 0 true host_started synced requested run 1
      4_000_000 starts syncs (omega arith) passes
