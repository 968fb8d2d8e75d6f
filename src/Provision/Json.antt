-- ===== src/Provision/Json.antt =====
-- Wi-Fi credentials on their whole way in a JSON packet.
use air_shifter_rough.Common.{
  ℕ, ◌≤◌, ◌≡◌, ◌≢◌, true, false, some, List, [], ◌∷◌, ◌++◌, Bytes, arith, length,
}
use air_shifter_rough.Platform.{Platform, Credentials, Token}
use air_shifter_rough.Security.{sec_is_conn_authenticated}
use air_shifter_rough.Parser.{c_string}
use air_shifter_rough.Parser.Json.{jsmn_token_max}
use air_shifter_rough.Parser.Logins.{credentials}
use air_shifter_rough.Parser.JsonLogins.{LoginTokens, parser_handle_packet-json_login}
use air_shifter_rough.Gatt.{World, success, done, writes_chr, is_ctrl, gatt_svc_access}
use air_shifter_rough.Gatt.Packets.{Flattens}
use air_shifter_rough.Wifi.Nvs.{NvsApi, NvsLaws, store_credentials_nvs}
use air_shifter_rough.Wifi.Station.{
  Call, set_mode_sta, set_config, start, connect, wifi_start_with_creds,
}
use air_shifter_rough.Wifi.{Manager, manager_boot, manager_receive}
use air_shifter_rough.Provision.{packet_reaches_station}

-- A connection that is authenticated writes to the packet characteristic a text of at most 128
-- bytes without a NUL that starts with a brace, for which jsmn gives an object with the keys ssid
-- and pass and their values, a name of 1 to 31 bytes and a password of 1 to 63, neither of which
-- starts with a NUL, wherever they stand. The write succeeds and puts the credentials behind those
-- that wait in the queue, and changes nothing else. When the manager then takes them and the flash
-- stores them without an error, the task after a restart starts the station with exactly the name
-- and the password, if the calls of the driver succeed. The handle of the packet characteristic is
-- none of the auth and the control handles, an mbuf that fits a buffer is copied whole, the queue
-- has room, and the laws of NVS hold.
pub json_login_reaches_station :
    (p : Platform) (us h : ℕ) (json : Bytes) (ts : List Token) (c : ℕ) (cs : Bytes) (d : ℕ)
    (ds : Bytes) (w : World) (queue : List Credentials) (n : NvsApi) (rc rc' : List Call → Call → ℕ)
    (out : Credentials) (m : Manager n)
    → let sent = credentials (c ∷ cs) (d ∷ ds) in
      let packet = b'{' ∷ json in
      Flattens p
      → sec_is_conn_authenticated us h w.sec ≡ true
      → w.packet_handle ≢ w.sec.auth_char_handle
      → is_ctrl w.packet_handle w ≡ false
      → length packet ≤ 128
      → c_string packet ≡ packet
      → p.jsmn_parse packet jsmn_token_max ≡ some ts
      → LoginTokens packet (c ∷ cs) (d ∷ ds) ts
      → c ≢ 0
      → d ≢ 0
      → length (c ∷ cs) ≤ 31
      → length (d ∷ ds) ≤ 63
      → w.biz.wifi_cred_queue ≡ some queue
      → p.queue_send queue sent ≡ some (queue ++ sent ∷ [])
      → NvsLaws n
      → (store_credentials_nvs n (c ∷ cs) (d ∷ ds) m.flash).0 ≡ 0
      → (wifi_start_with_creds rc' sent []).0 ≡ 0
      → (gatt_svc_access p us h w.packet_handle writes_chr packet w
          ≡ done success packet
              (record w { biz = record (w.biz) { wifi_cred_queue = some (queue ++ sent ∷ []) } }))
        × ((manager_boot n rc' out
              (record { flash = (manager_receive n rc sent m).flash; calls = [] })).calls
            ≡ connect ∷ start ∷ set_config (c ∷ cs) (d ∷ ds) ∷ set_mode_sta ∷ [])
json_login_reaches_station p us h json ts c cs d ds w queue n rc rc' out m law auth ne other short
      text parsed x lead lead' fits fits' q sends laws stored started =
    packet_reaches_station p us h (b'{' ∷ json) (c ∷ cs) d ds w queue n rc rc' out m law auth ne
      other (omega arith) short text
      (parser_handle_packet-json_login p json w.biz ts c cs d ds parsed x (omega arith)
        (omega arith) lead lead')
      (omega arith) fits fits' q sends laws stored started
