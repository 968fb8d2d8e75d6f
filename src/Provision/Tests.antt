-- ===== src/Provision/Tests.antt =====
-- Credentials on their whole way, at a concrete packet.
use air_shifter_rough.Common.{
  ℕ, ◌≡◌, refl, Bytes, ap, true, none, some, List, [], ◌∷◌, arith, codes, take_all,
}
use air_shifter_rough.Platform.{Platform, Credentials, Token, TokenType}
use air_shifter_rough.Testing.{toy, token}
use air_shifter_rough.Testing.Flash.{memory, memory-NvsLaws}
use air_shifter_rough.CLib.{isspace, strstr, starts_with}
use air_shifter_rough.Security.Slots.{Slot, zeroed, find_entry}
use air_shifter_rough.Security.{statics, sec_is_conn_authenticated}
use air_shifter_rough.Biz.{at_boot}
use air_shifter_rough.Parser.Logins.{IsValue, credentials}
use air_shifter_rough.Gatt.{World, success, done, writes_chr, gatt_svc_access}
use air_shifter_rough.Gatt.Packets.{Flattens}
use air_shifter_rough.Wifi.Nvs.{store_credentials_nvs}
use air_shifter_rough.Wifi.Station.{
  Call, set_mode_sta, set_config, start, connect, wifi_start_with_creds,
}
use air_shifter_rough.Wifi.{Manager, manager_boot, manager_receive}
use air_shifter_rough.Provision.{login_reaches_station}
use air_shifter_rough.Parser.JsonLogins.{LoginTokens}
use air_shifter_rough.Provision.Json.{json_login_reaches_station}

abbrev platform : Platform
platform = toy []

abbrev first : Slot
first = record zeroed { conn_handle = 1; authenticated = true; nonce_len = 16; created_ts_ms = 1 }

abbrev world : World
world = record {
  sec = record statics { conns = first ∷ zeroed ∷ zeroed ∷ []; auth_char_handle = 13 };
  biz = record at_boot {
    stat_handles = record { rpm = 17; angle = 19; light = 21; power = 23 };
    wifi_cred_queue = some [];
  };
  ctrl_handles = record { rpm = 5; angle = 7; light = 9; power = 11 };
  packet_handle = 15;
  gatt_svr_chr_val_handle = 3;
  dsc_val = 0x99;
}

toy-Flattens : Flattens platform
toy-Flattens bs room fits = ap some (take_all room bs fits)

first_passes : sec_is_conn_authenticated 2_000_000 1 world.sec ≡ true
unfolding sec_is_conn_authenticated find_entry
first_passes = refl

abbrev answers : List Call → Call → ℕ
answers calls call = 0

abbrev fresh : Manager memory
fresh = record { flash = λ k. none; calls = [] }

abbrev sent : Credentials
sent = credentials (codes "home") (codes "secret")

home-IsValue : IsValue (codes "home")
unfolding isspace
home-IsValue = (refl, ((refl, refl), ((refl, refl), ((refl, refl), ((refl, refl), tt)))))

secret-IsValue : IsValue (codes "secret")
unfolding isspace
secret-IsValue = (
  refl,
  (
    (refl, refl),
    ((refl, refl), ((refl, refl), ((refl, refl), ((refl, refl), ((refl, refl), tt))))),
  ),
)

home_only : strstr (codes "home") (codes "PASS") ≡ none
unfolding strstr starts_with
home_only = refl

stores : (store_credentials_nvs memory (codes "home") (codes "secret") fresh.flash).0 ≡ 0
unfolding store_credentials_nvs
stores = refl

starts : (wifi_start_with_creds answers sent []).0 ≡ 0
unfolding wifi_start_with_creds
starts = refl

login_reaches_station_example :
    (gatt_svc_access platform 2_000_000 1 15 writes_chr (codes "SSID:home,PASS:secret") world
      ≡ done success
          (codes "SSID:home,PASS:secret")
          (record world { biz = record (world.biz) { wifi_cred_queue = some (sent ∷ []) } }))
    × ((manager_boot memory answers sent
          (record { flash = (manager_receive memory answers sent fresh).flash; calls = [] })).calls
        ≡ connect ∷ start ∷ set_config (codes "home") (codes "secret") ∷ set_mode_sta ∷ [])
login_reaches_station_example =
    login_reaches_station platform 2_000_000 1 b'h' (codes "ome") b's' (codes "ecret") world []
      memory answers answers sent fresh toy-Flattens first_passes (omega arith) refl home-IsValue
      secret-IsValue (omega arith) (omega arith) home_only refl refl memory-NvsLaws stores starts

abbrev json : Bytes
json = codes "\"ssid\":\"home\",\"pass\":\"secret\"}"

abbrev object : Token
object = token TokenType.object 0 31

abbrev key : Token
key = token TokenType.string 2 6

abbrev name : Token
name = token TokenType.string 9 13

abbrev key' : Token
key' = token TokenType.string 16 20

abbrev word : Token
word = token TokenType.string 23 29

abbrev tokens : List Token
tokens = object ∷ key ∷ name ∷ key' ∷ word ∷ []

json_tokens : LoginTokens (b'{' ∷ json) (codes "home") (codes "secret") tokens
json_tokens = record {
  object = object;
  name_pair = record { key = key; value = name };
  word_pair = record { key = key'; value = word };
  tokens = refl;
  object_type = refl;
  key_type = refl;
  key_type' = refl;
  key = record {
    rest = codes "\":\"home\",\"pass\":\"secret\"}";
    here = refl;
    until = refl;
    fits = omega arith;
  };
  key' = record { rest = codes "\":\"secret\"}"; here = refl; until = refl; fits = omega arith };
  value = record {
    rest = codes "\",\"pass\":\"secret\"}";
    here = refl;
    until = refl;
    fits = omega arith;
  };
  value' = record { rest = codes "\"}"; here = refl; until = refl; fits = omega arith };
}

json_Flattens : Flattens (toy tokens)
json_Flattens bs room fits = ap some (take_all room bs fits)

json_login_reaches_station_example :
    (gatt_svc_access (toy tokens) 2_000_000 1 15 writes_chr (b'{' ∷ json) world
      ≡ done success
          (b'{' ∷ json)
          (record world { biz = record (world.biz) { wifi_cred_queue = some (sent ∷ []) } }))
    × ((manager_boot memory answers sent
          (record { flash = (manager_receive memory answers sent fresh).flash; calls = [] })).calls
        ≡ connect ∷ start ∷ set_config (codes "home") (codes "secret") ∷ set_mode_sta ∷ [])
json_login_reaches_station_example =
    json_login_reaches_station (toy tokens) 2_000_000 1 json tokens b'h' (codes "ome") b's'
      (codes "ecret") world [] memory answers answers sent fresh json_Flattens first_passes
      (omega arith) refl (omega arith) refl refl json_tokens (omega arith) (omega arith)
      (omega arith) (omega arith) refl refl memory-NvsLaws stores starts
