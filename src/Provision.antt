-- ===== src/Provision.antt =====
-- Wi-Fi credentials on their whole way: a packet that a central writes (main/gatt_svr.c), the parser
-- (main/parser.c), the queue (main/biz_logix.c), the flash and the station (main/wifi_manager.c).
pub mod Json
pub mod Taken
mod Tests
use air_shifter_rough.Common.{
  ℕ, ◌+◌, ◌≤◌, ◌≡◌, ◌≢◌, refl, sym, ap, ap₂, ◌∙◌, true, false, none, some, List, [], ◌∷◌, ◌++◌,
  Bytes, arith, ==_no, All, length, length-append, take, take_all, ◌==◌, if◌then◌else◌, codes,
}
use air_shifter_rough.CLib.{strstr}
use air_shifter_rough.Platform.{Platform, Credentials}
use air_shifter_rough.Security.{sec_is_conn_authenticated}
use air_shifter_rough.Biz.{Biz, biz_apply_wifi_credentials, copy_credentials}
use air_shifter_rough.Parser.{c_string, parser_handle_packet}
use air_shifter_rough.Parser.Logins.{
  IsBare, IsValue, login, credentials, parser_handle_packet-login,
}
use air_shifter_rough.Parser.Queue.{IsWellFormed}
use air_shifter_rough.Gatt.{World, success, done, writes_chr, is_ctrl, gatt_svc_access}
use air_shifter_rough.Gatt.Guard.{gatt_svc_access-writes}
use air_shifter_rough.Gatt.Packets.{Flattens, write_flat_fits, write_packet_runs, to_packet}
use air_shifter_rough.Wifi.Nvs.{NvsApi, NvsLaws, store_credentials_nvs}
use air_shifter_rough.Wifi.Station.{
  Call, set_mode_sta, set_config, start, connect, config_of, wifi_start_with_creds,
}
use air_shifter_rough.Wifi.Reboot.{receive_then_boot, made_calls}
use air_shifter_rough.Wifi.{Manager, manager_boot, manager_receive}

-- a bare value holds no NUL
c_string-append : (s t : Bytes) → All IsBare s → c_string (s ++ t) ≡ s ++ c_string t
c_string-append [] t a = refl
c_string-append (c ∷ cs) t a = let ih = c_string-append cs t a.1 in let bare = a.0.1 in ground arith

c_string-bare : (s : Bytes) → All IsBare s → c_string s ≡ s
c_string-bare [] a = refl
c_string-bare (c ∷ cs) a = let ih = c_string-bare cs a.1 in let bare = a.0.1 in ground arith

c_string-login :
    (name word : Bytes)
    → All IsBare name
    → All IsBare word
    → c_string (login name word) ≡ login name word
c_string-login name word a b =
    ap (λ t. codes "SSID:" ++ t)
      (c_string-append name (codes ",PASS:" ++ word) a
        ∙ ap (λ t. name ++ (codes ",PASS:" ++ t)) (c_string-bare word b))

length-login : (name word : Bytes) → length (login name word) ≡ 11 + length name + length word
length-login name word = omega (arith, length-append name (codes ",PASS:" ++ word))

-- The queue takes the credentials as they are.
copy-whole :
    (name : Bytes) (d : ℕ) (ds : Bytes)
    → length name ≤ 32
    → length (d ∷ ds) ≤ 64
    → copy_credentials (credentials name (d ∷ ds)) ≡ credentials name (d ∷ ds)
copy-whole name d ds fits fits' =
    let filled = ==_no (length (d ∷ ds)) 0 (λ e. omega (arith, e)) in
    let a = take_all 32 name fits in let b = take_all 64 (d ∷ ds) fits' in ground arith

queued :
    (p : Platform) (name : Bytes) (d : ℕ) (ds : Bytes) (b : Biz) (queue after : List Credentials)
    → length name ≤ 32
    → length (d ∷ ds) ≤ 64
    → b.wifi_cred_queue ≡ some queue
    → p.queue_send queue (credentials name (d ∷ ds)) ≡ some after
    → biz_apply_wifi_credentials p (some (credentials name (d ∷ ds))) b
      ≡ record b { wifi_cred_queue = some after }
unfolding biz_apply_wifi_credentials
queued p name d ds b queue after fits fits' q sent =
    rw (q, biz_apply_wifi_credentials) (rw (copy-whole name d ds fits fits', sent) refl)

credentials-IsWellFormed :
    (name word : Bytes) → length name ≤ 32 → length word ≤ 64 → IsWellFormed (credentials name word)
credentials-IsWellFormed name word fits fits' = record {
  ssid_len = refl;
  ssid_fits = fits;
  pass_len = refl;
  pass_fits = fits';
}

-- What a packet does that the parser takes for credentials, whatever its format.
pub packet_reaches_station :
    (p : Platform) (us h : ℕ) (packet name : Bytes) (d : ℕ) (ds : Bytes) (w : World)
    (queue : List Credentials) (n : NvsApi) (rc rc' : List Call → Call → ℕ) (out : Credentials)
    (m : Manager n)
    → let sent = credentials name (d ∷ ds) in
      Flattens p
      → sec_is_conn_authenticated us h w.sec ≡ true
      → w.packet_handle ≢ w.sec.auth_char_handle
      → is_ctrl w.packet_handle w ≡ false
      → 1 ≤ length packet
      → length packet ≤ 128
      → c_string packet ≡ packet
      → parser_handle_packet p (some packet) w.biz
        ≡ (true, biz_apply_wifi_credentials p (some sent) w.biz)
      → 1 ≤ length name
      → length name ≤ 31
      → length (d ∷ ds) ≤ 63
      → w.biz.wifi_cred_queue ≡ some queue
      → p.queue_send queue sent ≡ some (queue ++ sent ∷ [])
      → NvsLaws n
      → (store_credentials_nvs n name (d ∷ ds) m.flash).0 ≡ 0
      → (wifi_start_with_creds rc' sent []).0 ≡ 0
      → (gatt_svc_access p us h w.packet_handle writes_chr packet w
          ≡ done success packet
              (record w { biz = record (w.biz) { wifi_cred_queue = some (queue ++ sent ∷ []) } }))
        × ((manager_boot n rc' out
              (record { flash = (manager_receive n rc sent m).flash; calls = [] })).calls
            ≡ connect ∷ start ∷ set_config name (d ∷ ds) ∷ set_mode_sta ∷ [])
packet_reaches_station p us h packet name d ds w queue n rc rc' out m law auth ne other long short
      text parses filled fits fits' q sends laws stored started =
    let word = d ∷ ds in
    let parsed =
      parses
      ∙ ap (λ b. (true, b))
          (queued p name d ds w.biz queue _ (omega arith) (omega arith) q sends) in
    let restarted =
      (receive_then_boot n rc rc' (credentials name word) out m laws
        (credentials-IsWellFormed name word (omega arith) (omega arith)) filled stored).1 in
    (
      gatt_svc_access-writes p us h w.packet_handle packet w _ (
          to_packet p us h packet w auth ne other
          ∙ write_packet_runs p packet _ w (write_flat_fits p packet law long short) short text
              parsed),
      ap (λ t. t.calls) restarted
          ∙ made_calls rc' (credentials name word) [] started
          ∙ ap₂ (λ a b. connect ∷ start ∷ set_config a b ∷ set_mode_sta ∷ [])
              (take_all 31 name fits) (take_all 63 word fits'),
    )

-- A connection that is authenticated writes to the packet characteristic SSID, a colon, a name, a
-- comma, PASS, a colon and a password, where the name has 1 to 31 bytes and no PASS in it and the
-- password 1 to 63, neither has a comma, a space or a NUL, and neither starts with a separator or a
-- quote. The write succeeds and puts the credentials behind those that wait in the queue, and
-- changes nothing else. When the manager then takes them and the flash stores them without an
-- error, the task after a restart starts the station with exactly the name and the password, if the
-- calls of the driver succeed. The handle of the packet characteristic is none of the auth and the
-- control handles, an mbuf that fits a buffer is copied whole, the queue has room, and the laws of
-- NVS hold.
pub login_reaches_station :
    (p : Platform) (us h c : ℕ) (cs : Bytes) (d : ℕ) (ds : Bytes) (w : World)
    (queue : List Credentials) (n : NvsApi) (rc rc' : List Call → Call → ℕ) (out : Credentials)
    (m : Manager n)
    → let sent = credentials (c ∷ cs) (d ∷ ds) in
      let packet = login (c ∷ cs) (d ∷ ds) in
      Flattens p
      → sec_is_conn_authenticated us h w.sec ≡ true
      → w.packet_handle ≢ w.sec.auth_char_handle
      → is_ctrl w.packet_handle w ≡ false
      → IsValue (c ∷ cs)
      → IsValue (d ∷ ds)
      → length (c ∷ cs) ≤ 31
      → length (d ∷ ds) ≤ 63
      → strstr (c ∷ cs) (codes "PASS") ≡ none
      → w.biz.wifi_cred_queue ≡ some queue
      → p.queue_send queue sent ≡ some (queue ++ sent ∷ [])
      → NvsLaws n
      → (store_credentials_nvs n (c ∷ cs) (d ∷ ds) m.flash).0 ≡ 0
      → (wifi_start_with_creds rc' sent []).0 ≡ 0
      → (gatt_svc_access p us h w.packet_handle writes_chr packet w
          ≡ done success packet
              (record w { biz = record (w.biz) { wifi_cred_queue = some (queue ++ sent ∷ []) } }))
        × ((manager_boot n rc' out
              (record { flash = (manager_receive n rc sent m).flash; calls = [] })).calls
            ≡ connect ∷ start ∷ set_config (c ∷ cs) (d ∷ ds) ∷ set_mode_sta ∷ [])
login_reaches_station p us h c cs d ds w queue n rc rc' out m law auth ne other v v' fits fits'
      absent q sends laws stored started =
    let name = c ∷ cs in
    let word = d ∷ ds in
    packet_reaches_station p us h (login name word) name d ds w queue n rc rc' out m law auth ne
      other (omega (arith, length-login name word)) (omega (arith, length-login name word))
      (c_string-login name word v.1 v'.1)
      (parser_handle_packet-login p c cs d ds w.biz v v' (omega arith) (omega arith) absent)
      (omega arith) fits fits' q sends laws stored started
