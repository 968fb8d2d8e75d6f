-- ===== src/Gatt.antt =====
-- main/gatt_svr.c: reads and writes of the GATT characteristics. The world is the state of
-- main/security.c and main/biz_logix.c with the handles that the stack gave the characteristics.
pub mod Connections
pub mod Guard
pub mod ReadBack
pub mod Nonce
pub mod Tracking
pub mod Packets
pub mod Services
pub mod Registered
pub mod Flags
pub mod Sound
pub mod Within
pub mod Proving
mod Tests
use air_shifter_rough.Common.{
  ℕ, ◌+◌, ◌*◌, Bool, true, false, not, ◌&&◌, ◌||◌, Option, none, some, List, [], ◌∷◌, Bytes, ◌==◌,
  ltb, if◌then◌else◌, get_or, take, length, ℤ, to_int32,
}
use air_shifter_rough.Platform.{Platform}
use air_shifter_rough.Security.Nonce.{word_bytes}
use air_shifter_rough.Security.{
  Security, sec_get_auth_value, sec_handle_auth_response, sec_is_conn_authenticated,
}
use air_shifter_rough.Biz.{
  Biz, Values, biz_set_rpm, biz_set_angle, biz_set_light, biz_set_power, biz_get_ctrl_rpm,
  biz_get_ctrl_angle, biz_get_ctrl_light, biz_get_ctrl_power, biz_get_stat_rpm, biz_get_stat_angle,
  biz_get_stat_light, biz_get_stat_power,
}
use air_shifter_rough.Parser.{parser_handle_packet, c_string}

pub record World : Type 0 where
  pub sec : Security
  pub biz : Biz
  pub ctrl_handles : Values
  pub packet_handle : ℕ
  pub gatt_svr_chr_val_handle : ℕ
  pub dsc_val : ℕ

-- The results of the access callback, 0 and the BLE_ATT_ERR codes that it returns; `overrun` stands
-- for a write past a buffer, after which there is no result.
pub data Status : Type 0 where
  success invalid_attr_value_len unlikely insufficient_authen : Status
  insufficient_res write_not_permitted overrun : Status

abbrev pub is_overrun : Status → Bool
is_overrun overrun = true
is_overrun _ = false

pub data Flat : Type 0 where
  flat : Bytes → Flat
  failed : Status → Flat

-- The bytes that a write left in the destination, which has `room` bytes, or the code of the
-- refusal.
unfoldable pub gatt_svr_write_flat : Platform → Bytes → ℕ → ℕ → ℕ → Flat
gatt_svr_write_flat p om min_len max_len room =
    if ltb (length om) min_len || ltb max_len (length om)
    then failed invalid_attr_value_len
    else elim (p.mbuf_to_flat om max_len) [
      | none ↦ failed unlikely
      | some bytes ↦ if ltb room (length bytes) then failed overrun else flat bytes
    ]

-- An access is a fault where it writes past a buffer; else a code, the bytes of the mbuf, and the
-- world.
pub data Outcome : Type 0 where
  fault : Outcome
  done : Status → Bytes → World → Outcome

abbrev pub append : Platform → Bytes → Bytes → World → Outcome
append p om bytes w = elim (p.mbuf_append om bytes) [
  | none ↦ done insufficient_res om w
  | some om' ↦ done success om' w
]

-- `uint8_t nonce[16]` receives the whole nonce; only then its length is tested.
abbrev read_nonce : Platform → Bytes → Option Bytes → World → Outcome
read_nonce p om none w = done unlikely om w
read_nonce p om (some nonce) w =
    if ltb 16 (length nonce)
    then fault
    else if not (length nonce == 16)
    then done unlikely om w
    else append p om nonce w

abbrev pub byte : ℕ → Bytes
byte v = v ∷ []

unfoldable pub read_chr : Platform → ℕ → ℕ → Bytes → World → Outcome
read_chr p h attr om w =
    if attr == w.sec.auth_char_handle
    then read_nonce p om (sec_get_auth_value h w.sec) w
    else if attr == w.ctrl_handles.rpm
    then append p om (word_bytes (biz_get_ctrl_rpm w.biz)) w
    else if attr == w.ctrl_handles.angle
    then append p om (word_bytes (biz_get_ctrl_angle w.biz)) w
    else if attr == w.ctrl_handles.light
    then append p om (byte (biz_get_ctrl_light w.biz)) w
    else if attr == w.ctrl_handles.power
    then append p om (byte (biz_get_ctrl_power w.biz)) w
    else if attr == w.biz.stat_handles.rpm
    then append p om (word_bytes (biz_get_stat_rpm w.biz)) w
    else if attr == w.biz.stat_handles.angle
    then append p om (word_bytes (biz_get_stat_angle w.biz)) w
    else if attr == w.biz.stat_handles.light
    then append p om (byte (biz_get_stat_light w.biz)) w
    else if attr == w.biz.stat_handles.power
    then append p om (byte (biz_get_stat_power w.biz)) w
    else done unlikely om w

-- the uint32_t whose bytes, lowest first, are in a buffer
abbrev pub u32_of : Bytes → ℕ
u32_of bs = get_or bs 0 0 + 256 * get_or bs 1 0 + 65536 * get_or bs 2 0 + 16777216 * get_or bs 3 0

abbrev pub u8_of : Bytes → ℕ
u8_of bs = get_or bs 0 0

-- every refusal of an answer's length has the same code
abbrev auth_refusal : Status → Status
auth_refusal overrun = overrun
auth_refusal _ = invalid_attr_value_len

-- the write of the answer to the challenge, into `uint8_t hmac[32]`
unfoldable pub write_auth : Platform → ℕ → ℕ → Bytes → World → Status × World
unfolding gatt_svr_write_flat
write_auth p us h om w = elim (gatt_svr_write_flat p om 32 32 32) [
  | failed code ↦ (auth_refusal code, w)
  | flat hmac ↦ if not (length hmac == 32) then (invalid_attr_value_len, w) else (
    if (sec_handle_auth_response p us h (some hmac) w.sec).0 then success else insufficient_authen,
    record w { sec = (sec_handle_auth_response p us h (some hmac) w.sec).1 },
  )
]

-- a control value: the bytes of the write, in a variable of `room` bytes, go to the setter as a
-- number
abbrev pub write_value :
    Platform → Bytes → ℕ → ℕ → (Bytes → ℤ) → (ℤ → Biz → Biz) → World → Status × World
write_value p om size room value setter w = elim (gatt_svr_write_flat p om size size room) [
  | failed code ↦ (code, w)
  | flat bytes ↦ (success, record w { biz = setter (value bytes) w.biz })
]

abbrev pub is_ctrl : ℕ → World → Bool
is_ctrl attr w =
    attr == w.ctrl_handles.rpm
    || attr == w.ctrl_handles.angle
    || attr == w.ctrl_handles.light
    || attr == w.ctrl_handles.power

-- Of the four handles, one of which matches, the last needs no test.
unfoldable pub write_ctrl : Platform → ℕ → Bytes → World → Status × World
unfolding gatt_svr_write_flat
write_ctrl p attr om w =
    if attr == w.ctrl_handles.rpm
    then write_value p om 4 4 (λ bs. to_int32 (u32_of bs)) biz_set_rpm w
    else if attr == w.ctrl_handles.angle
    then write_value p om 4 4 (λ bs. to_int32 (u32_of bs)) biz_set_angle w
    else if attr == w.ctrl_handles.light
    then write_value p om 1 1 (λ bs. to_int32 (u8_of bs)) biz_set_light w
    else write_value p om 1 1 (λ bs. to_int32 (u8_of bs)) biz_set_power w

-- A packet goes to the parser as the C string in `char buf[128 + 1]`, behind which a NUL is
-- written; its verdict is not passed on.
unfoldable pub write_packet : Platform → Bytes → World → Status × World
unfolding gatt_svr_write_flat
write_packet p om w = elim (gatt_svr_write_flat p om 1 128 129) [
  | failed code ↦ (code, w)
  | flat bytes ↦
      if ltb (length bytes) 129
      then (success, record w { biz = (parser_handle_packet p (some (c_string bytes)) w.biz).1 })
      else (overrun, w)
]

unfoldable pub write_chr : Platform → ℕ → ℕ → ℕ → Bytes → World → Status × World
write_chr p us h attr om w =
    if attr == w.sec.auth_char_handle
    then write_auth p us h om w
    else if is_ctrl attr w
    then if not (sec_is_conn_authenticated us h w.sec)
      then (insufficient_authen, w)
      else write_ctrl p attr om w
    else if attr == w.packet_handle
    then if not (sec_is_conn_authenticated us h w.sec)
      then (insufficient_authen, w)
      else write_packet p om w
    else (write_not_permitted, w)

-- The operation; for a descriptor read, whether it is the custom descriptor.
pub data Op : Type 0 where
  reads_chr writes_chr writes_dsc other_op : Op
  reads_dsc : Bool → Op

unfoldable pub gatt_svc_access : Platform → ℕ → ℕ → ℕ → Op → Bytes → World → Outcome
gatt_svc_access p us h attr reads_chr om w = read_chr p h attr om w
gatt_svc_access p us h attr writes_chr om w =
    if is_overrun (write_chr p us h attr om w).0
    then fault
    else done (write_chr p us h attr om w).0 om (write_chr p us h attr om w).1
gatt_svc_access p us h attr (reads_dsc true) om w = append p om (byte w.dsc_val) w
gatt_svc_access p us h attr (reads_dsc false) om w = done unlikely om w
gatt_svc_access p us h attr writes_dsc om w = done success om w
gatt_svc_access p us h attr other_op om w = done unlikely om w
