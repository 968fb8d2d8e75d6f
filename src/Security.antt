-- ===== src/Security.antt =====
-- main/security.c: the challenge-response authentication of BLE connections. A connection gets a
-- random nonce and authenticates with the HMAC of it under the private key. The time in
-- microseconds (`esp_timer_get_time`) and the random words (`esp_random`) are arguments; each call
-- of `ble_gatts_chr_updated` is an entry of `notified`.
pub mod Slots
pub mod Nonce
pub mod Sessions
pub mod Filling
pub mod Looping
pub mod Opening
pub mod Invariant
pub mod Connect
pub mod Before
pub mod Respond
pub mod History
pub mod Handshake
pub mod Idle
pub mod Short
pub mod Replay
pub mod ZeroHandle
pub mod Model
pub mod View
pub mod Answers
pub mod Refinement
mod Tests
use air_shifter_rough.Common.{
  ℕ, zero, suc, ◌+◌, ◌-◌, ◌*◌, ◌/◌, ◌%◌, ◌^◌, Bool, true, false, not, ◌&&◌, ◌||◌, Option, none,
  some, List, [], ◌∷◌, Bytes, ◌==◌, ltb, leb, if◌then◌else◌, get_or, set, take, length, replicate,
}
use air_shifter_rough.Platform.{Platform}
use Prim.Native.Nat.{bit_or, bit_xor}
use Slots.{Slot, max_sec_conns, zeroed, slot_at, find_entry, alloc_entry, free_entry_index}
use Nonce.{fill_nonce, write}

pub record Security : Type 0 where
  pub priv_key : Option Bytes
  pub conns : List Slot
  pub nonce_len : ℕ
  -- the globals of main/gatt_svr.c that this file writes
  pub auth_value : Bytes
  pub auth_val_len : ℕ
  pub auth_char_handle : ℕ
  pub notified : List ℕ

abbrev pub hmac_sha256_len : ℕ
hmac_sha256_len = 32

abbrev pub nonce_lifetime_ms : ℕ
nonce_lifetime_ms = 60 * 1000 * 5

-- "fan12345"
abbrev pub default_key : Bytes
default_key = b'f' ∷ b'a' ∷ b'n' ∷ b'1' ∷ b'2' ∷ b'3' ∷ b'4' ∷ b'5' ∷ []

-- the statics before `sec_init`
abbrev pub statics : Security
statics = record {
  priv_key = none;
  conns = replicate max_sec_conns zeroed;
  nonce_len = 16;
  auth_value = replicate 32 0;
  auth_val_len = 0;
  auth_char_handle = 0;
  notified = [];
}

unfoldable pub sec_init : Security → Security
sec_init s = record s { conns = replicate max_sec_conns zeroed; priv_key = some default_key }

-- `esp_timer_get_time` counts microseconds.
abbrev pub now_ms : ℕ → ℕ
now_ms us = us / 1000

-- uint64_t subtraction
abbrev pub elapsed : ℕ → ℕ → ℕ
elapsed now created = (now + 2 ^ 64 - created) % 2 ^ 64

-- the slot after the fill and the four assignments
abbrev pub challenged : ℕ → (ℕ → ℕ) → ℕ → Slot → Slot
challenged us random nonce_len e = record e {
  nonce = fill_nonce nonce_len random 0 nonce_len 0 e.nonce;
  nonce_len = nonce_len;
  created_ts_ms = now_ms us;
  authenticated = false;
}

-- `none` is ESP_ERR_INVALID_ARG.
unfoldable pub generate_nonce_for_index : ℕ → (ℕ → ℕ) → ℕ → Security → Option Security
generate_nonce_for_index us random idx s =
    if leb max_sec_conns idx
    then none
    else if ltb 32 s.nonce_len
    then none
    else some (record s {
      conns = set s.conns idx (challenged us random s.nonce_len (slot_at s.conns idx));
    })

-- The clamp of `nonce_len` comes first.
unfoldable pub update_auth_char_value_and_notify : Bytes → ℕ → Security → Security
update_auth_char_value_and_notify nonce nonce_len s =
    let len = if ltb 32 nonce_len then 32 else nonce_len in
    record s {
      auth_value = write s.auth_value 0 (take len nonce);
      auth_val_len = len;
      notified = s.auth_char_handle ∷ s.notified;
    }

unfoldable pub sec_set_nonce_len : ℕ → Security → Security
sec_set_nonce_len len s = if len == 0 || ltb 32 len then s else record s { nonce_len = len }

-- `none` is a null key.
unfoldable pub sec_set_private_key : Option Bytes → Security → Security
sec_set_private_key none s = s
sec_set_private_key (some []) s = s
sec_set_private_key (some (b ∷ key)) s = record s { priv_key = some (b ∷ key) }

-- the slot of the connection, found or allocated, with the table after that
unfoldable pub find_or_alloc : ℕ → List Slot → Option (ℕ × List Slot)
find_or_alloc h conns = elim (find_entry h conns) [
  | some i ↦ some (i, conns)
  | none ↦ alloc_entry h conns
]

-- `sec_on_connect` from the slot on
unfoldable pub challenge : ℕ → (ℕ → ℕ) → ℕ → Security → Security
challenge us random idx s = elim (generate_nonce_for_index us random idx s) [
  | none ↦ s
  | some t ↦
      update_auth_char_value_and_notify (slot_at t.conns idx).nonce (slot_at t.conns idx).nonce_len
        t
]

unfoldable pub sec_on_connect : ℕ → (ℕ → ℕ) → ℕ → Security → Security
sec_on_connect us random h s = elim (find_or_alloc h s.conns) [
  | none ↦ s
  | some (i, conns) ↦ challenge us random i (record s { conns = conns })
]

-- A null key fails; so does a nonzero return code.
unfoldable pub compute_hmac_sha256 : Platform → Option Bytes → Bytes → Option Bytes
compute_hmac_sha256 p none text = none
compute_hmac_sha256 p (some key) text = p.hmac key text

-- for (i …; rounds left) diff |= expected[i] ^ hmac[i];
unfoldable pub diff_loop : ℕ → ℕ → ℕ → Bytes → Bytes → ℕ
diff_loop zero i diff expected hmac = diff
diff_loop (suc n) i diff expected hmac =
    diff_loop n (i + 1) (bit_or diff (bit_xor (get_or expected i 0) (get_or hmac i 0))) expected
      hmac

abbrev pub mark : ℕ → Security → Security
mark idx s = record s {
  conns = set s.conns idx (record (slot_at s.conns idx) { authenticated = true });
}

-- the comparison, and the mark on success
unfoldable pub check_response : ℕ → Bytes → Bytes → Security → Bool × Security
check_response idx expected hmac s =
    if diff_loop hmac_sha256_len 0 0 expected hmac == 0 then (true, mark idx s) else (false, s)

-- `none` is a null response. The tests stand in the order of the source.
unfoldable pub respond_at : Platform → ℕ → ℕ → Option Bytes → Security → Bool × Security
respond_at p us idx none s = (false, s)
respond_at p us idx (some hmac) s =
    if ltb nonce_lifetime_ms (elapsed (now_ms us) (slot_at s.conns idx).created_ts_ms)
    then (false, s)
    else if not (length hmac == hmac_sha256_len)
    then (false, s)
    else elim (compute_hmac_sha256 p s.priv_key
        (take (slot_at s.conns idx).nonce_len (slot_at s.conns idx).nonce)) [
          | none ↦ (false, s)
          | some expected ↦ check_response idx expected hmac s
        ]

unfoldable pub sec_handle_auth_response :
    Platform → ℕ → ℕ → Option Bytes → Security → Bool × Security
sec_handle_auth_response p us h hmac s = elim (find_entry h s.conns) [
  | none ↦ (false, s)
  | some idx ↦ respond_at p us idx hmac s
]

-- a slot that answers for its connection at this time
abbrev pub is_live : ℕ → Slot → Bool
is_live us e = e.authenticated && leb (elapsed (now_ms us) e.created_ts_ms) nonce_lifetime_ms

unfoldable pub sec_is_conn_authenticated : ℕ → ℕ → Security → Bool
sec_is_conn_authenticated us h s = elim (find_entry h s.conns) [
  | none ↦ false
  | some idx ↦ is_live us (slot_at s.conns idx)
]

unfoldable pub sec_clear_conn : ℕ → Security → Security
unfolding free_entry_index
sec_clear_conn h s = elim (find_entry h s.conns) [
  | none ↦ s
  | some idx ↦ record s { conns = free_entry_index s.conns idx }
]

unfoldable pub sec_send_nonce_notify : ℕ → Security → Security
sec_send_nonce_notify h s = elim (find_entry h s.conns) [
  | none ↦ s
  | some idx ↦
      update_auth_char_value_and_notify (slot_at s.conns idx).nonce (slot_at s.conns idx).nonce_len
        s
]

-- The bytes that are copied to the caller's buffer; `none` is -1.
unfoldable pub sec_get_auth_value : ℕ → Security → Option Bytes
sec_get_auth_value h s = elim (find_entry h s.conns) [
  | none ↦ none
  | some idx ↦
      if (slot_at s.conns idx).nonce_len == 0
      then none
      else some (take (slot_at s.conns idx).nonce_len (slot_at s.conns idx).nonce)
]
