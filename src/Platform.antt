-- ===== src/Platform.antt =====
-- What the firmware calls and does not implement: mbedtls, jsmn (vendored as main/jsmn.h), FreeRTOS
-- queues and NimBLE. Each call is a field; the laws that a theorem relies on are its hypotheses.
-- Also the data types that cross these calls: `wifi_credentials_t` of main/include/wifi_cred.h and
-- the token of main/jsmn.h.
use air_shifter_rough.Common.{ℕ, Bool, Option, List, Bytes, length, ◌≡◌, some}

-- `ssid` and `pass` are the C strings in the two buffers.
pub record Credentials : Type 0 where
  pub ssid_len : ℕ
  pub pass_len : ℕ
  pub ssid : Bytes
  pub pass : Bytes

pub data TokenType : Type 0 where
  undefined object array string primitive : TokenType

pub record Token : Type 0 where
  pub type : TokenType
  pub start : ℕ
  pub end : ℕ
  pub size : ℕ

pub record Platform : Type 0 where
  -- mbedtls_md_hmac with SHA-256 on a key and a text; `none` is a nonzero return code.
  pub hmac : Bytes → Bytes → Option Bytes
  -- jsmn_parse on a text with room for so many tokens; `none` is a negative return code.
  pub jsmn_parse : Bytes → ℕ → Option (List Token)
  -- xQueueSend on the credentials queue; `none` is a send that timed out.
  pub queue_send : List Credentials → Credentials → Option (List Credentials)
  -- os_mbuf_append; `none` is a nonzero return code.
  pub mbuf_append : Bytes → Bytes → Option Bytes
  -- ble_hs_mbuf_to_flat into a buffer of so many bytes; `none` is a nonzero return code.
  pub mbuf_to_flat : Bytes → ℕ → Option Bytes
  -- malloc of so many bytes succeeds.
  pub malloc : ℕ → Bool

-- HMAC-SHA256 has 32 bytes.
abbrev pub HmacLength : Platform → Type 0
HmacLength p = (key text mac : Bytes) → p.hmac key text ≡ some mac → length mac ≡ 32
