-- ===== src/Fota.antt =====
-- main/FOTA.c: `check_ota_update`, which runs at start, and the update it may begin. A result 0 is
-- ESP_OK. The payload is a flag and then the 32 bytes of a token.
pub mod Url
pub mod Once
mod Tests
use air_shifter_rough.Common.{
  ℕ, zero, suc, ◌+◌, Bool, true, false, List, [], ◌∷◌, ◌++◌, Bytes, codes, ◌==◌, if◌then◌else◌,
  get_or, set, ◌⊎◌, inl, inr,
}
use air_shifter_rough.Parser.{c_string}

-- The calls of `nvs_blob_rw.h` on the blob "ota", of esp_https_ota, and those that ota_init checks.
pub record OtaApi : Type 1 where
  pub State : Type 0
  -- the code of an error, or the 33 bytes
  pub read_blob : State → ℕ ⊎ Bytes
  pub write_blob : Bytes → State → ℕ × State
  -- the result of an update from a URL
  pub https_ota : Bytes → ℕ
  -- the network, the event loop and the connection come up
  pub connects : Bool

abbrev pub ota_url : Bytes
ota_url = codes "http://ota.iotronix.co.in?ota_token="

abbrev pub flag_pending : ℕ
flag_pending = 0x31

-- for (i …; rounds left): a byte of the token, and a NUL behind it
unfoldable pub copy_token : ℕ → ℕ → Bytes → Bytes → Bytes
copy_token zero i payload temp = temp
copy_token (suc n) i payload temp =
    copy_token n (i + 1) payload (set (set temp i (get_or payload (i + 1) 0)) (i + 1) 0)

-- The URL; `temp` is what `ota_token_temp` holds before the copy.
unfoldable pub url_of : Bytes → Bytes → Bytes
url_of temp payload = ota_url ++ c_string (copy_token 32 0 payload temp)

-- How a start ends: it goes on, it aborts, or, after a request to a URL, it restarts.
pub data Start (S : Type 0) : Type 0 where
  resumes aborts : Start S
  restarts : Bytes → S → Start S

-- '2' is success, '3' is failure.
abbrev pub flag_of : ℕ → ℕ
flag_of ret = if ret == 0 then 0x32 else 0x33

-- A write that fails is only logged.
unfoldable pub ota_task : (o : OtaApi) → Bytes → Bytes → o.State → Start o.State
ota_task o temp payload s =
    let url = url_of temp payload in
    restarts url (o.write_blob (set payload 0 (flag_of (o.https_ota url))) s).1

unfoldable pub ota_init : (o : OtaApi) → Bytes → Bytes → o.State → Start o.State
ota_init o temp payload s = if o.connects then ota_task o temp payload s else aborts

-- `ota_init` does not return, so the endless loop behind it is not reached.
unfoldable pub check_ota_update : (o : OtaApi) → Bytes → o.State → Start o.State
check_ota_update o temp s = elim (o.read_blob s) [
  | inl code ↦ resumes
  | inr payload ↦ if get_or payload 0 0 == flag_pending then ota_init o temp payload s else resumes
]

pub data HttpEvent : Type 0 where
  http_error on_connected header_sent on_header on_data on_finish disconnected : HttpEvent

-- Every event is only logged; the result is ESP_OK.
unfoldable pub http_event_handler : HttpEvent → ℕ
http_event_handler e = 0
