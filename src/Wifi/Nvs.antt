-- ===== src/Wifi/Nvs.antt =====
-- main/wifi_manager.c: `store_credentials_nvs` and `load_credentials_nvs` over the NVS library of
-- ESP-IDF, which is a record of its calls, with the laws that the two rely on.
use air_shifter_rough.Common.{
  ℕ, ◌^◌, ◌%◌, ◌<◌, ◌≡◌, ◌≢◌, Bytes, codes, ◌==◌, if◌then◌else◌, length, ◌⊎◌, inl, inr,
}
use air_shifter_rough.Platform.{Credentials}

-- The namespace is fixed. `inl` of a read is its error code.
pub record NvsApi : Type 1 where
  pub State : Type 0
  -- nvs_open, for writing or only for reading
  pub open_rw : State → ℕ × State
  pub open_ro : State → ℕ
  pub set_str : Bytes → Bytes → State → ℕ × State
  pub commit : State → ℕ × State
  -- nvs_get_str into a buffer of so many bytes, the NUL included
  pub get_str : Bytes → ℕ → State → ℕ ⊎ Bytes

abbrev pub key_ssid : Bytes
key_ssid = codes "ssid"

abbrev pub key_pass : Bytes
key_pass = codes "pass"

-- The result and the flash. An error ends the sequence.
unfoldable pub store_credentials_nvs : (n : NvsApi) → Bytes → Bytes → n.State → ℕ × n.State
store_credentials_nvs n ssid pass s =
    let opened = n.open_rw s in
    let with_ssid = n.set_str key_ssid ssid opened.1 in
    let with_pass = n.set_str key_pass pass with_ssid.1 in
    if opened.0 == 0
    then if with_ssid.0 == 0
      then if with_pass.0 == 0 then n.commit with_pass.1 else with_pass
      else with_ssid
    else opened

-- the read of the password, after that of the name
abbrev load_pass : (n : NvsApi) → Bytes → Credentials → n.State → ℕ × Credentials
load_pass n ssid out s = elim (n.get_str key_pass 65 s) [
  | inl code ↦ (code, record out { ssid = ssid })
  | inr pass ↦ (
    0,
    record {
      ssid = ssid;
      pass = pass;
      ssid_len = length ssid % 2 ^ 8;
      pass_len = length pass % 2 ^ 8;
    },
  )
]

-- The result and what is then in `*out`.
unfoldable pub load_credentials_nvs : (n : NvsApi) → Credentials → n.State → ℕ × Credentials
load_credentials_nvs n out s =
    if n.open_ro s == 0
    then elim (n.get_str key_ssid 33 s) [
      | inl code ↦ (code, out)
      | inr ssid ↦ load_pass n ssid out s
    ]
    else (n.open_ro s, out)

-- What the documentation of NVS promises for calls that succeed.
pub record NvsLaws (n : NvsApi) : Type 0 where
  -- a namespace that was opened for writing exists, and can then be read
  pub open_ro_rw : (s : n.State) → (n.open_rw s).0 ≡ 0 → n.open_ro (n.open_rw s).1 ≡ 0
  pub open_ro-set :
      (k v : Bytes) (s : n.State)
      → (n.set_str k v s).0 ≡ 0
      → n.open_ro (n.set_str k v s).1 ≡ n.open_ro s
  pub open_ro-commit : (s : n.State) → (n.commit s).0 ≡ 0 → n.open_ro (n.commit s).1 ≡ n.open_ro s
  -- what was set is read back into a buffer that has room for it
  pub get-set :
      (k v : Bytes) (size : ℕ) (s : n.State)
      → (n.set_str k v s).0 ≡ 0
      → length v < size
      → n.get_str k size (n.set_str k v s).1 ≡ inr v
  pub get-set_ne :
      (k l v : Bytes) (size : ℕ) (s : n.State)
      → (n.set_str k v s).0 ≡ 0
      → k ≢ l
      → n.get_str l size (n.set_str k v s).1 ≡ n.get_str l size s
  pub get-commit :
      (k : Bytes) (size : ℕ) (s : n.State)
      → (n.commit s).0 ≡ 0
      → n.get_str k size (n.commit s).1 ≡ n.get_str k size s
