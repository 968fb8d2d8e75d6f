-- ===== src/Wifi/Reboot.antt =====
-- main/wifi_manager.c: a received set of credentials, the station that it starts, and a restart.
use air_shifter_rough.Common.{
  ℕ, ◌^◌, ◌%◌, ◌≤◌, ◌<◌, ◌≡◌, ◌≢◌, ◌↔◌, inr, refl, ap, ap₂, sym, ◌∙◌, false, Bytes, length, arith,
  take, take_all, length-take, List, [], ◌∷◌, get_or,
}
use air_shifter_rough.Platform.{Credentials}
use air_shifter_rough.Wifi.Nvs.{
  NvsApi, NvsLaws, key_ssid, key_pass, store_credentials_nvs, load_credentials_nvs,
}
use air_shifter_rough.Wifi.Station.{
  Call, set_mode_sta, set_config, start, connect, config_of, wifi_start_with_creds,
}
use air_shifter_rough.Wifi.{Manager, manager_boot, manager_receive, has_invalid_length}
use air_shifter_rough.Parser.Queue.{IsWellFormed}

pub keys_differ : key_pass ≢ key_ssid
keys_differ e = omega (arith, ap (λ k. get_or k 0 0) e)

module _ (n : NvsApi) (laws : NvsLaws n) (ssid pass : Bytes) (s : n.State) where
  -- The steps that succeeded when the whole store did.
  store_steps :
      (store_credentials_nvs n ssid pass s).0 ≡ 0
      → let opened = n.open_rw s in
        let with_ssid = n.set_str key_ssid ssid opened.1 in
        let with_pass = n.set_str key_pass pass with_ssid.1 in
        (opened.0 ≡ 0)
        × (with_ssid.0 ≡ 0)
        × (with_pass.0 ≡ 0)
        × ((n.commit with_pass.1).0 ≡ 0)
        × ((store_credentials_nvs n ssid pass s).1 ≡ (n.commit with_pass.1).1)
  unfolding store_credentials_nvs
  store_steps e = ground arith

  pub load_lem :
      (out : Credentials) (t : n.State)
      → n.open_ro t ≡ 0
      → n.get_str key_ssid 33 t ≡ inr ssid
      → n.get_str key_pass 65 t ≡ inr pass
      → length ssid ≤ 32
      → length pass ≤ 64
      → load_credentials_nvs n out t
        ≡ (0, record { ssid_len = length ssid; pass_len = length pass; ssid = ssid; pass = pass })
  unfolding load_credentials_nvs
  load_lem out t readable name word fits fits' =
      let cut : length ssid % 2 ^ 8 ≡ length ssid = omega (arith, fits) in
      let cut' : length pass % 2 ^ 8 ≡ length pass = omega (arith, fits') in
      ground (arith, readable, name, word, cut, cut')

  -- What the store left is loaded again, when both strings fit the buffers.
  pub load-store :
      (out : Credentials)
      → (store_credentials_nvs n ssid pass s).0 ≡ 0
      → length ssid ≤ 32
      → length pass ≤ 64
      → load_credentials_nvs n out (store_credentials_nvs n ssid pass s).1
        ≡ (0, record { ssid_len = length ssid; pass_len = length pass; ssid = ssid; pass = pass })
  load-store out e fits fits' =
      let (o, a, b, c, last) = store_steps e in
      let readable =
        laws.open_ro-commit _ c
        ∙ laws.open_ro-set key_pass pass _ b
        ∙ laws.open_ro-set key_ssid ssid _ a
        ∙ laws.open_ro_rw s o in
      let name =
        laws.get-commit key_ssid 33 _ c
        ∙ laws.get-set_ne key_pass key_ssid pass 33 _ b keys_differ
        ∙ laws.get-set key_ssid ssid 33 _ a (omega (arith, fits)) in
      let word =
        laws.get-commit key_pass 65 _ c
        ∙ laws.get-set key_pass pass 65 _ b (omega (arith, fits')) in
      rw last (load_lem out _ readable name word fits fits')

-- credentials whose lengths are those of their strings
pub load-store_whole :
    (n : NvsApi) (c out : Credentials) (s : n.State)
    → NvsLaws n
    → IsWellFormed c
    → (store_credentials_nvs n c.ssid c.pass s).0 ≡ 0
    → load_credentials_nvs n out (store_credentials_nvs n c.ssid c.pass s).1 ≡ (0, c)
load-store_whole n c out s laws w ok =
    let same : Path Credentials
        (record {
          ssid_len = length c.ssid;
          pass_len = length c.pass;
          ssid = c.ssid;
          pass = c.pass;
        })
        c =
      ap₂ (λ a b. record c { ssid_len = a; pass_len = b }) (sym w.ssid_len) (sym w.pass_len) in
    load-store n laws c.ssid c.pass s out ok (omega (arith, w.ssid_len, w.ssid_fits))
      (omega (arith, w.pass_len, w.pass_fits))
    ∙ ap (λ d. (0, d)) same

pub valid_length :
    (c : Credentials)
    → 0 < c.ssid_len
    → c.ssid_len ≤ 32
    → c.pass_len ≤ 64
    → has_invalid_length c ≡ false
valid_length c pos fits fits' = ground (arith, pos, fits, fits')

-- A round of the loop in which the store succeeds.
pub stored :
    (n : NvsApi) (rc : List Call → Call → ℕ) (c : Credentials) (m : Manager n)
    → has_invalid_length c ≡ false
    → (store_credentials_nvs n c.ssid c.pass m.flash).0 ≡ 0
    → manager_receive n rc c m ≡ record {
      flash = (store_credentials_nvs n c.ssid c.pass m.flash).1;
      calls = (wifi_start_with_creds rc c m.calls).1;
    }
unfolding manager_receive
stored n rc c m valid ok = ground (arith, valid, ok)

-- The task's start when the flash holds credentials.
pub restarted :
    (n : NvsApi) (rc : List Call → Call → ℕ) (c out : Credentials) (s : n.State)
    → load_credentials_nvs n out s ≡ (0, c)
    → manager_boot n rc out (record { flash = s; calls = [] })
      ≡ record { flash = s; calls = (wifi_start_with_creds rc c []).1 }
unfolding manager_boot
restarted n rc c out s e = ground (arith, e)

-- When the laws of NVS hold: credentials whose lengths are those of their strings and within 32 and
-- 64, with a name that is not empty, and that the flash stores without an error, start the station
-- at once, and after a restart the task loads the same credentials and starts the station with
-- them.
pub receive_then_boot :
    (n : NvsApi) (rc rc' : List Call → Call → ℕ) (c out : Credentials) (m : Manager n)
    → NvsLaws n
    → IsWellFormed c
    → 0 < c.ssid_len
    → (store_credentials_nvs n c.ssid c.pass m.flash).0 ≡ 0
    → let after = manager_receive n rc c m in
      (after.calls ≡ (wifi_start_with_creds rc c m.calls).1)
      × (manager_boot n rc' out (record { flash = after.flash; calls = [] })
          ≡ record { flash = after.flash; calls = (wifi_start_with_creds rc' c []).1 })
receive_then_boot n rc rc' c out m laws w named ok =
    let valid : has_invalid_length c ≡ false = valid_length c named w.ssid_fits w.pass_fits in
    let loaded = load-store_whole n c out m.flash laws w ok in
    rw (stored n rc c m valid ok) (refl, restarted n rc' c out _ loaded)

pub made_calls :
    (rc : List Call → Call → ℕ) (c : Credentials) (calls : List Call)
    → (wifi_start_with_creds rc c calls).0 ≡ 0
    → (wifi_start_with_creds rc c calls).1 ≡ connect ∷ start ∷ config_of c ∷ set_mode_sta ∷ calls
unfolding wifi_start_with_creds
made_calls rc c calls ok = ground (arith, ok)

abbrev configured_ssid : List Call → Bytes
configured_ssid (_ ∷ _ ∷ set_config a b ∷ _) = a
configured_ssid _ = []

abbrev configured_pass : List Call → Bytes
configured_pass (_ ∷ _ ∷ set_config a b ∷ _) = b
configured_pass _ = []

fits_take : (n : ℕ) (xs : Bytes) → take n xs ≡ xs → length xs ≤ n
fits_take n xs e = omega (arith, length-take n xs, ap length e)

-- When every call of the driver succeeds, the station is started with the whole of both strings
-- exactly when the name has at most 31 bytes and the password at most 63.
pub wifi_start_with_creds_whole_iff :
    (rc : List Call → Call → ℕ) (c : Credentials) (calls : List Call)
    → (wifi_start_with_creds rc c calls).0 ≡ 0
    → ((wifi_start_with_creds rc c calls).1
        ≡ connect ∷ start ∷ set_config c.ssid c.pass ∷ set_mode_sta ∷ calls)
      ↔ ((length c.ssid ≤ 31) × (length c.pass ≤ 63))
wifi_start_with_creds_whole_iff rc c calls ok =
    let made = made_calls rc c calls ok in
    (
      λ e.
          let same = sym made ∙ e in
          (
            fits_take 31 c.ssid (ap (λ x. configured_ssid x) same),
            fits_take 63 c.pass (ap (λ x. configured_pass x) same),
          ),
      λ (a, b). rw made (
          ap₂ (λ x y. connect ∷ start ∷ set_config x y ∷ set_mode_sta ∷ calls)
            (take_all 31 c.ssid a) (take_all 63 c.pass b)),
    )
