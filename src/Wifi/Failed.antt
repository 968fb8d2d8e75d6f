-- ===== src/Wifi/Failed.antt =====
-- main/wifi_manager.c: a store of credentials that fails at the password.
use air_shifter_rough.Common.{
  ap, take, ◌∷◌, ℕ, ◌≤◌, ◌≡◌, ◌≢◌, inr, refl, sym, ◌∙◌, false, Bytes, length, arith, List, [],
  ==_no,
}
use air_shifter_rough.Platform.{Credentials}
use air_shifter_rough.Wifi.Nvs.{NvsApi, NvsLaws, key_ssid, key_pass, store_credentials_nvs}
use air_shifter_rough.Wifi.Station.{
  Call, set_mode_sta, set_config, start, connect, wifi_start_with_creds,
}
use air_shifter_rough.Wifi.Reboot.{made_calls, keys_differ, load_lem, restarted}
use air_shifter_rough.Wifi.{Manager, manager_boot, manager_receive, has_invalid_length}

-- ESP_ERR_NVS_NOT_ENOUGH_SPACE
abbrev pub not_enough_space : ℕ
not_enough_space = 0x1105

-- What NVS promises of calls that write nothing: opening it, and a set for which there is no room.
pub record KeepsRest (n : NvsApi) : Type 0 where
  pub get-open :
      (k : Bytes) (size : ℕ) (s : n.State) → n.get_str k size (n.open_rw s).1 ≡ n.get_str k size s
  pub get-no_space :
      (k l v : Bytes) (size : ℕ) (s : n.State)
      → (n.set_str k v s).0 ≡ not_enough_space
      → n.get_str l size (n.set_str k v s).1 ≡ n.get_str l size s
  pub open_ro-no_space :
      (k v : Bytes) (s : n.State)
      → (n.set_str k v s).0 ≡ not_enough_space
      → n.open_ro (n.set_str k v s).1 ≡ n.open_ro s

module _ (n : NvsApi) (ssid pass : Bytes) (s : n.State) where
  -- the flash once the namespace is open and the name is set
  abbrev pub with_name : n.State
  with_name = (n.set_str key_ssid ssid (n.open_rw s).1).1

  store_failed :
      (n.open_rw s).0 ≡ 0
      → (n.set_str key_ssid ssid (n.open_rw s).1).0 ≡ 0
      → (n.set_str key_pass pass with_name).0 ≢ 0
      → store_credentials_nvs n ssid pass s ≡ n.set_str key_pass pass with_name
  unfolding store_credentials_nvs
  store_failed o a f =
      let no = ==_no (n.set_str key_pass pass with_name).0 0 f in ground (arith, o, a, no)

-- the new name with the old password
abbrev pub mixed : Credentials → Bytes → Credentials
mixed c old = record { ssid_len = length c.ssid; pass_len = length old; ssid = c.ssid; pass = old }

-- When the laws of NVS hold, an open and a set that fails with ESP_ERR_NVS_NOT_ENOUGH_SPACE write
-- nothing, the flash holds a password of at most 64 bytes, and it takes the new name but has not
-- enough space for the new password: credentials of valid lengths do not start the station, and
-- after a restart, if the name was kept without the commit and the station starts without an error,
-- the task has made exactly the four calls that start the station with the first 31 bytes of the
-- new name and the first 63 of the old password.
pub failed_store_mixes :
    (n : NvsApi) (rc rc' : List Call → Call → ℕ) (c out : Credentials) (old : Bytes) (m : Manager n)
    → NvsLaws n
    → KeepsRest n
    → has_invalid_length c ≡ false
    → length c.ssid ≤ 32
    → length old ≤ 64
    → n.get_str key_pass 65 m.flash ≡ inr old
    → (n.open_rw m.flash).0 ≡ 0
    → (n.set_str key_ssid c.ssid (n.open_rw m.flash).1).0 ≡ 0
    → (n.set_str key_pass c.pass (with_name n c.ssid c.pass m.flash)).0 ≡ not_enough_space
    → (wifi_start_with_creds rc' (mixed c old) []).0 ≡ 0
    → let after = manager_receive n rc c m in
      (after.calls ≡ m.calls)
      × (manager_boot n rc' out (record { flash = after.flash; calls = [] }) ≡ record {
        flash = after.flash;
        calls = connect ∷ start ∷ set_config (take 31 c.ssid) (take 63 old) ∷ set_mode_sta ∷ [];
      })
unfolding manager_receive
failed_store_mixes n rc rc' c out old m laws keeps valid fits fits' held o a no_space started =
    let f : (n.set_str key_pass c.pass (with_name n c.ssid c.pass m.flash)).0 ≢ 0 =
      λ z. omega (arith, sym no_space ∙ z) in
    let opened = (n.open_rw m.flash).1 in
    let named = with_name n c.ssid c.pass m.flash in
    let failed = store_failed n c.ssid c.pass m.flash o a f in
    let no = ==_no (n.set_str key_pass c.pass named).0 0 f in
    let last = (n.set_str key_pass c.pass named).1 in
    let readable =
      keeps.open_ro-no_space key_pass c.pass named no_space
      ∙ laws.open_ro-set key_ssid c.ssid opened a
      ∙ laws.open_ro_rw m.flash o in
    let name =
      keeps.get-no_space key_pass key_ssid c.pass 33 named no_space
      ∙ laws.get-set key_ssid c.ssid 33 opened a (omega (arith, fits)) in
    let word =
      keeps.get-no_space key_pass key_pass c.pass 65 named no_space
      ∙ laws.get-set_ne key_ssid key_pass c.ssid 65 opened a (λ e. keys_differ (sym e))
      ∙ keeps.get-open key_pass 65 m.flash
      ∙ held in
    let loaded = load_lem n laws c.ssid old m.flash out last readable name word fits fits' in
    rw (valid, failed, no)
      (
        refl,
        restarted n rc' (mixed c old) out last loaded
            ∙ ap (λ x. record { flash = last; calls = x })
                (made_calls rc' (mixed c old) [] started),
      )
