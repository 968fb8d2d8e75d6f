-- ===== src/Wifi/Received.antt =====
-- main/wifi_manager.c: the loop of the task over the credentials that it received, and what a restart
-- then loads.
use air_shifter_rough.Common.{
  length, ◌==◌, ◌≢◌, ==_no, ne_or_eq, take, false, ℕ, ◌≡◌, refl, ap, sym, ◌∙◌, true, Option, none,
  some, List, [], ◌∷◌, arith, if◌then◌else◌, All, inl, inr,
}
use air_shifter_rough.Platform.{Credentials}
use air_shifter_rough.Parser.Queue.{IsWellFormed}
use air_shifter_rough.Wifi.Nvs.{NvsApi, NvsLaws, store_credentials_nvs, load_credentials_nvs}
use air_shifter_rough.Wifi.Station.{
  Call, set_mode_sta, set_config, start, connect, wifi_start_with_creds,
}
use air_shifter_rough.Wifi.Setup.{SetupCall, MeshSettings, set_up}
use air_shifter_rough.Wifi.Reboot.{valid_length, made_calls, load-store_whole, stored, restarted}
use air_shifter_rough.Wifi.{Manager, manager_boot, manager_receive, has_invalid_length}

-- the rounds of the loop, the latest credentials first
unfoldable pub manager_run :
    (n : NvsApi) → (List Call → Call → ℕ) → List Credentials → Manager n → Manager n
unfolding manager_receive
manager_run n rc [] m = m
manager_run n rc (c ∷ past) m = manager_receive n rc c (manager_run n rc past m)

-- The task: the set-up, the stored credentials, and then the rounds for those received; `none` is an
-- abort. `cred` is its local variable, still to be filled.
unfoldable pub wifi_manager_task :
    (n : NvsApi)
    → (List SetupCall → SetupCall → ℕ)
    → MeshSettings
    → (List Call → Call → ℕ)
    → Credentials
    → List Credentials
    → Manager n
    → Option (Manager n)
unfolding set_up manager_boot manager_run
wifi_manager_task n setup settings rc cred history m =
    if (set_up setup settings).0
    then some (manager_run n rc history (manager_boot n rc cred m))
    else none

-- the latest credentials with a name
abbrev pub latest : List Credentials → Option Credentials
latest [] = none
latest (c ∷ past) = if length c.ssid == 0 then latest past else some c

-- The flash has room for all of these credentials that have a name: each store of them succeeds.
abbrev pub StoresAll : (n : NvsApi) → (List Call → Call → ℕ) → List Credentials → Manager n → Type 0
StoresAll n rc [] m = Unit {0}
StoresAll n rc (c ∷ past) m =
    (length c.ssid ≢ 0
      → (store_credentials_nvs n c.ssid c.pass (manager_run n rc past m).flash).0 ≡ 0)
    × StoresAll n rc past m

-- The code ignores credentials without a name.
ignored :
    (n : NvsApi) (rc : List Call → Call → ℕ) (c : Credentials) (m : Manager n)
    → IsWellFormed c
    → length c.ssid ≡ 0
    → manager_receive n rc c m ≡ m
unfolding manager_receive
ignored n rc c m w nameless =
    let size = w.ssid_len in
    let bad : has_invalid_length c ≡ true = ground (arith, size, nameless) in
    rw (bad, manager_receive) refl

named_valid : (c : Credentials) → IsWellFormed c → length c.ssid ≢ 0 → has_invalid_length c ≡ false
named_valid c w named = valid_length c (omega (arith, w.ssid_len, named)) w.ssid_fits w.pass_fits

loads :
    (n : NvsApi) (rc : List Call → Call → ℕ) (history : List Credentials) (c out : Credentials)
    (m : Manager n)
    → NvsLaws n
    → StoresAll n rc history m
    → All IsWellFormed history
    → latest history ≡ some c
    → load_credentials_nvs n out (manager_run n rc history m).flash ≡ (0, c)
unfolding manager_run
loads n rc [] c out m laws ok a e = absurd cc
loads n rc (d ∷ past) c out m laws ok a e = elim (ne_or_eq (length d.ssid) 0) [
  | inr nameless ↦
      rw (ignored n rc d (manager_run n rc past m) a.0 nameless)
        (loads n rc past c out m laws ok.1 a.1 (ground (arith, e, nameless)))
  | inl named ↦
      let t = manager_run n rc past m in
      let here = ==_no (length d.ssid) 0 named in
      let same : d ≡ c = ground (arith, e, here) in
      rw (stored n rc d t (named_valid d a.0 named) (ok.0 named))
        (load-store_whole n d out t.flash laws a.0 (ok.0 named) ∙ ap (λ x. (0, x)) same)
]

-- For any credentials received in any order, whose lengths are those of their strings and fit their
-- buffers, on a flash for which the laws of NVS hold and which stores each of them that has a name
-- without an error: when both set-ups succeed and the station starts without an error, the task
-- after a restart has made exactly the four calls that start the station with the latest of these
-- credentials whose name is not empty: with the first 31 bytes of the name and the first 63 of the
-- password, so the whole of them when they are no longer.
pub wifi_manager_task-latest :
    (n : NvsApi) (setup setup' : List SetupCall → SetupCall → ℕ) (settings : MeshSettings)
    (rc rc' : List Call → Call → ℕ) (history : List Credentials) (c cred : Credentials)
    (m after : Manager n)
    → NvsLaws n
    → StoresAll n rc history (manager_boot n rc cred m)
    → All IsWellFormed history
    → latest history ≡ some c
    → wifi_manager_task n setup settings rc cred history m ≡ some after
    → (set_up setup' settings).0 ≡ true
    → (wifi_start_with_creds rc' c []).0 ≡ 0
    → wifi_manager_task n setup' settings rc' cred [] (record { flash = after.flash; calls = [] })
      ≡ some (record {
        flash = after.flash;
        calls = connect ∷ start ∷ set_config (take 31 c.ssid) (take 63 c.pass) ∷ set_mode_sta ∷ [];
      })
unfolding wifi_manager_task
wifi_manager_task-latest n setup setup' settings rc rc' history c cred m after laws ok a e ran up
      started =
    let flash : manager_run n rc history (manager_boot n rc cred m) ≡ after = ground arith in
    let loaded : load_credentials_nvs n cred after.flash ≡ (0, c) =
      ap (λ t. load_credentials_nvs n cred t.flash) (sym flash)
      ∙ loads n rc history c cred (manager_boot n rc cred m) laws ok a e in
    rw (up, restarted n rc' c cred after.flash loaded) (rw (made_calls rc' c [] started) refl)
