-- ===== src/Biz/Tests.antt =====
-- Tests of main/biz_logix.c, and its theorems at concrete states.
use air_shifter_rough.Common.{◌≡◌, refl, true, false, List, [], ◌∷◌, pos, negsuc, some, codes}
use air_shifter_rough.Biz.Keys.{
  biz_verify_auth_key-biz_is_authenticated, biz_clear_auth-biz_is_authenticated,
}
use air_shifter_rough.Biz.KeyHistory.{
  KeyEvent, verifies, asks, clears, key_run, key_step, GaveKey, biz_is_authenticated-GaveKey,
}
use air_shifter_rough.Biz.{
  is_device_key, at_boot, biz_verify_auth_key, biz_is_authenticated, biz_clear_auth, get_auth_state,
  find_state, find_free_state, biz_set_light, biz_get_ctrl_light,
}
use air_shifter_rough.Biz.Setters.{
  Command, rpm, light, commands, desired, reported, commands-latest,
}

-- latest first
abbrev history : List Command
history =
    record { dial = light; value = pos 300 }
    ∷ record { dial = rpm; value = negsuc 0 }
    ∷ record { dial = rpm; value = pos 70_000 }
    ∷ []

commands-latest_example :
    (desired rpm (commands history at_boot) ≡ 70_000)
    × (reported rpm (commands history at_boot) ≡ 70_000)
commands-latest_example = commands-latest rpm history at_boot

light_is_cut : biz_get_ctrl_light (biz_set_light (pos 300) at_boot) ≡ 44
unfolding biz_set_light biz_get_ctrl_light
light_is_cut = refl

right_key : (biz_verify_auth_key 7 (some (codes "fan12345")) at_boot).0 ≡ true
unfolding biz_verify_auth_key get_auth_state find_state find_free_state
right_key = refl

wrong_key : (biz_verify_auth_key 7 (some (codes "fan1234")) at_boot).0 ≡ false
unfolding biz_verify_auth_key get_auth_state find_state find_free_state
wrong_key = refl

key_then_clear :
    (biz_is_authenticated 7
      (biz_clear_auth 7 (biz_verify_auth_key 7 (some (codes "fan12345")) at_boot).1)).0
    ≡ false
unfolding biz_verify_auth_key biz_is_authenticated biz_clear_auth get_auth_state find_state
    find_free_state
key_then_clear = refl

accepted_key_checks :
    (is_device_key (some (codes "fan12345")) ≡ true)
    × ((biz_is_authenticated 7 (biz_verify_auth_key 7 (some (codes "fan12345")) at_boot).1).0
        ≡ true)
accepted_key_checks =
    biz_verify_auth_key-biz_is_authenticated 7 (some (codes "fan12345")) at_boot right_key

cleared_key_fails :
    (biz_is_authenticated 7
      (biz_clear_auth 7 (biz_verify_auth_key 7 (some (codes "fan12345")) at_boot).1)).0
    ≡ false
cleared_key_fails =
    biz_clear_auth-biz_is_authenticated 7
      (biz_verify_auth_key 7 (some (codes "fan12345")) at_boot).1

-- latest first
abbrev key_events : List KeyEvent
key_events =
    asks 7
    ∷ clears 8
    ∷ verifies 7 (some (codes "fan12345"))
    ∷ clears 7
    ∷ verifies 8 (some (codes "fan12345"))
    ∷ []

key_events_checks : (biz_is_authenticated 7 (key_run key_events)).0 ≡ true
unfolding key_run key_step biz_verify_auth_key biz_is_authenticated biz_clear_auth get_auth_state
    find_state find_free_state
key_events_checks = refl

key_events_cleared : (biz_is_authenticated 8 (key_run key_events)).0 ≡ false
unfolding key_run key_step biz_verify_auth_key biz_is_authenticated biz_clear_auth get_auth_state
    find_state find_free_state
key_events_cleared = refl

biz_is_authenticated-GaveKey_example : GaveKey 7 key_events
biz_is_authenticated-GaveKey_example = biz_is_authenticated-GaveKey 7 key_events key_events_checks
