-- ===== src/Biz/Setters.antt =====
-- The setters of main/biz_logix.c over a history of commands, latest first.
use air_shifter_rough.Common.{
  ℕ, ◌≡◌, refl, Bool, true, false, List, [], ◌∷◌, arith, if◌then◌else◌, ℤ, is_negative, to_unsigned,
}
use air_shifter_rough.Biz.{
  Biz, biz_set_rpm, biz_set_angle, biz_set_light, biz_set_power, biz_get_ctrl_rpm, biz_get_stat_rpm,
  biz_get_ctrl_angle, biz_get_stat_angle, biz_get_ctrl_light, biz_get_stat_light,
  biz_get_ctrl_power, biz_get_stat_power,
}

pub data Dial : Type 0 where
  rpm angle light power : Dial

pub record Command : Type 0 where
  pub dial : Dial
  pub value : ℤ

unfoldable pub command : Dial → ℤ → Biz → Biz
unfolding biz_set_rpm biz_set_angle biz_set_light biz_set_power
command rpm v b = biz_set_rpm v b
command angle v b = biz_set_angle v b
command light v b = biz_set_light v b
command power v b = biz_set_power v b

unfoldable pub commands : List Command → Biz → Biz
commands [] b = b
commands (c ∷ past) b = command c.dial c.value (commands past b)

abbrev pub desired : Dial → Biz → ℕ
desired rpm b = biz_get_ctrl_rpm b
desired angle b = biz_get_ctrl_angle b
desired light b = biz_get_ctrl_light b
desired power b = biz_get_ctrl_power b

abbrev pub reported : Dial → Biz → ℕ
reported rpm b = biz_get_stat_rpm b
reported angle b = biz_get_stat_angle b
reported light b = biz_get_stat_light b
reported power b = biz_get_stat_power b

-- the bits of the variable behind a dial
abbrev pub width : Dial → ℕ
width rpm = 32
width angle = 32
width light = 8
width power = 8

abbrev pub same_dial : Dial → Dial → Bool
same_dial rpm rpm = true
same_dial angle angle = true
same_dial light light = true
same_dial power power = true
same_dial _ _ = false

-- The last value that is not negative, cut to the width; before any such value, `start`.
abbrev pub latest : Dial → ℕ → List Command → ℕ
latest d start [] = start
latest d start (c ∷ past) =
    if same_dial c.dial d
    then if is_negative c.value then latest d start past else to_unsigned (width d) c.value
    else latest d start past

command_lem :
    (e d : Dial) (v : ℤ) (b : Biz)
    → (desired d (command e v b) ≡ (
        if same_dial e d
        then if is_negative v then desired d b else to_unsigned (width d) v
        else desired d b))
      × (reported d (command e v b) ≡ (
          if same_dial e d
          then if is_negative v then reported d b else to_unsigned (width d) v
          else reported d b))
unfolding command biz_get_ctrl_rpm biz_get_stat_rpm biz_get_ctrl_angle biz_get_stat_angle
    biz_get_ctrl_light biz_get_stat_light biz_get_ctrl_power biz_get_stat_power
command_lem rpm rpm v b = ground arith
command_lem _ _ v b = ground arith

-- After any commands to the four setters the desired value of each is the last one asked for that
-- is not negative, cut to the width of its variable (32 bits for rpm and angle, 8 for light and
-- power), or the first value if there is none; the same holds of the reported value.
pub commands-latest :
    (d : Dial) (past : List Command) (b : Biz)
    → (desired d (commands past b) ≡ latest d (desired d b) past)
      × (reported d (commands past b) ≡ latest d (reported d b) past)
unfolding commands
commands-latest d [] b = (refl, refl)
commands-latest d (c ∷ past) b =
    let step = command_lem c.dial d c.value (commands past b) in
    let ih = commands-latest d past b in ground arith
