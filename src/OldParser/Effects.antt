-- ===== src/OldParser/Effects.antt =====
-- main/parser-oldbitch1.c: the effect of a packet on the business logic.
use air_shifter_rough.Common.{
  ◌≡◌, refl, Bool, true, false, none, some, [], ◌++◌, Bytes, ℤ, Option, Bool-cases, inl, inr, codes,
}
use air_shifter_rough.Platform.{Platform}
use air_shifter_rough.CLib.{strstr, starts_with}
use air_shifter_rough.Biz.{Biz, biz_apply_wifi_credentials}
use air_shifter_rough.Biz.Setters.{Dial, rpm, angle, light, power, command, commands}
use air_shifter_rough.Parser.Fields.{make_credentials, skip_separators}
use air_shifter_rough.Parser.Commanded.{Commanded, Commanded-more, nothing-Commanded}
use air_shifter_rough.Parser.Effects.{Effect, nothing-Effect, if-Effect}
use air_shifter_rough.Parser.Legacy.{contains}
use air_shifter_rough.OldParser.Fields.{extract_str_field, copy_value, until, normalize_packet}
use air_shifter_rough.OldParser.Packet.{
  run_setter, controls, is_login, packet_ssid, packet_pass, handle_normalized, norm_size,
  parser_handle_packet,
}

run_setter-Commanded :
    (v : Option ℤ) (d : Dial) (b : Biz) (x : Bool × Biz)
    → Commanded b x.0 x.1
    → let r = run_setter v (command d) x in Commanded b r.0 r.1
run_setter-Commanded none d b x c = c
run_setter-Commanded (some v) d b x c = Commanded-more b x.1 x.0 d v c

controls-Commanded : (p : Bytes) (b : Biz) → let r = controls p b in Commanded b r.0 r.1
unfolding controls command
controls-Commanded p b = run_setter-Commanded _ power b _ (
    run_setter-Commanded _ light b _ (
      run_setter-Commanded _ angle b _
        (run_setter-Commanded _ rpm b (false, b) (nothing-Commanded b))))

handle_normalized-Effect :
    (p : Platform) (norm : Bytes) (b : Biz) → Effect p b (handle_normalized p norm b)
unfolding handle_normalized commands
handle_normalized-Effect p norm b =
    let c = controls-Commanded norm b in
    if-Effect p b (is_login norm)
      (if-Effect p b (packet_ssid norm).0
        (record {
          done = [];
          login = some (record {
            name = (packet_ssid norm).1;
            got_pass = (packet_pass norm).0;
            word = (packet_pass norm).1;
          });
          state = refl;
          verdict = refl;
        })
        (nothing-Effect p b))
      (record { done = c.done; login = none; state = c.state; verdict = c.verdict })

-- For every text the effect of a packet of the older parser on the business logic is that of some
-- commands to the four setters, in order, and then at most one set of credentials made from a name
-- and a password and passed to biz_apply_wifi_credentials; and the result is true exactly when
-- there was a command or such credentials.
pub old_packet-Effect :
    (p : Platform) (buf : Option Bytes) (b : Biz) → Effect p b (parser_handle_packet p buf b)
unfolding parser_handle_packet
old_packet-Effect p none b = nothing-Effect p b
old_packet-Effect p (some buf) b = handle_normalized-Effect p (normalize_packet buf norm_size) b

-- A normalised packet that starts like JSON with a quoted key SSID, a colon and a quoted value is
-- handled as credentials whose name is a colon, whatever the value is.
pub quoted_name :
    (p : Platform) (rest : Bytes) (b : Biz)
    → let text = codes "{\"SSID\":\"" ++ rest in
      handle_normalized p text b ≡ (
        true,
        biz_apply_wifi_credentials p
            (some (make_credentials (codes ":") (packet_pass text).0 (packet_pass text).1))
            b,
      )
unfolding handle_normalized packet_ssid strstr starts_with extract_str_field skip_separators
    copy_value until
quoted_name p rest b = elim (Bool-cases (contains (codes "{\"SSID\":\"" ++ rest) (codes "Wifi"))) [
  | inl e ↦ rw e refl
  | inr e ↦ rw e refl
]
