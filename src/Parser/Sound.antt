-- ===== src/Parser/Sound.antt =====
-- What the setters, the credentials and the packets of main/biz_logix.c and main/parser.c keep of
-- the business logic.
use air_shifter_rough.Common.{
  ℕ, ◌^◌, ◌<◌, ◌≡◌, refl, sym, ◌∙◌, Option, none, some, List, [], ◌∷◌, Bytes, arith, ℤ, pos, negsuc,
  to_unsigned, Option-cases, inl, inr,
}
use air_shifter_rough.Platform.{Platform}
use air_shifter_rough.Biz.{
  Biz, Values, biz_set_rpm, biz_set_angle, biz_set_light, biz_set_power, biz_apply_wifi_credentials,
  biz_clear_auth, copy_credentials,
}
use air_shifter_rough.Biz.Setters.{
  Dial, rpm, angle, light, power, Command, command, commands, width,
}
use air_shifter_rough.Parser.Effects.{Login, send, parser_handle_packet-Effect}
use air_shifter_rough.Parser.Queue.{Enqueues, IsQueueValid, command-queue, send-IsQueueValid}
use air_shifter_rough.Parser.Fields.{make_credentials}
use air_shifter_rough.Parser.{parser_handle_packet}

-- Each value is one of its variable's type: uint32_t, and uint8_t for light and power.
abbrev pub IsTyped : Values → Type 0
IsTyped v = (v.rpm < 2 ^ 32) × (v.angle < 2 ^ 32) × (v.light < 2 ^ 8) × (v.power < 2 ^ 8)

-- What is reported is what is desired, of its type, and the queued credentials are well formed.
pub record IsSound (b : Biz) : Type 0 where
  pub mirrored : b.stat ≡ b.ctrl
  pub typed : IsTyped b.ctrl
  pub queued : IsQueueValid b

to_unsigned-lt : (d : Dial) (v : ℤ) → to_unsigned (width d) v < 2 ^ width d
to_unsigned-lt rpm (pos n) = omega arith
to_unsigned-lt rpm (negsuc n) = omega arith
to_unsigned-lt angle (pos n) = omega arith
to_unsigned-lt angle (negsuc n) = omega arith
to_unsigned-lt light (pos n) = omega arith
to_unsigned-lt light (negsuc n) = omega arith
to_unsigned-lt power (pos n) = omega arith
to_unsigned-lt power (negsuc n) = omega arith

command-mirrored :
    (d : Dial) (v : ℤ) (b : Biz) → b.stat ≡ b.ctrl → (command d v b).stat ≡ (command d v b).ctrl
unfolding command biz_set_rpm biz_set_angle biz_set_light biz_set_power
command-mirrored rpm v b e = ground (arith, e)
command-mirrored angle v b e = ground (arith, e)
command-mirrored light v b e = ground (arith, e)
command-mirrored power v b e = ground (arith, e)

command-IsTyped : (d : Dial) (v : ℤ) (b : Biz) → IsTyped b.ctrl → IsTyped (command d v b).ctrl
unfolding command biz_set_rpm biz_set_angle biz_set_light biz_set_power
command-IsTyped rpm v b t = let fits = to_unsigned-lt rpm v in ground (arith, t, fits)
command-IsTyped angle v b t = let fits = to_unsigned-lt angle v in ground (arith, t, fits)
command-IsTyped light v b t = let fits = to_unsigned-lt light v in ground (arith, t, fits)
command-IsTyped power v b t = let fits = to_unsigned-lt power v in ground (arith, t, fits)

pub command-IsSound : (d : Dial) (v : ℤ) (b : Biz) → IsSound b → IsSound (command d v b)
command-IsSound d v b s = record {
  mirrored = command-mirrored d v b s.mirrored;
  typed = command-IsTyped d v b s.typed;
  queued = λ q e. s.queued q (sym (command-queue d v b) ∙ e);
}

commands-IsSound : (done : List Command) (b : Biz) → IsSound b → IsSound (commands done b)
unfolding commands
commands-IsSound [] b s = s
commands-IsSound (c ∷ done) b s =
    command-IsSound c.dial c.value (commands done b) (commands-IsSound done b s)

-- Credentials change the queue alone.
send-values :
    (p : Platform) (l : Option Login) (b : Biz)
    → ((send p l b).ctrl ≡ b.ctrl) × ((send p l b).stat ≡ b.stat)
unfolding biz_apply_wifi_credentials
send-values p none b = (refl, refl)
send-values p (some l) b = elim (Option-cases b.wifi_cred_queue) [
  | inl e ↦ rw (e, biz_apply_wifi_credentials) (refl, refl)
  | inr (queue, e) ↦
      let c = copy_credentials (make_credentials l.name l.got_pass l.word) in
      elim (Option-cases (p.queue_send queue c)) [
        | inl f ↦ rw (e, f, biz_apply_wifi_credentials) (refl, refl)
        | inr (after, f) ↦ rw (e, f, biz_apply_wifi_credentials) (refl, refl)
      ]
]

send-IsSound :
    (p : Platform) (l : Option Login) (b : Biz) → Enqueues p → IsSound b → IsSound (send p l b)
send-IsSound p l b law s =
    let same = send-values p l b in
    record {
      mirrored = same.1 ∙ s.mirrored ∙ sym same.0;
      typed = rw same.0 s.typed;
      queued = send-IsQueueValid p l b law s.queued;
    }

pub parser_handle_packet-IsSound :
    (p : Platform) (buf : Option Bytes) (b : Biz)
    → Enqueues p
    → IsSound b
    → IsSound (parser_handle_packet p buf b).1
parser_handle_packet-IsSound p buf b law s =
    let x = parser_handle_packet-Effect p buf b in
    rw x.state (send-IsSound p x.login (commands x.done b) law (commands-IsSound x.done b s))

pub biz_clear_auth-IsSound : (h : ℕ) (b : Biz) → IsSound b → IsSound (biz_clear_auth h b)
unfolding biz_clear_auth
biz_clear_auth-IsSound h b s = record { mirrored = s.mirrored; typed = s.typed; queued = s.queued }
