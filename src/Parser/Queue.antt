-- ===== src/Parser/Queue.antt =====
-- main/parser.c and main/biz_logix.c: what stands in the queue of Wi-Fi credentials.
use air_shifter_rough.Common.{
  ℕ, ◌≤◌, ◌≡◌, refl, sym, ap, ◌∙◌, Bool, true, false, Option, none, some, List, [], ◌∷◌, ◌++◌,
  Bytes, arith, Option-cases, inl, inr, length, length-take, take, take_all, ◌==◌, ==_no,
  if◌then◌else◌, All, ℤ,
}
use mathlib.Core.Path.{subst}
use air_shifter_rough.Platform.{Platform, Credentials}
use air_shifter_rough.Biz.{
  Biz, biz_apply_wifi_credentials, copy_credentials, biz_set_rpm, biz_set_angle, biz_set_light,
  biz_set_power,
}
use air_shifter_rough.Biz.Setters.{Dial, rpm, angle, light, power, Command, command, commands}
use air_shifter_rough.Parser.Fields.{make_credentials}
use air_shifter_rough.Parser.Effects.{Login, send, parser_handle_packet-Effect}
use air_shifter_rough.Parser.{parser_handle_packet}

-- The lengths are those of the strings, and within IEEE 802.11's limits.
pub record IsWellFormed (c : Credentials) : Type 0 where
  pub ssid_len : c.ssid_len ≡ length c.ssid
  pub ssid_fits : c.ssid_len ≤ 32
  pub pass_len : c.pass_len ≡ length c.pass
  pub pass_fits : c.pass_len ≤ 64

-- every entry of the queue, if there is a queue
abbrev pub IsQueueValid : Biz → Type 0
IsQueueValid b =
    (queue : List Credentials) → b.wifi_cred_queue ≡ some queue → All IsWellFormed queue

-- xQueueSend puts the item behind the others.
abbrev pub Enqueues : Platform → Type 0
Enqueues p =
    (queue after : List Credentials) (c : Credentials)
    → p.queue_send queue c ≡ some after
    → after ≡ queue ++ c ∷ []

All-snoc :
    (queue : List Credentials) (c : Credentials)
    → All IsWellFormed queue
    → IsWellFormed c
    → All IsWellFormed (queue ++ c ∷ [])
All-snoc [] c a w = (w, tt)
All-snoc (d ∷ queue) c a w = (a.0, All-snoc queue c a.1 w)

take_twice : (n : ℕ) (xs : Bytes) → take n (take n xs) ≡ take n xs
take_twice n xs = take_all n (take n xs) (omega (arith, length-take n xs))

length-kept :
    (t : Bytes) → take 64 t ≡ t → length t ≡ length (if length t == 0 then [] else take 64 t)
length-kept [] e = refl
length-kept (c ∷ cs) e =
    let no = ==_no (length (c ∷ cs)) 0 (λ z. omega (arith, z)) in
    let same = ap length (sym e) in ground arith

copy-IsWellFormed :
    (name : Bytes) (got : Bool) (word : Bytes)
    → IsWellFormed (copy_credentials (make_credentials name got word))
copy-IsWellFormed name true word = record {
  ssid_len = ap length (sym (take_twice 32 name));
  ssid_fits = omega (arith, length-take 32 name);
  pass_len = length-kept (take 64 word) (take_twice 64 word);
  pass_fits = omega (arith, length-take 64 word);
}
copy-IsWellFormed name false word = record {
  ssid_len = ap length (sym (take_twice 32 name));
  ssid_fits = omega (arith, length-take 32 name);
  pass_len = refl;
  pass_fits = omega arith;
}

pub command-queue :
    (d : Dial) (v : ℤ) (b : Biz) → (command d v b).wifi_cred_queue ≡ b.wifi_cred_queue
unfolding command biz_set_rpm biz_set_angle biz_set_light biz_set_power
command-queue rpm v b = ground arith
command-queue angle v b = ground arith
command-queue light v b = ground arith
command-queue power v b = ground arith

commands-queue :
    (done : List Command) (b : Biz) → (commands done b).wifi_cred_queue ≡ b.wifi_cred_queue
unfolding commands
commands-queue [] b = refl
commands-queue (c ∷ done) b = command-queue c.dial c.value (commands done b) ∙ commands-queue done b

pub send-IsQueueValid :
    (p : Platform) (l : Option Login) (b : Biz)
    → Enqueues p
    → IsQueueValid b
    → IsQueueValid (send p l b)
unfolding biz_apply_wifi_credentials
send-IsQueueValid p none b law v = v
send-IsQueueValid p (some l) b law v = elim (Option-cases b.wifi_cred_queue) [
  | inl e ↦ rw (e, biz_apply_wifi_credentials) v
  | inr (queue, e) ↦
      let c = copy_credentials (make_credentials l.name l.got_pass l.word) in
      elim (Option-cases (p.queue_send queue c)) [
        | inl f ↦ rw (e, f, biz_apply_wifi_credentials) v
        | inr (after, f) ↦
            let full : All IsWellFormed after =
              rw (law queue after c f)
                (All-snoc queue c (v queue e) (copy-IsWellFormed l.name l.got_pass l.word)) in
            rw (e, f, biz_apply_wifi_credentials)
              (λ q x. let same : after ≡ q = cc in subst (All IsWellFormed) same full)
      ]
]

-- When a send puts its item behind the queue, a packet, whatever its text, keeps the queue of
-- credentials such that in every entry ssid_len and pass_len are the lengths of the two strings,
-- and at most 32 and 64.
pub parser_handle_packet-IsQueueValid :
    (p : Platform) (buf : Option Bytes) (b : Biz)
    → Enqueues p
    → IsQueueValid b
    → IsQueueValid (parser_handle_packet p buf b).1
parser_handle_packet-IsQueueValid p buf b law v =
    let x = parser_handle_packet-Effect p buf b in
    rw x.state (
      send-IsQueueValid p x.login (commands x.done b) law
        (λ q e. v q (sym (commands-queue x.done b) ∙ e)))
