-- ===== src/Parser/Effects.antt =====
-- main/parser.c: the effect of a packet on the business logic, with the verdict of the parser.
use air_shifter_rough.Common.{
  ◌≡◌, ◌⊎◌, refl, ap, Bool, true, false, ◌||◌, Option, none, some, List, [], ◌∷◌, Bytes, arith,
  Option-cases, Bool-cases, inl, inr, if◌then◌else◌, codes,
}
use air_shifter_rough.Platform.{Platform}
use air_shifter_rough.Biz.{Biz, biz_apply_wifi_credentials}
use air_shifter_rough.Biz.Setters.{Command, commands}
use air_shifter_rough.Parser.Fields.{make_credentials}
use air_shifter_rough.Parser.Json.{
  Scan, scan_tokens, scan_start, finish_scan, parser_handle_packet_json, jsmn_token_max,
}
use air_shifter_rough.Parser.Legacy.{
  contains, legacy_controls, legacy_packet, legacy_ssid, legacy_pass,
}
use air_shifter_rough.Parser.{looks_like_json, or_legacy, parser_handle_packet}
use air_shifter_rough.Parser.Commanded.{
  Scanned, any, nothing-Commanded, legacy_controls-Commanded, scan_tokens-Scanned,
}
use air_shifter_rough.CLib.{skip_spaces}

-- a name, whether there is a password, and the password
pub record Login : Type 0 where
  pub name : Bytes
  pub got_pass : Bool
  pub word : Bytes

abbrev pub send : Platform → Option Login → Biz → Biz
send p none b = b
send p (some l) b =
    biz_apply_wifi_credentials p (some (make_credentials l.name l.got_pass l.word)) b

abbrev pub acted : List Command → Option Login → Bool
acted done none = any done
acted done (some l) = true

-- The commands come first, then at most one login; the result says whether there was any of these.
pub record Effect (p : Platform) (b : Biz) (r : Bool × Biz) : Type 0 where
  pub done : List Command
  pub login : Option Login
  pub state : r.1 ≡ send p login (commands done b)
  pub verdict : r.0 ≡ acted done login

acted_cases :
    (cs : List Command) (l : Option Login) → (acted cs l ≡ true) ⊎ ((cs ≡ []) × (l ≡ none))
acted_cases [] none = inr (refl, refl)
acted_cases (c ∷ cs) none = inl refl
acted_cases cs (some l) = inl refl

pub nothing-Effect : (p : Platform) (b : Biz) → Effect p b (false, b)
unfolding commands
nothing-Effect p b = record { done = []; login = none; state = refl; verdict = refl }

pub if-Effect :
    (p : Platform) (b : Biz) (t : Bool) {x y : Bool × Biz}
    → Effect p b x
    → Effect p b y
    → Effect p b (if t then x else y)
if-Effect p b true x y = x
if-Effect p b false x y = y

finish_scan-Effect :
    (p : Platform) (b : Biz) (s : Scan) → Scanned b s → Effect p b (finish_scan p s)
unfolding finish_scan
finish_scan-Effect p b s c = elim (Bool-cases s.got_ssid) [
  | inr e ↦
      rw (e, finish_scan)
        (record { done = c.done; login = none; state = c.state; verdict = c.verdict })
  | inl e ↦
      let l : Login = record { name = s.ssid; got_pass = s.got_pass; word = s.pass } in
      rw (e, finish_scan)
        (record {
          done = c.done;
          login = some l;
          state = ap (send p (some l)) c.state;
          verdict = refl;
        })
]

json-Effect :
    (p : Platform) (buf : Bytes) (b : Biz) → Effect p b (parser_handle_packet_json p buf b)
unfolding parser_handle_packet_json
json-Effect p buf b = elim (Option-cases (p.jsmn_parse buf jsmn_token_max)) [
  | inl e ↦ rw (e, parser_handle_packet_json) (nothing-Effect p b)
  | inr ([], e) ↦ rw (e, parser_handle_packet_json) (nothing-Effect p b)
  | inr (t ∷ toks, e) ↦
      rw (e, parser_handle_packet_json)
        (finish_scan-Effect p b (scan_tokens buf (t ∷ toks) (scan_start b))
          (scan_tokens-Scanned buf (t ∷ toks) b (scan_start b) (nothing-Commanded b)))
]

legacy_packet-Effect : (p : Platform) (buf : Bytes) (b : Biz) → Effect p b (legacy_packet p buf b)
unfolding legacy_packet commands
legacy_packet-Effect p buf b =
    let commanded : Effect p b (legacy_controls buf b) =
      let c = legacy_controls-Commanded buf b in
      record { done = c.done; login = none; state = c.state; verdict = c.verdict } in
    if-Effect p b
      (contains buf (codes "Wifi") || contains buf (codes "SSID") || contains buf (codes "ssid"))
      (if-Effect p b (legacy_ssid buf).0
        (record {
          done = [];
          login = some (record {
            name = (legacy_ssid buf).1;
            got_pass = (legacy_pass buf).0;
            word = (legacy_pass buf).1;
          });
          state = refl;
          verdict = refl;
        })
        commanded)
      commanded

-- A result of false says that nothing was done.
Effect-false : (p : Platform) (b : Biz) (r : Bool × Biz) → Effect p b r → r.0 ≡ false → r.1 ≡ b
unfolding commands
Effect-false p b r x e = elim (acted_cases x.done x.login) [
  | inl yes' ↦ absurd (ground (arith, x.verdict))
  | inr (d, l) ↦ ground (arith, x.state)
]

or_legacy-Effect :
    (p : Platform) (buf : Bytes) (b : Biz) (r : Bool × Biz)
    → Effect p b r
    → Effect p b (or_legacy p buf r)
or_legacy-Effect p buf b (true, b') x = x
or_legacy-Effect p buf b (false, b') x =
    rw (Effect-false p b (false, b') x refl) (legacy_packet-Effect p buf b)

-- For every text, JSON or not, and every result of jsmn: the packet's effect on the business logic
-- is that of some commands to the four setters, in order, and then at most one set of credentials
-- made from a name and a password and passed to biz_apply_wifi_credentials; and the result is true
-- exactly when there was a command or such credentials.
pub parser_handle_packet-Effect :
    (p : Platform) (buf : Option Bytes) (b : Biz) → Effect p b (parser_handle_packet p buf b)
unfolding parser_handle_packet
parser_handle_packet-Effect p none b = nothing-Effect p b
parser_handle_packet-Effect p (some buf) b =
    if-Effect p b (looks_like_json (skip_spaces buf))
      (or_legacy-Effect p buf b _ (json-Effect p (skip_spaces buf) b))
      (legacy_packet-Effect p buf b)

-- A packet for which parser_handle_packet returns false leaves the business logic as it was.
pub parser_handle_packet_unhandled :
    (p : Platform) (buf : Option Bytes) (b : Biz)
    → (parser_handle_packet p buf b).0 ≡ false
    → (parser_handle_packet p buf b).1 ≡ b
parser_handle_packet_unhandled p buf b = Effect-false p b _ (parser_handle_packet-Effect p buf b)
