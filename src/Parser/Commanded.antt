-- ===== src/Parser/Commanded.antt =====
-- main/parser.c: the control commands that the JSON scan and the older format run.
use air_shifter_rough.Common.{
  ◌≡◌, refl, ap, ◌∙◌, Bool, true, false, some, List, [], ◌∷◌, Bytes, arith, ℤ, Option-cases,
  Bool-cases, inl, inr, codes,
}
use air_shifter_rough.Platform.{Token}
use air_shifter_rough.Biz.{Biz}
use air_shifter_rough.Biz.Setters.{Dial, rpm, angle, light, power, Command, command, commands}
use air_shifter_rough.Parser.Fields.{legacy_extract_int_field, token_to_int}
use air_shifter_rough.Parser.Json.{
  Scan, Key, ssid, pass, speed, device, timestamp, unknown, key_of, apply_key, is_string,
  scan_tokens,
}
use air_shifter_rough.Parser.Legacy.{legacy_control, legacy_controls}

abbrev pub any : List Command → Bool
any [] = false
any (c ∷ cs) = true

-- Only commands so far; the flag says whether there was one.
pub record Commanded (b : Biz) (handled : Bool) (b' : Biz) : Type 0 where
  pub done : List Command
  pub state : b' ≡ commands done b
  pub verdict : handled ≡ any done

pub nothing-Commanded : (b : Biz) → Commanded b false b
unfolding commands
nothing-Commanded b = record { done = []; state = refl; verdict = refl }

pub Commanded-more :
    (b b' : Biz) (handled : Bool) (d : Dial) (v : ℤ)
    → Commanded b handled b'
    → Commanded b true (command d v b')
unfolding commands
Commanded-more b b' handled d v c = record {
  done = record { dial = d; value = v } ∷ c.done;
  state = ap (command d v) c.state;
  verdict = refl;
}

legacy_control-Commanded :
    (buf key key' : Bytes) (d : Dial) (b : Biz) (x : Bool × Biz)
    → Commanded b x.0 x.1
    → let r = legacy_control buf key key' (command d) x in Commanded b r.0 r.1
legacy_control-Commanded buf key key' d b x c =
    elim (Option-cases (legacy_extract_int_field buf key)) [
      | inr (v, e) ↦ rw (e, legacy_control) (Commanded-more b x.1 x.0 d v c)
      | inl e ↦
          rw (e, legacy_control)
            (elim (Option-cases (legacy_extract_int_field buf key')) [
              | inr (v, e') ↦ rw (e', legacy_control) (Commanded-more b x.1 x.0 d v c)
              | inl e' ↦ rw (e', legacy_control) c
            ])
    ]

pub legacy_controls-Commanded :
    (buf : Bytes) (b : Biz) → let r = legacy_controls buf b in Commanded b r.0 r.1
unfolding legacy_controls command
legacy_controls-Commanded buf b =
    legacy_control-Commanded buf (codes "Power") (codes "power") power b _ (
      legacy_control-Commanded buf (codes "Light") (codes "light") light b _ (
        legacy_control-Commanded buf (codes "Angle") (codes "angle") angle b _ (
          legacy_control-Commanded buf (codes "Speed") (codes "speed") rpm b _
            (nothing-Commanded b))))

-- what a scan has done so far
abbrev pub Scanned : Biz → Scan → Type 0
Scanned b s = Commanded b s.handled s.biz

-- A known key leaves the business logic alone or runs one setter.
data Stepped (s t : Scan) : Type 0 where
  quiet : t.biz ≡ s.biz → t.handled ≡ s.handled → Stepped s t
  sets : (d : Dial) (v : ℤ) → t.biz ≡ command d v s.biz → t.handled ≡ true → Stepped s t

apply_key-Stepped :
    (k : Key) (buf : Bytes) (val : Token) (s t : Scan)
    → apply_key k buf val s ≡ some t
    → Stepped s t
unfolding apply_key command
apply_key-Stepped ssid buf val s t e = quiet (ground arith) (ground arith)
apply_key-Stepped pass buf val s t e = quiet (ground arith) (ground arith)
apply_key-Stepped speed buf val s t e = elim (Option-cases (token_to_int buf val)) [
  | inl n ↦ quiet (ground arith) (ground arith)
  | inr (v, n) ↦ sets rpm v (ground arith) (ground arith)
]
apply_key-Stepped Key.angle buf val s t e = elim (Option-cases (token_to_int buf val)) [
  | inl n ↦ quiet (ground arith) (ground arith)
  | inr (v, n) ↦ sets angle v (ground arith) (ground arith)
]
apply_key-Stepped Key.light buf val s t e = elim (Option-cases (token_to_int buf val)) [
  | inl n ↦ quiet (ground arith) (ground arith)
  | inr (v, n) ↦ sets light v (ground arith) (ground arith)
]
apply_key-Stepped Key.power buf val s t e = elim (Option-cases (token_to_int buf val)) [
  | inl n ↦ quiet (ground arith) (ground arith)
  | inr (v, n) ↦ sets power v (ground arith) (ground arith)
]
apply_key-Stepped device buf val s t e = quiet (ground arith) (ground arith)
apply_key-Stepped timestamp buf val s t e = elim (Option-cases (token_to_int buf val)) [
  | inl n ↦ quiet (ground arith) (ground arith)
  | inr (v, n) ↦ quiet (ground arith) (ground arith)
]
apply_key-Stepped unknown buf val s t e = absurd (ground arith)

Stepped-Scanned : (b : Biz) (s t : Scan) → Stepped s t → Scanned b s → Scanned b t
Stepped-Scanned b s t (quiet e h) c = record {
  done = c.done;
  state = e ∙ c.state;
  verdict = h ∙ c.verdict;
}
Stepped-Scanned b s t (sets d v e h) c =
    let more = Commanded-more b s.biz s.handled d v c in
    record { done = more.done; state = e ∙ more.state; verdict = h ∙ more.verdict }

pub scan_tokens-Scanned :
    (buf : Bytes) (ts : List Token) (b : Biz) (s : Scan)
    → Scanned b s
    → Scanned b (scan_tokens buf ts s)
unfolding scan_tokens
scan_tokens-Scanned buf [] b s c = c
scan_tokens-Scanned buf (t ∷ []) b s c = c
scan_tokens-Scanned buf (t ∷ val ∷ rest) b s c = elim (Bool-cases (is_string t.type)) [
  | inr e ↦ rw (e, scan_tokens) (scan_tokens-Scanned buf (val ∷ rest) b s c)
  | inl e ↦ elim (Option-cases (apply_key (key_of buf t) buf val s)) [
    | inl n ↦ rw (e, n, scan_tokens) (scan_tokens-Scanned buf (val ∷ rest) b s c)
    | inr (s', n) ↦
        rw (e, n, scan_tokens)
          (scan_tokens-Scanned buf rest b s'
            (Stepped-Scanned b s s' (apply_key-Stepped (key_of buf t) buf val s s' n) c))
  ]
]
