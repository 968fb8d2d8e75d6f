-- ===== src/Parser/Logins.antt =====
-- main/parser.c: Wi-Fi credentials in the older plain format, as clients write them: SSID and PASS with
-- bare values.
use air_shifter_rough.Common.{
  ℕ, ◌+◌, ◌≤◌, ◌<◌, ◌≡◌, refl, ap, ap₂, ◌∙◌, sym, append-nil, Bool, true, false, not, ◌&&◌, ◌||◌,
  none, some, [], ◌∷◌, ◌++◌, Bytes, arith, ◌==◌, lt→ltb, All, drop, take_all, length, codes,
}
use air_shifter_rough.Platform.{Platform, Credentials}
use air_shifter_rough.CLib.{isspace, skip_spaces, starts_with, strstr}
use air_shifter_rough.Biz.{Biz, biz_apply_wifi_credentials}
use air_shifter_rough.Parser.Fields.{
  skip_separators, copy_until, copy_field, ends_word, legacy_extract_str_field, make_credentials,
}
use air_shifter_rough.Parser.Legacy.{contains, legacy_ssid, legacy_pass, legacy_packet}
use air_shifter_rough.Parser.{parser_handle_packet}

-- a byte of a bare value
abbrev pub IsBare : ℕ → Type 0
IsBare c = (ends_word c ≡ false) × ((c == 0) ≡ false)

-- the first byte of a bare value is no separator and no quote
abbrev pub is_lead : ℕ → Bool
is_lead c = not (c == b':' || c == b'=' || isspace c || c == b'"' || c == b'\'')

abbrev pub IsValue : Bytes → Type 0
IsValue [] = ⊥
IsValue (c ∷ cs) = (is_lead c ≡ true) × All IsBare (c ∷ cs)

abbrev pub login : Bytes → Bytes → Bytes
login name word = codes "SSID:" ++ (name ++ (codes ",PASS:" ++ word))

-- what ends a bare value
abbrev EndsWord : Bytes → Type 0
EndsWord [] = Unit
EndsWord (c ∷ cs) = ends_word c ≡ true

copy_until_word :
    (n i : ℕ) (xs rest : Bytes)
    → All IsBare xs
    → EndsWord rest
    → i + length xs < n
    → copy_until ends_word n i (xs ++ rest) ≡ xs
unfolding copy_until
copy_until_word n i [] [] a e h = refl
copy_until_word n i [] (c ∷ cs) a e h = rw (e, copy_until) refl
copy_until_word n i (x ∷ xs) rest a e h =
    let ih = copy_until_word n (i + 1) xs rest a.1 e (omega arith) in
    let bare = a.0.0 in let room = lt→ltb (i + 1) n (omega arith) in ground arith

-- a key without a comma is found only before one
starts_with-comma :
    (key s rest : Bytes)
    → All (λ k. (k == b',') ≡ false) key
    → starts_with key (s ++ (b',' ∷ rest)) ≡ starts_with key s
unfolding starts_with
starts_with-comma [] s rest a = refl
starts_with-comma (k ∷ ks) [] rest a = rw (a.0) refl
starts_with-comma (k ∷ ks) (c ∷ cs) rest a =
    ap (λ b. k == c && b) (starts_with-comma ks cs rest a.1)

abbrev after_name : Bytes → Bytes
after_name word = codes ",PASS:" ++ word

strstr-pass :
    (name word : Bytes)
    → strstr name (codes "PASS") ≡ none
    → strstr (name ++ after_name word) (codes "PASS") ≡ some (codes "PASS:" ++ word)
unfolding strstr starts_with
strstr-pass [] word none_there = refl
strstr-pass (c ∷ cs) word none_there =
    let here =
      starts_with-comma (codes "PASS") (c ∷ cs) (codes "PASS:" ++ word)
        (refl, (refl, (refl, (refl, tt)))) in
    let ih = strstr-pass cs word (ground arith) in ground arith

skip_separators-value :
    (c : ℕ) (rest : Bytes) → is_lead c ≡ true → skip_separators (b':' ∷ c ∷ rest) ≡ c ∷ rest
unfolding skip_separators
skip_separators-value c rest lead = ground arith

copy_field-value :
    (n c : ℕ) (cs rest : Bytes)
    → IsValue (c ∷ cs)
    → EndsWord rest
    → length (c ∷ cs) < n
    → copy_field n (c ∷ (cs ++ rest)) ≡ c ∷ cs
unfolding copy_field
copy_field-value n c cs rest v e fits =
    let copied = copy_until_word n 0 (c ∷ cs) rest v.1 e (omega arith) in
    let lead = v.0 in ground arith

-- the extraction of a bare value behind a key and a colon
extract-value :
    (src key found out : Bytes) (n c : ℕ) (cs rest : Bytes)
    → strstr src key ≡ some found
    → drop (length key) found ≡ b':' ∷ c ∷ (cs ++ rest)
    → IsValue (c ∷ cs)
    → EndsWord rest
    → length (c ∷ cs) < n
    → legacy_extract_str_field src key out n ≡ (true, c ∷ cs)
unfolding legacy_extract_str_field
extract-value src key found out n c cs rest e d v stop fits =
    rw (e, legacy_extract_str_field)
      (rw (d, skip_separators-value c (cs ++ rest) v.0, copy_field-value n c cs rest v stop fits)
        refl)

extract-ssid :
    (c : ℕ) (cs word : Bytes)
    → IsValue (c ∷ cs)
    → length (c ∷ cs) ≤ 32
    → legacy_ssid (login (c ∷ cs) word) ≡ (true, c ∷ cs)
unfolding legacy_ssid strstr starts_with
extract-ssid c cs word v fits =
    rw
      (extract-value (login (c ∷ cs) word) (codes "SSID") (login (c ∷ cs) word) [] 33 c cs
        (after_name word) refl refl v refl (omega arith))
      refl

extract-pass :
    (name : Bytes) (c : ℕ) (cs : Bytes)
    → strstr name (codes "PASS") ≡ none
    → IsValue (c ∷ cs)
    → length (c ∷ cs) ≤ 64
    → legacy_pass (login name (c ∷ cs)) ≡ (true, c ∷ cs)
unfolding legacy_pass strstr starts_with
extract-pass name c cs absent v fits =
    rw
      (extract-value (login name (c ∷ cs)) (codes "PASS") (codes "PASS:" ++ (c ∷ cs)) [] 65 c cs []
        (strstr-pass name (c ∷ cs) absent) (ap (λ t. b':' ∷ c ∷ t) (sym (append-nil cs))) v tt
        (omega arith))
      refl

-- what the packet's credentials are
abbrev pub credentials : Bytes → Bytes → Credentials
credentials name word = record {
  ssid_len = length name;
  pass_len = length word;
  ssid = name;
  pass = word;
}

pub make_credentials-whole :
    (name word : Bytes)
    → length name ≤ 32
    → length word ≤ 64
    → make_credentials name true word ≡ credentials name word
make_credentials-whole name word fits fits' =
    ap₂ (λ a b. record { ssid = a; ssid_len = length a; pass = b; pass_len = length b })
      (take_all 32 name fits) (take_all 64 word fits')

plain :
    (p : Platform) (name word : Bytes) (b : Biz)
    → parser_handle_packet p (some (login name word)) b ≡ legacy_packet p (login name word) b
unfolding parser_handle_packet skip_spaces isspace
plain p name word b = refl

is_login :
    (name word : Bytes) (w : Bool)
    → (w || contains (login name word) (codes "SSID") || contains (login name word) (codes "ssid"))
      ≡ true
unfolding strstr starts_with
is_login name word true = refl
is_login name word false = refl

pub parser_handle_packet-login :
    (p : Platform) (c : ℕ) (cs : Bytes) (d : ℕ) (ds : Bytes) (b : Biz)
    → IsValue (c ∷ cs)
    → IsValue (d ∷ ds)
    → length (c ∷ cs) ≤ 32
    → length (d ∷ ds) ≤ 64
    → strstr (c ∷ cs) (codes "PASS") ≡ none
    → parser_handle_packet p (some (login (c ∷ cs) (d ∷ ds))) b
      ≡ (true, biz_apply_wifi_credentials p (some (credentials (c ∷ cs) (d ∷ ds))) b)
unfolding legacy_packet
parser_handle_packet-login p c cs d ds b v v' fits fits' absent =
    let name = extract-ssid c cs (d ∷ ds) v fits in
    let word = extract-pass (c ∷ cs) d ds absent v' fits' in
    let whole = make_credentials-whole (c ∷ cs) (d ∷ ds) fits fits' in
    plain p (c ∷ cs) (d ∷ ds) b
    ∙ rw
        (
          is_login (c ∷ cs) (d ∷ ds) (contains (login (c ∷ cs) (d ∷ ds)) (codes "Wifi")),
          legacy_packet,
        )
        (rw (name, word, whole) refl)
