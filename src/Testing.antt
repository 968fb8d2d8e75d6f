-- ===== src/Testing.antt =====
-- A platform and a state for the tests: every call of the platform succeeds while there is room.
pub mod Flash
pub mod Booted
use air_shifter_rough.Common.{
  ℕ, true, none, some, List, [], ◌∷◌, ◌++◌, Bytes, arith, ltb, if◌then◌else◌, length, length-append,
  length-take, replicate, take, ◌≡◌, ap,
}
use air_shifter_rough.Gatt.Within.{CopiesAtMost}
use air_shifter_rough.Platform.{Platform, HmacLength, Token, TokenType}

-- the key and the text, cut to 32 bytes
abbrev pub toy_hmac : Bytes → Bytes → Bytes
toy_hmac key text = take 32 ((key ++ text) ++ replicate 32 0)

abbrev pub token : TokenType → ℕ → ℕ → Token
token t start end = record { type = t; start = start; end = end; size = 0 }

abbrev pub toy : List Token → Platform
toy tokens = record {
  hmac = λ key text. some (toy_hmac key text);
  jsmn_parse = λ text room. some tokens;
  queue_send = λ queue c. if ltb (length queue) 2 then some (queue ++ c ∷ []) else none;
  mbuf_append = λ om bytes. some (om ++ bytes);
  mbuf_to_flat = λ om room. some (take room om);
  malloc = λ size. true;
}

pub length-toy_hmac : (key text : Bytes) → length (toy_hmac key text) ≡ 32
length-toy_hmac key text = omega (
  arith,
  length-take 32 ((key ++ text) ++ replicate 32 0),
  length-append (key ++ text) (replicate 32 0),
)

pub toy-HmacLength : (tokens : List Token) → HmacLength (toy tokens)
toy-HmacLength tokens key text mac e = let size = length-toy_hmac key text in ground arith

pub toy-CopiesAtMost : (tokens : List Token) → CopiesAtMost (toy tokens)
toy-CopiesAtMost tokens om bs max_len e =
    let most = length-take max_len om in
    let same : take max_len om ≡ bs = ground arith in omega (arith, most, ap length same)
