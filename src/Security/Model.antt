-- ===== src/Security/Model.antt =====
-- What main/security.c promises, apart from its table of slots: a map from connections to sessions,
-- a key and a nonce length, and what each call may do to them. The handle 0 is left out.
use air_shifter_rough.Common.{
  ℕ, ◌/◌, ◌≤◌, ◌≡◌, ◌≢◌, ◌⊎◌, Bool, true, false, ◌&&◌, ◌||◌, Option, none, some, List, [], ◌∷◌,
  Bytes, ◌==◌, ltb, leb, if◌then◌else◌,
}
use air_shifter_rough.Platform.{Platform}
use air_shifter_rough.Security.Filling.{random_bytes}
use air_shifter_rough.Security.{default_key, elapsed, nonce_lifetime_ms}
use air_shifter_rough.Security.History.{
  Event, connects, responds, clears, notifies, sets_key, sets_nonce_len,
}

pub record Session : Type 0 where
  pub nonce : Bytes
  pub created : ℕ
  pub proved : Bool

pub record Model : Type 0 where
  pub key : Option Bytes
  pub nonce_len : ℕ
  pub table : ℕ → Option Session

-- the map with another entry for `h`
abbrev pub put : ℕ → Option Session → (ℕ → Option Session) → ℕ → Option Session
put h v table k = if h == k then v else table k

pub record Same (m' m : Model) : Type 0 where
  pub key : m'.key ≡ m.key
  pub nonce_len : m'.nonce_len ≡ m.nonce_len
  pub table : (k : ℕ) → k ≢ 0 → m'.table k ≡ m.table k

abbrev pub fresh : ℕ → (ℕ → ℕ) → ℕ → Session
fresh us random n = record { nonce = random_bytes random n; created = us / 1000; proved = false }

-- Three different connections have a session.
pub record IsCrowded (m : Model) : Type 0 where
  pub a : ℕ
  pub b : ℕ
  pub c : ℕ
  pub distinct : (a ≢ b) × (a ≢ c) × (b ≢ c)
  pub numbered : (a ≢ 0) × (b ≢ 0) × (c ≢ 0)
  pub taken : (m.table a ≢ none) × (m.table b ≢ none) × (m.table c ≢ none)

-- The answer is in time, and is the HMAC of the session's nonce.
pub record IsAnswer (p : Platform) (us : ℕ) (key : Option Bytes) (e : Session) (mac : Bytes)
    : Type 0 where
  pub in_time : elapsed (us / 1000) e.created ≤ nonce_lifetime_ms
  pub secret : Bytes
  pub has_key : key ≡ some secret
  pub right : p.hmac secret e.nonce ≡ some mac

abbrev pub IsRight : Platform → ℕ → Model → ℕ → Bytes → Type 0
IsRight p us m h mac = (e : Session) × (m.table h ≡ some e) × IsAnswer p us m.key e mac

abbrev pub new_key : Option Bytes → Option Bytes → Option Bytes
new_key none old = old
new_key (some []) old = old
new_key (some (b ∷ key)) old = some (b ∷ key)

pub data Allowed (p : Platform) : Event → Model → Model → Type 0 where
  opens :
      {us : ℕ} {random : ℕ → ℕ} {h : ℕ} {m m' : Model}
      → (m.table h ≢ none) ⊎ (¬ IsCrowded m)
      → Same m' (record m { table = put h (some (fresh us random m.nonce_len)) m.table })
      → Allowed p (connects us random h) m m'
  turned_away :
      {us : ℕ} {random : ℕ → ℕ} {h : ℕ} {m m' : Model}
      → m.table h ≡ none
      → IsCrowded m
      → Same m' m
      → Allowed p (connects us random h) m m'
  accepts :
      {us h : ℕ} {mac : Bytes} {m m' : Model} (e : Session)
      → m.table h ≡ some e
      → IsAnswer p us m.key e mac
      → Same m' (record m { table = put h (some (record e { proved = true })) m.table })
      → Allowed p (responds us h (some mac)) m m'
  rejects :
      {us h : ℕ} {mac : Bytes} {m m' : Model}
      → ¬ IsRight p us m h mac
      → Same m' m
      → Allowed p (responds us h (some mac)) m m'
  ignores : {us h : ℕ} {m m' : Model} → Same m' m → Allowed p (responds us h none) m m'
  removes :
      {h : ℕ} {m m' : Model}
      → Same m' (record m { table = put h none m.table })
      → Allowed p (clears h) m m'
  tells : {h : ℕ} {m m' : Model} → Same m' m → Allowed p (notifies h) m m'
  rekeys :
      {key : Option Bytes} {m m' : Model}
      → Same m' (record m { key = new_key key m.key })
      → Allowed p (sets_key key) m m'
  resizes :
      {n : ℕ} {m m' : Model}
      → Same m' (record m { nonce_len = if n == 0 || ltb 32 n then m.nonce_len else n })
      → Allowed p (sets_nonce_len n) m m'

-- after sec_init
abbrev pub initial : Model
initial = record { key = some default_key; nonce_len = 16; table = λ k. none }

-- the histories that the promise allows, latest first
pub data Reaches (p : Platform) : List Event → Model → Type 0 where
  start : {m : Model} → Same m initial → Reaches p [] m
  more :
      {e : Event} {past : List Event} {m m' : Model}
      → Reaches p past m
      → Allowed p e m m'
      → Reaches p (e ∷ past) m'

-- the answer to a check, from the session
abbrev pub passes_at : ℕ → Option Session → Bool
passes_at us none = false
passes_at us (some e) = e.proved && leb (elapsed (us / 1000) e.created) nonce_lifetime_ms

abbrev pub passes : ℕ → ℕ → Model → Bool
passes us h m = passes_at us (m.table h)
