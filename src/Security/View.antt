-- ===== src/Security/View.antt =====
-- The state of main/security.c seen as a Security/Model, and what a new connection does to it.
use air_shifter_rough.Common.{
  ℕ, ◌≡◌, ◌≢◌, ◌⊎◌, inl, inr, refl, sym, ap, ap₂, ◌∙◌, true, false, Option, none, some, List, [],
  ◌∷◌, arith, ◌==◌, ==_no, ne_or_eq, if◌then◌else◌, take, length, Bool-cases,
}
use mathlib.Core.Path.{subst}
use air_shifter_rough.Platform.{Platform}
use air_shifter_rough.Security.Slots.{Slot, alloc_entry}
use air_shifter_rough.Security.Filling.{random_bytes}
use air_shifter_rough.Security.Sessions.{session, IsDistinct, HasRoom}
use air_shifter_rough.Security.Opening.{full, opened, find_or_alloc-Opens}
use air_shifter_rough.Security.Invariant.{IsValid}
use air_shifter_rough.Security.Connect.{
  IsFresh, sec_on_connect_opens, sec_on_connect_isolates, sec_on_connect_full,
  sec_on_connect-priv_key,
}
use air_shifter_rough.Security.History.{connects}
use air_shifter_rough.Security.{
  Security, sec_on_connect, find_or_alloc, challenge, generate_nonce_for_index,
  update_auth_char_value_and_notify,
}
use air_shifter_rough.Security.Model.{
  Session, Model, Same, fresh, IsCrowded, Allowed, opens, turned_away,
}

-- what a slot says of its session
abbrev pub session_of : Slot → Session
session_of e = record {
  nonce = take e.nonce_len e.nonce;
  created = e.created_ts_ms;
  proved = e.authenticated;
}

abbrev pub view : Option Slot → Option Session
view none = none
view (some e) = some (session_of e)

abbrev pub model : Security → Model
model s = record {
  key = s.priv_key;
  nonce_len = s.nonce_len;
  table = λ k. view (session k s.conns);
}

pub unchanged : (s : Security) → Same (model s) (model s)
unchanged s = record { key = refl; nonce_len = refl; table = λ k pos. refl }

-- A call that leaves the key, the nonce length and the slots.
pub keeps-Same :
    (s t : Security)
    → t.priv_key ≡ s.priv_key
    → t.nonce_len ≡ s.nonce_len
    → t.conns ≡ s.conns
    → Same (model t) (model s)
keeps-Same s t k n c = record {
  key = k;
  nonce_len = n;
  table = λ h pos. ap (λ x. view (session h x)) c;
}

sec_on_connect-nonce_len :
    (us : ℕ) (random : ℕ → ℕ) (h : ℕ) (s : Security)
    → (sec_on_connect us random h s).nonce_len ≡ s.nonce_len
unfolding sec_on_connect find_or_alloc alloc_entry challenge generate_nonce_for_index
    update_auth_char_value_and_notify
sec_on_connect-nonce_len us random h s = ground arith

pub sec_on_connect-auth_char_handle :
    (us : ℕ) (random : ℕ → ℕ) (h : ℕ) (s : Security)
    → (sec_on_connect us random h s).auth_char_handle ≡ s.auth_char_handle
unfolding sec_on_connect find_or_alloc alloc_entry challenge generate_nonce_for_index
    update_auth_char_value_and_notify
sec_on_connect-auth_char_handle us random h s = ground arith

fresh-IsFresh :
    (us : ℕ) (random : ℕ → ℕ) (n h : ℕ) (e : Slot)
    → IsFresh us random n h e
    → session_of e ≡ fresh us random n
fresh-IsFresh us random n h e f =
    ap₂ (λ x y. record { nonce = x; created = e.created_ts_ms; proved = y }) f.nonce f.unproved
    ∙ ap (λ y. record { nonce = random_bytes random n; created = y; proved = false }) f.created

view-none : (o : Option Slot) → o ≢ none → view o ≢ none
view-none none h x = h refl
view-none (some e) h x = cc

full_table :
    (ss : List Slot)
    → length ss ≡ 3
    → IsDistinct ss
    → session 0 ss ≡ none
    → (a : ℕ) × (b : ℕ) × (c : ℕ) × (a ≢ b)
      × (a ≢ c)
      × (b ≢ c)
      × (a ≢ 0)
      × (b ≢ 0)
      × (c ≢ 0)
      × (session a ss ≢ none)
      × (session b ss ≢ none)
      × (session c ss ≢ none)
full_table [] n d f = absurd (omega arith)
full_table (x ∷ []) n d f = absurd (omega arith)
full_table (x ∷ y ∷ []) n d f = absurd (omega arith)
full_table (x ∷ y ∷ z ∷ []) n d f = (
  x.conn_handle,
  y.conn_handle,
  z.conn_handle,
  ground arith,
  ground arith,
  ground arith,
  ground arith,
  ground arith,
  ground arith,
  ground arith,
  ground arith,
  ground arith,
)
full_table (x ∷ y ∷ z ∷ w ∷ ss) n d f = absurd (omega arith)

-- A table with no slot for 0 has three connections.
crowded : (s : Security) → IsValid s → session 0 s.conns ≡ none → IsCrowded (model s)
crowded s v free =
    let (a, b, c, ab, ac, bc, na, nb, nc, ta, tb, tc) =
      full_table s.conns v.table_size v.distinct free in
    record {
      a = a;
      b = b;
      c = c;
      distinct = (ab, ac, bc);
      numbered = (na, nb, nc);
      taken = (view-none _ ta, view-none _ tb, view-none _ tc);
    }

-- Three connections leave no slot for 0.
no_fourth :
    (ss : List Slot) (a b c : ℕ)
    → length ss ≡ 3
    → (a ≢ b) × (a ≢ c) × (b ≢ c)
    → (a ≢ 0) × (b ≢ 0) × (c ≢ 0)
    → session a ss ≢ none
    → session b ss ≢ none
    → session c ss ≢ none
    → session 0 ss ≢ none
    → ⊥
no_fourth [] a b c n d nz ta tb tc free = absurd (omega arith)
no_fourth (x ∷ []) a b c n d nz ta tb tc free = absurd (omega arith)
no_fourth (x ∷ y ∷ []) a b c n d nz ta tb tc free = absurd (omega arith)
no_fourth (x ∷ y ∷ z ∷ []) a b c n d nz ta tb tc free = ground arith
no_fourth (x ∷ y ∷ z ∷ w ∷ ss) a b c n d nz ta tb tc free = absurd (omega arith)

none-view : (o : Option Slot) → view o ≢ none → o ≢ none
none-view none h x = h refl
none-view (some e) h x = cc

has_room :
    (h : ℕ) (s : Security)
    → IsValid s
    → HasRoom h s.conns
    → ((model s).table h ≢ none) ⊎ (¬ IsCrowded (model s))
has_room h s v (inl mine) = inl (view-none _ mine)
has_room h s v (inr free) = inr (λ w.
    no_fourth s.conns w.a w.b w.c v.table_size w.distinct w.numbered (none-view _ w.taken.0)
      (none-view _ w.taken.1) (none-view _ w.taken.2) free)

-- The view of a map with one entry changed.
pub view-put :
    (h k : ℕ) (v : Option Slot) (o : Option Slot)
    → view (if h == k then v else o) ≡ (if h == k then view v else view o)
view-put h k v o = elim (Bool-cases (h == k)) [ inl e ↦ rw e refl | inr e ↦ rw e refl ]

pub connects-Allowed :
    (p : Platform) (us : ℕ) (random : ℕ → ℕ) (h : ℕ) (s : Security)
    → IsValid s
    → Allowed p (connects us random h) (model s) (model (sec_on_connect us random h s))
connects-Allowed p us random h s v = elim (find_or_alloc-Opens h s.conns) [
  | full e mine free ↦
      let same =
        sec_on_connect_full us random h s (λ room. elim room [ inl r ↦ r mine | inr r ↦ r free ]) in
      turned_away (ap view mine) (crowded s v free)
        (subst (λ t. Same (model t) (model s)) (sym same) (unchanged s))
  | opened i conns e o room ↦
      let ((x, found, f), _) = sec_on_connect_opens us random h s v room in
      opens (has_room h s v room) (record {
        key = sec_on_connect-priv_key us random h s;
        nonce_len = sec_on_connect-nonce_len us random h s;
        table = λ k kp. elim (ne_or_eq k h) [
          | inr same ↦
              let match : (h == k) ≡ true = ground arith in
              rw (match, same) (ap view found ∙ ap some (fresh-IsFresh us random s.nonce_len h x f))
          | inl other ↦
              let no_match = ==_no h k (λ z. other (sym z)) in
              rw no_match (ap view (sec_on_connect_isolates us random h k s v kp other))
        ];
      })
]
