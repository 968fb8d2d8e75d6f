-- ===== src/Biz/KeyHistory.antt =====
-- The table of keys of main/biz_logix.c over histories of its calls, latest first.
use air_shifter_rough.Common.{
  ℕ, ◌≡◌, ◌≢◌, ◌⊎◌, inl, inr, refl, sym, Bool, true, false, Option, some, List, [], ◌∷◌, Bytes,
  arith, ◌==◌, if◌then◌else◌, Bool-cases, Option-cases, set, All, All-set, All-get_or, All-map,
  All-replicate,
}
use mathlib.Core.Path.{subst}
use air_shifter_rough.Biz.{
  Biz, AuthState, unauthenticated, state_at, find_state, find_free_state, get_auth_state,
  is_device_key, at_boot, handle_none, max_ble_connections, biz_verify_auth_key,
  biz_is_authenticated, cleared, biz_clear_auth,
}
use air_shifter_rough.Biz.Keys.{get_auth_state-find, conn_handle-find_state}

pub data KeyEvent : Type 0 where
  verifies : ℕ → Option Bytes → KeyEvent
  asks clears : ℕ → KeyEvent

unfoldable pub key_step : KeyEvent → Biz → Biz
key_step (verifies h key) b = (biz_verify_auth_key h key b).1
key_step (asks h) b = (biz_is_authenticated h b).1
key_step (clears h) b = biz_clear_auth h b

unfoldable pub key_run : List KeyEvent → Biz
unfolding key_step
key_run [] = at_boot
key_run (e ∷ past) = key_step e (key_run past)

-- The connection gave the device key, and was not cleared since.
abbrev pub GaveKey : ℕ → List KeyEvent → Type 0
GaveKey h [] = ⊥
GaveKey h (verifies k key ∷ past) = ((k ≡ h) × (is_device_key key ≡ true)) ⊎ GaveKey h past
GaveKey h (asks k ∷ past) = GaveKey h past
GaveKey h (clears k ∷ past) = (k ≢ h) × GaveKey h past

-- an authenticated slot stands for such a connection
abbrev IsEarned : List KeyEvent → AuthState → Type 0
IsEarned past a = a.authenticated ≡ true → GaveKey a.conn_handle past

AreEarned : List KeyEvent → Biz → Type 0
AreEarned past b = All (IsEarned past) b.auth_table

new_slot-IsEarned :
    (past : List KeyEvent) (h : ℕ)
    → IsEarned past (record { conn_handle = h; authenticated = false })
new_slot-IsEarned past h e = absurd cc

get_auth_state-All :
    (past : List KeyEvent) (h i : ℕ) (table after : List AuthState)
    → get_auth_state h table ≡ some (i, after)
    → All (IsEarned past) table
    → All (IsEarned past) after
unfolding get_auth_state
get_auth_state-All past h i table after e a = elim (Option-cases (find_state h table)) [
  | inr (j, f) ↦
      let same : table ≡ after = ground (arith, e, f) in subst (All (IsEarned past)) same a
  | inl f ↦ elim (Option-cases (find_free_state table)) [
    | inl g ↦ absurd (ground (arith, e, f, g))
    | inr (j, g) ↦
        let new : AuthState = record { conn_handle = h; authenticated = false } in
        let same : set table j new ≡ after = ground (arith, e, f, g) in
        subst (All (IsEarned past)) same
          (All-set (IsEarned past) table j new a (new_slot-IsEarned past h))
  ]
]

cleared_slot-IsEarned :
    (past : List KeyEvent) (h : ℕ) (s : AuthState) (t : Bool)
    → (t ≡ false → h ≢ s.conn_handle)
    → IsEarned past s
    → IsEarned
        (clears h ∷ past)
        (if t then record { conn_handle = handle_none; authenticated = false } else s)
cleared_slot-IsEarned past h s true ne a = λ e. absurd cc
cleared_slot-IsEarned past h s false ne a = λ e. (ne refl, a e)

cleared-All :
    (past : List KeyEvent) (h : ℕ) (table : List AuthState)
    → All (IsEarned past) table
    → All (IsEarned (clears h ∷ past)) (cleared h table)
cleared-All past h [] a = tt
cleared-All past h (s ∷ ss) a = (
  cleared_slot-IsEarned past h s (s.conn_handle == h) (λ e. ground (arith, e)) a.0,
  cleared-All past h ss a.1,
)

-- A slot that is earned stays so when the history grows by a key or a query.
verified-All :
    (past : List KeyEvent) (h : ℕ) (key : Option Bytes) (table : List AuthState)
    → All (IsEarned past) table
    → All (IsEarned (verifies h key ∷ past)) table
verified-All past h key table a =
    All-map (IsEarned past) (IsEarned (verifies h key ∷ past)) table (λ s f e. inr (f e)) a

verify-AreEarned :
    (past : List KeyEvent) (h : ℕ) (key : Option Bytes) (b : Biz)
    → AreEarned past b
    → AreEarned (verifies h key ∷ past) (biz_verify_auth_key h key b).1
unfolding biz_verify_auth_key AreEarned
verify-AreEarned past h key b a = elim (Option-cases (get_auth_state h b.auth_table)) [
  | inl f ↦ rw (f, biz_verify_auth_key) (verified-All past h key b.auth_table a)
  | inr ((i, table), f) ↦
      let after =
        verified-All past h key table (get_auth_state-All past h i b.auth_table table f a) in
      elim (Bool-cases (is_device_key key)) [
        | inr wrong ↦ rw (f, wrong, biz_verify_auth_key) after
        | inl right ↦
            let found = get_auth_state-find h i b.auth_table table f in
            let mine = conn_handle-find_state h i table found in
            rw (f, right, biz_verify_auth_key)
              (All-set (IsEarned (verifies h key ∷ past)) table i
                (record (state_at table i) { authenticated = true }) after
                (λ e. inl (sym mine, right)))
      ]
]

ask-AreEarned :
    (past : List KeyEvent) (h : ℕ) (b : Biz)
    → AreEarned past b
    → AreEarned past (biz_is_authenticated h b).1
unfolding biz_is_authenticated AreEarned
ask-AreEarned past h b a = elim (Option-cases (get_auth_state h b.auth_table)) [
  | inl f ↦ rw (f, biz_is_authenticated) a
  | inr ((i, table), f) ↦
      rw (f, biz_is_authenticated) (get_auth_state-All past h i b.auth_table table f a)
]

run-AreEarned : (past : List KeyEvent) → AreEarned past (key_run past)
unfolding key_run key_step biz_clear_auth AreEarned
run-AreEarned [] = All-replicate (IsEarned []) max_ble_connections unauthenticated (λ e. absurd cc)
run-AreEarned (verifies h key ∷ past) =
    verify-AreEarned past h key (key_run past) (run-AreEarned past)
run-AreEarned (asks h ∷ past) = ask-AreEarned past h (key_run past) (run-AreEarned past)
run-AreEarned (clears h ∷ past) = cleared-All past h (key_run past).auth_table (run-AreEarned past)

-- After any history of biz_verify_auth_key, biz_is_authenticated and biz_clear_auth from the static
-- table on: a connection for which biz_is_authenticated is true gave the device key at some point
-- of the history and was not cleared since.
pub biz_is_authenticated-GaveKey :
    (h : ℕ) (past : List KeyEvent)
    → (biz_is_authenticated h (key_run past)).0 ≡ true
    → GaveKey h past
unfolding biz_is_authenticated AreEarned
biz_is_authenticated-GaveKey h past e =
    elim (Option-cases (get_auth_state h (key_run past).auth_table)) [
      | inl f ↦ absurd (ground (arith, e, f))
      | inr ((i, table), f) ↦
          let found = get_auth_state-find h i (key_run past).auth_table table f in
          let mine = conn_handle-find_state h i table found in
          let earned =
            All-get_or (IsEarned past) table i unauthenticated
              (get_auth_state-All past h i (key_run past).auth_table table f (run-AreEarned past))
              (λ e. absurd cc) in
          subst (λ k. GaveKey k past) mine (earned (ground (arith, e, f)))
    ]
