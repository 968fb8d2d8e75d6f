-- ===== src/Biz/Keys.antt =====
-- The table of keys of main/biz_logix.c.
use air_shifter_rough.Common.{
  ℕ, zero, suc, ◌≡◌, inl, inr, refl, ap, ◌∙◌, true, false, Option, none, some, List, [], ◌∷◌, Bytes,
  arith, ==_self, Bool-cases, Option-cases, set,
}
use air_shifter_rough.Biz.{
  Biz, AuthState, state_at, find_state, find_free_state, get_auth_state, is_device_key,
  biz_verify_auth_key, biz_is_authenticated, cleared, biz_clear_auth,
}

-- A slot that is found has the handle; an update that keeps the handle is found in its place.
find_state-set :
    (h i : ℕ) (table : List AuthState) (a : AuthState)
    → find_state h table ≡ some i
    → a.conn_handle ≡ h
    → (find_state h (set table i a) ≡ some i) × (state_at (set table i a) i ≡ a)
unfolding find_state
find_state-set h i [] a e eh = absurd cc
find_state-set h zero (s ∷ ss) a e eh = let same = ==_self h in (ground arith, refl)
find_state-set h (suc i) (s ∷ ss) a e eh =
    let rest : find_state h ss ≡ some i = ground arith in
    let (found, same) = find_state-set h i ss a rest eh in (ground arith, same)

pub conn_handle-find_state :
    (h i : ℕ) (table : List AuthState)
    → find_state h table ≡ some i
    → (state_at table i).conn_handle ≡ h
unfolding find_state
conn_handle-find_state h i [] e = absurd cc
conn_handle-find_state h zero (s ∷ ss) e = ground arith
conn_handle-find_state h (suc i) (s ∷ ss) e = ground (arith, conn_handle-find_state h i ss)

-- A new slot is found in its place.
find_state-fill :
    (h i : ℕ) (table : List AuthState) (a : AuthState)
    → find_state h table ≡ none
    → find_free_state table ≡ some i
    → a.conn_handle ≡ h
    → (find_state h (set table i a) ≡ some i) × (state_at (set table i a) i ≡ a)
unfolding find_state find_free_state
find_state-fill h i [] a e f eh = absurd cc
find_state-fill h zero (s ∷ ss) a e f eh = let same = ==_self h in (ground arith, refl)
find_state-fill h (suc i) (s ∷ ss) a e f eh =
    let absent : find_state h ss ≡ none = ground arith in
    let free : find_free_state ss ≡ some i = ground arith in
    let (found, same) = find_state-fill h i ss a absent free eh in (ground arith, same)

-- The slot that is given is the connection's, in the table after.
pub get_auth_state-find :
    (h i : ℕ) (table after : List AuthState)
    → get_auth_state h table ≡ some (i, after)
    → find_state h after ≡ some i
unfolding get_auth_state
get_auth_state-find h i table after e = elim (Option-cases (find_state h table)) [
  | inr (j, f) ↦ ground (arith, e, f)
  | inl f ↦ elim (Option-cases (find_free_state table)) [
    | inl g ↦ absurd (ground (arith, e, f, g))
    | inr (j, g) ↦
        let found =
          find_state-fill h j table (record { conn_handle = h; authenticated = false }) f g refl in
        ground (arith, e, f, g, found)
  ]
]

-- A check reads the slot.
check_found :
    (h i : ℕ) (b : Biz)
    → find_state h b.auth_table ≡ some i
    → (biz_is_authenticated h b).0 ≡ (state_at b.auth_table i).authenticated
unfolding biz_is_authenticated get_auth_state
check_found h i b e = rw (e, biz_is_authenticated) refl

-- When biz_verify_auth_key accepts, the key was the device key, and biz_is_authenticated is true of
-- the connection in the state after.
pub biz_verify_auth_key-biz_is_authenticated :
    (h : ℕ) (key : Option Bytes) (b : Biz)
    → (biz_verify_auth_key h key b).0 ≡ true
    → (is_device_key key ≡ true)
      × ((biz_is_authenticated h (biz_verify_auth_key h key b).1).0 ≡ true)
unfolding biz_verify_auth_key
biz_verify_auth_key-biz_is_authenticated h key b e =
    elim (Option-cases (get_auth_state h b.auth_table)) [
      | inl f ↦ absurd (ground (arith, e, f))
      | inr ((i, table), f) ↦ elim (Bool-cases (is_device_key key)) [
        | inr wrong ↦ absurd (ground (arith, e, f, wrong))
        | inl right ↦
            let found = get_auth_state-find h i b.auth_table table f in
            let (kept, same) =
              find_state-set h i table (record (state_at table i) { authenticated = true }) found
                (conn_handle-find_state h i table found) in
            (
              right,
              rw (f, right, biz_verify_auth_key)
                  (check_found h i _ kept ∙ ap (λ a. a.authenticated) same),
            )
      ]
    ]

cleared_unproved :
    (h i : ℕ) (table : List AuthState)
    → find_state h (cleared h table) ≡ some i
    → (state_at (cleared h table) i).authenticated ≡ false
unfolding find_state
cleared_unproved h i [] e = refl
cleared_unproved h zero (s ∷ ss) e = ground arith
cleared_unproved h (suc i) (s ∷ ss) e =
    let rest : find_state h (cleared h ss) ≡ some i = ground arith in cleared_unproved h i ss rest

-- After biz_clear_auth of a connection, whatever the table was, biz_is_authenticated is false of
-- it.
pub biz_clear_auth-biz_is_authenticated :
    (h : ℕ) (b : Biz) → (biz_is_authenticated h (biz_clear_auth h b)).0 ≡ false
unfolding biz_clear_auth biz_is_authenticated get_auth_state
biz_clear_auth-biz_is_authenticated h b =
    let table = cleared h b.auth_table in
    elim (Option-cases (find_state h table)) [
      | inr (i, e) ↦ rw (e, biz_is_authenticated) (cleared_unproved h i b.auth_table e)
      | inl e ↦ elim (Option-cases (find_free_state table)) [
        | inl f ↦ rw (e, f, biz_is_authenticated) refl
        | inr (i, f) ↦
            let new : AuthState = record { conn_handle = h; authenticated = false } in
            rw (e, f, biz_is_authenticated)
              (ap (λ a. a.authenticated) (find_state-fill h i table new e f refl).1)
      ]
    ]
