-- ===== src/Security/Connect.antt =====
-- What a new connection gets from `sec_on_connect` of main/security.c.
use air_shifter_rough.Common.{
  ℕ, ◌/◌, ◌≤◌, ◌<◌, ◌≡◌, ◌≢◌, inl, inr, refl, sym, ap, ◌∙◌, false, some, List, ◌∷◌, Bytes, arith,
  length, length-take, take, set, get_or-set_self, ltb_no, ◌==◌, if◌then◌else◌, ==_self, ==_no,
  ne_or_eq,
}
use air_shifter_rough.Security.Slots.{alloc_entry, Slot, slot_at, zeroed, max_sec_conns, find_entry}
use air_shifter_rough.Security.Nonce.{write}
use air_shifter_rough.Security.Filling.{random_bytes, take-fill_nonce, take-write}
use air_shifter_rough.Security.Sessions.{
  session, HasRoom, session-set, find_entry-lt, conn_handle-find_entry,
}
use air_shifter_rough.Security.Opening.{full, opened, find_or_alloc-Opens}
use air_shifter_rough.Security.Invariant.{
  IsValid, opened-IsValid, challenge_lem, slot_at-HasBuffer, set-IsValid, challenged-HasBuffer,
}
use air_shifter_rough.Security.{
  find_or_alloc, generate_nonce_for_index, Security, challenged, update_auth_char_value_and_notify,
  challenge, sec_on_connect,
}

-- A session that waits for its answer to a challenge of so many random bytes.
pub record IsFresh (us : ℕ) (random : ℕ → ℕ) (n h : ℕ) (e : Slot) : Type 0 where
  pub handle : e.conn_handle ≡ h
  pub nonce : take e.nonce_len e.nonce ≡ random_bytes random n
  pub created : e.created_ts_ms ≡ us / 1000
  pub unproved : e.authenticated ≡ false

-- The characteristic holds the challenge, and its subscribers are told.
pub record IsPublished (random : ℕ → ℕ) (n : ℕ) (notified : List ℕ) (s : Security) : Type 0 where
  pub value : take s.auth_val_len s.auth_value ≡ random_bytes random n
  pub told : s.notified ≡ s.auth_char_handle ∷ notified

update-IsPublished :
    (random : ℕ → ℕ) (n : ℕ) (nonce : Bytes) (t : Security)
    → IsValid t
    → length nonce ≡ 32
    → n ≤ 32
    → take n nonce ≡ random_bytes random n
    → IsPublished random n t.notified (update_auth_char_value_and_notify nonce n t)
unfolding update_auth_char_value_and_notify
update-IsPublished random n nonce t v size fits e =
    let size_of : n ≡ length (take n nonce) = omega (arith, length-take n nonce) in
    let copied = take-write t.auth_value (take n nonce) (omega (arith, v.value_size)) in
    rw (ltb_no n 32 fits) (record {
      value = ap (λ k. take k (write t.auth_value 0 (take n nonce))) size_of ∙ copied ∙ e;
      told = refl;
    })

pub update-conns :
    (nonce : Bytes) (n : ℕ) (s : Security)
    → (update_auth_char_value_and_notify nonce n s).conns ≡ s.conns
unfolding update_auth_char_value_and_notify
update-conns nonce n s = refl

module _ (us : ℕ) (random : ℕ → ℕ) (h i : ℕ) (s : Security) (v : IsValid s)
    (f : find_entry h s.conns ≡ some i) where
  abbrev dared : Slot
  dared = challenged us random s.nonce_len (slot_at s.conns i)

  index_fits : i < max_sec_conns
  index_fits = omega (arith, find_entry-lt h i s.conns f, v.table_size)

  -- The challenge replaces the session of the connection and no other.
  pub challenge-session :
      (k : ℕ)
      → session k (challenge us random i s).conns
        ≡ (if h == k then some dared else session k s.conns)
  challenge-session k = rw (challenge_lem us random i s v index_fits) (
      rw
        (update-conns (slot_at (set s.conns i dared) i).nonce
          (slot_at (set s.conns i dared) i).nonce_len (record s { conns = set s.conns i dared }))
        (session-set h h k i s.conns dared f (conn_handle-find_entry h i s.conns f) (inr (inl refl))
          (ne_or_eq k h)))

  dared_nonce : take s.nonce_len (dared).nonce ≡ random_bytes random s.nonce_len
  dared_nonce =
      take-fill_nonce random s.nonce_len (slot_at s.conns i).nonce
        (omega (arith, (slot_at-HasBuffer s i v).0, v.len_fits)) (omega (arith, v.len_fits))

  pub dared-IsFresh : IsFresh us random s.nonce_len h dared
  dared-IsFresh = record {
    handle = conn_handle-find_entry h i s.conns f;
    nonce = dared_nonce;
    created = refl;
    unproved = refl;
  }

  slot_at-dared : slot_at (set s.conns i dared) i ≡ dared
  slot_at-dared = get_or-set_self s.conns i dared zeroed (find_entry-lt h i s.conns f)

  pub challenge-IsPublished : IsPublished random s.nonce_len s.notified (challenge us random i s)
  challenge-IsPublished = rw (challenge_lem us random i s v index_fits) (
      rw slot_at-dared (
        update-IsPublished random s.nonce_len (dared).nonce _
          (set-IsValid s h i dared f (conn_handle-find_entry h i s.conns f)
            (challenged-HasBuffer us random s i v) v)
          (challenged-HasBuffer us random s i v).0 v.len_fits dared_nonce))

-- In a well formed state with room for the connection, sec_on_connect gives it a session with its
-- handle, the random bytes as the nonce, the time in milliseconds, and no authentication; the auth
-- characteristic holds the same bytes, and its subscribers are notified once.
pub sec_on_connect_opens :
    (us : ℕ) (random : ℕ → ℕ) (h : ℕ) (s : Security)
    → IsValid s
    → HasRoom h s.conns
    → let t = sec_on_connect us random h s in
      ((e : Slot) × (session h t.conns ≡ some e) × IsFresh us random s.nonce_len h e)
      × IsPublished random s.nonce_len s.notified t
unfolding sec_on_connect
sec_on_connect_opens us random h s v room = elim (find_or_alloc-Opens h s.conns) [
  | full _ mine free ↦ elim room [ inl r ↦ absurd (r mine) | inr r ↦ absurd (r free) ]
  | opened i conns e o _ ↦
      let w = opened-IsValid s h i conns o v in
      rw (e, sec_on_connect)
        (
          (
            dared us random h i _ w o.found,
            challenge-session us random h i _ w o.found h ∙ rw (==_self h) refl,
            dared-IsFresh us random h i _ w o.found,
          ),
          challenge-IsPublished us random h i _ w o.found,
        )
]

-- In a well formed state, sec_on_connect of one connection leaves the session of every other
-- connection as it was, if that one has a handle other than 0.
pub sec_on_connect_isolates :
    (us : ℕ) (random : ℕ → ℕ) (h k : ℕ) (s : Security)
    → IsValid s
    → k ≢ 0
    → k ≢ h
    → session k (sec_on_connect us random h s).conns ≡ session k s.conns
unfolding sec_on_connect
sec_on_connect_isolates us random h k s v pos other = elim (find_or_alloc-Opens h s.conns) [
  | full e _ _ ↦ rw (e, sec_on_connect) refl
  | opened i conns e o _ ↦
      rw (e, sec_on_connect)
        (challenge-session us random h i _ (opened-IsValid s h i conns o v) o.found k
          ∙ rw (==_no h k (λ x. other (sym x))) (o.others k pos other))
]

-- With no room nothing changes.
pub sec_on_connect_full :
    (us : ℕ) (random : ℕ → ℕ) (h : ℕ) (s : Security)
    → ¬ HasRoom h s.conns
    → sec_on_connect us random h s ≡ s
unfolding sec_on_connect
sec_on_connect_full us random h s crowded = elim (find_or_alloc-Opens h s.conns) [
  | full e _ _ ↦ rw (e, sec_on_connect) refl
  | opened i conns e o room ↦ absurd (crowded room)
]

-- A connection that has just been made has proved nothing.
pub sec_on_connect-IsNew :
    (us : ℕ) (random : ℕ → ℕ) (h : ℕ) (s : Security) (e : Slot)
    → IsValid s
    → session h (sec_on_connect us random h s).conns ≡ some e
    → (e.created_ts_ms ≡ us / 1000) × (e.authenticated ≡ false)
unfolding sec_on_connect
sec_on_connect-IsNew us random h s e v = elim (find_or_alloc-Opens h s.conns) [
  | full r mine _ ↦ rw (r, sec_on_connect) (λ x. cc)
  | opened i conns r o _ ↦
      rw (r, sec_on_connect)
        (λ x.
          let w = opened-IsValid s h i conns o v in
          let made = challenge-session us random h i _ w o.found h in
          let fresh = dared-IsFresh us random h i _ w o.found in
          let created = fresh.created in
          let unproved = fresh.unproved in let same = ==_self h in ground arith)
]

pub sec_on_connect-priv_key :
    (us : ℕ) (random : ℕ → ℕ) (h : ℕ) (s : Security)
    → (sec_on_connect us random h s).priv_key ≡ s.priv_key
unfolding sec_on_connect find_or_alloc alloc_entry challenge generate_nonce_for_index
    update_auth_char_value_and_notify
sec_on_connect-priv_key us random h s = ground arith

pub challenge-conns :
    (us : ℕ) (random : ℕ → ℕ) (h i : ℕ) (s : Security)
    → IsValid s
    → find_entry h s.conns ≡ some i
    → (challenge us random i s).conns
      ≡ set s.conns i (challenged us random s.nonce_len (slot_at s.conns i))
challenge-conns us random h i s v f =
    rw (challenge_lem us random i s v (index_fits us random h i s v f)) (update-conns _ _ _)
