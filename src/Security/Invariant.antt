-- ===== src/Security/Invariant.antt =====
-- Well-formed states of main/security.c, and its functions on them.
use air_shifter_rough.Common.{
  ℕ, ◌≤◌, ◌<◌, ◌≡◌, ◌⊎◌, inl, inr, refl, ◌∙◌, true, false, Option, none, some, List, [], ◌∷◌, Bytes,
  arith, length, length-set, take, set, replicate, All, All-set, All-get_or, All-replicate,
  Option-cases,
}
use air_shifter_rough.Platform.{Platform}
use air_shifter_rough.Security.Slots.{Slot, slot_at, zeroed, max_sec_conns, find_entry}
use air_shifter_rough.Security.Filling.{length-write, length-fill_nonce}
use air_shifter_rough.Security.Sessions.{
  IsDistinct, IsDistinct-set, find_entry-lt, conn_handle-find_entry,
}
use air_shifter_rough.Security.Opening.{
  HasBuffer, zeroed-HasBuffer, IsOpened, full, opened, find_or_alloc-Opens,
}
use air_shifter_rough.Security.{
  Security, statics, sec_init, challenged, generate_nonce_for_index,
  update_auth_char_value_and_notify, sec_set_nonce_len, sec_set_private_key, challenge,
  sec_on_connect, mark, check_response, compute_hmac_sha256, respond_at, sec_handle_auth_response,
  sec_clear_conn, sec_send_nonce_notify,
}

pub record IsValid (s : Security) : Type 0 where
  pub table_size : length s.conns ≡ max_sec_conns
  pub distinct : IsDistinct s.conns
  pub buffers : All HasBuffer s.conns
  pub len_pos : 0 < s.nonce_len
  pub len_fits : s.nonce_len ≤ 32
  pub value_size : length s.auth_value ≡ 32
  pub value_fits : s.auth_val_len ≤ 32

zeroed-IsDistinct : IsDistinct (replicate max_sec_conns zeroed)
zeroed-IsDistinct = (inl refl, (inl refl, (inl refl, tt)))

pub sec_init-IsValid : IsValid (sec_init statics)
unfolding sec_init
sec_init-IsValid = record {
  table_size = refl;
  distinct = zeroed-IsDistinct;
  buffers = All-replicate HasBuffer max_sec_conns zeroed zeroed-HasBuffer;
  len_pos = omega arith;
  len_fits = omega arith;
  value_size = refl;
  value_fits = omega arith;
}

pub slot_at-HasBuffer : (s : Security) (i : ℕ) → IsValid s → HasBuffer (slot_at s.conns i)
slot_at-HasBuffer s i v = All-get_or HasBuffer s.conns i zeroed v.buffers zeroed-HasBuffer

-- A write to the slot of a connection that keeps its handle and a good buffer.
pub set-IsValid :
    (s : Security) (h i : ℕ) (e : Slot)
    → find_entry h s.conns ≡ some i
    → e.conn_handle ≡ h
    → HasBuffer e
    → IsValid s
    → IsValid (record s { conns = set s.conns i e })
set-IsValid s h i e f eh b v = record {
  table_size = length-set s.conns i e ∙ v.table_size;
  distinct = IsDistinct-set h h i s.conns e f eh (inr (inl refl)) v.distinct;
  buffers = All-set HasBuffer s.conns i e v.buffers b;
  len_pos = v.len_pos;
  len_fits = v.len_fits;
  value_size = v.value_size;
  value_fits = v.value_fits;
}

pub update-IsValid :
    (nonce : Bytes) (len : ℕ) (s : Security)
    → IsValid s
    → IsValid (update_auth_char_value_and_notify nonce len s)
unfolding update_auth_char_value_and_notify
update-IsValid nonce len s v = record {
  table_size = v.table_size;
  distinct = v.distinct;
  buffers = v.buffers;
  len_pos = v.len_pos;
  len_fits = v.len_fits;
  value_size = length-write s.auth_value 0 _ ∙ v.value_size;
  value_fits = ground arith;
}

-- With the checks of `generate_nonce_for_index` met, this is the state after the challenge.
pub challenge_lem :
    (us : ℕ) (random : ℕ → ℕ) (i : ℕ) (s : Security)
    → IsValid s
    → i < max_sec_conns
    → let t = record s {
      conns = set s.conns i (challenged us random s.nonce_len (slot_at s.conns i));
    } in
      challenge us random i s
      ≡ update_auth_char_value_and_notify (slot_at t.conns i).nonce (slot_at t.conns i).nonce_len t
unfolding challenge generate_nonce_for_index
challenge_lem us random i s v h = ground arith

pub challenged-HasBuffer :
    (us : ℕ) (random : ℕ → ℕ) (s : Security) (i : ℕ)
    → IsValid s
    → HasBuffer (challenged us random s.nonce_len (slot_at s.conns i))
challenged-HasBuffer us random s i v = (
  length-fill_nonce s.nonce_len random 0 s.nonce_len 0 (slot_at s.conns i).nonce
      ∙ (slot_at-HasBuffer s i v).0,
  v.len_fits,
)

pub challenge-IsValid :
    (us : ℕ) (random : ℕ → ℕ) (h i : ℕ) (s : Security)
    → find_entry h s.conns ≡ some i
    → IsValid s
    → IsValid (challenge us random i s)
challenge-IsValid us random h i s f v =
    rw (challenge_lem us random i s v (omega (arith, find_entry-lt h i s.conns f, v.table_size))) (
      update-IsValid _ _ _ (
        set-IsValid s h i _ f (conn_handle-find_entry h i s.conns f)
          (challenged-HasBuffer us random s i v) v))

-- The state with the table that the search leaves.
pub opened-IsValid :
    (s : Security) (h i : ℕ) (conns : List Slot)
    → IsOpened h s.conns i conns
    → IsValid s
    → IsValid (record s { conns = conns })
opened-IsValid s h i conns o v = record {
  table_size = o.size ∙ v.table_size;
  distinct = o.distinct v.distinct;
  buffers = o.buffers v.buffers;
  len_pos = v.len_pos;
  len_fits = v.len_fits;
  value_size = v.value_size;
  value_fits = v.value_fits;
}

pub sec_on_connect-IsValid :
    (us : ℕ) (random : ℕ → ℕ) (h : ℕ) (s : Security)
    → IsValid s
    → IsValid (sec_on_connect us random h s)
unfolding sec_on_connect
sec_on_connect-IsValid us random h s v = elim (find_or_alloc-Opens h s.conns) [
  | full e _ _ ↦ rw (e, sec_on_connect) v
  | opened i conns e o _ ↦
      rw (e, sec_on_connect)
        (challenge-IsValid us random h i _ o.found (opened-IsValid s h i conns o v))
]

-- A response is refused with no effect, or marks its slot.
pub respond_at_cases :
    (p : Platform) (us i : ℕ) (hmac : Option Bytes) (s : Security)
    → (respond_at p us i hmac s ≡ (false, s)) ⊎ (respond_at p us i hmac s ≡ (true, mark i s))
unfolding respond_at check_response
respond_at_cases p us i none s = inl refl
respond_at_cases p us i (some hmac) s =
    elim (Option-cases (
      compute_hmac_sha256 p s.priv_key
        (take (slot_at s.conns i).nonce_len (slot_at s.conns i).nonce))) [
          | inl e ↦ inl (ground arith)
          | inr (expected, e) ↦ ground arith
        ]

respond_at-IsValid :
    (p : Platform) (us h i : ℕ) (hmac : Option Bytes) (s : Security)
    → find_entry h s.conns ≡ some i
    → IsValid s
    → IsValid (respond_at p us i hmac s).1
respond_at-IsValid p us h i hmac s f v = elim (respond_at_cases p us i hmac s) [
  | inl e ↦ rw e v
  | inr e ↦
      rw e
        (set-IsValid s h i _ f (conn_handle-find_entry h i s.conns f) (slot_at-HasBuffer s i v) v)
]

pub sec_handle_auth_response-IsValid :
    (p : Platform) (us h : ℕ) (hmac : Option Bytes) (s : Security)
    → IsValid s
    → IsValid (sec_handle_auth_response p us h hmac s).1
unfolding sec_handle_auth_response
sec_handle_auth_response-IsValid p us h hmac s v = elim (Option-cases (find_entry h s.conns)) [
  | inl e ↦ rw (e, sec_handle_auth_response) v
  | inr (i, f) ↦ rw (f, sec_handle_auth_response) (respond_at-IsValid p us h i hmac s f v)
]

pub sec_clear_conn-IsValid : (h : ℕ) (s : Security) → IsValid s → IsValid (sec_clear_conn h s)
unfolding sec_clear_conn
sec_clear_conn-IsValid h s v = elim (Option-cases (find_entry h s.conns)) [
  | inl e ↦ rw (e, sec_clear_conn) v
  | inr (i, f) ↦
      rw (f, sec_clear_conn)
        (record {
          table_size = length-set s.conns i zeroed ∙ v.table_size;
          distinct = IsDistinct-set h 0 i s.conns zeroed f refl (inl refl) v.distinct;
          buffers = All-set HasBuffer s.conns i zeroed v.buffers zeroed-HasBuffer;
          len_pos = v.len_pos;
          len_fits = v.len_fits;
          value_size = v.value_size;
          value_fits = v.value_fits;
        })
]

pub sec_send_nonce_notify-IsValid :
    (h : ℕ) (s : Security) → IsValid s → IsValid (sec_send_nonce_notify h s)
unfolding sec_send_nonce_notify
sec_send_nonce_notify-IsValid h s v = elim (Option-cases (find_entry h s.conns)) [
  | inl e ↦ rw (e, sec_send_nonce_notify) v
  | inr (i, f) ↦ rw (f, sec_send_nonce_notify) (update-IsValid _ _ s v)
]

pub sec_set_nonce_len-IsValid : (n : ℕ) (s : Security) → IsValid s → IsValid (sec_set_nonce_len n s)
unfolding sec_set_nonce_len
sec_set_nonce_len-IsValid n s v = ground arith

pub sec_set_private_key-IsValid :
    (key : Option Bytes) (s : Security) → IsValid s → IsValid (sec_set_private_key key s)
unfolding sec_set_private_key
sec_set_private_key-IsValid none s v = v
sec_set_private_key-IsValid (some []) s v = v
sec_set_private_key-IsValid (some (b ∷ key)) s v = ground arith
