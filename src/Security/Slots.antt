-- ===== src/Security/Slots.antt =====
-- main/security.c: the fixed table `s_conns`, its search, allocation and release.
use air_shifter_rough.Common.{
  ℕ, suc, Bool, false, Option, none, some, List, [], ◌∷◌, Bytes, ◌==◌, if◌then◌else◌, get_or, set,
  replicate,
}
use mathlib.Core.Option

pub record Slot : Type 0 where
  pub conn_handle : ℕ
  pub nonce : Bytes
  pub nonce_len : ℕ
  pub created_ts_ms : ℕ
  pub authenticated : Bool

abbrev pub max_sec_conns : ℕ
max_sec_conns = 3

-- a slot after `memset(…, 0, …)`
abbrev pub zeroed : Slot
zeroed = record {
  conn_handle = 0;
  nonce = replicate 32 0;
  nonce_len = 0;
  created_ts_ms = 0;
  authenticated = false;
}

abbrev pub slot_at : List Slot → ℕ → Slot
slot_at conns i = get_or conns i zeroed

-- `none` is -1.
unfoldable pub find_entry : ℕ → List Slot → Option ℕ
find_entry h [] = none
find_entry h (s ∷ ss) = if s.conn_handle == h then some 0 else Option.map suc (find_entry h ss)

-- the index of the first free slot
unfoldable pub find_free : List Slot → Option ℕ
find_free [] = none
find_free (s ∷ ss) = if s.conn_handle == 0 then some 0 else Option.map suc (find_free ss)

-- what `alloc_entry` writes: the nonce bytes stay
abbrev pub claimed : ℕ → Slot → Slot
claimed h s = record s { conn_handle = h; authenticated = false; nonce_len = 0; created_ts_ms = 0 }

abbrev pub claim : ℕ → List Slot → ℕ → List Slot
claim h conns i = set conns i (claimed h (slot_at conns i))

-- The index of the claimed slot, and the table with it.
unfoldable pub alloc_entry : ℕ → List Slot → Option (ℕ × List Slot)
unfolding find_free
alloc_entry h conns = elim (find_free conns) [ none ↦ none | some i ↦ some (i, claim h conns i) ]

unfoldable pub free_entry_index : List Slot → ℕ → List Slot
free_entry_index conns i = set conns i zeroed
