-- ===== src/Security/Sessions.antt =====
-- The table `s_conns` of main/security.c as a finite map from connection handles to slots.
use air_shifter_rough.Common.{
  ℕ, zero, suc, ◌≡◌, ◌≢◌, ◌⊎◌, inl, inr, refl, Option, none, some, List, [], ◌∷◌, arith, ◌==◌,
  if◌then◌else◌, set, length, ◌<◌,
}
use native.Mathlib.Decide.{ℕ_discrete as dec_eq}
use air_shifter_rough.Security.Slots.{Slot, slot_at, zeroed, find_entry, find_free}

-- The session of a connection: its first slot.
abbrev pub session : ℕ → List Slot → Option Slot
session h [] = none
session h (s ∷ ss) = if s.conn_handle == h then some s else session h ss

-- No handle but the free marker 0 stands twice.
abbrev pub IsDistinct : List Slot → Type 0
IsDistinct [] = Unit {0}
IsDistinct (s ∷ ss) = ((s.conn_handle ≡ 0) ⊎ (session s.conn_handle ss ≡ none)) × IsDistinct ss

pub session-find_entry :
    (h i : ℕ) (ss : List Slot) → find_entry h ss ≡ some i → session h ss ≡ some (slot_at ss i)
unfolding find_entry
session-find_entry h i [] e = cc
session-find_entry h zero (s ∷ ss) e = ground arith
session-find_entry h (suc i) (s ∷ ss) e = ground (arith, session-find_entry h i ss)

pub session-find_entry-none :
    (h : ℕ) (ss : List Slot) → find_entry h ss ≡ none → session h ss ≡ none
unfolding find_entry
session-find_entry-none h [] e = refl
session-find_entry-none h (s ∷ ss) e = ground (arith, session-find_entry-none h ss)

pub conn_handle-find_entry :
    (h i : ℕ) (ss : List Slot) → find_entry h ss ≡ some i → (slot_at ss i).conn_handle ≡ h
unfolding find_entry
conn_handle-find_entry h i [] e = cc
conn_handle-find_entry h zero (s ∷ ss) e = ground arith
conn_handle-find_entry h (suc i) (s ∷ ss) e = ground (arith, conn_handle-find_entry h i ss)

pub find_entry-lt : (h i : ℕ) (ss : List Slot) → find_entry h ss ≡ some i → i < length ss
unfolding find_entry
find_entry-lt h i [] e = cc
find_entry-lt h zero (s ∷ ss) e = omega arith
find_entry-lt h (suc i) (s ∷ ss) e = ground (arith, find_entry-lt h i ss)

pub find_free-find_entry : (ss : List Slot) → find_free ss ≡ find_entry 0 ss
unfolding find_free find_entry
find_free-find_entry [] = refl
find_free-find_entry (s ∷ ss) = ground (arith, find_free-find_entry ss)

-- A slot that was found under handle `old` now has handle `h`.
pub session-set :
    (old h k i : ℕ) (ss : List Slot) (e : Slot)
    → find_entry old ss ≡ some i
    → e.conn_handle ≡ h
    → (k ≢ h) ⊎ ((h ≡ old) ⊎ (session h ss ≡ none))
    → (k ≢ old) ⊎ (k ≡ h)
    → session k (set ss i e) ≡ (if h == k then some e else session k ss)
unfolding find_entry
session-set old h k i [] e f eh fresh other = cc
session-set old h k zero (s ∷ ss) e f eh fresh other = ground arith
session-set old h k (suc i) (s ∷ ss) e f eh fresh other = ground (arith, session-set old h k i ss e)

pub IsDistinct-set :
    (old h i : ℕ) (ss : List Slot) (e : Slot)
    → find_entry old ss ≡ some i
    → e.conn_handle ≡ h
    → (h ≡ 0) ⊎ ((h ≡ old) ⊎ (session h ss ≡ none))
    → IsDistinct ss
    → IsDistinct (set ss i e)
unfolding find_entry
IsDistinct-set old h i [] e f eh fresh d = cc
IsDistinct-set old h zero (s ∷ ss) e f eh fresh d = ground arith
IsDistinct-set old h (suc i) (s ∷ ss) e f eh fresh d = (
  elim d.0 [
    | inl z ↦ inl z
    | inr n ↦ elim (dec_eq s.conn_handle h) [
      | yes same ↦ ground arith
      | no other ↦ inr (
          rw
            (session-set old h s.conn_handle i ss e (ground arith) eh (inl other)
              (inl (ground arith)))
            (ground arith))
    ]
  ],
  ground (arith, IsDistinct-set old h i ss e),
)

pub session-set-zeroed :
    (h k i : ℕ) (ss : List Slot)
    → find_entry h ss ≡ some i
    → IsDistinct ss
    → h ≢ 0
    → k ≢ 0
    → session k (set ss i zeroed) ≡ (if h == k then none else session k ss)
unfolding find_entry
session-set-zeroed h k i [] f d n m = cc
session-set-zeroed h k zero (s ∷ ss) f d n m = ground arith
session-set-zeroed h k (suc i) (s ∷ ss) f d n m = ground (arith, session-set-zeroed h k i ss)

-- A slot that was found under handle `old`, or is new, is then found under its own.
pub find_entry-set :
    (old h i : ℕ) (ss : List Slot) (e : Slot)
    → find_entry old ss ≡ some i
    → e.conn_handle ≡ h
    → (h ≡ old) ⊎ (find_entry h ss ≡ none)
    → find_entry h (set ss i e) ≡ some i
unfolding find_entry
find_entry-set old h i [] e f eh fresh = cc
find_entry-set old h zero (s ∷ ss) e f eh fresh = ground arith
find_entry-set old h (suc i) (s ∷ ss) e f eh fresh = ground (arith, find_entry-set old h i ss e)

pub find_entry-eq-none : (h : ℕ) (ss : List Slot) → session h ss ≡ none → find_entry h ss ≡ none
unfolding find_entry
find_entry-eq-none h [] e = refl
find_entry-eq-none h (s ∷ ss) e = ground (arith, find_entry-eq-none h ss)

-- The room that a table has for a connection: its own slot, or a free one.
abbrev pub HasRoom : ℕ → List Slot → Type 0
HasRoom h ss = (session h ss ≢ none) ⊎ (session 0 ss ≢ none)
