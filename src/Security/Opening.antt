-- ===== src/Security/Opening.antt =====
-- `sec_on_connect` of main/security.c finds or allocates a slot: what that does to the table.
use air_shifter_rough.Common.{
  ℕ, ◌≡◌, false, ◌≢◌, inl, inr, refl, ◌∙◌, Option, none, some, List, arith, length, length-set, All,
  All-set, All-get_or, Option-cases, ◌≤◌,
}
use air_shifter_rough.Security.Slots.{
  Slot, slot_at, zeroed, find_entry, alloc_entry, claimed, claim,
}
use air_shifter_rough.Security.Sessions.{
  session, IsDistinct, HasRoom, session-find_entry, session-find_entry-none, session-set,
  IsDistinct-set, find_entry-set, find_free-find_entry,
}
use air_shifter_rough.Security.{find_or_alloc}

-- The nonce buffer has its 32 bytes, and the nonce fits in it.
abbrev pub HasBuffer : Slot → Type 0
HasBuffer e = (length e.nonce ≡ 32) × (e.nonce_len ≤ 32)

-- The slot is not authenticated.
abbrev pub IsUnproved : Slot → Type 0
IsUnproved e = e.authenticated ≡ false

-- The nonce fits a buffer of 16 bytes.
abbrev pub HasShortNonce : Slot → Type 0
HasShortNonce e = e.nonce_len ≤ 16

pub zeroed-HasBuffer : HasBuffer zeroed
zeroed-HasBuffer = (refl, omega arith)

pub record IsOpened (h : ℕ) (before : List Slot) (i : ℕ) (after : List Slot) : Type 0 where
  pub found : find_entry h after ≡ some i
  pub others : (k : ℕ) → k ≢ 0 → k ≢ h → session k after ≡ session k before
  pub distinct : IsDistinct before → IsDistinct after
  pub size : length after ≡ length before
  pub buffers : All HasBuffer before → All HasBuffer after
  pub idle : All IsUnproved before → All IsUnproved after
  pub short : All HasShortNonce before → All HasShortNonce after

claim-IsOpened :
    (h i : ℕ) (ss : List Slot)
    → find_entry h ss ≡ none
    → find_entry 0 ss ≡ some i
    → IsOpened h ss i (claim h ss i)
claim-IsOpened h i ss missing free =
    let new = session-find_entry-none h ss missing in
    record {
      found = find_entry-set 0 h i ss (claimed h (slot_at ss i)) free refl (inr missing);
      others = λ k pos other.
          session-set 0 h k i ss (claimed h (slot_at ss i)) free refl (inl other) (inl pos)
          ∙ ground arith;
      distinct = IsDistinct-set 0 h i ss (claimed h (slot_at ss i)) free refl (inr (inr new));
      size = length-set ss i _;
      buffers = λ b.
          All-set HasBuffer ss i (claimed h (slot_at ss i)) b
            ((All-get_or HasBuffer ss i zeroed b zeroed-HasBuffer).0, omega arith);
      idle = λ u. All-set IsUnproved ss i (claimed h (slot_at ss i)) u refl;
      short = λ u. All-set HasShortNonce ss i (claimed h (slot_at ss i)) u (omega arith);
    }

kept-IsOpened : (h i : ℕ) (ss : List Slot) → find_entry h ss ≡ some i → IsOpened h ss i ss
kept-IsOpened h i ss f = record {
  found = f;
  others = λ k pos other. refl;
  distinct = λ d. d;
  size = refl;
  buffers = λ b. b;
  idle = λ u. u;
  short = λ u. u;
}

-- The result of the search, by cases.
pub data Opens (h : ℕ) (ss : List Slot) (r : Option (ℕ × List Slot)) : Type 0 where
  full : r ≡ none → session h ss ≡ none → session 0 ss ≡ none → Opens h ss r
  opened :
      (i : ℕ) (ss' : List Slot)
      → r ≡ some (i, ss')
      → IsOpened h ss i ss'
      → HasRoom h ss
      → Opens h ss r

pub find_or_alloc-Opens : (h : ℕ) (ss : List Slot) → Opens h ss (find_or_alloc h ss)
unfolding find_or_alloc alloc_entry
find_or_alloc-Opens h ss = elim (Option-cases (find_entry h ss)) [
  | inr (i, f) ↦
      opened i ss (rw (f, find_or_alloc)) (kept-IsOpened h i ss f)
        (inl (λ n. cc (session-find_entry h i ss f)))
  | inl missing ↦ elim (Option-cases (find_entry 0 ss)) [
    | inr (i, free) ↦
        opened i (claim h ss i)
          (rw (missing, find_or_alloc) (rw (find_free-find_entry ss ∙ free, alloc_entry)))
          (claim-IsOpened h i ss missing free) (inr (λ n. cc (session-find_entry 0 i ss free)))
    | inl taken ↦
        full (rw (missing, find_or_alloc) (rw (find_free-find_entry ss ∙ taken, alloc_entry)))
          (session-find_entry-none h ss missing) (session-find_entry-none 0 ss taken)
  ]
]
