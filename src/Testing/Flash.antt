-- ===== src/Testing/Flash.antt =====
-- A flash for the tests, which keeps every string.
use air_shifter_rough.Common.{
  ℕ, ◌≡◌, ◌≢◌, ◌⊎◌, inl, inr, refl, ap, ◌∙◌, ap₂, true, false, Option, none, some, [], ◌∷◌, Bytes,
  arith, bytes_eq, ◌==◌, ==_self, ==_iff, Bool-cases, ltb, if◌then◌else◌, length,
}
use air_shifter_rough.Wifi.Nvs.{NvsApi, NvsLaws, key_pass}
use air_shifter_rough.Wifi.Failed.{not_enough_space, KeepsRest}

bytes_eq_self : (k : Bytes) → bytes_eq k k ≡ true
bytes_eq_self [] = refl
bytes_eq_self (c ∷ cs) = let here = ==_self c in let rest = bytes_eq_self cs in ground arith

same_bytes : (k l : Bytes) → bytes_eq k l ≡ true → k ≡ l
same_bytes [] [] e = refl
same_bytes [] (d ∷ ds) e = absurd cc
same_bytes (c ∷ cs) [] e = absurd cc
same_bytes (c ∷ cs) (d ∷ ds) e = elim (Bool-cases (c == d)) [
  | inl same ↦ ap₂ ◌∷◌ ((==_iff c d).0 same) (same_bytes cs ds (ground (arith, e, same)))
  | inr no' ↦ absurd (ground (arith, e, no'))
]

bytes_eq_no : (k l : Bytes) → k ≢ l → bytes_eq k l ≡ false
bytes_eq_no k l n = elim (Bool-cases (bytes_eq k l)) [
  | inl same ↦ absurd (n (same_bytes k l same))
  | inr no' ↦ no'
]

abbrev found : ℕ → Option Bytes → ℕ ⊎ Bytes
found size none = inl 1
found size (some v) = if ltb (length v) size then inr v else inl 2

abbrev pub memory : NvsApi
memory = record {
  State = Bytes → Option Bytes;
  open_rw = λ s. (0, s);
  open_ro = λ s. 0;
  set_str = λ k v s. (0, λ l. if bytes_eq k l then some v else s l);
  commit = λ s. (0, s);
  get_str = λ k size s. found size (s k);
}

pub memory-NvsLaws : NvsLaws memory
memory-NvsLaws = record {
  open_ro_rw = λ s e. refl;
  open_ro-set = λ k v s e. refl;
  open_ro-commit = λ s e. refl;
  get-set = λ k v size s e fits. let same = bytes_eq_self k in ground (arith, fits, same);
  get-set_ne = λ k l v size s e n. let other = bytes_eq_no k l n in rw other refl;
  get-commit = λ k size s e. refl;
}

-- the same flash once it has no room for the password
abbrev set_but_pass : Bytes → Bytes → (Bytes → Option Bytes) → ℕ × (Bytes → Option Bytes)
set_but_pass k v s = if bytes_eq k key_pass then (not_enough_space, s) else memory.set_str k v s

abbrev pub full : NvsApi
full = record memory { set_str = set_but_pass }

module _ (k v : Bytes) (s : Bytes → Option Bytes) where
  set_but_pass-same : (set_but_pass k v s).0 ≡ 0 → set_but_pass k v s ≡ memory.set_str k v s
  set_but_pass-same e = elim (Bool-cases (bytes_eq k key_pass)) [
    | inl full ↦ absurd (ground (arith, e, full))
    | inr other ↦ rw other refl
  ]

  set_but_pass-failed : (set_but_pass k v s).0 ≡ not_enough_space → (set_but_pass k v s).1 ≡ s
  set_but_pass-failed n = elim (Bool-cases (bytes_eq k key_pass)) [
    | inl full ↦ rw full refl
    | inr other ↦ absurd (ground (arith, n, other))
  ]

pub full-NvsLaws : NvsLaws full
full-NvsLaws = record {
  open_ro_rw = λ s e. refl;
  open_ro-set = λ k v s e. refl;
  open_ro-commit = λ s e. refl;
  get-set = λ k v size s e fits.
      ap (λ r. full.get_str k size r.1) (set_but_pass-same k v s e)
      ∙ memory-NvsLaws.get-set k v size s refl fits;
  get-set_ne = λ k l v size s e n.
      ap (λ r. full.get_str l size r.1) (set_but_pass-same k v s e)
      ∙ memory-NvsLaws.get-set_ne k l v size s refl n;
  get-commit = λ k size s e. refl;
}

pub full-KeepsRest : KeepsRest full
full-KeepsRest = record {
  get-open = λ k size s. refl;
  get-no_space = λ k l v size s n. ap (λ t. full.get_str l size t) (set_but_pass-failed k v s n);
  open_ro-no_space = λ k v s n. refl;
}
