-- ===== src/Security/Looping.antt =====
-- The loop of `generate_nonce_for_index` in main/security.c as its turns, without a bound on them.
use air_shifter_rough.Common.{
  ◌^◌, ◌%◌, ℕ, zero, suc, ◌+◌, ◌-◌, ◌*◌, ◌≤◌, ◌<◌, arith, Bytes, ltb, leb, ltb→lt, ltb_ge,
  if◌then◌else◌, take, Bool-cases, inl, inr,
}
use air_shifter_rough.Security.Filling.{no_wrap}
use air_shifter_rough.Security.Nonce.{word_bytes, write, fill_nonce}

-- The loop from call number `k` of esp_random and offset `i` ends with the buffer `r`.
pub data Ends (random : ℕ → ℕ) (len : ℕ) : ℕ → ℕ → Bytes → Bytes → Type 0 where
  stops : {k i : ℕ} {buf : Bytes} → len ≤ i → Ends random len k i buf buf
  turns :
      {k i : ℕ} {buf r : Bytes}
      → i < len
      → Ends random len
          (k + 1)
          ((i + 4) % 2 ^ 32)
          (write buf i (take (if leb 4 (len - i) then 4 else len - i) (word_bytes (random k))))
          r
      → Ends random len k i buf r

ends :
    (fuel : ℕ) (random : ℕ → ℕ) (k len i : ℕ) (buf : Bytes)
    → len ≤ 2 ^ 31
    → len ≤ i + 4 * fuel
    → Ends random len k i buf (fill_nonce fuel random k len i buf)
unfolding fill_nonce
ends zero random k len i buf small h = stops (omega arith)
ends (suc fuel) random k len i buf small h = elim (Bool-cases (ltb i len)) [
  | inl e ↦
      rw (e, fill_nonce)
        (turns (ltb→lt i len e) (
          rw (no_wrap i len (ltb→lt i len e) small)
            (ends fuel random (k + 1) len (i + 4) _ small (omega arith))))
  | inr e ↦ rw (e, fill_nonce) (stops (ltb_ge i len e))
]

-- The loop that fills a nonce of less than 2 GiB ends, with the buffer that the definition with a
-- bound on the rounds gives.
pub fill_nonce-Ends :
    (random : ℕ → ℕ) (len : ℕ) (buf : Bytes)
    → len ≤ 2 ^ 31
    → Ends random len 0 0 buf (fill_nonce len random 0 len 0 buf)
fill_nonce-Ends random len buf small = ends len random 0 len 0 buf small (omega arith)
