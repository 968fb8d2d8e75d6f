-- ===== src/Fota/Once.antt =====
-- main/FOTA.c: two starts of the device in a row.
use air_shifter_rough.Common.{
  ℕ, ◌≡◌, refl, ◌∙◌, false, Bytes, arith, ◌==◌, ◌⊎◌, inl, inr, Bool-cases, get_or, set, length,
  length-set, get_or-set_self,
}
use air_shifter_rough.Fota.{
  OtaApi, resumes, restarts, flag_of, flag_pending, url_of, ota_task, ota_init, check_ota_update,
}

-- The blob has 33 bytes, and a write that succeeds is read back.
pub record BlobLaws (o : OtaApi) : Type 0 where
  pub size : (s : o.State) (payload : Bytes) → o.read_blob s ≡ inr payload → length payload ≡ 33
  pub read-write :
      (payload : Bytes) (s : o.State)
      → (o.write_blob payload s).0 ≡ 0
      → o.read_blob (o.write_blob payload s).1 ≡ inr payload

-- The blob is read, or it is not.
read_cases :
    (r : ℕ ⊎ Bytes) → ((code : ℕ) × (r ≡ inl code)) ⊎ ((payload : Bytes) × (r ≡ inr payload))
read_cases (inl code) = inl (code, refl)
read_cases (inr payload) = inr (payload, refl)

flag_of-ne : (ret : ℕ) → (flag_of ret == flag_pending) ≡ false
flag_of-ne ret = ground arith

-- What a start that restarts did.
record Updated (o : OtaApi) (temp : Bytes) (s : o.State) (url : Bytes) (s' : o.State) : Type 0 where
  payload : Bytes
  read : o.read_blob s ≡ inr payload
  requested : url ≡ url_of temp payload
  wrote : s' ≡ (o.write_blob (set payload 0 (flag_of (o.https_ota url))) s).1

updated :
    (o : OtaApi) (temp : Bytes) (s s' : o.State) (url : Bytes)
    → check_ota_update o temp s ≡ restarts url s'
    → Updated o temp s url s'
unfolding check_ota_update ota_init ota_task
updated o temp s s' url e = elim (read_cases (o.read_blob s)) [
  | inl (code, r) ↦ absurd (ground arith)
  | inr (payload, r) ↦ elim (Bool-cases (get_or payload 0 0 == flag_pending)) [
    | inr other ↦ absurd (ground arith)
    | inl pending ↦ elim (Bool-cases o.connects) [
      | inr down ↦ absurd (ground arith)
      | inl up ↦ record {
        payload = payload;
        read = r;
        requested = ground arith;
        wrote = ground arith;
      }
    ]
  ]
]

-- When the blob has 33 bytes, a blob that is written is read back, and writes of such blobs
-- succeed: after a start that ran the update, whatever its result, and restarted, the next start
-- resumes normal operation, so a requested update is tried once.
pub check_ota_update_once :
    (o : OtaApi) (temp temp' : Bytes) (s s' : o.State) (url : Bytes)
    → BlobLaws o
    → ((payload : Bytes) → length payload ≡ 33 → (o.write_blob payload s).0 ≡ 0)
    → check_ota_update o temp s ≡ restarts url s'
    → check_ota_update o temp' s' ≡ resumes
unfolding check_ota_update
check_ota_update_once o temp temp' s s' url laws writes e =
    let u = updated o temp s s' url e in
    let next = set u.payload 0 (flag_of (o.https_ota url)) in
    let flag : get_or next 0 0 ≡ flag_of (o.https_ota url) =
      get_or-set_self u.payload 0 (flag_of (o.https_ota url)) 0
        (omega (arith, laws.size s u.payload u.read)) in
    let read : o.read_blob s' ≡ inr next = rw u.wrote (
      laws.read-write next s (
        writes next
          (length-set u.payload 0 (flag_of (o.https_ota url)) ∙ laws.size s u.payload u.read))) in
    rw (read, check_ota_update) (rw flag (rw (flag_of-ne (o.https_ota url)) refl))
