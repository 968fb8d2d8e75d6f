-- ===== src/Fota/Tests.antt =====
-- Theorems of main/FOTA.c at a concrete flash, which keeps one blob.
use air_shifter_rough.Common.{
  ◌<◌, ◌≡◌, inl, inr, refl, true, Bytes, ◌∷◌, ◌++◌, arith, ◌==◌, ==_iff, Bool-cases, if◌then◌else◌,
  length, take, drop, replicate, set,
}
use air_shifter_rough.Parser.{c_string}
use air_shifter_rough.Fota.{
  OtaApi, resumes, restarts, ota_url, flag_pending, url_of, copy_token, check_ota_update, ota_init,
  ota_task,
}
use air_shifter_rough.Fota.Url.{url_of_lem}
use air_shifter_rough.Fota.Once.{BlobLaws, check_ota_update_once}

-- every update fails, with the code 1
abbrev memory : OtaApi
memory = record {
  State = Bytes;
  read_blob = λ s. if length s == 33 then inr s else inl 1;
  write_blob = λ b s. if length b == 33 then (0, b) else (1, s);
  https_ota = λ url. 1;
  connects = true;
}

has_33 : (b : Bytes) → (length b == 33) ≡ true → length b ≡ 33
has_33 b e = (==_iff (length b) 33).0 e

memory_size : (s payload : Bytes) → memory.read_blob s ≡ inr payload → length payload ≡ 33
memory_size s payload e = elim (Bool-cases (length s == 33)) [
  | inl yes' ↦ let full = has_33 s yes' in ground (arith, e, yes', full)
  | inr no' ↦ absurd (ground (arith, e, no'))
]

memory-BlobLaws : BlobLaws memory
memory-BlobLaws = record {
  size = λ s payload e. memory_size s payload e;
  read-write = λ payload s e. ground (arith, e);
}

abbrev requested : Bytes
requested = flag_pending ∷ replicate 32 b'x'

abbrev unset : Bytes
unset = replicate 33 0

url_of_lem_example :
    (url_of unset requested ≡ ota_url ++ c_string (take 32 (drop 1 requested)))
    × (length (url_of unset requested) < 256)
url_of_lem_example = url_of_lem requested unset refl refl

update_fails :
    check_ota_update memory unset requested
    ≡ restarts (ota_url ++ replicate 32 b'x') (set requested 0 0x33)
unfolding check_ota_update ota_init ota_task url_of copy_token
update_fails = refl

check_ota_update_once_example : check_ota_update memory unset (set requested 0 0x33) ≡ resumes
check_ota_update_once_example =
    check_ota_update_once memory unset unset requested (set requested 0 0x33)
      (ota_url ++ replicate 32 b'x') memory-BlobLaws
      (λ payload e. let full = (==_iff (length payload) 33).1 e in ground (arith, full))
      update_fails
