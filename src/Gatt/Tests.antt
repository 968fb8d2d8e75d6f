-- ===== src/Gatt/Tests.antt =====
-- Tests of main/gatt_svr.c, and its theorems at concrete states.
use air_shifter_rough.Common.{
  ◌*◌, not, ◌&&◌, Bool, List, Bytes, bytes_eq, map, codes, ℕ, none, ◌+◌, ◌<◌, ◌≡◌, ◌↔◌, inl, inr,
  refl, ap, pos, true, false, [], ◌∷◌, some, arith, take_all, length,
}
use air_shifter_rough.Platform.{Platform}
use air_shifter_rough.Testing.{toy}
use air_shifter_rough.Security.Slots.{Slot, zeroed, find_entry}
use air_shifter_rough.Security.Nonce.{word_bytes}
use air_shifter_rough.Security.Sessions.{session}
use air_shifter_rough.Security.Invariant.{IsValid}
use air_shifter_rough.Security.{Security, statics, sec_is_conn_authenticated}
use air_shifter_rough.Biz.{at_boot, biz_set_rpm}
use air_shifter_rough.Biz.Setters.{rpm, angle, light, power, command}
use air_shifter_rough.Gatt.Packets.{Flattens, packet_line}
use air_shifter_rough.Gatt.Services.{
  ctrl, stat, auth_char_handle, packet_handle, gatt_svr_chr_val_handle, gatt_svr_init,
  gatt_svr_register_cb, other_op,
}
use air_shifter_rough.Gatt.Registered.{Holds, GivesOnce, all_chrs}
use air_shifter_rough.Gatt.Flags.{is_permitted, write_chr-flags}
use air_shifter_rough.Gatt.{
  World, Status, success, insufficient_authen, fault, done, reads_chr, writes_chr, gatt_svc_access,
  write_chr,
}
use air_shifter_rough.Gatt.Guard.{write_chr_refused, gatt_svc_access_guarded, gatt_svc_access_keeps}
use air_shifter_rough.Gatt.Nonce.{read_chr_fault_iff}
use air_shifter_rough.Gatt.ReadBack.{KeepsBytes, AreDistinct, write_then_read}

abbrev platform : Platform
platform = toy []

-- connection 1 is authenticated, with a nonce of 32 bytes; connection 2 is not known
abbrev first : Slot
first = record zeroed { conn_handle = 1; authenticated = true; nonce_len = 32; created_ts_ms = 1 }

abbrev registered : Security
registered = record statics { conns = first ∷ zeroed ∷ zeroed ∷ []; auth_char_handle = 10 }

abbrev world : World
world = record {
  sec = registered;
  biz = record at_boot { stat_handles = record { rpm = 22; angle = 24; light = 26; power = 28 } };
  ctrl_handles = record { rpm = 12; angle = 14; light = 16; power = 18 };
  packet_handle = 30;
  gatt_svr_chr_val_handle = 40;
  dsc_val = 0;
}

registered-IsValid : IsValid registered
registered-IsValid = record {
  table_size = refl;
  distinct = (inr refl, (inl refl, (inl refl, tt)));
  buffers = ((refl, omega arith), ((refl, omega arith), ((refl, omega arith), tt)));
  len_pos = omega arith;
  len_fits = omega arith;
  value_size = refl;
  value_fits = omega arith;
}

first_passes : sec_is_conn_authenticated 2_000_000 1 registered ≡ true
unfolding sec_is_conn_authenticated find_entry
first_passes = refl

second_fails : sec_is_conn_authenticated 2_000_000 2 registered ≡ false
unfolding sec_is_conn_authenticated find_entry
second_fails = refl

toy-KeepsBytes : KeepsBytes platform
toy-KeepsBytes = (λ bs. ap some (take_all (length bs) bs (omega arith)), λ bs. refl)

world-AreDistinct : AreDistinct world
world-AreDistinct = (
  (refl, (refl, (refl, (refl, (refl, (refl, (refl, (refl, tt)))))))),
  (
    (refl, (refl, (refl, (refl, (refl, (refl, (refl, tt))))))),
    (
      (refl, (refl, (refl, (refl, (refl, (refl, tt)))))),
      (
        (refl, (refl, (refl, (refl, (refl, tt))))),
        (
          (refl, (refl, (refl, (refl, tt)))),
          ((refl, (refl, (refl, tt))), ((refl, (refl, tt)), ((refl, tt), (tt, tt)))),
        ),
      ),
    ),
  ),
)

abbrev spinning : World
spinning = record world { biz = command rpm (pos 1200) world.biz }

write_then_read_example :
    (gatt_svc_access platform 2_000_000 1 12 writes_chr (word_bytes 1200) world
      ≡ done success (word_bytes 1200) spinning)
    × (gatt_svc_access platform 3_000_000 2 12 reads_chr [] spinning
        ≡ done success (word_bytes 1200) spinning)
    × (gatt_svc_access platform 3_000_000 2 22 reads_chr [] spinning
        ≡ done success (word_bytes 1200) spinning)
unfolding command biz_set_rpm
write_then_read_example =
    write_then_read platform 2_000_000 3_000_000 1 2 rpm 1200 world toy-KeepsBytes world-AreDistinct
      (omega arith) first_passes

write_chr_refused_test :
    write_chr platform 2_000_000 2 12 (word_bytes 1200) world ≡ (insufficient_authen, world)
write_chr_refused_test =
    write_chr_refused platform 2_000_000 2 12 (word_bytes 1200) world second_fails (omega arith)
      refl

-- the same write as an access
abbrev refused : Status × World
refused = write_chr platform 2_000_000 2 12 (word_bytes 1200) world

refused_access :
    gatt_svc_access platform 2_000_000 2 12 writes_chr (word_bytes 1200) world
    ≡ done refused.0 (word_bytes 1200) refused.1
unfolding gatt_svc_access write_chr sec_is_conn_authenticated find_entry
refused_access = refl

gatt_svc_access_guarded_test : refused.1.biz ≡ world.biz
gatt_svc_access_guarded_test =
    gatt_svc_access_guarded platform 2_000_000 2 12 writes_chr (word_bytes 1200) (word_bytes 1200)
      refused.0 world refused.1 second_fails refused_access

gatt_svc_access_keeps_example : refused.1 ≡ world
gatt_svc_access_keeps_example =
    gatt_svc_access_keeps platform 2_000_000 2 12 writes_chr (word_bytes 1200) (word_bytes 1200)
      refused.0 world refused.1 second_fails refused_access (λ a. omega (arith, a.1))

read_chr_fault_iff_example :
    (gatt_svc_access platform 2_000_000 1 10 reads_chr [] world ≡ fault)
    ↔ ((e : Slot) × (session 1 world.sec.conns ≡ some e) × (16 < e.nonce_len))
read_chr_fault_iff_example = read_chr_fault_iff platform 2_000_000 1 [] world registered-IsValid

read_overflows : gatt_svc_access platform 2_000_000 1 10 reads_chr [] world ≡ fault
read_overflows = read_chr_fault_iff_example.1 (first, refl, omega arith)

toy-Flattens : Flattens platform
toy-Flattens bs room fits = ap some (take_all room bs fits)

packet_line_example :
    gatt_svc_access platform 2_000_000 1 30 writes_chr (codes "Speed:1200") world
    ≡ done success (codes "Speed:1200") spinning
packet_line_example =
    packet_line platform 2_000_000 1 rpm 1 (2 ∷ 0 ∷ 0 ∷ []) world toy-Flattens first_passes
      (omega arith) refl (omega arith, (omega arith, (omega arith, (omega arith, tt))))
      (omega arith) (omega arith)

-- the handles as NimBLE numbers them, a declaration before each value
abbrev attr : ℕ → ℕ
attr i = 3 + 2 * i

abbrev numbered : World
numbered = record {
  sec = record registered { auth_char_handle = 13 };
  biz = record at_boot { stat_handles = record { rpm = 17; angle = 19; light = 21; power = 23 } };
  ctrl_handles = record { rpm = 5; angle = 7; light = 9; power = 11 };
  packet_handle = 15;
  gatt_svr_chr_val_handle = 3;
  dsc_val = 0x99;
}

numbered-Holds : Holds attr numbered
numbered-Holds (ctrl rpm) = refl
numbered-Holds (ctrl angle) = refl
numbered-Holds (ctrl light) = refl
numbered-Holds (ctrl power) = refl
numbered-Holds (stat rpm) = refl
numbered-Holds (stat angle) = refl
numbered-Holds (stat light) = refl
numbered-Holds (stat power) = refl
numbered-Holds auth_char_handle = refl
numbered-Holds packet_handle = refl
numbered-Holds gatt_svr_chr_val_handle = refl

attr-GivesOnce : GivesOnce attr
attr-GivesOnce i j e = ground arith

write_chr-flags_example :
    is_permitted (write_chr platform 2_000_000 1 3 (5 ∷ []) numbered).0 ≡ false
write_chr-flags_example =
    write_chr-flags platform 2_000_000 1 (5 ∷ []) attr numbered gatt_svr_chr_val_handle
      numbered-Holds attr-GivesOnce

-- No two characteristics have the same UUID.
abbrev all_other : Bytes → List Bytes → Bool
all_other u [] = true
all_other u (v ∷ vs) = not (bytes_eq u v) && all_other u vs

abbrev all_new : List Bytes → Bool
all_new [] = true
all_new (u ∷ us) = all_other u us && all_new us

uuids_differ : all_new (map (λ c. c.uuid) all_chrs) ≡ true
uuids_differ = refl

init_fails :
    gatt_svr_init (record { count_cfg = λ t. 6; add_svcs = λ t. 0 }) numbered ≡ (6, numbered)
unfolding gatt_svr_init
init_fails = refl

unknown_registration : gatt_svr_register_cb other_op numbered ≡ none
unfolding gatt_svr_register_cb
unknown_registration = refl
