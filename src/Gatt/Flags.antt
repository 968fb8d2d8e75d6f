-- ===== src/Gatt/Flags.antt =====
-- main/gatt_svr.c: the flags of the table, and the characteristics that take a write.
use air_shifter_rough.Common.{
  ℕ, ◌≡◌, refl, ◌∙◌, ap, Bool, true, false, not, ◌&&◌, ◌||◌, [], Bytes, arith, ◌==◌, ==_self,
  get_or,
}
use air_shifter_rough.Platform.{Platform}
use air_shifter_rough.Biz.Setters.{rpm, angle, light, power}
use air_shifter_rough.Gatt.Services.{
  Variable, ctrl, stat, auth_char_handle, packet_handle, gatt_svr_chr_val_handle, ChrDef, no_flags,
}
use air_shifter_rough.Gatt.ReadBack.{ctrl_handle}
use air_shifter_rough.Gatt.{
  World, Status, write_not_permitted, failed, gatt_svr_write_flat, write_auth, write_ctrl,
  write_packet, write_chr, is_ctrl,
}
use air_shifter_rough.Gatt.Registered.{
  load, all_chrs, place, Separates, Holds, GivesOnce, Holds-Separates,
}

abbrev no_chr : ChrDef
no_chr = record {
  uuid = [];
  val_handle = gatt_svr_chr_val_handle;
  flags = no_flags;
  descriptors = [];
}

-- the row of the table
abbrev pub chr_of : Variable → ChrDef
chr_of v = get_or all_chrs (place v) no_chr

pub chr_of-val_handle : (v : Variable) → (chr_of v).val_handle ≡ v
chr_of-val_handle (ctrl rpm) = refl
chr_of-val_handle (ctrl angle) = refl
chr_of-val_handle (ctrl light) = refl
chr_of-val_handle (ctrl power) = refl
chr_of-val_handle (stat rpm) = refl
chr_of-val_handle (stat angle) = refl
chr_of-val_handle (stat light) = refl
chr_of-val_handle (stat power) = refl
chr_of-val_handle auth_char_handle = refl
chr_of-val_handle packet_handle = refl
chr_of-val_handle gatt_svr_chr_val_handle = refl

abbrev pub is_permitted : Status → Bool
is_permitted write_not_permitted = false
is_permitted _ = true

abbrev pub is_custom : Variable → Bool
is_custom gatt_svr_chr_val_handle = true
is_custom _ = false

gatt_svr_write_flat_permitted :
    (p : Platform) (om : Bytes) (lo hi room : ℕ) (code : Status)
    → gatt_svr_write_flat p om lo hi room ≡ failed code
    → is_permitted code ≡ true
unfolding gatt_svr_write_flat
gatt_svr_write_flat_permitted p om lo hi room code e = ground arith

write_auth_permitted :
    (p : Platform) (us h : ℕ) (om : Bytes) (w : World)
    → is_permitted (write_auth p us h om w).0 ≡ true
unfolding write_auth
write_auth_permitted p us h om w = ground arith

write_packet_permitted :
    (p : Platform) (om : Bytes) (w : World) → is_permitted (write_packet p om w).0 ≡ true
unfolding write_packet
write_packet_permitted p om w = ground arith

write_ctrl_permitted :
    (p : Platform) (attr : ℕ) (om : Bytes) (w : World)
    → is_permitted (write_ctrl p attr om w).0 ≡ true
unfolding write_ctrl gatt_svr_write_flat
write_ctrl_permitted p attr om w = ground arith

abbrev is_dial : Variable → Bool
is_dial (ctrl d) = true
is_dial _ = false

is_ctrl-load : (v : Variable) (w : World) → Separates w → is_ctrl (load v w) w ≡ is_dial v
is_ctrl-load (ctrl rpm) w d = ground (arith, ==_self (ctrl_handle rpm w))
is_ctrl-load (ctrl angle) w d = ground (arith, ==_self (ctrl_handle angle w))
is_ctrl-load (ctrl light) w d = ground (arith, ==_self (ctrl_handle light w))
is_ctrl-load (ctrl power) w d = ground (arith, ==_self (ctrl_handle power w))
is_ctrl-load v w d =
    ground (arith, d v (ctrl rpm), d v (ctrl angle), d v (ctrl light), d v (ctrl power))

or_false : (b : Bool) → (b || false) ≡ b
or_false true = refl
or_false false = refl

-- the write to a characteristic other than auth
not_auth :
    (p : Platform) (us h : ℕ) (om : Bytes) (w : World) (v : Variable)
    → Separates w
    → (place v == place auth_char_handle) ≡ false
    → is_permitted (write_chr p us h (load v w) om w).0
      ≡ (is_dial v || (load v w == w.packet_handle))
unfolding write_chr
not_auth p us h om w v d ne =
    let other = d v auth_char_handle ne in
    let dial = is_ctrl-load v w d in
    let value = write_ctrl_permitted p (load v w) om w in
    let packet = write_packet_permitted p om w in ground arith

plain :
    (p : Platform) (us h : ℕ) (om : Bytes) (w : World) (v : Variable)
    → Separates w
    → (place v == place auth_char_handle) ≡ false
    → (place v == place packet_handle) ≡ false
    → is_permitted (write_chr p us h (load v w) om w).0 ≡ is_dial v
plain p us h om w v d ne ne' =
    not_auth p us h om w v d ne
    ∙ ap (◌||◌ (is_dial v)) (d v packet_handle ne')
    ∙ or_false (is_dial v)

write_auth-code :
    (p : Platform) (us h : ℕ) (om : Bytes) (w : World)
    → is_permitted (write_chr p us h w.sec.auth_char_handle om w).0 ≡ true
unfolding write_chr
write_auth-code p us h om w =
    rw (==_self w.sec.auth_char_handle, write_chr) (write_auth_permitted p us h om w)

-- When NimBLE gives every characteristic of the table a handle of its own and stores it in the
-- characteristic's variable: a write to a characteristic of the table, by any connection and with
-- any bytes, gives another result than BLE_ATT_ERR_WRITE_NOT_PERMITTED exactly when the table has
-- the write flag for it and it is not the custom characteristic.
pub write_chr-flags :
    (p : Platform) (us h : ℕ) (om : Bytes) (attr : ℕ → ℕ) (w : World) (v : Variable)
    → Holds attr w
    → GivesOnce attr
    → is_permitted (write_chr p us h (load v w) om w).0
      ≡ ((chr_of v).flags.write && not (is_custom v))
write_chr-flags p us h om attr w auth_char_handle holds once = write_auth-code p us h om w
write_chr-flags p us h om attr w packet_handle holds once =
    not_auth p us h om w packet_handle (Holds-Separates attr w holds once) refl
    ∙ ==_self w.packet_handle
write_chr-flags p us h om attr w (ctrl rpm) holds once =
    plain p us h om w (ctrl rpm) (Holds-Separates attr w holds once) refl refl
write_chr-flags p us h om attr w (ctrl angle) holds once =
    plain p us h om w (ctrl angle) (Holds-Separates attr w holds once) refl refl
write_chr-flags p us h om attr w (ctrl light) holds once =
    plain p us h om w (ctrl light) (Holds-Separates attr w holds once) refl refl
write_chr-flags p us h om attr w (ctrl power) holds once =
    plain p us h om w (ctrl power) (Holds-Separates attr w holds once) refl refl
write_chr-flags p us h om attr w (stat rpm) holds once =
    plain p us h om w (stat rpm) (Holds-Separates attr w holds once) refl refl
write_chr-flags p us h om attr w (stat angle) holds once =
    plain p us h om w (stat angle) (Holds-Separates attr w holds once) refl refl
write_chr-flags p us h om attr w (stat light) holds once =
    plain p us h om w (stat light) (Holds-Separates attr w holds once) refl refl
write_chr-flags p us h om attr w (stat power) holds once =
    plain p us h om w (stat power) (Holds-Separates attr w holds once) refl refl
write_chr-flags p us h om attr w gatt_svr_chr_val_handle holds once =
    plain p us h om w gatt_svr_chr_val_handle (Holds-Separates attr w holds once) refl refl
