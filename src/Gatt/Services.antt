-- ===== src/Gatt/Services.antt =====
-- main/gatt_svr.c: the UUIDs, the table of services, and its registration with NimBLE.
use air_shifter_rough.Common.{
  ℕ, Bool, true, false, not, Option, none, some, List, [], ◌∷◌, Bytes, ◌==◌, if◌then◌else◌,
}
use air_shifter_rough.Biz.Setters.{Dial, rpm, angle, light, power}
use air_shifter_rough.Gatt.{World}

-- the variable that `val_handle` points to
pub data Variable : Type 0 where
  ctrl stat : Dial → Variable
  auth_char_handle packet_handle gatt_svr_chr_val_handle : Variable

-- the bits of `flags` that the table uses
pub record Flags : Type 0 where
  pub read : Bool
  pub write : Bool
  pub write_no_rsp : Bool
  pub notify : Bool
  pub indicate : Bool

-- a descriptor, which has a UUID and att_flags
pub record DscDef : Type 0 where
  pub uuid : Bytes
  pub att_read : Bool

-- Every access_cb is gatt_svc_access.
pub record ChrDef : Type 0 where
  pub uuid : Bytes
  pub val_handle : Variable
  pub flags : Flags
  pub descriptors : List DscDef

-- a primary service
pub record SvcDef : Type 0 where
  pub uuid : Bytes
  pub characteristics : List ChrDef

abbrev pub gatt_svr_svc_uuid : Bytes
gatt_svr_svc_uuid =
    0x2d ∷ 0x71 ∷ 0xa2 ∷ 0x59 ∷ 0xb4 ∷ 0x58 ∷ 0xc8 ∷ 0x12 ∷ 0x99 ∷ 0x99 ∷ 0x43 ∷ 0x95 ∷ 0x12 ∷ 0x2f
    ∷ 0x46 ∷ 0x59 ∷ []

abbrev pub control_svc_uuid : Bytes
control_svc_uuid =
    0xaa ∷ 0xaa ∷ 0xaa ∷ 0xaa ∷ 0xaa ∷ 0xaa ∷ 0x11 ∷ 0x00 ∷ 0x10 ∷ 0x01 ∷ 0x10 ∷ 0x11 ∷ 0xaa ∷ 0xaa
    ∷ 0xaa ∷ 0xaa ∷ []

abbrev pub status_svc_uuid : Bytes
status_svc_uuid =
    0xaa ∷ 0xaa ∷ 0xaa ∷ 0xaa ∷ 0xaa ∷ 0xaa ∷ 0x32 ∷ 0x43 ∷ 0x54 ∷ 0x65 ∷ 0x76 ∷ 0x87 ∷ 0xaa ∷ 0xaa
    ∷ 0xaa ∷ 0xaa ∷ []

abbrev pub auth_uuid : Bytes
auth_uuid =
    0x20 ∷ 0x20 ∷ 0x20 ∷ 0x20 ∷ 0x20 ∷ 0x20 ∷ 0x20 ∷ 0x20 ∷ 0x30 ∷ 0x30 ∷ 0x30 ∷ 0x30 ∷ 0x30 ∷ 0x30
    ∷ 0x30 ∷ 0x30 ∷ []

-- the characteristics of the dials, which differ in their first two bytes
abbrev dial_uuid : ℕ → ℕ → Bytes
dial_uuid first second =
    first ∷ second ∷ 0xbe ∷ 0xef ∷ 0xef ∷ 0xbe ∷ 0xad ∷ 0xde ∷ 0x90 ∷ 0xab ∷ 0xcd ∷ 0xef ∷ 0xfe
    ∷ 0xdc ∷ 0xba ∷ 0x98 ∷ []

abbrev pub ctrl_uuid : Dial → Bytes
ctrl_uuid rpm = dial_uuid 0x01 0xc7
ctrl_uuid angle = dial_uuid 0x02 0xc7
ctrl_uuid light = dial_uuid 0x03 0xc7
ctrl_uuid power = dial_uuid 0x04 0xc7

abbrev pub stat_uuid : Dial → Bytes
stat_uuid rpm = dial_uuid 0x01 0x57
stat_uuid angle = dial_uuid 0x02 0x57
stat_uuid light = dial_uuid 0x03 0x57
stat_uuid power = dial_uuid 0x04 0x57

abbrev pub packet_uuid : Bytes
packet_uuid =
    0x10 ∷ 0x10 ∷ 0x10 ∷ 0x10 ∷ 0x10 ∷ 0x10 ∷ 0x10 ∷ 0x10 ∷ 0x20 ∷ 0x20 ∷ 0x20 ∷ 0x20 ∷ 0x30 ∷ 0x30
    ∷ 0x30 ∷ 0x30 ∷ []

abbrev pub gatt_svr_chr_uuid : Bytes
gatt_svr_chr_uuid =
    0x00 ∷ 0x00 ∷ 0x00 ∷ 0x00 ∷ 0x11 ∷ 0x11 ∷ 0x11 ∷ 0x11 ∷ 0x22 ∷ 0x22 ∷ 0x22 ∷ 0x22 ∷ 0x33 ∷ 0x33
    ∷ 0x33 ∷ 0x33 ∷ []

abbrev pub gatt_svr_dsc_uuid : Bytes
gatt_svr_dsc_uuid =
    0x01 ∷ 0x01 ∷ 0x01 ∷ 0x01 ∷ 0x12 ∷ 0x12 ∷ 0x12 ∷ 0x12 ∷ 0x23 ∷ 0x23 ∷ 0x23 ∷ 0x23 ∷ 0x34 ∷ 0x34
    ∷ 0x34 ∷ 0x34 ∷ []

abbrev pub no_flags : Flags
no_flags = record {
  read = false;
  write = false;
  write_no_rsp = false;
  notify = false;
  indicate = false;
}

abbrev ctrl_chr : Dial → ChrDef
ctrl_chr d = record {
  uuid = ctrl_uuid d;
  val_handle = ctrl d;
  flags = record no_flags { read = true; write = true };
  descriptors = [];
}

abbrev pub control_chrs_local : List ChrDef
control_chrs_local =
    ctrl_chr rpm
    ∷ ctrl_chr angle
    ∷ ctrl_chr light
    ∷ ctrl_chr power
    ∷ record {
      uuid = auth_uuid;
      val_handle = auth_char_handle;
      flags = record no_flags { read = true; write = true; notify = true };
      descriptors = [];
    }
    ∷ record {
      uuid = packet_uuid;
      val_handle = packet_handle;
      flags = record no_flags { write = true; write_no_rsp = true };
      descriptors = [];
    }
    ∷ []

abbrev stat_chr : Dial → ChrDef
stat_chr d = record {
  uuid = stat_uuid d;
  val_handle = stat d;
  flags = record no_flags { read = true; notify = true };
  descriptors = [];
}

abbrev pub status_chrs_local : List ChrDef
status_chrs_local = stat_chr rpm ∷ stat_chr angle ∷ stat_chr light ∷ stat_chr power ∷ []

abbrev pub gatt_svr_chrs : List ChrDef
gatt_svr_chrs =
    record {
      uuid = gatt_svr_chr_uuid;
      val_handle = gatt_svr_chr_val_handle;
      flags = record no_flags { read = true; write = true; notify = true; indicate = true };
      descriptors = record { uuid = gatt_svr_dsc_uuid; att_read = true } ∷ [];
    }
    ∷ []

abbrev pub gatt_svr_svcs : List SvcDef
gatt_svr_svcs =
    record { uuid = gatt_svr_svc_uuid; characteristics = gatt_svr_chrs }
    ∷ record { uuid = control_svc_uuid; characteristics = control_chrs_local }
    ∷ record { uuid = status_svc_uuid; characteristics = status_chrs_local }
    ∷ []

-- ble_gatts_count_cfg and ble_gatts_add_svcs on a table; 0 is success.
pub record GattStack : Type 0 where
  pub count_cfg : List SvcDef → ℕ
  pub add_svcs : List SvcDef → ℕ

-- The result code and the world. An error ends it.
unfoldable pub gatt_svr_init : GattStack → World → ℕ × World
gatt_svr_init g w =
    if not (g.count_cfg gatt_svr_svcs == 0)
    then (g.count_cfg gatt_svr_svcs, w)
    else if not (g.add_svcs gatt_svr_svcs == 0)
    then (g.add_svcs gatt_svr_svcs, w)
    else (0, record w { dsc_val = 0x99 })

-- `op` of the context of a registration
pub data RegisterOp : Type 0 where
  svc chr dsc other_op : RegisterOp

-- Every known registration is logged; `none` is the failed assertion.
unfoldable pub gatt_svr_register_cb : RegisterOp → World → Option World
gatt_svr_register_cb svc w = some w
gatt_svr_register_cb chr w = some w
gatt_svr_register_cb dsc w = some w
gatt_svr_register_cb other_op w = none
