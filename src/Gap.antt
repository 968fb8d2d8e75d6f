-- ===== src/Gap.antt =====
-- main/main.c: `bleprph_gap_event`, the callback for the events of BLE connections. The results of
-- NimBLE's calls come with the event: whether `ble_gap_conn_find` knows the connection, and the
-- code of `ble_gap_adv_set_fields`.
pub mod Safety
pub mod Start
pub mod Booted
pub mod Control
pub mod Sound
pub mod Printing
pub mod Sessions
pub mod Proved
pub mod Expiry
mod Tests
use air_shifter_rough.Common.{
  ℕ, suc, ◌+◌, Bool, true, false, Option, none, some, List, [], ◌∷◌, ◌==◌, if◌then◌else◌,
}
use air_shifter_rough.Security.{sec_on_connect, sec_clear_conn}
use air_shifter_rough.Biz.{biz_clear_auth}
use air_shifter_rough.Gatt.{World}

pub data GapEvent : Type 0 where
  -- the status, the handle, and whether the connection is known
  connect : ℕ → ℕ → Bool → GapEvent
  disconnect : ℕ → GapEvent
  conn_update : ℕ → Bool → GapEvent
  adv_complete : GapEvent
  enc_change : ℕ → Bool → GapEvent
  repeat_pairing : ℕ → Bool → GapEvent
  subscribe mtu other_event : GapEvent

pub record Device : Type 0 where
  pub world : World
  -- the calls of `ble_gap_adv_start`
  pub adv_starts : ℕ
  -- the connections whose peer's bond was deleted, latest first
  pub deleted_bonds : List ℕ

-- Fields that cannot be set end the attempt. The contents of the fields and the parameters are left
-- out.
unfoldable pub bleprph_advertise : Bool → Device → Device
bleprph_advertise fields_set d =
    if fields_set then record d { adv_starts = d.adv_starts + 1 } else d

pub data Reply : Type 0 where
  ok retry_pairing : Reply

-- `none` is a failed assertion.
abbrev assert : Bool → Reply → Device → Option (Reply × Device)
assert known reply d = if known then some (reply, d) else none

-- an established connection, once the device advertises again
abbrev opened : ℕ → (ℕ → ℕ) → Bool → ℕ → Device → Option (Reply × Device)
opened us random known h d =
    assert known ok
      (record d { world = record (d.world) { sec = sec_on_connect us random h d.world.sec } })

unfoldable pub bleprph_gap_event : ℕ → (ℕ → ℕ) → Bool → GapEvent → Device → Option (Reply × Device)
unfolding bleprph_advertise
bleprph_gap_event us random adv (connect status h known) d =
    if status == 0
    then opened us random known h (bleprph_advertise adv d)
    else some (ok, bleprph_advertise adv d)
bleprph_gap_event us random adv (disconnect h) d = some (
  ok,
  bleprph_advertise adv (record d {
    world = record (d.world) {
      sec = sec_clear_conn h d.world.sec;
      biz = biz_clear_auth h d.world.biz;
    };
  }),
)
bleprph_gap_event us random adv (conn_update h known) d = assert known ok d
bleprph_gap_event us random adv adv_complete d = some (ok, bleprph_advertise adv d)
bleprph_gap_event us random adv (enc_change h known) d = assert known ok d
bleprph_gap_event us random adv (repeat_pairing h known) d =
    assert known retry_pairing (record d { deleted_bonds = h ∷ d.deleted_bonds })
bleprph_gap_event us random adv subscribe d = some (ok, d)
bleprph_gap_event us random adv mtu d = some (ok, d)
bleprph_gap_event us random adv other_event d = some (ok, d)
