-- ===== src/Gatt/ReadBack.antt =====
-- main/gatt_svr.c: the write of a control value and the reads of it, as bytes of the four dials.
use air_shifter_rough.Common.{
  ℕ, ◌^◌, ◌<◌, ◌≡◌, true, false, List, [], ◌∷◌, Bytes, arith, ◌==◌, ==_self, All, length, some, pos,
}
use air_shifter_rough.Platform.{Platform}
use air_shifter_rough.Security.{sec_is_conn_authenticated}
use air_shifter_rough.Security.Nonce.{word_bytes}
use air_shifter_rough.Biz.{Biz, biz_set_rpm, biz_set_angle, biz_set_light, biz_set_power}
use air_shifter_rough.Biz.Setters.{
  Dial, rpm, angle, light, power, command, desired, reported, commands, commands-latest,
}
use air_shifter_rough.Gatt.Guard.{gatt_svc_access-writes}
use air_shifter_rough.Gatt.{
  World, append, byte, success, done, reads_chr, writes_chr, u32_of, read_chr, write_ctrl,
  write_chr, gatt_svc_access, gatt_svr_write_flat,
}

abbrev pub ctrl_handle : Dial → World → ℕ
ctrl_handle rpm w = w.ctrl_handles.rpm
ctrl_handle angle w = w.ctrl_handles.angle
ctrl_handle light w = w.ctrl_handles.light
ctrl_handle power w = w.ctrl_handles.power

abbrev pub stat_handle : Dial → World → ℕ
stat_handle rpm w = w.biz.stat_handles.rpm
stat_handle angle w = w.biz.stat_handles.angle
stat_handle light w = w.biz.stat_handles.light
stat_handle power w = w.biz.stat_handles.power

-- no handle stands twice in the list
abbrev pub Nodup : List ℕ → Type 0
Nodup [] = Unit
Nodup (h ∷ hs) = All (λ k. (k == h) ≡ false) hs × Nodup hs

-- The stack gives each characteristic a handle of its own.
abbrev pub AreDistinct : World → Type 0
AreDistinct w = Nodup (
    w.sec.auth_char_handle
    ∷ ctrl_handle rpm w
    ∷ ctrl_handle angle w
    ∷ ctrl_handle light w
    ∷ ctrl_handle power w
    ∷ stat_handle rpm w
    ∷ stat_handle angle w
    ∷ stat_handle light w
    ∷ stat_handle power w
    ∷ [])

-- the bytes of a value of a dial
abbrev pub encode : Dial → ℕ → Bytes
encode rpm v = word_bytes v
encode angle v = word_bytes v
encode light v = byte v
encode power v = byte v

-- A setter drops a word from 2 ^ 31 on, which is a negative int.
abbrev pub limit : Dial → ℕ
limit rpm = 2 ^ 31
limit angle = 2 ^ 31
limit light = 256
limit power = 256

-- An mbuf that fits a buffer is copied whole, and an empty one takes what is appended.
abbrev pub KeepsBytes : Platform → Type 0
KeepsBytes p =
    ((bs : Bytes) → p.mbuf_to_flat bs (length bs) ≡ some bs)
    × ((bs : Bytes) → p.mbuf_append [] bs ≡ some bs)

u32_of-word_bytes : (v : ℕ) → v < 2 ^ 31 → u32_of (word_bytes v) ≡ v
u32_of-word_bytes v lt = omega (arith, lt)

read_ctrl :
    (p : Platform) (h : ℕ) (d : Dial) (om : Bytes) (w : World)
    → AreDistinct w
    → read_chr p h (ctrl_handle d w) om w ≡ append p om (encode d (desired d w.biz)) w
unfolding read_chr
read_ctrl p h rpm om w n = ground (arith, ==_self (ctrl_handle rpm w))
read_ctrl p h angle om w n = ground (arith, ==_self (ctrl_handle angle w))
read_ctrl p h light om w n = ground (arith, ==_self (ctrl_handle light w))
read_ctrl p h power om w n = ground (arith, ==_self (ctrl_handle power w))

read_stat :
    (p : Platform) (h : ℕ) (d : Dial) (om : Bytes) (w : World)
    → AreDistinct w
    → read_chr p h (stat_handle d w) om w ≡ append p om (encode d (reported d w.biz)) w
unfolding read_chr
read_stat p h rpm om w n = ground (arith, ==_self (stat_handle rpm w))
read_stat p h angle om w n = ground (arith, ==_self (stat_handle angle w))
read_stat p h light om w n = ground (arith, ==_self (stat_handle light w))
read_stat p h power om w n = ground (arith, ==_self (stat_handle power w))

-- A write to a control value runs the setter with the value.
write_ctrl_lem :
    (p : Platform) (us h : ℕ) (d : Dial) (v : ℕ) (w : World)
    → KeepsBytes p
    → AreDistinct w
    → v < limit d
    → sec_is_conn_authenticated us h w.sec ≡ true
    → write_chr p us h (ctrl_handle d w) (encode d v) w
      ≡ (success, record w { biz = command d (pos v) w.biz })
unfolding write_chr write_ctrl gatt_svr_write_flat command
write_ctrl_lem p us h rpm v w k n lt auth =
    let here = ==_self (ctrl_handle rpm w) in
    let back = u32_of-word_bytes v lt in let whole = k.0 (word_bytes v) in ground arith
write_ctrl_lem p us h angle v w k n lt auth =
    let here = ==_self (ctrl_handle angle w) in
    let back = u32_of-word_bytes v lt in let whole = k.0 (word_bytes v) in ground arith
write_ctrl_lem p us h light v w k n lt auth =
    let here = ==_self (ctrl_handle light w) in let whole = k.0 (byte v) in ground arith
write_ctrl_lem p us h power v w k n lt auth =
    let here = ==_self (ctrl_handle power w) in let whole = k.0 (byte v) in ground arith

command-stat_handles :
    (d : Dial) (v : ℕ) (b : Biz) → (command d (pos v) b).stat_handles ≡ b.stat_handles
unfolding command biz_set_rpm biz_set_angle biz_set_light biz_set_power
command-stat_handles rpm v b = ground arith
command-stat_handles angle v b = ground arith
command-stat_handles light v b = ground arith
command-stat_handles power v b = ground arith

pub command-sets :
    (d : Dial) (v : ℕ) (b : Biz)
    → v < limit d
    → (desired d (command d (pos v) b) ≡ v) × (reported d (command d (pos v) b) ≡ v)
unfolding commands
command-sets rpm v b lt =
    let r = commands-latest rpm (record { dial = rpm; value = pos v } ∷ []) b in ground arith
command-sets angle v b lt =
    let r = commands-latest angle (record { dial = angle; value = pos v } ∷ []) b in ground arith
command-sets light v b lt =
    let r = commands-latest light (record { dial = light; value = pos v } ∷ []) b in ground arith
command-sets power v b lt =
    let r = commands-latest power (record { dial = power; value = pos v } ∷ []) b in ground arith

append-empty :
    (p : Platform) (bs : Bytes) (w : World) → KeepsBytes p → append p [] bs w ≡ done success bs w
append-empty p bs w k = let app = k.1 bs in ground arith

-- For each of the four control values: a connection that is authenticated writes the bytes of a
-- value below the limit (2 ^ 31 for rpm and angle, 256 for light and power). The write succeeds and
-- runs the setter with the value, and after it a read by any connection, of the control value or of
-- the status value, gives back the bytes. The nine handles are distinct, an mbuf that fits a buffer
-- is copied whole, and an empty mbuf takes the bytes that are appended.
pub write_then_read :
    (p : Platform) (us us' h h' : ℕ) (d : Dial) (v : ℕ) (w : World)
    → KeepsBytes p
    → AreDistinct w
    → v < limit d
    → sec_is_conn_authenticated us h w.sec ≡ true
    → let w' : World = record w { biz = command d (pos v) w.biz } in
      (gatt_svc_access p us h (ctrl_handle d w) writes_chr (encode d v) w
        ≡ done success (encode d v) w')
      × (gatt_svc_access p us' h' (ctrl_handle d w') reads_chr [] w' ≡ done success (encode d v) w')
      × (gatt_svc_access p us' h' (stat_handle d w') reads_chr [] w' ≡ done success (encode d v) w')
unfolding gatt_svc_access
write_then_read p us us' h h' d v w k n lt auth =
    let w' : World = record w { biz = command d (pos v) w.biz } in
    let kept = command-stat_handles d v w.biz in
    let n' : AreDistinct w' = rw kept n in
    let sets = command-sets d v w.biz lt in
    (
      gatt_svc_access-writes p us h (ctrl_handle d w) (encode d v) w w'
          (write_ctrl_lem p us h d v w k n lt auth),
      rw (read_ctrl p h' d [] w' n', sets.0) (append-empty p (encode d v) w' k),
      rw (read_stat p h' d [] w' n', sets.1) (append-empty p (encode d v) w' k),
    )
