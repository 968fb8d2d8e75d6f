-- ===== src/Gatt/Registered.antt =====
-- main/gatt_svr.c: the handles that the registration of the table leaves in the variables.
use air_shifter_rough.Common.{ℕ, ◌≡◌, refl, false, List, ◌++◌, ◌==◌}
use air_shifter_rough.Biz.Setters.{rpm, angle, light, power}
use air_shifter_rough.Gatt.Services.{
  Variable, ctrl, stat, auth_char_handle, packet_handle, gatt_svr_chr_val_handle, ChrDef,
  gatt_svr_chrs, control_chrs_local, status_chrs_local,
}
use air_shifter_rough.Gatt.ReadBack.{ctrl_handle, stat_handle, AreDistinct}
use air_shifter_rough.Gatt.{World}

abbrev pub load : Variable → World → ℕ
load (ctrl d) w = ctrl_handle d w
load (stat d) w = stat_handle d w
load auth_char_handle w = w.sec.auth_char_handle
load packet_handle w = w.packet_handle
load gatt_svr_chr_val_handle w = w.gatt_svr_chr_val_handle

-- the characteristics in the order of the table
abbrev pub all_chrs : List ChrDef
all_chrs = gatt_svr_chrs ++ control_chrs_local ++ status_chrs_local

-- the number of a variable's characteristic in the table
abbrev pub place : Variable → ℕ
place gatt_svr_chr_val_handle = 0
place (ctrl rpm) = 1
place (ctrl angle) = 2
place (ctrl light) = 3
place (ctrl power) = 4
place auth_char_handle = 5
place packet_handle = 6
place (stat rpm) = 7
place (stat angle) = 8
place (stat light) = 9
place (stat power) = 10

-- Different characteristics have different handles.
abbrev pub Separates : World → Type 0
Separates w = (u v : Variable) → (place u == place v) ≡ false → (load u w == load v w) ≡ false

-- Characteristic number `i` of the table has the handle `attr i`, which its variable holds.
abbrev pub Holds : (ℕ → ℕ) → World → Type 0
Holds attr w = (v : Variable) → load v w ≡ attr (place v)

-- The stack gives no handle twice.
abbrev pub GivesOnce : (ℕ → ℕ) → Type 0
GivesOnce attr = (i j : ℕ) → (i == j) ≡ false → (attr i == attr j) ≡ false

pub Holds-Separates : (attr : ℕ → ℕ) (w : World) → Holds attr w → GivesOnce attr → Separates w
Holds-Separates attr w holds once u v ne = rw (holds u, holds v) (once (place u) (place v) ne)

pub Separates-AreDistinct : (w : World) → Separates w → AreDistinct w
Separates-AreDistinct w d = (
  (
    d (ctrl rpm) auth_char_handle refl,
    (
      d (ctrl angle) auth_char_handle refl,
      (
        d (ctrl light) auth_char_handle refl,
        (
          d (ctrl power) auth_char_handle refl,
          (
            d (stat rpm) auth_char_handle refl,
            (
              d (stat angle) auth_char_handle refl,
              (d (stat light) auth_char_handle refl, (d (stat power) auth_char_handle refl, tt)),
            ),
          ),
        ),
      ),
    ),
  ),
  (
    (
      d (ctrl angle) (ctrl rpm) refl,
      (
        d (ctrl light) (ctrl rpm) refl,
        (
          d (ctrl power) (ctrl rpm) refl,
          (
            d (stat rpm) (ctrl rpm) refl,
            (
              d (stat angle) (ctrl rpm) refl,
              (d (stat light) (ctrl rpm) refl, (d (stat power) (ctrl rpm) refl, tt)),
            ),
          ),
        ),
      ),
    ),
    (
      (
        d (ctrl light) (ctrl angle) refl,
        (
          d (ctrl power) (ctrl angle) refl,
          (
            d (stat rpm) (ctrl angle) refl,
            (
              d (stat angle) (ctrl angle) refl,
              (d (stat light) (ctrl angle) refl, (d (stat power) (ctrl angle) refl, tt)),
            ),
          ),
        ),
      ),
      (
        (
          d (ctrl power) (ctrl light) refl,
          (
            d (stat rpm) (ctrl light) refl,
            (
              d (stat angle) (ctrl light) refl,
              (d (stat light) (ctrl light) refl, (d (stat power) (ctrl light) refl, tt)),
            ),
          ),
        ),
        (
          (
            d (stat rpm) (ctrl power) refl,
            (
              d (stat angle) (ctrl power) refl,
              (d (stat light) (ctrl power) refl, (d (stat power) (ctrl power) refl, tt)),
            ),
          ),
          (
            (
              d (stat angle) (stat rpm) refl,
              (d (stat light) (stat rpm) refl, (d (stat power) (stat rpm) refl, tt)),
            ),
            (
              (d (stat light) (stat angle) refl, (d (stat power) (stat angle) refl, tt)),
              ((d (stat power) (stat light) refl, tt), (tt, tt)),
            ),
          ),
        ),
      ),
    ),
  ),
)
