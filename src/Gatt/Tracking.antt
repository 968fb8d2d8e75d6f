-- ===== src/Gatt/Tracking.antt =====
-- The table of connections of main/gatt_svr.c: what its four functions say of each other.
mod Tests
use air_shifter_rough.Common.{
  ℕ, zero, suc, ◌+◌, ◌≡◌, ◌≢◌, ◌⊎◌, inl, inr, refl, sym, false, none, some, List, [], ◌∷◌, arith,
  ◌==◌, ==_no, ==_self, Bool-cases, Option-cases, set, length,
}
use air_shifter_rough.Biz.{handle_none}
use air_shifter_rough.Gatt.Connections.{
  get_connection_index, add_connection_handle, remove_connection_handle, count_active_connections,
}

-- A table without a free entry is all active.
count_full :
    (cs : List ℕ)
    → get_connection_index handle_none cs ≡ none
    → count_active_connections cs ≡ length cs
unfolding get_connection_index count_active_connections
count_full [] e = refl
count_full (c ∷ cs) e = let ih = count_full cs in ground arith

-- Filling a free entry adds one, and the handle is then found.
count_filled :
    (h i : ℕ) (cs : List ℕ)
    → (h == handle_none) ≡ false
    → get_connection_index handle_none cs ≡ some i
    → (count_active_connections (set cs i h) ≡ count_active_connections cs + 1)
      × ((j : ℕ) × (get_connection_index h (set cs i h) ≡ some j))
unfolding get_connection_index count_active_connections
count_filled h i [] ne e = absurd cc
count_filled h zero (c ∷ cs) ne e = let same = ==_self h in (ground arith, (0, ground arith))
count_filled h (suc i) (c ∷ cs) ne e =
    let rest : get_connection_index handle_none cs ≡ some i = ground arith in
    let (counted, (j, found)) = count_filled h i cs ne rest in
    (
      ground arith,
      elim (Bool-cases (c == h)) [
        | inl here ↦ (0, ground arith)
        | inr later ↦ (suc j, ground arith)
      ],
    )

removed_none :
    (h : ℕ) (cs : List ℕ)
    → (handle_none == h) ≡ false
    → get_connection_index h (remove_connection_handle h cs) ≡ none
unfolding get_connection_index remove_connection_handle
removed_none h [] ne = refl
removed_none h (c ∷ cs) ne = let ih = removed_none h cs ne in ground arith

-- For a handle other than BLE_HS_CONN_HANDLE_NONE, either add_connection_handle gives -1, changes
-- nothing, and every entry of the table is active; or the number of active connections grows by
-- one, the handle has an index, and after remove_connection_handle it has none.
pub add_connection_handle_counts :
    (h : ℕ) (cs : List ℕ)
    → h ≢ handle_none
    → (((add_connection_handle h cs).0 ≡ none)
        × ((add_connection_handle h cs).1 ≡ cs)
        × (count_active_connections cs ≡ length cs))
      ⊎ ((count_active_connections (add_connection_handle h cs).1 ≡ count_active_connections cs + 1)
          × ((j : ℕ) × (get_connection_index h (add_connection_handle h cs).1 ≡ some j))
          × (get_connection_index h (remove_connection_handle h (add_connection_handle h cs).1)
              ≡ none))
unfolding add_connection_handle
add_connection_handle_counts h cs ne = elim (Option-cases (get_connection_index handle_none cs)) [
  | inl e ↦ inl (rw (e, add_connection_handle) (refl, refl, count_full cs e))
  | inr (i, e) ↦
      let (counted, found) = count_filled h i cs (==_no h handle_none ne) e in
      inr (
        rw (e, add_connection_handle)
          (counted, found, removed_none h (set cs i h) (==_no handle_none h (λ x. ne (sym x)))))
]
