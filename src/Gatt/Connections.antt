-- ===== src/Gatt/Connections.antt =====
-- main/gatt_svr.c: the table `conn_handles` of active connections.
use mathlib.Core.Option
use air_shifter_rough.Common.{
  ℕ, suc, ◌+◌, not, Option, none, some, List, [], ◌∷◌, ◌==◌, if◌then◌else◌, set, replicate,
}
use air_shifter_rough.Biz.{handle_none}

abbrev pub max_connections : ℕ
max_connections = 2

-- `conn_handles` at its declaration
abbrev pub no_connections : List ℕ
no_connections = replicate max_connections handle_none

-- the first index whose entry is `h`; `none` is -1
unfoldable pub get_connection_index : ℕ → List ℕ → Option ℕ
get_connection_index h [] = none
get_connection_index h (c ∷ cs) =
    if c == h then some 0 else Option.map suc (get_connection_index h cs)

-- The loop stops at the first free entry, which it fills; the index is the result.
unfoldable pub add_connection_handle : ℕ → List ℕ → Option ℕ × List ℕ
unfolding get_connection_index
add_connection_handle h cs = elim (get_connection_index handle_none cs) [
  | none ↦ (none, cs)
  | some i ↦ (some i, set cs i h)
]

unfoldable pub remove_connection_handle : ℕ → List ℕ → List ℕ
remove_connection_handle h [] = []
remove_connection_handle h (c ∷ cs) =
    (if c == h then handle_none else c) ∷ remove_connection_handle h cs

unfoldable pub count_active_connections : List ℕ → ℕ
count_active_connections [] = 0
count_active_connections (c ∷ cs) =
    (if not (c == handle_none) then 1 else 0) + count_active_connections cs
