-- ===== src/Gatt/Tracking/Tests.antt =====
-- The table of connections of main/gatt_svr.c with its first connection.
use air_shifter_rough.Common.{ℕ, ◌+◌, ◌⊎◌, ◌≡◌, none, some, arith, length}
use air_shifter_rough.Gatt.Connections.{
  no_connections, get_connection_index, add_connection_handle, remove_connection_handle,
  count_active_connections,
}
use air_shifter_rough.Gatt.Tracking.{add_connection_handle_counts}

add_connection_handle_counts_example :
    (((add_connection_handle 5 no_connections).0 ≡ none)
      × ((add_connection_handle 5 no_connections).1 ≡ no_connections)
      × (count_active_connections no_connections ≡ length no_connections))
    ⊎ ((count_active_connections (add_connection_handle 5 no_connections).1
          ≡ count_active_connections no_connections + 1)
        × ((j : ℕ) × (get_connection_index 5 (add_connection_handle 5 no_connections).1 ≡ some j))
        × (get_connection_index 5
              (remove_connection_handle 5 (add_connection_handle 5 no_connections).1)
            ≡ none))
add_connection_handle_counts_example = add_connection_handle_counts 5 no_connections (omega arith)
