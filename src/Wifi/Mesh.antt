-- ===== src/Wifi/Mesh.antt =====
-- main/wifi_manager.c: `mesh_event_handler`, the callback for the events of ESP-WIFI-MESH.
use air_shifter_rough.Common.{
  ℕ, ◌+◌, ◌≡◌, ◌↔◌, refl, ap, Bool, true, false, List, [], ◌∷◌, ◌++◌, Bytes, ℤ, negsuc, to_unsigned,
  if◌then◌else◌, replicate, All,
}

-- The cases of the handler's switch that only log, the default among them.
pub data MeshNotice : Type 0 where
  child_connected child_disconnected routing_table_add routing_table_remove : MeshNotice
  no_parent_found root_address vote_started vote_stopped root_switch_req : MeshNotice
  tods_state root_fixed root_asked_yield channel_switch scan_done network_state : MeshNotice
  stop_reconnection find_network router_switch ps_parent_duty ps_child_duty : MeshNotice
  other_mesh_event : MeshNotice

-- The other cases. A connection to a parent comes with the layer and the parent's address, a change of
-- layer with the new layer.
pub data MeshEvent : Type 0 where
  mesh_started mesh_stopped parent_disconnected root_switch_ack : MeshEvent
  parent_connected : ℤ → Bytes → MeshEvent
  layer_change : ℤ → MeshEvent
  notice : MeshNotice → MeshEvent

-- What the calls of ESP-WIFI-MESH give during one event.
pub record MeshCalls : Type 0 where
  pub layer : ℤ
  pub is_root : Bool
  pub parent_bssid : Bytes

-- the static variables, and the restarts of the DHCP client
pub record Mesh : Type 0 where
  pub is_mesh_connected : Bool
  pub mesh_layer : ℤ
  pub mesh_parent_addr : Bytes
  pub last_layer : ℕ
  pub dhcp_restarts : ℕ

abbrev pub mesh_at_boot : Mesh
mesh_at_boot = record {
  is_mesh_connected = false;
  mesh_layer = negsuc 0;
  mesh_parent_addr = replicate 6 0;
  last_layer = 0;
  dhcp_restarts = 0;
}

unfoldable pub mesh_event_handler : MeshCalls → MeshEvent → Mesh → Mesh
mesh_event_handler c mesh_started m = record m { is_mesh_connected = false; mesh_layer = c.layer }
mesh_event_handler c mesh_stopped m = record m { is_mesh_connected = false; mesh_layer = c.layer }
mesh_event_handler c (parent_connected layer bssid) m = record {
  is_mesh_connected = true;
  mesh_layer = layer;
  mesh_parent_addr = bssid;
  last_layer = to_unsigned 16 layer;
  dhcp_restarts = if c.is_root then m.dhcp_restarts + 1 else m.dhcp_restarts;
}
mesh_event_handler c parent_disconnected m = record m {
  is_mesh_connected = false;
  mesh_layer = c.layer;
}
mesh_event_handler c (layer_change layer) m = record m {
  mesh_layer = layer;
  last_layer = to_unsigned 16 layer;
}
mesh_event_handler c root_switch_ack m = record m {
  mesh_layer = c.layer;
  mesh_parent_addr = c.parent_bssid;
}
mesh_event_handler c (notice n) m = m

-- Events, latest first, each with the results of the calls that it made.
pub record Happened : Type 0 where
  pub during : MeshCalls
  pub event : MeshEvent

unfoldable pub mesh_run : List Happened → Mesh
mesh_run [] = mesh_at_boot
mesh_run (e ∷ past) = mesh_event_handler e.during e.event (mesh_run past)

abbrev IsKeeping : MeshEvent → Type 0
IsKeeping mesh_started = ⊥
IsKeeping mesh_stopped = ⊥
IsKeeping parent_disconnected = ⊥
IsKeeping _ = Unit {0}

-- The event does not end a connection to a parent.
abbrev pub KeepsParent : Happened → Type 0
KeepsParent e = IsKeeping e.event

-- A history in which a parent was connected, and nothing since then ended that.
abbrev pub HasParent : List Happened → Type 0
HasParent past =
    (later : List Happened) × (calls : MeshCalls) × (layer : ℤ) × (bssid : Bytes) × (earlier : List
      Happened)
    × (past ≡ later ++ record { during = calls; event = parent_connected layer bssid } ∷ earlier)
    × All KeepsParent later

keeping :
    (c : MeshCalls) (e : MeshEvent) (m : Mesh)
    → IsKeeping e
    → m.is_mesh_connected ≡ true
    → (mesh_event_handler c e m).is_mesh_connected ≡ true
unfolding mesh_event_handler
keeping c mesh_started m k t = absurd k
keeping c mesh_stopped m k t = absurd k
keeping c parent_disconnected m k t = absurd k
keeping c (parent_connected layer bssid) m k t = refl
keeping c _ m k t = t

-- what came before a connected state
data Reason (e : MeshEvent) (m : Mesh) : Type 0 where
  joined : (layer : ℤ) (bssid : Bytes) → e ≡ parent_connected layer bssid → Reason e m
  kept : IsKeeping e → m.is_mesh_connected ≡ true → Reason e m

reason :
    (c : MeshCalls) (e : MeshEvent) (m : Mesh)
    → (mesh_event_handler c e m).is_mesh_connected ≡ true
    → Reason e m
unfolding mesh_event_handler
reason c mesh_started m t = absurd cc
reason c mesh_stopped m t = absurd cc
reason c parent_disconnected m t = absurd cc
reason c (parent_connected layer bssid) m t = joined layer bssid refl
reason c _ m t = kept tt t

connected-HasParent :
    (past : List Happened) → (mesh_run past).is_mesh_connected ≡ true → HasParent past
unfolding mesh_run
connected-HasParent [] t = absurd cc
connected-HasParent (e ∷ past) t = elim (reason e.during e.event (mesh_run past) t) [
  | joined layer bssid x ↦
      ([], e.during, layer, bssid, past, ap (λ y. record e { event = y } ∷ past) x, tt)
  | kept k before ↦
      let (later, calls, layer, bssid, earlier, split, all) = connected-HasParent past before in
      (e ∷ later, calls, layer, bssid, earlier, ap (◌∷◌ e) split, (k, all))
]

connected_since :
    (later : List Happened) (calls : MeshCalls) (layer : ℤ) (bssid : Bytes)
    (earlier : List Happened)
    → All KeepsParent later
    → (mesh_run (
        later
        ++ record { during = calls; event = parent_connected layer bssid }
          ∷ earlier)).is_mesh_connected
      ≡ true
unfolding mesh_run mesh_event_handler
connected_since [] calls layer bssid earlier k = refl
connected_since (e ∷ later) calls layer bssid earlier k =
    keeping e.during e.event _ k.0 (connected_since later calls layer bssid earlier k.1)

-- After any events of the mesh, is_mesh_connected is true exactly when at some point a parent was
-- connected and since then the mesh was not started, stopped or disconnected from its parent.
pub is_mesh_connected_iff :
    (past : List Happened) → ((mesh_run past).is_mesh_connected ≡ true) ↔ HasParent past
is_mesh_connected_iff past = (
  connected-HasParent past,
  λ (later, calls, layer, bssid, earlier, split, k).
      rw split (connected_since later calls layer bssid earlier k),
)
