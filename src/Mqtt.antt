-- ===== src/Mqtt.antt =====
-- main/mqtt.c: `mqtt5_app_start` and `mqtt5_event_handler`. The calls of the MQTT client are
-- recorded, latest first; a call that gives a client an allocated list of user properties sets
-- the pointer of its holder.
pub mod Balance
pub mod Console
pub mod Items
mod Tests
use air_shifter_rough.Common.{ℕ, Bool, true, false, List, [], ◌∷◌, Bytes, codes, if◌then◌else◌}

-- the structures with a field `user_property`; the connection has one for itself and one for its will
pub data Holder : Type 0 where
  connection will publishing subscribing subscribing1 disconnecting : Holder

pub data ClientCall : Type 0 where
  client_init set_connect_property register_event client_start client_disconnect : ClientCall
  set_user_property set_property delete_user_property : Holder → ClientCall
  -- topic, data, length, QoS and retain
  client_publish : Bytes → Bytes → ℕ → ℕ → Bool → ClientCall
  -- topic and QoS
  client_subscribe : Bytes → ℕ → ClientCall

-- the pointer `user_property` of a holder: to nothing, to a list, or to a list that was deleted
pub data Pointer : Type 0 where
  null allocated dangling : Pointer

pub record Mqtt : Type 0 where
  pub user_property : Holder → Pointer
  pub calls : List ClientCall

abbrev pub mqtt_at_boot : Mqtt
mqtt_at_boot = record { user_property = λ h. null; calls = [] }

abbrev pub same_holder : Holder → Holder → Bool
same_holder connection connection = true
same_holder will will = true
same_holder publishing publishing = true
same_holder subscribing subscribing = true
same_holder subscribing1 subscribing1 = true
same_holder disconnecting disconnecting = true
same_holder _ _ = false

abbrev pub call : ClientCall → Mqtt → Mqtt
call c m = record m { calls = c ∷ m.calls }

abbrev pub set_user : Holder → Mqtt → Mqtt
set_user h m = record {
  user_property = λ k. if same_holder h k then allocated else m.user_property k;
  calls = set_user_property h ∷ m.calls;
}

abbrev pub delete_user : Holder → Mqtt → Mqtt
delete_user h m = record {
  user_property = λ k. if same_holder h k then dangling else m.user_property k;
  calls = delete_user_property h ∷ m.calls;
}

-- the assignment of NULL behind the deletion
abbrev pub clear_user : Holder → Mqtt → Mqtt
clear_user h m = record m {
  user_property = λ k. if same_holder h k then null else m.user_property k;
}

-- The holders of the connection are not assigned NULL.
unfoldable pub mqtt5_app_start : Mqtt → Mqtt
mqtt5_app_start m =
    let prepared = set_user will (set_user connection (call client_init m)) in
    let cleaned = delete_user will (delete_user connection (call set_connect_property prepared)) in
    call client_start (call register_event cleaned)

pub data MqttEvent : Type 0 where
  mqtt_connected mqtt_disconnected mqtt_subscribed mqtt_unsubscribed : MqttEvent
  mqtt_published mqtt_data mqtt_error mqtt_other : MqttEvent

-- A subscription with user properties of its own.
abbrev pub subscribe_with : Holder → Bytes → ℕ → Mqtt → Mqtt
subscribe_with h topic qos m =
    clear_user h
      (delete_user h (call (client_subscribe topic qos) (call (set_property h) (set_user h m))))

abbrev pub publish_with : Holder → Bytes → Bytes → Mqtt → Mqtt
publish_with h topic data' m = clear_user h (
    delete_user h
      (call (client_publish topic data' 0 1 true) (call (set_property h) (set_user h m))))

unfoldable pub mqtt5_event_handler : MqttEvent → Mqtt → Mqtt
mqtt5_event_handler mqtt_connected m = subscribe_with subscribing1 (codes "/topic/qos1") 2 (
    subscribe_with subscribing (codes "/topic/qos0") 0
      (publish_with publishing (codes "/topic/qos1") (codes "data_3") m))
mqtt5_event_handler mqtt_subscribed m =
    call (client_publish (codes "/topic/qos0") (codes "data") 0 0 false)
      (call (set_property publishing) m)
mqtt5_event_handler mqtt_unsubscribed m = call client_disconnect (
    clear_user disconnecting
      (delete_user disconnecting (call (set_property disconnecting) (set_user disconnecting m))))
mqtt5_event_handler mqtt_disconnected m = m
mqtt5_event_handler mqtt_published m = m
mqtt5_event_handler mqtt_data m = m
mqtt5_event_handler mqtt_error m = m
mqtt5_event_handler mqtt_other m = m
