-- ===== src/Mqtt/Balance.antt =====
-- main/mqtt.c: the allocations and deletions of user properties over a run of the client.
use air_shifter_rough.Common.{
  ◌≡◌, refl, Bool, true, false, Option, none, some, List, [], ◌∷◌, arith, if◌then◌else◌,
}
use air_shifter_rough.Mqtt.{
  Holder, connection, will, ClientCall, set_user_property, delete_user_property, Pointer, null,
  dangling, Mqtt, mqtt_at_boot, same_holder, mqtt5_app_start, MqttEvent, mqtt_connected,
  mqtt_subscribed, mqtt_unsubscribed, mqtt5_event_handler,
}

-- an allocation needs that there is no list, a deletion that there is one
abbrev alternate : Bool → Option Bool → Option Bool
alternate true (some false) = some true
alternate false (some true) = some false
alternate _ _ = none

-- Whether the holder has a list after the calls, the latest first; `none` once an allocation lost a
-- list or a deletion had none.
abbrev pub holding : Holder → List ClientCall → Option Bool
holding h [] = some false
holding h (set_user_property k ∷ past) =
    let before = holding h past in if same_holder k h then alternate true before else before
holding h (delete_user_property k ∷ past) =
    let before = holding h past in if same_holder k h then alternate false before else before
holding h (_ ∷ past) = holding h past

-- the pointers that mqtt5_app_start leaves behind, and those of the handler
abbrev pub left_pointer : Holder → Pointer
left_pointer connection = dangling
left_pointer will = dangling
left_pointer _ = null

-- The calls alternate, the last list is deleted, and no pointer of the handler is left to it.
pub record IsBalanced (h : Holder) (m : Mqtt) : Type 0 where
  pub pointer : m.user_property h ≡ left_pointer h
  pub released : holding h m.calls ≡ some false

-- the client was started, and then there were these events, latest first
unfoldable pub mqtt_run : List MqttEvent → Mqtt
unfolding mqtt5_app_start mqtt5_event_handler
mqtt_run [] = mqtt5_app_start mqtt_at_boot
mqtt_run (e ∷ past) = mqtt5_event_handler e (mqtt_run past)

start-IsBalanced : (h : Holder) → IsBalanced h (mqtt5_app_start mqtt_at_boot)
unfolding mqtt5_app_start
start-IsBalanced connection = record { pointer = refl; released = refl }
start-IsBalanced _ = record { pointer = refl; released = refl }

handler-IsBalanced :
    (h : Holder) (e : MqttEvent) (m : Mqtt)
    → IsBalanced h m
    → IsBalanced h (mqtt5_event_handler e m)
unfolding mqtt5_event_handler
handler-IsBalanced connection mqtt_connected m b = record {
  pointer = ground (arith, b.pointer);
  released = rw b.released refl;
}
handler-IsBalanced _ mqtt_connected m b = record {
  pointer = ground (arith, b.pointer);
  released = rw b.released refl;
}
handler-IsBalanced connection mqtt_unsubscribed m b = record {
  pointer = ground (arith, b.pointer);
  released = rw b.released refl;
}
handler-IsBalanced _ mqtt_unsubscribed m b = record {
  pointer = ground (arith, b.pointer);
  released = rw b.released refl;
}
handler-IsBalanced h mqtt_subscribed m b = record { pointer = b.pointer; released = b.released }
handler-IsBalanced h _ m b = b

-- After mqtt5_app_start and any events of the client, for each structure that holds user
-- properties: the calls that allocate its list and those that delete it take turns, an allocation
-- first and a deletion last, so no list is lost or deleted twice. The pointer of a structure of the
-- handler is then null; the two of the connection, which mqtt5_app_start does not assign NULL and
-- no later call uses, point to deleted lists.
pub mqtt_run-IsBalanced : (h : Holder) (past : List MqttEvent) → IsBalanced h (mqtt_run past)
unfolding mqtt_run
mqtt_run-IsBalanced h [] = start-IsBalanced h
mqtt_run-IsBalanced h (e ∷ past) =
    handler-IsBalanced h e (mqtt_run past) (mqtt_run-IsBalanced h past)
