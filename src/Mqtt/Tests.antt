-- ===== src/Mqtt/Tests.antt =====
-- A run of main/mqtt.c, and the theorem at it.
use air_shifter_rough.Mqtt.Items.{
  Heap, Item, PropertyApi, PropertyLaws, occurs, print_user_property, print_user_property-frees,
}
use mathlib.Core.Path.{subst}
use air_shifter_rough.Common.{
  Bytes, ◌↔◌, length, ℕ, ◌+◌, ap, sym, ◌∙◌, Option, none, arith, List, [], ◌∷◌, ◌≡◌, refl, true,
  false, some, pos, negsuc,
}
use air_shifter_rough.Mqtt.Console.{read_line, read_line_unterminated_iff}
use air_shifter_rough.Mqtt.{
  MqttEvent, mqtt_connected, mqtt_subscribed, mqtt_unsubscribed, subscribing,
}
use air_shifter_rough.Mqtt.Balance.{IsBalanced, mqtt_run, mqtt_run-IsBalanced}

-- latest first
abbrev history : List MqttEvent
history = mqtt_unsubscribed ∷ mqtt_subscribed ∷ mqtt_connected ∷ []

mqtt_run-IsBalanced_example : IsBalanced subscribing (mqtt_run history)
mqtt_run-IsBalanced_example = mqtt_run-IsBalanced subscribing history

-- "a", a character that is dropped, and a newline
short_line : read_line 128 (pos 97 ∷ pos 200 ∷ negsuc 0 ∷ pos 10 ∷ []) ≡ some (97 ∷ [], true)
unfolding read_line
short_line = refl

-- A buffer that is full ends the reading without a NUL.
full_line : read_line 2 (pos 97 ∷ pos 98 ∷ pos 10 ∷ []) ≡ some (97 ∷ 98 ∷ [], false)
unfolding read_line
full_line = refl

abbrev two_letters : Bytes
two_letters = 97 ∷ 98 ∷ []

read_line_unterminated_iff_example : (false ≡ false) ↔ (length two_letters ≡ 2)
read_line_unterminated_iff_example =
    read_line_unterminated_iff 2 (pos 97 ∷ pos 98 ∷ pos 10 ∷ []) two_letters false full_line

abbrev from : {A : Type 0} → A → Option A → A
from d none = d
from d (some a) = a

abbrev entries : List Item
entries = record { key = 10; value = 20 } ∷ record { key = 30; value = 40 } ∷ []

-- a list with two entries
abbrev two : PropertyApi
two = record {
  count = 2;
  malloc = λ h. some 50;
  get = λ item n h. (some entries, λ b. h b + occurs b entries);
}

two-PropertyLaws : PropertyLaws two
two-PropertyLaws = record {
  given = λ item h items after e b.
      ap (λ r. r.1 b) (sym e) ∙ ap (λ ts. h b + occurs b ts) (ap (λ r. from entries r.0) e);
  refused = λ item h after e. absurd (ground arith);
}

print_user_property-frees_example :
    (after : Heap) × (print_user_property (some two) (λ b. 0) ≡ some after)
    × ((b : ℕ) → after b ≡ 0)
print_user_property-frees_example =
    print_user_property-frees (some two) (λ b. 0)
      (λ api e. subst PropertyLaws (ap (λ o. from two o) e) two-PropertyLaws)
