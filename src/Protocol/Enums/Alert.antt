-- ===== src/Protocol/Enums/Alert.antt =====
-- The alert types of src/protocol/enums.rs: the variants, their bytes,
-- and the instances by which `from_u8`, `to_u8` and `==` apply.
use sony_buds_tray_control.Prelude.{ℕ, ◌≡◌, refl, List, [], ◌∷◌}
use sony_buds_tray_control.Protocol.Enums.Macro.{U8Enum, find_variant}

pub data AlertInquiredType : Type 0 where
  fixed_message vibrator_alert_notification fixed_message_with_left_right_selection :
      AlertInquiredType
  voice_assistant_alert_notification app_becomes_foreground le_audio_alert_notification :
      AlertInquiredType
  flexible_message unknown : AlertInquiredType

unfoldable pub alert_inquired_type_to_u8 : AlertInquiredType → ℕ
alert_inquired_type_to_u8 AlertInquiredType.fixed_message = 0x00
alert_inquired_type_to_u8 AlertInquiredType.vibrator_alert_notification = 0x01
alert_inquired_type_to_u8 AlertInquiredType.fixed_message_with_left_right_selection = 0x02
alert_inquired_type_to_u8 AlertInquiredType.voice_assistant_alert_notification = 0x03
alert_inquired_type_to_u8 AlertInquiredType.app_becomes_foreground = 0x04
alert_inquired_type_to_u8 AlertInquiredType.le_audio_alert_notification = 0x05
alert_inquired_type_to_u8 AlertInquiredType.flexible_message = 0x06
alert_inquired_type_to_u8 AlertInquiredType.unknown = 0xFF

abbrev alert_inquired_type_variants : List AlertInquiredType
alert_inquired_type_variants =
    AlertInquiredType.fixed_message ∷ AlertInquiredType.vibrator_alert_notification
    ∷ AlertInquiredType.fixed_message_with_left_right_selection
    ∷ AlertInquiredType.voice_assistant_alert_notification
    ∷ AlertInquiredType.app_becomes_foreground ∷ AlertInquiredType.le_audio_alert_notification
    ∷ AlertInquiredType.flexible_message ∷ AlertInquiredType.unknown ∷ []

pub find_variant-alert_inquired_type_to_u8 :
    (x : AlertInquiredType)
    → find_variant alert_inquired_type_to_u8 AlertInquiredType.unknown alert_inquired_type_variants
        (alert_inquired_type_to_u8 x)
      ≡ x
unfolding find_variant alert_inquired_type_to_u8
find_variant-alert_inquired_type_to_u8 AlertInquiredType.fixed_message = refl
find_variant-alert_inquired_type_to_u8 _ = refl

instance abbrev pub alert_inquired_type_enum : U8Enum AlertInquiredType
alert_inquired_type_enum = record {
  to_u8 = alert_inquired_type_to_u8;
  variants = alert_inquired_type_variants;
  unknown = AlertInquiredType.unknown;
  from_u8-to_u8 = find_variant-alert_inquired_type_to_u8;
}

pub data AlertMessageType : Type 0 where
  disconnect_caused_by_connection_mode_change disconnect_caused_by_changing_key_assign :
      AlertMessageType
  need_disconnection_for_updating_firmware google_assistant_is_now_available : AlertMessageType
  disconnect_caused_by_changing_multipoint : AlertMessageType
  battery_consumption_increase_due_to_eq_and_upscaling : AlertMessageType
  caution_for_disable_touch_sensor_panel unknown : AlertMessageType

unfoldable pub alert_message_type_to_u8 : AlertMessageType → ℕ
alert_message_type_to_u8 AlertMessageType.disconnect_caused_by_connection_mode_change = 0x00
alert_message_type_to_u8 AlertMessageType.disconnect_caused_by_changing_key_assign = 0x01
alert_message_type_to_u8 AlertMessageType.need_disconnection_for_updating_firmware = 0x02
alert_message_type_to_u8 AlertMessageType.google_assistant_is_now_available = 0x03
alert_message_type_to_u8 AlertMessageType.disconnect_caused_by_changing_multipoint = 0x07
alert_message_type_to_u8 AlertMessageType.battery_consumption_increase_due_to_eq_and_upscaling =
    0x08
alert_message_type_to_u8 AlertMessageType.caution_for_disable_touch_sensor_panel = 0x0A
alert_message_type_to_u8 AlertMessageType.unknown = 0xFF

abbrev alert_message_type_variants : List AlertMessageType
alert_message_type_variants =
    AlertMessageType.disconnect_caused_by_connection_mode_change
    ∷ AlertMessageType.disconnect_caused_by_changing_key_assign
    ∷ AlertMessageType.need_disconnection_for_updating_firmware
    ∷ AlertMessageType.google_assistant_is_now_available
    ∷ AlertMessageType.disconnect_caused_by_changing_multipoint
    ∷ AlertMessageType.battery_consumption_increase_due_to_eq_and_upscaling
    ∷ AlertMessageType.caution_for_disable_touch_sensor_panel ∷ AlertMessageType.unknown ∷ []

pub find_variant-alert_message_type_to_u8 :
    (x : AlertMessageType)
    → find_variant alert_message_type_to_u8 AlertMessageType.unknown alert_message_type_variants
        (alert_message_type_to_u8 x)
      ≡ x
unfolding find_variant alert_message_type_to_u8
find_variant-alert_message_type_to_u8 AlertMessageType.disconnect_caused_by_connection_mode_change =
    refl
find_variant-alert_message_type_to_u8 _ = refl

instance abbrev pub alert_message_type_enum : U8Enum AlertMessageType
alert_message_type_enum = record {
  to_u8 = alert_message_type_to_u8;
  variants = alert_message_type_variants;
  unknown = AlertMessageType.unknown;
  from_u8-to_u8 = find_variant-alert_message_type_to_u8;
}

pub data AlertAction : Type 0 where
  negative positive unknown : AlertAction

unfoldable pub alert_action_to_u8 : AlertAction → ℕ
alert_action_to_u8 AlertAction.negative = 0x00
alert_action_to_u8 AlertAction.positive = 0x01
alert_action_to_u8 AlertAction.unknown = 0xFF

abbrev alert_action_variants : List AlertAction
alert_action_variants = AlertAction.negative ∷ AlertAction.positive ∷ AlertAction.unknown ∷ []

pub find_variant-alert_action_to_u8 :
    (x : AlertAction)
    → find_variant alert_action_to_u8 AlertAction.unknown alert_action_variants
        (alert_action_to_u8 x)
      ≡ x
unfolding find_variant alert_action_to_u8
find_variant-alert_action_to_u8 AlertAction.negative = refl
find_variant-alert_action_to_u8 _ = refl

instance abbrev pub alert_action_enum : U8Enum AlertAction
alert_action_enum = record {
  to_u8 = alert_action_to_u8;
  variants = alert_action_variants;
  unknown = AlertAction.unknown;
  from_u8-to_u8 = find_variant-alert_action_to_u8;
}
