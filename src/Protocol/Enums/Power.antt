-- ===== src/Protocol/Enums/Power.antt =====
-- The power types of src/protocol/enums.rs: the variants, their bytes,
-- and the instances by which `from_u8`, `to_u8` and `==` apply.
use sony_buds_tray_control.Prelude.{ℕ, ◌≡◌, refl, List, [], ◌∷◌}
use sony_buds_tray_control.Protocol.Enums.Macro.{U8Enum, find_variant}

pub data PowerInquiredType : Type 0 where
  battery left_right_battery cradle_battery power_off auto_power_off : PowerInquiredType
  auto_power_off_wearing_detection power_save_mode link_control battery_with_threshold :
      PowerInquiredType
  lr_battery_with_threshold cradle_battery_with_threshold battery_safe_mode : PowerInquiredType
  caring_charge bt_standby stamina automatic_touch_panel_backlight_turn_off unknown :
      PowerInquiredType

unfoldable pub power_inquired_type_to_u8 : PowerInquiredType → ℕ
power_inquired_type_to_u8 PowerInquiredType.battery = 0x00
power_inquired_type_to_u8 PowerInquiredType.left_right_battery = 0x01
power_inquired_type_to_u8 PowerInquiredType.cradle_battery = 0x02
power_inquired_type_to_u8 PowerInquiredType.power_off = 0x03
power_inquired_type_to_u8 PowerInquiredType.auto_power_off = 0x04
power_inquired_type_to_u8 PowerInquiredType.auto_power_off_wearing_detection = 0x05
power_inquired_type_to_u8 PowerInquiredType.power_save_mode = 0x06
power_inquired_type_to_u8 PowerInquiredType.link_control = 0x07
power_inquired_type_to_u8 PowerInquiredType.battery_with_threshold = 0x08
power_inquired_type_to_u8 PowerInquiredType.lr_battery_with_threshold = 0x09
power_inquired_type_to_u8 PowerInquiredType.cradle_battery_with_threshold = 0x0A
power_inquired_type_to_u8 PowerInquiredType.battery_safe_mode = 0x0B
power_inquired_type_to_u8 PowerInquiredType.caring_charge = 0x0C
power_inquired_type_to_u8 PowerInquiredType.bt_standby = 0x0D
power_inquired_type_to_u8 PowerInquiredType.stamina = 0x0E
power_inquired_type_to_u8 PowerInquiredType.automatic_touch_panel_backlight_turn_off = 0x0F
power_inquired_type_to_u8 PowerInquiredType.unknown = 0xFF

abbrev power_inquired_type_variants : List PowerInquiredType
power_inquired_type_variants =
    PowerInquiredType.battery ∷ PowerInquiredType.left_right_battery
    ∷ PowerInquiredType.cradle_battery ∷ PowerInquiredType.power_off
    ∷ PowerInquiredType.auto_power_off ∷ PowerInquiredType.auto_power_off_wearing_detection
    ∷ PowerInquiredType.power_save_mode ∷ PowerInquiredType.link_control
    ∷ PowerInquiredType.battery_with_threshold ∷ PowerInquiredType.lr_battery_with_threshold
    ∷ PowerInquiredType.cradle_battery_with_threshold ∷ PowerInquiredType.battery_safe_mode
    ∷ PowerInquiredType.caring_charge ∷ PowerInquiredType.bt_standby ∷ PowerInquiredType.stamina
    ∷ PowerInquiredType.automatic_touch_panel_backlight_turn_off ∷ PowerInquiredType.unknown ∷ []

pub find_variant-power_inquired_type_to_u8 :
    (x : PowerInquiredType)
    → find_variant power_inquired_type_to_u8 PowerInquiredType.unknown power_inquired_type_variants
        (power_inquired_type_to_u8 x)
      ≡ x
unfolding find_variant power_inquired_type_to_u8
find_variant-power_inquired_type_to_u8 PowerInquiredType.battery = refl
find_variant-power_inquired_type_to_u8 _ = refl

instance abbrev pub power_inquired_type_enum : U8Enum PowerInquiredType
power_inquired_type_enum = record {
  to_u8 = power_inquired_type_to_u8;
  variants = power_inquired_type_variants;
  unknown = PowerInquiredType.unknown;
  from_u8-to_u8 = find_variant-power_inquired_type_to_u8;
}

pub data BatteryChargingStatus : Type 0 where
  not_charging charging unknown_status charged unknown : BatteryChargingStatus

unfoldable pub battery_charging_status_to_u8 : BatteryChargingStatus → ℕ
battery_charging_status_to_u8 BatteryChargingStatus.not_charging = 0
battery_charging_status_to_u8 BatteryChargingStatus.charging = 1
battery_charging_status_to_u8 BatteryChargingStatus.unknown_status = 2
battery_charging_status_to_u8 BatteryChargingStatus.charged = 3
battery_charging_status_to_u8 BatteryChargingStatus.unknown = 0xFF

abbrev battery_charging_status_variants : List BatteryChargingStatus
battery_charging_status_variants =
    BatteryChargingStatus.not_charging ∷ BatteryChargingStatus.charging
    ∷ BatteryChargingStatus.unknown_status ∷ BatteryChargingStatus.charged
    ∷ BatteryChargingStatus.unknown ∷ []

pub find_variant-battery_charging_status_to_u8 :
    (x : BatteryChargingStatus)
    → find_variant battery_charging_status_to_u8 BatteryChargingStatus.unknown
        battery_charging_status_variants
        (battery_charging_status_to_u8 x)
      ≡ x
unfolding find_variant battery_charging_status_to_u8
find_variant-battery_charging_status_to_u8 BatteryChargingStatus.not_charging = refl
find_variant-battery_charging_status_to_u8 _ = refl

instance abbrev pub battery_charging_status_enum : U8Enum BatteryChargingStatus
battery_charging_status_enum = record {
  to_u8 = battery_charging_status_to_u8;
  variants = battery_charging_status_variants;
  unknown = BatteryChargingStatus.unknown;
  from_u8-to_u8 = find_variant-battery_charging_status_to_u8;
}

pub data PowerOffSettingValue : Type 0 where
  user_power_off factory_power_off unknown : PowerOffSettingValue

unfoldable pub power_off_setting_value_to_u8 : PowerOffSettingValue → ℕ
power_off_setting_value_to_u8 PowerOffSettingValue.user_power_off = 0x01
power_off_setting_value_to_u8 PowerOffSettingValue.factory_power_off = 0xFF
power_off_setting_value_to_u8 PowerOffSettingValue.unknown = 0x00

abbrev power_off_setting_value_variants : List PowerOffSettingValue
power_off_setting_value_variants =
    PowerOffSettingValue.user_power_off ∷ PowerOffSettingValue.factory_power_off
    ∷ PowerOffSettingValue.unknown ∷ []

pub find_variant-power_off_setting_value_to_u8 :
    (x : PowerOffSettingValue)
    → find_variant power_off_setting_value_to_u8 PowerOffSettingValue.unknown
        power_off_setting_value_variants
        (power_off_setting_value_to_u8 x)
      ≡ x
unfolding find_variant power_off_setting_value_to_u8
find_variant-power_off_setting_value_to_u8 PowerOffSettingValue.user_power_off = refl
find_variant-power_off_setting_value_to_u8 _ = refl

instance abbrev pub power_off_setting_value_enum : U8Enum PowerOffSettingValue
power_off_setting_value_enum = record {
  to_u8 = power_off_setting_value_to_u8;
  variants = power_off_setting_value_variants;
  unknown = PowerOffSettingValue.unknown;
  from_u8-to_u8 = find_variant-power_off_setting_value_to_u8;
}

pub data AutoPowerOffElements : Type 0 where
  power_off_in5_min power_off_in30_min power_off_in60_min power_off_in180_min : AutoPowerOffElements
  power_off_in15_min power_off_disable unknown : AutoPowerOffElements

unfoldable pub auto_power_off_elements_to_u8 : AutoPowerOffElements → ℕ
auto_power_off_elements_to_u8 AutoPowerOffElements.power_off_in5_min = 0x00
auto_power_off_elements_to_u8 AutoPowerOffElements.power_off_in30_min = 0x01
auto_power_off_elements_to_u8 AutoPowerOffElements.power_off_in60_min = 0x02
auto_power_off_elements_to_u8 AutoPowerOffElements.power_off_in180_min = 0x03
auto_power_off_elements_to_u8 AutoPowerOffElements.power_off_in15_min = 0x04
auto_power_off_elements_to_u8 AutoPowerOffElements.power_off_disable = 0x11
auto_power_off_elements_to_u8 AutoPowerOffElements.unknown = 0xFF

abbrev auto_power_off_elements_variants : List AutoPowerOffElements
auto_power_off_elements_variants =
    AutoPowerOffElements.power_off_in5_min ∷ AutoPowerOffElements.power_off_in30_min
    ∷ AutoPowerOffElements.power_off_in60_min ∷ AutoPowerOffElements.power_off_in180_min
    ∷ AutoPowerOffElements.power_off_in15_min ∷ AutoPowerOffElements.power_off_disable
    ∷ AutoPowerOffElements.unknown ∷ []

pub find_variant-auto_power_off_elements_to_u8 :
    (x : AutoPowerOffElements)
    → find_variant auto_power_off_elements_to_u8 AutoPowerOffElements.unknown
        auto_power_off_elements_variants
        (auto_power_off_elements_to_u8 x)
      ≡ x
unfolding find_variant auto_power_off_elements_to_u8
find_variant-auto_power_off_elements_to_u8 AutoPowerOffElements.power_off_in5_min = refl
find_variant-auto_power_off_elements_to_u8 _ = refl

instance abbrev pub auto_power_off_elements_enum : U8Enum AutoPowerOffElements
auto_power_off_elements_enum = record {
  to_u8 = auto_power_off_elements_to_u8;
  variants = auto_power_off_elements_variants;
  unknown = AutoPowerOffElements.unknown;
  from_u8-to_u8 = find_variant-auto_power_off_elements_to_u8;
}
