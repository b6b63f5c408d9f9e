-- ===== src/Protocol/Payloads/Power.antt =====
-- src/protocol/payloads.rs, the section "Power" payloads: the fields, the layout that `write`
-- produces and the one that `read` takes.
use sony_buds_tray_control.Protocol.Codec.Reader
use sony_buds_tray_control.Protocol.Codec.Writer
use sony_buds_tray_control.Prelude.{
  Bool, bool_eq, false, if◌then◌else◌, int_eq, list_eq, nat_eq, option_eq, true, ℕ,
}
use sony_buds_tray_control.Protocol.Codec.Error.{Op, pure, ◌>>=◌, ◌>>◌}
use sony_buds_tray_control.Protocol.Codec.Reader.{Reader}
use sony_buds_tray_control.Protocol.Codec.Writer.{Write, Writer}
use sony_buds_tray_control.Protocol.Enums.{
  BatteryChargingStatus, CommandT1, PowerInquiredType, PowerOffSettingValue,
  battery_charging_status_enum, command_t1_enum, enum_eq, from_u8, power_inquired_type_enum,
  power_off_setting_value_enum, to_u8,
}
use sony_buds_tray_control.Protocol.Payloads.Base.{Payload}

pub record PowerGetStatus : Type 0 where
  pub type : PowerInquiredType

instance abbrev pub power_get_status_payload : Payload PowerGetStatus
power_get_status_payload = record {
  write = λ p. do
    Writer.u8 (to_u8 CommandT1.power_get_status)
    Writer.u8 (to_u8 p.type);
  read = do
    Reader.u8
    type ← Reader.u8
    pure (record { type = from_u8 type });
}

pub record PowerGetParam : Type 0 where
  pub type : PowerInquiredType

instance abbrev pub power_get_param_payload : Payload PowerGetParam
power_get_param_payload = record {
  write = λ p. do
    Writer.u8 (to_u8 CommandT1.power_get_param)
    Writer.u8 (to_u8 p.type);
  read = do
    Reader.u8
    type ← Reader.u8
    pure (record { type = from_u8 type });
}

pub record PowerParamAutoPowerOff : Type 0 where
  pub type : PowerInquiredType
  pub current : ℕ
  pub last_select : ℕ

instance abbrev pub power_param_auto_power_off_payload : Payload PowerParamAutoPowerOff
power_param_auto_power_off_payload = record {
  write = λ p. do
    Writer.u8 (to_u8 CommandT1.power_set_param)
    Writer.u8 (to_u8 p.type)
    Writer.u8 p.current
    Writer.u8 p.last_select;
  read = do
    Reader.u8
    type ← Reader.u8
    current ← Reader.u8
    last_select ← Reader.u8
    pure (record { type = from_u8 type; current = current; last_select = last_select });
}

pub data PowerSetStatusPowerOff : Type 0 where
  power_set_status_power_off : PowerSetStatusPowerOff

instance abbrev pub power_set_status_power_off_payload : Payload PowerSetStatusPowerOff
power_set_status_power_off_payload = record {
  write = λ p. do
    Writer.u8 (to_u8 CommandT1.power_set_status)
    Writer.u8 (to_u8 PowerInquiredType.power_off)
    Writer.u8 (to_u8 PowerOffSettingValue.user_power_off);
  read = do
    Reader.u8
    Reader.u8
    Reader.u8
    pure power_set_status_power_off;
}

pub record BatteryStatus : Type 0 where
  pub level : ℕ
  pub charging : BatteryChargingStatus
  pub threshold : ℕ

-- `BatteryStatus::default()`.
abbrev pub no_battery : BatteryStatus
no_battery = record { level = 0; charging = BatteryChargingStatus.unknown; threshold = 0 }

pub record PowerRetStatusBattery : Type 0 where
  pub type : PowerInquiredType
  pub left : BatteryStatus
  pub right : BatteryStatus
  pub case : BatteryStatus

-- The patterns `LeftRightBattery | LrBatteryWithThreshold`, and so on.
unfoldable pub is_pair : PowerInquiredType → Bool
is_pair PowerInquiredType.left_right_battery = true
is_pair PowerInquiredType.lr_battery_with_threshold = true
is_pair _ = false

unfoldable pub is_cradle : PowerInquiredType → Bool
is_cradle PowerInquiredType.cradle_battery = true
is_cradle PowerInquiredType.cradle_battery_with_threshold = true
is_cradle _ = false

unfoldable pub has_threshold : PowerInquiredType → Bool
has_threshold PowerInquiredType.battery_with_threshold = true
has_threshold PowerInquiredType.lr_battery_with_threshold = true
has_threshold PowerInquiredType.cradle_battery_with_threshold = true
has_threshold _ = false

unfoldable pub is_lr_threshold : PowerInquiredType → Bool
is_lr_threshold PowerInquiredType.lr_battery_with_threshold = true
is_lr_threshold _ = false

unfoldable pub write_battery_status : BatteryStatus → Write
unfolding Writer.u8
write_battery_status s = do Writer.u8 s.level; Writer.u8 (to_u8 s.charging)

unfoldable pub write_power_ret_status_battery : PowerRetStatusBattery → Write
unfolding write_battery_status is_pair is_cradle has_threshold is_lr_threshold Writer.u8
write_power_ret_status_battery p = do
  Writer.u8 (to_u8 CommandT1.power_ret_status)
  Writer.u8 (to_u8 p.type)
  write_battery_status (if is_cradle p.type then p.case else p.left)
  if is_pair p.type then write_battery_status p.right else pure tt
  if has_threshold p.type
      then Writer.u8 (if is_cradle p.type then p.case.threshold else p.left.threshold)
      else pure tt
  if is_lr_threshold p.type then Writer.u8 p.right.threshold else pure tt

-- The three batteries while they are read.
pub record Batteries : Type 0 where
  pub left : BatteryStatus
  pub right : BatteryStatus
  pub case : BatteryStatus

-- The first `match` of `read`, on what the first two bytes gave for the left battery.
unfoldable pub read_levels : PowerInquiredType → BatteryStatus → Op Reader Batteries
unfolding is_pair is_cradle Reader.u8
read_levels type left =
    if is_pair type
    then (do
      level ← Reader.u8
      charging ← Reader.u8
      pure (record {
        left = left;
        right = record { level = level; charging = from_u8 charging; threshold = 0 };
        case = no_battery;
      }))
    else if is_cradle type
    then pure (record { left = no_battery; right = no_battery; case = left })
    else pure (record { left = left; right = no_battery; case = no_battery })

-- The second `match` of `read`.
unfoldable pub read_thresholds : PowerInquiredType → Batteries → Op Reader Batteries
unfolding is_cradle has_threshold is_lr_threshold Reader.u8
read_thresholds type b =
    if has_threshold type
    then (do
      threshold ← Reader.u8
      if is_lr_threshold type
          then (do
            threshold' ← Reader.u8
            pure (record {
              left = record {
                level = b.left.level;
                charging = b.left.charging;
                threshold = threshold;
              };
              right = record {
                level = b.right.level;
                charging = b.right.charging;
                threshold = threshold';
              };
              case = b.case;
            }))
          else if is_cradle type
          then pure (record {
            left = no_battery;
            right = b.right;
            case = record {
              level = b.case.level;
              charging = b.case.charging;
              threshold = threshold;
            };
          })
          else pure (record {
            left = record {
              level = b.left.level;
              charging = b.left.charging;
              threshold = threshold;
            };
            right = b.right;
            case = b.case;
          }))
    else pure b

unfoldable pub read_power_ret_status_battery : Op Reader PowerRetStatusBattery
unfolding read_levels read_thresholds Reader.u8
read_power_ret_status_battery = do
  Reader.u8
  type ← Reader.u8
  level ← Reader.u8
  charging ← Reader.u8
  b ←
      read_levels (from_u8 type)
        (record { level = level; charging = from_u8 charging; threshold = 0 })
  b' ← read_thresholds (from_u8 type) b
  pure (record { type = from_u8 type; left = b'.left; right = b'.right; case = b'.case })

instance abbrev pub power_ret_status_battery_payload : Payload PowerRetStatusBattery
power_ret_status_battery_payload = record {
  write = write_power_ret_status_battery;
  read = read_power_ret_status_battery;
}
