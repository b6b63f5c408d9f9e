-- ===== src/Device/Engine/Build/Sync.antt =====
-- src/device/engine.rs, `build_sync_steps`: the levels of the batteries, and the list of devices.
use sony_buds_tray_control.Device.Engine.Build.Common.{command, device_list_queries, sequence}
use sony_buds_tray_control.Device.Engine.Defs.{Step, done, sync_ok}
use sony_buds_tray_control.Device.State.{DeviceState, SupportFunctions, contains_t1}
use sony_buds_tray_control.Prelude.{List, Option, [], if◌then◌else◌, some, ◌++◌, ◌∷◌}
use sony_buds_tray_control.Protocol.Enums.{
  FunctionTable1, PowerInquiredType, function_table1_enum, power_inquired_type_enum,
}
use sony_buds_tray_control.Protocol.Payloads.{PowerGetStatus, power_get_status_payload}

abbrev pub battery_query : PowerInquiredType → List (Option Step)
battery_query type = command {A = PowerGetStatus} (record { type = type }) ∷ []

-- One of two functions that the device may support, the first preferred.
abbrev pub either :
    SupportFunctions
    → FunctionTable1
    → PowerInquiredType
    → FunctionTable1
    → PowerInquiredType
    → List (Option Step)
either s f type g type' =
    if contains_t1 s f
    then battery_query type
    else if contains_t1 s g
    then battery_query type'
    else []

unfoldable pub build_sync_steps : DeviceState → Option (List Step)
unfolding sequence command device_list_queries contains_t1
build_sync_steps state =
    let s = state.support in
    sequence (
      either s FunctionTable1.battery_level_indicator PowerInquiredType.battery
        FunctionTable1.battery_level_with_threshold PowerInquiredType.battery_with_threshold
      ++ (either s FunctionTable1.left_right_battery_level_indicator
            PowerInquiredType.left_right_battery FunctionTable1.lr_battery_level_with_threshold
            PowerInquiredType.lr_battery_with_threshold
          ++ (either s FunctionTable1.cradle_battery_level_indicator
                PowerInquiredType.cradle_battery FunctionTable1.cradle_battery_level_with_threshold
                PowerInquiredType.cradle_battery_with_threshold
              ++ (device_list_queries ++ some (done sync_ok) ∷ []))))
