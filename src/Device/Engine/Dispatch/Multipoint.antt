-- ===== src/Device/Engine/Dispatch/Multipoint.antt =====
-- src/device/engine.rs: `apply_multipoint_list` and the messages of table 2 about it.
use mathlib.Core.Option
use sony_buds_tray_control.Device.Engine.Defs.{Engine, Outcome, emit, multipoint, quiet}
use sony_buds_tray_control.Device.Engine.Dispatch.Common.{on_ok, put_state, type_byte}
use sony_buds_tray_control.Device.State.{DeviceState, MultipointDevice}
use sony_buds_tray_control.Prelude.{
  Bool, List, Option, [], bool_eq, eq, if◌then◌else◌, int_eq, list_eq, map, nat_eq, none, option_eq,
  some, ℕ, ◌+◌, ◌==◌, ◌∷◌,
}
use sony_buds_tray_control.Protocol.Enums.{
  PeripheralInquiredType, SourceSwitchControlResult, ambient_sound_mode_enum,
  audio_inquired_type_enum, auto_power_off_elements_enum, command_t1_enum, command_t2_enum,
  enable_disable_enum, enum_eq, gs_setting_value_enum, nc_asm_inquired_type_enum,
  nc_asm_on_off_value_enum, on_off_setting_enum, peripheral_inquired_type_enum,
  play_inquired_type_enum, power_inquired_type_enum, source_switch_control_result_enum,
  system_inquired_type_enum, to_u8, upscaling_type_auto_off_enum, voice_guidance_inquired_type_enum,
}
use sony_buds_tray_control.Protocol.Payloads.{
  PeripheralDeviceInfo, PeripheralNotifyExtendedParamSourceSwitch, PeripheralRetParamDeviceList,
  deserialize, peripheral_notify_extended_param_source_switch_payload,
  peripheral_ret_param_device_list_payload,
}

-- `iter().position(test)`.
unfoldable pub position_of : {A : Type 0} → (A → Bool) → List A → Option ℕ
position_of test [] = none
position_of test (x ∷ xs) = if test x then some 0 else Option.map (λ i. i + 1) (position_of test xs)

abbrev device_of : PeripheralDeviceInfo → MultipointDevice
device_of d = record { address = d.address; name = d.name; connected_status = d.connected_status }

unfoldable pub apply_multipoint_list : PeripheralRetParamDeviceList → DeviceState → DeviceState
unfolding position_of
apply_multipoint_list p s =
    let devices = map device_of p.devices in
    record s {
      multipoint_devices = devices;
      multipoint_playback = position_of (λ d. d.connected_status == p.playback_device) devices;
    }

unfoldable pub on_device_list : List ℕ → Engine → Outcome
unfolding on_ok apply_multipoint_list deserialize
on_device_list bytes e =
    on_ok e (deserialize {A = PeripheralRetParamDeviceList} bytes)
      λ p. emit (put_state e (apply_multipoint_list p e.state)) multipoint

abbrev byte_or_unknown : Option ℕ → ℕ
byte_or_unknown none = 0xFF
byte_or_unknown (some b) = b

unfoldable pub on_source_switch : List ℕ → Engine → Outcome
unfolding on_ok position_of deserialize
on_source_switch bytes e =
    on_ok e (deserialize {A = PeripheralNotifyExtendedParamSourceSwitch} bytes) λ p.
      let s = e.state in
      if eq p.result SourceSwitchControlResult.success
      then emit
          (put_state e (record s {
            multipoint_playback = position_of (λ d. eq d.address p.address) s.multipoint_devices;
          }))
          multipoint
      else quiet e

-- The other results are only logged.
unfoldable pub on_peri_extended : List ℕ → Engine → Outcome
unfolding on_source_switch
on_peri_extended bytes e =
    if byte_or_unknown (type_byte bytes) == to_u8 PeripheralInquiredType.source_switch_control
    then on_source_switch bytes e
    else quiet e
