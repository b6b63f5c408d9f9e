-- ===== src/Device/Engine/Dispatch/Reports.antt =====
-- src/device/engine.rs, `handle_command_t1`: the connection, codec, battery and power messages.
use sony_buds_tray_control.Protocol.Codec.Reader
use sony_buds_tray_control.Device.Engine.Defs.{
  Engine, Outcome, auto_power_off, battery, codec, device_info, emit, protocol_info, quiet,
  support_function,
}
use sony_buds_tray_control.Device.Engine.Dispatch.Common.{on_ok, put_props, put_state}
use sony_buds_tray_control.Device.Engine.Runner.{advance_on}
use sony_buds_tray_control.Device.State.{
  BatteryState, DeviceState, SupportFunctions, fresh, set_t1, set_t2,
}
use sony_buds_tray_control.Prelude.{
  Bool, List, [], bool_eq, eq, err, false, if◌then◌else◌, int_eq, list_eq, nat_eq, ok, option_eq,
  true, ℕ, ◌∷◌,
}
use sony_buds_tray_control.Protocol.Codec.Error.{SerResult}
use sony_buds_tray_control.Protocol.Codec.Reader.{Reader}
use sony_buds_tray_control.Protocol.Enums.{
  EnableDisable, PowerInquiredType, ambient_sound_mode_enum, audio_inquired_type_enum,
  auto_power_off_elements_enum, command_t1_enum, command_t2_enum, enable_disable_enum, enum_eq,
  from_u8, gs_setting_value_enum, nc_asm_inquired_type_enum, nc_asm_on_off_value_enum,
  on_off_setting_enum, peripheral_inquired_type_enum, play_inquired_type_enum,
  power_inquired_type_enum, source_switch_control_result_enum, system_inquired_type_enum,
  upscaling_type_auto_off_enum, voice_guidance_inquired_type_enum,
}
use sony_buds_tray_control.Protocol.Payloads.{
  BatteryStatus, CommonStatusAudioCodec, ConnectRetProtocolInfo, ConnectRetSupportFunction,
  DeviceInfoResponse, PowerParamAutoPowerOff, PowerRetStatusBattery, SupportFunction,
  common_status_audio_codec_payload, connect_ret_protocol_info_payload,
  connect_ret_support_function_payload, deserialize, device_info_response_payload, is_cradle,
  is_pair, power_param_auto_power_off_payload, power_ret_status_battery_payload,
}
use sony_buds_tray_control.Text.{String}

unfoldable pub on_protocol_info : ℕ → List ℕ → Engine → Outcome
unfolding on_ok advance_on deserialize
on_protocol_info now bytes e = on_ok e (deserialize {A = ConnectRetProtocolInfo} bytes) λ p.
    let s = e.state in
    advance_on now protocol_info (
      put_state e (record s {
        protocol_version = p.protocol_version;
        has_table1 = eq p.support_table1 EnableDisable.enable;
        has_table2 = eq p.support_table2 EnableDisable.enable;
      }))

-- The cursor behind a read whose result is ignored.
abbrev skip_byte : Reader → Reader
skip_byte r = elim (Reader.u8 r) [ ok (_, r') ↦ r' | err _ ↦ r ]

abbrev unique_id_of : SerResult (ℕ × Reader) → SerResult String
unique_id_of (err e) = err e
unique_id_of (ok (_, r)) = elim (Reader.read_prefixed_string r) [
  | ok (uid, _) ↦ ok uid
  | err e ↦ err e
]

unfoldable pub on_capability_info : List ℕ → Engine → Outcome
unfolding on_ok Reader.new Reader.u8 Reader.read_prefixed_string
on_capability_info bytes e =
    on_ok e (unique_id_of (Reader.u8 (skip_byte (skip_byte (Reader.new bytes)))))
      λ uid. let s = e.state in quiet (put_state e (record s { unique_id = uid }))

unfoldable pub adopt_device_info : DeviceState → DeviceInfoResponse → DeviceState
adopt_device_info s (DeviceInfoResponse.model_name n) = record s { model_name = n }
adopt_device_info s (DeviceInfoResponse.fw_version v) = record s { fw_version = v }
adopt_device_info s (DeviceInfoResponse.series_and_color series color) = record s {
  model_series = series;
  model_color = color;
}

unfoldable pub on_device_info : List ℕ → Engine → Outcome
unfolding on_ok adopt_device_info deserialize
on_device_info bytes e =
    on_ok e (deserialize {A = DeviceInfoResponse} bytes)
      λ p. emit (put_state e (adopt_device_info e.state p)) device_info

unfoldable pub adopt_t1 : List SupportFunction → SupportFunctions → SupportFunctions
unfolding set_t1
adopt_t1 [] s = s
adopt_t1 (f ∷ fs) s = adopt_t1 fs (set_t1 s f.function true)

unfoldable pub adopt_t2 : List SupportFunction → SupportFunctions → SupportFunctions
unfolding set_t2
adopt_t2 [] s = s
adopt_t2 (f ∷ fs) s = adopt_t2 fs (set_t2 s f.function true)

unfoldable pub on_support_t1 : ℕ → List ℕ → Engine → Outcome
unfolding on_ok advance_on adopt_t1 deserialize
on_support_t1 now bytes e = on_ok e (deserialize {A = ConnectRetSupportFunction} bytes) λ p.
    let s = e.state in
    advance_on now support_function
      (put_state e (record s { support = adopt_t1 p.functions s.support }))

unfoldable pub on_support_t2 : ℕ → List ℕ → Engine → Outcome
unfolding on_ok advance_on adopt_t2 deserialize
on_support_t2 now bytes e = on_ok e (deserialize {A = ConnectRetSupportFunction} bytes) λ p.
    let s = e.state in
    advance_on now support_function
      (put_state e (record s { support = adopt_t2 p.functions s.support }))

unfoldable pub on_codec : List ℕ → Engine → Outcome
unfolding on_ok deserialize
on_codec bytes e =
    on_ok e (deserialize {A = CommonStatusAudioCodec} bytes)
      λ p. let s = e.state in emit (put_state e (record s { audio_codec = p.audio_codec })) codec

abbrev battery_of : BatteryStatus → BatteryState
battery_of b = record { level = b.level; threshold = b.threshold; charging = b.charging }

unfoldable pub adopt_battery : PowerRetStatusBattery → DeviceState → DeviceState
unfolding is_pair is_cradle
adopt_battery p s =
    if is_pair p.type
    then record s { battery_left = battery_of p.left; battery_right = battery_of p.right }
    else if is_cradle p.type
    then record s { battery_case = battery_of p.case }
    else record s { battery_left = battery_of p.left }

unfoldable pub on_battery : List ℕ → Engine → Outcome
unfolding on_ok adopt_battery deserialize
on_battery bytes e =
    on_ok e (deserialize {A = PowerRetStatusBattery} bytes)
      λ p. emit (put_state e (adopt_battery p e.state)) battery

-- The two types for which the parameter is an automatic power off.
unfoldable pub is_auto_off : PowerInquiredType → Bool
is_auto_off PowerInquiredType.auto_power_off = true
is_auto_off PowerInquiredType.auto_power_off_wearing_detection = true
is_auto_off _ = false

unfoldable pub on_power_param : List ℕ → Engine → Outcome
unfolding on_ok is_auto_off deserialize
on_power_param bytes e = on_ok e (deserialize {A = PowerParamAutoPowerOff} bytes) λ p.
    let q = e.props in
    if is_auto_off p.type
    then emit (put_props e (record q { auto_power_off = fresh (from_u8 p.current) })) auto_power_off
    else quiet e
