-- ===== src/Protocol/Enums/FunctionsT1.antt =====
-- The support function table 1 of src/protocol/enums.rs: the variants, their bytes,
-- and the instances by which `from_u8`, `to_u8` and `==` apply.
use sony_buds_tray_control.Prelude.{ℕ, ◌≡◌, refl, List, [], ◌∷◌}
use sony_buds_tray_control.Protocol.Enums.Macro.{U8Enum, find_variant}

pub data FunctionTable1 : Type 0 where
  concierge_data connection_status codec_indicator upscaling_indicator ble_setup : FunctionTable1
  tutorial_contents_select_on_concierge connection_established_time : FunctionTable1
  unnecessary_auto_reconnection device_special_mode : FunctionTable1
  phone_and_connected_device_infomation_for_classic tandem_reconnection_request : FunctionTable1
  display_fw_version battery_level_indicator left_right_battery_level_indicator : FunctionTable1
  cradle_battery_level_indicator power_off auto_power_off : FunctionTable1
  auto_power_off_with_wearing_detection power_saving_mode_on_off tandem_keep_alive : FunctionTable1
  battery_level_with_threshold lr_battery_level_with_threshold : FunctionTable1
  cradle_battery_level_with_threshold battery_safe_mode caring_charge bt_standby : FunctionTable1
  stamina automatic_touch_panel_backlight_turn_off : FunctionTable1
  fw_update_mtk_transfer_without_disconnection : FunctionTable1
  fw_update_mtk_transfer_without_disconnection_auto_update : FunctionTable1
  fw_update_mtk_transfer_with_repair_mode : FunctionTable1
  fw_update_mtk_transfer_with_ac_connection_check : FunctionTable1
  fw_update_tandem_transfer_using_common_table fw_update_using_mc_app : FunctionTable1
  tws_supports_a2dp_lea_uni_lea_broad_with_ctkd : FunctionTable1
  hbs_supports_a2dp_lea_uni_lea_broad_with_ctkd classic_only_le_classic_setting : FunctionTable1
  tws_supports_lea_uni_lea_broad change_tandem_connection_profile_for_android : FunctionTable1
  bgm_mode_cant_be_used_with_lea_connection : FunctionTable1
  head_tracker_cant_be_used_with_lea_connection : FunctionTable1
  pairing_device_management_cant_be_used_with_lea_connection : FunctionTable1
  sound_ar_cant_be_used_with_lea_connection auto_play_cant_be_used_with_lea_connection :
      FunctionTable1
  gatt_connectable_cant_be_used_with_lea_connection : FunctionTable1
  sound_ar_optimization_cant_be_used_with_lea_connection : FunctionTable1
  quick_access_cant_be_used_with_lea_connection : FunctionTable1
  connection_mode_cant_be_used_with_lea_connection : FunctionTable1
  voice_assistant_settings_cant_be_used_with_lea_connection : FunctionTable1
  voice_assistant_wake_word_cant_be_used_with_lea_connection preset_eq ebb : FunctionTable1
  preset_eq_non_customizable preset_eq_and_ult_mode sound_effect custom_eq turn_key_eq :
      FunctionTable1
  preset_eq_and_error_code noise_cancelling_on_off : FunctionTable1
  noise_cancelling_on_off_and_ambient_sound_mode_on_off : FunctionTable1
  noise_cancelling_dual_single_off_and_ambient_sound_mode_on_off : FunctionTable1
  noise_cancelling_on_off_and_ambient_sound_mode_level_adjustment : FunctionTable1
  noise_cancelling_dual_single_off_ambient_sound_mode_level_adjustment : FunctionTable1
  ambient_sound_mode_on_off ambient_sound_mode_level_adjustment : FunctionTable1
  mode_nc_asm_noise_cancelling_dual_auto_ambient_sound_mode_level_adjustment : FunctionTable1
  ambient_sound_control_mode_select : FunctionTable1
  mode_nc_asm_noise_cancelling_dual_single_ambient_sound_mode_level_adjustment : FunctionTable1
  mode_nc_asm_noise_cancelling_dual_ambient_sound_mode_level_adjustment : FunctionTable1
  mode_nc_ncss_asm_noise_cancelling_dual_ambient_sound_mode_level_adjustment_with_test_mode :
      FunctionTable1
  mode_nc_asm_noise_cancelling_dual_ambient_sound_mode_level_adjustment_noise_adaptation :
      FunctionTable1
  auto_ncasm adaptive_control_with_parameter_notification : FunctionTable1
  nc_optimizer_personal_barometric nc_optimizer_personal nc_optimizer_barometric : FunctionTable1
  sound_field_optimization tv_sound_booster fixed_message vibrator_alert_notification :
      FunctionTable1
  fixed_message_with_lr_selection voice_assistant_alert_notification : FunctionTable1
  le_audio_alert_notification playback_controller_with_call_volume_adjustment : FunctionTable1
  playback_controller_with_call_volume_adjustment_and_mute : FunctionTable1
  playback_controller_with_call_volume_adjustment_and_function_change : FunctionTable1
  playback_controller_with_function_change sar auto_play gatt_connectable : FunctionTable1
  sar_optimization_compass_accel_type head_tracker_compass_accel_type : FunctionTable1
  sar_optimization_accel_type head_tracker_accel_type integrated_auto_play : FunctionTable1
  action_log_notifier time_series_operationlog_notifier sound_dropout_notifier : FunctionTable1
  general_setting1 general_setting2 general_setting3 general_setting4 : FunctionTable1
  connection_mode_sound_quality_connection_quality upscaling_auto_off : FunctionTable1
  connection_mode_sound_quality_sound_with_ldac_status_quality_connection_quality : FunctionTable1
  bgm_mode_small_middle_large upmix_cinema listening_option : FunctionTable1
  connection_mode_classic_audio_le_audio voice_contents sound_leakage_reduction : FunctionTable1
  listening_option_assign_customizable bgm_mode_small_middle_large_and_error_code : FunctionTable1
  upmix_series vibrator_on_off playback_control_by_wearing_removing_headphone_on_off :
      FunctionTable1
  smart_talking_mode_type1 assignable_setting voice_assistant_settings : FunctionTable1
  voice_assistant_wake_word_on_off wearing_status_detector earpiece_selection : FunctionTable1
  call_settings reset_settings auto_volume face_tap_test_mode smart_talking_mode_type2 :
      FunctionTable1
  quick_access assignable_setting_with_limitation head_gesture_on_off_training unknown :
      FunctionTable1

unfoldable pub function_table1_to_u8 : FunctionTable1 → ℕ
function_table1_to_u8 FunctionTable1.concierge_data = 0x10
function_table1_to_u8 FunctionTable1.connection_status = 0x11
function_table1_to_u8 FunctionTable1.codec_indicator = 0x12
function_table1_to_u8 FunctionTable1.upscaling_indicator = 0x13
function_table1_to_u8 FunctionTable1.ble_setup = 0x14
function_table1_to_u8 FunctionTable1.tutorial_contents_select_on_concierge = 0x15
function_table1_to_u8 FunctionTable1.connection_established_time = 0x16
function_table1_to_u8 FunctionTable1.unnecessary_auto_reconnection = 0x17
function_table1_to_u8 FunctionTable1.device_special_mode = 0x18
function_table1_to_u8 FunctionTable1.phone_and_connected_device_infomation_for_classic = 0x19
function_table1_to_u8 FunctionTable1.tandem_reconnection_request = 0x1A
function_table1_to_u8 FunctionTable1.display_fw_version = 0x1B
function_table1_to_u8 FunctionTable1.battery_level_indicator = 0x20
function_table1_to_u8 FunctionTable1.left_right_battery_level_indicator = 0x21
function_table1_to_u8 FunctionTable1.cradle_battery_level_indicator = 0x22
function_table1_to_u8 FunctionTable1.power_off = 0x23
function_table1_to_u8 FunctionTable1.auto_power_off = 0x24
function_table1_to_u8 FunctionTable1.auto_power_off_with_wearing_detection = 0x25
function_table1_to_u8 FunctionTable1.power_saving_mode_on_off = 0x26
function_table1_to_u8 FunctionTable1.tandem_keep_alive = 0x27
function_table1_to_u8 FunctionTable1.battery_level_with_threshold = 0x28
function_table1_to_u8 FunctionTable1.lr_battery_level_with_threshold = 0x29
function_table1_to_u8 FunctionTable1.cradle_battery_level_with_threshold = 0x2A
function_table1_to_u8 FunctionTable1.battery_safe_mode = 0x2B
function_table1_to_u8 FunctionTable1.caring_charge = 0x2C
function_table1_to_u8 FunctionTable1.bt_standby = 0x2D
function_table1_to_u8 FunctionTable1.stamina = 0x2E
function_table1_to_u8 FunctionTable1.automatic_touch_panel_backlight_turn_off = 0x2F
function_table1_to_u8 FunctionTable1.fw_update_mtk_transfer_without_disconnection = 0x32
function_table1_to_u8 FunctionTable1.fw_update_mtk_transfer_without_disconnection_auto_update = 0x34
function_table1_to_u8 FunctionTable1.fw_update_mtk_transfer_with_repair_mode = 0x35
function_table1_to_u8 FunctionTable1.fw_update_mtk_transfer_with_ac_connection_check = 0x36
function_table1_to_u8 FunctionTable1.fw_update_tandem_transfer_using_common_table = 0x37
function_table1_to_u8 FunctionTable1.fw_update_using_mc_app = 0x38
function_table1_to_u8 FunctionTable1.tws_supports_a2dp_lea_uni_lea_broad_with_ctkd = 0x40
function_table1_to_u8 FunctionTable1.hbs_supports_a2dp_lea_uni_lea_broad_with_ctkd = 0x41
function_table1_to_u8 FunctionTable1.classic_only_le_classic_setting = 0x42
function_table1_to_u8 FunctionTable1.tws_supports_lea_uni_lea_broad = 0x43
function_table1_to_u8 FunctionTable1.change_tandem_connection_profile_for_android = 0x44
function_table1_to_u8 FunctionTable1.bgm_mode_cant_be_used_with_lea_connection = 0x45
function_table1_to_u8 FunctionTable1.head_tracker_cant_be_used_with_lea_connection = 0x46
function_table1_to_u8 FunctionTable1.pairing_device_management_cant_be_used_with_lea_connection =
    0x47
function_table1_to_u8 FunctionTable1.sound_ar_cant_be_used_with_lea_connection = 0x48
function_table1_to_u8 FunctionTable1.auto_play_cant_be_used_with_lea_connection = 0x49
function_table1_to_u8 FunctionTable1.gatt_connectable_cant_be_used_with_lea_connection = 0x4A
function_table1_to_u8 FunctionTable1.sound_ar_optimization_cant_be_used_with_lea_connection = 0x4B
function_table1_to_u8 FunctionTable1.quick_access_cant_be_used_with_lea_connection = 0x4C
function_table1_to_u8 FunctionTable1.connection_mode_cant_be_used_with_lea_connection = 0x4D
function_table1_to_u8 FunctionTable1.voice_assistant_settings_cant_be_used_with_lea_connection =
    0x4E
function_table1_to_u8 FunctionTable1.voice_assistant_wake_word_cant_be_used_with_lea_connection =
    0x4F
function_table1_to_u8 FunctionTable1.preset_eq = 0x50
function_table1_to_u8 FunctionTable1.ebb = 0x51
function_table1_to_u8 FunctionTable1.preset_eq_non_customizable = 0x52
function_table1_to_u8 FunctionTable1.preset_eq_and_ult_mode = 0x53
function_table1_to_u8 FunctionTable1.sound_effect = 0x54
function_table1_to_u8 FunctionTable1.custom_eq = 0x55
function_table1_to_u8 FunctionTable1.turn_key_eq = 0x56
function_table1_to_u8 FunctionTable1.preset_eq_and_error_code = 0x57
function_table1_to_u8 FunctionTable1.noise_cancelling_on_off = 0x61
function_table1_to_u8 FunctionTable1.noise_cancelling_on_off_and_ambient_sound_mode_on_off = 0x62
function_table1_to_u8
      FunctionTable1.noise_cancelling_dual_single_off_and_ambient_sound_mode_on_off =
    0x63
function_table1_to_u8
      FunctionTable1.noise_cancelling_on_off_and_ambient_sound_mode_level_adjustment =
    0x64
function_table1_to_u8
      FunctionTable1.noise_cancelling_dual_single_off_ambient_sound_mode_level_adjustment =
    0x65
function_table1_to_u8 FunctionTable1.ambient_sound_mode_on_off = 0x66
function_table1_to_u8 FunctionTable1.ambient_sound_mode_level_adjustment = 0x67
function_table1_to_u8
      FunctionTable1.mode_nc_asm_noise_cancelling_dual_auto_ambient_sound_mode_level_adjustment =
    0x68
function_table1_to_u8 FunctionTable1.ambient_sound_control_mode_select = 0x69
function_table1_to_u8
      FunctionTable1.mode_nc_asm_noise_cancelling_dual_single_ambient_sound_mode_level_adjustment =
    0x6A
function_table1_to_u8
      FunctionTable1.mode_nc_asm_noise_cancelling_dual_ambient_sound_mode_level_adjustment =
    0x6B
function_table1_to_u8
      FunctionTable1.mode_nc_ncss_asm_noise_cancelling_dual_ambient_sound_mode_level_adjustment_with_test_mode =
    0x6C
function_table1_to_u8
      FunctionTable1.mode_nc_asm_noise_cancelling_dual_ambient_sound_mode_level_adjustment_noise_adaptation =
    0x6D
function_table1_to_u8 FunctionTable1.auto_ncasm = 0x70
function_table1_to_u8 FunctionTable1.adaptive_control_with_parameter_notification = 0x71
function_table1_to_u8 FunctionTable1.nc_optimizer_personal_barometric = 0x80
function_table1_to_u8 FunctionTable1.nc_optimizer_personal = 0x81
function_table1_to_u8 FunctionTable1.nc_optimizer_barometric = 0x82
function_table1_to_u8 FunctionTable1.sound_field_optimization = 0x83
function_table1_to_u8 FunctionTable1.tv_sound_booster = 0x84
function_table1_to_u8 FunctionTable1.fixed_message = 0x90
function_table1_to_u8 FunctionTable1.vibrator_alert_notification = 0x91
function_table1_to_u8 FunctionTable1.fixed_message_with_lr_selection = 0x92
function_table1_to_u8 FunctionTable1.voice_assistant_alert_notification = 0x93
function_table1_to_u8 FunctionTable1.le_audio_alert_notification = 0x94
function_table1_to_u8 FunctionTable1.playback_controller_with_call_volume_adjustment = 0xA1
function_table1_to_u8 FunctionTable1.playback_controller_with_call_volume_adjustment_and_mute = 0xA2
function_table1_to_u8
      FunctionTable1.playback_controller_with_call_volume_adjustment_and_function_change =
    0xA3
function_table1_to_u8 FunctionTable1.playback_controller_with_function_change = 0xA4
function_table1_to_u8 FunctionTable1.sar = 0xB0
function_table1_to_u8 FunctionTable1.auto_play = 0xB1
function_table1_to_u8 FunctionTable1.gatt_connectable = 0xB2
function_table1_to_u8 FunctionTable1.sar_optimization_compass_accel_type = 0xB3
function_table1_to_u8 FunctionTable1.head_tracker_compass_accel_type = 0xB5
function_table1_to_u8 FunctionTable1.sar_optimization_accel_type = 0xB6
function_table1_to_u8 FunctionTable1.head_tracker_accel_type = 0xB7
function_table1_to_u8 FunctionTable1.integrated_auto_play = 0xB8
function_table1_to_u8 FunctionTable1.action_log_notifier = 0xC1
function_table1_to_u8 FunctionTable1.time_series_operationlog_notifier = 0xC2
function_table1_to_u8 FunctionTable1.sound_dropout_notifier = 0xC3
function_table1_to_u8 FunctionTable1.general_setting1 = 0xD1
function_table1_to_u8 FunctionTable1.general_setting2 = 0xD2
function_table1_to_u8 FunctionTable1.general_setting3 = 0xD3
function_table1_to_u8 FunctionTable1.general_setting4 = 0xD4
function_table1_to_u8 FunctionTable1.connection_mode_sound_quality_connection_quality = 0xE1
function_table1_to_u8 FunctionTable1.upscaling_auto_off = 0xE2
function_table1_to_u8
      FunctionTable1.connection_mode_sound_quality_sound_with_ldac_status_quality_connection_quality =
    0xE3
function_table1_to_u8 FunctionTable1.bgm_mode_small_middle_large = 0xE4
function_table1_to_u8 FunctionTable1.upmix_cinema = 0xE5
function_table1_to_u8 FunctionTable1.listening_option = 0xE6
function_table1_to_u8 FunctionTable1.connection_mode_classic_audio_le_audio = 0xE7
function_table1_to_u8 FunctionTable1.voice_contents = 0xE8
function_table1_to_u8 FunctionTable1.sound_leakage_reduction = 0xE9
function_table1_to_u8 FunctionTable1.listening_option_assign_customizable = 0xEA
function_table1_to_u8 FunctionTable1.bgm_mode_small_middle_large_and_error_code = 0xEB
function_table1_to_u8 FunctionTable1.upmix_series = 0xEC
function_table1_to_u8 FunctionTable1.vibrator_on_off = 0xF0
function_table1_to_u8 FunctionTable1.playback_control_by_wearing_removing_headphone_on_off = 0xF1
function_table1_to_u8 FunctionTable1.smart_talking_mode_type1 = 0xF2
function_table1_to_u8 FunctionTable1.assignable_setting = 0xF3
function_table1_to_u8 FunctionTable1.voice_assistant_settings = 0xF4
function_table1_to_u8 FunctionTable1.voice_assistant_wake_word_on_off = 0xF5
function_table1_to_u8 FunctionTable1.wearing_status_detector = 0xF6
function_table1_to_u8 FunctionTable1.earpiece_selection = 0xF7
function_table1_to_u8 FunctionTable1.call_settings = 0xF8
function_table1_to_u8 FunctionTable1.reset_settings = 0xF9
function_table1_to_u8 FunctionTable1.auto_volume = 0xFA
function_table1_to_u8 FunctionTable1.face_tap_test_mode = 0xFB
function_table1_to_u8 FunctionTable1.smart_talking_mode_type2 = 0xFC
function_table1_to_u8 FunctionTable1.quick_access = 0xFD
function_table1_to_u8 FunctionTable1.assignable_setting_with_limitation = 0xFE
function_table1_to_u8 FunctionTable1.head_gesture_on_off_training = 0xFF
function_table1_to_u8 FunctionTable1.unknown = 0x00

abbrev function_table1_variants : List FunctionTable1
function_table1_variants =
    FunctionTable1.concierge_data ∷ FunctionTable1.connection_status
    ∷ FunctionTable1.codec_indicator ∷ FunctionTable1.upscaling_indicator ∷ FunctionTable1.ble_setup
    ∷ FunctionTable1.tutorial_contents_select_on_concierge
    ∷ FunctionTable1.connection_established_time ∷ FunctionTable1.unnecessary_auto_reconnection
    ∷ FunctionTable1.device_special_mode
    ∷ FunctionTable1.phone_and_connected_device_infomation_for_classic
    ∷ FunctionTable1.tandem_reconnection_request ∷ FunctionTable1.display_fw_version
    ∷ FunctionTable1.battery_level_indicator ∷ FunctionTable1.left_right_battery_level_indicator
    ∷ FunctionTable1.cradle_battery_level_indicator ∷ FunctionTable1.power_off
    ∷ FunctionTable1.auto_power_off ∷ FunctionTable1.auto_power_off_with_wearing_detection
    ∷ FunctionTable1.power_saving_mode_on_off ∷ FunctionTable1.tandem_keep_alive
    ∷ FunctionTable1.battery_level_with_threshold ∷ FunctionTable1.lr_battery_level_with_threshold
    ∷ FunctionTable1.cradle_battery_level_with_threshold ∷ FunctionTable1.battery_safe_mode
    ∷ FunctionTable1.caring_charge ∷ FunctionTable1.bt_standby ∷ FunctionTable1.stamina
    ∷ FunctionTable1.automatic_touch_panel_backlight_turn_off
    ∷ FunctionTable1.fw_update_mtk_transfer_without_disconnection
    ∷ FunctionTable1.fw_update_mtk_transfer_without_disconnection_auto_update
    ∷ FunctionTable1.fw_update_mtk_transfer_with_repair_mode
    ∷ FunctionTable1.fw_update_mtk_transfer_with_ac_connection_check
    ∷ FunctionTable1.fw_update_tandem_transfer_using_common_table
    ∷ FunctionTable1.fw_update_using_mc_app
    ∷ FunctionTable1.tws_supports_a2dp_lea_uni_lea_broad_with_ctkd
    ∷ FunctionTable1.hbs_supports_a2dp_lea_uni_lea_broad_with_ctkd
    ∷ FunctionTable1.classic_only_le_classic_setting ∷ FunctionTable1.tws_supports_lea_uni_lea_broad
    ∷ FunctionTable1.change_tandem_connection_profile_for_android
    ∷ FunctionTable1.bgm_mode_cant_be_used_with_lea_connection
    ∷ FunctionTable1.head_tracker_cant_be_used_with_lea_connection
    ∷ FunctionTable1.pairing_device_management_cant_be_used_with_lea_connection
    ∷ FunctionTable1.sound_ar_cant_be_used_with_lea_connection
    ∷ FunctionTable1.auto_play_cant_be_used_with_lea_connection
    ∷ FunctionTable1.gatt_connectable_cant_be_used_with_lea_connection
    ∷ FunctionTable1.sound_ar_optimization_cant_be_used_with_lea_connection
    ∷ FunctionTable1.quick_access_cant_be_used_with_lea_connection
    ∷ FunctionTable1.connection_mode_cant_be_used_with_lea_connection
    ∷ FunctionTable1.voice_assistant_settings_cant_be_used_with_lea_connection
    ∷ FunctionTable1.voice_assistant_wake_word_cant_be_used_with_lea_connection
    ∷ FunctionTable1.preset_eq ∷ FunctionTable1.ebb ∷ FunctionTable1.preset_eq_non_customizable
    ∷ FunctionTable1.preset_eq_and_ult_mode ∷ FunctionTable1.sound_effect ∷ FunctionTable1.custom_eq
    ∷ FunctionTable1.turn_key_eq ∷ FunctionTable1.preset_eq_and_error_code
    ∷ FunctionTable1.noise_cancelling_on_off
    ∷ FunctionTable1.noise_cancelling_on_off_and_ambient_sound_mode_on_off
    ∷ FunctionTable1.noise_cancelling_dual_single_off_and_ambient_sound_mode_on_off
    ∷ FunctionTable1.noise_cancelling_on_off_and_ambient_sound_mode_level_adjustment
    ∷ FunctionTable1.noise_cancelling_dual_single_off_ambient_sound_mode_level_adjustment
    ∷ FunctionTable1.ambient_sound_mode_on_off ∷ FunctionTable1.ambient_sound_mode_level_adjustment
    ∷ FunctionTable1.mode_nc_asm_noise_cancelling_dual_auto_ambient_sound_mode_level_adjustment
    ∷ FunctionTable1.ambient_sound_control_mode_select
    ∷ FunctionTable1.mode_nc_asm_noise_cancelling_dual_single_ambient_sound_mode_level_adjustment
    ∷ FunctionTable1.mode_nc_asm_noise_cancelling_dual_ambient_sound_mode_level_adjustment
    ∷ FunctionTable1.mode_nc_ncss_asm_noise_cancelling_dual_ambient_sound_mode_level_adjustment_with_test_mode
    ∷ FunctionTable1.mode_nc_asm_noise_cancelling_dual_ambient_sound_mode_level_adjustment_noise_adaptation
    ∷ FunctionTable1.auto_ncasm ∷ FunctionTable1.adaptive_control_with_parameter_notification
    ∷ FunctionTable1.nc_optimizer_personal_barometric ∷ FunctionTable1.nc_optimizer_personal
    ∷ FunctionTable1.nc_optimizer_barometric ∷ FunctionTable1.sound_field_optimization
    ∷ FunctionTable1.tv_sound_booster ∷ FunctionTable1.fixed_message
    ∷ FunctionTable1.vibrator_alert_notification ∷ FunctionTable1.fixed_message_with_lr_selection
    ∷ FunctionTable1.voice_assistant_alert_notification ∷ FunctionTable1.le_audio_alert_notification
    ∷ FunctionTable1.playback_controller_with_call_volume_adjustment
    ∷ FunctionTable1.playback_controller_with_call_volume_adjustment_and_mute
    ∷ FunctionTable1.playback_controller_with_call_volume_adjustment_and_function_change
    ∷ FunctionTable1.playback_controller_with_function_change ∷ FunctionTable1.sar
    ∷ FunctionTable1.auto_play ∷ FunctionTable1.gatt_connectable
    ∷ FunctionTable1.sar_optimization_compass_accel_type
    ∷ FunctionTable1.head_tracker_compass_accel_type ∷ FunctionTable1.sar_optimization_accel_type
    ∷ FunctionTable1.head_tracker_accel_type ∷ FunctionTable1.integrated_auto_play
    ∷ FunctionTable1.action_log_notifier ∷ FunctionTable1.time_series_operationlog_notifier
    ∷ FunctionTable1.sound_dropout_notifier ∷ FunctionTable1.general_setting1
    ∷ FunctionTable1.general_setting2 ∷ FunctionTable1.general_setting3
    ∷ FunctionTable1.general_setting4
    ∷ FunctionTable1.connection_mode_sound_quality_connection_quality
    ∷ FunctionTable1.upscaling_auto_off
    ∷ FunctionTable1.connection_mode_sound_quality_sound_with_ldac_status_quality_connection_quality
    ∷ FunctionTable1.bgm_mode_small_middle_large ∷ FunctionTable1.upmix_cinema
    ∷ FunctionTable1.listening_option ∷ FunctionTable1.connection_mode_classic_audio_le_audio
    ∷ FunctionTable1.voice_contents ∷ FunctionTable1.sound_leakage_reduction
    ∷ FunctionTable1.listening_option_assign_customizable
    ∷ FunctionTable1.bgm_mode_small_middle_large_and_error_code ∷ FunctionTable1.upmix_series
    ∷ FunctionTable1.vibrator_on_off
    ∷ FunctionTable1.playback_control_by_wearing_removing_headphone_on_off
    ∷ FunctionTable1.smart_talking_mode_type1 ∷ FunctionTable1.assignable_setting
    ∷ FunctionTable1.voice_assistant_settings ∷ FunctionTable1.voice_assistant_wake_word_on_off
    ∷ FunctionTable1.wearing_status_detector ∷ FunctionTable1.earpiece_selection
    ∷ FunctionTable1.call_settings ∷ FunctionTable1.reset_settings ∷ FunctionTable1.auto_volume
    ∷ FunctionTable1.face_tap_test_mode ∷ FunctionTable1.smart_talking_mode_type2
    ∷ FunctionTable1.quick_access ∷ FunctionTable1.assignable_setting_with_limitation
    ∷ FunctionTable1.head_gesture_on_off_training ∷ FunctionTable1.unknown ∷ []

pub find_variant-function_table1_to_u8 :
    (x : FunctionTable1)
    → find_variant function_table1_to_u8 FunctionTable1.unknown function_table1_variants
        (function_table1_to_u8 x)
      ≡ x
unfolding find_variant function_table1_to_u8
find_variant-function_table1_to_u8 FunctionTable1.concierge_data = refl
find_variant-function_table1_to_u8 _ = refl

instance abbrev pub function_table1_enum : U8Enum FunctionTable1
function_table1_enum = record {
  to_u8 = function_table1_to_u8;
  variants = function_table1_variants;
  unknown = FunctionTable1.unknown;
  from_u8-to_u8 = find_variant-function_table1_to_u8;
}
