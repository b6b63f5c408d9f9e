-- ===== src/Protocol/Enums/OpcodesT1.antt =====
-- The table 1 command opcodes of src/protocol/enums.rs: the variants, their bytes,
-- and the instances by which `from_u8`, `to_u8` and `==` apply.
use sony_buds_tray_control.Prelude.{ℕ, ◌≡◌, refl, List, [], ◌∷◌}
use sony_buds_tray_control.Protocol.Enums.Macro.{U8Enum, find_variant}

pub data CommandT1 : Type 0 where
  connect_get_protocol_info connect_ret_protocol_info connect_get_capability_info : CommandT1
  connect_ret_capability_info connect_get_device_info connect_ret_device_info : CommandT1
  connect_get_support_function connect_ret_support_function get_test : CommandT1
  common_get_capability common_ret_capability common_get_status common_ret_status : CommandT1
  common_ntfy_status common_set_param common_ntfy_param power_get_capability : CommandT1
  power_ret_capability power_get_status power_ret_status power_set_status : CommandT1
  power_ntfy_status power_get_param power_ret_param power_set_param power_ntfy_param : CommandT1
  update_get_capability update_ret_capability update_get_status update_ret_status : CommandT1
  update_set_status update_ntfy_status update_get_param update_ret_param : CommandT1
  update_set_param update_ntfy_param lea_get_capability lea_ret_capability : CommandT1
  lea_get_status lea_ret_status lea_ntfy_status lea_get_param lea_ret_param : CommandT1
  lea_set_param lea_ntfy_param eq_ebb_get_status eq_ebb_ret_status eq_ebb_ntfy_status : CommandT1
  eq_ebb_get_param eq_ebb_ret_param eq_ebb_set_param eq_ebb_ntfy_param : CommandT1
  eq_ebb_get_extended_info eq_ebb_ret_extended_info nc_asm_get_capability : CommandT1
  nc_asm_ret_capability nc_asm_get_status nc_asm_ret_status nc_asm_set_status : CommandT1
  nc_asm_ntfy_status nc_asm_get_param nc_asm_ret_param nc_asm_set_param : CommandT1
  nc_asm_ntfy_param sense_get_capability sense_ret_capability sense_set_status : CommandT1
  sense_ntfy_status sense_set_param sense_ntfy_param sense_get_ext_info : CommandT1
  sense_ret_ext_info opt_get_capability opt_ret_capability opt_get_status : CommandT1
  opt_ret_status opt_set_status opt_ntfy_status opt_get_param opt_ret_param : CommandT1
  opt_set_param opt_ntfy_param alert_get_capability alert_ret_capability : CommandT1
  alert_get_status alert_ret_status alert_set_status alert_ntfy_status alert_set_param : CommandT1
  alert_ntfy_param play_get_capability play_ret_capability play_get_status : CommandT1
  play_ret_status play_set_status play_ntfy_status play_get_param play_ret_param : CommandT1
  play_set_param play_ntfy_param sar_auto_play_get_capability : CommandT1
  sar_auto_play_ret_capability sar_auto_play_get_status sar_auto_play_ret_status : CommandT1
  sar_auto_play_ntfy_status sar_auto_play_get_param sar_auto_play_ret_param : CommandT1
  sar_auto_play_set_param sar_auto_play_ntfy_param log_set_status log_ntfy_param : CommandT1
  general_setting_get_capability general_setting_ret_capability : CommandT1
  general_setting_get_status general_setting_ret_status general_setting_ntfy_status : CommandT1
  general_setting_get_param general_setting_ret_param general_setting_set_param : CommandT1
  general_setting_ntfy_param audio_get_capability audio_ret_capability audio_get_status : CommandT1
  audio_ret_status audio_ntfy_status audio_get_param audio_ret_param audio_set_param : CommandT1
  audio_ntfy_param system_get_capability system_ret_capability system_get_status : CommandT1
  system_ret_status system_set_status system_ntfy_status system_get_param : CommandT1
  system_ret_param system_set_param system_ntfy_param system_get_ext_param : CommandT1
  system_ret_ext_param system_set_ext_param system_ntfy_ext_param unknown : CommandT1

unfoldable pub command_t1_to_u8 : CommandT1 → ℕ
command_t1_to_u8 CommandT1.connect_get_protocol_info = 0x00
command_t1_to_u8 CommandT1.connect_ret_protocol_info = 0x01
command_t1_to_u8 CommandT1.connect_get_capability_info = 0x02
command_t1_to_u8 CommandT1.connect_ret_capability_info = 0x03
command_t1_to_u8 CommandT1.connect_get_device_info = 0x04
command_t1_to_u8 CommandT1.connect_ret_device_info = 0x05
command_t1_to_u8 CommandT1.connect_get_support_function = 0x06
command_t1_to_u8 CommandT1.connect_ret_support_function = 0x07
command_t1_to_u8 CommandT1.get_test = 0x0F
command_t1_to_u8 CommandT1.common_get_capability = 0x10
command_t1_to_u8 CommandT1.common_ret_capability = 0x11
command_t1_to_u8 CommandT1.common_get_status = 0x12
command_t1_to_u8 CommandT1.common_ret_status = 0x13
command_t1_to_u8 CommandT1.common_ntfy_status = 0x15
command_t1_to_u8 CommandT1.common_set_param = 0x18
command_t1_to_u8 CommandT1.common_ntfy_param = 0x19
command_t1_to_u8 CommandT1.power_get_capability = 0x20
command_t1_to_u8 CommandT1.power_ret_capability = 0x21
command_t1_to_u8 CommandT1.power_get_status = 0x22
command_t1_to_u8 CommandT1.power_ret_status = 0x23
command_t1_to_u8 CommandT1.power_set_status = 0x24
command_t1_to_u8 CommandT1.power_ntfy_status = 0x25
command_t1_to_u8 CommandT1.power_get_param = 0x26
command_t1_to_u8 CommandT1.power_ret_param = 0x27
command_t1_to_u8 CommandT1.power_set_param = 0x28
command_t1_to_u8 CommandT1.power_ntfy_param = 0x29
command_t1_to_u8 CommandT1.update_get_capability = 0x30
command_t1_to_u8 CommandT1.update_ret_capability = 0x31
command_t1_to_u8 CommandT1.update_get_status = 0x32
command_t1_to_u8 CommandT1.update_ret_status = 0x33
command_t1_to_u8 CommandT1.update_set_status = 0x34
command_t1_to_u8 CommandT1.update_ntfy_status = 0x35
command_t1_to_u8 CommandT1.update_get_param = 0x36
command_t1_to_u8 CommandT1.update_ret_param = 0x37
command_t1_to_u8 CommandT1.update_set_param = 0x38
command_t1_to_u8 CommandT1.update_ntfy_param = 0x39
command_t1_to_u8 CommandT1.lea_get_capability = 0x40
command_t1_to_u8 CommandT1.lea_ret_capability = 0x41
command_t1_to_u8 CommandT1.lea_get_status = 0x42
command_t1_to_u8 CommandT1.lea_ret_status = 0x43
command_t1_to_u8 CommandT1.lea_ntfy_status = 0x45
command_t1_to_u8 CommandT1.lea_get_param = 0x46
command_t1_to_u8 CommandT1.lea_ret_param = 0x47
command_t1_to_u8 CommandT1.lea_set_param = 0x48
command_t1_to_u8 CommandT1.lea_ntfy_param = 0x49
command_t1_to_u8 CommandT1.eq_ebb_get_status = 0x52
command_t1_to_u8 CommandT1.eq_ebb_ret_status = 0x53
command_t1_to_u8 CommandT1.eq_ebb_ntfy_status = 0x55
command_t1_to_u8 CommandT1.eq_ebb_get_param = 0x56
command_t1_to_u8 CommandT1.eq_ebb_ret_param = 0x57
command_t1_to_u8 CommandT1.eq_ebb_set_param = 0x58
command_t1_to_u8 CommandT1.eq_ebb_ntfy_param = 0x59
command_t1_to_u8 CommandT1.eq_ebb_get_extended_info = 0x5A
command_t1_to_u8 CommandT1.eq_ebb_ret_extended_info = 0x5B
command_t1_to_u8 CommandT1.nc_asm_get_capability = 0x60
command_t1_to_u8 CommandT1.nc_asm_ret_capability = 0x61
command_t1_to_u8 CommandT1.nc_asm_get_status = 0x62
command_t1_to_u8 CommandT1.nc_asm_ret_status = 0x63
command_t1_to_u8 CommandT1.nc_asm_set_status = 0x64
command_t1_to_u8 CommandT1.nc_asm_ntfy_status = 0x65
command_t1_to_u8 CommandT1.nc_asm_get_param = 0x66
command_t1_to_u8 CommandT1.nc_asm_ret_param = 0x67
command_t1_to_u8 CommandT1.nc_asm_set_param = 0x68
command_t1_to_u8 CommandT1.nc_asm_ntfy_param = 0x69
command_t1_to_u8 CommandT1.sense_get_capability = 0x70
command_t1_to_u8 CommandT1.sense_ret_capability = 0x71
command_t1_to_u8 CommandT1.sense_set_status = 0x74
command_t1_to_u8 CommandT1.sense_ntfy_status = 0x75
command_t1_to_u8 CommandT1.sense_set_param = 0x78
command_t1_to_u8 CommandT1.sense_ntfy_param = 0x79
command_t1_to_u8 CommandT1.sense_get_ext_info = 0x7A
command_t1_to_u8 CommandT1.sense_ret_ext_info = 0x7B
command_t1_to_u8 CommandT1.opt_get_capability = 0x80
command_t1_to_u8 CommandT1.opt_ret_capability = 0x81
command_t1_to_u8 CommandT1.opt_get_status = 0x82
command_t1_to_u8 CommandT1.opt_ret_status = 0x83
command_t1_to_u8 CommandT1.opt_set_status = 0x84
command_t1_to_u8 CommandT1.opt_ntfy_status = 0x85
command_t1_to_u8 CommandT1.opt_get_param = 0x86
command_t1_to_u8 CommandT1.opt_ret_param = 0x87
command_t1_to_u8 CommandT1.opt_set_param = 0x88
command_t1_to_u8 CommandT1.opt_ntfy_param = 0x89
command_t1_to_u8 CommandT1.alert_get_capability = 0x90
command_t1_to_u8 CommandT1.alert_ret_capability = 0x91
command_t1_to_u8 CommandT1.alert_get_status = 0x92
command_t1_to_u8 CommandT1.alert_ret_status = 0x93
command_t1_to_u8 CommandT1.alert_set_status = 0x94
command_t1_to_u8 CommandT1.alert_ntfy_status = 0x95
command_t1_to_u8 CommandT1.alert_set_param = 0x98
command_t1_to_u8 CommandT1.alert_ntfy_param = 0x99
command_t1_to_u8 CommandT1.play_get_capability = 0xA0
command_t1_to_u8 CommandT1.play_ret_capability = 0xA1
command_t1_to_u8 CommandT1.play_get_status = 0xA2
command_t1_to_u8 CommandT1.play_ret_status = 0xA3
command_t1_to_u8 CommandT1.play_set_status = 0xA4
command_t1_to_u8 CommandT1.play_ntfy_status = 0xA5
command_t1_to_u8 CommandT1.play_get_param = 0xA6
command_t1_to_u8 CommandT1.play_ret_param = 0xA7
command_t1_to_u8 CommandT1.play_set_param = 0xA8
command_t1_to_u8 CommandT1.play_ntfy_param = 0xA9
command_t1_to_u8 CommandT1.sar_auto_play_get_capability = 0xB0
command_t1_to_u8 CommandT1.sar_auto_play_ret_capability = 0xB1
command_t1_to_u8 CommandT1.sar_auto_play_get_status = 0xB2
command_t1_to_u8 CommandT1.sar_auto_play_ret_status = 0xB3
command_t1_to_u8 CommandT1.sar_auto_play_ntfy_status = 0xB5
command_t1_to_u8 CommandT1.sar_auto_play_get_param = 0xB6
command_t1_to_u8 CommandT1.sar_auto_play_ret_param = 0xB7
command_t1_to_u8 CommandT1.sar_auto_play_set_param = 0xB8
command_t1_to_u8 CommandT1.sar_auto_play_ntfy_param = 0xB9
command_t1_to_u8 CommandT1.log_set_status = 0xC4
command_t1_to_u8 CommandT1.log_ntfy_param = 0xC9
command_t1_to_u8 CommandT1.general_setting_get_capability = 0xD0
command_t1_to_u8 CommandT1.general_setting_ret_capability = 0xD1
command_t1_to_u8 CommandT1.general_setting_get_status = 0xD2
command_t1_to_u8 CommandT1.general_setting_ret_status = 0xD3
command_t1_to_u8 CommandT1.general_setting_ntfy_status = 0xD5
command_t1_to_u8 CommandT1.general_setting_get_param = 0xD6
command_t1_to_u8 CommandT1.general_setting_ret_param = 0xD7
command_t1_to_u8 CommandT1.general_setting_set_param = 0xD8
command_t1_to_u8 CommandT1.general_setting_ntfy_param = 0xD9
command_t1_to_u8 CommandT1.audio_get_capability = 0xE0
command_t1_to_u8 CommandT1.audio_ret_capability = 0xE1
command_t1_to_u8 CommandT1.audio_get_status = 0xE2
command_t1_to_u8 CommandT1.audio_ret_status = 0xE3
command_t1_to_u8 CommandT1.audio_ntfy_status = 0xE5
command_t1_to_u8 CommandT1.audio_get_param = 0xE6
command_t1_to_u8 CommandT1.audio_ret_param = 0xE7
command_t1_to_u8 CommandT1.audio_set_param = 0xE8
command_t1_to_u8 CommandT1.audio_ntfy_param = 0xE9
command_t1_to_u8 CommandT1.system_get_capability = 0xF0
command_t1_to_u8 CommandT1.system_ret_capability = 0xF1
command_t1_to_u8 CommandT1.system_get_status = 0xF2
command_t1_to_u8 CommandT1.system_ret_status = 0xF3
command_t1_to_u8 CommandT1.system_set_status = 0xF4
command_t1_to_u8 CommandT1.system_ntfy_status = 0xF5
command_t1_to_u8 CommandT1.system_get_param = 0xF6
command_t1_to_u8 CommandT1.system_ret_param = 0xF7
command_t1_to_u8 CommandT1.system_set_param = 0xF8
command_t1_to_u8 CommandT1.system_ntfy_param = 0xF9
command_t1_to_u8 CommandT1.system_get_ext_param = 0xFA
command_t1_to_u8 CommandT1.system_ret_ext_param = 0xFB
command_t1_to_u8 CommandT1.system_set_ext_param = 0xFC
command_t1_to_u8 CommandT1.system_ntfy_ext_param = 0xFD
command_t1_to_u8 CommandT1.unknown = 0xFF

abbrev command_t1_variants : List CommandT1
command_t1_variants =
    CommandT1.connect_get_protocol_info ∷ CommandT1.connect_ret_protocol_info
    ∷ CommandT1.connect_get_capability_info ∷ CommandT1.connect_ret_capability_info
    ∷ CommandT1.connect_get_device_info ∷ CommandT1.connect_ret_device_info
    ∷ CommandT1.connect_get_support_function ∷ CommandT1.connect_ret_support_function
    ∷ CommandT1.get_test ∷ CommandT1.common_get_capability ∷ CommandT1.common_ret_capability
    ∷ CommandT1.common_get_status ∷ CommandT1.common_ret_status ∷ CommandT1.common_ntfy_status
    ∷ CommandT1.common_set_param ∷ CommandT1.common_ntfy_param ∷ CommandT1.power_get_capability
    ∷ CommandT1.power_ret_capability ∷ CommandT1.power_get_status ∷ CommandT1.power_ret_status
    ∷ CommandT1.power_set_status ∷ CommandT1.power_ntfy_status ∷ CommandT1.power_get_param
    ∷ CommandT1.power_ret_param ∷ CommandT1.power_set_param ∷ CommandT1.power_ntfy_param
    ∷ CommandT1.update_get_capability ∷ CommandT1.update_ret_capability
    ∷ CommandT1.update_get_status ∷ CommandT1.update_ret_status ∷ CommandT1.update_set_status
    ∷ CommandT1.update_ntfy_status ∷ CommandT1.update_get_param ∷ CommandT1.update_ret_param
    ∷ CommandT1.update_set_param ∷ CommandT1.update_ntfy_param ∷ CommandT1.lea_get_capability
    ∷ CommandT1.lea_ret_capability ∷ CommandT1.lea_get_status ∷ CommandT1.lea_ret_status
    ∷ CommandT1.lea_ntfy_status ∷ CommandT1.lea_get_param ∷ CommandT1.lea_ret_param
    ∷ CommandT1.lea_set_param ∷ CommandT1.lea_ntfy_param ∷ CommandT1.eq_ebb_get_status
    ∷ CommandT1.eq_ebb_ret_status ∷ CommandT1.eq_ebb_ntfy_status ∷ CommandT1.eq_ebb_get_param
    ∷ CommandT1.eq_ebb_ret_param ∷ CommandT1.eq_ebb_set_param ∷ CommandT1.eq_ebb_ntfy_param
    ∷ CommandT1.eq_ebb_get_extended_info ∷ CommandT1.eq_ebb_ret_extended_info
    ∷ CommandT1.nc_asm_get_capability ∷ CommandT1.nc_asm_ret_capability
    ∷ CommandT1.nc_asm_get_status ∷ CommandT1.nc_asm_ret_status ∷ CommandT1.nc_asm_set_status
    ∷ CommandT1.nc_asm_ntfy_status ∷ CommandT1.nc_asm_get_param ∷ CommandT1.nc_asm_ret_param
    ∷ CommandT1.nc_asm_set_param ∷ CommandT1.nc_asm_ntfy_param ∷ CommandT1.sense_get_capability
    ∷ CommandT1.sense_ret_capability ∷ CommandT1.sense_set_status ∷ CommandT1.sense_ntfy_status
    ∷ CommandT1.sense_set_param ∷ CommandT1.sense_ntfy_param ∷ CommandT1.sense_get_ext_info
    ∷ CommandT1.sense_ret_ext_info ∷ CommandT1.opt_get_capability ∷ CommandT1.opt_ret_capability
    ∷ CommandT1.opt_get_status ∷ CommandT1.opt_ret_status ∷ CommandT1.opt_set_status
    ∷ CommandT1.opt_ntfy_status ∷ CommandT1.opt_get_param ∷ CommandT1.opt_ret_param
    ∷ CommandT1.opt_set_param ∷ CommandT1.opt_ntfy_param ∷ CommandT1.alert_get_capability
    ∷ CommandT1.alert_ret_capability ∷ CommandT1.alert_get_status ∷ CommandT1.alert_ret_status
    ∷ CommandT1.alert_set_status ∷ CommandT1.alert_ntfy_status ∷ CommandT1.alert_set_param
    ∷ CommandT1.alert_ntfy_param ∷ CommandT1.play_get_capability ∷ CommandT1.play_ret_capability
    ∷ CommandT1.play_get_status ∷ CommandT1.play_ret_status ∷ CommandT1.play_set_status
    ∷ CommandT1.play_ntfy_status ∷ CommandT1.play_get_param ∷ CommandT1.play_ret_param
    ∷ CommandT1.play_set_param ∷ CommandT1.play_ntfy_param ∷ CommandT1.sar_auto_play_get_capability
    ∷ CommandT1.sar_auto_play_ret_capability ∷ CommandT1.sar_auto_play_get_status
    ∷ CommandT1.sar_auto_play_ret_status ∷ CommandT1.sar_auto_play_ntfy_status
    ∷ CommandT1.sar_auto_play_get_param ∷ CommandT1.sar_auto_play_ret_param
    ∷ CommandT1.sar_auto_play_set_param ∷ CommandT1.sar_auto_play_ntfy_param
    ∷ CommandT1.log_set_status ∷ CommandT1.log_ntfy_param ∷ CommandT1.general_setting_get_capability
    ∷ CommandT1.general_setting_ret_capability ∷ CommandT1.general_setting_get_status
    ∷ CommandT1.general_setting_ret_status ∷ CommandT1.general_setting_ntfy_status
    ∷ CommandT1.general_setting_get_param ∷ CommandT1.general_setting_ret_param
    ∷ CommandT1.general_setting_set_param ∷ CommandT1.general_setting_ntfy_param
    ∷ CommandT1.audio_get_capability ∷ CommandT1.audio_ret_capability ∷ CommandT1.audio_get_status
    ∷ CommandT1.audio_ret_status ∷ CommandT1.audio_ntfy_status ∷ CommandT1.audio_get_param
    ∷ CommandT1.audio_ret_param ∷ CommandT1.audio_set_param ∷ CommandT1.audio_ntfy_param
    ∷ CommandT1.system_get_capability ∷ CommandT1.system_ret_capability
    ∷ CommandT1.system_get_status ∷ CommandT1.system_ret_status ∷ CommandT1.system_set_status
    ∷ CommandT1.system_ntfy_status ∷ CommandT1.system_get_param ∷ CommandT1.system_ret_param
    ∷ CommandT1.system_set_param ∷ CommandT1.system_ntfy_param ∷ CommandT1.system_get_ext_param
    ∷ CommandT1.system_ret_ext_param ∷ CommandT1.system_set_ext_param
    ∷ CommandT1.system_ntfy_ext_param ∷ CommandT1.unknown ∷ []

pub find_variant-command_t1_to_u8 :
    (x : CommandT1)
    → find_variant command_t1_to_u8 CommandT1.unknown command_t1_variants (command_t1_to_u8 x) ≡ x
unfolding find_variant command_t1_to_u8
find_variant-command_t1_to_u8 CommandT1.connect_get_protocol_info = refl
find_variant-command_t1_to_u8 _ = refl

instance abbrev pub command_t1_enum : U8Enum CommandT1
command_t1_enum = record {
  to_u8 = command_t1_to_u8;
  variants = command_t1_variants;
  unknown = CommandT1.unknown;
  from_u8-to_u8 = find_variant-command_t1_to_u8;
}
