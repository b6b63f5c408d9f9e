-- ===== src/Protocol/Enums/Basic.antt =====
-- The switches, inquired types and codecs of src/protocol/enums.rs: the variants, their bytes,
-- and the instances by which `from_u8`, `to_u8` and `==` apply.
use sony_buds_tray_control.Prelude.{ℕ, ◌≡◌, refl, List, [], ◌∷◌}
use sony_buds_tray_control.Protocol.Enums.Macro.{U8Enum, find_variant}

pub data EnableDisable : Type 0 where
  enable disable unknown : EnableDisable

unfoldable pub enable_disable_to_u8 : EnableDisable → ℕ
enable_disable_to_u8 EnableDisable.enable = 0
enable_disable_to_u8 EnableDisable.disable = 1
enable_disable_to_u8 EnableDisable.unknown = 0xFF

abbrev enable_disable_variants : List EnableDisable
enable_disable_variants = EnableDisable.enable ∷ EnableDisable.disable ∷ EnableDisable.unknown ∷ []

pub find_variant-enable_disable_to_u8 :
    (x : EnableDisable)
    → find_variant enable_disable_to_u8 EnableDisable.unknown enable_disable_variants
        (enable_disable_to_u8 x)
      ≡ x
unfolding find_variant enable_disable_to_u8
find_variant-enable_disable_to_u8 EnableDisable.enable = refl
find_variant-enable_disable_to_u8 _ = refl

instance abbrev pub enable_disable_enum : U8Enum EnableDisable
enable_disable_enum = record {
  to_u8 = enable_disable_to_u8;
  variants = enable_disable_variants;
  unknown = EnableDisable.unknown;
  from_u8-to_u8 = find_variant-enable_disable_to_u8;
}

pub data OnOffSetting : Type 0 where
  on off unknown : OnOffSetting

unfoldable pub on_off_setting_to_u8 : OnOffSetting → ℕ
on_off_setting_to_u8 OnOffSetting.on = 0
on_off_setting_to_u8 OnOffSetting.off = 1
on_off_setting_to_u8 OnOffSetting.unknown = 0xFF

abbrev on_off_setting_variants : List OnOffSetting
on_off_setting_variants = OnOffSetting.on ∷ OnOffSetting.off ∷ OnOffSetting.unknown ∷ []

pub find_variant-on_off_setting_to_u8 :
    (x : OnOffSetting)
    → find_variant on_off_setting_to_u8 OnOffSetting.unknown on_off_setting_variants
        (on_off_setting_to_u8 x)
      ≡ x
unfolding find_variant on_off_setting_to_u8
find_variant-on_off_setting_to_u8 OnOffSetting.on = refl
find_variant-on_off_setting_to_u8 _ = refl

instance abbrev pub on_off_setting_enum : U8Enum OnOffSetting
on_off_setting_enum = record {
  to_u8 = on_off_setting_to_u8;
  variants = on_off_setting_variants;
  unknown = OnOffSetting.unknown;
  from_u8-to_u8 = find_variant-on_off_setting_to_u8;
}

pub data ConnectInquiredType : Type 0 where
  fixed_value unknown : ConnectInquiredType

unfoldable pub connect_inquired_type_to_u8 : ConnectInquiredType → ℕ
connect_inquired_type_to_u8 ConnectInquiredType.fixed_value = 0
connect_inquired_type_to_u8 ConnectInquiredType.unknown = 0xFF

abbrev connect_inquired_type_variants : List ConnectInquiredType
connect_inquired_type_variants = ConnectInquiredType.fixed_value ∷ ConnectInquiredType.unknown ∷ []

pub find_variant-connect_inquired_type_to_u8 :
    (x : ConnectInquiredType)
    → find_variant connect_inquired_type_to_u8 ConnectInquiredType.unknown
        connect_inquired_type_variants
        (connect_inquired_type_to_u8 x)
      ≡ x
unfolding find_variant connect_inquired_type_to_u8
find_variant-connect_inquired_type_to_u8 ConnectInquiredType.fixed_value = refl
find_variant-connect_inquired_type_to_u8 _ = refl

instance abbrev pub connect_inquired_type_enum : U8Enum ConnectInquiredType
connect_inquired_type_enum = record {
  to_u8 = connect_inquired_type_to_u8;
  variants = connect_inquired_type_variants;
  unknown = ConnectInquiredType.unknown;
  from_u8-to_u8 = find_variant-connect_inquired_type_to_u8;
}

pub data CommonInquiredType : Type 0 where
  concierge connection_status audio_codec upscaling_effect ble_setup : CommonInquiredType
  connection_established_time device_special_mode : CommonInquiredType
  smart_phone_and_connected_device_information_for_classic tandem_reconnection_request :
      CommonInquiredType
  display_fw_version unknown : CommonInquiredType

unfoldable pub common_inquired_type_to_u8 : CommonInquiredType → ℕ
common_inquired_type_to_u8 CommonInquiredType.concierge = 0x00
common_inquired_type_to_u8 CommonInquiredType.connection_status = 0x01
common_inquired_type_to_u8 CommonInquiredType.audio_codec = 0x02
common_inquired_type_to_u8 CommonInquiredType.upscaling_effect = 0x03
common_inquired_type_to_u8 CommonInquiredType.ble_setup = 0x04
common_inquired_type_to_u8 CommonInquiredType.connection_established_time = 0x05
common_inquired_type_to_u8 CommonInquiredType.device_special_mode = 0x06
common_inquired_type_to_u8
      CommonInquiredType.smart_phone_and_connected_device_information_for_classic =
    0x07
common_inquired_type_to_u8 CommonInquiredType.tandem_reconnection_request = 0x08
common_inquired_type_to_u8 CommonInquiredType.display_fw_version = 0x09
common_inquired_type_to_u8 CommonInquiredType.unknown = 0xFF

abbrev common_inquired_type_variants : List CommonInquiredType
common_inquired_type_variants =
    CommonInquiredType.concierge ∷ CommonInquiredType.connection_status
    ∷ CommonInquiredType.audio_codec ∷ CommonInquiredType.upscaling_effect
    ∷ CommonInquiredType.ble_setup ∷ CommonInquiredType.connection_established_time
    ∷ CommonInquiredType.device_special_mode
    ∷ CommonInquiredType.smart_phone_and_connected_device_information_for_classic
    ∷ CommonInquiredType.tandem_reconnection_request ∷ CommonInquiredType.display_fw_version
    ∷ CommonInquiredType.unknown ∷ []

pub find_variant-common_inquired_type_to_u8 :
    (x : CommonInquiredType)
    → find_variant common_inquired_type_to_u8 CommonInquiredType.unknown
        common_inquired_type_variants
        (common_inquired_type_to_u8 x)
      ≡ x
unfolding find_variant common_inquired_type_to_u8
find_variant-common_inquired_type_to_u8 CommonInquiredType.concierge = refl
find_variant-common_inquired_type_to_u8 _ = refl

instance abbrev pub common_inquired_type_enum : U8Enum CommonInquiredType
common_inquired_type_enum = record {
  to_u8 = common_inquired_type_to_u8;
  variants = common_inquired_type_variants;
  unknown = CommonInquiredType.unknown;
  from_u8-to_u8 = find_variant-common_inquired_type_to_u8;
}

pub data AudioCodec : Type 0 where
  unsettled sbc aac ldac apt_x apt_x_hd lc3 other unknown : AudioCodec

unfoldable pub audio_codec_to_u8 : AudioCodec → ℕ
audio_codec_to_u8 AudioCodec.unsettled = 0x00
audio_codec_to_u8 AudioCodec.sbc = 0x01
audio_codec_to_u8 AudioCodec.aac = 0x02
audio_codec_to_u8 AudioCodec.ldac = 0x10
audio_codec_to_u8 AudioCodec.apt_x = 0x20
audio_codec_to_u8 AudioCodec.apt_x_hd = 0x21
audio_codec_to_u8 AudioCodec.lc3 = 0x30
audio_codec_to_u8 AudioCodec.other = 0xFF
audio_codec_to_u8 AudioCodec.unknown = 0xFE

abbrev audio_codec_variants : List AudioCodec
audio_codec_variants =
    AudioCodec.unsettled ∷ AudioCodec.sbc ∷ AudioCodec.aac ∷ AudioCodec.ldac ∷ AudioCodec.apt_x
    ∷ AudioCodec.apt_x_hd ∷ AudioCodec.lc3 ∷ AudioCodec.other ∷ AudioCodec.unknown ∷ []

pub find_variant-audio_codec_to_u8 :
    (x : AudioCodec)
    → find_variant audio_codec_to_u8 AudioCodec.unknown audio_codec_variants (audio_codec_to_u8 x)
      ≡ x
unfolding find_variant audio_codec_to_u8
find_variant-audio_codec_to_u8 AudioCodec.unsettled = refl
find_variant-audio_codec_to_u8 _ = refl

instance abbrev pub audio_codec_enum : U8Enum AudioCodec
audio_codec_enum = record {
  to_u8 = audio_codec_to_u8;
  variants = audio_codec_variants;
  unknown = AudioCodec.unknown;
  from_u8-to_u8 = find_variant-audio_codec_to_u8;
}
