-- ===== src/Protocol/Enums/Audio.antt =====
-- The audio types of src/protocol/enums.rs: the variants, their bytes,
-- and the instances by which `from_u8`, `to_u8` and `==` apply.
use sony_buds_tray_control.Prelude.{ℕ, ◌≡◌, refl, List, [], ◌∷◌}
use sony_buds_tray_control.Protocol.Enums.Macro.{U8Enum, find_variant}

pub data AudioInquiredType : Type 0 where
  connection_mode upscaling connection_mode_with_ldac_status bgm_mode upmix_cinema :
      AudioInquiredType
  connection_mode_classic_audio_le_audio voice_contents sound_leakage_reduction : AudioInquiredType
  listening_option_assign_customizable bgm_mode_and_error_code upmix_series unknown :
      AudioInquiredType

unfoldable pub audio_inquired_type_to_u8 : AudioInquiredType → ℕ
audio_inquired_type_to_u8 AudioInquiredType.connection_mode = 0x00
audio_inquired_type_to_u8 AudioInquiredType.upscaling = 0x01
audio_inquired_type_to_u8 AudioInquiredType.connection_mode_with_ldac_status = 0x02
audio_inquired_type_to_u8 AudioInquiredType.bgm_mode = 0x03
audio_inquired_type_to_u8 AudioInquiredType.upmix_cinema = 0x04
audio_inquired_type_to_u8 AudioInquiredType.connection_mode_classic_audio_le_audio = 0x05
audio_inquired_type_to_u8 AudioInquiredType.voice_contents = 0x06
audio_inquired_type_to_u8 AudioInquiredType.sound_leakage_reduction = 0x07
audio_inquired_type_to_u8 AudioInquiredType.listening_option_assign_customizable = 0x08
audio_inquired_type_to_u8 AudioInquiredType.bgm_mode_and_error_code = 0x09
audio_inquired_type_to_u8 AudioInquiredType.upmix_series = 0x0A
audio_inquired_type_to_u8 AudioInquiredType.unknown = 0xFF

abbrev audio_inquired_type_variants : List AudioInquiredType
audio_inquired_type_variants =
    AudioInquiredType.connection_mode ∷ AudioInquiredType.upscaling
    ∷ AudioInquiredType.connection_mode_with_ldac_status ∷ AudioInquiredType.bgm_mode
    ∷ AudioInquiredType.upmix_cinema ∷ AudioInquiredType.connection_mode_classic_audio_le_audio
    ∷ AudioInquiredType.voice_contents ∷ AudioInquiredType.sound_leakage_reduction
    ∷ AudioInquiredType.listening_option_assign_customizable
    ∷ AudioInquiredType.bgm_mode_and_error_code ∷ AudioInquiredType.upmix_series
    ∷ AudioInquiredType.unknown ∷ []

pub find_variant-audio_inquired_type_to_u8 :
    (x : AudioInquiredType)
    → find_variant audio_inquired_type_to_u8 AudioInquiredType.unknown audio_inquired_type_variants
        (audio_inquired_type_to_u8 x)
      ≡ x
unfolding find_variant audio_inquired_type_to_u8
find_variant-audio_inquired_type_to_u8 AudioInquiredType.connection_mode = refl
find_variant-audio_inquired_type_to_u8 _ = refl

instance abbrev pub audio_inquired_type_enum : U8Enum AudioInquiredType
audio_inquired_type_enum = record {
  to_u8 = audio_inquired_type_to_u8;
  variants = audio_inquired_type_variants;
  unknown = AudioInquiredType.unknown;
  from_u8-to_u8 = find_variant-audio_inquired_type_to_u8;
}

pub data PriorMode : Type 0 where
  sound_quality_prior connection_quality_prior low_latency_prior_beta unknown : PriorMode

unfoldable pub prior_mode_to_u8 : PriorMode → ℕ
prior_mode_to_u8 PriorMode.sound_quality_prior = 0x00
prior_mode_to_u8 PriorMode.connection_quality_prior = 0x01
prior_mode_to_u8 PriorMode.low_latency_prior_beta = 0x02
prior_mode_to_u8 PriorMode.unknown = 0xFF

abbrev prior_mode_variants : List PriorMode
prior_mode_variants =
    PriorMode.sound_quality_prior ∷ PriorMode.connection_quality_prior
    ∷ PriorMode.low_latency_prior_beta ∷ PriorMode.unknown ∷ []

pub find_variant-prior_mode_to_u8 :
    (x : PriorMode)
    → find_variant prior_mode_to_u8 PriorMode.unknown prior_mode_variants (prior_mode_to_u8 x) ≡ x
unfolding find_variant prior_mode_to_u8
find_variant-prior_mode_to_u8 PriorMode.sound_quality_prior = refl
find_variant-prior_mode_to_u8 _ = refl

instance abbrev pub prior_mode_enum : U8Enum PriorMode
prior_mode_enum = record {
  to_u8 = prior_mode_to_u8;
  variants = prior_mode_variants;
  unknown = PriorMode.unknown;
  from_u8-to_u8 = find_variant-prior_mode_to_u8;
}

pub data UpscalingTypeAutoOff : Type 0 where
  off auto unknown : UpscalingTypeAutoOff

unfoldable pub upscaling_type_auto_off_to_u8 : UpscalingTypeAutoOff → ℕ
upscaling_type_auto_off_to_u8 UpscalingTypeAutoOff.off = 0x00
upscaling_type_auto_off_to_u8 UpscalingTypeAutoOff.auto = 0x01
upscaling_type_auto_off_to_u8 UpscalingTypeAutoOff.unknown = 0xFF

abbrev upscaling_type_auto_off_variants : List UpscalingTypeAutoOff
upscaling_type_auto_off_variants =
    UpscalingTypeAutoOff.off ∷ UpscalingTypeAutoOff.auto ∷ UpscalingTypeAutoOff.unknown ∷ []

pub find_variant-upscaling_type_auto_off_to_u8 :
    (x : UpscalingTypeAutoOff)
    → find_variant upscaling_type_auto_off_to_u8 UpscalingTypeAutoOff.unknown
        upscaling_type_auto_off_variants
        (upscaling_type_auto_off_to_u8 x)
      ≡ x
unfolding find_variant upscaling_type_auto_off_to_u8
find_variant-upscaling_type_auto_off_to_u8 UpscalingTypeAutoOff.off = refl
find_variant-upscaling_type_auto_off_to_u8 _ = refl

instance abbrev pub upscaling_type_auto_off_enum : U8Enum UpscalingTypeAutoOff
upscaling_type_auto_off_enum = record {
  to_u8 = upscaling_type_auto_off_to_u8;
  variants = upscaling_type_auto_off_variants;
  unknown = UpscalingTypeAutoOff.unknown;
  from_u8-to_u8 = find_variant-upscaling_type_auto_off_to_u8;
}

pub data UpscalingType : Type 0 where
  dsee_hx dsee dsee_hx_ai dsee_ultimate unknown : UpscalingType

unfoldable pub upscaling_type_to_u8 : UpscalingType → ℕ
upscaling_type_to_u8 UpscalingType.dsee_hx = 0x00
upscaling_type_to_u8 UpscalingType.dsee = 0x01
upscaling_type_to_u8 UpscalingType.dsee_hx_ai = 0x02
upscaling_type_to_u8 UpscalingType.dsee_ultimate = 0x03
upscaling_type_to_u8 UpscalingType.unknown = 0xFF

abbrev upscaling_type_variants : List UpscalingType
upscaling_type_variants =
    UpscalingType.dsee_hx ∷ UpscalingType.dsee ∷ UpscalingType.dsee_hx_ai
    ∷ UpscalingType.dsee_ultimate ∷ UpscalingType.unknown ∷ []

pub find_variant-upscaling_type_to_u8 :
    (x : UpscalingType)
    → find_variant upscaling_type_to_u8 UpscalingType.unknown upscaling_type_variants
        (upscaling_type_to_u8 x)
      ≡ x
unfolding find_variant upscaling_type_to_u8
find_variant-upscaling_type_to_u8 UpscalingType.dsee_hx = refl
find_variant-upscaling_type_to_u8 _ = refl

instance abbrev pub upscaling_type_enum : U8Enum UpscalingType
upscaling_type_enum = record {
  to_u8 = upscaling_type_to_u8;
  variants = upscaling_type_variants;
  unknown = UpscalingType.unknown;
  from_u8-to_u8 = find_variant-upscaling_type_to_u8;
}

pub data RoomSize : Type 0 where
  small middle large unknown : RoomSize

unfoldable pub room_size_to_u8 : RoomSize → ℕ
room_size_to_u8 RoomSize.small = 0x00
room_size_to_u8 RoomSize.middle = 0x01
room_size_to_u8 RoomSize.large = 0x02
room_size_to_u8 RoomSize.unknown = 0xFF

abbrev room_size_variants : List RoomSize
room_size_variants = RoomSize.small ∷ RoomSize.middle ∷ RoomSize.large ∷ RoomSize.unknown ∷ []

pub find_variant-room_size_to_u8 :
    (x : RoomSize)
    → find_variant room_size_to_u8 RoomSize.unknown room_size_variants (room_size_to_u8 x) ≡ x
unfolding find_variant room_size_to_u8
find_variant-room_size_to_u8 RoomSize.small = refl
find_variant-room_size_to_u8 _ = refl

instance abbrev pub room_size_enum : U8Enum RoomSize
room_size_enum = record {
  to_u8 = room_size_to_u8;
  variants = room_size_variants;
  unknown = RoomSize.unknown;
  from_u8-to_u8 = find_variant-room_size_to_u8;
}
