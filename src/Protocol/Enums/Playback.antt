-- ===== src/Protocol/Enums/Playback.antt =====
-- The playback types of src/protocol/enums.rs: the variants, their bytes,
-- and the instances by which `from_u8`, `to_u8` and `==` apply.
use sony_buds_tray_control.Prelude.{ℕ, ◌≡◌, refl, List, [], ◌∷◌}
use sony_buds_tray_control.Protocol.Enums.Macro.{U8Enum, find_variant}

pub data PlayInquiredType : Type 0 where
  playback_control_with_call_volume_adjustment : PlayInquiredType
  playback_control_with_call_volume_adjustment_and_function_change : PlayInquiredType
  playback_control_with_function_change music_volume call_volume music_volume_with_mute :
      PlayInquiredType
  call_volume_with_mute play_mode unknown : PlayInquiredType

unfoldable pub play_inquired_type_to_u8 : PlayInquiredType → ℕ
play_inquired_type_to_u8 PlayInquiredType.playback_control_with_call_volume_adjustment = 0x1
play_inquired_type_to_u8
      PlayInquiredType.playback_control_with_call_volume_adjustment_and_function_change =
    0x2
play_inquired_type_to_u8 PlayInquiredType.playback_control_with_function_change = 0x3
play_inquired_type_to_u8 PlayInquiredType.music_volume = 0x20
play_inquired_type_to_u8 PlayInquiredType.call_volume = 0x21
play_inquired_type_to_u8 PlayInquiredType.music_volume_with_mute = 0x30
play_inquired_type_to_u8 PlayInquiredType.call_volume_with_mute = 0x31
play_inquired_type_to_u8 PlayInquiredType.play_mode = 0x40
play_inquired_type_to_u8 PlayInquiredType.unknown = 0xFF

abbrev play_inquired_type_variants : List PlayInquiredType
play_inquired_type_variants =
    PlayInquiredType.playback_control_with_call_volume_adjustment
    ∷ PlayInquiredType.playback_control_with_call_volume_adjustment_and_function_change
    ∷ PlayInquiredType.playback_control_with_function_change ∷ PlayInquiredType.music_volume
    ∷ PlayInquiredType.call_volume ∷ PlayInquiredType.music_volume_with_mute
    ∷ PlayInquiredType.call_volume_with_mute ∷ PlayInquiredType.play_mode ∷ PlayInquiredType.unknown
    ∷ []

pub find_variant-play_inquired_type_to_u8 :
    (x : PlayInquiredType)
    → find_variant play_inquired_type_to_u8 PlayInquiredType.unknown play_inquired_type_variants
        (play_inquired_type_to_u8 x)
      ≡ x
unfolding find_variant play_inquired_type_to_u8
find_variant-play_inquired_type_to_u8
      PlayInquiredType.playback_control_with_call_volume_adjustment =
    refl
find_variant-play_inquired_type_to_u8 _ = refl

instance abbrev pub play_inquired_type_enum : U8Enum PlayInquiredType
play_inquired_type_enum = record {
  to_u8 = play_inquired_type_to_u8;
  variants = play_inquired_type_variants;
  unknown = PlayInquiredType.unknown;
  from_u8-to_u8 = find_variant-play_inquired_type_to_u8;
}

pub data PlaybackStatus : Type 0 where
  unsettled play pause stop unknown : PlaybackStatus

unfoldable pub playback_status_to_u8 : PlaybackStatus → ℕ
playback_status_to_u8 PlaybackStatus.unsettled = 0x00
playback_status_to_u8 PlaybackStatus.play = 0x01
playback_status_to_u8 PlaybackStatus.pause = 0x02
playback_status_to_u8 PlaybackStatus.stop = 0x03
playback_status_to_u8 PlaybackStatus.unknown = 0xFF

abbrev playback_status_variants : List PlaybackStatus
playback_status_variants =
    PlaybackStatus.unsettled ∷ PlaybackStatus.play ∷ PlaybackStatus.pause ∷ PlaybackStatus.stop
    ∷ PlaybackStatus.unknown ∷ []

pub find_variant-playback_status_to_u8 :
    (x : PlaybackStatus)
    → find_variant playback_status_to_u8 PlaybackStatus.unknown playback_status_variants
        (playback_status_to_u8 x)
      ≡ x
unfolding find_variant playback_status_to_u8
find_variant-playback_status_to_u8 PlaybackStatus.unsettled = refl
find_variant-playback_status_to_u8 _ = refl

instance abbrev pub playback_status_enum : U8Enum PlaybackStatus
playback_status_enum = record {
  to_u8 = playback_status_to_u8;
  variants = playback_status_variants;
  unknown = PlaybackStatus.unknown;
  from_u8-to_u8 = find_variant-playback_status_to_u8;
}

pub data MusicCallStatus : Type 0 where
  music call unknown : MusicCallStatus

unfoldable pub music_call_status_to_u8 : MusicCallStatus → ℕ
music_call_status_to_u8 MusicCallStatus.music = 0x0
music_call_status_to_u8 MusicCallStatus.call = 0x1
music_call_status_to_u8 MusicCallStatus.unknown = 0xFF

abbrev music_call_status_variants : List MusicCallStatus
music_call_status_variants =
    MusicCallStatus.music ∷ MusicCallStatus.call ∷ MusicCallStatus.unknown ∷ []

pub find_variant-music_call_status_to_u8 :
    (x : MusicCallStatus)
    → find_variant music_call_status_to_u8 MusicCallStatus.unknown music_call_status_variants
        (music_call_status_to_u8 x)
      ≡ x
unfolding find_variant music_call_status_to_u8
find_variant-music_call_status_to_u8 MusicCallStatus.music = refl
find_variant-music_call_status_to_u8 _ = refl

instance abbrev pub music_call_status_enum : U8Enum MusicCallStatus
music_call_status_enum = record {
  to_u8 = music_call_status_to_u8;
  variants = music_call_status_variants;
  unknown = MusicCallStatus.unknown;
  from_u8-to_u8 = find_variant-music_call_status_to_u8;
}

pub data PlaybackControl : Type 0 where
  key_off pause track_up track_down group_up group_down stop play fast_forward : PlaybackControl
  fast_rewind unknown : PlaybackControl

unfoldable pub playback_control_to_u8 : PlaybackControl → ℕ
playback_control_to_u8 PlaybackControl.key_off = 0x00
playback_control_to_u8 PlaybackControl.pause = 0x01
playback_control_to_u8 PlaybackControl.track_up = 0x02
playback_control_to_u8 PlaybackControl.track_down = 0x03
playback_control_to_u8 PlaybackControl.group_up = 0x04
playback_control_to_u8 PlaybackControl.group_down = 0x05
playback_control_to_u8 PlaybackControl.stop = 0x06
playback_control_to_u8 PlaybackControl.play = 0x07
playback_control_to_u8 PlaybackControl.fast_forward = 0x08
playback_control_to_u8 PlaybackControl.fast_rewind = 0x09
playback_control_to_u8 PlaybackControl.unknown = 0xFF

abbrev playback_control_variants : List PlaybackControl
playback_control_variants =
    PlaybackControl.key_off ∷ PlaybackControl.pause ∷ PlaybackControl.track_up
    ∷ PlaybackControl.track_down ∷ PlaybackControl.group_up ∷ PlaybackControl.group_down
    ∷ PlaybackControl.stop ∷ PlaybackControl.play ∷ PlaybackControl.fast_forward
    ∷ PlaybackControl.fast_rewind ∷ PlaybackControl.unknown ∷ []

pub find_variant-playback_control_to_u8 :
    (x : PlaybackControl)
    → find_variant playback_control_to_u8 PlaybackControl.unknown playback_control_variants
        (playback_control_to_u8 x)
      ≡ x
unfolding find_variant playback_control_to_u8
find_variant-playback_control_to_u8 PlaybackControl.key_off = refl
find_variant-playback_control_to_u8 _ = refl

instance abbrev pub playback_control_enum : U8Enum PlaybackControl
playback_control_enum = record {
  to_u8 = playback_control_to_u8;
  variants = playback_control_variants;
  unknown = PlaybackControl.unknown;
  from_u8-to_u8 = find_variant-playback_control_to_u8;
}

pub data PlaybackNameStatus : Type 0 where
  unsettled nothing settled unknown : PlaybackNameStatus

unfoldable pub playback_name_status_to_u8 : PlaybackNameStatus → ℕ
playback_name_status_to_u8 PlaybackNameStatus.unsettled = 0
playback_name_status_to_u8 PlaybackNameStatus.nothing = 1
playback_name_status_to_u8 PlaybackNameStatus.settled = 2
playback_name_status_to_u8 PlaybackNameStatus.unknown = 0xFF

abbrev playback_name_status_variants : List PlaybackNameStatus
playback_name_status_variants =
    PlaybackNameStatus.unsettled ∷ PlaybackNameStatus.nothing ∷ PlaybackNameStatus.settled
    ∷ PlaybackNameStatus.unknown ∷ []

pub find_variant-playback_name_status_to_u8 :
    (x : PlaybackNameStatus)
    → find_variant playback_name_status_to_u8 PlaybackNameStatus.unknown
        playback_name_status_variants
        (playback_name_status_to_u8 x)
      ≡ x
unfolding find_variant playback_name_status_to_u8
find_variant-playback_name_status_to_u8 PlaybackNameStatus.unsettled = refl
find_variant-playback_name_status_to_u8 _ = refl

instance abbrev pub playback_name_status_enum : U8Enum PlaybackNameStatus
playback_name_status_enum = record {
  to_u8 = playback_name_status_to_u8;
  variants = playback_name_status_variants;
  unknown = PlaybackNameStatus.unknown;
  from_u8-to_u8 = find_variant-playback_name_status_to_u8;
}
