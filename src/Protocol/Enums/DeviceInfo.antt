-- ===== src/Protocol/Enums/DeviceInfo.antt =====
-- The device information types of src/protocol/enums.rs: the variants, their bytes,
-- and the instances by which `from_u8`, `to_u8` and `==` apply.
use sony_buds_tray_control.Prelude.{ℕ, ◌≡◌, refl, List, [], ◌∷◌}
use sony_buds_tray_control.Protocol.Enums.Macro.{U8Enum, find_variant}

pub data DeviceInfoType : Type 0 where
  model_name fw_version series_and_color_info instruction_guide unknown : DeviceInfoType

unfoldable pub device_info_type_to_u8 : DeviceInfoType → ℕ
device_info_type_to_u8 DeviceInfoType.model_name = 1
device_info_type_to_u8 DeviceInfoType.fw_version = 2
device_info_type_to_u8 DeviceInfoType.series_and_color_info = 3
device_info_type_to_u8 DeviceInfoType.instruction_guide = 4
device_info_type_to_u8 DeviceInfoType.unknown = 0xFF

abbrev device_info_type_variants : List DeviceInfoType
device_info_type_variants =
    DeviceInfoType.model_name ∷ DeviceInfoType.fw_version ∷ DeviceInfoType.series_and_color_info
    ∷ DeviceInfoType.instruction_guide ∷ DeviceInfoType.unknown ∷ []

pub find_variant-device_info_type_to_u8 :
    (x : DeviceInfoType)
    → find_variant device_info_type_to_u8 DeviceInfoType.unknown device_info_type_variants
        (device_info_type_to_u8 x)
      ≡ x
unfolding find_variant device_info_type_to_u8
find_variant-device_info_type_to_u8 DeviceInfoType.model_name = refl
find_variant-device_info_type_to_u8 _ = refl

instance abbrev pub device_info_type_enum : U8Enum DeviceInfoType
device_info_type_enum = record {
  to_u8 = device_info_type_to_u8;
  variants = device_info_type_variants;
  unknown = DeviceInfoType.unknown;
  from_u8-to_u8 = find_variant-device_info_type_to_u8;
}

pub data ModelColor : Type 0 where
  default black white silver red blue pink yellow green gray gold cream orange brown : ModelColor
  violet unknown : ModelColor

unfoldable pub model_color_to_u8 : ModelColor → ℕ
model_color_to_u8 ModelColor.default = 0
model_color_to_u8 ModelColor.black = 1
model_color_to_u8 ModelColor.white = 2
model_color_to_u8 ModelColor.silver = 3
model_color_to_u8 ModelColor.red = 4
model_color_to_u8 ModelColor.blue = 5
model_color_to_u8 ModelColor.pink = 6
model_color_to_u8 ModelColor.yellow = 7
model_color_to_u8 ModelColor.green = 8
model_color_to_u8 ModelColor.gray = 9
model_color_to_u8 ModelColor.gold = 10
model_color_to_u8 ModelColor.cream = 11
model_color_to_u8 ModelColor.orange = 12
model_color_to_u8 ModelColor.brown = 13
model_color_to_u8 ModelColor.violet = 14
model_color_to_u8 ModelColor.unknown = 0xFF

abbrev model_color_variants : List ModelColor
model_color_variants =
    ModelColor.default ∷ ModelColor.black ∷ ModelColor.white ∷ ModelColor.silver ∷ ModelColor.red
    ∷ ModelColor.blue ∷ ModelColor.pink ∷ ModelColor.yellow ∷ ModelColor.green ∷ ModelColor.gray
    ∷ ModelColor.gold ∷ ModelColor.cream ∷ ModelColor.orange ∷ ModelColor.brown ∷ ModelColor.violet
    ∷ ModelColor.unknown ∷ []

pub find_variant-model_color_to_u8 :
    (x : ModelColor)
    → find_variant model_color_to_u8 ModelColor.unknown model_color_variants (model_color_to_u8 x)
      ≡ x
unfolding find_variant model_color_to_u8
find_variant-model_color_to_u8 ModelColor.default = refl
find_variant-model_color_to_u8 _ = refl

instance abbrev pub model_color_enum : U8Enum ModelColor
model_color_enum = record {
  to_u8 = model_color_to_u8;
  variants = model_color_variants;
  unknown = ModelColor.unknown;
  from_u8-to_u8 = find_variant-model_color_to_u8;
}

pub data ModelSeriesType : Type 0 where
  no_series extra_bass ult_power_sound hear premium sports casual link_buds neckband :
      ModelSeriesType
  linkpod gaming unknown : ModelSeriesType

unfoldable pub model_series_type_to_u8 : ModelSeriesType → ℕ
model_series_type_to_u8 ModelSeriesType.no_series = 0
model_series_type_to_u8 ModelSeriesType.extra_bass = 0x10
model_series_type_to_u8 ModelSeriesType.ult_power_sound = 0x11
model_series_type_to_u8 ModelSeriesType.hear = 0x20
model_series_type_to_u8 ModelSeriesType.premium = 0x30
model_series_type_to_u8 ModelSeriesType.sports = 0x40
model_series_type_to_u8 ModelSeriesType.casual = 0x50
model_series_type_to_u8 ModelSeriesType.link_buds = 0x60
model_series_type_to_u8 ModelSeriesType.neckband = 0x70
model_series_type_to_u8 ModelSeriesType.linkpod = 0x80
model_series_type_to_u8 ModelSeriesType.gaming = 0x90
model_series_type_to_u8 ModelSeriesType.unknown = 0xFF

abbrev model_series_type_variants : List ModelSeriesType
model_series_type_variants =
    ModelSeriesType.no_series ∷ ModelSeriesType.extra_bass ∷ ModelSeriesType.ult_power_sound
    ∷ ModelSeriesType.hear ∷ ModelSeriesType.premium ∷ ModelSeriesType.sports
    ∷ ModelSeriesType.casual ∷ ModelSeriesType.link_buds ∷ ModelSeriesType.neckband
    ∷ ModelSeriesType.linkpod ∷ ModelSeriesType.gaming ∷ ModelSeriesType.unknown ∷ []

pub find_variant-model_series_type_to_u8 :
    (x : ModelSeriesType)
    → find_variant model_series_type_to_u8 ModelSeriesType.unknown model_series_type_variants
        (model_series_type_to_u8 x)
      ≡ x
unfolding find_variant model_series_type_to_u8
find_variant-model_series_type_to_u8 ModelSeriesType.no_series = refl
find_variant-model_series_type_to_u8 _ = refl

instance abbrev pub model_series_type_enum : U8Enum ModelSeriesType
model_series_type_enum = record {
  to_u8 = model_series_type_to_u8;
  variants = model_series_type_variants;
  unknown = ModelSeriesType.unknown;
  from_u8-to_u8 = find_variant-model_series_type_to_u8;
}
