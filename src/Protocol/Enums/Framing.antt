-- ===== src/Protocol/Enums/Framing.antt =====
-- The packet data types of src/protocol/enums.rs: the variants, their bytes,
-- and the instances by which `from_u8`, `to_u8` and `==` apply.
use sony_buds_tray_control.Prelude.{ℕ, ◌≡◌, refl, List, [], ◌∷◌}
use sony_buds_tray_control.Protocol.Enums.Macro.{U8Enum, find_variant}

pub data DataType : Type 0 where
  raw_data ack data_mc_no1 data_icd data_ev data_mdr data_common data_mdr_no2 shot : DataType
  shot_mc_no1 shot_icd shot_ev shot_mdr shot_common shot_mdr_no2 large_data_common : DataType
  unknown : DataType

unfoldable pub data_type_to_u8 : DataType → ℕ
data_type_to_u8 DataType.raw_data = 0
data_type_to_u8 DataType.ack = 1
data_type_to_u8 DataType.data_mc_no1 = 2
data_type_to_u8 DataType.data_icd = 9
data_type_to_u8 DataType.data_ev = 10
data_type_to_u8 DataType.data_mdr = 12
data_type_to_u8 DataType.data_common = 13
data_type_to_u8 DataType.data_mdr_no2 = 14
data_type_to_u8 DataType.shot = 16
data_type_to_u8 DataType.shot_mc_no1 = 18
data_type_to_u8 DataType.shot_icd = 25
data_type_to_u8 DataType.shot_ev = 26
data_type_to_u8 DataType.shot_mdr = 28
data_type_to_u8 DataType.shot_common = 29
data_type_to_u8 DataType.shot_mdr_no2 = 30
data_type_to_u8 DataType.large_data_common = 45
data_type_to_u8 DataType.unknown = 0xff

abbrev data_type_variants : List DataType
data_type_variants =
    DataType.raw_data ∷ DataType.ack ∷ DataType.data_mc_no1 ∷ DataType.data_icd ∷ DataType.data_ev
    ∷ DataType.data_mdr ∷ DataType.data_common ∷ DataType.data_mdr_no2 ∷ DataType.shot
    ∷ DataType.shot_mc_no1 ∷ DataType.shot_icd ∷ DataType.shot_ev ∷ DataType.shot_mdr
    ∷ DataType.shot_common ∷ DataType.shot_mdr_no2 ∷ DataType.large_data_common ∷ DataType.unknown
    ∷ []

pub find_variant-data_type_to_u8 :
    (x : DataType)
    → find_variant data_type_to_u8 DataType.unknown data_type_variants (data_type_to_u8 x) ≡ x
unfolding find_variant data_type_to_u8
find_variant-data_type_to_u8 DataType.raw_data = refl
find_variant-data_type_to_u8 _ = refl

instance abbrev pub data_type_enum : U8Enum DataType
data_type_enum = record {
  to_u8 = data_type_to_u8;
  variants = data_type_variants;
  unknown = DataType.unknown;
  from_u8-to_u8 = find_variant-data_type_to_u8;
}
