-- ===== src/Device/State.antt =====
-- src/device/state.rs: settable properties, the support tables and the reported state.
use sony_buds_tray_control.Prelude.{
  Bool, List, Option, PartialEq, [], arith, bool_eq, eq, false, if◌then◌else◌, int_eq, list_beq_iff,
  list_eq, nat_eq, none, not, option_eq, true, ℕ, ◌==◌, ◌||◌, ◌↔◌, ◌≡◌,
}
use sony_buds_tray_control.Protocol.Enums.{
  AudioCodec, BatteryChargingStatus, FunctionTable1, FunctionTable2, GsSettingType, ModelColor,
  ModelSeriesType, PlaybackStatus, UpscalingType, audio_codec_enum, battery_charging_status_enum,
  enum_eq, function_table1_enum, function_table2_enum, gs_setting_type_enum, model_color_enum,
  model_series_type_enum, playback_status_enum, to_u8, upscaling_type_enum,
}
use sony_buds_tray_control.Text.{String}

-- A settable value: `desired` is what the user wants, `current` what the device confirmed.
pub record Prop (A : Type 0) : Type 0 where
  pub desired : A
  pub current : A

module _ {A : Type 0} where
  abbrev pub fresh : A → Prop A
  fresh v = record { desired = v; current = v }

  abbrev pub overwrite : Prop A → A → Prop A
  overwrite p v = record { desired = v; current = v }

  abbrev pub commit : Prop A → Prop A
  commit p = record { desired = p.desired; current = p.desired }

  abbrev pub desire : Prop A → A → Prop A
  desire p v = record { desired = v; current = p.current }

  abbrev pub dirty : ⦃e : PartialEq A⦄ → Prop A → Bool
  dirty p = not (eq p.desired p.current)

pub record SupportFunctions : Type 0 where
  pub table1 : ℕ → Bool
  pub table2 : ℕ → Bool

unfoldable pub contains_t1 : SupportFunctions → FunctionTable1 → Bool
contains_t1 s f = s.table1 (to_u8 f)

unfoldable pub contains_t2 : SupportFunctions → FunctionTable2 → Bool
contains_t2 s f = s.table2 (to_u8 f)

abbrev update : (ℕ → Bool) → ℕ → Bool → ℕ → Bool
update t f v i = if i == f then v else t i

unfoldable pub set_t1 : SupportFunctions → ℕ → Bool → SupportFunctions
set_t1 s f supported = record { table1 = update s.table1 f supported; table2 = s.table2 }

unfoldable pub set_t2 : SupportFunctions → ℕ → Bool → SupportFunctions
set_t2 s f supported = record { table1 = s.table1; table2 = update s.table2 f supported }

pub record BatteryState : Type 0 where
  pub level : ℕ
  pub threshold : ℕ
  pub charging : BatteryChargingStatus

unfoldable pub is_reported : BatteryState → Bool
is_reported b = not (b.threshold == 0) || not (b.level == 0)

pub record GsCapability : Type 0 where
  pub setting_type : GsSettingType
  pub subject : String
  pub summary : String

pub record MultipointDevice : Type 0 where
  pub address : String
  pub name : String
  pub connected_status : ℕ

unfoldable pub connected : MultipointDevice → Bool
connected d = not (d.connected_status == 0)

pub data MultipointRequest : Type 0 where
  switch connect : String → MultipointRequest

unfoldable pub request_beq : MultipointRequest → MultipointRequest → Bool
request_beq (switch a) (switch b) = eq a b
request_beq (connect a) (connect b) = eq a b
request_beq _ _ = false

pub request_beq_iff : (a b : MultipointRequest) → (request_beq a b ≡ true) ↔ (a ≡ b)
unfolding request_beq
request_beq_iff (switch a) (switch b) = ground (arith, list_beq_iff a b)
request_beq_iff (connect a) (connect b) = ground (arith, list_beq_iff a b)
request_beq_iff _ _ = ground arith

instance abbrev pub request_eq : PartialEq MultipointRequest
request_eq = record { beq = request_beq; beq_iff = request_beq_iff }

pub record DeviceState : Type 0 where
  pub protocol_version : ℕ
  pub has_table1 : Bool
  pub has_table2 : Bool
  pub support : SupportFunctions
  pub unique_id : String
  pub fw_version : String
  pub model_name : String
  pub model_series : ModelSeriesType
  pub model_color : ModelColor
  pub audio_codec : AudioCodec
  pub upscaling_type : UpscalingType
  pub upscaling_available : Bool
  pub battery_left : BatteryState
  pub battery_right : BatteryState
  pub battery_case : BatteryState
  pub play_title : String
  pub play_album : String
  pub play_artist : String
  pub play_status : PlaybackStatus
  pub play_volume : ℕ
  pub gs_capabilities : List GsCapability
  pub multipoint_devices : List MultipointDevice
  pub multipoint_playback : Option ℕ

abbrev no_battery_state : BatteryState
no_battery_state = record {
  level = 0;
  threshold = 0;
  charging = BatteryChargingStatus.not_charging;
}

abbrev pub default_state : DeviceState
default_state = record {
  protocol_version = 0;
  has_table1 = false;
  has_table2 = false;
  support = record { table1 = λ _. false; table2 = λ _. false };
  unique_id = [];
  fw_version = [];
  model_name = [];
  model_series = ModelSeriesType.no_series;
  model_color = ModelColor.default;
  audio_codec = AudioCodec.unsettled;
  upscaling_type = UpscalingType.dsee_hx;
  upscaling_available = false;
  battery_left = no_battery_state;
  battery_right = no_battery_state;
  battery_case = no_battery_state;
  play_title = [];
  play_album = [];
  play_artist = [];
  play_status = PlaybackStatus.unsettled;
  play_volume = 0;
  gs_capabilities = [];
  multipoint_devices = [];
  multipoint_playback = none;
}
