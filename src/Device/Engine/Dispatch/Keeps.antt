-- ===== src/Device/Engine/Dispatch/Keeps.antt =====
-- src/device/engine.rs: the handlers of reports, with the task and the sequence number.
use sony_buds_tray_control.Device.Engine.Defs.{Engine, Outcome, emit, equalizer}
use sony_buds_tray_control.Device.Engine.Dispatch.Audio.{
  on_audio_capability, on_audio_param, on_audio_status, on_audio_type, on_bgm_mode,
  on_system_ext_param, on_system_param, on_system_type,
}
use sony_buds_tray_control.Device.Engine.Dispatch.Common.{on_ok, put_props}
use sony_buds_tray_control.Device.Engine.Dispatch.Equalizer.{
  adopt_bands, gain_of, gains_of, on_eq_param, on_eq_status,
}
use sony_buds_tray_control.Device.Engine.Dispatch.Multipoint.{
  on_device_list, on_peri_extended, on_source_switch,
}
use sony_buds_tray_control.Device.Engine.Dispatch.NcAsm.{on_nc_asm, on_nc_asm_type}
use sony_buds_tray_control.Device.Engine.Dispatch.Playback.{
  on_alert, on_gs_capability, on_gs_param, on_play_names, on_play_param, on_play_status,
  on_play_type, on_play_volume,
}
use sony_buds_tray_control.Device.Engine.Dispatch.Reports.{
  on_battery, on_capability_info, on_codec, on_device_info, on_power_param,
}
use sony_buds_tray_control.Device.Engine.Dispatch.Table2.{
  on_voice_param, on_voice_switch, on_voice_type,
}
use sony_buds_tray_control.Device.Properties.{Properties}
use sony_buds_tray_control.Device.State.{fresh}
use sony_buds_tray_control.Prelude.{
  List, [], arith, err, inl, length, length-map, ok, refl, ℕ, ◌∷◌, ◌≡◌, ◌≤◌, ◌⊎◌,
}
use sony_buds_tray_control.Protocol.Codec.Error.{SerResult}
use sony_buds_tray_control.Protocol.Enums.{
  AudioInquiredType, NcAsmInquiredType, PlayInquiredType, SystemInquiredType,
  VoiceGuidanceInquiredType, audio_inquired_type_enum, nc_asm_inquired_type_enum,
  play_inquired_type_enum, system_inquired_type_enum, voice_guidance_inquired_type_enum,
}
use sony_buds_tray_control.Protocol.Payloads.{EqEbbParamEq, deserialize, eq_ebb_param_eq_payload}

-- The bands of the equalizer.
abbrev pub band_count : Engine → ℕ
band_count e = length e.props.eq_config.desired

-- The largest number of bands that a report is adopted with.
abbrev pub max_bands : ℕ
max_bands = 10

-- The task and the sequence number are as they were; so are the bands, or they are few.
abbrev pub Keeps : Engine → Outcome → Type 0
Keeps e o =
    (o.0.task ≡ e.task)
    × (o.0.tx_seq ≡ e.tx_seq)
    × ((band_count o.0 ≡ band_count e) ⊎ (band_count o.0 ≤ max_bands))

pub on_ok-Keeps :
    {P : Type 0} (e : Engine) (r : SerResult P) (handle : P → Outcome)
    → ((p : P) → Keeps e (handle p))
    → Keeps e (on_ok e r handle)
unfolding on_ok
on_ok-Keeps e (ok p) handle h = h p
on_ok-Keeps e (err why) handle h = (refl, refl, inl refl)

pub on_capability_info-Keeps : (bytes : List ℕ) (e : Engine) → Keeps e (on_capability_info bytes e)
unfolding on_capability_info on_ok
on_capability_info-Keeps bytes e = on_ok-Keeps e _ _ (λ uid. (refl, refl, inl refl))

pub on_device_info-Keeps : (bytes : List ℕ) (e : Engine) → Keeps e (on_device_info bytes e)
unfolding on_device_info on_ok
on_device_info-Keeps bytes e = ground arith

pub on_codec-Keeps : (bytes : List ℕ) (e : Engine) → Keeps e (on_codec bytes e)
unfolding on_codec on_ok
on_codec-Keeps bytes e = ground arith

pub on_battery-Keeps : (bytes : List ℕ) (e : Engine) → Keeps e (on_battery bytes e)
unfolding on_battery on_ok
on_battery-Keeps bytes e = ground arith

pub on_power_param-Keeps : (bytes : List ℕ) (e : Engine) → Keeps e (on_power_param bytes e)
unfolding on_power_param on_ok
on_power_param-Keeps bytes e = ground arith

pub on_eq_status-Keeps : (bytes : List ℕ) (e : Engine) → Keeps e (on_eq_status bytes e)
unfolding on_eq_status on_ok
on_eq_status-Keeps bytes e = ground arith

length-gains_of : (k : ℕ) (bands : List ℕ) → length (gains_of k bands) ≡ length bands
unfolding gains_of
length-gains_of k bands = length-map (gain_of k) bands

adopt_bands-length :
    (bands : List ℕ) (q : Properties)
    → (length (adopt_bands bands q).eq_config.desired ≡ length q.eq_config.desired)
      ⊎ (length (adopt_bands bands q).eq_config.desired ≤ max_bands)
unfolding adopt_bands
adopt_bands-length [] q = inl refl
adopt_bands-length (b ∷ bs) q = ground (arith, length-gains_of 10 bs, length-gains_of 6 (b ∷ bs))

on_eq_param-ok :
    (e : Engine) (r : SerResult EqEbbParamEq)
    → Keeps e (
        on_ok e r λ p.
          emit
            (put_props e
              (adopt_bands p.bands (record e.props { eq_preset_id = fresh p.preset_id })))
            equalizer)
on_eq_param-ok e r = on_ok-Keeps e r _ λ p.
    (refl, refl, adopt_bands-length p.bands (record e.props { eq_preset_id = fresh p.preset_id }))

pub on_eq_param-Keeps : (bytes : List ℕ) (e : Engine) → Keeps e (on_eq_param bytes e)
unfolding on_eq_param
on_eq_param-Keeps bytes e = on_eq_param-ok e (deserialize {A = EqEbbParamEq} bytes)

pub on_nc_asm_type-Keeps :
    (type : NcAsmInquiredType) (bytes : List ℕ) (e : Engine) → Keeps e (on_nc_asm_type type bytes e)
unfolding on_nc_asm_type on_ok
on_nc_asm_type-Keeps type bytes e = ground arith

pub on_nc_asm-Keeps : (bytes : List ℕ) (e : Engine) → Keeps e (on_nc_asm bytes e)
unfolding on_nc_asm on_ok
on_nc_asm-Keeps bytes e = ground arith

pub on_play_status-Keeps : (bytes : List ℕ) (e : Engine) → Keeps e (on_play_status bytes e)
unfolding on_play_status on_ok
on_play_status-Keeps bytes e = ground arith

pub on_play_names-Keeps : (bytes : List ℕ) (e : Engine) → Keeps e (on_play_names bytes e)
unfolding on_play_names on_ok
on_play_names-Keeps bytes e = ground arith

pub on_play_volume-Keeps : (bytes : List ℕ) (e : Engine) → Keeps e (on_play_volume bytes e)
unfolding on_play_volume on_ok
on_play_volume-Keeps bytes e = ground arith

pub on_play_type-Keeps :
    (type : PlayInquiredType) (bytes : List ℕ) (e : Engine) → Keeps e (on_play_type type bytes e)
unfolding on_play_type on_ok
on_play_type-Keeps type bytes e = ground arith

pub on_play_param-Keeps : (bytes : List ℕ) (e : Engine) → Keeps e (on_play_param bytes e)
unfolding on_play_param on_ok
on_play_param-Keeps bytes e = ground arith

pub on_gs_capability-Keeps : (bytes : List ℕ) (e : Engine) → Keeps e (on_gs_capability bytes e)
unfolding on_gs_capability on_ok
on_gs_capability-Keeps bytes e = ground arith

pub on_gs_param-Keeps : (bytes : List ℕ) (e : Engine) → Keeps e (on_gs_param bytes e)
unfolding on_gs_param on_ok
on_gs_param-Keeps bytes e = ground arith

pub on_alert-Keeps : (bytes : List ℕ) (e : Engine) → Keeps e (on_alert bytes e)
unfolding on_alert on_ok
on_alert-Keeps bytes e = ground arith

pub on_audio_capability-Keeps :
    (bytes : List ℕ) (e : Engine) → Keeps e (on_audio_capability bytes e)
unfolding on_audio_capability on_ok
on_audio_capability-Keeps bytes e = ground arith

pub on_audio_status-Keeps : (bytes : List ℕ) (e : Engine) → Keeps e (on_audio_status bytes e)
unfolding on_audio_status on_ok
on_audio_status-Keeps bytes e = ground arith

pub on_bgm_mode-Keeps : (bytes : List ℕ) (e : Engine) → Keeps e (on_bgm_mode bytes e)
unfolding on_bgm_mode on_ok
on_bgm_mode-Keeps bytes e = ground arith

pub on_audio_type-Keeps :
    (type : AudioInquiredType) (bytes : List ℕ) (e : Engine) → Keeps e (on_audio_type type bytes e)
unfolding on_audio_type on_ok
on_audio_type-Keeps type bytes e = ground arith

pub on_audio_param-Keeps : (bytes : List ℕ) (e : Engine) → Keeps e (on_audio_param bytes e)
unfolding on_audio_param on_ok
on_audio_param-Keeps bytes e = ground arith

pub on_system_type-Keeps :
    (type : SystemInquiredType) (bytes : List ℕ) (e : Engine)
    → Keeps e (on_system_type type bytes e)
unfolding on_system_type on_ok
on_system_type-Keeps type bytes e = ground arith

pub on_system_param-Keeps : (bytes : List ℕ) (e : Engine) → Keeps e (on_system_param bytes e)
unfolding on_system_param on_ok
on_system_param-Keeps bytes e = ground arith

pub on_system_ext_param-Keeps :
    (bytes : List ℕ) (e : Engine) → Keeps e (on_system_ext_param bytes e)
unfolding on_system_ext_param on_ok
on_system_ext_param-Keeps bytes e = ground arith

pub on_device_list-Keeps : (bytes : List ℕ) (e : Engine) → Keeps e (on_device_list bytes e)
unfolding on_device_list on_ok
on_device_list-Keeps bytes e = ground arith

pub on_source_switch-Keeps : (bytes : List ℕ) (e : Engine) → Keeps e (on_source_switch bytes e)
unfolding on_source_switch on_ok
on_source_switch-Keeps bytes e = ground arith

pub on_peri_extended-Keeps : (bytes : List ℕ) (e : Engine) → Keeps e (on_peri_extended bytes e)
unfolding on_peri_extended on_ok
on_peri_extended-Keeps bytes e = ground arith

pub on_voice_switch-Keeps : (bytes : List ℕ) (e : Engine) → Keeps e (on_voice_switch bytes e)
unfolding on_voice_switch on_ok
on_voice_switch-Keeps bytes e = ground arith

pub on_voice_type-Keeps :
    (type : VoiceGuidanceInquiredType) (bytes : List ℕ) (e : Engine)
    → Keeps e (on_voice_type type bytes e)
unfolding on_voice_type on_ok
on_voice_type-Keeps type bytes e = ground arith

pub on_voice_param-Keeps : (bytes : List ℕ) (e : Engine) → Keeps e (on_voice_param bytes e)
unfolding on_voice_param on_ok
on_voice_param-Keeps bytes e = ground arith
