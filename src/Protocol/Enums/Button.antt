-- ===== src/Protocol/Enums/Button.antt =====
-- The button functions of src/protocol/enums.rs: the variants, their bytes,
-- and the instances by which `from_u8`, `to_u8` and `==` apply.
use sony_buds_tray_control.Prelude.{ℕ, ◌≡◌, refl, List, [], ◌∷◌}
use sony_buds_tray_control.Protocol.Enums.Macro.{U8Enum, find_variant}

pub data Function : Type 0 where
  no_function nc_asm_off nc_asm nc_off asm_off quick_attention nc_optimizer play_pause : Function
  next_track prev_track volume_up volume_down voice_recognition get_your_notification : Function
  talk_to_google_assistant stop_google_assistant voice_input_cancel : Function
  talk_to_tencent_xiaowei cancel_voice_recognition voice_input_amazon_alexa : Function
  cancel_amazon_alexa cancel_tencent_xiaowei launch_mlp talk_to_your_mlp sptf_one_touch : Function
  quick_access1 quick_access2 talk_to_tencent_xiaowei_cancel q_msc_one_touch teams : Function
  teams_voice_skills nc_ncss_asm_off nc_ncss_asm nc_ncss_off ncss_asm_off nc_ncss : Function
  ncss_asm ncss_off amb_setting standard_voice_sound mic_mute game_up chat_up unknown : Function

unfoldable pub function_to_u8 : Function → ℕ
function_to_u8 Function.no_function = 0x00
function_to_u8 Function.nc_asm_off = 0x01
function_to_u8 Function.nc_asm = 0x02
function_to_u8 Function.nc_off = 0x03
function_to_u8 Function.asm_off = 0x04
function_to_u8 Function.quick_attention = 0x10
function_to_u8 Function.nc_optimizer = 0x11
function_to_u8 Function.play_pause = 0x20
function_to_u8 Function.next_track = 0x21
function_to_u8 Function.prev_track = 0x22
function_to_u8 Function.volume_up = 0x23
function_to_u8 Function.volume_down = 0x24
function_to_u8 Function.voice_recognition = 0x30
function_to_u8 Function.get_your_notification = 0x31
function_to_u8 Function.talk_to_google_assistant = 0x32
function_to_u8 Function.stop_google_assistant = 0x33
function_to_u8 Function.voice_input_cancel = 0x34
function_to_u8 Function.talk_to_tencent_xiaowei = 0x35
function_to_u8 Function.cancel_voice_recognition = 0x36
function_to_u8 Function.voice_input_amazon_alexa = 0x37
function_to_u8 Function.cancel_amazon_alexa = 0x38
function_to_u8 Function.cancel_tencent_xiaowei = 0x39
function_to_u8 Function.launch_mlp = 0x40
function_to_u8 Function.talk_to_your_mlp = 0x41
function_to_u8 Function.sptf_one_touch = 0x42
function_to_u8 Function.quick_access1 = 0x43
function_to_u8 Function.quick_access2 = 0x44
function_to_u8 Function.talk_to_tencent_xiaowei_cancel = 0x45
function_to_u8 Function.q_msc_one_touch = 0x46
function_to_u8 Function.teams = 0x47
function_to_u8 Function.teams_voice_skills = 0x48
function_to_u8 Function.nc_ncss_asm_off = 0x50
function_to_u8 Function.nc_ncss_asm = 0x51
function_to_u8 Function.nc_ncss_off = 0x52
function_to_u8 Function.ncss_asm_off = 0x53
function_to_u8 Function.nc_ncss = 0x54
function_to_u8 Function.ncss_asm = 0x55
function_to_u8 Function.ncss_off = 0x56
function_to_u8 Function.amb_setting = 0x57
function_to_u8 Function.standard_voice_sound = 0x58
function_to_u8 Function.mic_mute = 0x70
function_to_u8 Function.game_up = 0x71
function_to_u8 Function.chat_up = 0x72
function_to_u8 Function.unknown = 0xFF

abbrev function_variants : List Function
function_variants =
    Function.no_function ∷ Function.nc_asm_off ∷ Function.nc_asm ∷ Function.nc_off
    ∷ Function.asm_off ∷ Function.quick_attention ∷ Function.nc_optimizer ∷ Function.play_pause
    ∷ Function.next_track ∷ Function.prev_track ∷ Function.volume_up ∷ Function.volume_down
    ∷ Function.voice_recognition ∷ Function.get_your_notification
    ∷ Function.talk_to_google_assistant ∷ Function.stop_google_assistant
    ∷ Function.voice_input_cancel ∷ Function.talk_to_tencent_xiaowei
    ∷ Function.cancel_voice_recognition ∷ Function.voice_input_amazon_alexa
    ∷ Function.cancel_amazon_alexa ∷ Function.cancel_tencent_xiaowei ∷ Function.launch_mlp
    ∷ Function.talk_to_your_mlp ∷ Function.sptf_one_touch ∷ Function.quick_access1
    ∷ Function.quick_access2 ∷ Function.talk_to_tencent_xiaowei_cancel ∷ Function.q_msc_one_touch
    ∷ Function.teams ∷ Function.teams_voice_skills ∷ Function.nc_ncss_asm_off ∷ Function.nc_ncss_asm
    ∷ Function.nc_ncss_off ∷ Function.ncss_asm_off ∷ Function.nc_ncss ∷ Function.ncss_asm
    ∷ Function.ncss_off ∷ Function.amb_setting ∷ Function.standard_voice_sound ∷ Function.mic_mute
    ∷ Function.game_up ∷ Function.chat_up ∷ Function.unknown ∷ []

pub find_variant-function_to_u8 :
    (x : Function)
    → find_variant function_to_u8 Function.unknown function_variants (function_to_u8 x) ≡ x
unfolding find_variant function_to_u8
find_variant-function_to_u8 Function.no_function = refl
find_variant-function_to_u8 _ = refl

instance abbrev pub function_enum : U8Enum Function
function_enum = record {
  to_u8 = function_to_u8;
  variants = function_variants;
  unknown = Function.unknown;
  from_u8-to_u8 = find_variant-function_to_u8;
}
