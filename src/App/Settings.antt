-- ===== src/App/Settings.antt =====
-- src/app.rs: what the commands leave of the values of a device.
use sony_buds_tray_control.App.Command.{cycle_ambient, put_ambient, raise_level, setting}
use sony_buds_tray_control.App.Defs.{NcDot, UiCommand}
use sony_buds_tray_control.Device.Properties.{Properties}
use sony_buds_tray_control.Device.State.{DeviceState}
use sony_buds_tray_control.Prelude.{
  Bool, add_i32, arith, as_u8, bool_eq, clamp, clamp_ℤ, clamp_ℤ_bounds, eq, false, int_eq, list_eq,
  nat_eq, negsuc, option_eq, pos, some, true, ℕ, ℤ, ◌&&◌, ◌≡◌, ◌≤ℤ◌, ◌≤◌,
}
use sony_buds_tray_control.Protocol.Enums.{NcAsmMode, enum_eq, nc_asm_mode_enum}

-- The mode behind this one: noise cancelling, ambient sound, off; without ambient sound, on and off.
abbrev pub next_mode : Bool → NcDot → NcDot
next_mode true NcDot.noise_cancelling = NcDot.ambient
next_mode false NcDot.noise_cancelling = NcDot.off
next_mode supported NcDot.ambient = NcDot.off
next_mode supported NcDot.off = NcDot.noise_cancelling
next_mode supported NcDot.hidden = NcDot.hidden

-- The step of the cycle from a state of noise control.
abbrev step_by : Bool → Bool → NcAsmMode → Properties → Properties
step_by supported on mode p =
    let next = cycle_ambient supported on mode in
    raise_level (next.0 && eq next.1 NcAsmMode.asm) (put_ambient next.0 next.1 p)

-- What the dot shows of a choice of the cycle.
abbrev dot : Bool × NcAsmMode → NcDot
dot (false, _) = NcDot.off
dot (true, NcAsmMode.asm) = NcDot.ambient
dot (true, _) = NcDot.noise_cancelling

volume-bound : (v : ℤ) → as_u8 (clamp_ℤ v (pos 0) (pos 30)) ≤ 30
unfolding clamp_ℤ as_u8
volume-bound v = ground arith

level-bound : (v : ℤ) → as_u8 (clamp_ℤ v (pos 1) (pos 20)) ≤ 20
unfolding clamp_ℤ as_u8
level-bound v = ground arith

clamp-bound : (v : ℕ) → clamp v 1 20 ≤ 20
unfolding clamp
clamp-bound v = ground arith

-- The ranges of the three values with a range.
abbrev pub InRange : Properties → Type 0
InRange p =
    (p.play_volume.desired ≤ 30)
    × (p.nc_asm_ambient_level.desired ≤ 20)
    × (negsuc 1 ≤ℤ p.voice_guidance_volume.desired)
    × (p.voice_guidance_volume.desired ≤ℤ pos 2)

-- Every command keeps the volume at 30 at most, the ambient level at 20 at most, and the volume of the
-- voice guidance between -2 and 2, whatever number the command carries.
pub setting-InRange :
    (cmd : UiCommand) (st : DeviceState) (p q : Properties)
    → setting cmd st p ≡ some q
    → InRange p
    → InRange q
unfolding setting
setting-InRange (UiCommand.set_volume v) st p q h good = ground (arith, volume-bound (pos v))
setting-InRange (UiCommand.set_ambient_level v) st p q h good = ground (arith, clamp-bound v)
setting-InRange (UiCommand.set_voice_guidance_volume v) st p q h good =
    ground (arith, clamp_ℤ_bounds v (negsuc 1) (pos 2) (omega arith))
setting-InRange cmd st p q h good =
    let volume = p.play_volume.desired in
    let level = p.nc_asm_ambient_level.desired in
    ground (
      arith,
      volume-bound (add_i32 (pos volume) (pos 1)),
      volume-bound (add_i32 (pos volume) (negsuc 0)),
      level-bound (add_i32 (pos level) (pos 1)),
      level-bound (add_i32 (pos level) (negsuc 0)),
    )
