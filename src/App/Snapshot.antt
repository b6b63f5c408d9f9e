-- ===== src/App/Snapshot.antt =====
-- src/app.rs, `snapshot`: the connection and the dot. `none` is the panic of `expect("connected")`. The
-- menu and the texts of the snapshot are left out.
use sony_buds_tray_control.App.Defs.{AppCore, ConnState, NcDot}
use sony_buds_tray_control.App.Invariant.{AppOk}
use sony_buds_tray_control.Device.Engine.Build.Total.{IsSome}
use sony_buds_tray_control.Device.Properties.{Properties}
use sony_buds_tray_control.Prelude.{
  Option, arith, bool_eq, eq, if◌then◌else◌, int_eq, list_eq, nat_eq, none, not, option_eq, some,
}
use sony_buds_tray_control.Protocol.Enums.{NcAsmMode, enum_eq, nc_asm_mode_enum}

pub record UiSnapshot : Type 0 where
  pub conn_state : ConnState
  pub nc_dot : NcDot

unfoldable pub dot_of : Properties → NcDot
dot_of p =
    if not p.nc_asm_enabled.current
    then NcDot.off
    else if eq p.nc_asm_mode.current NcAsmMode.asm
    then NcDot.ambient
    else NcDot.noise_cancelling

module _ {W C : Type 0} where
  unfoldable pub snapshot : AppCore W C → Option UiSnapshot
  unfolding dot_of
  snapshot app = elim app.conn_state [
    | ConnState.connected ↦ elim app.engine [
      | none ↦ none
      | some l ↦ some (record { conn_state = ConnState.connected; nc_dot = dot_of l.engine.props })
    ]
    | other ↦ some (record { conn_state = other; nc_dot = NcDot.hidden })
  ]

  pub snapshot-IsSome : (app : AppCore W C) → AppOk app → IsSome (snapshot app)
  unfolding snapshot
  snapshot-IsSome app good = ground arith
