-- ===== src/Device/Engine/Dispatch/Common.antt =====
-- src/device/engine.rs: what the handlers share.
use sony_buds_tray_control.Device.Engine.Defs.{Engine, Outcome, quiet}
use sony_buds_tray_control.Device.Properties.{Properties}
use sony_buds_tray_control.Device.State.{DeviceState}
use sony_buds_tray_control.Prelude.{List, Option, err, get_elem?, ok, ℕ}
use sony_buds_tray_control.Protocol.Codec.Error.{SerResult}

-- `if let Ok(p) = P::deserialize(data) { … } else { None }`.
unfoldable pub on_ok : {P : Type 0} → Engine → SerResult P → (P → Outcome) → Outcome
on_ok e (ok p) handle = handle p
on_ok e (err _) handle = quiet e

-- The same for a handler that only changes the settable values.
abbrev pub put_props : Engine → Properties → Engine
put_props e p = record e { props = p }

abbrev pub put_state : Engine → DeviceState → Engine
put_state e s = record e { state = s }

-- `data.get(1)`.
abbrev pub type_byte : List ℕ → Option ℕ
type_byte data' = get_elem? data' 1
