-- ===== src/Device/Engine/Build/Block.antt =====
-- src/device/engine.rs, `build_commit_steps`: the pieces that its blocks are made of. A block reads and
-- changes the settable values, and pushes steps.
use sony_buds_tray_control.Device.Engine.Defs.{PropCommit, Step, ack, send}
use sony_buds_tray_control.Device.Properties.{Properties}
use sony_buds_tray_control.Prelude.{Bool, List, Option, [], false, none, some, true, ℕ, ◌++◌, ◌∷◌}
use sony_buds_tray_control.Protocol.Enums.{
  DataType, EnableDisable, NcAsmOnOffValue, data_type_enum, enable_disable_enum,
  nc_asm_on_off_value_enum,
}
use sony_buds_tray_control.Protocol.Payloads.{Payload, serialize}

-- `Step::send_commit`, and the same for the second table.
abbrev pub to_commit : DataType → PropCommit → Option (List ℕ) → Option Step
to_commit type c none = none
to_commit type c (some bytes) = some (send bytes type ack (some c))

module _ {A : Type 0} ⦃p : Payload A⦄ where
  unfoldable pub send_commit : PropCommit → A → Option Step
  unfolding serialize
  send_commit c a = to_commit DataType.data_mdr c (serialize a)

  unfoldable pub send_commit_t2 : PropCommit → A → Option Step
  unfolding serialize
  send_commit_t2 c a = to_commit DataType.data_mdr_no2 c (serialize a)

abbrev pub Block : Type 0
Block = Properties → List (Option Step) × Properties

-- Blocks in a row.
unfoldable pub run : List Block → Block
run [] p = ([], p)
run (b ∷ bs) p = let first = b p in let rest = run bs first.1 in (first.0 ++ rest.0, rest.1)

-- A block that changes no value.
abbrev pub only : (Properties → List (Option Step)) → Block
only f p = (f p, p)

abbrev pub when : Bool → List (Option Step) → List (Option Step)
when true ss = ss
when false ss = []

abbrev pub enable_if : Bool → EnableDisable
enable_if true = EnableDisable.enable
enable_if false = EnableDisable.disable

abbrev pub on_if : Bool → NcAsmOnOffValue
on_if true = NcAsmOnOffValue.on
on_if false = NcAsmOnOffValue.off
