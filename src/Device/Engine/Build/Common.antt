-- ===== src/Device/Engine/Build/Common.antt =====
-- src/device/engine.rs: `Step::send`, `Step::send_t2`, and steps under a condition.
use sony_buds_tray_control.Device.Engine.Defs.{
  Step, Steps, ack, from_list, if_support1, if_support2_any, if_table2, send,
}
use sony_buds_tray_control.Prelude.{List, Option, [], none, some, ℕ, ◌∷◌}
use sony_buds_tray_control.Protocol.Enums.{
  DataType, FunctionTable1, FunctionTable2, PeripheralInquiredType, data_type_enum,
  function_table1_enum, function_table2_enum, peripheral_inquired_type_enum,
}
use sony_buds_tray_control.Protocol.Payloads.{
  Payload, PeripheralGetParam, peripheral_get_param_payload, serialize,
}

-- A step that sends, acknowledged by the device, with nothing to commit.
abbrev pub to_step : DataType → Option (List ℕ) → Option Step
to_step type none = none
to_step type (some bytes) = some (send bytes type ack none)

module _ {A : Type 0} ⦃p : Payload A⦄ where
  -- `Step::send(payload.serialize())`.
  unfoldable pub command : A → Option Step
  unfolding serialize
  command a = to_step DataType.data_mdr (serialize a)

  -- `Step::send_t2(payload.serialize())`.
  unfoldable pub command_t2 : A → Option Step
  unfolding serialize
  command_t2 a = to_step DataType.data_mdr_no2 (serialize a)

abbrev pub push : Option Step → Option (List Step) → Option (List Step)
push (some s) (some ss) = some (s ∷ ss)
push _ _ = none

-- The steps, if none of them panicked.
unfoldable pub sequence : List (Option Step) → Option (List Step)
sequence [] = some []
sequence (s ∷ ss) = push s (sequence ss)

abbrev under : (Steps → Step) → Option (List Step) → Option Step
under f none = none
under f (some ss) = some (f (from_list ss))

unfoldable pub when_table2 : List (Option Step) → Option Step
unfolding sequence from_list
when_table2 inner = under if_table2 (sequence inner)

unfoldable pub when_support1 : FunctionTable1 → List (Option Step) → Option Step
unfolding sequence from_list
when_support1 f inner = under (if_support1 f) (sequence inner)

unfoldable pub when_support2_any : List FunctionTable2 → List (Option Step) → Option Step
unfolding sequence from_list
when_support2_any fs inner = under (if_support2_any fs) (sequence inner)

-- The list of paired devices, in either of its variants.
unfoldable pub device_list_queries : List (Option Step)
unfolding when_support2_any command_t2
device_list_queries =
    when_support2_any
      (FunctionTable2.pairing_device_management_with_bluetooth_class_of_device_classic_bt
        ∷ FunctionTable2.pairing_device_management_with_bluetooth_class_of_device_classic_le ∷ [])
      (command_t2 {A = PeripheralGetParam} (record {
        type = PeripheralInquiredType.pairing_device_management_with_bluetooth_class_of_device;
      })
        ∷ [])
    ∷ when_support2_any (FunctionTable2.pairing_device_management_classic_bt ∷ []) (
        command_t2 {A = PeripheralGetParam}
          (record { type = PeripheralInquiredType.pairing_device_management_classic_bt })
        ∷ [])
    ∷ []
