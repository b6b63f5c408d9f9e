-- ===== src/Protocol/Payloads/Peripheral.antt =====
-- src/protocol/payloads.rs, the section "Table 2", the multipoint payloads: the fields, the layout that `write`
-- produces and the one that `read` takes.
use sony_buds_tray_control.Protocol.Codec.Reader
use sony_buds_tray_control.Protocol.Codec.Writer
use sony_buds_tray_control.Prelude.{
  Bool, List, Option, [], bool_eq, eq, false, if◌then◌else◌, int_eq, leb, length, list_eq, nat_eq,
  none, option_eq, some, suc, true, zero, ℕ, ◌%◌, ◌/◌, ◌∷◌,
}
use sony_buds_tray_control.Protocol.Codec.Error.{Op, fail, invalid_argument, pure, ◌>>=◌, ◌>>◌}
use sony_buds_tray_control.Protocol.Codec.Reader.{Reader, u32_of}
use sony_buds_tray_control.Protocol.Codec.Writer.{Write, Writer}
use sony_buds_tray_control.Protocol.Enums.{
  CommandT2, ConnectivityActionType, PeripheralInquiredType, SourceSwitchControlResult,
  command_t2_enum, connectivity_action_type_enum, enum_eq, from_u8, peripheral_inquired_type_enum,
  source_switch_control_result_enum, to_u8,
}
use sony_buds_tray_control.Protocol.Payloads.Base.{Payload}
use sony_buds_tray_control.Text.{String, as_bytes, from_utf8_lossy, trim, trim_end_matches}

abbrev pub mac_len : ℕ
mac_len = 17

-- Pads or truncates to the length of an address on the wire.
unfoldable pub pad_to : ℕ → List ℕ → List ℕ
pad_to zero bytes = []
pad_to (suc n) [] = b' ' ∷ pad_to n []
pad_to (suc n) (b ∷ bytes) = b ∷ pad_to n bytes

unfoldable pub mac_bytes : String → List ℕ
unfolding pad_to as_bytes
mac_bytes address = pad_to mac_len (as_bytes address)

unfoldable pub mac_string : List ℕ → String
unfolding from_utf8_lossy trim trim_end_matches
mac_string bytes = trim (trim_end_matches 0 (from_utf8_lossy bytes))

pub record PeripheralGetParam : Type 0 where
  pub type : PeripheralInquiredType

instance abbrev pub peripheral_get_param_payload : Payload PeripheralGetParam
peripheral_get_param_payload = record {
  write = λ p. do
    Writer.u8 (to_u8 CommandT2.peri_get_param)
    Writer.u8 (to_u8 p.type);
  read = do
    Reader.u8
    type ← Reader.u8
    pure (record { type = from_u8 type });
}

pub record PeripheralSetExtendedParamSourceSwitch : Type 0 where
  pub address : String

instance abbrev pub peripheral_set_extended_param_source_switch_payload :
    Payload PeripheralSetExtendedParamSourceSwitch
peripheral_set_extended_param_source_switch_payload = record {
  write = λ p. do
    Writer.u8 (to_u8 CommandT2.peri_set_extended_param)
    Writer.u8 (to_u8 PeripheralInquiredType.source_switch_control)
    Writer.bytes (mac_bytes p.address);
  read = do
    Reader.u8
    Reader.u8
    address ← Reader.take mac_len
    pure (record { address = mac_string address });
}

pub record PeripheralSetExtendedParamDeviceManagement : Type 0 where
  pub type : PeripheralInquiredType
  pub action : ConnectivityActionType
  pub address : String

instance abbrev pub peripheral_set_extended_param_device_management_payload :
    Payload PeripheralSetExtendedParamDeviceManagement
peripheral_set_extended_param_device_management_payload = record {
  write = λ p. do
    Writer.u8 (to_u8 CommandT2.peri_set_extended_param)
    Writer.u8 (to_u8 p.type)
    Writer.u8 (to_u8 p.action)
    Writer.bytes (mac_bytes p.address);
  read = do
    Reader.u8
    type ← Reader.u8
    action ← Reader.u8
    address ← Reader.take mac_len
    pure (record { type = from_u8 type; action = from_u8 action; address = mac_string address });
}

pub record PeripheralNotifyExtendedParamSourceSwitch : Type 0 where
  pub result : SourceSwitchControlResult
  pub address : String

instance abbrev pub peripheral_notify_extended_param_source_switch_payload :
    Payload PeripheralNotifyExtendedParamSourceSwitch
peripheral_notify_extended_param_source_switch_payload = record {
  write = λ p. do
    Writer.u8 (to_u8 CommandT2.peri_ntfy_extended_param)
    Writer.u8 (to_u8 PeripheralInquiredType.source_switch_control)
    Writer.u8 (to_u8 p.result)
    Writer.bytes (mac_bytes p.address);
  read = do
    Reader.u8
    Reader.u8
    result ← Reader.u8
    address ← Reader.take mac_len
    pure (record { result = from_u8 result; address = mac_string address });
}

pub record PeripheralNotifyExtendedParamDeviceManagement : Type 0 where
  pub type : PeripheralInquiredType
  pub action : ConnectivityActionType
  pub result : ℕ
  pub address : String

instance abbrev pub peripheral_notify_extended_param_device_management_payload :
    Payload PeripheralNotifyExtendedParamDeviceManagement
peripheral_notify_extended_param_device_management_payload = record {
  write = λ p. do
    Writer.u8 (to_u8 CommandT2.peri_ntfy_extended_param)
    Writer.u8 (to_u8 p.type)
    Writer.u8 (to_u8 p.action)
    Writer.u8 p.result
    Writer.bytes (mac_bytes p.address);
  read = do
    Reader.u8
    type ← Reader.u8
    action ← Reader.u8
    result ← Reader.u8
    address ← Reader.take mac_len
    pure (record {
      type = from_u8 type;
      action = from_u8 action;
      result = result;
      address = mac_string address;
    });
}

pub record PeripheralDeviceInfo : Type 0 where
  pub address : String
  pub connected_status : ℕ
  pub name : String
  pub class_of_device : Option ℕ

abbrev class_or : Option ℕ → ℕ
class_or none = 0xFFFFFF
class_or (some c) = c

unfoldable pub write_class : Bool → Option ℕ → Write
unfolding Writer.u8
write_class false class = pure tt
write_class true class = do
  Writer.u8 (class_or class / 65536 % 256)
  Writer.u8 (class_or class / 256 % 256)
  Writer.u8 (class_or class % 256)

unfoldable pub write_device : Bool → PeripheralDeviceInfo → Write
unfolding write_class Writer.bytes Writer.u8 Writer.prefixed_string
write_device with_class d = do
  Writer.bytes (mac_bytes d.address)
  Writer.u8 d.connected_status
  write_class with_class d.class_of_device
  Writer.prefixed_string d.name

unfoldable pub read_class : Bool → Op Reader (Option ℕ)
unfolding Reader.take
read_class false = pure none
read_class true = do b ← Reader.take 3; pure (some (u32_of (0 ∷ b)))

unfoldable pub read_device : Bool → Op Reader PeripheralDeviceInfo
unfolding read_class Reader.take Reader.u8 Reader.read_prefixed_string
read_device with_class = do
  address ← Reader.take mac_len
  connected_status ← Reader.u8
  class ← read_class with_class
  name ← Reader.read_prefixed_string
  pure (record {
    address = mac_string address;
    connected_status = connected_status;
    name = name;
    class_of_device = class;
  })

pub record PeripheralRetParamDeviceList : Type 0 where
  pub type : PeripheralInquiredType
  pub devices : List PeripheralDeviceInfo
  pub playback_device : ℕ

unfoldable pub has_class : PeripheralInquiredType → Bool
has_class t = eq t PeripheralInquiredType.pairing_device_management_with_bluetooth_class_of_device

unfoldable pub write_devices : Bool → List PeripheralDeviceInfo → Write
unfolding write_device
write_devices with_class [] = pure tt
write_devices with_class (d ∷ ds) = do write_device with_class d; write_devices with_class ds

-- `for _ in 0..count`.
unfoldable pub read_devices : Bool → ℕ → Op Reader (List PeripheralDeviceInfo)
unfolding read_device
read_devices with_class zero = pure []
read_devices with_class (suc count) = do
  d ← read_device with_class
  rest ← read_devices with_class count
  pure (d ∷ rest)

instance abbrev pub peripheral_ret_param_device_list_payload : Payload PeripheralRetParamDeviceList
peripheral_ret_param_device_list_payload = record {
  write = λ p. do
    Writer.u8 (to_u8 CommandT2.peri_ret_param)
    Writer.u8 (to_u8 p.type)
    if leb 256 (length p.devices) then fail invalid_argument else (do
      Writer.u8 (length p.devices % 256)
      write_devices (has_class p.type) p.devices
      Writer.u8 p.playback_device);
  read = do
    Reader.u8
    type ← Reader.u8
    count ← Reader.u8
    devices ← read_devices (has_class (from_u8 type)) count
    playback_device ← Reader.u8
    pure (record { type = from_u8 type; devices = devices; playback_device = playback_device });
}
