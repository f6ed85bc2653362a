-- ===== src/Cdc/Message.antt =====
-- The CDC `Message` and its `Opcode` (linux-cec/src/cdc.rs).
pub mod Laws
use linux_cec.Operand.Scalars.{bool}
use linux_cec.Operand.Optional.{optional}
use linux_cec.Cdc.Hpd.{
  hpd_state_error_code, input_port_hpd_state, HpdStateErrorCode, InputPortHpdState,
}
use linux_cec.Cdc.HecField.{hec_field, HecField}
use linux_cec.Cdc.State.{hec_state, HecState}
use linux_cec.Operand.Newtype.{physical_address}
use linux_cec.Operand.Primitive.{Primitive}
use linux_cec.Operand.Encodable.{OperandEncodable}
use linux_cec.MessageEnum.{unnamed, unit, named, message_operand, fields_of, Variant, MessageEnum}
use linux_cec.Operand.Fields.{nil, field, Tuple, Curried}
use linux_cec.Core.PhysicalAddress.{PhysicalAddress}
use linux_cec.Operand.Buffer.{bounded_buffer, BoundedBuffer, Element}
use linux_cec.Prelude.{Bool, Option, [], ◌∷◌, ℕ}

pub data Opcode : Type 0 where
  hec_inquire_state hec_report_state hec_set_state_adjacent hec_set_state : Opcode
  hec_request_deactivation hec_notify_alive hec_discover : Opcode
  hpd_set_state hpd_report_state : Opcode

abbrev pub opcode_discriminant : Opcode → ℕ
opcode_discriminant hec_inquire_state = 0x00
opcode_discriminant hec_report_state = 0x01
opcode_discriminant hec_set_state_adjacent = 0x02
opcode_discriminant hec_set_state = 0x03
opcode_discriminant hec_request_deactivation = 0x04
opcode_discriminant hec_notify_alive = 0x05
opcode_discriminant hec_discover = 0x06
opcode_discriminant hpd_set_state = 0x10
opcode_discriminant hpd_report_state = 0x11

abbrev pub opcodes : Primitive Opcode
opcodes = record {
  name = "Opcode";
  variants =
      hec_inquire_state ∷ hec_report_state ∷ hec_set_state_adjacent ∷ hec_set_state
      ∷ hec_request_deactivation ∷ hec_notify_alive ∷ hec_discover ∷ hpd_set_state
      ∷ hpd_report_state ∷ [];
  discriminant = opcode_discriminant;
}

pub data Message : Type 0 where
  inquire_state : (terminating_address1 terminating_address2 : PhysicalAddress) → Message
  report_state : (address : PhysicalAddress) (state : HecState) (hec : Option HecField) → Message
  set_state_adjacent : (terminating_address : PhysicalAddress) (state : Bool) → Message
  set_state :
      (terminating_address1 terminating_address2 : PhysicalAddress) (state : Bool)
      (terminating_addresses : BoundedBuffer PhysicalAddress)
      → Message
  request_deactivation :
      (terminating_address1 terminating_address2 terminating_address3 : PhysicalAddress) → Message
  notify_alive : Message
  discover : Message
  set_hpd_state : InputPortHpdState → Message
  report_hpd_state : HpdStateErrorCode → Message

abbrev pub opcode : Message → Opcode
opcode (inquire_state a b) = hec_inquire_state
opcode (report_state a s f) = hec_report_state
opcode (set_state_adjacent a s) = hec_set_state_adjacent
opcode (set_state a b s r) = hec_set_state
opcode (request_deactivation a b c) = hec_request_deactivation
opcode notify_alive = hec_notify_alive
opcode discover = hec_discover
opcode (set_hpd_state x) = hpd_set_state
opcode (report_hpd_state x) = hpd_report_state

abbrev pub address_element : Element PhysicalAddress
address_element = record {
  codec = physical_address;
  size_of = 2;
  default = record { value = 0xffff };
}

abbrev pub address_buffer : OperandEncodable (BoundedBuffer PhysicalAddress)
address_buffer = bounded_buffer address_element 3

abbrev pub variant : Opcode → Variant
variant hec_inquire_state = named (field physical_address (field physical_address nil))
variant hec_report_state =
    named (field physical_address (field hec_state (field (optional hec_field) nil)))
variant hec_set_state_adjacent = named (field physical_address (field bool nil))
variant hec_set_state =
    named (field physical_address (field physical_address (field bool (field address_buffer nil))))
variant hec_request_deactivation =
    named (field physical_address (field physical_address (field physical_address nil)))
variant hec_notify_alive = unit
variant hec_discover = unit
variant hpd_set_state = unnamed input_port_hpd_state
variant hpd_report_state = unnamed hpd_state_error_code

abbrev pub build : (o : Opcode) → Curried (fields_of (variant o)) Message
build hec_inquire_state = inquire_state
build hec_report_state = report_state
build hec_set_state_adjacent = set_state_adjacent
build hec_set_state = set_state
build hec_request_deactivation = request_deactivation
build hec_notify_alive = notify_alive
build hec_discover = discover
build hpd_set_state = set_hpd_state
build hpd_report_state = report_hpd_state

abbrev pub parts : (m : Message) → Tuple (fields_of (variant (opcode m)))
parts (inquire_state a b) = (a, (b, tt))
parts (report_state a s f) = (a, (s, (f, tt)))
parts (set_state_adjacent a s) = (a, (s, tt))
parts (set_state a b s r) = (a, (b, (s, (r, tt))))
parts (request_deactivation a b c) = (a, (b, (c, tt)))
parts notify_alive = tt
parts discover = tt
parts (set_hpd_state x) = (x, tt)
parts (report_hpd_state x) = (x, tt)

abbrev pub cdc_message : MessageEnum Message Opcode
cdc_message = record {
  opcodes = opcodes;
  variant = variant;
  build = build;
  opcode = opcode;
  parts = parts;
}

-- `OperandEncodable for Message`
abbrev pub cdc_message_operand : OperandEncodable Message
cdc_message_operand = message_operand cdc_message
