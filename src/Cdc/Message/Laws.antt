-- ===== src/Cdc/Message/Laws.antt =====
-- The codec of CDC messages is lawful (linux-cec/src/cdc.rs).
use linux_cec.Operand.OneByte.{one_byte}
use linux_cec.Core.Slice.{IsByte}
use linux_cec.Operand.Buffer.Laws.{bounded_buffer-Lawful, IsBuffer}
use linux_cec.Core.PhysicalAddress.{PhysicalAddress}
use linux_cec.Operand.Newtype.{physical_address-Prefixed, IsAddress, physical_address}
use linux_cec.Cdc.Hpd.{
  hpd_state_error_code-Prefixed, input_port_hpd_state-Prefixed, hpd_state_error_code,
  input_port_hpd_state,
}
use linux_cec.Operand.Fields.{Validity, InitPrefixed}
use linux_cec.MessageEnum.Laws.{message-Lawful, IsValid, IsMessageEnum}
use linux_cec.Operand.Optional.{optional-Lawful, Optionally, optional}
use linux_cec.Cdc.State.{hec_state-Prefixed, hec_state}
use linux_cec.Operand.Scalars.{bool-Prefixed, u16, bool}
use linux_cec.MessageEnum.Expected.{expected_len-AllLonger, AllLonger, Longer}
use linux_cec.Cdc.HecField.{hec_field-Prefixed, IsHecField, HecField, hec_field}
use linux_cec.Operand.Buffer.{bounded_buffer, BoundedBuffer}
use linux_cec.Operand.Primitive.{IsEnum, try_from_primitive}
use linux_cec.Operand.Encodable.{Lawful}
use linux_cec.MessageEnum.{fields_of, len}
use linux_cec.Operand.Buffer.Loop.{IsElement}
use linux_cec.Cdc.Message.{
  hpd_report_state, hpd_set_state, hec_discover, hec_notify_alive, hec_request_deactivation,
  hec_set_state, hec_set_state_adjacent, inquire_state, hec_report_state, variant,
  hec_inquire_state, opcodes, cdc_message, cdc_message_operand, address_element, address_buffer,
  Message, Opcode,
}
use linux_cec.Prelude.{refl, ◌≤◌, arith}

opcodes-IsEnum : IsEnum opcodes
unfolding try_from_primitive
opcodes-IsEnum = record {
  discriminant-lt = elim [ hec_inquire_state ↦ omega arith | _ ↦ omega arith ];
  try_from-discriminant = elim [ hec_inquire_state ↦ refl | _ ↦ refl ];
}

address_element-IsElement : IsElement address_element IsAddress
address_element-IsElement = record {
  prefixed = physical_address-Prefixed;
  size_pos = omega arith;
  len-eq-size = λ x. unfold u16 in refl;
}

abbrev pub IsAddressBuffer : BoundedBuffer PhysicalAddress → Type 0
IsAddressBuffer = IsBuffer address_element IsAddress 3

abbrev pub validity : (o : Opcode) → Validity (fields_of (variant o))
validity hec_inquire_state = (IsAddress, (IsAddress, tt))
validity hec_report_state = (IsAddress, ((λ s. IsByte s.word), (Optionally IsHecField, tt)))
validity hec_set_state_adjacent = (IsAddress, ((λ b. Unit {0}), tt))
validity hec_set_state = (IsAddress, (IsAddress, ((λ b. Unit {0}), (IsAddressBuffer, tt))))
validity hec_request_deactivation = (IsAddress, (IsAddress, (IsAddress, tt)))
validity hec_notify_alive = tt
validity hec_discover = tt
validity hpd_set_state = ((λ s. IsByte s.word), tt)
validity hpd_report_state = ((λ s. IsByte s.word), tt)

hec_field_not_empty : (f : HecField) → IsHecField f → 1 ≤ hec_field.len f
unfolding hec_field
hec_field_not_empty f h = omega arith

lawful : (o : Opcode) → InitPrefixed (fields_of (variant o)) (validity o)
lawful hec_inquire_state = (physical_address-Prefixed, physical_address-Prefixed.lawful)
lawful hec_report_state = (
  physical_address-Prefixed,
  (
    hec_state-Prefixed,
    optional-Lawful hec_field IsHecField hec_field-Prefixed.lawful hec_field_not_empty,
  ),
)
lawful hec_set_state_adjacent = (physical_address-Prefixed, bool-Prefixed.lawful)
lawful hec_set_state = (
  physical_address-Prefixed,
  (
    physical_address-Prefixed,
    (bool-Prefixed, bounded_buffer-Lawful address_element IsAddress address_element-IsElement 3),
  ),
)
lawful hec_request_deactivation =
    (physical_address-Prefixed, (physical_address-Prefixed, physical_address-Prefixed.lawful))
lawful hec_notify_alive = tt
lawful hec_discover = tt
lawful hpd_set_state = input_port_hpd_state-Prefixed.lawful
lawful hpd_report_state = hpd_state_error_code-Prefixed.lawful

physical_address-Longer : Longer physical_address IsAddress
physical_address-Longer = unfold u16 in (2, refl, λ a h. omega arith)

bool-Longer : Longer bool (λ b. Unit {0})
bool-Longer = unfold one_byte in (1, refl, λ b h. omega arith)

hec_state-Longer : Longer hec_state (λ s. IsByte s.word)
hec_state-Longer = unfold one_byte in (1, refl, λ b h. omega arith)

input_port-Longer : Longer input_port_hpd_state (λ s. IsByte s.word)
input_port-Longer = unfold one_byte in (1, refl, λ b h. omega arith)

error_code-Longer : Longer hpd_state_error_code (λ s. IsByte s.word)
error_code-Longer = unfold one_byte in (1, refl, λ b h. omega arith)

hec_field-Longer : Longer (optional hec_field) (Optionally IsHecField)
hec_field-Longer = unfold optional in (0, refl, λ b h. omega arith)

buffer-Longer : Longer address_buffer IsAddressBuffer
buffer-Longer = unfold bounded_buffer in (0, refl, λ b h. omega arith)

all_longer : (o : Opcode) → AllLonger (fields_of (variant o)) (validity o)
all_longer hec_inquire_state = (physical_address-Longer, (physical_address-Longer, tt))
all_longer hec_report_state = (physical_address-Longer, (hec_state-Longer, (hec_field-Longer, tt)))
all_longer hec_set_state_adjacent = (physical_address-Longer, (bool-Longer, tt))
all_longer hec_set_state =
    (physical_address-Longer, (physical_address-Longer, (bool-Longer, (buffer-Longer, tt))))
all_longer hec_request_deactivation =
    (physical_address-Longer, (physical_address-Longer, (physical_address-Longer, tt)))
all_longer hec_notify_alive = tt
all_longer hec_discover = tt
all_longer hpd_set_state = (input_port-Longer, tt)
all_longer hpd_report_state = (error_code-Longer, tt)

pub cdc_message-IsMessageEnum : IsMessageEnum cdc_message validity
unfolding len
cdc_message-IsMessageEnum = record {
  opcodes-IsEnum = opcodes-IsEnum;
  lawful = lawful;
  expects = λ o. expected_len-AllLonger (variant o) (validity o) (all_longer o);
  build-parts = elim [ inquire_state a b ↦ refl | _ ↦ refl ];
  valid_build = elim [ hec_inquire_state ↦ λ t h. h | _ ↦ λ t h. h ];
  len_build = elim [ hec_inquire_state ↦ λ t. refl | _ ↦ λ t. refl ];
}

-- The fields of a CDC message are values of their types.
abbrev pub IsCdcMessage : Message → Type 0
IsCdcMessage = IsValid cdc_message validity

-- The CDC messages: a message with valid fields is written as bytes, `len` of them, and read back
-- from them; what is read from bytes has valid fields and is not longer than the bytes; and no
-- bytes make the decoder panic.
pub cdc_message_operand-Lawful : Lawful cdc_message_operand IsCdcMessage
cdc_message_operand-Lawful = message-Lawful cdc_message validity cdc_message-IsMessageEnum
