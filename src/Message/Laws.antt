-- ===== src/Message/Laws.antt =====
-- The codec of CEC messages is lawful (linux-cec/src/message.rs).
use linux_cec.MessageEnum.{message_operand, len}
use linux_cec.MessageEnum.Laws.{message-Lawful, IsMessageEnum, IsValid}
use linux_cec.Operand.Encodable.{Lawful, OperandEncodable}
use linux_cec.Message.Opcode.{op_active_source, opcodes-IsEnum}
use linux_cec.Message.Data.{Message, active_source}
use linux_cec.Message.Parts.{cec_message}
use linux_cec.Message.Lawful.{lawful}
use linux_cec.Message.Validity.{validity}
use linux_cec.Prelude.{refl}
use linux_cec.Message.Expects.{expects}

pub cec_message-IsMessageEnum : IsMessageEnum cec_message validity
unfolding len
cec_message-IsMessageEnum = record {
  opcodes-IsEnum = opcodes-IsEnum;
  lawful = lawful;
  expects = expects;
  build-parts = elim [ active_source x0 ↦ refl | _ ↦ refl ];
  valid_build = elim [ op_active_source ↦ λ t h. h | _ ↦ λ t h. h ];
  len_build = elim [ op_active_source ↦ λ t. refl | _ ↦ λ t. refl ];
}

abbrev pub cec_message_operand : OperandEncodable Message
cec_message_operand = message_operand cec_message

abbrev pub IsCecMessage : Message → Type 0
IsCecMessage = IsValid cec_message validity

-- The CEC messages: a message with valid fields is written as bytes, `len` of them, and read back
-- from them, whatever its opcode; what is read from bytes has valid fields and is not longer than
-- the bytes; and no bytes make the decoder panic.
pub cec_message_operand-Lawful : Lawful cec_message_operand IsCecMessage
cec_message_operand-Lawful = message-Lawful cec_message validity cec_message-IsMessageEnum
