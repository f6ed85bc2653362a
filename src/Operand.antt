-- ===== src/Operand.antt =====
-- The operands of messages (linux-cec/src/operand.rs).
pub mod Encodable
pub mod Fields
pub mod OneByte
pub mod Primitive
pub mod Enums
pub mod Scalars
pub mod Newtype
pub mod Ranged
pub mod Optional
pub mod Buffer
pub mod Tagged
pub mod Flags
pub mod Bitfields
pub mod Structs
pub mod Refined
pub mod Headed
pub mod Tuner
pub mod UiCommand
