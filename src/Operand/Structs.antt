-- ===== src/Operand/Structs.antt =====
-- Structs with named fields: `derive(Operand)` (linux-cec-macros/src/lib.rs), and the structs of
-- linux-cec/src/operand.rs that use it.
pub mod Laws
pub mod Timers
pub mod Services
use linux_cec.Prelude.{ℕ, ◌≡◌, refl, List, length}
use linux_cec.Core.Range.{at_least}
use linux_cec.Core.Error.{Result, ◌>>=◌, ◌>>◌, check}
use linux_cec.Operand.Encodable.{OperandEncodable}
use linux_cec.Operand.Fields.{Fields, Curried, Tuple, encode, decode}

-- A struct: its fields, its constructor, its fields' values, and `size_of` of it, which is the sum
-- of the fields' sizes, since none of these structs has padding.
pub record Struct (S : Type 0) : Type 1 where
  pub fields : Fields
  pub build : Curried fields S
  pub parts : S → Tuple fields
  pub size_of : ℕ

unfoldable pub derive_struct : {S : Type 0} → Struct S → OperandEncodable S
derive_struct {S} s = record {
  to_bytes = λ a. encode s.fields (s.parts a);
  try_from_bytes = λ bytes. (do
    check (at_least s.size_of) (length bytes) "bytes"
    decode s.fields S s.build bytes 0);
  len = λ a. s.size_of;
  expected_len = at_least s.size_of;
}
