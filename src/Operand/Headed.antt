-- ===== src/Operand/Headed.antt =====
-- Operands whose first byte says which fields follow (linux-cec/src/operand.rs): the shape of
-- `DigitalServiceId` and of `RecordSource`.
pub mod Laws
pub mod Digital
pub mod DigitalLaws
pub mod Record
pub mod External
pub mod Timer
use linux_cec.Core.Range.{at_least}
use linux_cec.Core.Slice.{index}
use linux_cec.Operand.Fields.{decode, size, Tuple, encode, Curried, Fields}
use linux_cec.Operand.Encodable.{OperandEncodable}
use linux_cec.Core.Error.{◌>>=◌, ◌>>◌, Result, check}
use linux_cec.Prelude.{length, ◌+◌, List, ◌∷◌, ℕ}

-- The values `H` of the first byte with their conversions, and the fields for each.
pub record Headed (A H : Type 0) : Type 1 where
  pub into : H → ℕ
  pub try_from : ℕ → Result H
  pub fields : H → Fields
  pub build : (h : H) → Curried (fields h) A
  pub head : A → H
  pub parts : (a : A) → Tuple (fields (head a))
  pub least : ℕ

module _ {A H : Type 0} (s : Headed A H) where
  unfoldable pub headed_try_from_bytes : List ℕ → Result A
  unfolding check index
  headed_try_from_bytes bytes = do
    check (at_least s.least) (length bytes) "bytes"
    byte ← index bytes 0
    head ← s.try_from byte
    decode (s.fields head) A (s.build head) bytes 1

  abbrev pub headed : OperandEncodable A
  headed = record {
    to_bytes = λ a. s.into (s.head a) ∷ encode (s.fields (s.head a)) (s.parts a);
    try_from_bytes = headed_try_from_bytes;
    len = λ a. 1 + size (s.fields (s.head a)) (s.parts a);
    expected_len = at_least s.least;
  }
