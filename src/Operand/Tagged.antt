-- ===== src/Operand/Tagged.antt =====
-- `TaggedLengthBuffer` (linux-cec/src/operand.rs): the top bit of each byte says that one more
-- follows. `DeviceFeatures` and `RcProfile` are read this way.
pub mod Extra
pub mod Laws
pub mod Instances
pub mod Features
use linux_cec.Prelude.{ℕ, suc, ◌+◌, List, [], ◌∷◌, length, bit_and, bit_or, ◌==◌, if◌then◌else◌}
use linux_cec.Core.Range.{Range, at_least, admits}
use linux_cec.Core.Error.{Result, ok, ◌>>=◌, ◌>>◌, check}
use linux_cec.Core.Slice.{index}
use linux_cec.Operand.Encodable.{OperandEncodable}

-- The trait, with the conversions of `FixedParam`.
pub record TaggedLengthBuffer (U T : Type 0) : Type 0 where
  pub try_new : T → List ℕ → Result U
  pub fixed_param : U → T
  pub extra_params : U → List ℕ
  pub into : T → ℕ
  pub try_from : ℕ → Result T

-- All but the last byte have the top bit set.
unfoldable pub write_extra : List ℕ → List ℕ
write_extra [] = []
write_extra (b ∷ []) = bit_and b 0x7f ∷ []
write_extra (b ∷ c ∷ bytes) = bit_or b 0x80 ∷ write_extra (c ∷ bytes)

unfoldable pub tagged_to_bytes : {U T : Type 0} → TaggedLengthBuffer U T → U → List ℕ
unfolding write_extra
tagged_to_bytes t u = elim (t.extra_params u) [
  | [] ↦ bit_and (t.into (t.fixed_param u)) 0x7f ∷ []
  | b ∷ bytes ↦ bit_or (t.into (t.fixed_param u)) 0x80 ∷ write_extra (b ∷ bytes)
]

-- The loop of `try_from_bytes`, over the bytes from offset 1 on.
unfoldable pub read_extra : List ℕ → List ℕ
read_extra [] = []
read_extra (byte ∷ bytes) =
    let more = read_extra bytes in bit_and byte 0x7f ∷ (if bit_and byte 0x80 == 0 then [] else more)

abbrev pub tail_of : List ℕ → List ℕ
tail_of [] = []
tail_of (b ∷ bytes) = bytes

unfoldable pub tagged_try_from_bytes : {U T : Type 0} → TaggedLengthBuffer U T → List ℕ → Result U
unfolding check admits index read_extra
tagged_try_from_bytes t bytes = do
  check (at_least 1) (length bytes) "bytes"
  head ← index bytes 0
  first ← t.try_from (bit_and head 0x7f)
  t.try_new first (if bit_and head 0x80 == 0x80 then read_extra (tail_of bytes) else [])

abbrev pub tagged : {U T : Type 0} → TaggedLengthBuffer U T → OperandEncodable U
tagged t = record {
  to_bytes = tagged_to_bytes t;
  try_from_bytes = tagged_try_from_bytes t;
  len = λ u. 1 + length (t.extra_params u);
  expected_len = at_least 1;
}
