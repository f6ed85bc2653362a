-- ===== src/Operand/Encodable.antt =====
-- The trait `OperandEncodable` (linux-cec/src/operand.rs), and what an implementation owes.
use linux_cec.Prelude.{ℕ, ◌≤◌, ◌≡◌, ◌≢◌, List, ◌++◌, length, All}
use linux_cec.Core.Range.{Range}
use linux_cec.Core.Error.{Result, ok, panicked}
use linux_cec.Core.Slice.{IsByte}

pub record OperandEncodable (A : Type 0) : Type 0 where
  pub to_bytes : A → List ℕ
  pub try_from_bytes : List ℕ → Result A
  pub len : A → ℕ
  pub expected_len : Range ℕ

-- What a codec owes for the values that satisfy `P`: its output is bytes, `len` of them, and is
-- read back; what it reads from bytes satisfies `P` and is not longer than they are; and it never
-- panics, whatever it is given.
pub record Lawful {A : Type 0} (c : OperandEncodable A) (P : A → Type 0) : Type 0 where
  pub to_bytes-IsByte : (a : A) → P a → All IsByte (c.to_bytes a)
  pub length-to_bytes : (a : A) → P a → length (c.to_bytes a) ≡ c.len a
  pub try_from_bytes-to_bytes : (a : A) → P a → c.try_from_bytes (c.to_bytes a) ≡ ok a
  pub decoded_valid :
      (bytes : List ℕ) (a : A) → All IsByte bytes → c.try_from_bytes bytes ≡ ok a → P a
  pub len_le : (bytes : List ℕ) (a : A) → c.try_from_bytes bytes ≡ ok a → c.len a ≤ length bytes
  pub never_panics : (bytes : List ℕ) → c.try_from_bytes bytes ≢ panicked

-- A codec that knows where its value ends also reads it back with any bytes behind it.
pub record Prefixed {A : Type 0} (c : OperandEncodable A) (P : A → Type 0) : Type 0 where
  pub lawful : Lawful c P
  pub overfull : (a : A) (rest : List ℕ) → P a → c.try_from_bytes (c.to_bytes a ++ rest) ≡ ok a
