-- ===== src/Operand/OneByte.antt =====
-- Operands of one byte: the shape that `Delay`, `AudioVolumeLevel`, `u8`, `bool` and `BcdByte`
-- write out (linux-cec/src/operand.rs), and that `derive(Operand)` generates for enums, flags and
-- bit fields (linux-cec-macros/src/lib.rs).
use linux_cec.Prelude.{ℕ, ◌≤◌, ◌<◌, ◌≡◌, ◌≢◌, refl, ◌∙◌, List, [], ◌∷◌, arith, length, All}
use linux_cec.Core.Range.{at_least, admits}
use linux_cec.Core.Error.{Result, ok, panicked, ◌>>=◌, ◌>>◌, check}
use linux_cec.Core.Slice.{IsByte, index}
use linux_cec.Operand.Encodable.{OperandEncodable, Lawful, Prefixed}

unfoldable pub one_byte : {A : Type 0} → (A → ℕ) → (ℕ → Result A) → OperandEncodable A
unfolding check admits index
one_byte into try_from = record {
  to_bytes = λ a. into a ∷ [];
  try_from_bytes = λ bytes. do
    check (at_least 1) (length bytes) "bytes"
    byte ← index bytes 0
    try_from byte;
  len = λ a. 1;
  expected_len = at_least 1;
}

-- What the two conversions of such an operand owe.
pub record Converts {A : Type 0} (into : A → ℕ) (try_from : ℕ → Result A) (P : A → Type 0)
    : Type 0 where
  pub into-IsByte : (a : A) → P a → into a < 256
  pub try_from-into : (a : A) → P a → try_from (into a) ≡ ok a
  pub try_from_valid : (b : ℕ) (a : A) → b < 256 → try_from b ≡ ok a → P a
  pub try_from-ne-panicked : (b : ℕ) → try_from b ≢ panicked

module _ {A : Type 0} (into : A → ℕ) (try_from : ℕ → Result A) (P : A → Type 0)
    (c : Converts into try_from P) where
  first_byte :
      (b : ℕ) (rest : List ℕ) → (one_byte into try_from).try_from_bytes (b ∷ rest) ≡ try_from b
  unfolding one_byte
  first_byte b rest = ground arith

  decoded :
      (bytes : List ℕ) (a : A)
      → All IsByte bytes
      → (one_byte into try_from).try_from_bytes bytes ≡ ok a
      → P a
  unfolding one_byte
  decoded [] a h e = cc
  decoded (b ∷ rest) a h e = c.try_from_valid b a h.0 (rw first_byte at e)

  not_empty :
      (bytes : List ℕ) (a : A)
      → (one_byte into try_from).try_from_bytes bytes ≡ ok a
      → 1 ≤ length bytes
  unfolding one_byte
  not_empty [] a e = cc
  not_empty (b ∷ rest) a e = omega arith

  no_panic : (bytes : List ℕ) → (one_byte into try_from).try_from_bytes bytes ≢ panicked
  unfolding one_byte
  no_panic [] e = cc
  no_panic (b ∷ rest) e = c.try_from-ne-panicked b (rw first_byte at e)

  pub one_byte-Lawful : Lawful (one_byte into try_from) P
  one_byte-Lawful = record {
    to_bytes-IsByte = λ a p. unfold one_byte in (c.into-IsByte a p, tt);
    length-to_bytes = λ a p. unfold one_byte in refl;
    try_from_bytes-to_bytes =
        λ a p. unfold one_byte in (first_byte (into a) [] ∙ c.try_from-into a p);
    decoded_valid = decoded;
    len_le = λ bytes a e. unfold one_byte in not_empty bytes a e;
    never_panics = no_panic;
  }

  pub one_byte-Prefixed : Prefixed (one_byte into try_from) P
  one_byte-Prefixed = record {
    lawful = one_byte-Lawful;
    overfull = λ a rest p. unfold one_byte in (first_byte (into a) rest ∙ c.try_from-into a p);
  }
