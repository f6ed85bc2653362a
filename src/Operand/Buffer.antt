-- ===== src/Operand/Buffer.antt =====
-- `BoundedBufferOperand` (linux-cec/src/operand.rs): at most `S` elements, padded with the default.
pub mod Loop
pub mod Laws
pub mod Bytes
use linux_cec.Prelude.{
  ℕ, zero, suc, ◌+◌, ◌-◌, ◌*◌, List, [], ◌∷◌, ◌++◌, length, take, replicate, ltb, leb, ◌&&◌,
  if◌then◌else◌, Bool, true, false,
}
use Prim.Native.Nat.{min}
use linux_cec.Core.Range.{Range, at_least, at_most}
use linux_cec.Core.Error.{Result, ok, panicked, ◌>>=◌, ◌>>◌, map_err, add_offset, check}
use linux_cec.Core.Slice.{slice_from}
use linux_cec.Operand.Encodable.{OperandEncodable}

pub record BoundedBuffer (T : Type 0) : Type 0 where
  pub buffer : List T
  pub len : ℕ

-- What the buffer is made of: `S`, the type's codec, its `size_of`, and its default.
pub record Element (T : Type 0) : Type 0 where
  pub codec : OperandEncodable T
  pub size_of : ℕ
  pub default : T

abbrev pub concat_bytes : {T : Type 0} → OperandEncodable T → List T → List ℕ
concat_bytes c [] = []
concat_bytes c (x ∷ xs) = c.to_bytes x ++ concat_bytes c xs

-- The loop of `try_from_bytes`, with fuel; `panicked` also stands for a loop that is out of fuel.
unfoldable pub read_elements :
    {T : Type 0} → Element T → ℕ → List ℕ → ℕ → ℕ → List T → Result (List T)
read_elements e capacity bytes zero offset buf = panicked
read_elements e capacity bytes (suc fuel) offset buf =
    elim (ltb offset (capacity * e.size_of) && leb (offset + e.size_of) (length bytes)) [
      | true ↦ (do
        rest ← slice_from bytes offset
        x ← map_err (add_offset offset) (e.codec.try_from_bytes rest)
        read_elements e capacity bytes fuel (offset + e.size_of) (buf ++ (x ∷ [])))
      | false ↦ ok buf
    ]

-- `buf.resize(S, T::default())`, for the at most `S` elements that were read.
unfoldable pub resized : {T : Type 0} → Element T → ℕ → List T → BoundedBuffer T
resized e capacity buf = record {
  buffer = buf ++ replicate (capacity - length buf) e.default;
  len = length buf;
}

-- Its `len` is at most `S`, so that the slice of `to_bytes` is within the buffer.
unfoldable pub bounded_buffer : {T : Type 0} → Element T → ℕ → OperandEncodable (BoundedBuffer T)
unfolding resized
bounded_buffer e capacity = record {
  to_bytes = λ b. concat_bytes e.codec (take b.len b.buffer);
  try_from_bytes = λ bytes. (do
    buf ← read_elements e capacity bytes (suc capacity) 0 []
    ok (resized e capacity buf));
  len = λ b. min b.len capacity * e.size_of;
  expected_len = at_least 0;
}

-- `Default`, and `TryFrom<&[T]>`.
unfoldable pub empty_buffer : {T : Type 0} → Element T → ℕ → BoundedBuffer T
empty_buffer e capacity = record { buffer = replicate capacity e.default; len = 0 }

unfoldable pub try_from_slice : {T : Type 0} → Element T → ℕ → List T → Result (BoundedBuffer T)
unfolding resized check
try_from_slice e capacity arr = do
  check (at_most capacity) (length arr) "elements"
  ok (resized e capacity arr)
